-- ===== src/Syntax/Parser/Packages.antt =====
-- adapter/syntax/parser.go: parsePackage.
use sysml_federation.Base.{ℕ, [], ◌∷◌, ◌++◌, true, none, some, bytes}
use sysml_federation.Syntax.Ast.{Package}
use sysml_federation.Syntax.Cursor.{
  P, pure, ◌>>=◌, ◌>>◌, when◌run◌otherwise◌, ◌or_else◌, is, is_then, expect, name, short_name, end,
  unsupported, once, doc, body,
}
use sysml_federation.Syntax.Expr.{Numbers}
use sysml_federation.Syntax.Parser.Attributes.{parse_attribute}
use sysml_federation.Syntax.Parser.Parts.{parse_part_usage, parse_part_def}
use sysml_federation.Syntax.Parser.Ports.{parse_import, parse_item_def, parse_port_def}
use sysml_federation.Syntax.Parser.Requirements.{parse_requirement_def, parse_requirement_usage}
use sysml_federation.Syntax.Parser.Verifications.{
  parse_verification_def, parse_verification_usage, parse_derivation,
}

module _ {F : Type 0} (numbers : Numbers F) (depth : ℕ) where
  -- The cases from `verification` on.
  unfoldable pub late_member : Package F → P (Package F)
  late_member p =
      when is_then (bytes "verification") (bytes "def")
      run (do
        x ← parse_verification_def
        pure (record p { verification_defs = p.verification_defs ++ x ∷ [] }))
      otherwise (when is (bytes "verification")
          run (do
            x ← parse_verification_usage
            pure (record p { verifications = p.verifications ++ x ∷ [] }))
          otherwise (when is (bytes "#")
              run (do
                x ← parse_derivation
                pure (record p { derivations = p.derivations ++ x ∷ [] }))
              otherwise unsupported (bytes "package")))

  -- The cases from `part` on.
  unfoldable pub middle_member : Package F → P (Package F)
  middle_member p =
      when is (bytes "abstract") or_else is_then (bytes "part") (bytes "def")
      run (do
        x ← parse_part_def numbers depth
        pure (record p { part_defs = p.part_defs ++ x ∷ [] }))
      otherwise (when is (bytes "part")
          run (do x ← parse_part_usage numbers depth; pure (record p { parts = p.parts ++ x ∷ [] }))
          otherwise (when is_then (bytes "requirement") (bytes "def")
              run (do
                x ← parse_requirement_def numbers
                pure (record p { requirement_defs = p.requirement_defs ++ x ∷ [] }))
              otherwise (when is (bytes "requirement")
                  run (do
                    x ← parse_requirement_usage numbers
                    pure (record p { requirements = p.requirements ++ x ∷ [] }))
                  otherwise late_member p)))

  unfoldable pub package_member : Package F → P (Package F)
  package_member p =
      when is (bytes "doc")
      run (do once p.doc (bytes "doc") (bytes "package"); x ← doc; pure (record p { doc = some x }))
      otherwise (when is (bytes "private") or_else (is (bytes "public") or_else is (bytes "import"))
          run (do x ← parse_import; pure (record p { imports = p.imports ++ x ∷ [] }))
          otherwise (when is (bytes "attribute")
              run (do
                x ← parse_attribute numbers
                pure (record p { attributes = p.attributes ++ x ∷ [] }))
              otherwise (when is (bytes "item")
                  run (do x ← parse_item_def; pure (record p { item_defs = p.item_defs ++ x ∷ [] }))
                  otherwise (when is (bytes "port")
                      run (do
                        x ← parse_port_def
                        pure (record p { port_defs = p.port_defs ++ x ∷ [] }))
                      otherwise middle_member p))))

  unfoldable pub parse_package : P (Package F)
  parse_package = do
    t ← expect (bytes "package")
    s ← short_name
    n ← name
    expect (bytes "{")
    p ← body true package_member (record {
      short_name = s;
      name = n;
      doc = none;
      imports = [];
      attributes = [];
      item_defs = [];
      port_defs = [];
      part_defs = [];
      requirement_defs = [];
      verification_defs = [];
      parts = [];
      requirements = [];
      verifications = [];
      derivations = [];
      span = t.span;
    })
    expect (bytes "}")
    span ← end t.span.start
    pure (record p { span = span })
