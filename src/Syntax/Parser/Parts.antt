-- ===== src/Syntax/Parser/Parts.antt =====
-- adapter/syntax/parser.go: part definitions and usages. The fuel bounds the depth of the bodies.
use sysml_federation.Base.{ℕ, zero, suc, [], ◌∷◌, ◌++◌, true, none, some, bytes}
use sysml_federation.Syntax.Ast.{
  PartFields, PartUsage, part_usage, PartUsages, no_parts, parts_then, PartDef,
}
use sysml_federation.Syntax.Cursor.{
  P, pure, ◌>>=◌, ◌>>◌, when◌run◌otherwise◌, exhausted, is, accept, expect, name, short_name, end,
  here, unsupported, once, doc, body,
}
use sysml_federation.Syntax.Expr.{Numbers}
use sysml_federation.Syntax.Parser.Attributes.{parse_attribute}
use sysml_federation.Syntax.Parser.Ports.{
  optional_name, parse_port_usage, parse_connect, parse_satisfy,
}

module _ {F : Type 0} (numbers : Numbers F) where
  -- A part usage in the making: its fields and its parts.
  abbrev pub PartDraft : Type 0
  PartDraft = PartFields F × PartUsages F

  unfoldable pub part_member : P (PartUsage F) → PartDraft → P PartDraft
  part_member rec (u, parts) =
      when is (bytes "doc")
      run (do
        once u.doc (bytes "doc") (bytes "part")
        x ← doc
        pure (record u { doc = some x }, parts))
      otherwise (when is (bytes "attribute")
          run (do
            x ← parse_attribute numbers
            pure (record u { attributes = u.attributes ++ x ∷ [] }, parts))
          otherwise (when is (bytes "port")
              run (do x ← parse_port_usage; pure (record u { ports = u.ports ++ x ∷ [] }, parts))
              otherwise (when is (bytes "part")
                  run (do x ← rec; pure (u, parts_then parts x))
                  otherwise (when is (bytes "connect")
                      run (do
                        x ← parse_connect
                        pure (record u { connects = u.connects ++ x ∷ [] }, parts))
                      otherwise (when is (bytes "satisfy")
                          run (do
                            x ← parse_satisfy
                            pure (record u { satisfies = u.satisfies ++ x ∷ [] }, parts))
                          otherwise unsupported (bytes "part"))))))

  unfoldable pub part_body : P (PartUsage F) → PartDraft → P PartDraft
  part_body rec u =
      when accept (bytes "{")
      run (do x ← body true (part_member rec) u; expect (bytes "}"); pure x)
      otherwise (do expect (bytes ";"); pure u)

  unfoldable pub parse_part_usage : ℕ → P (PartUsage F)
  parse_part_usage zero = exhausted
  parse_part_usage (suc depth) = do
    t ← expect (bytes "part")
    s ← short_name
    n ← name
    type ← optional_name (bytes ":")
    u ← part_body (parse_part_usage depth) (
      record {
        short_name = s;
        name = n;
        type = type;
        doc = none;
        attributes = [];
        ports = [];
        connects = [];
        satisfies = [];
        span = t.span;
      },
      no_parts,
    )
    span ← end t.span.start
    pure (part_usage (record u.0 { span = span }) u.1)

  unfoldable pub part_def_member : P (PartUsage F) → PartDef F → P (PartDef F)
  part_def_member rec d =
      when is (bytes "doc")
      run (do
        once d.doc (bytes "doc") (bytes "part definition")
        x ← doc
        pure (record d { doc = some x }))
      otherwise (when is (bytes "attribute")
          run (do
            x ← parse_attribute numbers
            pure (record d { attributes = d.attributes ++ x ∷ [] }))
          otherwise (when is (bytes "port")
              run (do x ← parse_port_usage; pure (record d { ports = d.ports ++ x ∷ [] }))
              otherwise (when is (bytes "part")
                  run (do x ← rec; pure (record d { parts = d.parts ++ x ∷ [] }))
                  otherwise unsupported (bytes "part definition"))))

  unfoldable pub part_def_body : P (PartUsage F) → PartDef F → P (PartDef F)
  part_def_body rec d =
      when accept (bytes "{")
      run (do x ← body true (part_def_member rec) d; expect (bytes "}"); pure x)
      otherwise (do expect (bytes ";"); pure d)

  unfoldable pub parse_part_def : ℕ → P (PartDef F)
  parse_part_def depth = do
    start ← here
    is_abstract ← accept (bytes "abstract")
    t ← expect (bytes "part")
    expect (bytes "def")
    s ← short_name
    n ← name
    base ← optional_name (bytes ":>")
    d ← part_def_body (parse_part_usage depth) (record {
      abstract = is_abstract;
      short_name = s;
      name = n;
      specializes = base;
      doc = none;
      attributes = [];
      ports = [];
      parts = [];
      span = t.span;
    })
    span ← end start
    pure (record d { span = span })
