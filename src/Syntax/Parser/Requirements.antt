-- ===== src/Syntax/Parser/Requirements.antt =====
-- adapter/syntax/parser.go: requirements, subjects and constraints.
use sysml_federation.Base.{[], ◌∷◌, ◌++◌, false, none, some, bytes}
use sysml_federation.Syntax.Ast.{
  Subject, RequireConstraint, RequirementBody, RequirementDef, RequirementUsage,
}
use sysml_federation.Syntax.Cursor.{
  P, pure, ◌>>=◌, ◌>>◌, when◌run◌otherwise◌, is, accept, expect, name, qualified_name, short_name,
  end, unsupported, once, doc, body,
}
use sysml_federation.Syntax.Expr.{Numbers, parse_chain, parse_comparison, parse_operand}
use sysml_federation.Syntax.Parser.Attributes.{parse_attribute}
use sysml_federation.Syntax.Parser.Ports.{optional_name}
use sysml_federation.Syntax.Token.{Span}

-- The three forms behind the keyword; the span is set at the end.
unfoldable pub subject_form : Span → P Subject
subject_form span =
    when accept (bytes ":>>")
    run (do
      n ← name
      expect (bytes "=")
      c ← parse_chain
      pure (record { name = n; type = []; value = some c; span = span }))
    otherwise (do
      n ← name
      when accept (bytes ":>")
          run (do
            c ← parse_chain
            pure (record { name = n; type = []; value = some c; span = span }))
          otherwise (do
            expect (bytes ":")
            type ← qualified_name
            pure (record { name = n; type = type; value = none; span = span })))

unfoldable pub parse_subject : P Subject
parse_subject = do
  t ← expect (bytes "subject")
  s ← subject_form t.span
  expect (bytes ";")
  span ← end t.span.start
  pure (record s { span = span })

module _ {F : Type 0} (numbers : Numbers F) where
  unfoldable pub parse_constraint : P (RequireConstraint F)
  parse_constraint = do
    t ← expect (bytes "require")
    expect (bytes "constraint")
    expect (bytes "{")
    left ← parse_operand numbers
    op ← parse_comparison
    right ← parse_operand numbers
    expect (bytes "}")
    span ← end t.span.start
    pure (record { left = left; op = op; right = right; span = span })

  unfoldable pub requirement_member : RequirementBody F → P (RequirementBody F)
  requirement_member b =
      when is (bytes "doc")
      run (do
        once b.doc (bytes "doc") (bytes "requirement")
        x ← doc
        pure (record b { doc = some x }))
      otherwise (when is (bytes "subject")
          run (do
            once b.subject (bytes "subject") (bytes "requirement")
            x ← parse_subject
            pure (record b { subject = some x }))
          otherwise (when is (bytes "attribute")
              run (do
                x ← parse_attribute numbers
                pure (record b { attributes = b.attributes ++ x ∷ [] }))
              otherwise (when is (bytes "require")
                  run (do
                    once b.constraint (bytes "require constraint") (bytes "requirement")
                    x ← parse_constraint
                    pure (record b { constraint = some x }))
                  otherwise unsupported (bytes "requirement"))))

  unfoldable pub requirement_body : P (RequirementBody F)
  requirement_body = do
    expect (bytes "{")
    b ←
        body false requirement_member
          (record { doc = none; subject = none; attributes = []; constraint = none })
    expect (bytes "}")
    pure b

  unfoldable pub parse_requirement_def : P (RequirementDef F)
  parse_requirement_def = do
    t ← expect (bytes "requirement")
    expect (bytes "def")
    s ← short_name
    n ← name
    base ← optional_name (bytes ":>")
    b ← requirement_body
    span ← end t.span.start
    pure (record { short_name = s; name = n; specializes = base; body = b; span = span })

  unfoldable pub parse_requirement_usage : P (RequirementUsage F)
  parse_requirement_usage = do
    t ← expect (bytes "requirement")
    s ← short_name
    n ← name
    type ← optional_name (bytes ":")
    b ← requirement_body
    span ← end t.span.start
    pure (record { short_name = s; name = n; type = type; body = b; span = span })
