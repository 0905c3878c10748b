-- ===== src/Syntax/Parser/Attributes.antt =====
-- adapter/syntax/parser.go: parseAttribute and attributeRest. The fuel bounds the depth of the
-- bodies; the depth of the expressions is bounded by the number of tokens, as they are.
use sysml_federation.Base.{ℕ, zero, suc, [], Bool, true, false, Option, none, some, Bytes, bytes}
use sysml_federation.Syntax.Ast.{
  Expr, AttributeUsage, attribute_usage, AttributeUsages, no_attributes, attributes_then,
}
use sysml_federation.Syntax.Cursor.{
  P, pure, ◌>>=◌, ◌>>◌, when◌run◌otherwise◌, ◌or_else◌, exhausted, rounds, is, accept, expect, name,
  short_name, end, here, unsupported, body,
}
use sysml_federation.Syntax.Expr.{Numbers, parse_expr}
use sysml_federation.Syntax.Parser.Ports.{optional_name}

-- Whether the usage redefines, and its short name.
unfoldable pub redefinition : P (Bool × Bytes)
redefinition =
    when accept (bytes ":>>") or_else accept (bytes "redefines")
    run pure (true, [])
    otherwise (do s ← short_name; pure (false, s))

module _ {F : Type 0} (numbers : Numbers F) where
  unfoldable pub bound_value : P (Option (Expr F))
  bound_value =
      when accept (bytes "=")
      run (do depth ← rounds; e ← parse_expr numbers depth; pure (some e))
      otherwise pure none

  -- One member of an attribute's body; `rest` is attributeRest.
  unfoldable pub inner_attribute :
      (ℕ → P (AttributeUsage F)) → AttributeUsages F → P (AttributeUsages F)
  inner_attribute rest inner = do
    start ← here
    when is (bytes ":>>") or_else (is (bytes "redefines") or_else is (bytes "attribute"))
        run pure tt
        otherwise unsupported (bytes "attribute")
    accept (bytes "attribute")
    a ← rest start
    pure (attributes_then inner a)

  unfoldable pub attribute_body : (ℕ → P (AttributeUsage F)) → P (AttributeUsages F)
  attribute_body rest =
      when accept (bytes "{")
      run (do
        inner ← body true (inner_attribute rest) no_attributes
        expect (bytes "}")
        pure inner)
      otherwise (do expect (bytes ";"); pure no_attributes)

  unfoldable pub attribute_rest : ℕ → ℕ → P (AttributeUsage F)
  attribute_rest zero start = exhausted
  attribute_rest (suc depth) start = do
    r ← redefinition
    n ← name
    type ← optional_name (bytes ":")
    value ← bound_value
    inner ← attribute_body (attribute_rest depth)
    span ← end start
    pure (
        attribute_usage
          (record {
            short_name = r.1;
            name = n;
            type = type;
            redefines = r.0;
            value = value;
            span = span;
          })
          inner)

  unfoldable pub parse_attribute : P (AttributeUsage F)
  parse_attribute = do
    t ← expect (bytes "attribute")
    depth ← rounds
    attribute_rest depth t.span.start
