-- ===== src/Syntax/Expr.antt =====
-- adapter/syntax/expr.go. `rec` is parseExpr for a parenthesised expression, with less fuel.
pub mod Total
use sysml_federation.Base.{
  ℕ, zero, suc, List, [], ◌∷◌, ◌++◌, Bool, false, not, ◌&&◌, ◌||◌, Option, none, some,
  if◌then◌else◌, Bytes, bytes, bytes_eq,
}
use sysml_federation.Syntax.Ast.{
  FeatureChain, Comparison, ge, gt, le, lt, eq, Operator, add, sub, mul, div, Literal, Expr,
  literal, feature_chain, binary,
}
use sysml_federation.Syntax.Cursor.{
  P, pure, ◌>>=◌, ◌>>◌, when◌run◌otherwise◌, test◌run◌otherwise◌, ◌or_else◌, exhausted, rounds,
  peek, ahead, next, fail_expected, is, accept, expect, name, qualified_name, end, here,
}
use sysml_federation.Syntax.Token.{Kind, kind_eq, Token}

-- What the parser calls on numbers that is not under src/: strconv.ParseFloat, whose error it
-- ignores, and the negation of a float64.
pub record Numbers (F : Type 0) : Type 0 where
  pub parse_float : Bytes → F
  pub negate : F → F

unfoldable pub is_arrow : P Bool
is_arrow =
    when is (bytes "-")
    run (do t ← ahead; pure (kind_eq t.kind Kind.punct && bytes_eq t.text (bytes ">")))
    otherwise pure false

-- (p.is("+") || p.is("-")) && !p.isArrow()
unfoldable pub is_additive : P Bool
is_additive =
    when is (bytes "+") or_else is (bytes "-")
    run (do arrow ← is_arrow; pure (not arrow))
    otherwise pure false

unfoldable pub chain_loop : ℕ → List Bytes → P (List Bytes)
chain_loop zero names = exhausted
chain_loop (suc fuel) names =
    when accept (bytes ".")
    run (do n ← name; chain_loop fuel (names ++ n ∷ []))
    otherwise pure names

unfoldable pub parse_chain : P FeatureChain
parse_chain = do
  start ← here
  n ← name
  fuel ← rounds
  names ← chain_loop fuel (n ∷ [])
  span ← end start
  pure (record { names = names; span = span })

comparisons : List (Bytes × Comparison)
comparisons =
    (bytes ">=", ge) ∷ (bytes ">", gt) ∷ (bytes "<=", le) ∷ (bytes "<", lt) ∷ (bytes "==", eq) ∷ []

find_comparison : List (Bytes × Comparison) → Bytes → Option Comparison
find_comparison [] text = none
find_comparison ((k, c) ∷ m) text = if bytes_eq k text then some c else find_comparison m text

-- comparisons[text]
unfoldable pub comparison_of : Bytes → Option Comparison
unfolding comparisons find_comparison
comparison_of text = find_comparison comparisons text

-- Behind the lookup in the map.
unfoldable pub take_comparison : Kind → Option Comparison → P Comparison
take_comparison kind none = fail_expected (bytes "a comparison operator")
take_comparison kind (some c) =
    test not (kind_eq kind Kind.punct)
    run fail_expected (bytes "a comparison operator")
    otherwise (do next; pure c)

unfoldable pub parse_comparison : P Comparison
parse_comparison = do t ← peek; take_comparison t.kind (comparison_of t.text)

-- A number, or the minus sign of one.
abbrev pub starts_literal : Token → Bool
starts_literal t =
    kind_eq t.kind Kind.number || kind_eq t.kind Kind.punct && bytes_eq t.text (bytes "-")

abbrev pub starts_chain : Token → Bool
starts_chain t = kind_eq t.kind Kind.ident || kind_eq t.kind Kind.name

module _ {F : Type 0} (numbers : Numbers F) where
  -- Behind the sign: the number, and the unit in brackets.
  unfoldable pub literal_rest : ℕ → Bool → P (Literal F)
  literal_rest start neg = do
    t ← peek
    test not (kind_eq t.kind Kind.number)
        run fail_expected (bytes "a number after '-'")
        otherwise (do
          next
          let value = numbers.parse_float t.text
          let number = if neg then numbers.negate value else value
          span ← end start
          when accept (bytes "[")
              run (do
                unit ← qualified_name
                expect (bytes "]")
                pure (record { number = number; unit = unit; span = span }))
              otherwise pure (record { number = number; unit = []; span = span }))

  unfoldable pub parse_literal : P (Literal F)
  parse_literal = do start ← here; neg ← accept (bytes "-"); literal_rest start neg

  unfoldable pub parse_operand : P (Expr F)
  parse_operand = do
    t ← peek
    test starts_literal t
        run (do l ← parse_literal; pure (literal l))
        otherwise (test starts_chain t
            run (do c ← parse_chain; pure (feature_chain c))
            otherwise fail_expected (bytes "a feature chain or a number"))

  unfoldable pub parse_primary : P (Expr F) → P (Expr F)
  parse_primary rec = do
    t ← peek
    test starts_literal t
        run (do l ← parse_literal; pure (literal l))
        otherwise (test starts_chain t
            run (do c ← parse_chain; pure (feature_chain c))
            otherwise (test kind_eq t.kind Kind.punct && bytes_eq t.text (bytes "(")
                run (do next; e ← rec; expect (bytes ")"); pure e)
                otherwise fail_expected (bytes "a number, a feature chain or '('")))

  -- for p.is("*") || p.is("/")
  unfoldable pub term_loop : P (Expr F) → ℕ → ℕ → Expr F → P (Expr F)
  term_loop rec start zero left = exhausted
  term_loop rec start (suc fuel) left =
      when is (bytes "*") or_else is (bytes "/")
      run (do
        t ← next
        let op = if bytes_eq t.text (bytes "/") then div else mul
        right ← parse_primary rec
        span ← end start
        term_loop rec start fuel (binary op left right span))
      otherwise pure left

  unfoldable pub parse_term : P (Expr F) → P (Expr F)
  parse_term rec = do
    start ← here
    left ← parse_primary rec
    fuel ← rounds
    term_loop rec start fuel left

  unfoldable pub expr_loop : P (Expr F) → ℕ → ℕ → Expr F → P (Expr F)
  expr_loop rec start zero left = exhausted
  expr_loop rec start (suc fuel) left =
      when is_additive
      run (do
        t ← next
        let op = if bytes_eq t.text (bytes "-") then sub else add
        right ← parse_term rec
        span ← end start
        expr_loop rec start fuel (binary op left right span))
      otherwise pure left

  -- The fuel bounds the depth of the parentheses.
  unfoldable pub parse_expr : ℕ → P (Expr F)
  parse_expr zero = exhausted
  parse_expr (suc depth) = do
    start ← here
    left ← parse_term (parse_expr depth)
    fuel ← rounds
    expr_loop (parse_expr depth) start fuel left
