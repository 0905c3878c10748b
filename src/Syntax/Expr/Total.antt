-- ===== src/Syntax/Expr/Total.antt =====
-- Each part of the expression parser consumes a token and ends inside the tokens, or refuses.
use sysml_federation.Base.{
  ℕ, zero, suc, ◌+◌, ◌<◌, ◌≡◌, List, [], ◌∷◌, ◌++◌, Bool, Option, none, some, arith, Bytes, length,
}
use sysml_federation.Syntax.Ast.{Comparison, Expr}
use sysml_federation.Syntax.Cursor.Keeps.{
  is_token-kind, Keeps, KeepsAt, Keeps-pure, Keeps-bind, Keeps-weaken, Keeps-exhausted,
  rounds-Keeps, peek-Keeps, At-any, ahead-Keeps, next-Keeps, end-Keeps, test-Keeps, test-At,
  when-Keeps, is-Keeps, next_any-Keeps,
}
use sysml_federation.Syntax.Cursor.Reads.{
  here-Keeps, fail_expected-Keeps, is_only-Keeps, accept-Keeps, accept_only-Keeps, expect-Keeps,
  name-Keeps, qualified_name-Keeps,
}
use sysml_federation.Syntax.Cursor.{Input, P, ◌or_else◌}
use sysml_federation.Syntax.Expr.{
  Numbers, is_arrow, chain_loop, parse_chain, comparison_of, take_comparison, parse_comparison,
  literal_rest, parse_literal, parse_operand, parse_primary, term_loop, parse_term, is_additive,
  expr_loop, parse_expr,
}
use sysml_federation.Syntax.Token.{Kind, Token}

module _ {inp : Input} where
  pub or_else-Keeps :
      {lo : ℕ} {c d : P Bool}
      → Keeps inp lo lo c
      → Keeps inp lo lo d
      → Keeps inp lo lo (c or_else d)
  unfolding ◌or_else◌
  or_else-Keeps kc kd = when-Keeps _ _ _ kc (Keeps-pure _ (omega arith)) kd

  chain_loop-Keeps :
      {lo : ℕ} (fuel : ℕ) (names : List Bytes)
      → length inp.toks < lo + fuel
      → Keeps inp lo lo (chain_loop fuel names)
  unfolding chain_loop
  chain_loop-Keeps zero names h = Keeps-exhausted (omega arith)
  chain_loop-Keeps {lo} (suc fuel) names h =
      accept-Keeps _ _ _
        (Keeps-bind name-Keeps λ n.
          Keeps-weaken (chain_loop-Keeps {lo = suc lo} fuel (names ++ n ∷ []) (omega arith))
            (omega arith) (omega arith))
        (Keeps-pure _ (omega arith))

  pub parse_chain-Keeps : {lo : ℕ} → Keeps inp lo (suc lo) parse_chain
  unfolding parse_chain
  parse_chain-Keeps = Keeps-bind here-Keeps λ start. Keeps-bind name-Keeps λ n.
      rounds-Keeps λ fuel h.
        Keeps-bind (chain_loop-Keeps fuel (n ∷ []) (omega arith))
          λ names. Keeps-bind (end-Keeps start (omega arith)) λ span. Keeps-pure _ (omega arith)

  take_comparison-At :
      {lo : ℕ} (t : Token) (c : Option Comparison)
      → KeepsAt inp t lo (suc lo) (take_comparison t.kind c)
  unfolding take_comparison
  take_comparison-At t none = At-any (fail_expected-Keeps _)
  take_comparison-At t (some c) =
      test-At _ _ _ (λ _. At-any (fail_expected-Keeps _))
        λ h.
          next-Keeps (let g : ¬ (t.kind ≡ Kind.eof) = ground arith in g)
            λ _. Keeps-pure _ (omega arith)

  pub parse_comparison-Keeps : {lo : ℕ} → Keeps inp lo (suc lo) parse_comparison
  unfolding parse_comparison
  parse_comparison-Keeps = peek-Keeps (λ t. take_comparison-At t (comparison_of t.text))

  is_arrow-Keeps : {lo : ℕ} → Keeps inp lo lo is_arrow
  unfolding is_arrow
  is_arrow-Keeps =
      is-Keeps _ _ _
        (λ t h. ahead-Keeps (is_token-kind _ t h) (λ u. At-any (Keeps-pure _ (omega arith))))
        (Keeps-pure _ (omega arith))

  is_additive-Keeps : {lo : ℕ} → Keeps inp lo lo is_additive
  unfolding is_additive
  is_additive-Keeps =
      when-Keeps _ _ _ (or_else-Keeps (is_only-Keeps _) (is_only-Keeps _))
        (Keeps-bind is_arrow-Keeps λ _. Keeps-pure _ (omega arith)) (Keeps-pure _ (omega arith))

-- `rec` consumes a token from any place behind lo.
abbrev Below : Input → ℕ → {A : Type 0} → P A → Type 0
Below inp lo rec = (k : ℕ) → lo < k → Keeps inp k (suc k) rec

module _ {F : Type 0} (numbers : Numbers F) {inp : Input} where
  literal_rest-Keeps :
      {lo : ℕ} (start : ℕ) (neg : Bool) → Keeps inp lo (suc lo) (literal_rest numbers start neg)
  unfolding literal_rest
  literal_rest-Keeps start neg = peek-Keeps λ t.
      test-At _ _ _ (λ _. At-any (fail_expected-Keeps _))
        λ h. next-Keeps (let g : ¬ (t.kind ≡ Kind.eof) = ground arith in g) λ _.
          Keeps-bind (end-Keeps start (omega arith)) λ span.
            accept-Keeps _ _ _
              (Keeps-bind qualified_name-Keeps
                λ unit. Keeps-bind (expect-Keeps _) λ _. Keeps-pure _ (omega arith))
              (Keeps-pure _ (omega arith))

  pub parse_literal-Keeps : {lo : ℕ} → Keeps inp lo (suc lo) (parse_literal numbers)
  unfolding parse_literal
  parse_literal-Keeps =
      Keeps-bind here-Keeps
        λ start. Keeps-bind (accept_only-Keeps _) λ neg. literal_rest-Keeps start neg

  pub parse_operand-Keeps : {lo : ℕ} → Keeps inp lo (suc lo) (parse_operand numbers)
  unfolding parse_operand
  parse_operand-Keeps = peek-Keeps λ t. At-any (
      test-Keeps _ _ _ (Keeps-bind parse_literal-Keeps λ _. Keeps-pure _ (omega arith)) (
        test-Keeps _ _ _ (Keeps-bind parse_chain-Keeps λ _. Keeps-pure _ (omega arith))
          (fail_expected-Keeps _)))

  parse_primary-Keeps :
      {lo : ℕ} (rec : P (Expr F))
      → Below inp lo rec
      → Keeps inp lo (suc lo) (parse_primary numbers rec)
  unfolding parse_primary
  parse_primary-Keeps {lo} rec below = peek-Keeps λ t.
      test-At _ _ _ (λ _. At-any (Keeps-bind parse_literal-Keeps λ _. Keeps-pure _ (omega arith)))
        λ _.
          test-At _ _ _ (λ _. At-any (Keeps-bind parse_chain-Keeps λ _. Keeps-pure _ (omega arith)))
            λ _.
              test-At _ _ _
                (λ h. next-Keeps (let g : ¬ (t.kind ≡ Kind.eof) = ground arith in g) λ _.
                  Keeps-bind (below (suc lo) (omega arith))
                    λ e. Keeps-bind (expect-Keeps _) λ _. Keeps-pure _ (omega arith))
                λ _. At-any (fail_expected-Keeps _)

  term_loop-Keeps :
      {lo : ℕ} (rec : P (Expr F)) (start fuel : ℕ) (left : Expr F)
      → Below inp lo rec
      → length inp.toks < lo + fuel
      → 0 < lo
      → Keeps inp lo lo (term_loop numbers rec start fuel left)
  unfolding term_loop
  term_loop-Keeps rec start zero left below h z = Keeps-exhausted (omega arith)
  term_loop-Keeps {lo} rec start (suc fuel) left below h z =
      when-Keeps _ _ _ (or_else-Keeps (is_only-Keeps _) (is_only-Keeps _))
        (Keeps-bind next_any-Keeps λ t. Keeps-bind (parse_primary-Keeps rec below) λ right.
          Keeps-bind (end-Keeps start (omega arith)) λ span.
            Keeps-weaken
              (term_loop-Keeps {lo = suc lo} rec start fuel _ (λ k g. below k (omega arith))
                (omega arith) (omega arith))
              (omega arith) (omega arith))
        (Keeps-pure _ (omega arith))

  parse_term-Keeps :
      {lo : ℕ} (rec : P (Expr F))
      → Below inp lo rec
      → Keeps inp lo (suc lo) (parse_term numbers rec)
  unfolding parse_term
  parse_term-Keeps {lo} rec below = Keeps-bind here-Keeps λ start.
      Keeps-bind (parse_primary-Keeps rec below) λ left. rounds-Keeps λ fuel h.
        term_loop-Keeps rec start fuel left (λ k g. below k (omega arith)) (omega arith)
          (omega arith)

  expr_loop-Keeps :
      {lo : ℕ} (rec : P (Expr F)) (start fuel : ℕ) (left : Expr F)
      → Below inp lo rec
      → length inp.toks < lo + fuel
      → 0 < lo
      → Keeps inp lo lo (expr_loop numbers rec start fuel left)
  unfolding expr_loop
  expr_loop-Keeps rec start zero left below h z = Keeps-exhausted (omega arith)
  expr_loop-Keeps {lo} rec start (suc fuel) left below h z =
      when-Keeps _ _ _ is_additive-Keeps
        (Keeps-bind next_any-Keeps λ t. Keeps-bind (parse_term-Keeps rec below) λ right.
          Keeps-bind (end-Keeps start (omega arith)) λ span.
            Keeps-weaken
              (expr_loop-Keeps {lo = suc lo} rec start fuel _ (λ k g. below k (omega arith))
                (omega arith) (omega arith))
              (omega arith) (omega arith))
        (Keeps-pure _ (omega arith))

  -- The parentheses are nested no deeper than there are tokens left.
  pub parse_expr-Keeps :
      {lo : ℕ} (depth : ℕ)
      → length inp.toks < lo + depth
      → Keeps inp lo (suc lo) (parse_expr numbers depth)
  unfolding parse_expr
  parse_expr-Keeps zero h = Keeps-exhausted (omega arith)
  parse_expr-Keeps {lo} (suc depth) h =
      let below : Below inp lo (parse_expr numbers depth) =
        λ k g. parse_expr-Keeps depth (omega arith) in
      Keeps-bind here-Keeps λ start.
        Keeps-bind (parse_term-Keeps (parse_expr numbers depth) below) λ left.
          rounds-Keeps λ fuel g.
            expr_loop-Keeps (parse_expr numbers depth) start fuel left
              (λ k g. below k (omega arith)) (omega arith) (omega arith)
