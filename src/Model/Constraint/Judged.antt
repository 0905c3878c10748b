-- ===== src/Model/Constraint/Judged.antt =====
-- How a constraint of constraint.go and its sides are judged.
use sysml_federation.Base.{◌≡◌, refl, ap, ◌∙◌, Bytes, bytes_eq}
use sysml_federation.Capacity.Verdict.{Floats, holds}
use sysml_federation.Model.Constraint.{rooted, flip, Sides, chain_of, sides_of}
use sysml_federation.Model.Outcome.Holds.{
  Holds, returns, crashes, Holds-bind, Holds-fail, Holds-cases, Holds-done,
}
use sysml_federation.Model.Outcome.{Source, done}
use sysml_federation.Syntax.Ast.{
  Comparison, comparison_zero, ge, gt, le, lt, eq, comparison_string, Expr, literal, feature_chain,
  binary, RequireConstraint,
}

chain_of-chain : {F : Type 0} (e : Expr F) → Holds (λ c. e ≡ feature_chain c) (chain_of e)
chain_of-chain (feature_chain c) = returns refl
chain_of-chain (literal l) = crashes
chain_of-chain (binary op l r at) = crashes

module _ (floats : Floats)
    (equal_sym : (a b : floats.Float) → floats.equal a b ≡ floats.equal b a) where
  flip-holds :
      (c : Comparison) (left right : floats.Float)
      → holds floats left (comparison_string c) right
        ≡ holds floats right (comparison_string (flip c)) left
  unfolding holds flip comparison_string bytes_eq
  flip-holds comparison_zero left right = refl
  flip-holds ge left right = refl
  flip-holds gt left right = refl
  flip-holds le left right = refl
  flip-holds lt left right = refl
  flip-holds eq left right = equal_sym left right

  module _ {F : Type 0} (s : Source) (value : Expr F → floats.Float) where
    abbrev Judged : RequireConstraint F → Sides F → Type 0
    Judged c sides =
        holds floats (value c.left) (comparison_string c.op) (value c.right)
        ≡ holds floats (value (feature_chain sides.chain)) (comparison_string sides.op)
            (value sides.other)

    sides_of-Judged :
        (c : RequireConstraint F) (subject : Bytes) → Holds (Judged c) (sides_of s c subject)
    unfolding sides_of
    sides_of-Judged c subject =
        Holds-cases (rooted c.left subject)
          (λ _.
            Holds-cases (rooted c.right subject) (λ _. Holds-fail s c.span _)
              (λ _. Holds-bind (chain_of-chain c.left) (λ chain _ same.
                returns (
                  ap (λ e. holds floats (value e) (comparison_string c.op) (value c.right)) same))))
          (λ _.
            Holds-cases (rooted c.right subject)
              (λ _. Holds-bind (chain_of-chain c.right) (λ chain _ same. returns (
                flip-holds c.op (value c.left) (value c.right)
                ∙ ap (λ e. holds floats (value e) (comparison_string (flip c.op)) (value c.left))
                    same)))
              (λ _. Holds-fail s c.span _))

    -- Where equality of values is symmetric, and whatever values the expressions have: a constraint that
    -- is read into the subject's side, a comparison and the other side is judged by them as the constraint
    -- that is written is judged, the mirrored comparison for swapped operands included.
    pub sides_of-holds :
        (c : RequireConstraint F) (subject : Bytes) (sides : Sides F)
        → sides_of s c subject ≡ done sides
        → holds floats (value c.left) (comparison_string c.op) (value c.right)
          ≡ holds floats
              (value (feature_chain sides.chain))
              (comparison_string sides.op)
              (value sides.other)
    sides_of-holds c subject sides h = Holds-done (sides_of-Judged c subject) h
