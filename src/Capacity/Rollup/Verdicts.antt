-- ===== src/Capacity/Rollup/Verdicts.antt =====
-- examples/pipeline/capacity/flow: the verdict on what Rollup answers.
use sysml_federation.Base.{
  ℕ, ◌≤◌, ◌<◌, ◌≡◌, ◌≢◌, ◌↔◌, refl, sym, ap, ◌∙◌, arith, List, [], ◌∷◌, Bool, true, some, Option,
  inl, inr, Bytes, bytes, bytes_eq, bytes_eq_iff, Bool-cases, length,
}
use sysml_federation.Capacity.Verdict.{
  Kind, pass, Names, Node, Edge, Rolled, rolled, Subject, holds, judge, compare_limit, of_children,
  of_subject, verdict,
}
use sysml_federation.Capacity.Rollup.{indexed, Wired, cut_ids, index_nodes, network, rollup}
use sysml_federation.Capacity.Rollup.Sums.{Whole}
use sysml_federation.Capacity.Rollup.Network.{cut_sum}
use sysml_federation.Capacity.Rollup.Separation.{Separates}
use sysml_federation.Capacity.Rollup.Minimum.{sum_of, wiring, IsCapacity, rollup-Answers}
use sysml_federation.Capacity.Rollup.Connections.{Connects}
use sysml_federation.Capacity.Exact.{Amount, finite, exact, exact_arithmetic}

judge-pass : (c l : ℕ) → (judge exact (finite c) (bytes "GE") (finite l) ≡ pass) ↔ (l ≤ c)
unfolding judge holds bytes_eq
judge-pass c l = ground arith

of_children-pass :
    (names : Names) (c l : ℕ) (cut entry exit : List Bytes) (children : List (Node exact))
    → ((of_children exact names
          (bytes "GE")
          (some (finite l))
          children
          (rolled (finite c) cut entry exit)).0
        ≡ pass)
      ↔ (l ≤ c)
unfolding of_children compare_limit bytes_eq
of_children-pass names c l cut entry exit children = judge-pass c l

abbrev pub subject_of : Bytes → Bool → Option Amount → List (Node exact) → List Edge → Subject exact
subject_of name has_attribute attribute children edges = record {
  name = name;
  has_attribute = has_attribute;
  attribute = attribute;
  children = children;
  edges = edges;
}

verdict-of_children :
    (r : List (Node exact) → List Edge → Rolled Amount) (names : Names) (l : ℕ) (name : Bytes)
    (has_attribute : Bool) (attribute : Option Amount) (nd : Node exact) (rest : List (Node exact))
    (edges : List Edge) (verification_case : Bytes)
    → names.quantity ≢ []
    → (verdict exact r names names.quantity
        (bytes "GE")
        (some (finite l))
        (subject_of name has_attribute attribute (nd ∷ rest) edges)
        verification_case)
      ≡ of_children exact names (bytes "GE") (some (finite l)) (nd ∷ rest) (r (nd ∷ rest) edges)
unfolding verdict of_subject
verdict-of_children r names l name has_attribute attribute nd rest edges verification_case n =
    let same : bytes_eq names.quantity names.quantity ≡ true =
      (bytes_eq_iff names.quantity names.quantity).1 refl in
    elim (Bool-cases (bytes_eq names.quantity [])) [
      | inl e ↦ absurd (n ((bytes_eq_iff names.quantity []).0 e))
      | inr e ↦ simp (e, same, verdict, of_subject)
    ]

IsCapacity-bound :
    {w : Wired} (n : ℕ) (xs : List ℕ) (c l : ℕ) (fed passes : ℕ → Bool)
    → IsCapacity w n xs c fed passes
    → (l ≤ c) ↔ ((f p : ℕ → Bool) → Separates w n f p → l ≤ cut_sum w f p 0 xs)
IsCapacity-bound {w} n xs c l fed passes k = (
  λ h f p s. omega (arith, h, k.least f p s),
  λ all. omega (arith, all fed passes k.separates, k.value),
)

-- Over exact numbers, where eps is zero and no sum overflows, for a subject with a child, whatever its own
-- attribute, where every child has a whole value, the fuel is more
-- than the values together, the quantity is the configured one and not empty, and the verdict calls a
-- function that gives what Rollup answers on the subject's children and edges: the wires and the flags that Rollup makes
-- are those of the connections, the edges whose two ends are ids of children, from the last child with the
-- one id to the last child with the other, and where the wiring has an entry child
-- and an exit child, the verdict on a whole limit with the comparison GE is PASS exactly where the limit
-- is at most the sum of the values of the children that have a connection, are fed and do not pass on,
-- for every choice by which entry children are fed, exit children do not pass on and connections from
-- children that pass on lead to children that are fed.
pub verdict-Separates :
    (fuel l : ℕ) (r : List (Node exact) → List Edge → Rolled Amount) (names : Names) (name : Bytes)
    (has_attribute : Bool) (attribute : Option Amount) (nd : Node exact) (rest : List (Node exact))
    (xs : List ℕ) (edges : List Edge) (verification_case : Bytes)
    → Whole (nd ∷ rest) xs
    → sum_of xs < fuel
    → names.quantity ≢ []
    → rollup exact exact_arithmetic fuel (nd ∷ rest) edges ≡ some (r (nd ∷ rest) edges)
    → (index : List (Bytes × ℕ)) × (index_nodes exact exact_arithmetic 0 (nd ∷ rest) []
        ≡ indexed index)
      × Connects (nd ∷ rest) edges (wiring (nd ∷ rest) index edges)
      × ((network exact exact_arithmetic (nd ∷ rest) (wiring (nd ∷ rest) index edges)).entry ≢ []
          → (network exact exact_arithmetic (nd ∷ rest) (wiring (nd ∷ rest) index edges)).exit ≢ []
          → ((verdict exact r names names.quantity
                (bytes "GE")
                (some (finite l))
                (subject_of name has_attribute attribute (nd ∷ rest) edges)
                verification_case).0
              ≡ pass)
            ↔ ((fed passes : ℕ → Bool)
                → Separates (wiring (nd ∷ rest) index edges) (length (nd ∷ rest)) fed passes
                → l ≤ cut_sum (wiring (nd ∷ rest) index edges) fed passes 0 xs))
verdict-Separates fuel l r names name has_attribute attribute nd rest xs edges verification_case
      whole h n answered =
    let (index, e, a) = rollup-Answers fuel nd rest xs edges whole h in
    (
      index,
      e,
      a.connects,
      λ entry exit.
          let (c, seen, q, _, k) = a.with_both entry exit in
          let b = network exact exact_arithmetic (nd ∷ rest) (wiring (nd ∷ rest) index edges) in
          let cut = cut_ids exact exact_arithmetic seen 0 (nd ∷ rest) in
          let answer : some (r (nd ∷ rest) edges) ≡ some (rolled (finite c) cut b.entry b.exit) =
            sym answered ∙ q in
          let same : r (nd ∷ rest) edges ≡ rolled (finite c) cut b.entry b.exit =
            ground (arith, answer) in
          let judged =
            verdict-of_children r names l name has_attribute attribute nd rest edges
              verification_case n
            ∙ ap (of_children exact names (bytes "GE") (some (finite l)) (nd ∷ rest)) same in
          let passes = of_children-pass names c l cut b.entry b.exit (nd ∷ rest) in
          let bound = IsCapacity-bound (length (nd ∷ rest)) xs c l _ _ k in
          (
            λ v. bound.0 (passes.0 (ap (λ (y : Kind × Bytes). y.0) (sym judged) ∙ v)),
            λ all. ap (λ (y : Kind × Bytes). y.0) judged ∙ passes.1 (bound.1 all),
          ),
    )
