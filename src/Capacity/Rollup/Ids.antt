-- ===== src/Capacity/Rollup/Ids.antt =====
-- flow.go: which children stand in the cut of Rollup.
use mathlib.Core.List.{Memᴰ}
use mathlib.Core.List.Memᴰ
use sysml_federation.Base.{
  ℕ, zero, suc, ◌+◌, ◌≡◌, ◌↔◌, inl, inr, refl, sym, ap, subst, arith, List, [], ◌∷◌, Bool, true,
  false, not, ◌&&◌, some, get_elem?, Bytes, Bool-cases,
}
use sysml_federation.Capacity.Verdict.{Node}
use sysml_federation.Capacity.Flow.MinCut.{marked}
use sysml_federation.Capacity.Rollup.{in_of, out_of, cut_ids}
use sysml_federation.Capacity.Exact.{exact, exact_arithmetic}

pub cut_ids-Memᴰ :
    (seen : List Bool) (i k : ℕ) (nodes : List (Node exact)) {nd : Node exact}
    → get_elem? nodes k ≡ some nd
    → marked seen (in_of (i + k)) ≡ true
    → marked seen (out_of (i + k)) ≡ false
    → Memᴰ nd.id (cut_ids exact exact_arithmetic seen i nodes)
unfolding cut_ids
cut_ids-Memᴰ seen i k [] q a b = absurd (ground arith)
cut_ids-Memᴰ seen i zero (x ∷ nodes) {nd} q a b =
    let here : i + 0 ≡ i = omega arith in
    let a0 = subst (λ j. marked seen (in_of j) ≡ true) here a in
    let b0 = subst (λ j. marked seen (out_of j) ≡ false) here b in
    let same : nd ≡ x = ground (arith, q) in
    rw (a0, b0, cut_ids) (Memᴰ.head (ap (λ (y : Node exact). y.id) same))
cut_ids-Memᴰ seen i (suc k) (x ∷ nodes) {nd} q a b =
    let next : i + suc k ≡ suc i + k = omega arith in
    let later =
      cut_ids-Memᴰ seen (suc i) k nodes {nd = nd} q
        (subst (λ j. marked seen (in_of j) ≡ true) next a)
        (subst (λ j. marked seen (out_of j) ≡ false) next b) in
    elim (Bool-cases (marked seen (in_of i) && not (marked seen (out_of i)))) [
      | inl cut ↦ rw (cut, cut_ids) (Memᴰ.tail later)
      | inr kept ↦ rw (kept, cut_ids) later
    ]

-- A child of the list has the id, is fed and does not pass on.
abbrev pub InCut : List Bool → ℕ → List (Node exact) → Bytes → Type 0
InCut seen i nodes id =
    (k : ℕ) × (nd : Node exact) × (get_elem? nodes k ≡ some nd)
    × (id ≡ nd.id)
    × (marked seen (in_of (i + k)) ≡ true)
    × (marked seen (out_of (i + k)) ≡ false)

InCut-later :
    (seen : List Bool) (i : ℕ) (x : Node exact) (nodes : List (Node exact)) (id : Bytes)
    → InCut seen (suc i) nodes id
    → InCut seen i (x ∷ nodes) id
InCut-later seen i x nodes id (k, nd, q, same, a, b) =
    let next : suc i + k ≡ i + suc k = omega arith in
    (
      suc k,
      nd,
      q,
      same,
      subst (λ j. marked seen (in_of j) ≡ true) next a,
      subst (λ j. marked seen (out_of j) ≡ false) next b,
    )

cut_ids-InCut :
    (seen : List Bool) (i : ℕ) (nodes : List (Node exact)) (id : Bytes)
    → Memᴰ id (cut_ids exact exact_arithmetic seen i nodes)
    → InCut seen i nodes id
unfolding cut_ids
cut_ids-InCut seen i [] id m = absurd (Memᴰ.not-nil m)
cut_ids-InCut seen i (x ∷ nodes) id m =
    let start : i ≡ i + 0 = omega arith in
    elim (Bool-cases (marked seen (in_of i) && not (marked seen (out_of i)))) [
      | inl cut ↦ elim (Memᴰ.cases_cons (rw (cut, cut_ids) at m)) [
        | inl same ↦ (
          zero,
          x,
          refl,
          same,
          subst (λ j. marked seen (in_of j) ≡ true) start (ground arith),
          subst (λ j. marked seen (out_of j) ≡ false) start (ground arith),
        )
        | inr later ↦ InCut-later seen i x nodes id (cut_ids-InCut seen (suc i) nodes id later)
      ]
      | inr kept ↦
          InCut-later seen i x nodes id
            (cut_ids-InCut seen (suc i) nodes id (rw (kept, cut_ids) at m))
    ]

-- The cut has the ids of the children that are fed and do not pass on.
pub Memᴰ-cut_ids :
    (seen : List Bool) (nodes : List (Node exact)) (id : Bytes)
    → Memᴰ id (cut_ids exact exact_arithmetic seen 0 nodes) ↔ InCut seen 0 nodes id
Memᴰ-cut_ids seen nodes id = (
  cut_ids-InCut seen 0 nodes id,
  λ (k, nd, q, same, a, b).
      subst (λ x. Memᴰ x (cut_ids exact exact_arithmetic seen 0 nodes)) (sym same)
        (cut_ids-Memᴰ seen 0 k nodes {nd = nd} q a b),
)
