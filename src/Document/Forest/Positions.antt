-- ===== src/Document/Forest/Positions.antt =====
-- Pointers as places in document order, and the walk of contains over those of a subtree.
use mathlib.Core.List.{Mem, Mem-prop, mem-cons, not-mem-nil}
use mathlib.Core.Logic.Or
use sysml_federation.Base.{
  ℕ, suc, ◌+◌, ◌≤◌, ◌<◌, ◌≡◌, ◌↔◌, sym, inl, inr, List, [], ◌∷◌, ◌++◌, true, arith, map, length,
  length-append, Bool-cases, Bytes, bytes_eq, bytes_eq_iff,
}
use sysml_federation.Document.Forest.{Item, Forest, nil, node, items, index_of, contains}

abbrev pub ids_of : List Item → List Bytes
ids_of list = map (λ a. a.id) list

pub index_of-there :
    (id : Bytes) (xs ys : List Item) → Mem id (ids_of xs) → index_of id (xs ++ ys) < length xs
unfolding index_of
index_of-there id [] ys m = absurd (not-mem-nil m)
index_of-there id (a ∷ xs) ys m = elim (Bool-cases (bytes_eq a.id id)) [
  | inl e ↦ rw (e, index_of) (omega arith)
  | inr e ↦
      let later : Mem id (ids_of xs) =
        Or.elim Mem-prop (mem-cons.0 m) (λ same. cc (e, (bytes_eq_iff a.id id).1 (sym same)))
          (λ l. l) in
      rw (e, index_of) (omega (arith, index_of-there id xs ys later))
]

pub index_of-past :
    (id : Bytes) (xs ys : List Item)
    → ¬ Mem id (ids_of xs)
    → index_of id (xs ++ ys) ≡ length xs + index_of id ys
unfolding index_of
index_of-past id [] ys n = omega arith
index_of-past id (a ∷ xs) ys n = elim (Bool-cases (bytes_eq a.id id)) [
  | inl e ↦ absurd (n (mem-cons.1 (Or.inl (sym ((bytes_eq_iff a.id id).0 e)))))
  | inr e ↦
      rw (e, index_of) (omega (arith, index_of-past id xs ys (λ m. n (mem-cons.1 (Or.inr m)))))
]

pub index_of-Mem :
    (id : Bytes) (xs ys : List Item) → index_of id (xs ++ ys) < length xs → Mem id (ids_of xs)
unfolding index_of
index_of-Mem id [] ys h = absurd (omega (arith, h))
index_of-Mem id (a ∷ xs) ys h = elim (Bool-cases (bytes_eq a.id id)) [
  | inl e ↦ mem-cons.1 (Or.inl (sym ((bytes_eq_iff a.id id).0 e)))
  | inr e ↦
      let k : suc (index_of id (xs ++ ys)) < suc (length xs) = rw (e, index_of) at h in
      mem-cons.1 (Or.inr (index_of-Mem id xs ys (omega (arith, k))))
]

-- The walk meets the pointers of the subtree and no others.
pub contains-range :
    (own : ℕ) (t : Forest) (target : ℕ)
    → (contains own t target ≡ true) ↔ ((own ≤ target) × (target < own + length (items t)))
unfolding contains
contains-range own nil target =
    (λ h. absurd (ground (arith, h)), λ (a, b). absurd (omega (arith, a, b)))
contains-range own (node a cs rest) target =
    let below = contains-range (suc own) cs target in
    let behind = contains-range (suc own + length (items cs)) rest target in
    let sized : length (items cs ++ items rest) ≡ length (items cs) + length (items rest) =
      length-append (items cs) (items rest) in
    ground (arith, below, behind, sized)
