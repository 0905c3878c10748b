-- ===== src/Document/Tree/Numbers.antt =====
-- Numbers: which nodes have one.
use mathlib.Core.List.{map-append, Mem, not-mem-nil, mem-cons, mem-cons_self, mem-append, Nodup}
use mathlib.Core.Logic.Or
use mathlib.Core.HLevel.{⊥_prop}
use sysml_federation.Base.{
  ℕ, suc, ◌&&◌, false, ◌≡◌, refl, sym, ap, ◌∙◌, subst, ◌⊎◌, inl, inr, List, [], ◌∷◌, ◌++◌, true,
  false, none, some, arith, map, ltb, Bytes, bytes, bytes_eq, bytes_eq_iff, Bool-cases,
  Option-cases, if◌then◌else◌,
}
use sysml_federation.Document.Decimal.{itoa}
use sysml_federation.Document.Forest.Contents.{ids, find-Found}
use sysml_federation.Document.Forest.{
  NodeKind, heading, prose, requirement, other, Item, Forest, nil, node, size, items, find,
  by_requirement, is_prose, is_requirement,
}
use sysml_federation.Document.Tree.Exclusion.{by_requirement-find}
use sysml_federation.Document.Tree.Loads.{IsShaped}
use sysml_federation.Document.Tree.{Tree, number, numbers, number_of, requirement_number}

-- The ids of the nodes that are not prose, in document order.
abbrev pub solid_ids : List Item → List Bytes
solid_ids [] = []
solid_ids (a ∷ list) = if is_prose a.kind then solid_ids list else a.id ∷ solid_ids list

solid_ids-append : (xs ys : List Item) → solid_ids (xs ++ ys) ≡ solid_ids xs ++ solid_ids ys
solid_ids-append [] ys = refl
solid_ids-append (a ∷ xs) ys = elim (Bool-cases (is_prose a.kind)) [
  | inl e ↦ rw (e) (solid_ids-append xs ys)
  | inr e ↦ rw (e) (ap (λ s. a.id ∷ s) (solid_ids-append xs ys))
]

items-empty : (t : Forest) → ltb 0 (size t) ≡ false → items t ≡ []
unfolding size
items-empty nil h = refl
items-empty (node a cs rest) h = absurd (ground arith)

number-keys :
    (prefix : Bytes) (k : ℕ) (t : Forest)
    → IsShaped t
    → map (λ e. e.0) (number prefix k t) ≡ solid_ids (items t)
unfolding number
number-keys prefix k nil s = refl
number-keys prefix k (node a cs rest) (named, leaf, below, behind) =
    elim (Bool-cases (is_prose a.kind)) [
      | inl e ↦
          let empty : items cs ≡ [] = items-empty cs (ground arith) in
          rw (e, empty) (number-keys prefix k rest behind)
      | inr e ↦
          let own = prefix ++ itoa (suc k) in
          rw (e) (
            ap (λ s. a.id ∷ s)
              (map-append (λ e. e.0) (number (own ++ bytes ".") 0 cs) (number prefix (suc k) rest)
                ∙ ap (λ s. s ++ map (λ e. e.0) (number prefix (suc k) rest))
                    (number-keys (own ++ bytes ".") 0 cs below)
                ∙ ap (λ s. solid_ids (items cs) ++ s) (number-keys prefix (suc k) rest behind)
                ∙ sym (solid_ids-append (items cs) (items rest))))
    ]

-- In a tree whose requirement nodes name a requirement and whose prose nodes have no children, the
-- nodes that Numbers gives a number are exactly those that are not prose, in document order.
pub numbers-keys :
    (t : Tree) → IsShaped t.root → map (λ e. e.0) (numbers t) ≡ solid_ids (items t.root)
unfolding numbers
numbers-keys t s = number-keys [] 0 t.root s

-- The number that the map has for an id is one that was set for it.
pub number_of-Mem :
    (id n : Bytes) (list : List (Bytes × Bytes)) → number_of id list ≡ some n → Mem (id, n) list
unfolding number_of
number_of-Mem id n [] h = absurd (ground (arith, h))
number_of-Mem id n ((j, m) ∷ list) h = elim (Option-cases (number_of id list)) [
  | inr (later, e) ↦
      let same : later ≡ n = ground (arith, rw (e, number_of) at h) in
      mem-cons.1 (Or.inr (number_of-Mem id n list (e ∙ ap some same)))
  | inl e ↦ elim (Bool-cases (bytes_eq j id)) [
    | inl k ↦
        let same : m ≡ n = ground (arith, rw (e, k, number_of) at h) in
        let key : j ≡ id = (bytes_eq_iff j id).0 k in
        mem-cons.1
          (Or.inl (ap (λ (i : Bytes). (i, n)) (sym key) ∙ ap (λ (x : Bytes). (j, x)) (sym same)))
    | inr k ↦ absurd (ground (arith, rw (e, k, number_of) at h))
  ]
]

pub number_of-none :
    (id : Bytes) (list : List (Bytes × Bytes))
    → number_of id list ≡ none
    → ¬ Mem id (map (λ e. e.0) list)
unfolding number_of
number_of-none id [] h m = not-mem-nil m
number_of-none id ((j, n) ∷ list) h m = elim (Option-cases (number_of id list)) [
  | inr (later, e) ↦ absurd (ground (arith, rw (e, number_of) at h))
  | inl e ↦ elim (Bool-cases (bytes_eq j id)) [
    | inl k ↦ absurd (ground (arith, rw (e, k, number_of) at h))
    | inr k ↦
        Or.elim ⊥_prop (mem-cons.0 m) (λ same. cc (k, (bytes_eq_iff j id).1 (sym same)))
          (number_of-none id list e)
  ]
]

-- The node is a requirement node of the requirement.
abbrev pub IsNodeOf : Bytes → Item → Type 0
IsNodeOf r a = (is_requirement a.kind ≡ true) × (a.requirement_id ≡ r)

requirement-not_prose : (k : NodeKind) → is_requirement k ≡ true → is_prose k ≡ false
requirement-not_prose heading h = refl
requirement-not_prose prose h = absurd (ground arith)
requirement-not_prose requirement h = refl
requirement-not_prose (other text) h = refl

-- A requirement's node that is found is among those that have a number.
found-solid :
    (t : Forest) (n : Item) (cs : Forest)
    → find n.id t ≡ some (n, cs)
    → is_requirement n.kind ≡ true
    → Mem n.id (solid_ids (items t))
found-solid t n cs f kind =
    let at = find-Found n.id t f in
    let rest = items cs ++ at.after in
    let own : Mem n.id (solid_ids (n ∷ rest)) =
      rw (requirement-not_prose n.kind kind) mem-cons_self in
    subst (λ s. Mem n.id (solid_ids s)) (sym at.splits)
      (subst (Mem n.id) (sym (solid_ids-append at.before (n ∷ rest))) (mem-append.1 (Or.inr own)))

IsNodeOf-below :
    (r : Bytes) (b : Item) (bs rest : Forest)
    → ¬ IsNodeOf r b
    → ((a : Item) → Mem a (items bs) → ¬ IsNodeOf r a)
    → ((a : Item) → Mem a (items rest) → ¬ IsNodeOf r a)
    → (a : Item) → Mem a (items (node b bs rest))
    → ¬ IsNodeOf r a
IsNodeOf-below r b bs rest n k l a m is =
    Or.elim ⊥_prop (mem-cons.0 m) (λ e. n (subst (IsNodeOf r) e is))
      (λ later. Or.elim ⊥_prop (mem-append.0 later) (λ x. k a x is) (λ x. l a x is))

-- Where byRequirement finds no node, no node is a requirement node of that requirement.
by_requirement-none :
    (r : Bytes) (t : Forest)
    → by_requirement r t ≡ none
    → (a : Item) → Mem a (items t)
    → ¬ IsNodeOf r a
unfolding by_requirement
by_requirement-none r nil h a m is = not-mem-nil m
by_requirement-none r (node b bs rest) h a m is =
    let other : (is_requirement b.kind && bytes_eq b.requirement_id r) ≡ false =
      ground (arith, h) in
    let below : by_requirement r bs ≡ none = ground (arith, h) in
    let behind : by_requirement r rest ≡ none = ground (arith, h) in
    IsNodeOf-below r b bs rest
      (λ (kind, named).
        let same : bytes_eq b.requirement_id r ≡ true = (bytes_eq_iff b.requirement_id r).1 named in
        absurd (ground (arith, other, kind, same)))
      (by_requirement-none r bs below) (by_requirement-none r rest behind) a m is

-- In a tree that Load accepts, one of two holds for every requirement. A node of the document is a
-- requirement node of it, Numbers gives that node a number, and Requirement answers with this number; or
-- no node of the document is a requirement node of it, and Requirement answers that it is not there.
pub requirement_number-IsSome :
    (t : Tree) (r : Bytes)
    → Nodup (ids t.root)
    → IsShaped t.root
    → ((a : Item) × (n : Bytes) × Mem a (items t.root)
        × IsNodeOf r a
        × Mem (a.id, n) (numbers t)
        × (requirement_number t r ≡ some (some n)))
      ⊎ (((a : Item) → Mem a (items t.root) → ¬ IsNodeOf r a) × (requirement_number t r ≡ none))
unfolding requirement_number
requirement_number-IsSome t r d s = elim (Option-cases (by_requirement r t.root)) [
  | inl e ↦ inr (by_requirement-none r t.root e, rw (e, requirement_number) refl)
  | inr ((a, cs), e) ↦
      let (f, kind, named) = by_requirement-find r t.root d e in
      let there : Mem a.id (map (λ e. e.0) (numbers t)) =
        subst (Mem a.id) (sym (numbers-keys t s)) (found-solid t.root a cs f kind) in
      let spot = find-Found a.id t.root f in
      elim (Option-cases (number_of a.id (numbers t))) [
        | inl gone ↦ absurd (number_of-none a.id (numbers t) gone there)
        | inr (n, q) ↦ inl (
          a,
          n,
          subst (Mem a) (sym spot.splits) (mem-append.1 (Or.inr mem-cons_self)),
          (kind, named),
          number_of-Mem a.id n (numbers t) q,
          rw (e, requirement_number) (ap some q),
        )
      ]
]
