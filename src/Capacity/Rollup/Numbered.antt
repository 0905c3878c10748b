-- ===== src/Capacity/Rollup/Numbered.antt =====
-- flow.go: the index that the first loop of Rollup makes of the children's ids.
use sysml_federation.Base.{
  ℕ, zero, suc, ◌+◌, ◌<◌, ◌≡◌, ◌≢◌, ◌⊎◌, ◌↔◌, inl, inr, refl, sym, ap, ◌∙◌, subst, arith, List, [],
  ◌∷◌, some, get_elem?, Bytes, bytes_eq, bytes_eq_iff, lookup, Bool-cases, Option-cases,
}
use sysml_federation.Capacity.Verdict.{Node}
use sysml_federation.Capacity.Rollup.{indexed, index_nodes}
use sysml_federation.Capacity.Exact.{exact, exact_arithmetic}

-- No child of the list has the id.
abbrev pub Absent : List (Node exact) → Bytes → Type 0
Absent nodes id = (j : ℕ) (x : Node exact) → get_elem? nodes j ≡ some x → x.id ≢ id

-- The last child with the id, and its index, for a list whose first child has the index given.
pub record Numbered (nodes : List (Node exact)) (off : ℕ) (id : Bytes) (i : ℕ) : Type 0 where
  pub place : ℕ
  pub child : Node exact
  pub there : get_elem? nodes place ≡ some child
  pub named : child.id ≡ id
  pub index : i ≡ off + place
  pub last : (j : ℕ) (x : Node exact) → place < j → get_elem? nodes j ≡ some x → x.id ≢ id

Absent-cons :
    (nd : Node exact) (nodes : List (Node exact)) (id : Bytes)
    → nd.id ≢ id
    → Absent nodes id
    → Absent (nd ∷ nodes) id
Absent-cons nd nodes id n a zero x q =
    let same : nd ≡ x = ground (arith, q) in λ e. n (ap (λ (y : Node exact). y.id) same ∙ e)
Absent-cons nd nodes id n a (suc j) x q = a j x q

Numbered-later :
    (nd : Node exact) (nodes : List (Node exact)) (off : ℕ) (id : Bytes) (i : ℕ)
    → Numbered nodes (suc off) id i
    → Numbered (nd ∷ nodes) off id i
Numbered-later nd nodes off id i k = record {
  place = suc k.place;
  child = k.child;
  there = k.there;
  named = k.named;
  index = omega (arith, k.index);
  last = last;
}
  where
    last :
        (j : ℕ) (x : Node exact) → suc k.place < j → get_elem? (nd ∷ nodes) j ≡ some x → x.id ≢ id
    last zero x h q = absurd (omega arith)
    last (suc j) x h q = k.last j x (omega arith) q

Numbered-here :
    (nd : Node exact) (nodes : List (Node exact)) (off : ℕ) (id : Bytes)
    → nd.id ≡ id
    → Absent nodes id
    → Numbered (nd ∷ nodes) off id off
Numbered-here nd nodes off id e a = record {
  place = 0;
  child = nd;
  there = refl;
  named = e;
  index = omega arith;
  last = last;
}
  where
    last : (j : ℕ) (x : Node exact) → 0 < j → get_elem? (nd ∷ nodes) j ≡ some x → x.id ≢ id
    last zero x h q = absurd (omega arith)
    last (suc j) x h q = a j x q

-- What the index that the first loop makes says of an id.
abbrev Says : List (Node exact) → ℕ → List (Bytes × ℕ) → List (Bytes × ℕ) → Bytes → Type 0
Says nodes off before after id =
    (Absent nodes id × (lookup id after ≡ lookup id before))
    ⊎ ((i : ℕ) × (lookup id after ≡ some i) × Numbered nodes off id i)

Says-cons :
    (nd : Node exact) (nodes : List (Node exact)) (off : ℕ) (before after : List (Bytes × ℕ))
    (id : Bytes)
    → Says nodes (suc off) ((nd.id, off) ∷ before) after id
    → Says (nd ∷ nodes) off before after id
unfolding lookup
Says-cons nd nodes off before after id (inr (i, q, k)) =
    inr (i, q, Numbered-later nd nodes off id i k)
Says-cons nd nodes off before after id (inl (a, q)) = elim (Bool-cases (bytes_eq nd.id id)) [
  | inl e ↦
      inr (off, rw (e, lookup) at q, Numbered-here nd nodes off id ((bytes_eq_iff nd.id id).0 e) a)
  | inr e ↦ inl (
    Absent-cons nd nodes id (λ same. cc (e, (bytes_eq_iff nd.id id).1 same)) a,
    rw (e, lookup) at q,
  )
]

index_nodes-Says :
    (off : ℕ) (nodes : List (Node exact)) (before after : List (Bytes × ℕ))
    → index_nodes exact exact_arithmetic off nodes before ≡ indexed after
    → (id : Bytes) → Says nodes off before after id
unfolding index_nodes
index_nodes-Says off [] before after e id =
    inl (λ j x q. absurd (ground (arith, q)), ap (lookup id) (sym (ground (arith, e))))
index_nodes-Says off (nd ∷ nodes) before after e id = elim (Option-cases nd.value) [
  | inl gone ↦ absurd (ground (arith, rw (gone, index_nodes) at e))
  | inr (v, q) ↦ elim (Bool-cases (exact.less v exact.float_zero)) [
    | inl below ↦ absurd (ground (arith, rw (q, below, index_nodes) at e))
    | inr above ↦ Says-cons nd nodes off before after id (
        index_nodes-Says (suc off) nodes ((nd.id, off) ∷ before) after
          (rw (q, above, index_nodes) at e) id)
  ]
]

Numbered-unique :
    (nodes : List (Node exact)) (id : Bytes) (i j : ℕ)
    → Numbered nodes 0 id i
    → Numbered nodes 0 id j
    → i ≡ j
Numbered-unique nodes id i j k l =
    let below : ¬ (k.place < l.place) = λ h. k.last l.place l.child h l.there l.named in
    let above : ¬ (l.place < k.place) = λ h. l.last k.place k.child h k.there k.named in
    omega (arith, below, above, k.index, l.index)

pub lookup-Numbered :
    (nodes : List (Node exact)) (index : List (Bytes × ℕ)) (id : Bytes) (i : ℕ)
    → index_nodes exact exact_arithmetic 0 nodes [] ≡ indexed index
    → (lookup id index ≡ some i) ↔ Numbered nodes 0 id i
unfolding lookup
lookup-Numbered nodes index id i e = elim (index_nodes-Says 0 nodes [] index e id) [
  | inl (a, q) ↦
      (λ h. absurd (ground (arith, h, q)), λ k. absurd (a k.place k.child k.there k.named))
  | inr (j, q, k) ↦ (
    λ h. let same : j ≡ i = ground (arith, h, q) in subst (Numbered nodes 0 id) same k,
    λ l. q ∙ ap some (Numbered-unique nodes id j i k l),
  )
]
