-- ===== src/Capacity/Rollup/Indexing.antt =====
-- flow.go: the indices of the children in Rollup, and the connections between them.
use sysml_federation.Base.{
  ℕ, suc, ◌+◌, ◌≤◌, ◌<◌, ◌≡◌, inl, inr, refl, ap, arith, List, [], ◌∷◌, ◌++◌, false, some, length,
  Bytes, bytes_eq, lookup, Bool-cases, Option-cases,
}
use sysml_federation.Capacity.Verdict.{Node, Edge}
use sysml_federation.Capacity.Rollup.{indexed, Wired, wire, wire_all, no_wires, index_nodes}
use sysml_federation.Capacity.Rollup.Sums.{
  Whole, whole_none, whole_some, Ranged, ranged_none, ranged_some,
}
use sysml_federation.Capacity.Exact.{finite, exact, exact_arithmetic}

-- Every index is below the number.
abbrev pub Below : ℕ → List (Bytes × ℕ) → Type 0
Below n index = (id : Bytes) (i : ℕ) → lookup id index ≡ some i → i < n

Below-cons :
    (n i : ℕ) (id : Bytes) (index : List (Bytes × ℕ))
    → i < n
    → Below n index
    → Below n ((id, i) ∷ index)
unfolding lookup
Below-cons n i id index h b k j e = elim (Bool-cases (bytes_eq id k)) [
  | inl same ↦ ground (arith, rw (same) at e)
  | inr other ↦ b k j (rw (other) at e)
]

index_nodes-indexed :
    (n i : ℕ) (nodes : List (Node exact)) (xs : List ℕ) (index : List (Bytes × ℕ))
    → i + length xs ≤ n
    → Whole nodes xs
    → Below n index
    → (after : List (Bytes × ℕ)) × (index_nodes exact exact_arithmetic i nodes index
        ≡ indexed after)
      × Below n after
unfolding index_nodes
index_nodes-indexed n i nodes xs index h (whole_none e f) b = (index, rw (e) refl, b)
index_nodes-indexed n i nodes xs index h (whole_some nd x rest ys e f v k) b =
    let size = ap (λ (l : List ℕ). length l) f in
    let (after, q, c) =
      index_nodes-indexed n (suc i) rest ys ((nd.id, i) ∷ index) (omega (arith, size)) k
        (Below-cons n i nd.id index (omega (arith, size)) b) in
    let not_negative : exact.less (finite x) (finite 0) ≡ false = ground arith in
    (after, rw (e, v, not_negative, index_nodes) q, c)

pub index_nodes-Whole :
    (nodes : List (Node exact)) (xs : List ℕ)
    → Whole nodes xs
    → length xs ≡ length nodes
    → (index : List (Bytes × ℕ)) × (index_nodes exact exact_arithmetic 0 nodes [] ≡ indexed index)
      × Below (length nodes) index
unfolding lookup
index_nodes-Whole nodes xs k h =
    index_nodes-indexed (length nodes) 0 nodes xs [] (omega (arith, h)) k
      (λ id i e. absurd (ground (arith, e)))

Ranged-snoc :
    (n from to : ℕ) (wires : List (ℕ × ℕ))
    → from < n
    → to < n
    → Ranged n wires
    → Ranged n (wires ++ ((from, to) ∷ []))
Ranged-snoc n from to wires f t (ranged_none e) =
    rw (e) (ranged_some from to [] refl f t (ranged_none refl))
Ranged-snoc n from to wires f t (ranged_some a b rest e ha hb r) =
    rw (e)
      (ranged_some a b (rest ++ ((from, to) ∷ [])) refl ha hb (Ranged-snoc n from to rest f t r))

wire-Ranged :
    (n : ℕ) (index : List (Bytes × ℕ)) (e : Edge) (w : Wired)
    → Below n index
    → Ranged n w.wires
    → Ranged n (wire index e w).wires
unfolding wire
wire-Ranged n index e w b r = elim (Option-cases (lookup e.from index)) [
  | inl gone ↦ rw (gone, wire) r
  | inr (from, p) ↦ elim (Option-cases (lookup e.to index)) [
    | inl gone ↦ rw (p, gone, wire) r
    | inr (to, q) ↦
        rw (p, q, wire) (Ranged-snoc n from to w.wires (b e.from from p) (b e.to to q) r)
  ]
]

wire_all-Ranged :
    (n : ℕ) (index : List (Bytes × ℕ)) (edges : List Edge) (w : Wired)
    → Below n index
    → Ranged n w.wires
    → Ranged n (wire_all index edges w).wires
unfolding wire_all
wire_all-Ranged n index [] w b r = r
wire_all-Ranged n index (e ∷ edges) w b r =
    wire_all-Ranged n index edges (wire index e w) b (wire-Ranged n index e w b r)

pub wiring-Ranged :
    (n : ℕ) (index : List (Bytes × ℕ)) (edges : List Edge)
    → Below n index
    → Ranged n (wire_all index edges (no_wires n)).wires
unfolding no_wires
wiring-Ranged n index edges b = wire_all-Ranged n index edges (no_wires n) b (ranged_none refl)
