-- ===== src/Capacity/Rollup/Minimum.antt =====
-- flow.go: Rollup on children with whole values.
use mathlib.Core.List.{Memᴰ}
use sysml_federation.Base.{
  ℕ, suc, ◌+◌, ◌*◌, ◌≤◌, ◌<◌, ◌≡◌, ◌≢◌, ◌↔◌, inl, inr, refl, sym, ◌∙◌, arith, List, [], ◌∷◌, Bool,
  true, false, some, length, Bytes, List-cases, Bool-cases,
}
use sysml_federation.Capacity.Verdict.{Node, Edge, rolled, no_entry, no_exit}
use sysml_federation.Capacity.Flow.Cuts.{amount, endless, total}
use sysml_federation.Capacity.Flow.MinCut.{marked, IsMinCut, max_flow-IsMinCut}
use sysml_federation.Capacity.Rollup.{
  indexed, Built, Wired, wire_all, no_wires, in_of, out_of, index_nodes, network, cut_ids, solve,
  analyse_network, rollup,
}
use sysml_federation.Capacity.Rollup.Sums.{is_wired, Whole, Ranged}
use sysml_federation.Capacity.Rollup.Network.{
  cut_sum, network-Sized, network-amount, total-network, length-Whole,
}
use sysml_federation.Capacity.Rollup.Ends.{Named, network-Named}
use sysml_federation.Capacity.Rollup.Ids.{InCut, Memᴰ-cut_ids}
use sysml_federation.Capacity.Rollup.Separation.{
  Separates, label, label-splits, cut_sum-label, Separates-endless, sealed-Separates,
}
use sysml_federation.Capacity.Rollup.Unwired.{Flagged, wiring-Flagged, unwired-row}
use sysml_federation.Capacity.Rollup.Indexing.{index_nodes-Whole, wiring-Ranged}
use sysml_federation.Capacity.Rollup.Connections.{Connects, wiring-Connects}
use sysml_federation.Capacity.Exact.{Amount, finite, exact, exact_arithmetic}

unfoldable pub sum_of : List ℕ → ℕ
sum_of [] = 0
sum_of (x ∷ xs) = x + sum_of xs

cut_sum_le :
    (w : Wired) (fed passes : ℕ → Bool) (i : ℕ) (xs : List ℕ)
    → cut_sum w fed passes i xs ≤ sum_of xs
unfolding cut_sum sum_of
cut_sum_le w fed passes i [] = omega arith
cut_sum_le w fed passes i (x ∷ xs) = ground (arith, cut_sum_le w fed passes (suc i) xs)

-- The capacity of a wiring of n children, and the way to cut the entries from the exits that gives it.
pub record IsCapacity (w : Wired) (n : ℕ) (xs : List ℕ) (capacity : ℕ) (fed passes : ℕ → Bool)
    : Type 0 where
  pub separates : Separates w n fed passes
  pub value : capacity ≡ cut_sum w fed passes 0 xs
  pub least : (f p : ℕ → Bool) → Separates w n f p → capacity ≤ cut_sum w f p 0 xs
  pub connected : (i : ℕ) → i < n → fed i ≡ true → is_wired w i ≡ true

everything_cut : (w : Wired) (n : ℕ) → Separates w n (λ i. true) (λ i. false)
everything_cut w n = record {
  entries = λ i b wired h. refl;
  exits = λ i b wired h. refl;
  along = λ k from to q p. refl;
}

module _ (nodes : List (Node exact)) (xs : List ℕ) (w : Wired) (whole : Whole nodes xs)
    (ranged : Ranged (length nodes) w.wires) (flagged : Flagged (length nodes) w) where
  label-amount :
      (fed passes : ℕ → Bool)
      → total amount
          (label (length nodes) fed passes)
          0
          (network exact exact_arithmetic nodes w).graph.adj
        ≡ cut_sum w fed passes 0 xs
  label-amount fed passes =
      network-amount nodes xs w (label (length nodes) fed passes) whole ranged
      ∙ cut_sum-label w (length nodes) 0 fed passes xs (omega (arith, length-Whole nodes xs whole))

  label-endless :
      (fed passes : ℕ → Bool)
      → Separates w (length nodes) fed passes
      → total endless
          (label (length nodes) fed passes)
          0
          (network exact exact_arithmetic nodes w).graph.adj
        ≡ 0
  label-endless fed passes s =
      total-network nodes xs w endless (label (length nodes) fed passes) refl whole ranged
      ∙ Separates-endless w (length nodes) fed passes xs (length-Whole nodes xs whole) ranged s

  IsMinCut-IsCapacity :
      (c : ℕ) (seen : List Bool)
      → IsMinCut
          (2 * length nodes)
          (2 * length nodes + 1)
          (network exact exact_arithmetic nodes w).graph
          c
          seen
      → IsCapacity w (length nodes) xs c (λ i. marked seen (in_of i)) (λ i. marked seen (out_of i))
  IsMinCut-IsCapacity c seen k = record {
    separates =
        sealed-Separates w (length nodes) (marked seen) xs (length-Whole nodes xs whole) k.splits.0
          k.splits.1
          (sym (total-network nodes xs w endless (marked seen) refl whole ranged) ∙ k.sealed);
    value = k.value ∙ network-amount nodes xs w (marked seen) whole ranged;
    least = λ f p s. omega (
      arith,
      k.least_sum (label (length nodes) f p) (label-splits (length nodes) f p)
          (label-endless f p s),
      label-amount f p,
    );
    connected = λ i h fed. elim (Bool-cases (is_wired w i)) [
      | inl wired ↦ wired
      | inr alone ↦
          absurd (k.entered (in_of i) fed (omega arith) (unwired-row nodes w i h flagged alone))
    ];
  }

  solve-IsCapacity :
      (fuel : ℕ)
      → sum_of xs < fuel
      → (c : ℕ) × (seen : List Bool) × (solve exact exact_arithmetic fuel nodes
            (network exact exact_arithmetic nodes w)
          ≡ some (
              rolled
                (finite c)
                (cut_ids exact exact_arithmetic seen 0 nodes)
                (network exact exact_arithmetic nodes w).entry
                (network exact exact_arithmetic nodes w).exit))
        × IsCapacity w
            (length nodes)
            xs
            c
            (λ i. marked seen (in_of i))
            (λ i. marked seen (out_of i))
  unfolding solve
  solve-IsCapacity fuel h =
      let n = length nodes in
      let b = network exact exact_arithmetic nodes w in
      let sized = network-Sized nodes xs w whole ranged in
      let all = everything_cut w n in
      let (g, c, seen, e, r, k) =
        max_flow-IsMinCut fuel (2 * n) (2 * n + 1) b.graph (label n (λ i. true) (λ i. false))
          sized.paired (omega (arith, sized.size)) (label-splits n (λ i. true) (λ i. false))
          (label-endless (λ i. true) (λ i. false) all)
          (omega (
            arith,
            label-amount (λ i. true) (λ i. false),
            cut_sum_le w (λ i. true) (λ i. false) 0 xs,
          )) in
      (c, seen, rw (e, r, solve) refl, IsMinCut-IsCapacity c seen k)

-- The connections, by the index that the first loop of Rollup makes of the children.
abbrev pub wiring : List (Node exact) → List (Bytes × ℕ) → List Edge → Wired
wiring nodes index edges = wire_all index edges (no_wires (length nodes))

-- What Rollup answers where every child has a whole value.
pub record Answers (fuel : ℕ) (nodes : List (Node exact)) (xs : List ℕ) (edges : List Edge)
    (w : Wired) : Type 0 where
  pub ranged : Ranged (length nodes) w.wires
  pub connects : Connects nodes edges w
  pub named : Named w nodes (network exact exact_arithmetic nodes w)
  pub without_entry :
      (network exact exact_arithmetic nodes w).entry ≡ []
      → rollup exact exact_arithmetic fuel nodes edges ≡ some no_entry
  pub without_exit :
      (network exact exact_arithmetic nodes w).entry ≢ []
      → (network exact exact_arithmetic nodes w).exit ≡ []
      → rollup exact exact_arithmetic fuel nodes edges ≡ some no_exit
  pub with_both :
      (network exact exact_arithmetic nodes w).entry ≢ []
      → (network exact exact_arithmetic nodes w).exit ≢ []
      → (c : ℕ) × (seen : List Bool) × (rollup exact exact_arithmetic fuel nodes edges
          ≡ some (
              rolled
                (finite c)
                (cut_ids exact exact_arithmetic seen 0 nodes)
                (network exact exact_arithmetic nodes w).entry
                (network exact exact_arithmetic nodes w).exit))
        × ((id : Bytes)
            → Memᴰ id (cut_ids exact exact_arithmetic seen 0 nodes) ↔ InCut seen 0 nodes id)
        × IsCapacity w
            (length nodes)
            xs
            c
            (λ i. marked seen (in_of i))
            (λ i. marked seen (out_of i))

analyse_network-solve :
    (fuel : ℕ) (nodes : List (Node exact)) (b : Built Amount)
    → b.entry ≢ []
    → b.exit ≢ []
    → analyse_network exact exact_arithmetic fuel nodes b
      ≡ solve exact exact_arithmetic fuel nodes b
unfolding analyse_network
analyse_network-solve fuel nodes b m n = elim (List-cases b.entry) [
  | inl gone ↦ absurd (m gone)
  | inr (x, l, q) ↦ elim (List-cases b.exit) [
    | inl gone ↦ absurd (n gone)
    | inr (y, k, p) ↦ simp (q, p, analyse_network)
  ]
]

-- Where there is a child, every child has a whole value and the fuel is more than the values together,
-- Rollup over exact numbers, where eps is zero and no sum overflows, ends. A connection is an edge whose
-- two ends are ids of children, and it leads from the last child with the one id to the last child with
-- the other; the wires that Rollup makes are these, and a child has its flag for a connection into it
-- or out of it exactly where there is one. The entry children are those with a connection and none into them, the
-- exit children those with a connection and none out of them. Without an entry child it answers that,
-- and else without an exit child that. With both it answers a capacity, a cut and the entry and exit
-- children, and by the marks of reachable which children are fed and which pass on: entry children
-- are fed, exit children do not pass on, what a child that passes on is connected to is fed, and a
-- child that is fed has a connection. The capacity is the sum of the values of the children that are
-- fed and do not pass on, the cut has exactly their ids, and no other such choice has a smaller sum.
pub rollup-Answers :
    (fuel : ℕ) (nd : Node exact) (rest : List (Node exact)) (xs : List ℕ) (edges : List Edge)
    → Whole (nd ∷ rest) xs
    → sum_of xs < fuel
    → (index : List (Bytes × ℕ)) × (index_nodes exact exact_arithmetic 0 (nd ∷ rest) []
        ≡ indexed index)
      × Answers fuel (nd ∷ rest) xs edges (wiring (nd ∷ rest) index edges)
unfolding rollup analyse_network
rollup-Answers fuel nd rest xs edges whole h =
    let nodes = nd ∷ rest in
    let (index, e, below) = index_nodes-Whole nodes xs whole (length-Whole nodes xs whole) in
    let w = wiring nodes index edges in
    let solved =
      solve-IsCapacity nodes xs w whole (wiring-Ranged (length nodes) index edges below)
        (wiring-Flagged (length nodes) index edges below) fuel h in
    (
      index,
      e,
      record {
        ranged = wiring-Ranged (length nodes) index edges below;
        connects = wiring-Connects nodes index edges e below;
        named = network-Named nodes xs w whole;
        without_entry = λ n. rw (e, n, rollup, analyse_network) refl;
        without_exit = λ m n. elim (List-cases (network exact exact_arithmetic nodes w).entry) [
          | inl gone ↦ absurd (m gone)
          | inr (x, l, q) ↦ rw (e, q, n, rollup, analyse_network) refl
        ];
        with_both = λ m n.
            let (c, seen, r, a) = solved in
            (
              c,
              seen,
              rw (e, rollup)
                  (analyse_network-solve fuel nodes (network exact exact_arithmetic nodes w) m n
                    ∙ r),
              Memᴰ-cut_ids seen nodes,
              a,
            );
      },
    )
