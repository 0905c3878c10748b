-- ===== src/Capacity/Examples.antt =====
-- A wiring of three children over whole numbers, on which the theorems on flow.go are applied.
use sysml_federation.Base.{
  ℕ, zero, suc, ◌≤◌, ◌<◌, ◌≢◌, ◌≡◌, ◌↔◌, refl, arith, List, [], ◌∷◌, Bool, true, false, Option,
  none, some, ◌==◌, not, inl, inr, ap, ◌∙◌, Option-cases, List-cases, bytes, Bytes, length, get_or,
  lookup, bytes_eq, update_nth, replicate,
}
use sysml_federation.Capacity.Verdict.{
  pass, Names, Node, Subject, no_nodes, no_entry, of_subject, of_children, judge, holds,
  compare_limit, Edge, Rolled, rolled, value_error, verdict,
}
use sysml_federation.Capacity.Flow.{
  new_graph, append_arc, add, level_arc, level_arcs, bfs_loop, bfs, mark_arc, mark_arcs,
  reachable_loop, reachable, advance, is_skipped, set_cap, push, dfs_arcs, dfs, augment, phases,
  max_flow,
}
use sysml_federation.Capacity.Flow.Reach.{Reach, reachable-Reach}
use sysml_federation.Capacity.Flow.Bfs.{Leveled, bfs-Leveled}
use sysml_federation.Capacity.Flow.Visit.{shape}
use sysml_federation.Capacity.Flow.Search.{Ready, Finds, dfs-Finds}
use sysml_federation.Capacity.Flow.Progress.{Net}
use sysml_federation.Capacity.Flow.Cuts.{amount, endless, leaving, total, Paired}
use sysml_federation.Capacity.Flow.MinCut.{IsMinCut, max_flow-IsMinCut}
use sysml_federation.Capacity.Rollup.Crossing.{Chain, Meets, rollup-Meets}
use sysml_federation.Capacity.Rollup.Ends.{IsEntry, IsExit}
use sysml_federation.Capacity.Rollup.Network.{cut_sum}
use sysml_federation.Capacity.Rollup.Separation.{Separates}
use sysml_federation.Capacity.Rollup.Verdicts.{subject_of, verdict-Separates}
use sysml_federation.Capacity.Rollup.Faults.{FirstFault, rollup-FirstFault}
use sysml_federation.Capacity.Rollup.Sums.{Whole, whole_none, whole_some}
use sysml_federation.Capacity.Rollup.Minimum.{sum_of, wiring, Answers, rollup-Answers}
use sysml_federation.Capacity.Rollup.{
  indexed, bad_value, Indexed, Built, wire, wire_all, no_wires, index_nodes, add_entry, add_exit,
  add_node, add_nodes, add_wires, network, cut_ids, solve, analyse_network, rollup,
}
use sysml_federation.Capacity.Rollup.Connections.{Connects}
use sysml_federation.Capacity.Verdict.Decided.{is_decided, IsAnalysed, verdict-IsAnalysed}
use sysml_federation.Capacity.Exact.{Amount, less, finite, exact, exact_arithmetic}

abbrev child : Bytes → ℕ → Node exact
child id v = record { id = id; name = id; value = some (finite v) }

abbrev to : Bytes → Bytes → Edge
to a b = record { from = a; to = b }

-- A feeds b and c, which feed d.
abbrev children : List (Node exact)
children =
    child (bytes "a") 10 ∷ child (bytes "b") 3 ∷ child (bytes "c") 4 ∷ child (bytes "d") 9 ∷ []

abbrev wiring_edges : List Edge
wiring_edges =
    to (bytes "a") (bytes "b")
    ∷ to (bytes "a") (bytes "c")
    ∷ to (bytes "b") (bytes "d")
    ∷ to (bytes "c") (bytes "d")
    ∷ []

rollup_run :
    rollup exact exact_arithmetic 30 children wiring_edges
    ≡ some (rolled (finite 7) (bytes "b" ∷ bytes "c" ∷ []) (bytes "a" ∷ []) (bytes "d" ∷ []))
unfolding rollup analyse_network solve network add_wires add_nodes add_node add_exit add_entry
    index_nodes no_wires wire_all wire max_flow phases augment dfs dfs_arcs push set_cap is_skipped
    advance reachable reachable_loop mark_arcs mark_arc bfs bfs_loop level_arcs level_arc add
    append_arc new_graph cut_ids update_nth replicate lookup bytes_eq
rollup_run = refl

abbrev values : List ℕ
values = 10 ∷ 3 ∷ 4 ∷ 9 ∷ []

children-Whole : Whole children values
children-Whole = whole_some (child (bytes "a") 10) 10 _ _ refl refl refl (
    whole_some (child (bytes "b") 3) 3 _ _ refl refl refl (
      whole_some (child (bytes "c") 4) 4 _ _ refl refl refl
        (whole_some (child (bytes "d") 9) 9 _ _ refl refl refl (whole_none refl refl))))

values_small : sum_of values < 30
unfolding sum_of
values_small = omega arith

rollup-Answers_example :
    (index : List (Bytes × ℕ)) × (index_nodes exact exact_arithmetic 0 children [] ≡ indexed index)
    × Answers 30 children values wiring_edges (wiring children index wiring_edges)
rollup-Answers_example =
    rollup-Answers 30 (child (bytes "a") 10)
      (child (bytes "b") 3 ∷ child (bytes "c") 4 ∷ child (bytes "d") 9 ∷ []) values wiring_edges
      children-Whole values_small

-- An arc of capacity 5 and the one back.
abbrev pipe : Net
pipe = record {
  adj =
      (record { to = 1; rev = 0; cap = finite 5 } ∷ [])
      ∷ (record { to = 0; rev = 0; cap = finite 0 } ∷ [])
      ∷ [];
  level = some 0 ∷ some 1 ∷ [];
  next = 0 ∷ 0 ∷ [];
}

pipe-Paired : Paired (shape pipe.adj)
pipe-Paired zero zero v r q = ground (arith, q)
pipe-Paired zero (suc i) v r q = absurd (ground (arith, q))
pipe-Paired (suc zero) zero v r q = ground (arith, q)
pipe-Paired (suc zero) (suc i) v r q = absurd (ground (arith, q))
pipe-Paired (suc (suc u)) i v r q = absurd (ground (arith, q))

pipe-Ready : Ready exact exact_arithmetic pipe 2
pipe-Ready = record { low = low; sizes = refl }
  where
    low : (v d : ℕ) → get_or pipe.level v none ≡ some d → d < 2
    low zero d e = ground (arith, e)
    low (suc zero) d e = ground (arith, e)
    low (suc (suc v)) d e = absurd (ground (arith, e))

-- The source alone.
abbrev first_only : ℕ → Bool
first_only v = v == 0

pipe_sealed : total endless first_only 0 pipe.adj ≡ 0
unfolding total leaving
pipe_sealed = refl

pipe_small : total amount first_only 0 pipe.adj < 6
unfolding total leaving
pipe_small = omega arith

max_flow-IsMinCut_example :
    (h : Net) × (flow : ℕ) × (seen : List Bool) × (max_flow exact exact_arithmetic 6 pipe 0 1
      ≡ some (h, finite flow))
    × (reachable exact exact_arithmetic h 0 ≡ some seen)
    × IsMinCut 0 1 pipe flow seen
max_flow-IsMinCut_example =
    max_flow-IsMinCut 6 0 1 pipe first_only pipe-Paired (omega arith) (refl, refl) pipe_sealed
      pipe_small

reachable-Reach_example :
    (seen : List Bool) × (reachable exact exact_arithmetic pipe 0 ≡ some seen)
    × (length seen ≡ length pipe.adj)
    × ((v : ℕ) → (get_or seen v false ≡ true) ↔ ∥ Reach exact exact_arithmetic pipe.adj 0 v ∥₁)
reachable-Reach_example = reachable-Reach exact exact_arithmetic pipe 0 (omega arith)

bfs-Leveled_example :
    (level : List (Option ℕ)) × (found : Bool) × (bfs exact exact_arithmetic pipe 0 1
      ≡ some (record pipe { level = level }, found))
    × Leveled exact exact_arithmetic pipe 0 1 level found
bfs-Leveled_example = bfs-Leveled exact exact_arithmetic pipe 0 1 (omega arith)

dfs-Finds_example :
    Finds exact exact_arithmetic 1 pipe 0
      (finite 9)
      (dfs exact exact_arithmetic 2 1 pipe 0 (finite 9))
dfs-Finds_example =
    dfs-Finds exact exact_arithmetic 2 1 2 0 pipe 0 (finite 9) pipe-Ready refl (omega arith)

rollup-Meets_example :
    (index : List (Bytes × ℕ)) × (index_nodes exact exact_arithmetic 0 children [] ≡ indexed index)
    × Connects children wiring_edges (wiring children index wiring_edges)
    × ((first last : ℕ) (met : List ℕ)
        → first < length children
        → last < length children
        → IsEntry (wiring children index wiring_edges) first
        → IsExit (wiring children index wiring_edges) last
        → Chain (wiring children index wiring_edges) last first met
        → Meets children met (bytes "b" ∷ bytes "c" ∷ []))
rollup-Meets_example =
    rollup-Meets 30 (child (bytes "a") 10)
      (child (bytes "b") 3 ∷ child (bytes "c") 4 ∷ child (bytes "d") 9 ∷ []) values wiring_edges
      (finite 7) (bytes "b" ∷ bytes "c" ∷ []) (bytes "a" ∷ []) (bytes "d" ∷ []) children-Whole
      values_small rollup_run

-- The second child has no value.
abbrev without_value : List (Node exact)
without_value =
    child (bytes "a") 10 ∷ record { id = bytes "b"; name = bytes "B"; value = none } ∷ []

rollup-FirstFault_example :
    (rollup exact exact_arithmetic 1 without_value wiring_edges
      ≡ some (value_error (bytes "b") (bytes "B") false))
    ↔ FirstFault exact exact_arithmetic without_value (bytes "b") (bytes "B") false
rollup-FirstFault_example =
    rollup-FirstFault exact exact_arithmetic 1 without_value wiring_edges (bytes "b") (bytes "B")
      false

without_value_run :
    rollup exact exact_arithmetic 1 without_value wiring_edges
    ≡ some (value_error (bytes "b") (bytes "B") false)
unfolding rollup index_nodes
without_value_run = refl

-- What Rollup answers on the wiring, as the function that the verdict calls.
abbrev answered : List (Node exact) → List Edge → Rolled Amount
answered nodes edges =
    rolled (finite 7) (bytes "b" ∷ bytes "c" ∷ []) (bytes "a" ∷ []) (bytes "d" ∷ [])

abbrev configured : Names
configured = record { quantity = bytes "rate"; attribute = bytes "capacity" }

rate_given : configured.quantity ≢ []
rate_given e = cc (e)

verdict-Separates_example :
    (index : List (Bytes × ℕ)) × (index_nodes exact exact_arithmetic 0 children [] ≡ indexed index)
    × Connects children wiring_edges (wiring children index wiring_edges)
    × ((network exact exact_arithmetic children (wiring children index wiring_edges)).entry ≢ []
        → (network exact exact_arithmetic children (wiring children index wiring_edges)).exit ≢ []
        → ((verdict exact answered configured configured.quantity
              (bytes "GE")
              (some (finite 7))
              (subject_of (bytes "line") true (some (finite 2)) children wiring_edges)
              []).0
            ≡ pass)
          ↔ ((fed passes : ℕ → Bool)
              → Separates (wiring children index wiring_edges) (length children) fed passes
              → 7 ≤ cut_sum (wiring children index wiring_edges) fed passes 0 values))
verdict-Separates_example =
    verdict-Separates 30 7 answered configured (bytes "line") true (some (finite 2))
      (child (bytes "a") 10) (child (bytes "b") 3 ∷ child (bytes "c") 4 ∷ child (bytes "d") 9 ∷ [])
      values wiring_edges [] children-Whole values_small rate_given rollup_run

-- What Rollup answers on exact numbers, as the function that the verdict and Analyse call.
abbrev run_rollup : List (Node exact) → List Edge → Rolled Amount
run_rollup nodes edges = elim (rollup exact exact_arithmetic 30 nodes edges) [
  | none ↦ no_entry
  | some r ↦ r
]

analyse_network-some_nodes :
    (nodes : List (Node exact)) (b : Built Amount)
    → analyse_network exact exact_arithmetic 30 nodes b ≢ some no_nodes
unfolding analyse_network solve
analyse_network-some_nodes nodes b h = elim (List-cases b.entry) [
  | inl gone ↦ absurd (ground (arith, rw (gone, analyse_network) at h))
  | inr (x, l, q) ↦ elim (List-cases b.exit) [
    | inl gone ↦ absurd (ground (arith, rw (q, gone, analyse_network) at h))
    | inr (y, k, p) ↦ absurd (ground (arith, rw (q, p, analyse_network, solve) at h))
  ]
]

rollup-some_nodes :
    (c : Node exact) (cs : List (Node exact)) (es : List Edge)
    → rollup exact exact_arithmetic 30 (c ∷ cs) es ≢ some no_nodes
unfolding rollup
rollup-some_nodes c cs es h = outcome (index_nodes exact exact_arithmetic 0 (c ∷ cs) []) refl
  where
    outcome : (x : Indexed) → index_nodes exact exact_arithmetic 0 (c ∷ cs) [] ≡ x → ⊥
    outcome (bad_value id name negative) e = absurd (ground (arith, rw (e, rollup) at h))
    outcome (indexed index) e = analyse_network-some_nodes (c ∷ cs) _ (rw (e, rollup) at h)

run_rollup-some_nodes :
    (c : Node exact) (cs : List (Node exact)) (es : List Edge) → run_rollup (c ∷ cs) es ≢ no_nodes
run_rollup-some_nodes c cs es h =
    elim (Option-cases (rollup exact exact_arithmetic 30 (c ∷ cs) es)) [
      | inl gone ↦ absurd (ground (arith, rw (gone, run_rollup) at h))
      | inr (r, q) ↦ rollup-some_nodes c cs es (q ∙ ap some (rw (q, run_rollup) at h))
    ]

abbrev line : Subject exact
line = subject_of (bytes "line") true (some (finite 2)) children wiring_edges

line-IsOrdered :
    (v : Amount) → some (finite 2) ≡ some v → not (less v (finite 0)) ≡ not (less v (finite 0))
line-IsOrdered v e = refl

verdict-IsAnalysed_example :
    (((verdict exact run_rollup configured (bytes "rate") (bytes "GE") (some (finite 7)) line []).0
        ≡ pass)
      × (is_decided pass ≡ true))
    ↔ ((bytes "rate" ≢ [])
        × (bytes "rate" ≡ configured.quantity)
        × IsAnalysed exact run_rollup (bytes "GE") (some (finite 7)) line pass)
verdict-IsAnalysed_example =
    verdict-IsAnalysed exact run_rollup run_rollup-some_nodes configured (bytes "rate") (bytes "GE")
      (some (finite 7)) line [] pass line-IsOrdered

verdict_run :
    (verdict exact run_rollup configured (bytes "rate") (bytes "GE") (some (finite 7)) line []).0
    ≡ pass
unfolding verdict of_subject of_children bytes_eq compare_limit judge holds
verdict_run =
    ap
      (λ (r : Rolled Amount).
        (of_children exact configured (bytes "GE") (some (finite 7)) children r).0)
      (ap (λ (o : Option (Rolled Amount)). elim o [ none ↦ no_entry | some r ↦ r ]) rollup_run)
