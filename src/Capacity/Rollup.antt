-- ===== src/Capacity/Rollup.antt =====
-- examples/pipeline/capacity/flow/flow.go: Rollup, from the children and their connections to the
-- network, and from its maximum flow to the capacity and the cut.
pub mod Additions
pub mod Connections
pub mod Crossing
pub mod Ends
pub mod Faults
pub mod Ids
pub mod Indexing
pub mod Minimum
pub mod Separation
pub mod Network
pub mod Numbered
pub mod Sums
pub mod Unwired
pub mod Verdicts
use sysml_federation.Base.{
  ℕ, zero, suc, ◌+◌, ◌*◌, List, [], ◌∷◌, ◌++◌, Bool, true, false, not, ◌&&◌, Option, none, some,
  if◌then◌else◌, length, get_or, replicate, update_nth, Bytes, lookup,
}
use sysml_federation.Capacity.Verdict.{
  Floats, Node, Edge, Rolled, rolled, value_error, no_nodes, no_entry, no_exit,
}
use sysml_federation.Capacity.Flow.{Arithmetic, Graph, new_graph, add, max_flow, reachable}

-- The first loop: a ValueError, or the index of each id.
pub data Indexed : Type 0 where
  bad_value : Bytes → Bytes → Bool → Indexed
  indexed : List (Bytes × ℕ) → Indexed

-- hasIn, hasOut and wires
pub record Wired : Type 0 where
  pub has_in : List Bool
  pub has_out : List Bool
  pub wires : List (ℕ × ℕ)

-- One round of the loop over the edges.
unfoldable pub wire : List (Bytes × ℕ) → Edge → Wired → Wired
wire index e w = elim (lookup e.from index) [
  | none ↦ w
  | some from ↦ elim (lookup e.to index) [
    | none ↦ w
    | some to ↦ record {
      has_in = update_nth to (λ _. true) w.has_in;
      has_out = update_nth from (λ _. true) w.has_out;
      wires = w.wires ++ ((from, to) ∷ []);
    }
  ]
]

unfoldable pub wire_all : List (Bytes × ℕ) → List Edge → Wired → Wired
wire_all index [] w = w
wire_all index (e ∷ es) w = wire_all index es (wire index e w)

unfoldable pub no_wires : ℕ → Wired
no_wires n = record { has_in = replicate n false; has_out = replicate n false; wires = [] }

-- g, res.Entry and res.Exit
pub record Built (Float : Type 0) : Type 0 where
  pub graph : Graph Float
  pub entry : List Bytes
  pub exit : List Bytes

-- The vertices of child i.
abbrev pub in_of : ℕ → ℕ
in_of i = 2 * i

abbrev pub out_of : ℕ → ℕ
out_of i = 2 * i + 1

module _ (floats : Floats) (arithmetic : Arithmetic floats.Float) where
  open floats use {Float, less, float_zero}
  open arithmetic use {infinity}

  unfoldable pub index_nodes : ℕ → List (Node floats) → List (Bytes × ℕ) → Indexed
  index_nodes i [] index = indexed index
  index_nodes i (n ∷ nodes) index = elim n.value [
    | none ↦ bad_value n.id n.name false
    | some v ↦ elim (less v float_zero) [
      | true ↦ bad_value n.id n.name true
      | false ↦ index_nodes (suc i) nodes ((n.id, i) ∷ index)
    ]
  ]

  unfoldable pub add_entry : ℕ → ℕ → Bytes → Bool → Built Float → Built Float
  add_entry source i id has b = if has then b else record b {
    graph = add floats arithmetic b.graph source (in_of i) infinity;
    entry = b.entry ++ (id ∷ []);
  }

  unfoldable pub add_exit : ℕ → ℕ → Bytes → Bool → Built Float → Built Float
  add_exit sink i id has b = if has then b else record b {
    graph = add floats arithmetic b.graph (out_of i) sink infinity;
    exit = b.exit ++ (id ∷ []);
  }

  -- One round of the loop over the children, for n of them. That each has a value is checked before.
  unfoldable pub add_node : ℕ → Wired → ℕ → Node floats → Built Float → Built Float
  add_node n w i nd b =
      let has_in = get_or w.has_in i false in
      let has_out = get_or w.has_out i false in
      elim nd.value [
        | none ↦ b
        | some v ↦
            if not has_in && not has_out
            then b
            else add_exit (2 * n + 1) i nd.id has_out (
                add_entry (2 * n) i nd.id has_in
                  (record b { graph = add floats arithmetic b.graph (in_of i) (out_of i) v }))
      ]

  unfoldable pub add_nodes : ℕ → Wired → ℕ → List (Node floats) → Built Float → Built Float
  add_nodes n w i [] b = b
  add_nodes n w i (nd ∷ nodes) b = add_nodes n w (suc i) nodes (add_node n w i nd b)

  unfoldable pub add_wires : List (ℕ × ℕ) → Graph Float → Graph Float
  add_wires [] g = g
  add_wires ((from, to) ∷ wires) g =
      add_wires wires (add floats arithmetic g (out_of from) (in_of to) infinity)

  unfoldable pub network : List (Node floats) → Wired → Built Float
  network nodes w =
      let n = length nodes in
      let empty : Built Float = record {
        graph = new_graph floats arithmetic (2 * n + 2);
        entry = [];
        exit = [];
      } in
      let b = add_nodes n w 0 nodes empty in record b { graph = add_wires w.wires b.graph }

  unfoldable pub cut_ids : List Bool → ℕ → List (Node floats) → List Bytes
  cut_ids reach i [] = []
  cut_ids reach i (nd ∷ nodes) =
      let rest = cut_ids reach (suc i) nodes in
      if get_or reach (in_of i) false && not (get_or reach (out_of i) false)
      then nd.id ∷ rest
      else rest

  -- The flow, the reachable vertices and what they say.
  unfoldable pub solve : ℕ → List (Node floats) → Built Float → Option (Rolled Float)
  solve fuel nodes b =
      let source = 2 * length nodes in
      elim (max_flow floats arithmetic fuel b.graph source (2 * length nodes + 1)) [
        | none ↦ none
        | some (g, capacity) ↦ elim (reachable floats arithmetic g source) [
          | none ↦ none
          | some reach ↦ some (rolled capacity (cut_ids reach 0 nodes) b.entry b.exit)
        ]
      ]

  unfoldable pub analyse_network : ℕ → List (Node floats) → Built Float → Option (Rolled Float)
  analyse_network fuel nodes b = elim b.entry [
    | [] ↦ some no_entry
    | _ ∷ _ ↦ elim b.exit [ [] ↦ some no_exit | _ ∷ _ ↦ solve fuel nodes b ]
  ]

  unfoldable pub rollup : ℕ → List (Node floats) → List Edge → Option (Rolled Float)
  rollup fuel [] edges = some no_nodes
  rollup fuel (nd ∷ nodes) edges = elim (index_nodes 0 (nd ∷ nodes) []) [
    | bad_value id name negative ↦ some (value_error id name negative)
    | indexed index ↦
        let w = wire_all index edges (no_wires (length (nd ∷ nodes))) in
        analyse_network fuel (nd ∷ nodes) (network (nd ∷ nodes) w)
  ]
