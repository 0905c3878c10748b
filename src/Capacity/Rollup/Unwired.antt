-- ===== src/Capacity/Rollup/Unwired.antt =====
-- flow.go: the children without connections in the network of Rollup.
use sysml_federation.Base.{
  ℕ, suc, ◌+◌, ◌*◌, ◌<◌, ◌≡◌, ◌≢◌, inl, inr, refl, ◌∙◌, arith, List, [], ◌∷◌, Bool, true, false,
  not, ◌&&◌, some, length, get_elem?, get_or, Bytes, lookup, Bool-cases, Option-cases,
  get_or-update_nth, get_or-update_nth_other, length-update_nth, length-replicate, get_or-replicate,
}
use sysml_federation.Capacity.Verdict.{Node, Edge}
use sysml_federation.Capacity.Flow.{Arc, append_arc, add, new_graph}
use sysml_federation.Capacity.Flow.Progress.{Net}
use sysml_federation.Capacity.Rollup.{
  Wired, Built, wire, wire_all, no_wires, in_of, out_of, add_entry, add_exit, add_node, add_nodes,
  add_wires, network,
}
use sysml_federation.Capacity.Rollup.Sums.{is_wired}
use sysml_federation.Capacity.Rollup.Additions.{get_elem?-snoc}
use sysml_federation.Capacity.Rollup.Indexing.{Below}
use sysml_federation.Capacity.Exact.{Amount, infinite, exact, exact_arithmetic}

abbrev row_of : Net → ℕ → List (Arc Amount)
row_of g x = get_or g.adj x []

add-row :
    (g : Net) (u v x : ℕ) (c : Amount)
    → u ≢ x
    → v ≢ x
    → row_of (add exact exact_arithmetic g u v c) x ≡ row_of g x
unfolding add append_arc
add-row g u v x c nu nv =
    get_or-update_nth_other v x _ _ [] nv ∙ get_or-update_nth_other u x _ g.adj [] nu

add_entry-row :
    (n i j : ℕ) (id : Bytes) (has : Bool) (b : Built Amount)
    → j < n
    → i ≢ j
    → row_of (add_entry exact exact_arithmetic (2 * n) i id has b).graph (in_of j)
      ≡ row_of b.graph (in_of j)
unfolding add_entry
add_entry-row n i j id true b h other = refl
add_entry-row n i j id false b h other =
    add-row b.graph (2 * n) (in_of i) (in_of j) infinite (omega arith) (omega (arith, other))

add_exit-row :
    (n i j : ℕ) (id : Bytes) (has : Bool) (b : Built Amount)
    → j < n
    → row_of (add_exit exact exact_arithmetic (2 * n + 1) i id has b).graph (in_of j)
      ≡ row_of b.graph (in_of j)
unfolding add_exit
add_exit-row n i j id true b h = refl
add_exit-row n i j id false b h =
    add-row b.graph (out_of i) (2 * n + 1) (in_of j) infinite (omega arith) (omega arith)

add_node-row :
    (n i j : ℕ) (w : Wired) (nd : Node exact) (b : Built Amount)
    → j < n
    → is_wired w j ≡ false
    → row_of (add_node exact exact_arithmetic n w i nd b).graph (in_of j) ≡ row_of b.graph (in_of j)
unfolding add_node
add_node-row n i j w nd b h alone = elim (Option-cases nd.value) [
  | inl gone ↦ rw (gone, add_node) refl
  | inr (v, e) ↦
      elim (Bool-cases (not (get_or w.has_in i false) && not (get_or w.has_out i false))) [
        | inl skip ↦ rw (e, skip, add_node) refl
        | inr wired ↦
            let other : i ≢ j = λ same. cc (wired, alone, same) in
            let b1 : Built Amount = record b {
              graph = add exact exact_arithmetic b.graph (in_of i) (out_of i) v;
            } in
            let b2 =
              add_entry exact exact_arithmetic (2 * n) i nd.id (get_or w.has_in i false) b1 in
            rw (e, wired, add_node)
              (add_exit-row n i j nd.id (get_or w.has_out i false) b2 h
                ∙ add_entry-row n i j nd.id (get_or w.has_in i false) b1 h other
                ∙ add-row b.graph (in_of i) (out_of i) (in_of j) v (omega (arith, other))
                    (omega arith))
      ]
]

-- A connection marks the child that it leads to.
pub record Flagged (n : ℕ) (w : Wired) : Type 0 where
  pub size : length w.has_in ≡ n
  pub into :
      (k from to : ℕ) → get_elem? w.wires k ≡ some (from, to) → get_or w.has_in to false ≡ true

wire-Flagged :
    (n : ℕ) (index : List (Bytes × ℕ)) (e : Edge) (w : Wired)
    → Below n index
    → Flagged n w
    → Flagged n (wire index e w)
unfolding wire
wire-Flagged n index e w b f = elim (Option-cases (lookup e.from index)) [
  | inl gone ↦ rw (gone, wire) f
  | inr (from, p) ↦ elim (Option-cases (lookup e.to index)) [
    | inl gone ↦ rw (p, gone, wire) f
    | inr (to, q) ↦
        let range : to < length w.has_in = omega (arith, b e.to to q, f.size) in
        rw (p, q, wire)
          (record {
            size = length-update_nth to (λ _. true) w.has_in ∙ f.size;
            into = λ k x y there. elim (get_elem?-snoc w.wires (from, to) k {x = (x, y)} there) [
              | inl old ↦
                  ground (
                    arith,
                    get_or-update_nth to y (λ _. true) w.has_in false range,
                    f.into k x y old,
                  )
              | inr (_, same) ↦
                  ground (arith, get_or-update_nth to y (λ _. true) w.has_in false range, same)
            ];
          })
  ]
]

wire_all-Flagged :
    (n : ℕ) (index : List (Bytes × ℕ)) (edges : List Edge) (w : Wired)
    → Below n index
    → Flagged n w
    → Flagged n (wire_all index edges w)
unfolding wire_all
wire_all-Flagged n index [] w b f = f
wire_all-Flagged n index (e ∷ edges) w b f =
    wire_all-Flagged n index edges (wire index e w) b (wire-Flagged n index e w b f)

pub wiring-Flagged :
    (n : ℕ) (index : List (Bytes × ℕ)) (edges : List Edge)
    → Below n index
    → Flagged n (wire_all index edges (no_wires n))
unfolding no_wires
wiring-Flagged n index edges b = wire_all-Flagged n index edges (no_wires n) b (record {
  size = length-replicate {A = Bool} n false;
  into = λ k x y there. absurd (ground (arith, there));
})

add_nodes-row :
    (n i j : ℕ) (w : Wired) (nodes : List (Node exact)) (b : Built Amount)
    → j < n
    → is_wired w j ≡ false
    → row_of (add_nodes exact exact_arithmetic n w i nodes b).graph (in_of j)
      ≡ row_of b.graph (in_of j)
unfolding add_nodes
add_nodes-row n i j w [] b h alone = refl
add_nodes-row n i j w (nd ∷ nodes) b h alone =
    add_nodes-row n (suc i) j w nodes (add_node exact exact_arithmetic n w i nd b) h alone
    ∙ add_node-row n i j w nd b h alone

add_wires-row :
    (j : ℕ) (has_in : List Bool) (wires : List (ℕ × ℕ)) (g : Net)
    → get_or has_in j false ≡ false
    → ((k from to : ℕ) → get_elem? wires k ≡ some (from, to) → get_or has_in to false ≡ true)
    → row_of (add_wires exact exact_arithmetic wires g) (in_of j) ≡ row_of g (in_of j)
unfolding add_wires
add_wires-row j has_in [] g e f = refl
add_wires-row j has_in ((from, to) ∷ wires) g e f =
    let other : to ≢ j = λ same. cc (f 0 from to refl, e, same) in
    add_wires-row j has_in wires (add exact exact_arithmetic g (out_of from) (in_of to) infinite) e
      (λ k x y q. f (suc k) x y q)
    ∙ add-row g (out_of from) (in_of to) (in_of j) infinite (omega arith) (omega (arith, other))

pub unwired-row :
    (nodes : List (Node exact)) (w : Wired) (j : ℕ)
    → j < length nodes
    → Flagged (length nodes) w
    → is_wired w j ≡ false
    → row_of (network exact exact_arithmetic nodes w).graph (in_of j) ≡ []
unfolding network new_graph
unwired-row nodes w j h f alone =
    let n = length nodes in
    let start : Built Amount = record {
      graph = new_graph exact exact_arithmetic (2 * n + 2);
      entry = [];
      exit = [];
    } in
    add_wires-row j w.has_in w.wires (add_nodes exact exact_arithmetic n w 0 nodes start).graph
      (ground arith) f.into
    ∙ add_nodes-row n 0 j w nodes start h alone
    ∙ get_or-replicate {A = List (Arc Amount)} (2 * n + 2) (in_of j) []
