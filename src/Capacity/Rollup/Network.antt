-- ===== src/Capacity/Rollup/Network.antt =====
-- flow.go: the sums over the network that Rollup builds from children with whole values.
use sysml_federation.Base.{
  ℕ, zero, suc, ◌+◌, ◌*◌, ◌≤◌, ◌≡◌, refl, ap, arith, List, [], ◌∷◌, Bool, not, ◌&&◌, if◌then◌else◌,
  length, get_elem?, get_or, get_or-replicate, replicate, length-replicate,
}
use sysml_federation.Capacity.Verdict.{Node}
use sysml_federation.Capacity.Flow.{Arc, new_graph, add}
use sysml_federation.Capacity.Flow.Progress.{Net}
use sysml_federation.Capacity.Flow.Cuts.{amount, leaving, total, at-shape}
use sysml_federation.Capacity.Rollup.{
  Wired, Built, in_of, out_of, add_node, add_nodes, add_wires, network,
}
use sysml_federation.Capacity.Rollup.Sums.{
  is_wired, Sized, Grows, Grows-trans, Grows-none, arc_part, add-Grows, add_node-Grows, Whole,
  whole_none, whole_some, child_part, children_part, wires_part, Ranged, ranged_none, ranged_some,
}
use sysml_federation.Capacity.Exact.{Amount, finite, infinite, exact, exact_arithmetic}

abbrev blank : ℕ → Net
blank n = new_graph exact exact_arithmetic (2 * n + 2)

abbrev no_arcs : ℕ → List (List (Arc Amount))
no_arcs n = replicate n []

Sized-blank : (n : ℕ) → Sized n (blank n)
unfolding new_graph
Sized-blank n = record {
  size = length-replicate {A = List (Arc Amount)} (2 * n + 2) [];
  paired = λ u i v r q.
      let row : get_or (no_arcs (2 * n + 2)) u [] ≡ [] =
        get_or-replicate {A = List (Arc Amount)} (2 * n + 2) u [] in
      absurd (
        ground (
          arith,
          at-shape (no_arcs (2 * n + 2)) u i,
          ap (λ (es : List (Arc Amount)). get_elem? es i) row,
          q,
        ));
}

total-blank :
    (weight : Amount → ℕ) (within : ℕ → Bool) (b n : ℕ) → total weight within b (replicate n []) ≡ 0
unfolding total leaving replicate
total-blank weight within b zero = refl
total-blank weight within b (suc n) = omega (arith, total-blank weight within (suc b) n)

add_nodes-Grows :
    (n i : ℕ) (w : Wired) (nodes : List (Node exact)) (xs : List ℕ) (b : Built Amount)
    → i + length xs ≤ n
    → Whole nodes xs
    → Sized n b.graph
    → Grows n
        (children_part n w i xs)
        b.graph
        (add_nodes exact exact_arithmetic n w i nodes b).graph
unfolding add_nodes
add_nodes-Grows n i w nodes xs b h (whole_none e f) s = rw (e, f) (Grows-none n b.graph s)
add_nodes-Grows n i w nodes xs b h (whole_some nd x rest ys e f v k) s =
    let first = add_node-Grows n i x w nd b (omega (arith, ap (λ (l : List ℕ). length l) f)) v s in
    let next = add_node exact exact_arithmetic n w i nd b in
    let later =
      add_nodes-Grows n (suc i) w rest ys next (omega (arith, ap (λ (l : List ℕ). length l) f)) k
        first.sized in
    rw (e, f)
      (Grows-trans n (child_part n w i (finite x)) (children_part n w (suc i) ys) b.graph next.graph
        (add_nodes exact exact_arithmetic n w (suc i) rest next).graph first later)

add_wires-Grows :
    (n : ℕ) (wires : List (ℕ × ℕ)) (g : Net)
    → Ranged n wires
    → Sized n g
    → Grows n (wires_part wires) g (add_wires exact exact_arithmetic wires g)
unfolding add_wires
add_wires-Grows n wires g (ranged_none e) s = rw (e) (Grows-none n g s)
add_wires-Grows n wires g (ranged_some from to rest e hf ht k) s =
    let first =
      add-Grows n (out_of from) (in_of to) infinite g (omega arith) (omega arith) (omega arith) s in
    let next = add exact exact_arithmetic g (out_of from) (in_of to) infinite in
    rw (e) (
      Grows-trans n (arc_part (out_of from) (in_of to) infinite) (wires_part rest) g next
        (add_wires exact exact_arithmetic rest next) first
        (add_wires-Grows n rest next k first.sized))

pub length-Whole :
    (nodes : List (Node exact)) (xs : List ℕ) → Whole nodes xs → length xs ≡ length nodes
length-Whole nodes xs (whole_none e f) = rw (e, f) refl
length-Whole nodes xs (whole_some nd x rest ys e f v k) =
    rw (e, f) (ap suc (length-Whole rest ys k))

abbrev whole_part : ℕ → Wired → List ℕ → (Amount → ℕ) → (ℕ → Bool) → ℕ
whole_part n w xs weight within =
    children_part n w 0 xs weight within + wires_part w.wires weight within

network-Grows :
    (nodes : List (Node exact)) (xs : List ℕ) (w : Wired)
    → Whole nodes xs
    → Ranged (length nodes) w.wires
    → Grows
        (length nodes)
        (whole_part (length nodes) w xs)
        (blank (length nodes))
        (network exact exact_arithmetic nodes w).graph
unfolding network
network-Grows nodes xs w k r =
    let n = length nodes in
    let start : Built Amount = record { graph = blank n; entry = []; exit = [] } in
    let b = add_nodes exact exact_arithmetic n w 0 nodes start in
    let first =
      add_nodes-Grows n 0 w nodes xs start (omega (arith, length-Whole nodes xs k)) k
        (Sized-blank n) in
    Grows-trans n (children_part n w 0 xs) (wires_part w.wires) (blank n) b.graph _ first
      (add_wires-Grows n w.wires b.graph r first.sized)

pub network-Sized :
    (nodes : List (Node exact)) (xs : List ℕ) (w : Wired)
    → Whole nodes xs
    → Ranged (length nodes) w.wires
    → Sized (length nodes) (network exact exact_arithmetic nodes w).graph
network-Sized nodes xs w k r = (network-Grows nodes xs w k r).sized

pub total-network :
    (nodes : List (Node exact)) (xs : List ℕ) (w : Wired) (weight : Amount → ℕ) (within : ℕ → Bool)
    → weight (finite 0) ≡ 0
    → Whole nodes xs
    → Ranged (length nodes) w.wires
    → total weight within 0 (network exact exact_arithmetic nodes w).graph.adj
      ≡ children_part (length nodes) w 0 xs weight within + wires_part w.wires weight within
unfolding new_graph
total-network nodes xs w weight within z k r = omega (
  arith,
  (network-Grows nodes xs w k r).sums weight within z,
  total-blank weight within 0 (2 * length nodes + 2),
)

-- The values of the children with a connection that are fed and do not pass on.
unfoldable pub cut_sum : Wired → (ℕ → Bool) → (ℕ → Bool) → ℕ → List ℕ → ℕ
cut_sum w fed passes i [] = 0
cut_sum w fed passes i (x ∷ xs) =
    (if is_wired w i && (fed i && not (passes i)) then x else 0) + cut_sum w fed passes (suc i) xs

wires_amount : (wires : List (ℕ × ℕ)) (within : ℕ → Bool) → wires_part wires amount within ≡ 0
wires_amount [] within = refl
wires_amount ((from, to) ∷ wires) within = ground (arith, wires_amount wires within)

children_amount :
    (n i : ℕ) (w : Wired) (xs : List ℕ) (within : ℕ → Bool)
    → children_part n w i xs amount within
      ≡ cut_sum w (λ j. within (in_of j)) (λ j. within (out_of j)) i xs
unfolding cut_sum
children_amount n i w [] within = refl
children_amount n i w (x ∷ xs) within = ground (arith, children_amount n (suc i) w xs within)

pub network-amount :
    (nodes : List (Node exact)) (xs : List ℕ) (w : Wired) (within : ℕ → Bool)
    → Whole nodes xs
    → Ranged (length nodes) w.wires
    → total amount within 0 (network exact exact_arithmetic nodes w).graph.adj
      ≡ cut_sum w (λ j. within (in_of j)) (λ j. within (out_of j)) 0 xs
network-amount nodes xs w within k r = omega (
  arith,
  total-network nodes xs w amount within refl k r,
  wires_amount w.wires within,
  children_amount (length nodes) 0 w xs within,
)
