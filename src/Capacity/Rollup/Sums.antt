-- ===== src/Capacity/Rollup/Sums.antt =====
-- flow.go: the network of Rollup, by the sums over the arcs that leave a set of its vertices.
use sysml_federation.Base.{
  ℕ, suc, ◌+◌, ◌*◌, ◌<◌, ◌≡◌, ◌≢◌, inl, inr, refl, arith, List, [], ◌∷◌, Bool, false, not, ◌&&◌,
  some, if◌then◌else◌, length, get_or, Bytes, Bool-cases,
}
use sysml_federation.Capacity.Verdict.{Node}
use sysml_federation.Capacity.Flow.{add}
use sysml_federation.Capacity.Flow.Visit.{shape}
use sysml_federation.Capacity.Flow.Progress.{Net}
use sysml_federation.Capacity.Flow.Cuts.{part, total, Paired}
use sysml_federation.Capacity.Rollup.{Wired, Built, in_of, out_of, add_entry, add_exit, add_node}
use sysml_federation.Capacity.Rollup.Additions.{add-Added}
use sysml_federation.Capacity.Exact.{Amount, finite, infinite, exact, exact_arithmetic}

abbrev pub is_wired : Wired → ℕ → Bool
is_wired w i = not (not (get_or w.has_in i false) && not (get_or w.has_out i false))

-- A network of n children, with its arcs in pairs.
pub record Sized (n : ℕ) (g : Net) : Type 0 where
  pub size : length g.adj ≡ 2 * n + 2
  pub paired : Paired (shape g.adj)

-- h has what g has and one part more.
pub record Grows (n : ℕ) (more : (Amount → ℕ) → (ℕ → Bool) → ℕ) (g h : Net) : Type 0 where
  pub sized : Sized n h
  pub sums :
      (weight : Amount → ℕ) (within : ℕ → Bool)
      → weight (finite 0) ≡ 0
      → total weight within 0 h.adj ≡ total weight within 0 g.adj + more weight within

abbrev pub arc_part : ℕ → ℕ → Amount → (Amount → ℕ) → (ℕ → Bool) → ℕ
arc_part u v c weight within = part weight within u v c

pub add-Grows :
    (n u v : ℕ) (c : Amount) (g : Net)
    → u < 2 * n + 2
    → v < 2 * n + 2
    → u ≢ v
    → Sized n g
    → Grows n (arc_part u v c) g (add exact exact_arithmetic g u v c)
add-Grows n u v c g hu hv d s =
    let a = add-Added (2 * n + 2) u v c g s.size hu hv d s.paired in
    record { sized = record { size = a.size; paired = a.paired }; sums = a.sums }

pub Grows-trans :
    (n : ℕ) (a b : (Amount → ℕ) → (ℕ → Bool) → ℕ) (g h k : Net)
    → Grows n a g h
    → Grows n b h k
    → Grows n (λ weight within. a weight within + b weight within) g k
Grows-trans n a b g h k f s = record {
  sized = s.sized;
  sums = λ weight within z. omega (arith, f.sums weight within z, s.sums weight within z);
}

pub Grows-as :
    (n : ℕ) (a b : (Amount → ℕ) → (ℕ → Bool) → ℕ) (g h : Net)
    → ((weight : Amount → ℕ) (within : ℕ → Bool) → a weight within ≡ b weight within)
    → Grows n a g h
    → Grows n b g h
Grows-as n a b g h same k = record {
  sized = k.sized;
  sums = λ weight within z. omega (arith, k.sums weight within z, same weight within);
}

pub Grows-none : (n : ℕ) (g : Net) → Sized n g → Grows n (λ weight within. 0) g g
Grows-none n g s = record { sized = s; sums = λ weight within z. omega arith }

-- What the child i adds: its own arc, and one without limit from the source and to the sink.
abbrev pub entry_part : ℕ → Wired → ℕ → (Amount → ℕ) → (ℕ → Bool) → ℕ
entry_part n w i weight within =
    if get_or w.has_in i false then 0 else part weight within (2 * n) (in_of i) infinite

abbrev pub exit_part : ℕ → Wired → ℕ → (Amount → ℕ) → (ℕ → Bool) → ℕ
exit_part n w i weight within =
    if get_or w.has_out i false then 0 else part weight within (out_of i) (2 * n + 1) infinite

abbrev pub child_part : ℕ → Wired → ℕ → Amount → (Amount → ℕ) → (ℕ → Bool) → ℕ
child_part n w i v weight within =
    if is_wired w i
    then part weight within (in_of i) (out_of i) v
      + entry_part n w i weight within
      + exit_part n w i weight within
    else 0

-- Every child has a whole value.
pub data Whole : List (Node exact) → List ℕ → Type 0 where
  whole_none :
      {nodes : List (Node exact)} {values : List ℕ} → nodes ≡ [] → values ≡ [] → Whole nodes values
  whole_some :
      {nodes : List (Node exact)} {values : List ℕ} (nd : Node exact) (x : ℕ)
      (rest : List (Node exact)) (xs : List ℕ)
      → nodes ≡ nd ∷ rest
      → values ≡ x ∷ xs
      → nd.value ≡ some (finite x)
      → Whole rest xs
      → Whole nodes values

add_entry-Grows :
    (n i : ℕ) (w : Wired) (id : Bytes) (b : Built Amount)
    → i < n
    → Sized n b.graph
    → Grows n
        (entry_part n w i)
        b.graph
        (add_entry exact exact_arithmetic (2 * n) i id (get_or w.has_in i false) b).graph
unfolding add_entry
add_entry-Grows n i w id b h s = elim (Bool-cases (get_or w.has_in i false)) [
  | inl e ↦
      Grows-as n (λ weight within. 0) (entry_part n w i) b.graph _ (λ weight within. rw (e) refl)
        (rw (e, add_entry) (Grows-none n b.graph s))
  | inr e ↦
      Grows-as n (arc_part (2 * n) (in_of i) infinite) (entry_part n w i) b.graph _
        (λ weight within. rw (e) refl)
        (rw (e, add_entry)
          (add-Grows n (2 * n) (in_of i) infinite b.graph (omega arith) (omega arith) (omega arith)
            s))
]

add_exit-Grows :
    (n i : ℕ) (w : Wired) (id : Bytes) (b : Built Amount)
    → i < n
    → Sized n b.graph
    → Grows n
        (exit_part n w i)
        b.graph
        (add_exit exact exact_arithmetic (2 * n + 1) i id (get_or w.has_out i false) b).graph
unfolding add_exit
add_exit-Grows n i w id b h s = elim (Bool-cases (get_or w.has_out i false)) [
  | inl e ↦
      Grows-as n (λ weight within. 0) (exit_part n w i) b.graph _ (λ weight within. rw (e) refl)
        (rw (e, add_exit) (Grows-none n b.graph s))
  | inr e ↦
      Grows-as n (arc_part (out_of i) (2 * n + 1) infinite) (exit_part n w i) b.graph _
        (λ weight within. rw (e) refl)
        (rw (e, add_exit)
          (add-Grows n (out_of i) (2 * n + 1) infinite b.graph (omega arith) (omega arith)
            (omega arith) s))
]

pub add_node-Grows :
    (n i x : ℕ) (w : Wired) (nd : Node exact) (b : Built Amount)
    → i < n
    → nd.value ≡ some (finite x)
    → Sized n b.graph
    → Grows n
        (child_part n w i (finite x))
        b.graph
        (add_node exact exact_arithmetic n w i nd b).graph
unfolding add_node
add_node-Grows n i x w nd b h e s =
    elim (Bool-cases (not (get_or w.has_in i false) && not (get_or w.has_out i false))) [
      | inl alone ↦
          Grows-as n (λ weight within. 0) (child_part n w i (finite x)) b.graph _
            (λ weight within. rw (alone) refl) (rw (e, alone, add_node) (Grows-none n b.graph s))
      | inr wired ↦
          let own =
            add-Grows n (in_of i) (out_of i) (finite x) b.graph (omega arith) (omega arith)
              (omega arith) s in
          let b1 : Built Amount = record b {
            graph = add exact exact_arithmetic b.graph (in_of i) (out_of i) (finite x);
          } in
          let from = add_entry-Grows n i w nd.id b1 h own.sized in
          let b2 = add_entry exact exact_arithmetic (2 * n) i nd.id (get_or w.has_in i false) b1 in
          let onto = add_exit-Grows n i w nd.id b2 h from.sized in
          let own_part = arc_part (in_of i) (out_of i) (finite x) in
          let sum : (Amount → ℕ) → (ℕ → Bool) → ℕ = λ weight within.
            own_part weight within
            + entry_part n w i weight within
            + exit_part n w i weight within in
          Grows-as n sum (child_part n w i (finite x)) b.graph _ (λ weight within. rw (wired) refl)
            (rw (e, wired, add_node)
              (Grows-trans n _ (exit_part n w i) b.graph b2.graph _
                (Grows-trans n own_part (entry_part n w i) b.graph b1.graph b2.graph own from)
                onto))
    ]

abbrev pub children_part : ℕ → Wired → ℕ → List ℕ → (Amount → ℕ) → (ℕ → Bool) → ℕ
children_part n w i [] weight within = 0
children_part n w i (x ∷ xs) weight within =
    child_part n w i (finite x) weight within + children_part n w (suc i) xs weight within

abbrev pub wires_part : List (ℕ × ℕ) → (Amount → ℕ) → (ℕ → Bool) → ℕ
wires_part [] weight within = 0
wires_part ((from, to) ∷ wires) weight within =
    part weight within (out_of from) (in_of to) infinite + wires_part wires weight within

-- The ends of the connections are children.
pub data Ranged (n : ℕ) : List (ℕ × ℕ) → Type 0 where
  ranged_none : {wires : List (ℕ × ℕ)} → wires ≡ [] → Ranged n wires
  ranged_some :
      {wires : List (ℕ × ℕ)} (from to : ℕ) (rest : List (ℕ × ℕ))
      → wires ≡ (from, to) ∷ rest
      → from < n
      → to < n
      → Ranged n rest
      → Ranged n wires
