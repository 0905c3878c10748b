-- ===== src/Capacity/Rollup/Ends.antt =====
-- flow.go: which children are the entries and the exits of Rollup.
use mathlib.Core.Logic.{⊎_elim}
use mathlib.Core.List.{Memᴰ}
use mathlib.Core.List.Memᴰ
use sysml_federation.Base.{
  ℕ, zero, suc, ◌+◌, ◌*◌, ◌≡◌, ◌↔◌, ◌⊎◌, inl, inr, refl, sym, ap, ◌∙◌, subst, arith, List, [], ◌∷◌,
  true, false, some, length, get_elem?, get_or, Bytes, Bool-cases,
}
use sysml_federation.Capacity.Verdict.{Node}
use sysml_federation.Capacity.Flow.{new_graph}
use sysml_federation.Capacity.Flow.Marks.{Memᴰ-snoc}
use sysml_federation.Capacity.Rollup.{
  Wired, Built, add_entry, add_exit, add_node, add_nodes, network,
}
use sysml_federation.Capacity.Rollup.Sums.{is_wired, Whole, whole_none, whole_some}
use sysml_federation.Capacity.Exact.{Amount, finite, exact, exact_arithmetic}

-- A child with a connection, into which or out of which none leads.
abbrev pub IsEntry : Wired → ℕ → Type 0
IsEntry w i = (is_wired w i ≡ true) × (get_or w.has_in i false ≡ false)

abbrev pub IsExit : Wired → ℕ → Type 0
IsExit w i = (is_wired w i ≡ true) × (get_or w.has_out i false ≡ false)

-- A child of the list has the id and the property of its index.
abbrev pub Stands : (ℕ → Type 0) → List (Node exact) → ℕ → Bytes → Type 0
Stands P nodes i id =
    (k : ℕ) × (nd : Node exact) × (get_elem? nodes k ≡ some nd) × (id ≡ nd.id) × P (i + k)

Stands-cons :
    (P : ℕ → Type 0) (nd : Node exact) (nodes : List (Node exact)) (i : ℕ) (id : Bytes)
    → ((id ≡ nd.id) × P i ⊎ Stands P nodes (suc i) id) ↔ Stands P (nd ∷ nodes) i id
Stands-cons P nd nodes i id = (
  ⊎_elim (λ (same, p). (zero, nd, refl, same, subst P start p))
      (λ (k, x, q, same, p). (suc k, x, q, same, subst P (next k) p)),
  back,
)
  where
    start : i ≡ i + 0
    start = omega arith

    next : (k : ℕ) → suc i + k ≡ i + suc k
    next k = omega arith

    back : Stands P (nd ∷ nodes) i id → (id ≡ nd.id) × P i ⊎ Stands P nodes (suc i) id
    back (zero, x, q, same, p) =
        let here : nd ≡ x = ground (arith, q) in
        inl (same ∙ ap (λ (y : Node exact). y.id) (sym here), subst P (sym start) p)
    back (suc k, x, q, same, p) = inr (k, x, q, same, subst P (sym (next k)) p)

-- What a round adds to the entries and to the exits.
record Noted (w : Wired) (i : ℕ) (id : Bytes) (b after : Built Amount) : Type 0 where
  entries : (x : Bytes) → Memᴰ x after.entry ↔ (Memᴰ x b.entry ⊎ (x ≡ id) × IsEntry w i)
  exits : (x : Bytes) → Memᴰ x after.exit ↔ (Memᴰ x b.exit ⊎ (x ≡ id) × IsExit w i)

add_node-Noted :
    (n i x : ℕ) (w : Wired) (nd : Node exact) (b : Built Amount)
    → nd.value ≡ some (finite x)
    → Noted w i nd.id b (add_node exact exact_arithmetic n w i nd b)
unfolding add_node add_entry add_exit
add_node-Noted n i x w nd b e = elim (Bool-cases (get_or w.has_in i false)) [
  | inl a ↦ elim (Bool-cases (get_or w.has_out i false)) [
    | inl c ↦
        rw (e, a, c, add_node) (record { entries = λ y. ground arith; exits = λ y. ground arith })
    | inr c ↦
        rw (e, a, c, add_node)
          (record {
            entries = λ y. ground arith;
            exits = λ y. ground (arith, Memᴰ-snoc y nd.id b.exit);
          })
  ]
  | inr a ↦ elim (Bool-cases (get_or w.has_out i false)) [
    | inl c ↦
        rw (e, a, c, add_node)
          (record {
            entries = λ y. ground (arith, Memᴰ-snoc y nd.id b.entry);
            exits = λ y. ground arith;
          })
    | inr c ↦
        rw (e, a, c, add_node) (record { entries = λ y. ground arith; exits = λ y. ground arith })
  ]
]

record NotedAll (w : Wired) (nodes : List (Node exact)) (i : ℕ) (b after : Built Amount)
    : Type 0 where
  entries : (x : Bytes) → Memᴰ x after.entry ↔ (Memᴰ x b.entry ⊎ Stands (IsEntry w) nodes i x)
  exits : (x : Bytes) → Memᴰ x after.exit ↔ (Memᴰ x b.exit ⊎ Stands (IsExit w) nodes i x)

join_iff {ℓ} : {A B C D E F : Type ℓ} → A ↔ (B ⊎ C) → B ↔ (D ⊎ E) → (E ⊎ C) ↔ F → A ↔ (D ⊎ F)
join_iff f g h = (
  λ a. ⊎_elim (λ b. ⊎_elim inl (λ e. inr (h.0 (inl e))) (g.0 b)) (λ c. inr (h.0 (inr c))) (f.0 a),
  ⊎_elim (λ d. f.1 (inl (g.1 (inl d))))
      (λ k. ⊎_elim (λ e. f.1 (inl (g.1 (inr e)))) (λ c. f.1 (inr c)) (h.1 k)),
)

none_stand : (P : ℕ → Type 0) (i : ℕ) (id : Bytes) → ¬ Stands P [] i id
none_stand P i id (k, nd, q, same, p) = absurd (ground (arith, q))

add_nodes-NotedAll :
    (n i : ℕ) (w : Wired) (nodes : List (Node exact)) (xs : List ℕ) (b : Built Amount)
    → Whole nodes xs
    → NotedAll w nodes i b (add_nodes exact exact_arithmetic n w i nodes b)
unfolding add_nodes
add_nodes-NotedAll n i w nodes xs b (whole_none e f) = rw (e) (record {
  entries = λ x. (inl, ⊎_elim (λ m. m) (λ s. absurd (none_stand (IsEntry w) i x s)));
  exits = λ x. (inl, ⊎_elim (λ m. m) (λ s. absurd (none_stand (IsExit w) i x s)));
})
add_nodes-NotedAll n i w nodes xs b (whole_some nd v rest ys e f q k) =
    let one = add_node-Noted n i v w nd b q in
    let more =
      add_nodes-NotedAll n (suc i) w rest ys (add_node exact exact_arithmetic n w i nd b) k in
    rw (e) (record {
      entries =
          λ x. join_iff (more.entries x) (one.entries x) (Stands-cons (IsEntry w) nd rest i x);
      exits = λ x. join_iff (more.exits x) (one.exits x) (Stands-cons (IsExit w) nd rest i x);
    })

-- The entry children and the exit children are those with a connection into which, or out of which,
-- none leads.
pub record Named (w : Wired) (nodes : List (Node exact)) (b : Built Amount) : Type 0 where
  pub entries : (x : Bytes) → Memᴰ x b.entry ↔ Stands (IsEntry w) nodes 0 x
  pub exits : (x : Bytes) → Memᴰ x b.exit ↔ Stands (IsExit w) nodes 0 x

pub network-Named :
    (nodes : List (Node exact)) (xs : List ℕ) (w : Wired)
    → Whole nodes xs
    → Named w nodes (network exact exact_arithmetic nodes w)
unfolding network
network-Named nodes xs w k =
    let n = length nodes in
    let start : Built Amount = record {
      graph = new_graph exact exact_arithmetic (2 * n + 2);
      entry = [];
      exit = [];
    } in
    let all = add_nodes-NotedAll n 0 w nodes xs start k in
    record {
      entries = λ x. (
        λ m. ⊎_elim (λ z. absurd (Memᴰ.not-nil z)) (λ s. s) ((all.entries x).0 m),
        λ s. (all.entries x).1 (inr s),
      );
      exits = λ x. (
        λ m. ⊎_elim (λ z. absurd (Memᴰ.not-nil z)) (λ s. s) ((all.exits x).0 m),
        λ s. (all.exits x).1 (inr s),
      );
    }
