-- ===== src/Capacity/Rollup/Connections.antt =====
-- flow.go: the connections of Rollup, by the children that the edges name.
use mathlib.Core.Logic.{⊎_elim}
use mathlib.Core.List.{Memᴰ}
use mathlib.Core.List.Memᴰ
use sysml_federation.Base.{
  ℕ, ◌<◌, ◌≡◌, ◌⊎◌, ◌↔◌, inl, inr, refl, sym, ap, ◌∙◌, subst, arith, List, [], ◌∷◌, ◌++◌, true,
  false, some, length, get_or, get_or-update_nth, get_or-replicate, length-update_nth,
  length-replicate, replicate, update_nth, ◌==◌, if◌then◌else◌, Bytes, lookup, Bool-cases,
  Option-cases,
}
use sysml_federation.Capacity.Verdict.{Node, Edge}
use sysml_federation.Capacity.Flow.Marks.{Memᴰ-snoc, Memᴰ-cons}
use sysml_federation.Capacity.Rollup.{indexed, Wired, wire, wire_all, no_wires, index_nodes}
use sysml_federation.Capacity.Rollup.Indexing.{Below}
use sysml_federation.Capacity.Exact.{exact, exact_arithmetic}
use sysml_federation.Capacity.Rollup.Numbered.{Numbered, lookup-Numbered}

-- An edge between the children with these indices, as the index has them.
abbrev Joins : List (Bytes × ℕ) → List Edge → ℕ → ℕ → Type 0
Joins index edges from to =
    (e : Edge) × Memᴰ e edges × (lookup e.from index ≡ some from) × (lookup e.to index ≡ some to)

-- The flags stand exactly where a connection leads out or in.
record Flags (n : ℕ) (w : Wired) : Type 0 where
  ins : length w.has_in ≡ n
  outs : length w.has_out ≡ n
  into : (i : ℕ) → (get_or w.has_in i false ≡ true) ↔ ((f : ℕ) × Memᴰ (f, i) w.wires)
  out : (i : ℕ) → (get_or w.has_out i false ≡ true) ↔ ((t : ℕ) × Memᴰ (i, t) w.wires)

wire_new :
    (n from to : ℕ) (w : Wired)
    → from < n
    → to < n
    → Flags n w
    → Flags n (record {
      has_in = update_nth to (λ _. true) w.has_in;
      has_out = update_nth from (λ _. true) w.has_out;
      wires = w.wires ++ ((from, to) ∷ []);
    })
wire_new n from to w hf ht k = record {
  ins = length-update_nth to (λ _. true) w.has_in ∙ k.ins;
  outs = length-update_nth from (λ _. true) w.has_out ∙ k.outs;
  into = λ i. (in_to i, in_from i);
  out = λ i. (out_to i, out_from i);
}
  where
    in_at :
        (i : ℕ)
        → get_or (update_nth to (λ _. true) w.has_in) i false
          ≡ (if to == i then true else get_or w.has_in i false)
    in_at i = get_or-update_nth to i (λ _. true) w.has_in false (omega (arith, k.ins))

    out_at :
        (i : ℕ)
        → get_or (update_nth from (λ _. true) w.has_out) i false
          ≡ (if from == i then true else get_or w.has_out i false)
    out_at i = get_or-update_nth from i (λ _. true) w.has_out false (omega (arith, k.outs))

    in_to :
        (i : ℕ)
        → get_or (update_nth to (λ _. true) w.has_in) i false ≡ true
        → (f : ℕ) × Memᴰ (f, i) (w.wires ++ ((from, to) ∷ []))
    in_to i h = elim (Bool-cases (to == i)) [
      | inl e ↦
          let same : to ≡ i = ground (arith, e) in
          (
            from,
            (Memᴰ-snoc (from, i) (from, to) w.wires).1 (inr (ap (λ (x : ℕ). (from, x)) (sym same))),
          )
      | inr e ↦
          let (f, m) = (k.into i).0 (ground (arith, h, in_at i, e)) in
          (f, (Memᴰ-snoc (f, i) (from, to) w.wires).1 (inl m))
    ]

    in_from :
        (i : ℕ)
        → ((f : ℕ) × Memᴰ (f, i) (w.wires ++ ((from, to) ∷ [])))
        → get_or (update_nth to (λ _. true) w.has_in) i false ≡ true
    in_from i (f, m) = elim ((Memᴰ-snoc (f, i) (from, to) w.wires).0 m) [
      | inl old ↦ ground (arith, in_at i, (k.into i).1 (f, old))
      | inr e ↦ ground (arith, in_at i, e)
    ]

    out_to :
        (i : ℕ)
        → get_or (update_nth from (λ _. true) w.has_out) i false ≡ true
        → (t : ℕ) × Memᴰ (i, t) (w.wires ++ ((from, to) ∷ []))
    out_to i h = elim (Bool-cases (from == i)) [
      | inl e ↦
          let same : from ≡ i = ground (arith, e) in
          (to, (Memᴰ-snoc (i, to) (from, to) w.wires).1 (inr (ap (λ (x : ℕ). (x, to)) (sym same))))
      | inr e ↦
          let (t, m) = (k.out i).0 (ground (arith, h, out_at i, e)) in
          (t, (Memᴰ-snoc (i, t) (from, to) w.wires).1 (inl m))
    ]

    out_from :
        (i : ℕ)
        → ((t : ℕ) × Memᴰ (i, t) (w.wires ++ ((from, to) ∷ [])))
        → get_or (update_nth from (λ _. true) w.has_out) i false ≡ true
    out_from i (t, m) = elim ((Memᴰ-snoc (i, t) (from, to) w.wires).0 m) [
      | inl old ↦ ground (arith, out_at i, (k.out i).1 (t, old))
      | inr e ↦ ground (arith, out_at i, e)
    ]

wire-Flags :
    (n : ℕ) (index : List (Bytes × ℕ)) (e : Edge) (w : Wired)
    → Below n index
    → Flags n w
    → Flags n (wire index e w)
unfolding wire
wire-Flags n index e w b k = elim (Option-cases (lookup e.from index)) [
  | inl gone ↦ rw (gone, wire) k
  | inr (from, p) ↦ elim (Option-cases (lookup e.to index)) [
    | inl gone ↦ rw (p, gone, wire) k
    | inr (to, q) ↦ rw (p, q, wire) (wire_new n from to w (b e.from from p) (b e.to to q) k)
  ]
]

wire_all-Flags :
    (n : ℕ) (index : List (Bytes × ℕ)) (edges : List Edge) (w : Wired)
    → Below n index
    → Flags n w
    → Flags n (wire_all index edges w)
unfolding wire_all
wire_all-Flags n index [] w b k = k
wire_all-Flags n index (e ∷ edges) w b k =
    wire_all-Flags n index edges (wire index e w) b (wire-Flags n index e w b k)

wire-Joins :
    (index : List (Bytes × ℕ)) (e : Edge) (w : Wired) (from to : ℕ)
    → Memᴰ (from, to) (wire index e w).wires ↔ (
        Memᴰ (from, to) w.wires ⊎ (lookup e.from index ≡ some from) × (lookup e.to index ≡ some to))
unfolding wire
wire-Joins index e w from to = elim (Option-cases (lookup e.from index)) [
  | inl gone ↦ rw (gone, wire) (inl, ⊎_elim (λ m. m) (λ p. absurd (ground (arith, p.0))))
  | inr (f, p) ↦ elim (Option-cases (lookup e.to index)) [
    | inl gone ↦ rw (p, gone, wire) (inl, ⊎_elim (λ m. m) (λ q. absurd (ground (arith, q.1))))
    | inr (t, q) ↦ rw (p, q, wire) (ground (arith, Memᴰ-snoc (from, to) (f, t) w.wires))
  ]
]

Joins-cons :
    (index : List (Bytes × ℕ)) (e : Edge) (edges : List Edge) (from to : ℕ)
    → Joins index (e ∷ edges) from to ↔ (
        ((lookup e.from index ≡ some from) × (lookup e.to index ≡ some to))
        ⊎ Joins index edges from to)
Joins-cons index e edges from to = (there, back)
  where
    there :
        Joins index (e ∷ edges) from to
        → ((lookup e.from index ≡ some from) × (lookup e.to index ≡ some to))
          ⊎ Joins index edges from to
    there (d, m, f, t) = elim ((Memᴰ-cons d e edges).0 m) [
      | inl same ↦ inl (
          subst (λ (x : Edge). (lookup x.from index ≡ some from) × (lookup x.to index ≡ some to))
            same (f, t))
      | inr later ↦ inr (d, later, f, t)
    ]

    back :
        ((lookup e.from index ≡ some from) × (lookup e.to index ≡ some to))
          ⊎ Joins index edges from to
        → Joins index (e ∷ edges) from to
    back (inl (f, t)) = (e, (Memᴰ-cons e e edges).1 (inl refl), f, t)
    back (inr (d, m, f, t)) = (d, (Memᴰ-cons d e edges).1 (inr m), f, t)

wire_all-Joins :
    (index : List (Bytes × ℕ)) (edges : List Edge) (w : Wired) (from to : ℕ)
    → Memᴰ (from, to) (wire_all index edges w).wires
      ↔ (Memᴰ (from, to) w.wires ⊎ Joins index edges from to)
unfolding wire_all
wire_all-Joins index [] w from to = (inl, ⊎_elim (λ m. m) (λ (e, m, f, t). absurd (Memᴰ.not-nil m)))
wire_all-Joins index (e ∷ edges) w from to = ground (
  arith,
  wire_all-Joins index edges (wire index e w) from to,
  wire-Joins index e w from to,
  Joins-cons index e edges from to,
)

-- An edge leads from the one child to the other: its ends are their ids.
abbrev pub Connected : List (Node exact) → List Edge → ℕ → ℕ → Type 0
Connected nodes edges from to =
    (e : Edge) × Memᴰ e edges × Numbered nodes 0 e.from from × Numbered nodes 0 e.to to

-- The wires and the flags are those of the edges between children.
pub record Connects (nodes : List (Node exact)) (edges : List Edge) (w : Wired) : Type 0 where
  pub wires : (from to : ℕ) → Memᴰ (from, to) w.wires ↔ Connected nodes edges from to
  pub into :
      (i : ℕ) → (get_or w.has_in i false ≡ true) ↔ ((from : ℕ) × Connected nodes edges from i)
  pub out : (i : ℕ) → (get_or w.has_out i false ≡ true) ↔ ((to : ℕ) × Connected nodes edges i to)

no_wires-Flags : (n : ℕ) → Flags n (no_wires n)
unfolding no_wires
no_wires-Flags n = record {
  ins = length-replicate n false;
  outs = length-replicate n false;
  into = none_at;
  out = out_none;
}
  where
    none_at :
        (i : ℕ)
        → (get_or (replicate n false) i false ≡ true) ↔ ((f : ℕ) × Memᴰ {A = ℕ × ℕ} (f, i) [])
    none_at i = (
      λ h. absurd (ground (arith, h, get_or-replicate n i false)),
      λ (f, m). absurd (Memᴰ.not-nil m),
    )

    out_none :
        (i : ℕ)
        → (get_or (replicate n false) i false ≡ true) ↔ ((t : ℕ) × Memᴰ {A = ℕ × ℕ} (i, t) [])
    out_none i = (
      λ h. absurd (ground (arith, h, get_or-replicate n i false)),
      λ (f, m). absurd (Memᴰ.not-nil m),
    )

pub wiring-Connects :
    (nodes : List (Node exact)) (index : List (Bytes × ℕ)) (edges : List Edge)
    → index_nodes exact exact_arithmetic 0 nodes [] ≡ indexed index
    → Below (length nodes) index
    → Connects nodes edges (wire_all index edges (no_wires (length nodes)))
unfolding no_wires
wiring-Connects nodes index edges e b =
    let w = wire_all index edges (no_wires (length nodes)) in
    let flags : Flags (length nodes) w =
      wire_all-Flags (length nodes) index edges (no_wires (length nodes)) b
        (no_wires-Flags (length nodes)) in
    let wires : (from to : ℕ) → Memᴰ (from, to) w.wires ↔ Connected nodes edges from to = λ from to.
      (
        λ m. elim ((wire_all-Joins index edges (no_wires (length nodes)) from to).0 m) [
          | inl old ↦ absurd (Memᴰ.not-nil old)
          | inr (d, q, f, t) ↦ (
            d,
            q,
            (lookup-Numbered nodes index d.from from e).0 f,
            (lookup-Numbered nodes index d.to to e).0 t,
          )
        ],
        λ (d, q, f, t). (wire_all-Joins index edges (no_wires (length nodes)) from to).1 (
            inr (
              d,
              q,
              (lookup-Numbered nodes index d.from from e).1 f,
              (lookup-Numbered nodes index d.to to e).1 t,
            )),
      ) in
    record {
      wires = wires;
      into = λ i. (
        λ h. let (f, m) = (flags.into i).0 h in (f, (wires f i).0 m),
        λ (f, c). (flags.into i).1 (f, (wires f i).1 c),
      );
      out = λ i. (
        λ h. let (t, m) = (flags.out i).0 h in (t, (wires i t).0 m),
        λ (t, c). (flags.out i).1 (t, (wires i t).1 c),
      );
    }
