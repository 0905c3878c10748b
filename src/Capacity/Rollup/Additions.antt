-- ===== src/Capacity/Rollup/Additions.antt =====
-- flow.go: what add does to the pairs of arcs and to the sums over the arcs that leave a set.
use sysml_federation.Base.{
  ℕ, zero, suc, ◌+◌, ◌-◌, ◌<◌, ◌≡◌, ◌≢◌, ◌⊎◌, inl, inr, refl, sym, ap, ◌∙◌, subst, arith, List, [],
  ◌∷◌, ◌++◌, map, Bool, some, length, get_or, get_elem?, update_nth, length-update_nth,
  get_or-update_nth_other, get_or-update_nth, length-append, length-map,
}
use sysml_federation.Capacity.Flow.{Arc, append_arc, add}
use sysml_federation.Capacity.Flow.Visit.{ends, shape}
use sysml_federation.Capacity.Flow.Progress.{Net}
use sysml_federation.Capacity.Flow.Cuts.{part, leaving, total, Paired}
use sysml_federation.Capacity.Exact.{Amount, finite, exact, exact_arithmetic}

-- The rows with one more entry in the row u.
abbrev pub grown {ℓ} : {A : Type ℓ} → ℕ → A → List (List A) → List (List A)
grown u a = update_nth u (λ xs. xs ++ (a ∷ []))

get_elem?-snoc_left {ℓ} :
    {A : Type ℓ} (xs : List A) (a : A) (i : ℕ) {x : A}
    → get_elem? xs i ≡ some x
    → get_elem? (xs ++ (a ∷ [])) i ≡ some x
get_elem?-snoc_left [] a i q = absurd (ground arith)
get_elem?-snoc_left (y ∷ xs) a zero q = q
get_elem?-snoc_left (y ∷ xs) a (suc i) {x} q = get_elem?-snoc_left xs a i {x = x} q

get_elem?-snoc_last {ℓ} :
    {A : Type ℓ} (xs : List A) (a : A) → get_elem? (xs ++ (a ∷ [])) (length xs) ≡ some a
get_elem?-snoc_last [] a = refl
get_elem?-snoc_last (y ∷ xs) a = get_elem?-snoc_last xs a

pub get_elem?-snoc {ℓ} :
    {A : Type ℓ} (xs : List A) (a : A) (i : ℕ) {x : A}
    → get_elem? (xs ++ (a ∷ [])) i ≡ some x
    → (get_elem? xs i ≡ some x) ⊎ (i ≡ length xs) × (x ≡ a)
get_elem?-snoc [] a zero q = inr (refl, ground (arith, q))
get_elem?-snoc [] a (suc i) q = absurd (ground arith)
get_elem?-snoc (y ∷ xs) a zero q = inl q
get_elem?-snoc (y ∷ xs) a (suc i) {x} q = elim (get_elem?-snoc xs a i {x = x} q) [
  | inl old ↦ inl old
  | inr (e, s) ↦ inr (omega (arith, e), s)
]

grown_old {ℓ} :
    {A : Type ℓ} (u : ℕ) (a : A) (rows : List (List A)) (w i : ℕ) {x : A}
    → get_elem? (get_or rows w []) i ≡ some x
    → get_elem? (get_or (grown u a rows) w []) i ≡ some x
unfolding update_nth
grown_old u a [] w i q = absurd (ground arith)
grown_old zero a (r ∷ rows) zero i {x} q = get_elem?-snoc_left r a i {x = x} q
grown_old zero a (r ∷ rows) (suc w) i q = q
grown_old (suc u) a (r ∷ rows) zero i q = q
grown_old (suc u) a (r ∷ rows) (suc w) i {x} q = grown_old u a rows w i {x = x} q

grown_new {ℓ} :
    {A : Type ℓ} (u : ℕ) (a : A) (rows : List (List A))
    → u < length rows
    → get_elem? (get_or (grown u a rows) u []) (length (get_or rows u [])) ≡ some a
unfolding update_nth
grown_new u a [] h = absurd (omega arith)
grown_new zero a (r ∷ rows) h = get_elem?-snoc_last r a
grown_new (suc u) a (r ∷ rows) h = grown_new u a rows (omega arith)

grown_cases {ℓ} :
    {A : Type ℓ} (u : ℕ) (a : A) (rows : List (List A)) (w i : ℕ) {x : A}
    → get_elem? (get_or (grown u a rows) w []) i ≡ some x
    → (get_elem? (get_or rows w []) i ≡ some x)
      ⊎ (w ≡ u) × (i ≡ length (get_or rows u [])) × (x ≡ a)
unfolding update_nth
grown_cases u a [] w i q = absurd (ground arith)
grown_cases zero a (r ∷ rows) zero i {x} q = elim (get_elem?-snoc r a i {x = x} q) [
  | inl old ↦ inl old
  | inr (e, s) ↦ inr (refl, e, s)
]
grown_cases zero a (r ∷ rows) (suc w) i q = inl q
grown_cases (suc u) a (r ∷ rows) zero i q = inl q
grown_cases (suc u) a (r ∷ rows) (suc w) i {x} q = elim (grown_cases u a rows w i {x = x} q) [
  | inl old ↦ inl old
  | inr (e, l, s) ↦ inr (ap suc e, l, s)
]

-- Two entries that name each other's places.
grown-Paired :
    (u v : ℕ) (rows : List (List (ℕ × ℕ)))
    → u < length rows
    → v < length rows
    → u ≢ v
    → Paired rows
    → Paired (grown v (u, length (get_or rows u [])) (grown u (v, length (get_or rows v [])) rows))
grown-Paired u v rows hu hv n p w i x r q =
    let once = grown u (v, length (get_or rows v [])) rows in
    let a : ℕ × ℕ = (v, length (get_or rows v [])) in
    let b : ℕ × ℕ = (u, length (get_or rows u [])) in
    let row_v : get_or once v [] ≡ get_or rows v [] =
      get_or-update_nth_other u v (λ xs. xs ++ (a ∷ [])) rows [] n in
    let at_u : get_elem? (get_or (grown v b once) u []) (length (get_or rows u [])) ≡ some a =
      grown_old v b once u (length (get_or rows u [])) {x = a} (grown_new u a rows hu) in
    let at_v : get_elem? (get_or (grown v b once) v []) (length (get_or rows v [])) ≡ some b =
      subst (λ (es : List (ℕ × ℕ)). get_elem? (get_or (grown v b once) v []) (length es) ≡ some b)
        row_v
        (grown_new v b once (omega (arith, length-update_nth u (λ xs. xs ++ (a ∷ [])) rows))) in
    elim (grown_cases v b once w i {x = (x, r)} q) [
      | inr (w_v, i_v, s) ↦
          let here : a ≡ (w, i) = cc (w_v, i_v, ap (λ (es : List (ℕ × ℕ)). length es) row_v) in
          subst (λ (y : ℕ × ℕ). get_elem? (get_or (grown v b once) y.0 []) y.1 ≡ some (w, i))
            (sym s) (at_u ∙ ap some here)
      | inl q1 ↦ elim (grown_cases u a rows w i {x = (x, r)} q1) [
        | inr (w_u, i_u, s) ↦
            let here : b ≡ (w, i) = cc (w_u, i_u) in
            subst (λ (y : ℕ × ℕ). get_elem? (get_or (grown v b once) y.0 []) y.1 ≡ some (w, i))
              (sym s) (at_v ∙ ap some here)
        | inl q2 ↦
            grown_old v b once x r {x = (w, i)} (grown_old u a rows x r {x = (w, i)} (p w i x r q2))
      ]
    ]

shape-append_arc :
    (u : ℕ) (e : Arc Amount) (adj : List (List (Arc Amount)))
    → shape (append_arc exact exact_arithmetic u e adj) ≡ grown u (ends e) (shape adj)
unfolding append_arc update_nth
shape-append_arc u e [] = refl
shape-append_arc zero e (es ∷ adj) = ap (λ r. r ∷ shape adj) (in_row es)
  where
    in_row : (es : List (Arc Amount)) → map ends (es ++ (e ∷ [])) ≡ map ends es ++ (ends e ∷ [])
    in_row [] = refl
    in_row (a ∷ es) = ap (λ r. ends a ∷ r) (in_row es)
shape-append_arc (suc u) e (es ∷ adj) = ap (λ r. map ends es ∷ r) (shape-append_arc u e adj)

length-shape_row :
    (adj : List (List (Arc Amount))) (u : ℕ)
    → length (get_or (shape adj) u []) ≡ length (get_or adj u [])
length-shape_row [] u = refl
length-shape_row (es ∷ adj) zero = length-map ends es
length-shape_row (es ∷ adj) (suc u) = length-shape_row adj u

total-append_arc :
    (weight : Amount → ℕ) (within : ℕ → Bool) (b u : ℕ) (e : Arc Amount)
    (adj : List (List (Arc Amount)))
    → u < length adj
    → total weight within b (append_arc exact exact_arithmetic u e adj)
      ≡ total weight within b adj + part weight within (b + u) e.to e.cap
unfolding append_arc update_nth total leaving
total-append_arc weight within b u e [] h = absurd (omega arith)
total-append_arc weight within b zero e (es ∷ adj) h =
    let here : b + 0 ≡ b = omega arith in rw (here) (omega (arith, in_row es))
  where
    in_row :
        (es : List (Arc Amount))
        → leaving weight within b (es ++ (e ∷ []))
          ≡ leaving weight within b es + part weight within b e.to e.cap
    in_row [] = omega arith
    in_row (a ∷ es) = omega (arith, in_row es)
total-append_arc weight within b (suc u) e (es ∷ adj) h =
    let next : b + suc u ≡ suc b + u = omega arith in
    rw (next) (omega (arith, total-append_arc weight within (suc b) u e adj (omega arith)))

-- An arc from u to v, of the capacity c, in a network of n vertices.
pub record Added (n u v : ℕ) (c : Amount) (g h : Net) : Type 0 where
  pub size : length h.adj ≡ n
  pub paired : Paired (shape h.adj)
  pub sums :
      (weight : Amount → ℕ) (within : ℕ → Bool)
      → weight (finite 0) ≡ 0
      → total weight within 0 h.adj ≡ total weight within 0 g.adj + part weight within u v c
  pub rows : (w : ℕ) → u ≢ w → v ≢ w → get_or h.adj w [] ≡ get_or g.adj w []

-- The arc back has no capacity.
added_sums :
    (weight : Amount → ℕ) (within : ℕ → Bool) (u v : ℕ) (c : Amount)
    → weight (finite 0) ≡ 0
    → (before mid : ℕ) {after : ℕ} → mid ≡ before + part weight within (0 + u) v c
    → after ≡ mid + part weight within (0 + v) u (finite 0)
    → after ≡ before + part weight within u v c
added_sums weight within u v c z before mid {after} =
    let at_u : 0 + u ≡ u = omega arith in
    let at_v : 0 + v ≡ v = omega arith in rw (at_u, at_v) (λ f s. ground arith)

pub add-Added :
    (n u v : ℕ) (c : Amount) (g : Net)
    → length g.adj ≡ n
    → u < n
    → v < n
    → u ≢ v
    → Paired (shape g.adj)
    → Added n u v c g (add exact exact_arithmetic g u v c)
unfolding add append_arc
add-Added n u v c g size hu hv d p =
    let a : Arc Amount = record { to = v; rev = length (get_or g.adj v []); cap = c } in
    let once = append_arc exact exact_arithmetic u a g.adj in
    let b : Arc Amount = record { to = u; rev = length (get_or once u []) - 1; cap = finite 0 } in
    let size_once = length-update_nth u (λ (es : List (Arc Amount)). es ++ (a ∷ [])) g.adj in
    let in_once : u < length g.adj = omega (arith, size) in
    let len_u : length (get_or once u []) - 1 ≡ length (get_or (shape g.adj) u []) = ground (
      arith,
      get_or-update_nth u u (λ (es : List (Arc Amount)). es ++ (a ∷ [])) g.adj [] in_once,
      length-append (get_or g.adj u []) (a ∷ []),
      length-shape_row g.adj u,
    ) in
    let len_v = length-shape_row g.adj v in
    let wide = length-map (map ends) g.adj in
    let pairs =
      grown-Paired u v (shape g.adj) (omega (arith, wide, size)) (omega (arith, wide, size)) d p in
    let shapes : shape (append_arc exact exact_arithmetic v b once)
        ≡ grown v (u, length (get_or (shape g.adj) u []))
            (grown u (v, length (get_or (shape g.adj) v [])) (shape g.adj)) =
      shape-append_arc v b once
      ∙ ap (λ (k : ℕ). grown v (u, k) (shape once)) len_u
      ∙ ap (grown v (u, length (get_or (shape g.adj) u []))) (shape-append_arc u a g.adj)
      ∙ ap
          (λ (k : ℕ).
            grown v (u, length (get_or (shape g.adj) u [])) (grown u (v, k) (shape g.adj)))
          (sym len_v) in
    record {
      size = omega (
        arith,
        length-update_nth v (λ (es : List (Arc Amount)). es ++ (b ∷ [])) once,
        size_once,
        size,
      );
      paired = subst Paired (sym shapes) pairs;
      sums = λ weight within zero_weight.
          let first = total-append_arc weight within 0 u a g.adj in_once in
          let second = total-append_arc weight within 0 v b once (omega (arith, size_once, size)) in
          added_sums weight within u v c zero_weight (total weight within 0 g.adj)
            (total weight within 0 once) first second;
      rows = λ w nu nv.
          get_or-update_nth_other v w (λ (es : List (Arc Amount)). es ++ (b ∷ [])) once [] nv
          ∙ get_or-update_nth_other u w (λ (es : List (Arc Amount)). es ++ (a ∷ [])) g.adj [] nu;
    }
