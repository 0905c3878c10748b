-- ===== src/Capacity/Flow/Cuts.antt =====
-- flow.go over whole numbers: what the arcs that leave a set of vertices carry.
use mathlib.Core.Option
use sysml_federation.Base.{
  ℕ, zero, suc, ◌+◌, ◌≤◌, ◌≡◌, inl, inr, refl, sym, ap, ◌∙◌, subst, arith, List, [], ◌∷◌, map, Bool,
  not, ◌&&◌, some, if◌then◌else◌, get_or, get_elem?, update_nth, Option-cases,
}
use sysml_federation.Capacity.Flow.{Arc, set_cap, push}
use sysml_federation.Capacity.Flow.Visit.{ends, shape, shape-set_cap}
use sysml_federation.Capacity.Flow.Progress.{Net}
use sysml_federation.Capacity.Exact.{Amount, finite, infinite, plus, minus, exact, exact_arithmetic}

-- The number, where there is one, and whether there is none.
abbrev pub amount : Amount → ℕ
amount (finite n) = n
amount infinite = 0

abbrev pub endless : Amount → ℕ
endless (finite n) = 0
endless infinite = 1

-- What an arc from u to v gives to the sum over the arcs that leave the set.
abbrev pub part : (Amount → ℕ) → (ℕ → Bool) → ℕ → ℕ → Amount → ℕ
part weight within u v c = if within u && not (within v) then weight c else 0

unfoldable pub leaving : (Amount → ℕ) → (ℕ → Bool) → ℕ → List (Arc Amount) → ℕ
leaving weight within u [] = 0
leaving weight within u (e ∷ es) = part weight within u e.to e.cap + leaving weight within u es

-- The sum over all arcs that leave the set, for the vertices from u on.
unfoldable pub total : (Amount → ℕ) → (ℕ → Bool) → ℕ → List (List (Arc Amount)) → ℕ
total weight within u [] = 0
total weight within u (es ∷ adj) = leaving weight within u es + total weight within (suc u) adj

leaving-update_nth :
    (weight : Amount → ℕ) (within : ℕ → Bool) (u i : ℕ) (f : Amount → Amount)
    (es : List (Arc Amount)) {e : Arc Amount}
    → get_elem? es i ≡ some e
    → leaving weight within u (update_nth i (λ a. record a { cap = f a.cap }) es)
        + part weight within u e.to e.cap
      ≡ leaving weight within u es + part weight within u e.to (f e.cap)
unfolding leaving update_nth
leaving-update_nth weight within u i f [] q = absurd (ground arith)
leaving-update_nth weight within u zero f (a ∷ es) {e} q =
    let same : a ≡ e = ground (arith, q) in
    subst
      (λ (x : Arc Amount).
        (part weight within u a.to (f a.cap) + leaving weight within u es)
          + part weight within u x.to x.cap
        ≡ (part weight within u a.to a.cap + leaving weight within u es)
          + part weight within u x.to (f x.cap))
      same (omega arith)
leaving-update_nth weight within u (suc i) f (a ∷ es) {e} q =
    omega (arith, leaving-update_nth weight within u i f es {e = e} q)

total-set_cap :
    (weight : Amount → ℕ) (within : ℕ → Bool) (b u i : ℕ) (f : Amount → Amount)
    (adj : List (List (Arc Amount))) {e : Arc Amount}
    → get_elem? (get_or adj u []) i ≡ some e
    → total weight within b (set_cap exact exact_arithmetic u i f adj)
        + part weight within (b + u) e.to e.cap
      ≡ total weight within b adj + part weight within (b + u) e.to (f e.cap)
unfolding total set_cap update_nth
total-set_cap weight within b u i f [] q = absurd (ground arith)
total-set_cap weight within b zero i f (es ∷ adj) {e} q =
    let here : b + 0 ≡ b = omega arith in
    rw (here) (omega (arith, leaving-update_nth weight within b i f es {e = e} q))
total-set_cap weight within b (suc u) i f (es ∷ adj) {e} q =
    let next : b + suc u ≡ suc b + u = omega arith in
    rw (next) (omega (arith, total-set_cap weight within (suc b) u i f adj {e = e} q))

pub at-shape :
    (adj : List (List (Arc Amount))) (u i : ℕ)
    → get_elem? (get_or (shape adj) u []) i ≡ Option.map ends (get_elem? (get_or adj u []) i)
at-shape [] u i = refl
at-shape (es ∷ adj) zero i = in_row es i
  where
    in_row :
        (es : List (Arc Amount)) (i : ℕ)
        → get_elem? (map ends es) i ≡ Option.map ends (get_elem? es i)
    in_row [] i = refl
    in_row (e ∷ es) zero = refl
    in_row (e ∷ es) (suc i) = in_row es i
at-shape (es ∷ adj) (suc u) i = at-shape adj u i

-- Every arc has the arc back, at the place that rev names, and that one names this arc.
abbrev pub Paired : List (List (ℕ × ℕ)) → Type 0
Paired rows =
    (u i v r : ℕ)
    → get_elem? (get_or rows u []) i ≡ some (v, r)
    → get_elem? (get_or rows v []) r ≡ some (u, i)

arc_of_shape :
    (adj : List (List (Arc Amount))) (v r : ℕ) {u i : ℕ}
    → get_elem? (get_or (shape adj) v []) r ≡ some (u, i)
    → (a : Arc Amount) × (get_elem? (get_or adj v []) r ≡ some a) × (a.to ≡ u)
arc_of_shape adj v r {u} {i} there =
    let image : Option.map ends (get_elem? (get_or adj v []) r) ≡ some (u, i) =
      sym (at-shape adj v r) ∙ there in
    elim (Option-cases (get_elem? (get_or adj v []) r)) [
      | inl gone ↦ absurd (ground (arith, image, gone))
      | inr (a, found) ↦ (a, found, ground (arith, image, found))
    ]

total-set_cap_whole :
    (weight : Amount → ℕ) (within : ℕ → Bool) (u i : ℕ) (f : Amount → Amount)
    (adj : List (List (Arc Amount))) (e : Arc Amount) (v : ℕ)
    → get_elem? (get_or adj u []) i ≡ some e
    → e.to ≡ v
    → total weight within 0 (set_cap exact exact_arithmetic u i f adj)
        + part weight within u v e.cap
      ≡ total weight within 0 adj + part weight within u v (f e.cap)
total-set_cap_whole weight within u i f adj e v q same =
    let start : 0 + u ≡ u = omega arith in
    subst
      (λ (x : ℕ × ℕ).
        total weight within 0 (set_cap exact exact_arithmetic u i f adj)
          + part weight within x.0 x.1 e.cap
        ≡ total weight within 0 adj + part weight within x.0 x.1 (f e.cap))
      (cc (start, same)) (total-set_cap weight within 0 u i f adj {e = e} q)

-- An arc that leaves the set gives no more than the sum.
pub part_le :
    (weight : Amount → ℕ) (within : ℕ → Bool) (u i : ℕ) (adj : List (List (Arc Amount)))
    (e : Arc Amount)
    → weight (finite 0) ≡ 0
    → get_elem? (get_or adj u []) i ≡ some e
    → part weight within u e.to e.cap ≤ total weight within 0 adj
part_le weight within u i adj e none_there q =
    ground (arith, total-set_cap_whole weight within u i (λ x. finite 0) adj e e.to q refl)

-- What pushing c along an arc from u to v, at (u, i), does to the sums.
pub record Pushed (within : ℕ → Bool) (g : Net) (u i : ℕ) (e : Arc Amount) (c back : Amount)
    : Type 0 where
  pub sums :
      (weight : Amount → ℕ)
      → total weight within 0 (push exact exact_arithmetic u i e c g).adj
          + part weight within u e.to e.cap
          + part weight within e.to u back
        ≡ total weight within 0 g.adj
          + part weight within u e.to (minus e.cap c)
          + part weight within e.to u (plus back c)
  pub out_le : part endless within u e.to e.cap ≤ total endless within 0 g.adj
  pub back_le :
      part endless within e.to u back
      ≤ total endless within 0 g.adj + part endless within u e.to (minus e.cap c)

pub push-Pushed :
    (within : ℕ → Bool) (g : Net) (u i : ℕ) (e : Arc Amount) (c : Amount)
    → Paired (shape g.adj)
    → get_elem? (get_or g.adj u []) i ≡ some e
    → (back : Amount) × Pushed within g u i e c back
unfolding push
push-Pushed within g u i e c p q =
    let once = set_cap exact exact_arithmetic u i (λ x. minus x c) g.adj in
    let same = shape-set_cap exact exact_arithmetic u i (λ x. minus x c) g.adj in
    let there = p u i e.to e.rev (at-shape g.adj u i ∙ ap (Option.map ends) q) in
    let (a, found, back_to) = arc_of_shape once e.to e.rev (
      subst (λ (rows : List (List (ℕ × ℕ))). get_elem? (get_or rows e.to []) e.rev ≡ some (u, i))
        (sym same) there) in
    let first = λ (weight : Amount → ℕ).
      total-set_cap_whole weight within u i (λ x. minus x c) g.adj e e.to q refl in
    let bound : part endless within e.to u a.cap ≤ total endless within 0 once =
      subst (λ v. part endless within e.to v a.cap ≤ total endless within 0 once) back_to
        (part_le endless within e.to e.rev once a refl found) in
    (
      a.cap,
      record {
        sums = λ weight. omega (
          arith,
          first weight,
          total-set_cap_whole weight within e.to e.rev (λ x. plus x c) once a u found back_to,
        );
        out_le = part_le endless within u i g.adj e refl q;
        back_le = omega (arith, first endless, bound);
      },
    )
