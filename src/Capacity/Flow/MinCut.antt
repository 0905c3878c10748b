-- ===== src/Capacity/Flow/MinCut.antt =====
-- flow.go over whole numbers: what maxFlow and reachable give together.
use mathlib.Core.Logic.{∥∥₁_elim}
use mathlib.Core.Option
use sysml_federation.Base.{
  ℕ, zero, suc, ◌+◌, ◌≤◌, ◌<◌, ◌≡◌, ◌≢◌, ◌↔◌, inl, inr, refl, sym, ap, ◌∙◌, subst, arith, List, [],
  ◌∷◌, map, Bool, true, false, none, some, length, get_or, get_elem?, Bool-cases, length-map,
}
use sysml_federation.Capacity.Flow.{Arc, max_flow, reachable}
use sysml_federation.Capacity.Flow.Marks.{Leads}
use sysml_federation.Capacity.Flow.Reach.{Reach, here, along, reachable-Reach}
use sysml_federation.Capacity.Flow.Visit.{ends, shape}
use sysml_federation.Capacity.Flow.Progress.{Net, is_positive, Leads-arc}
use sysml_federation.Capacity.Flow.Cuts.{amount, endless, leaving, total, Paired, at-shape}
use sysml_federation.Capacity.Flow.Conserved.{amount_zero}
use sysml_federation.Capacity.Flow.Rounds.{Splits, size-shape}
use sysml_federation.Capacity.Flow.Phases.{Finished, phases-Finished}
use sysml_federation.Capacity.Exact.{Amount, finite, infinite, exact, exact_arithmetic}

leaving-zero :
    (weight : Amount → ℕ) (within : ℕ → Bool) (u : ℕ) (es : List (Arc Amount))
    → ((i : ℕ) (e : Arc Amount)
        → get_elem? es i ≡ some e
        → within u ≡ true
        → within e.to ≡ false
        → weight e.cap ≡ 0)
    → leaving weight within u es ≡ 0
unfolding leaving
leaving-zero weight within u [] h = refl
leaving-zero weight within u (e ∷ es) h =
    ground (arith, h 0 e refl, leaving-zero weight within u es (λ i a q. h (suc i) a q))

total-zero :
    (weight : Amount → ℕ) (within : ℕ → Bool) (b : ℕ) (adj : List (List (Arc Amount)))
    → ((u i : ℕ) (e : Arc Amount)
        → get_elem? (get_or adj u []) i ≡ some e
        → within (b + u) ≡ true
        → within e.to ≡ false
        → weight e.cap ≡ 0)
    → total weight within b adj ≡ 0
unfolding total
total-zero weight within b [] h = refl
total-zero weight within b (es ∷ adj) h =
    let here : b ≡ b + 0 = omega arith in
    omega (
      arith,
      leaving-zero weight within b es
          (λ i e q w o. h 0 i e q (subst (λ v. within v ≡ true) here w) o),
      total-zero weight within (suc b) adj (λ u i e q w o.
          let there : suc b + u ≡ b + suc u = omega arith in
          h (suc u) i e q (subst (λ v. within v ≡ true) there w) o),
    )

-- In a paired network the arcs lead to vertices of it.
arc_to :
    (adj : List (List (Arc Amount))) (u i : ℕ) (e : Arc Amount)
    → Paired (shape adj)
    → get_elem? (get_or adj u []) i ≡ some e
    → e.to < length adj
arc_to adj u i e p q =
    let there = p u i e.to e.rev (at-shape adj u i ∙ ap (Option.map ends) q) in
    omega (arith, row_of (shape adj) e.to e.rev {a = (u, i)} there, length-map (map ends) adj)
  where
    row_of :
        (rows : List (List (ℕ × ℕ))) (v r : ℕ) {a : ℕ × ℕ}
        → get_elem? (get_or rows v []) r ≡ some a
        → v < length rows
    row_of [] v r q = absurd (ground arith)
    row_of (x ∷ rows) zero r q = omega arith
    row_of (x ∷ rows) (suc v) r {a} q = omega (arith, row_of rows v r {a = a} q)

arc-Leads :
    (es : List (Arc Amount)) (i : ℕ) (e : Arc Amount)
    → get_elem? es i ≡ some e
    → is_positive e.cap ≡ true
    → Leads exact exact_arithmetic es e.to
arc-Leads [] i e q p = absurd (ground arith)
arc-Leads (a ∷ es) zero e q p =
    let same : a ≡ e = ground (arith, q) in inl (cc (same, p), cc (same))
arc-Leads (a ∷ es) (suc i) e q p = inr (arc-Leads es i e q p)

abbrev pub marked : List Bool → ℕ → Bool
marked seen v = get_or seen v false

-- No capacity is left on an arc that leaves the marks.
saturated :
    (g : Net) (s : ℕ) (seen : List Bool)
    → s < length g.adj
    → Paired (shape g.adj)
    → reachable exact exact_arithmetic g s ≡ some seen
    → (marked seen s ≡ true)
      × ((u i : ℕ) (e : Arc Amount)
          → get_elem? (get_or g.adj u []) i ≡ some e
          → marked seen u ≡ true
          → marked seen e.to ≡ false
          → is_positive e.cap ≡ false)
saturated g s seen h p r =
    let (found, q, _, exactly) = reachable-Reach exact exact_arithmetic g s h in
    let same : found ≡ seen = ground (arith, q, r) in
    let marks =
      subst
        (λ (m : List Bool).
          (v : ℕ) → (marked m v ≡ true) ↔ ∥ Reach exact exact_arithmetic g.adj s v ∥₁)
        same exactly in
    (
      (marks s).1 ∣ here ∣₁,
      λ u i e there within outside. elim (Bool-cases (is_positive e.cap)) [
        | inr small ↦ small
        | inl more ↦ absurd (
            cc (
              outside,
              (marks e.to).1 (
                  ∥∥₁_elim ((marks u).0 within) (hlevel) (λ walk.
                    ∣ along walk (
                      arc-Leads (get_or g.adj u []) i e there more,
                      arc_to g.adj u i e p there,
                    ) ∣₁)),
            ))
      ],
    )

endless_zero : (c : Amount) → is_positive c ≡ false → endless c ≡ 0
endless_zero (finite n) e = refl
endless_zero infinite e = cc

-- What maxFlow gives for a network from s to t, with the vertices that are reachable then: they split s
-- from t, no arc without limit leaves them, the flow is the sum of the capacities that the arcs which
-- leave them have in the network, and no other such set has a smaller sum. A vertex without arcs is not
-- among them, the source apart.
pub record IsMinCut (s t : ℕ) (g : Net) (flow : ℕ) (seen : List Bool) : Type 0 where
  pub splits : Splits s t (marked seen)
  pub sealed : total endless (marked seen) 0 g.adj ≡ 0
  pub value : flow ≡ total amount (marked seen) 0 g.adj
  pub least_sum :
      (within : ℕ → Bool)
      → Splits s t within
      → total endless within 0 g.adj ≡ 0
      → flow ≤ total amount within 0 g.adj
  pub entered : (v : ℕ) → marked seen v ≡ true → v ≢ s → get_or g.adj v [] ≢ []

-- What is reachable, the source apart, has an arc: the one back.
Reach-row :
    (adj : List (List (Arc Amount))) (s : ℕ) {v : ℕ}
    → Paired (shape adj)
    → Reach exact exact_arithmetic adj s v
    → v ≢ s
    → get_or (shape adj) v [] ≢ []
Reach-row adj s {v} p here n e = n refl
Reach-row adj s {v} p (along {u} walk (led, _)) n e =
    let (i, a, q, _, same) = Leads-arc (get_or adj u []) v led in
    let there = p u i a.to a.rev (at-shape adj u i ∙ ap (Option.map ends) q) in
    let gone : get_elem? (get_or (shape adj) a.to []) a.rev ≡ none =
      ap (λ (x : ℕ). get_elem? (get_or (shape adj) x []) a.rev) (sym same)
      ∙ ap (λ (es : List (ℕ × ℕ)). get_elem? es a.rev) e in
    cc (gone, there)

shape_row-nil :
    (adj : List (List (Arc Amount))) (v : ℕ) → get_or adj v [] ≡ [] → get_or (shape adj) v [] ≡ []
shape_row-nil [] v e = refl
shape_row-nil (es ∷ adj) zero e = ap (map ends) e
shape_row-nil (es ∷ adj) (suc v) e = shape_row-nil adj v e

marked-row :
    (g h : Net) (s v : ℕ) (seen : List Bool)
    → s < length h.adj
    → Paired (shape h.adj)
    → shape h.adj ≡ shape g.adj
    → reachable exact exact_arithmetic h s ≡ some seen
    → marked seen v ≡ true
    → v ≢ s
    → get_or g.adj v [] ≢ []
marked-row g h s v seen i p shapes r m n e =
    let (found, q, _, exactly) = reachable-Reach exact exact_arithmetic h s i in
    let same : found ≡ seen = ground (arith, q, r) in
    let m_found = subst (λ (x : List Bool). marked x v ≡ true) (sym same) m in
    ∥∥₁_elim ((exactly v).0 m_found) (hlevel) (λ walk.
      Reach-row h.adj s p walk n
        (ap (λ (rows : List (List (ℕ × ℕ))). get_or rows v []) shapes ∙ shape_row-nil g.adj v e))

Finished-IsMinCut :
    (s t : ℕ) (g h : Net) (flow : ℕ) (seen : List Bool)
    → s < length g.adj
    → Paired (shape g.adj)
    → Finished s t g h 0 flow seen
    → IsMinCut s t g flow seen
Finished-IsMinCut s t g h flow seen i p f =
    let (source, full) =
      saturated h s seen (omega (arith, size-shape g h f.moved.shapes, i))
        (subst Paired (sym f.moved.shapes) p) f.marks in
    let none_left = total-zero amount (marked seen) 0 h.adj (λ u i e q w o.
      amount_zero e.cap (full u i e q (subst (λ v. marked seen v ≡ true) (start u) w) o)) in
    let none_endless = total-zero endless (marked seen) 0 h.adj (λ u i e q w o.
      endless_zero e.cap (full u i e q (subst (λ v. marked seen v ≡ true) (start u) w) o)) in
    let sealed : total endless (marked seen) 0 g.adj ≡ 0 =
      omega (arith, none_endless, f.moved.unlimited (marked seen)) in
    record {
      splits = (source, f.missed);
      sealed = sealed;
      value = omega (arith, f.moved.sums (marked seen) (source, f.missed) sealed, none_left);
      least_sum = λ within k z. omega (arith, f.moved.sums within k z);
      entered = λ v m n.
          marked-row g h s v seen (omega (arith, size-shape g h f.moved.shapes, i))
            (subst Paired (sym f.moved.shapes) p) f.moved.shapes f.marks m n;
    }
  where
    start : (u : ℕ) → 0 + u ≡ u
    start u = omega arith

-- For a network over exact whole numbers with infinity, where eps is zero, whose arcs are paired, and where
-- some set of vertices with the source s and without the sink t is left by no arc without limit: with more fuel than the capacities of the arcs that leave it,
-- maxFlow ends, and reachable after it. The flow is then the sum of the capacities of the arcs that
-- leave the reachable vertices, which split s from t, and it is the least such sum among all sets of
-- vertices that split s from t and that no arc without limit leaves. Every reachable vertex but s has
-- an arc.
pub max_flow-IsMinCut :
    (fuel s t : ℕ) (g : Net) (bound : ℕ → Bool)
    → Paired (shape g.adj)
    → s < length g.adj
    → Splits s t bound
    → total endless bound 0 g.adj ≡ 0
    → total amount bound 0 g.adj < fuel
    → (h : Net) × (flow : ℕ) × (seen : List Bool) × (max_flow exact exact_arithmetic fuel g s t
        ≡ some (h, finite flow))
      × (reachable exact exact_arithmetic h s ≡ some seen)
      × IsMinCut s t g flow seen
unfolding max_flow
max_flow-IsMinCut fuel s t g bound p i k z w =
    let (h, flow, seen, e, f) =
      phases-Finished fuel s t g 0 bound p i (record { splits = k; sealed = z }) w in
    (h, flow, seen, e, f.marks, Finished-IsMinCut s t g h flow seen i p f)
