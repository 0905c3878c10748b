-- ===== src/Capacity/Flow/Progress.antt =====
-- flow.go over whole numbers: searches that find nothing, and the ways to the sink.
use sysml_federation.Base.{
  ℕ, zero, suc, ◌<◌, ◌≡◌, ◌≢◌, ◌⊎◌, ◌↔◌, inl, inr, refl, sym, ap, ◌∙◌, subst, arith, List, [], ◌∷◌,
  Bool, true, false, Option, none, some, get_or, get_elem?, update_nth,
}
use sysml_federation.Capacity.Flow.{Arc, Graph, current, advance, is_skipped, level_eq, above}
use sysml_federation.Capacity.Flow.Marks.{Leads}
use sysml_federation.Capacity.Flow.Levels.{Ranked}
use sysml_federation.Capacity.Flow.Visit.{
  Visit, arrived, exhausted, skipped, pushed, refused, Visit-Kept, level-Kept, level-follows,
}
use sysml_federation.Capacity.Exact.{Amount, finite, infinite, less, least, exact, exact_arithmetic}

abbrev pub Net : Type 0
Net = Graph Amount

abbrev pub is_positive : Amount → Bool
is_positive a = less (finite 0) a

-- The arc has capacity left and leads one level up.
abbrev pub Usable : List (Option ℕ) → ℕ → Arc Amount → Type 0
Usable level u e =
    (is_positive e.cap ≡ true) × (get_or level e.to none ≡ above (get_or level u none))

-- The ways along such arcs.
pub data Way (t : ℕ) (level : List (Option ℕ)) (adj : List (List (Arc Amount))) : ℕ → Type 0 where
  arrives : {u : ℕ} → u ≡ t → Way t level adj u
  through :
      {u : ℕ} (i : ℕ) (e : Arc Amount)
      → get_elem? (get_or adj u []) i ≡ some e
      → Usable level u e
      → Way t level adj e.to
      → Way t level adj u

-- No arc that a vertex has passed begins a way.
abbrev pub Passed : ℕ → List (Option ℕ) → List (List (Arc Amount)) → List ℕ → Type 0
Passed t level adj next =
    (w i : ℕ) (e : Arc Amount)
    → i < get_or next w 0
    → get_elem? (get_or adj w []) i ≡ some e
    → Usable level w e
    → ¬ Way t level adj e.to

level_eq_iff : (a b : Option ℕ) → (level_eq a b ≡ true) ↔ (a ≡ b)
level_eq_iff none none = ground arith
level_eq_iff none (some d) = ground arith
level_eq_iff (some d) none = ground arith
level_eq_iff (some d) (some k) = ground arith

is_skipped-false :
    (g : Net) (u : ℕ) (e : Arc Amount)
    → (is_skipped exact exact_arithmetic g u e ≡ false) ↔ Usable g.level u e
unfolding is_skipped
is_skipped-false g u e =
    ground (arith, level_eq_iff (get_or g.level e.to none) (above (get_or g.level u none)))

least_positive :
    (a b : Amount) → is_positive a ≡ true → is_positive b ≡ true → is_positive (least a b) ≡ true
least_positive (finite a) (finite b) p q = ground arith
least_positive (finite a) infinite p q = p
least_positive infinite b p q = q

below-advance :
    (next : List ℕ) (u w i : ℕ)
    → i < get_or (update_nth u suc next) w 0
    → (i < get_or next w 0) ⊎ (w ≡ u) × (i ≡ get_or next u 0)
unfolding update_nth
below-advance [] u w i h = inl h
below-advance (n ∷ next) zero zero i h = ground arith
below-advance (n ∷ next) zero (suc w) i h = inl h
below-advance (n ∷ next) (suc u) zero i h = inl h
below-advance (n ∷ next) (suc u) (suc w) i h = ground (arith, below-advance next u w i)

-- The next arc that is passed is not usable, or begins no way.
Passed-advance :
    (t : ℕ) (level : List (Option ℕ)) (adj : List (List (Arc Amount))) (next : List ℕ) (u : ℕ)
    (e : Arc Amount)
    → Passed t level adj next
    → get_elem? (get_or adj u []) (get_or next u 0) ≡ some e
    → (Usable level u e → ¬ Way t level adj e.to)
    → Passed t level adj (update_nth u suc next)
Passed-advance t level adj next u e p there never w i a b q usable way =
    elim (below-advance next u w i b) [
      | inl old ↦ p w i a old q usable way
      | inr (same_w, same_i) ↦
          let found : some a ≡ some e =
            sym q
            ∙ ap (λ (v : ℕ). get_elem? (get_or adj v []) i) same_w
            ∙ ap (λ (j : ℕ). get_elem? (get_or adj u []) j) same_i
            ∙ there in
          let same : a ≡ e = ground (arith, found) in
          never (subst (Usable level u) same (subst (λ v. Usable level v a) same_w usable))
            (subst (λ (x : Arc Amount). Way t level adj x.to) same way)
    ]

-- What a search that finds nothing leaves: the capacities and the levels are as they were, every arc
-- that is passed begins no way, and no way begins at the vertex.
pub record Fruitless (t : ℕ) (level : List (Option ℕ)) (adj : List (List (Arc Amount))) (u : ℕ)
    (h : Net) : Type 0 where
  pub caps : h.adj ≡ adj
  pub levels : h.level ≡ level
  pub passed : Passed t level adj h.next
  pub none_left : ¬ Way t level adj u

no-Way :
    (t : ℕ) (level : List (Option ℕ)) (adj : List (List (Arc Amount))) (next : List ℕ) (u : ℕ)
    → u ≢ t
    → Passed t level adj next
    → get_elem? (get_or adj u []) (get_or next u 0) ≡ none
    → ¬ Way t level adj u
no-Way t level adj next u n p gone (arrives e) = n e
no-Way t level adj next u n p gone (through i e q usable way) =
    p u i e (past (get_or adj u []) i (get_or next u 0) q gone) q usable way
  where
    past :
        (es : List (Arc Amount)) (i j : ℕ) {e : Arc Amount}
        → get_elem? es i ≡ some e
        → get_elem? es j ≡ none
        → i < j
    past [] i j q g = absurd (ground arith)
    past (x ∷ es) i zero q g = absurd (ground arith)
    past (x ∷ es) zero (suc j) q g = omega arith
    past (x ∷ es) (suc i) (suc j) {e} q g = omega (arith, past es i j {e = e} q g)

next_of_same :
    (g : Net) (u : ℕ) (adj : List (List (Arc Amount)))
    → g.adj ≡ adj
    → {o : Option (Arc Amount)} → current exact exact_arithmetic g u ≡ o
    → get_elem? (get_or adj u []) (get_or g.next u 0) ≡ o
next_of_same g u adj a {o} c =
    subst
      (λ (rows : List (List (Arc Amount))). get_elem? (get_or rows u []) (get_or g.next u 0) ≡ o) a
      c

pub Visit-Fruitless :
    {t : ℕ} {g h : Net} {u : ℕ} {f d : Amount} (m : ℕ) (level : List (Option ℕ))
    (adj : List (List (Arc Amount)))
    → g.level ≡ level
    → g.adj ≡ adj
    → get_or g.level u none ≡ some m
    → is_positive f ≡ true
    → is_positive d ≡ false
    → Passed t level adj g.next
    → Visit exact exact_arithmetic t g u f h d
    → Fruitless t level adj u h
unfolding advance
Visit-Fruitless {t} {g} {h} {u} {f} {d} m level adj l a at pf pd p (arrived e q z) =
    absurd (cc (pf, pd, z))
Visit-Fruitless {t} {g} {h} {u} {f} {d} m level adj l a at pf pd p (exhausted n c q z) = record {
  caps = ap (λ (y : Net). y.adj) q ∙ a;
  levels = ap (λ (y : Net). y.level) q ∙ l;
  passed = subst (λ (y : Net). Passed t level adj y.next) (sym q) p;
  none_left = no-Way t level adj g.next u n p (next_of_same g u adj a c);
}
Visit-Fruitless {t} {g} {h} {u} {f} {d} m level adj l a at pf pd p (skipped e n c s v) =
    Visit-Fruitless m level adj l a at pf pd
      (Passed-advance t level adj g.next u e p (next_of_same g u adj a c)
        (λ us. absurd (cc (s, (is_skipped-false g u e).1 (subst (λ y. Usable y u e) (sym l) us)))))
      v
Visit-Fruitless {t} {g} {h} {u} {f} {d} m level adj l a at pf pd p (pushed e k n c s v x q) =
    absurd (cc (x, pd))
Visit-Fruitless {t} {g} {h} {u} {f} {d} m level adj l a at pf pd p (refused e k c n r s v x more) =
    let us : Usable g.level u e = (is_skipped-false g u e).0 s in
    let at_e = level-follows exact exact_arithmetic g u m e at s in
    let inner = Visit-Fruitless (suc m) level adj l a at_e (least_positive f e.cap pf us.0) x p v in
    let kept = Visit-Kept exact exact_arithmetic {level = suc m} at_e v in
    let here = next_of_same g u adj a r in
    let still =
      subst (λ (j : ℕ). get_elem? (get_or adj u []) j ≡ some e)
        (sym (kept.next_of u m at (omega arith))) here in
    Visit-Fruitless m level adj inner.levels inner.caps
      (level-Kept exact exact_arithmetic g k (suc m) u m kept at) pf pd
      (Passed-advance t level adj k.next u e inner.passed still (λ _. inner.none_left)) more

pub Leads-arc :
    (es : List (Arc Amount)) (v : ℕ)
    → Leads exact exact_arithmetic es v
    → (i : ℕ) × (e : Arc Amount) × (get_elem? es i ≡ some e)
      × (is_positive e.cap ≡ true)
      × (v ≡ e.to)
Leads-arc [] v l = absurd l
Leads-arc (e ∷ es) v (inl (o, same)) = (0, e, refl, o, same)
Leads-arc (e ∷ es) v (inr l) = let (i, a, q, o, same) = Leads-arc es v l in (suc i, a, q, o, same)

-- Every vertex that has a level stands on a way from the source.
pub Ranked-Way :
    (t s d v : ℕ) (level : List (Option ℕ)) (adj : List (List (Arc Amount)))
    → Ranked exact exact_arithmetic adj s level
    → get_or level v none ≡ some d
    → Way t level adj v
    → Way t level adj s
Ranked-Way t s zero v level adj r at way = subst (Way t level adj) (r.first v at) way
Ranked-Way t s (suc d) v level adj r at way =
    let (u, at_u, (led, _)) = r.later v d at in
    let (i, e, q, o, same) = Leads-arc (get_or adj u []) v led in
    Ranked-Way t s d u level adj r at_u
      (through i e q (o, ground (arith, at, at_u, same)) (subst (Way t level adj) same way))
