-- ===== src/Capacity/Flow/Rounds.antt =====
-- flow.go over whole numbers: the inner loop of maxFlow, by the flow that it moves.
use sysml_federation.Base.{
  ℕ, zero, suc, ◌+◌, ◌≤◌, ◌<◌, ◌≡◌, inl, inr, refl, sym, ap, ◌∙◌, subst, arith, List, Bool, true,
  false, none, some, map, length, get_or, Bool-cases, length-map,
}
use sysml_federation.Capacity.Flow.{dfs, augment}
use sysml_federation.Capacity.Flow.Visit.{ends, shape, Visit-Kept, level-Kept}
use sysml_federation.Capacity.Flow.Search.{Ready, Ready-Kept, dfs-Finds}
use sysml_federation.Capacity.Flow.Progress.{Net, is_positive, Way, Passed, Visit-Fruitless}
use sysml_federation.Capacity.Flow.Cuts.{amount, endless, total, Paired}
use sysml_federation.Capacity.Flow.Conserved.{Visit-Carried, amount_zero, Visit-endless}
use sysml_federation.Capacity.Exact.{Amount, finite, infinite, plus, exact, exact_arithmetic}

-- A set with the source and without the sink.
abbrev pub Splits : ℕ → ℕ → (ℕ → Bool) → Type 0
Splits s t within = (within s ≡ true) × (within t ≡ false)

-- The flow has grown from one number to the other by what the arcs that leave any such set have less,
-- where none of them is without limit.
pub record Moved (s t : ℕ) (g h : Net) (from to : ℕ) : Type 0 where
  pub shapes : shape h.adj ≡ shape g.adj
  pub unlimited : (within : ℕ → Bool) → total endless within 0 g.adj ≤ total endless within 0 h.adj
  pub sealed :
      (within : ℕ → Bool)
      → Splits s t within
      → total endless within 0 g.adj ≡ 0
      → total endless within 0 h.adj ≡ 0
  pub sums :
      (within : ℕ → Bool)
      → Splits s t within
      → total endless within 0 g.adj ≡ 0
      → to + total amount within 0 h.adj ≡ from + total amount within 0 g.adj

pub Moved-refl : (s t : ℕ) (g h : Net) (from : ℕ) → h.adj ≡ g.adj → Moved s t g h from from
Moved-refl s t g h from e = record {
  shapes = ap shape e;
  unlimited = λ within. omega (arith, ap (total endless within 0) e);
  sealed = λ within k z. ap (total endless within 0) e ∙ z;
  sums = λ within k z. omega (arith, ap (total amount within 0) e);
}

pub Moved-trans :
    (s t : ℕ) (g h k : Net) (a b c : ℕ) → Moved s t g h a b → Moved s t h k b c → Moved s t g k a c
Moved-trans s t g h k a b c f r = record {
  shapes = r.shapes ∙ f.shapes;
  unlimited = λ within. omega (arith, f.unlimited within, r.unlimited within);
  sealed = λ within p z. r.sealed within p (f.sealed within p z);
  sums = λ within p z. omega (arith, f.sums within p z, r.sums within p (f.sealed within p z));
}

-- A set that shows that the network is bounded.
pub record Bounded (s t : ℕ) (g : Net) (within : ℕ → Bool) : Type 0 where
  pub splits : Splits s t within
  pub sealed : total endless within 0 g.adj ≡ 0

-- The network between two searches.
pub record Searching (s t : ℕ) (g : Net) : Type 0 where
  pub paired : Paired (shape g.adj)
  pub ready : Ready exact exact_arithmetic g (length g.adj)
  pub source : get_or g.level s none ≡ some 0

pub size-shape : (g h : Net) → shape h.adj ≡ shape g.adj → length h.adj ≡ length g.adj
size-shape g h e =
    sym (length-map (map ends) h.adj)
    ∙ ap (λ (rows : List (List (ℕ × ℕ))). length rows) e
    ∙ length-map (map ends) g.adj

finite_amount : (d : Amount) → is_positive d ≡ true → d ≡ finite (amount d) → 0 < amount d
finite_amount (finite n) p e = ground arith
finite_amount infinite p e = absurd (ground arith)

-- One search from the source: it ends, and what it finds is moved.
pub record Searched (s t : ℕ) (g h : Net) (d : Amount) : Type 0 where
  pub searching : Searching s t h
  pub number : d ≡ finite (amount d)
  pub moved : (flow : ℕ) → Moved s t g h flow (flow + amount d)
  pub fruitful : Passed t g.level g.adj g.next → Way t g.level g.adj s → is_positive d ≡ true

dfs-Searched :
    (s t : ℕ) (g : Net) (bound : ℕ → Bool)
    → Bounded s t g bound
    → Searching s t g
    → (h : Net) × (d : Amount) × (dfs exact exact_arithmetic (length g.adj) t g s infinite
        ≡ some (h, d))
      × Searched s t g h d
dfs-Searched s t g bound b k =
    let (h, d, e, v) =
      dfs-Finds exact exact_arithmetic (length g.adj) t (length g.adj) 0 g s infinite k.ready
        k.source (omega arith) in
    let kept = Visit-Kept exact exact_arithmetic {level = 0} k.source v in
    let carried =
      λ (within : ℕ → Bool) (p : Splits s t within) (z : total endless within 0 g.adj ≡ 0).
        Visit-Carried 0 within p.1 k.paired k.source z v in
    let number = (carried bound b.splits b.sealed).bounded b.splits.0 in
    (
      h,
      d,
      e,
      record {
        searching = record {
          paired = subst Paired (sym kept.shapes) k.paired;
          ready =
              subst (Ready exact exact_arithmetic h) (sym (size-shape g h kept.shapes))
                (Ready-Kept exact exact_arithmetic g h (length g.adj) 0 kept k.ready);
          source = level-Kept exact exact_arithmetic g h 0 s 0 kept k.source;
        };
        number = number;
        moved = λ flow. record {
          shapes = kept.shapes;
          unlimited = λ within. Visit-endless 0 within k.paired k.source v;
          sealed = λ within p z. (carried within p z).sealed;
          sums = λ within p z. ground (arith, (carried within p z).sums, p.0);
        };
        fruitful = λ passed way. elim (Bool-cases (is_positive d)) [
          | inl yes_positive ↦ yes_positive
          | inr none_there ↦ absurd (
              (Visit-Fruitless 0 g.level g.adj refl refl k.source refl none_there passed
                  v).none_left
                way)
        ];
      },
    )

pub Bounded-Moved :
    (s t : ℕ) (g h : Net) (from to : ℕ) (bound : ℕ → Bool)
    → Moved s t g h from to
    → Bounded s t g bound
    → Bounded s t h bound
Bounded-Moved s t g h from to bound m b = record {
  splits = b.splits;
  sealed = m.sealed bound b.splits b.sealed;
}

-- What the inner loop of maxFlow leaves: the flow is moved, does not fall, and grows where a way to the
-- sink is there.
pub record Augmented (s t : ℕ) (g h : Net) (from to : ℕ) : Type 0 where
  pub moved : Moved s t g h from to
  pub up : from ≤ to
  pub fruitful : Passed t g.level g.adj g.next → Way t g.level g.adj s → from < to

pub augment-Augmented :
    (fuel s t : ℕ) (g : Net) (from : ℕ) (bound : ℕ → Bool)
    → Bounded s t g bound
    → Searching s t g
    → total amount bound 0 g.adj < fuel
    → (h : Net) × (to : ℕ) × (augment exact exact_arithmetic fuel s t g (finite from)
        ≡ some (h, finite to))
      × Augmented s t g h from to
unfolding augment
augment-Augmented zero s t g from bound b k w = absurd (omega arith)
augment-Augmented (suc fuel) s t g from bound b k w =
    let (h, d, e, x) = dfs-Searched s t g bound b k in
    let m = x.moved from in
    let sums = m.sums bound b.splits b.sealed in
    elim (Bool-cases (is_positive d)) [
      | inl more ↦
          let rise = finite_amount d more x.number in
          let (last, to, q, y) =
            augment-Augmented fuel s t h (from + amount d) bound
              (Bounded-Moved s t g h from (from + amount d) bound m b) x.searching
              (omega (arith, sums, rise)) in
          let same : augment exact exact_arithmetic fuel s t h (plus (finite from) d)
              ≡ some (last, finite to) =
            subst
              (λ (c : Amount).
                augment exact exact_arithmetic fuel s t h (plus (finite from) c)
                ≡ some (last, finite to))
              (sym x.number) q in
          (
            last,
            to,
            rw (e, more, augment) same,
            record {
              moved = Moved-trans s t g h last from (from + amount d) to m y.moved;
              up = omega (arith, y.up);
              fruitful = λ passed way. omega (arith, y.up, rise);
            },
          )
      | inr small ↦
          let nothing : from + amount d ≡ from = omega (arith, amount_zero d small) in
          (
            h,
            from,
            rw (e, small, augment) refl,
            record {
              moved = subst (Moved s t g h from) nothing m;
              up = omega arith;
              fruitful = λ passed way. absurd (cc (small, x.fruitful passed way));
            },
          )
    ]
