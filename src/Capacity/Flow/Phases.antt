-- ===== src/Capacity/Flow/Phases.antt =====
-- flow.go over whole numbers: the outer loop of maxFlow.
use sysml_federation.Base.{
  ℕ, zero, suc, ◌<◌, ◌≡◌, inl, inr, refl, sym, ◌∙◌, subst, arith, List, Bool, false, Option, none,
  some, is_some, map, length, get_or, Option-cases, Bool-cases, replicate, get_or-replicate,
  length-replicate,
}
use sysml_federation.Capacity.Flow.{Arc, phases, reachable}
use sysml_federation.Capacity.Flow.Levels.{Ranked, get_or-is_some-none}
use sysml_federation.Capacity.Flow.Bfs.{Leveled, bfs-Leveled}
use sysml_federation.Capacity.Flow.Visit.{shape}
use sysml_federation.Capacity.Flow.Progress.{Net, Way, arrives, Passed, Ranked-Way}
use sysml_federation.Capacity.Flow.Cuts.{amount, total, Paired}
use sysml_federation.Capacity.Flow.Rounds.{
  Moved, Moved-refl, Moved-trans, Bounded, Bounded-Moved, Searching, size-shape, augment-Augmented,
}
use sysml_federation.Capacity.Exact.{Amount, finite, exact, exact_arithmetic}

-- The network of a phase: the levels of bfs, and no arc passed.
abbrev started : Net → List (Option ℕ) → Net
started g level = record g { level = level; next = replicate (length g.adj) 0 }

Searching-started :
    (s t : ℕ) (g : Net) (level : List (Option ℕ))
    → Paired (shape g.adj)
    → Ranked exact exact_arithmetic g.adj s level
    → Searching s t (started g level)
Searching-started s t g level p r = record {
  paired = p;
  ready = record {
    low = λ v d e. omega (arith, r.low v d e, r.size);
    sizes = omega (arith, r.size, length-replicate {A = ℕ} (length g.adj) 0);
  };
  source = r.source;
}

none-Passed :
    (t n : ℕ) (level : List (Option ℕ)) (adj : List (List (Arc Amount)))
    → Passed t level adj (replicate n 0)
none-Passed t n level adj w i e b q usable way =
    absurd (omega (arith, get_or-replicate {A = ℕ} n w 0))

-- What maxFlow leaves: the flow that has been moved, and marks from the source that miss the sink.
pub record Finished (s t : ℕ) (g h : Net) (from to : ℕ) (seen : List Bool) : Type 0 where
  pub moved : Moved s t g h from to
  pub marks : reachable exact exact_arithmetic h s ≡ some seen
  pub missed : get_or seen t false ≡ false

Finished-now :
    (s t : ℕ) (g : Net) (from : ℕ) (level : List (Option ℕ))
    → Leveled exact exact_arithmetic g s t level false
    → Finished s t g (record g { level = level }) from from (map is_some level)
unfolding reachable
Finished-now s t g from level l = record {
  moved = Moved-refl s t g (record g { level = level }) from refl;
  marks = l.seen;
  missed = get_or-is_some-none level t ∙ sym l.answer;
}

pub phases-Finished :
    (fuel s t : ℕ) (g : Net) (from : ℕ) (bound : ℕ → Bool)
    → Paired (shape g.adj)
    → s < length g.adj
    → Bounded s t g bound
    → total amount bound 0 g.adj < fuel
    → (h : Net) × (to : ℕ) × (seen : List Bool) × (phases exact exact_arithmetic fuel s t g
          (finite from)
        ≡ some (h, finite to))
      × Finished s t g h from to seen
unfolding phases
phases-Finished zero s t g from bound p i b w = absurd (omega arith)
phases-Finished (suc fuel) s t g from bound p i b w =
    let (level, found, e, l) = bfs-Leveled exact exact_arithmetic g s t i in
    elim (Bool-cases found) [
      | inr n ↦ (
        record g { level = level },
        from,
        map is_some level,
        rw (e, n, phases) refl,
        Finished-now s t g from level (subst (Leveled exact exact_arithmetic g s t level) n l),
      )
      | inl y ↦
          let k = started g level in
          let (h, mid, q, a) =
            augment-Augmented (suc fuel) s t k from bound
              (record { splits = b.splits; sealed = b.sealed })
              (Searching-started s t g level p l.ranked) w in
          let way : Way t level g.adj s = elim (Option-cases (get_or level t none)) [
            | inl gone ↦ absurd (cc (gone, y, l.answer))
            | inr (d, at) ↦ Ranked-Way t s d t level g.adj l.ranked at (arrives refl)
          ] in
          let more = a.fruitful (none-Passed t (length g.adj) level g.adj) way in
          let sums = a.moved.sums bound b.splits b.sealed in
          let (last, to, seen, f, z) =
            phases-Finished fuel s t h mid bound (subst Paired (sym a.moved.shapes) p)
              (omega (arith, size-shape k h a.moved.shapes))
              (Bounded-Moved s t k h from mid bound a.moved
                (record { splits = b.splits; sealed = b.sealed }))
              (omega (arith, sums, more)) in
          (
            last,
            to,
            seen,
            rw (e, y, q, phases) f,
            record {
              moved =
                  Moved-trans s t g h last from mid to
                    (record {
                      shapes = a.moved.shapes;
                      unlimited = a.moved.unlimited;
                      sealed = a.moved.sealed;
                      sums = a.moved.sums;
                    })
                    z.moved;
              marks = z.marks;
              missed = z.missed;
            },
          )
    ]
