-- ===== src/Capacity/Flow/Levels.antt =====
-- flow.go: bfs beside reachable, and the levels that it gives.
use mathlib.Core.Option
use sysml_federation.Base.{
  ℕ, zero, suc, ◌+◌, ◌<◌, ◌≡◌, inl, inr, refl, ap, ◌∙◌, subst, arith, List, [], ◌∷◌, ◌++◌, Bool,
  true, false, not, ◌&&◌, Option, none, some, is_some, map, length, get_or, ◌==◌, get_or-update_nth,
  length-update_nth, unset, unset-update_nth, update_nth, Bool-cases, ==→eq,
}
use sysml_federation.Capacity.Verdict.{Floats}
use sysml_federation.Capacity.Flow.{
  Arithmetic, Arc, row, above, mark_arc, mark_arcs, reachable_loop, level_arc, level_arcs, bfs_loop,
}
use sysml_federation.Capacity.Flow.Marks.{Leads, is_open}
use sysml_federation.Capacity.Flow.Reach.{Follows}

pub get_or-is_some :
    (level : List (Option ℕ)) (i d : ℕ)
    → get_or (map is_some level) i true ≡ is_some (get_or level i (some d))
get_or-is_some [] i d = refl
get_or-is_some (l ∷ level) zero d = refl
get_or-is_some (l ∷ level) (suc i) d = get_or-is_some level i d

pub get_or-is_some-none :
    (level : List (Option ℕ)) (i : ℕ)
    → get_or (map is_some level) i false ≡ is_some (get_or level i none)
get_or-is_some-none [] i = refl
get_or-is_some-none (l ∷ level) zero = refl
get_or-is_some-none (l ∷ level) (suc i) = get_or-is_some-none level i

-- A vertex below the length has the level that is read, whatever is named for a read out of range.
pub unset_level :
    (level : List (Option ℕ)) (i d : ℕ)
    → is_some (get_or level i (some d)) ≡ false
    → (i < length level) × (get_or level i none ≡ none)
unset_level [] i d e = absurd (ground arith)
unset_level (none ∷ level) zero d e = (omega arith, refl)
unset_level (some k ∷ level) zero d e = absurd (ground arith)
unset_level (l ∷ level) (suc i) d e = let (h, k) = unset_level level i d e in (omega arith, k)

is_some-above : (l : Option ℕ) → is_some (above l) ≡ true
is_some-above none = refl
is_some-above (some d) = refl

pub map-level :
    (level : List (Option ℕ)) (i : ℕ) (l : Option ℕ)
    → map is_some (update_nth i (λ _. above l) level) ≡ update_nth i (λ _. true) (map is_some level)
unfolding update_nth
map-level [] i l = refl
map-level (k ∷ level) zero l = ap (λ b. b ∷ map is_some level) (is_some-above l)
map-level (k ∷ level) (suc i) l = ap (λ m. is_some k ∷ m) (map-level level i l)

pub length-is_some : (level : List (Option ℕ)) → length (map is_some level) ≡ length level
length-is_some [] = refl
length-is_some (l ∷ level) = ap suc (length-is_some level)

-- The marks that levels are, with the queue.
abbrev pub marks_of : List (Option ℕ) × List ℕ → List Bool × List ℕ
marks_of s = (map is_some s.0, s.1)

module _ (floats : Floats) (arithmetic : Arithmetic floats.Float) where
  level_arc-mark_arc :
      (u : ℕ) (e : Arc floats.Float) (level : List (Option ℕ)) (queue : List ℕ)
      → marks_of (level_arc floats arithmetic u e (level, queue))
        ≡ mark_arc floats arithmetic e (map is_some level, queue)
  unfolding level_arc mark_arc
  level_arc-mark_arc u e level queue =
      rw (get_or-is_some level e.to 0)
        (elim (Bool-cases
          (is_open floats arithmetic e && not (is_some (get_or level e.to (some 0))))) [
            | inl new ↦ rw (new) (
                ap (λ (m : List Bool). (m, queue ++ (e.to ∷ [])))
                  (map-level level e.to (get_or level u none)))
            | inr old ↦ rw (old) refl
          ])

  pub level_arcs-mark_arcs :
      (u : ℕ) (es : List (Arc floats.Float)) (level : List (Option ℕ)) (queue : List ℕ)
      → marks_of (level_arcs floats arithmetic u es (level, queue))
        ≡ mark_arcs floats arithmetic es (map is_some level, queue)
  unfolding level_arcs mark_arcs
  level_arcs-mark_arcs u [] level queue = refl
  level_arcs-mark_arcs u (e ∷ es) level queue =
      let s = level_arc floats arithmetic u e (level, queue) in
      level_arcs-mark_arcs u es s.0 s.1
      ∙ ap (mark_arcs floats arithmetic es) (level_arc-mark_arc u e level queue)

  -- bfs sets a level exactly where reachable sets a mark, and both run out of fuel alike.
  pub bfs_loop-reachable_loop :
      (fuel : ℕ) (adj : List (List (Arc floats.Float))) (level : List (Option ℕ)) (queue : List ℕ)
      → Option.map (map is_some) (bfs_loop floats arithmetic fuel adj level queue)
        ≡ reachable_loop floats arithmetic fuel adj (map is_some level) queue
  unfolding bfs_loop reachable_loop
  bfs_loop-reachable_loop zero adj level [] = refl
  bfs_loop-reachable_loop (suc fuel) adj level [] = refl
  bfs_loop-reachable_loop zero adj level (u ∷ queue) = refl
  bfs_loop-reachable_loop (suc fuel) adj level (u ∷ queue) =
      let s = level_arcs floats arithmetic u (row floats arithmetic adj u) (level, queue) in
      bfs_loop-reachable_loop fuel adj s.0 s.1
      ∙ ap (λ (m : List Bool × List ℕ). reachable_loop floats arithmetic fuel adj m.0 m.1)
          (level_arcs-mark_arcs u (row floats arithmetic adj u) level queue)

  -- The source and it alone has level zero, a vertex one level up is led to from the level below, and the
  -- levels stay below the number of vertices.
  pub record Ranked (adj : List (List (Arc floats.Float))) (s : ℕ) (level : List (Option ℕ))
      : Type 0 where
    pub size : length level ≡ length adj
    pub source : get_or level s none ≡ some 0
    pub first : (v : ℕ) → get_or level v none ≡ some 0 → v ≡ s
    pub later :
        (v d : ℕ)
        → get_or level v none ≡ some (suc d)
        → (u : ℕ) × (get_or level u none ≡ some d) × Follows floats arithmetic adj u v
    pub low :
        (v d : ℕ) → get_or level v none ≡ some d → d + unset (map is_some level) < length level

  Ranked-new :
      (adj : List (List (Arc floats.Float))) (s u k v : ℕ) (level : List (Option ℕ))
      → Ranked adj s level
      → get_or level u none ≡ some k
      → is_some (get_or level v (some 0)) ≡ false
      → Leads floats arithmetic (row floats arithmetic adj u) v
      → Ranked adj s (update_nth v (λ _. some (suc k)) level)
  Ranked-new adj s u k v level h e n l =
      let (range, unset_v) = unset_level level v 0 n in
      let fewer : suc (unset (map is_some (update_nth v (λ _. some (suc k)) level)))
          ≡ unset (map is_some level) =
        rw (map-level level v (some k)) (
          unset-update_nth (map is_some level) v (λ _. true) (get_or-is_some level v 0 ∙ n) refl) in
      let at = λ (w : ℕ). get_or-update_nth v w (λ _. some (suc k)) level none range in
      record {
        size = omega (arith, length-update_nth v (λ _. some (suc k)) level, h.size);
        source = ground (arith, at s, h.source);
        first = λ w f. ground (arith, at w, h.first w);
        later = λ w d f. elim (Bool-cases (v == w)) [
          | inl same ↦
              let led =
                subst (λ x. Leads floats arithmetic (row floats arithmetic adj u) x)
                  (==→eq v w same) l in
              (u, ground (arith, at u, at w), (led, omega (arith, ==→eq v w same, h.size)))
          | inr other ↦
              let (x, p, q) = h.later w d (ground (arith, at w)) in (x, ground (arith, at x), q)
        ];
        low = λ w d f. ground (
          arith,
          at w,
          h.low w d,
          h.low u k,
          length-update_nth v (λ _. some (suc k)) level,
          fewer,
        );
      }

  -- What a vertex that has its level leaves of the levels when its arcs are gone through.
  pub level_arcs-Ranked :
      (adj : List (List (Arc floats.Float))) (s u k : ℕ) (es : List (Arc floats.Float))
      (level : List (Option ℕ)) (queue : List ℕ)
      → Ranked adj s level
      → get_or level u none ≡ some k
      → ((v : ℕ)
          → Leads floats arithmetic es v
          → Leads floats arithmetic (row floats arithmetic adj u) v)
      → Ranked adj s (level_arcs floats arithmetic u es (level, queue)).0
  unfolding level_arcs level_arc
  level_arcs-Ranked adj s u k [] level queue h e l = h
  level_arcs-Ranked adj s u k (a ∷ es) level queue h e l =
      elim (Bool-cases
        (is_open floats arithmetic a && not (is_some (get_or level a.to (some 0))))) [
          | inl new ↦
              let n : is_some (get_or level a.to (some 0)) ≡ false = ground arith in
              let (range, unset_v) = unset_level level a.to 0 n in
              rw (new, level_arcs, level_arc, e)
                (level_arcs-Ranked adj s u k es (update_nth a.to (λ _. some (suc k)) level)
                  (queue ++ (a.to ∷ []))
                  (Ranked-new adj s u k a.to level h e n (l a.to (inl (ground arith, refl))))
                  (ground (arith, get_or-update_nth a.to u (λ _. some (suc k)) level none range))
                  (λ v m. l v (inr m)))
          | inr old ↦
              rw (old, level_arcs, level_arc)
                (level_arcs-Ranked adj s u k es level queue h e (λ v m. l v (inr m)))
        ]
