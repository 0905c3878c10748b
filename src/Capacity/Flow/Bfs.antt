-- ===== src/Capacity/Flow/Bfs.antt =====
-- flow.go: bfs, its end and its levels.
use mathlib.Core.List.{Memᴰ}
use mathlib.Core.Option
use sysml_federation.Base.{
  ℕ, zero, suc, ◌<◌, ◌≡◌, inl, inr, refl, sym, ap, ◌∙◌, subst, arith, List, [], ◌∷◌, Bool, true,
  false, Option, none, some, is_some, map, length, get_or, Option-cases, get_or-update_nth,
  get_or-replicate, length-replicate, length-update_nth, unset, replicate, update_nth,
}
use sysml_federation.Capacity.Verdict.{Floats}
use sysml_federation.Capacity.Flow.{
  Arithmetic, Arc, Graph, row, mark_arcs, level_arcs, bfs_loop, bfs, reachable_loop, reachable,
}
use sysml_federation.Capacity.Flow.Marks.{mark_arcs-Marks}
use sysml_federation.Capacity.Flow.Reach.{
  Frontier, Frontier-start, Frontier-round, reachable-Reach, unset_start,
}
use sysml_federation.Capacity.Flow.Levels.{
  get_or-is_some-none, level_arcs-mark_arcs, level_arcs-Ranked, bfs_loop-reachable_loop, Ranked,
  map-level,
}

abbrev blank_levels : ℕ → List (Option ℕ)
blank_levels n = replicate n none

map_none : (n : ℕ) → map is_some (blank_levels n) ≡ replicate n false
unfolding replicate
map_none zero = refl
map_none (suc n) = ap (λ m. false ∷ m) (map_none n)

abbrev first_levels : ℕ → ℕ → List (Option ℕ)
first_levels n s = update_nth s (λ _. some 0) (replicate n none)

marks-first_levels :
    (n s : ℕ) → map is_some (first_levels n s) ≡ update_nth s (λ _. true) (replicate n false)
marks-first_levels n s =
    map-level (replicate n none) s none ∙ ap (update_nth s (λ _. true)) (map_none n)

module _ (floats : Floats) (arithmetic : Arithmetic floats.Float) where
  bfs_loop-Ranked :
      (fuel : ℕ) (adj : List (List (Arc floats.Float))) (s : ℕ) (level : List (Option ℕ))
      (queue : List ℕ) (t : List (Option ℕ))
      → Frontier floats arithmetic adj s (map is_some level) queue
      → Ranked floats arithmetic adj s level
      → bfs_loop floats arithmetic fuel adj level queue ≡ some t
      → Ranked floats arithmetic adj s t
  unfolding bfs_loop
  bfs_loop-Ranked zero adj s level [] t f h e =
      subst (Ranked floats arithmetic adj s) (ground (arith, e)) h
  bfs_loop-Ranked (suc fuel) adj s level [] t f h e =
      subst (Ranked floats arithmetic adj s) (ground (arith, e)) h
  bfs_loop-Ranked zero adj s level (u ∷ queue) t f h e = absurd (ground arith)
  bfs_loop-Ranked (suc fuel) adj s level (u ∷ queue) t f h e =
      let es = row floats arithmetic adj u in
      let next = level_arcs floats arithmetic u es (level, queue) in
      let sim = level_arcs-mark_arcs floats arithmetic u es level queue in
      let g =
        Frontier-round floats arithmetic adj s u (map is_some level) queue
          (mark_arcs floats arithmetic es (map is_some level, queue))
          (mark_arcs-Marks floats arithmetic es (map is_some level) queue) f in
      let at = f.queued u (Memᴰ.head refl) in
      elim (Option-cases (get_or level u none)) [
        | inl unset_u ↦ absurd (ground (arith, get_or-is_some-none level u))
        | inr (k, ranked_u) ↦
            bfs_loop-Ranked fuel adj s next.0 next.1 t
              (subst (λ (m : List Bool × List ℕ). Frontier floats arithmetic adj s m.0 m.1)
                (sym sim) g)
              (level_arcs-Ranked floats arithmetic adj s u k es level queue h ranked_u (λ v l. l)) e
      ]

  first_levels-Ranked :
      (adj : List (List (Arc floats.Float))) (s : ℕ)
      → s < length adj
      → Ranked floats arithmetic adj s (first_levels (length adj) s)
  first_levels-Ranked adj s h =
      let size = length-replicate {A = Option ℕ} (length adj) none in
      let at = λ (v : ℕ).
        get_or-update_nth {A = Option ℕ} s v (λ _. some 0) (blank_levels (length adj)) none
          (omega (arith, size)) in
      let blank = λ (v : ℕ). get_or-replicate {A = Option ℕ} (length adj) v none in
      let long = length-update_nth s (λ _. some 0) (blank_levels (length adj)) in
      record {
        size = omega (arith, size, long);
        source = ground (arith, at s);
        first = λ v e. ground (arith, at v, blank v);
        later = λ v d e. absurd (ground (arith, at v, blank v));
        low = λ v d e. ground (
          arith,
          at v,
          blank v,
          size,
          long,
          unset_start (length adj) s h,
          ap unset (marks-first_levels (length adj) s),
        );
      }

  -- What bfs from s to t leaves: levels that rank the vertices and stand exactly where reachable
  -- sets its marks, and whether there is one at t.
  pub record Leveled (g : Graph floats.Float) (s t : ℕ) (level : List (Option ℕ)) (found : Bool)
      : Type 0 where
    pub ranked : Ranked floats arithmetic g.adj s level
    pub seen : reachable floats arithmetic g s ≡ some (map is_some level)
    pub answer : found ≡ is_some (get_or level t none)

  bfs_loop-seen :
      (g : Graph floats.Float) (s : ℕ)
      → s < length g.adj
      → (level : List (Option ℕ)) × (bfs_loop floats arithmetic
            (length g.adj)
            g.adj
            (first_levels (length g.adj) s)
            (s ∷ [])
          ≡ some level)
        × (reachable floats arithmetic g s ≡ some (map is_some level))
  unfolding reachable
  bfs_loop-seen g s h =
      let n = length g.adj in
      let (seen, e, _, _) = reachable-Reach floats arithmetic g s h in
      let sim = bfs_loop-reachable_loop floats arithmetic n g.adj (first_levels n s) (s ∷ []) in
      let same =
        sim
        ∙ ap (λ (m : List Bool). reachable_loop floats arithmetic n g.adj m (s ∷ []))
            (marks-first_levels n s) in
      elim (Option-cases (bfs_loop floats arithmetic n g.adj (first_levels n s) (s ∷ []))) [
        | inl out ↦ absurd (cc (out, same, e))
        | inr (level, f) ↦ (level, f, sym same ∙ ap (Option.map (map is_some)) f)
      ]

  -- For every network and every vertex s of it, bfs from s to t ends within as many rounds as there are
  -- vertices and changes the levels alone. It sets a level exactly where reachable from s sets a mark,
  -- and answers whether t has one. The source alone has level zero, every other level is one more than
  -- that of a vertex with an arc to it that has capacity left, and the levels are below the number of
  -- vertices.
  pub bfs-Leveled :
      (g : Graph floats.Float) (s t : ℕ)
      → s < length g.adj
      → (level : List (Option ℕ)) × (found : Bool) × (bfs floats arithmetic g s t
          ≡ some (record g { level = level }, found))
        × Leveled g s t level found
  unfolding bfs
  bfs-Leveled g s t h =
      let n = length g.adj in
      let (level, e, seen) = bfs_loop-seen g s h in
      (
        level,
        is_some (get_or level t none),
        rw (e, bfs) refl,
        record {
          ranked =
              bfs_loop-Ranked n g.adj s (first_levels n s) (s ∷ []) level
                (subst (λ m. Frontier floats arithmetic g.adj s m (s ∷ []))
                  (sym (marks-first_levels n s)) (Frontier-start floats arithmetic g.adj s h))
                (first_levels-Ranked g.adj s h) e;
          seen = seen;
          answer = refl;
        },
      )
