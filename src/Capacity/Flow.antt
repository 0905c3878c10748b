-- ===== src/Capacity/Flow.antt =====
-- examples/pipeline/capacity/flow/flow.go: the residual network and Dinic's algorithm. What the code
-- does with values of float64 besides comparing them is the parameter `Arithmetic`. A level of -1 is
-- `none`. A read out of range, which would panic, gives the value named there. Every loop runs on
-- fuel, and gives `none` where it runs out.
pub mod Bfs
pub mod Cuts
pub mod Conserved
pub mod Levels
pub mod MinCut
pub mod Marks
pub mod Phases
pub mod Progress
pub mod Reach
pub mod Rounds
pub mod Search
pub mod Visit
use sysml_federation.Base.{
  ℕ, zero, suc, ◌-◌, List, [], ◌∷◌, ◌++◌, Bool, true, false, not, ◌&&◌, ◌||◌, Option, none, some,
  ◌==◌, if◌then◌else◌, length, get_elem?, get_or, replicate, update_nth, is_some,
}
use sysml_federation.Capacity.Verdict.{Floats}

pub record Arithmetic (Float : Type 0) : Type 0 where
  pub plus : Float → Float → Float
  pub minus : Float → Float → Float
  pub least : Float → Float → Float
  pub infinity : Float
  pub eps : Float

-- edge
pub record Arc (Float : Type 0) : Type 0 where
  pub to : ℕ
  pub rev : ℕ
  pub cap : Float

pub record Graph (Float : Type 0) : Type 0 where
  pub adj : List (List (Arc Float))
  pub level : List (Option ℕ)
  pub next : List ℕ

-- level[u] + 1
abbrev pub above : Option ℕ → Option ℕ
above none = some 0
above (some d) = some (suc d)

abbrev pub level_eq : Option ℕ → Option ℕ → Bool
level_eq none none = true
level_eq none (some d) = false
level_eq (some d) none = false
level_eq (some d) (some k) = d == k

module _ (floats : Floats) (arithmetic : Arithmetic floats.Float) where
  open floats use {Float, less, at_most, float_zero}
  open arithmetic use {plus, minus, least, infinity, eps}

  -- g.adj[u]
  abbrev pub row : List (List (Arc Float)) → ℕ → List (Arc Float)
  row adj u = get_or adj u []

  unfoldable pub new_graph : ℕ → Graph Float
  new_graph n = record { adj = replicate n []; level = []; next = [] }

  -- append(g.adj[u], e)
  unfoldable pub append_arc : ℕ → Arc Float → List (List (Arc Float)) → List (List (Arc Float))
  append_arc u e = update_nth u (λ es. es ++ (e ∷ []))

  unfoldable pub add : Graph Float → ℕ → ℕ → Float → Graph Float
  add g u v c =
      let there = append_arc u (record { to = v; rev = length (row g.adj v); cap = c }) g.adj in
      let back : Arc Float = record { to = u; rev = length (row there u) - 1; cap = float_zero } in
      record g { adj = append_arc v back there }

  -- One arc of the inner loop of bfs, over the levels and the queue.
  unfoldable pub level_arc : ℕ → Arc Float → List (Option ℕ) × List ℕ → List (Option ℕ) × List ℕ
  level_arc u e (level, queue) =
      if less eps e.cap && not (is_some (get_or level e.to (some 0)))
      then (update_nth e.to (λ _. above (get_or level u none)) level, queue ++ (e.to ∷ []))
      else (level, queue)

  unfoldable pub level_arcs :
      ℕ → List (Arc Float) → List (Option ℕ) × List ℕ → List (Option ℕ) × List ℕ
  level_arcs u [] s = s
  level_arcs u (e ∷ es) s = level_arcs u es (level_arc u e s)

  unfoldable pub bfs_loop :
      ℕ → List (List (Arc Float)) → List (Option ℕ) → List ℕ → Option (List (Option ℕ))
  bfs_loop fuel adj level [] = some level
  bfs_loop zero adj level (u ∷ queue) = none
  bfs_loop (suc fuel) adj level (u ∷ queue) =
      let s = level_arcs u (row adj u) (level, queue) in bfs_loop fuel adj s.0 s.1

  unfoldable pub bfs : Graph Float → ℕ → ℕ → Option (Graph Float × Bool)
  bfs g s t =
      let start = update_nth s (λ _. some 0) (replicate (length g.adj) none) in
      elim (bfs_loop (length g.adj) g.adj start (s ∷ [])) [
        | none ↦ none
        | some level ↦ some (record g { level = level }, is_some (get_or level t none))
      ]

  -- The same for reachable, over the marks and the queue.
  unfoldable pub mark_arc : Arc Float → List Bool × List ℕ → List Bool × List ℕ
  mark_arc e (seen, queue) =
      if less eps e.cap && not (get_or seen e.to true)
      then (update_nth e.to (λ _. true) seen, queue ++ (e.to ∷ []))
      else (seen, queue)

  unfoldable pub mark_arcs : List (Arc Float) → List Bool × List ℕ → List Bool × List ℕ
  mark_arcs [] s = s
  mark_arcs (e ∷ es) s = mark_arcs es (mark_arc e s)

  unfoldable pub reachable_loop :
      ℕ → List (List (Arc Float)) → List Bool → List ℕ → Option (List Bool)
  reachable_loop fuel adj seen [] = some seen
  reachable_loop zero adj seen (u ∷ queue) = none
  reachable_loop (suc fuel) adj seen (u ∷ queue) =
      let s = mark_arcs (row adj u) (seen, queue) in reachable_loop fuel adj s.0 s.1

  unfoldable pub reachable : Graph Float → ℕ → Option (List Bool)
  reachable g s =
      reachable_loop (length g.adj) g.adj
        (update_nth s (λ _. true) (replicate (length g.adj) false)) (s ∷ [])

  -- The arc that g.next[u] points at, where there is one.
  abbrev pub current : Graph Float → ℕ → Option (Arc Float)
  current g u = get_elem? (row g.adj u) (get_or g.next u 0)

  -- g.next[u]++
  unfoldable pub advance : ℕ → Graph Float → Graph Float
  advance u g = record g { next = update_nth u suc g.next }

  unfoldable pub is_skipped : Graph Float → ℕ → Arc Float → Bool
  is_skipped g u e =
      at_most e.cap eps || not (level_eq (get_or g.level e.to none) (above (get_or g.level u none)))

  -- g.adj[u][i].cap = f(g.adj[u][i].cap)
  unfoldable pub set_cap :
      ℕ → ℕ → (Float → Float) → List (List (Arc Float)) → List (List (Arc Float))
  set_cap u i f = update_nth u (update_nth i (λ e. record e { cap = f e.cap }))

  -- e.cap -= d; g.adj[e.to][e.rev].cap += d, for e = &g.adj[u][i]
  unfoldable pub push : ℕ → ℕ → Arc Float → Float → Graph Float → Graph Float
  push u i e d g = record g {
    adj = set_cap e.to e.rev (λ c. plus c d) (set_cap u i (λ c. minus c d) g.adj);
  }

  -- The loop of dfs over the arcs of u. The call goes one level up.
  unfoldable pub dfs_arcs :
      (Graph Float → ℕ → Float → Option (Graph Float × Float))
      → ℕ
      → Graph Float
      → ℕ
      → Float
      → Option (Graph Float × Float)
  dfs_arcs call zero g u f = none
  dfs_arcs call (suc rounds) g u f = elim (current g u) [
    | none ↦ some (g, float_zero)
    | some e ↦ elim (is_skipped g u e) [
      | true ↦ dfs_arcs call rounds (advance u g) u f
      | false ↦ elim (call g e.to (least f e.cap)) [
        | none ↦ none
        | some (h, d) ↦ elim (less eps d) [
          | true ↦ some (push u (get_or g.next u 0) e d h, d)
          | false ↦ dfs_arcs call rounds (advance u h) u f
        ]
      ]
    ]
  ]

  -- One level for each unit of fuel, and a round for each arc of u with one to find none left.
  unfoldable pub dfs : ℕ → ℕ → Graph Float → ℕ → Float → Option (Graph Float × Float)
  dfs zero t g u f = none
  dfs (suc depth) t g u f = elim (u == t) [
    | true ↦ some (g, f)
    | false ↦ dfs_arcs (dfs depth t) (suc (length (row g.adj u))) g u f
  ]

  -- The inner loop of maxFlow. The levels stay below the number of vertices.
  unfoldable pub augment : ℕ → ℕ → ℕ → Graph Float → Float → Option (Graph Float × Float)
  augment zero s t g flow = none
  augment (suc fuel) s t g flow = elim (dfs (length g.adj) t g s infinity) [
    | none ↦ none
    | some (h, d) ↦ elim (less eps d) [
      | true ↦ augment fuel s t h (plus flow d)
      | false ↦ some (h, flow)
    ]
  ]

  unfoldable pub phases : ℕ → ℕ → ℕ → Graph Float → Float → Option (Graph Float × Float)
  phases zero s t g flow = none
  phases (suc fuel) s t g flow = elim (bfs g s t) [
    | none ↦ none
    | some (h, false) ↦ some (h, flow)
    | some (h, true) ↦
        elim (augment (suc fuel) s t (record h { next = replicate (length h.adj) 0 }) flow) [
          | none ↦ none
          | some (k, more) ↦ phases fuel s t k more
        ]
  ]

  unfoldable pub max_flow : ℕ → Graph Float → ℕ → ℕ → Option (Graph Float × Float)
  max_flow fuel g s t = phases fuel s t g float_zero
