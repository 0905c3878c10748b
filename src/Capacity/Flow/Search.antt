-- ===== src/Capacity/Flow/Search.antt =====
-- flow.go: the end of dfs.
use sysml_federation.Base.{
  ℕ, zero, suc, ◌+◌, ◌-◌, ◌≤◌, ◌<◌, ◌≡◌, ◌≢◌, inl, inr, refl, sym, ap, ◌∙◌, subst, arith, List, [],
  ◌∷◌, Option, none, some, length, get_or, get_elem?, Option-cases, Bool-cases, ◌==◌, ==→eq,
  get_or-update_nth,
}
use sysml_federation.Capacity.Verdict.{Floats}
use sysml_federation.Capacity.Flow.{
  Arithmetic, Arc, Graph, row, current, advance, is_skipped, push, dfs_arcs, dfs,
}
use sysml_federation.Capacity.Flow.Visit.{
  Visit, arrived, exhausted, skipped, pushed, refused, Kept, Visit-Kept, Kept-refl, Kept-advance,
  level-Kept, level-follows,
}

pub get_elem?-in_range {ℓ} :
    {A : Type ℓ} (xs : List A) (i : ℕ) {x : A} → get_elem? xs i ≡ some x → i < length xs
get_elem?-in_range [] i e = absurd (ground arith)
get_elem?-in_range (y ∷ xs) zero e = omega arith
get_elem?-in_range (y ∷ xs) (suc i) {x} e = omega (arith, get_elem?-in_range xs i {x = x} e)

level-in_range :
    (level : List (Option ℕ)) (u : ℕ) {d : ℕ} → get_or level u none ≡ some d → u < length level
level-in_range [] u e = absurd (ground arith)
level-in_range (l ∷ level) zero e = omega arith
level-in_range (l ∷ level) (suc u) {d} e = omega (arith, level-in_range level u {d = d} e)

module _ (floats : Floats) (arithmetic : Arithmetic floats.Float) where
  -- The levels are below a bound, and every vertex with a level has a next arc.
  pub record Ready (g : Graph floats.Float) (n : ℕ) : Type 0 where
    pub low : (v d : ℕ) → get_or g.level v none ≡ some d → d < n
    pub sizes : length g.level ≡ length g.next

  pub Ready-Kept :
      (g h : Graph floats.Float) (n level : ℕ)
      → Kept floats arithmetic g h level
      → Ready g n
      → Ready h n
  Ready-Kept g h n level k r = record {
    low = λ v d e. r.low v d (subst (λ (x : List (Option ℕ)). get_or x v none ≡ some d) k.levels e);
    sizes = ap (λ (x : List (Option ℕ)). length x) k.levels ∙ r.sizes ∙ sym k.nexts;
  }

  next-advance :
      (g : Graph floats.Float) (u n level : ℕ)
      → Ready g n
      → get_or g.level u none ≡ some level
      → get_or (advance floats arithmetic u g).next u 0 ≡ suc (get_or g.next u 0)
  unfolding advance
  next-advance g u n level r at = ground (
    arith,
    get_or-update_nth u u suc g.next 0
        (omega (arith, r.sizes, level-in_range g.level u {d = level} at)),
  )

  row-advance : (g : Graph floats.Float) (u : ℕ) → (advance floats arithmetic u g).adj ≡ g.adj
  unfolding advance
  row-advance g u = refl

  -- Past an arc that is there, a round is left for each arc behind it.
  fewer :
      (g k : Graph floats.Float) (u n level m rounds : ℕ)
      → Ready k n
      → get_or k.level u none ≡ some level
      → level < m
      → Kept floats arithmetic g k m
      → get_or g.level u none ≡ some level
      → get_or g.next u 0 < length (row floats arithmetic g.adj u)
      → length (row floats arithmetic g.adj u) - get_or g.next u 0 < suc rounds
      → length (row floats arithmetic (advance floats arithmetic u k).adj u)
          - get_or (advance floats arithmetic u k).next u 0
        < rounds
  fewer g k u n level m rounds r at_k b s at i w =
      rw (row-advance k u, next-advance k u n level r at_k)
        (omega (
          arith,
          ap (λ (es : List (Arc floats.Float)). length es) (s.rows u level at b),
          s.next_of u level at b,
        ))

  -- What a search gives: a graph and a flow, by one of the ways through dfs.
  abbrev pub Finds :
      ℕ
      → Graph floats.Float
      → ℕ
      → floats.Float
      → Option (Graph floats.Float × floats.Float)
      → Type 0
  Finds t g u f r =
      (h : Graph floats.Float) × (d : floats.Float) × (r ≡ some (h, d))
      × Visit floats arithmetic t g u f h d

  module _ (t n level : ℕ)
      (call : Graph floats.Float → ℕ → floats.Float → Option (Graph floats.Float × floats.Float))
      (searches : (g : Graph floats.Float) (v : ℕ) (f : floats.Float)
        → Ready g n
        → get_or g.level v none ≡ some (suc level)
        → Finds t g v f (call g v f)) where
    dfs_arcs-Finds :
        (rounds : ℕ) (g : Graph floats.Float) (u : ℕ) (f : floats.Float)
        → Ready g n
        → get_or g.level u none ≡ some level
        → u ≢ t
        → length (row floats arithmetic g.adj u) - get_or g.next u 0 < rounds
        → Finds t g u f (dfs_arcs floats arithmetic call rounds g u f)
    unfolding dfs_arcs
    dfs_arcs-Finds zero g u f r at n_t w = absurd (omega arith)
    dfs_arcs-Finds (suc rounds) g u f r at n_t w =
        elim (Option-cases (current floats arithmetic g u)) [
          | inl gone ↦
              (g, floats.float_zero, rw (gone, dfs_arcs) refl, exhausted n_t gone refl refl)
          | inr (e, there) ↦
              let in_row =
                get_elem?-in_range (row floats arithmetic g.adj u) (get_or g.next u 0) {x = e}
                  there in
              elim (Bool-cases (is_skipped floats arithmetic g u e)) [
                | inl skip ↦
                    let step = Kept-advance floats arithmetic g u level at in
                    let after = advance floats arithmetic u g in
                    let (h, d, q, v) =
                      dfs_arcs-Finds rounds after u f (Ready-Kept g after n level step r)
                        (level-Kept floats arithmetic g after level u level step at) n_t
                        (fewer g g u n level (suc level) rounds r at (omega arith)
                          (Kept-refl floats arithmetic g g (suc level) refl) at in_row w) in
                    (h, d, rw (there, skip, dfs_arcs) q, skipped e n_t there skip v)
                | inr take ↦
                    let at_e = level-follows floats arithmetic g u level e at take in
                    let (k, c, p, x) = searches g e.to (arithmetic.least f e.cap) r at_e in
                    let inner = Visit-Kept floats arithmetic {level = suc level} at_e x in
                    let at_k = level-Kept floats arithmetic g k (suc level) u level inner at in
                    let r_k = Ready-Kept g k n (suc level) inner r in
                    elim (Bool-cases (floats.less arithmetic.eps c)) [
                      | inl more ↦ (
                        push floats arithmetic u (get_or g.next u 0) e c k,
                        c,
                        rw (there, take, p, more, dfs_arcs) refl,
                        pushed e k n_t there take x more refl,
                      )
                      | inr less ↦
                          let step = Kept-advance floats arithmetic k u level at_k in
                          let after = advance floats arithmetic u k in
                          let (h, d, q, v) =
                            dfs_arcs-Finds rounds after u f (Ready-Kept k after n level step r_k)
                              (level-Kept floats arithmetic k after level u level step at_k) n_t
                              (fewer g k u n level (suc level) rounds r_k at_k (omega arith) inner
                                at in_row w) in
                          (
                            h,
                            d,
                            rw (there, take, p, less, dfs_arcs) q,
                            refused e k c n_t there take x less v,
                          )
                    ]
              ]
        ]

  -- From a vertex that has a level, where the levels stay below a bound and every vertex with a level
  -- has a next arc, dfs ends with fuel for the levels from there to the bound, by one of the ways
  -- through it.
  pub dfs-Finds :
      (depth t n level : ℕ) (g : Graph floats.Float) (u : ℕ) (f : floats.Float)
      → Ready g n
      → get_or g.level u none ≡ some level
      → n ≤ depth + level
      → Finds t g u f (dfs floats arithmetic depth t g u f)
  unfolding dfs
  dfs-Finds zero t n level g u f r at w = absurd (omega (arith, r.low u level at))
  dfs-Finds (suc depth) t n level g u f r at w = elim (Bool-cases (u == t)) [
    | inl e ↦ (g, f, rw (e, dfs) refl, arrived (==→eq u t e) refl refl)
    | inr e ↦
        let (h, d, q, v) =
          dfs_arcs-Finds t n level (dfs floats arithmetic depth t)
            (λ k v c s b. dfs-Finds depth t n (suc level) k v c s b (omega arith))
            (suc (length (row floats arithmetic g.adj u))) g u f r at (ground arith)
            (omega arith) in
        (h, d, rw (e, dfs) q, v)
  ]
