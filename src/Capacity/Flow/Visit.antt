-- ===== src/Capacity/Flow/Visit.antt =====
-- flow.go: the ways through dfs as a relation, and what a search leaves alone.
use sysml_federation.Base.{
  ℕ, suc, ◌≤◌, ◌<◌, ◌≡◌, ◌≢◌, refl, sym, ap, ◌∙◌, subst, arith, List, [], true, false, Option, none,
  some, map, length, get_or, length-update_nth, get_or-update_nth_other, update_nth, map-update_nth,
}
use sysml_federation.Capacity.Verdict.{Floats}
use sysml_federation.Capacity.Flow.{
  Arithmetic, Arc, Graph, row, current, advance, is_skipped, set_cap, push,
}

-- The network without its capacities.
abbrev pub ends : {Float : Type 0} → Arc Float → ℕ × ℕ
ends e = (e.to, e.rev)

abbrev pub shape : {Float : Type 0} → List (List (Arc Float)) → List (List (ℕ × ℕ))
shape adj = map (map ends) adj

module _ (floats : Floats) (arithmetic : Arithmetic floats.Float) where
  -- dfs from u with f finds the flow d and leaves h: it is at t, or no arc of u is left, or it passes
  -- over the next arc, or it pushes what the search behind the arc found, or that search found nothing.
  pub data Visit (t : ℕ)
      : Graph floats.Float → ℕ → floats.Float → Graph floats.Float → floats.Float → Type 0 where
    arrived :
        {g h : Graph floats.Float} {u : ℕ} {f d : floats.Float}
        → u ≡ t
        → h ≡ g
        → d ≡ f
        → Visit t g u f h d
    exhausted :
        {g h : Graph floats.Float} {u : ℕ} {f d : floats.Float}
        → u ≢ t
        → current floats arithmetic g u ≡ none
        → h ≡ g
        → d ≡ floats.float_zero
        → Visit t g u f h d
    skipped :
        {g h : Graph floats.Float} {u : ℕ} {f d : floats.Float} (e : Arc floats.Float)
        → u ≢ t
        → current floats arithmetic g u ≡ some e
        → is_skipped floats arithmetic g u e ≡ true
        → Visit t (advance floats arithmetic u g) u f h d
        → Visit t g u f h d
    pushed :
        {g h : Graph floats.Float} {u : ℕ} {f d : floats.Float} (e : Arc floats.Float)
        (k : Graph floats.Float)
        → u ≢ t
        → current floats arithmetic g u ≡ some e
        → is_skipped floats arithmetic g u e ≡ false
        → Visit t g e.to (arithmetic.least f e.cap) k d
        → floats.less arithmetic.eps d ≡ true
        → h ≡ push floats arithmetic u (get_or g.next u 0) e d k
        → Visit t g u f h d
    refused :
        {g h : Graph floats.Float} {u : ℕ} {f d : floats.Float} (e : Arc floats.Float)
        (k : Graph floats.Float) (c : floats.Float)
        → u ≢ t
        → current floats arithmetic g u ≡ some e
        → is_skipped floats arithmetic g u e ≡ false
        → Visit t g e.to (arithmetic.least f e.cap) k c
        → floats.less arithmetic.eps c ≡ false
        → Visit t (advance floats arithmetic u k) u f h d
        → Visit t g u f h d

  pub shape-set_cap :
      (u i : ℕ) (f : floats.Float → floats.Float) (adj : List (List (Arc floats.Float)))
      → shape (set_cap floats arithmetic u i f adj) ≡ shape adj
  unfolding set_cap
  shape-set_cap u i f adj =
      map-update_nth (map ends) u (update_nth i (λ e. record e { cap = f e.cap })) adj
        (λ es. map-update_nth ends i (λ e. record e { cap = f e.cap }) es (λ e. refl))

  -- The levels and the shape stay, and so do the arcs and the next arc of every vertex below the level.
  pub record Kept (g h : Graph floats.Float) (level : ℕ) : Type 0 where
    pub levels : h.level ≡ g.level
    pub nexts : length h.next ≡ length g.next
    pub shapes : shape h.adj ≡ shape g.adj
    pub rows :
        (w d : ℕ)
        → get_or g.level w none ≡ some d
        → d < level
        → row floats arithmetic h.adj w ≡ row floats arithmetic g.adj w
    pub next_of :
        (w d : ℕ)
        → get_or g.level w none ≡ some d
        → d < level
        → get_or h.next w 0 ≡ get_or g.next w 0

  pub level-Kept :
      (g h : Graph floats.Float) (level w d : ℕ)
      → Kept g h level
      → get_or g.level w none ≡ some d
      → get_or h.level w none ≡ some d
  level-Kept g h level w d k l =
      subst (λ (x : List (Option ℕ)). get_or x w none ≡ some d) (sym k.levels) l

  pub Kept-refl : (g h : Graph floats.Float) (level : ℕ) → h ≡ g → Kept g h level
  Kept-refl g h level e = record {
    levels = ap (λ (x : Graph floats.Float). x.level) e;
    nexts = ap (λ (x : Graph floats.Float). length x.next) e;
    shapes = ap (λ (x : Graph floats.Float). shape x.adj) e;
    rows = λ w d l b. ap (λ (x : Graph floats.Float). row floats arithmetic x.adj w) e;
    next_of = λ w d l b. ap (λ (x : Graph floats.Float). get_or x.next w 0) e;
  }

  pub Kept-trans :
      (g h k : Graph floats.Float) (m level : ℕ)
      → level ≤ m
      → Kept g h m
      → Kept h k level
      → Kept g k level
  Kept-trans g h k m level le f s =
      let there = λ (w d : ℕ) (l : get_or g.level w none ≡ some d). level-Kept g h m w d f l in
      record {
        levels = s.levels ∙ f.levels;
        nexts = s.nexts ∙ f.nexts;
        shapes = s.shapes ∙ f.shapes;
        rows = λ w d l b. s.rows w d (there w d l) b ∙ f.rows w d l (omega arith);
        next_of = λ w d l b. s.next_of w d (there w d l) b ∙ f.next_of w d l (omega arith);
      }

  pub Kept-advance :
      (g : Graph floats.Float) (u level : ℕ)
      → get_or g.level u none ≡ some level
      → Kept g (advance floats arithmetic u g) level
  unfolding advance
  Kept-advance g u level e = record {
    levels = refl;
    nexts = length-update_nth u suc g.next;
    shapes = refl;
    rows = λ w d l b. refl;
    next_of =
        λ w d l b. get_or-update_nth_other u w suc g.next 0 (λ same. ground (arith, e, l, same));
  }

  pub Kept-push :
      (g : Graph floats.Float) (u i level : ℕ) (e : Arc floats.Float) (c : floats.Float)
      → get_or g.level u none ≡ some level
      → get_or g.level e.to none ≡ some (suc level)
      → Kept g (push floats arithmetic u i e c g) level
  unfolding push set_cap
  Kept-push g u i level e c at above_at =
      let less_u = set_cap floats arithmetic u i (λ x. arithmetic.minus x c) g.adj in
      record {
        levels = refl;
        nexts = refl;
        shapes =
            shape-set_cap e.to e.rev (λ x. arithmetic.plus x c) less_u
            ∙ shape-set_cap u i (λ x. arithmetic.minus x c) g.adj;
        rows = λ w d l b.
            get_or-update_nth_other e.to w
              (update_nth e.rev (λ a. record a { cap = arithmetic.plus a.cap c })) less_u []
              (λ same. ground (arith, above_at, l, same))
            ∙ get_or-update_nth_other u w
                (update_nth i (λ a. record a { cap = arithmetic.minus a.cap c })) g.adj []
                (λ same. ground (arith, at, l, same));
        next_of = λ w d l b. refl;
      }

  pub level-follows :
      (g : Graph floats.Float) (u level : ℕ) (e : Arc floats.Float)
      → get_or g.level u none ≡ some level
      → is_skipped floats arithmetic g u e ≡ false
      → get_or g.level e.to none ≡ some (suc level)
  unfolding is_skipped
  level-follows g u level e at s = ground arith

  -- A search from a vertex that has a level.
  pub Visit-Kept :
      {t : ℕ} {g h : Graph floats.Float} {u level : ℕ} {f d : floats.Float}
      → get_or g.level u none ≡ some level
      → Visit t g u f h d
      → Kept g h level
  Visit-Kept {t} {g} {h} {u} {level} at (arrived a e q) = Kept-refl g h level e
  Visit-Kept {t} {g} {h} {u} {level} at (exhausted n c e q) = Kept-refl g h level e
  Visit-Kept {t} {g} {h} {u} {level} at (skipped e n c s v) =
      let step = Kept-advance g u level at in
      let at_next = level-Kept g (advance floats arithmetic u g) level u level step at in
      Kept-trans g (advance floats arithmetic u g) h level level (omega arith) step
        (Visit-Kept {level = level} at_next v)
  Visit-Kept {t} {g} {h} {u} {level} {f} {d} at (pushed e k n c s v l q) =
      let at_e = level-follows g u level e at s in
      let inner = Visit-Kept {level = suc level} at_e v in
      let at_k = level-Kept g k (suc level) u level inner at in
      let at_e_k = level-Kept g k (suc level) e.to (suc level) inner at_e in
      Kept-trans g k h (suc level) level (omega arith) inner (
        subst (λ x. Kept k x level) (sym q)
          (Kept-push k u (get_or g.next u 0) level e d at_k at_e_k))
  Visit-Kept {t} {g} {h} {u} {level} at (refused e k c n r s v l more) =
      let at_e = level-follows g u level e at s in
      let inner = Visit-Kept {level = suc level} at_e v in
      let at_k = level-Kept g k (suc level) u level inner at in
      let step = Kept-advance k u level at_k in
      let at_next = level-Kept k (advance floats arithmetic u k) level u level step at_k in
      Kept-trans g k h (suc level) level (omega arith) inner (
        Kept-trans k (advance floats arithmetic u k) h level level (omega arith) step
          (Visit-Kept {level = level} at_next more))
