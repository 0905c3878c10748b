-- ===== src/Capacity/Flow/Reach.antt =====
-- flow.go: reachable, and the vertices that residual arcs lead to.
use mathlib.Core.Bool.{So-prop}
use mathlib.Core.Logic.{⊎_elim, ∥∥₁_elim}
use mathlib.Core.List.{Memᴰ}
use mathlib.Core.List.Memᴰ
use sysml_federation.Base.{
  ℕ, zero, suc, ◌+◌, ◌≤◌, ◌<◌, ◌≡◌, ◌⊎◌, ◌↔◌, inl, inr, refl, arith, List, [], ◌∷◌, Bool, true,
  false, some, length, get_or, get_or-update_nth, get_or-replicate, length-replicate,
  length-update_nth, unset, unset_le, unset-update_nth, update_nth, replicate, subst, sym,
}
use sysml_federation.Capacity.Verdict.{Floats}
use sysml_federation.Capacity.Flow.{
  Arithmetic, Arc, Graph, row, mark_arcs, reachable_loop, reachable,
}
use sysml_federation.Capacity.Flow.Marks.{Leads, Marks, mark_arcs-Marks, Memᴰ-cons, get_or-default}

pub unset_start : (n s : ℕ) → s < n → suc (unset (update_nth s (λ _. true) (replicate n false))) ≤ n
unset_start n s h = omega (
  arith,
  unset-update_nth (replicate n false) s (λ _. true)
      (ground (
        arith,
        get_or-default (replicate n false) s false,
        get_or-replicate n s false,
        length-replicate n false,
      ))
      refl,
  unset_le (replicate n false),
  length-replicate n false,
)

module _ (floats : Floats) (arithmetic : Arithmetic floats.Float) where
  -- An arc of u with capacity left leads to v.
  abbrev pub Follows : List (List (Arc floats.Float)) → ℕ → ℕ → Type 0
  Follows adj u v = Leads floats arithmetic (row floats arithmetic adj u) v × (v < length adj)

  -- The walks from s along arcs with capacity left.
  pub data Reach (adj : List (List (Arc floats.Float))) (s : ℕ) : ℕ → Type 0 where
    here : Reach adj s s
    along : {u v : ℕ} → Reach adj s u → Follows adj u v → Reach adj s v

  pub record Frontier (adj : List (List (Arc floats.Float))) (s : ℕ) (seen : List Bool)
      (queue : List ℕ) : Type 0 where
    pub size : length seen ≡ length adj
    pub source : get_or seen s false ≡ true
    pub queued : (v : ℕ) → Memᴰ v queue → get_or seen v false ≡ true
    pub sound : (v : ℕ) → get_or seen v false ≡ true → Reach adj s v
    pub closed :
        (u v : ℕ)
        → get_or seen u false ≡ true
        → Follows adj u v
        → Memᴰ u queue ⊎ (get_or seen v false ≡ true)

  pub start_marks :
      (adj : List (List (Arc floats.Float))) (s : ℕ)
      → s < length adj
      → (v : ℕ)
      → (get_or (update_nth s (λ _. true) (replicate (length adj) false)) v false ≡ true) ↔ (v ≡ s)
  start_marks adj s h v = ground (
    arith,
    get_or-update_nth s v (λ _. true) (replicate (length adj) false) false,
    length-replicate (length adj) false,
    get_or-replicate (length adj) v false,
  )

  pub Frontier-start :
      (adj : List (List (Arc floats.Float))) (s : ℕ)
      → s < length adj
      → Frontier adj s (update_nth s (λ _. true) (replicate (length adj) false)) (s ∷ [])
  Frontier-start adj s h =
      let only = start_marks adj s h in
      record {
        size = omega (
          arith,
          length-update_nth s (λ _. true) (replicate (length adj) false),
          length-replicate (length adj) false,
        );
        source = (only s).1 refl;
        queued = λ v q. (only v).1 (Memᴰ.eq_of_singleton q);
        sound = λ v m. subst (Reach adj s) (sym ((only v).0 m)) here;
        closed = λ u v m f. inl (Memᴰ.head ((only u).0 m));
      }

  pub Frontier-round :
      (adj : List (List (Arc floats.Float))) (s u : ℕ) (seen : List Bool) (queue : List ℕ)
      (t : List Bool × List ℕ)
      → Marks floats arithmetic (row floats arithmetic adj u) seen queue t
      → Frontier adj s seen (u ∷ queue)
      → Frontier adj s t.0 t.1
  Frontier-round adj s u seen queue t k h =
      let from_u = h.sound u (h.queued u (Memᴰ.head refl)) in
      record {
        size = omega (arith, k.size, h.size);
        source = (k.marks s).1 (inl h.source);
        queued = λ v q. ground (arith, k.marks v, k.queued v, h.queued v, Memᴰ-cons v u queue);
        sound = λ v m.
            ⊎_elim (h.sound v) (λ new. along from_u (new.0, omega (arith, new.1, h.size)))
              ((k.marks v).0 m);
        closed = λ x v m f.
            ground
              (arith, k.marks v, k.marks x, k.queued x, h.closed x v, Memᴰ-cons x u queue, h.size);
      }

  -- A round takes one vertex from the queue and adds those that it marks: what is not marked or
  -- waits gets less by one.
  pub reachable_loop-Frontier :
      (fuel : ℕ) (adj : List (List (Arc floats.Float))) (s : ℕ) (seen : List Bool) (queue : List ℕ)
      → Frontier adj s seen queue
      → unset seen + length queue ≤ fuel
      → (t : List Bool) × (reachable_loop floats arithmetic fuel adj seen queue ≡ some t)
        × Frontier adj s t []
  unfolding reachable_loop
  reachable_loop-Frontier zero adj s seen [] h w = (seen, refl, h)
  reachable_loop-Frontier (suc fuel) adj s seen [] h w = (seen, refl, h)
  reachable_loop-Frontier zero adj s seen (u ∷ queue) h w = absurd (omega arith)
  reachable_loop-Frontier (suc fuel) adj s seen (u ∷ queue) h w =
      let k = mark_arcs-Marks floats arithmetic (row floats arithmetic adj u) seen queue in
      let t = mark_arcs floats arithmetic (row floats arithmetic adj u) (seen, queue) in
      reachable_loop-Frontier fuel adj s t.0 t.1 (Frontier-round adj s u seen queue t k h)
        (omega (arith, k.work))

  Frontier-complete :
      (adj : List (List (Arc floats.Float))) (s : ℕ) (seen : List Bool)
      → Frontier adj s seen []
      → {v : ℕ} → Reach adj s v
      → get_or seen v false ≡ true
  Frontier-complete adj s seen h here = h.source
  Frontier-complete adj s seen h (along {u} {v} p f) =
      elim (h.closed u v (Frontier-complete adj s seen h p) f) [
        | inl waiting ↦ absurd (Memᴰ.not-nil waiting)
        | inr m ↦ m
      ]

  -- For every network and every vertex s of it, reachable ends within as many rounds as there are
  -- vertices, and it marks exactly the vertices of the network that a walk along arcs with
  -- capacity left leads to from s.
  pub reachable-Reach :
      (g : Graph floats.Float) (s : ℕ)
      → s < length g.adj
      → (seen : List Bool) × (reachable floats arithmetic g s ≡ some seen)
        × (length seen ≡ length g.adj)
        × ((v : ℕ) → (get_or seen v false ≡ true) ↔ ∥ Reach g.adj s v ∥₁)
  unfolding reachable
  reachable-Reach g s h =
      let (seen, e, inv) =
        reachable_loop-Frontier (length g.adj) g.adj s
          (update_nth s (λ _. true) (replicate (length g.adj) false)) (s ∷ [])
          (Frontier-start g.adj s h) (omega (arith, unset_start (length g.adj) s h)) in
      (
        seen,
        e,
        inv.size,
        λ v. (
          λ m. ∣ inv.sound v m ∣₁,
          λ w. ∥∥₁_elim w (So-prop _) (Frontier-complete g.adj s seen inv),
        ),
      )
