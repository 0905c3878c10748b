-- ===== src/Capacity/Flow/Marks.antt =====
-- flow.go: what the loop over the arcs of one vertex marks and puts into the queue.
use mathlib.Core.Logic.{⊎_elim}
use mathlib.Core.List.{Memᴰ}
use mathlib.Core.List.Memᴰ
use sysml_federation.Base.{
  ℕ, zero, suc, ◌+◌, ◌<◌, ◌≡◌, ◌⊎◌, ◌↔◌, inl, inr, refl, arith, List, [], ◌∷◌, ◌++◌, Bool, true,
  false, not, ◌&&◌, length, get_or, unset, unset-update_nth, length-update_nth, get_or-update_nth,
  length-append, update_nth, Bool-cases,
}
use sysml_federation.Capacity.Verdict.{Floats}
use sysml_federation.Capacity.Flow.{Arithmetic, Arc, mark_arc, mark_arcs}

pub Memᴰ-cons {ℓ} : {A : Type ℓ} (x y : A) (xs : List A) → Memᴰ x (y ∷ xs) ↔ ((x ≡ y) ⊎ Memᴰ x xs)
Memᴰ-cons x y xs = (Memᴰ.cases_cons, ⊎_elim Memᴰ.head Memᴰ.tail)

pub Memᴰ-snoc {ℓ} :
    {A : Type ℓ} (x y : A) (xs : List A) → Memᴰ x (xs ++ (y ∷ [])) ↔ (Memᴰ x xs ⊎ (x ≡ y))
Memᴰ-snoc x y xs = (
  λ m. ⊎_elim inl (λ one. inr (Memᴰ.eq_of_singleton one)) (Memᴰ.append_cases xs m),
  ⊎_elim (Memᴰ.append_left _) (λ e. Memᴰ.append_right xs (Memᴰ.head e)),
)

get_or-in_range : (bs : List Bool) (i : ℕ) → get_or bs i true ≡ false → i < length bs
get_or-in_range [] i e = cc
get_or-in_range (b ∷ bs) zero e = omega arith
get_or-in_range (b ∷ bs) (suc i) e = omega (arith, get_or-in_range bs i e)

pub get_or-default :
    (bs : List Bool) (i : ℕ) (b : Bool) → i < length bs → get_or bs i b ≡ get_or bs i true
get_or-default [] i b h = absurd (omega arith)
get_or-default (c ∷ bs) zero b h = refl
get_or-default (c ∷ bs) (suc i) b h = get_or-default bs i b (omega arith)

pub lt-length_of_get_or : (bs : List Bool) (i : ℕ) → get_or bs i false ≡ true → i < length bs
lt-length_of_get_or [] i e = cc
lt-length_of_get_or (b ∷ bs) zero e = omega arith
lt-length_of_get_or (b ∷ bs) (suc i) e = omega (arith, lt-length_of_get_or bs i e)

module _ (floats : Floats) (arithmetic : Arithmetic floats.Float) where
  abbrev pub is_open : Arc floats.Float → Bool
  is_open e = floats.less arithmetic.eps e.cap

  -- Some arc of the list leads to the vertex and has capacity left.
  abbrev pub Leads : List (Arc floats.Float) → ℕ → Type 0
  Leads [] v = ⊥
  Leads (e ∷ es) v = (is_open e ≡ true) × (v ≡ e.to) ⊎ Leads es v

  pub record Marks (es : List (Arc floats.Float)) (seen : List Bool) (queue : List ℕ)
      (s : List Bool × List ℕ) : Type 0 where
    pub size : length s.0 ≡ length seen
    pub work : unset s.0 + length s.1 ≡ unset seen + length queue
    pub marks :
        (v : ℕ)
        → (get_or s.0 v false ≡ true)
          ↔ ((get_or seen v false ≡ true) ⊎ Leads es v × (v < length seen))
    pub queued :
        (v : ℕ)
        → Memᴰ v s.1 ↔ (Memᴰ v queue ⊎ (get_or s.0 v false ≡ true) × (get_or seen v false ≡ false))

  marked_new :
      (e : Arc floats.Float) (seen : List Bool) (queue : List ℕ)
      → is_open e ≡ true
      → get_or seen e.to true ≡ false
      → Marks (e ∷ []) seen queue (update_nth e.to (λ _. true) seen, queue ++ (e.to ∷ []))
  marked_new e seen queue o n =
      let h = get_or-in_range seen e.to n in
      record {
        size = length-update_nth e.to (λ _. true) seen;
        work =
            omega (
              arith,
              unset-update_nth seen e.to (λ _. true) n refl,
              length-append queue (e.to ∷ []),
            );
        marks = λ v. ground (arith, get_or-update_nth e.to v (λ _. true) seen false h, o);
        queued = λ v. ground (
          arith,
          get_or-update_nth e.to v (λ _. true) seen false h,
          Memᴰ-snoc v e.to queue,
          get_or-default seen e.to false h,
        );
      }

  marked_old :
      (e : Arc floats.Float) (seen : List Bool) (queue : List ℕ)
      → is_open e && not (get_or seen e.to true) ≡ false
      → Marks (e ∷ []) seen queue (seen, queue)
  marked_old e seen queue old = record {
    size = refl;
    work = refl;
    marks = λ v. ground (arith, get_or-default seen e.to false);
    queued = λ v. ground arith;
  }

  mark_arc-Marks :
      (e : Arc floats.Float) (seen : List Bool) (queue : List ℕ)
      → Marks (e ∷ []) seen queue (mark_arc floats arithmetic e (seen, queue))
  unfolding mark_arc
  mark_arc-Marks e seen queue = elim (Bool-cases (is_open e && not (get_or seen e.to true))) [
    | inl new ↦ rw (new) (marked_new e seen queue (ground arith) (ground arith))
    | inr old ↦ rw (old) (marked_old e seen queue old)
  ]

  Marks-chain :
      (e : Arc floats.Float) (es : List (Arc floats.Float)) (seen : List Bool) (queue : List ℕ)
      (s t : List Bool × List ℕ)
      → Marks (e ∷ []) seen queue s
      → Marks es s.0 s.1 t
      → Marks (e ∷ es) seen queue t
  Marks-chain e es seen queue s t f g = record {
    size = omega (arith, f.size, g.size);
    work = omega (arith, f.work, g.work);
    marks = λ v. ground (arith, f.marks v, g.marks v, f.size);
    queued = λ v. ground (arith, f.marks v, g.marks v, f.queued v, g.queued v, f.size);
  }

  pub mark_arcs-Marks :
      (es : List (Arc floats.Float)) (seen : List Bool) (queue : List ℕ)
      → Marks es seen queue (mark_arcs floats arithmetic es (seen, queue))
  unfolding mark_arcs
  mark_arcs-Marks [] seen queue = record {
    size = refl;
    work = refl;
    marks = λ v. ground arith;
    queued = λ v. ground arith;
  }
  mark_arcs-Marks (e ∷ es) seen queue =
      let s = mark_arc floats arithmetic e (seen, queue) in
      Marks-chain e es seen queue s (mark_arcs floats arithmetic es s) (mark_arc-Marks e seen queue)
        (mark_arcs-Marks es s.0 s.1)
