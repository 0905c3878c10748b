-- ===== src/Projection/Store/Versions.antt =====
-- store.go: the version counter, the model that is served and the models that readers hold.
use sysml_federation.Base.{
  ℕ, ◌+◌, ◌<◌, ◌≡◌, refl, ◌∙◌, inl, inr, List, [], ◌∷◌, true, false, Bool, arith, ◌==◌,
  if◌then◌else◌, ◌⊎◌,
}
use sysml_federation.Projection.Store.Latest.{Sum-cases}
use sysml_federation.Projection.Store.{
  Model, ModelPackage, Store, alloc, assign, install, set_attribute, set_limit, reset, Step,
  attribute_call, limit_call, reset_call, subscribe_call, cancel, read, step, steps,
}

abbrev is_inr {ℓ κ} : {A : Type ℓ} {B : Type κ} → A ⊎ B → Bool
is_inr (inl a) = false
is_inr (inr b) = true

-- Whether the step gives a new version: a write that the model package does not refuse, or a reset.
abbrev is_write : {C : Type 0} (models : ModelPackage C) → Step models → Store C → Bool
is_write models (attribute_call part_id name value) s =
    is_inr (models.set_attribute (s.heap s.current) part_id name value)
is_write models (limit_call requirement_id value) s =
    is_inr (models.set_limit (s.heap s.current) requirement_id value)
is_write models reset_call s = true
is_write models subscribe_call s = false
is_write models (cancel ch) s = false
is_write models (read ch) s = false

abbrev pub writes : {C : Type 0} (models : ModelPackage C) → List (Step models) → Store C → ℕ
writes models [] s = 0
writes models (e ∷ es) s =
    (if is_write models e s then 1 else 0) + writes models es (step models e s)

-- The pointers of the store are allocated, and the model that is served has its version.
pub record IsSound {C : Type 0} (s : Store C) : Type 0 where
  pub shipped_there : s.shipped < s.allocated
  pub current_there : s.current < s.allocated
  pub numbered : (s.heap s.current).version ≡ s.version

-- So many versions further, with every model that was there as it was.
pub record IsLater {C : Type 0} (made : ℕ) (before after : Store C) : Type 0 where
  pub sound : IsSound after
  pub counted : after.version ≡ before.version + made
  pub shipped : after.shipped ≡ before.shipped
  pub more : (p : ℕ) → p < before.allocated → p < after.allocated
  pub kept : (p : ℕ) → p < before.allocated → after.heap p ≡ before.heap p

installed-IsLater :
    {C : Type 0} (m : Model C) (s : Store C)
    → IsSound s
    → IsLater 1 s (install (alloc m s) s.allocated)
unfolding install alloc assign
installed-IsLater m s k =
    let own : (s.allocated == s.allocated) ≡ true = ground arith in
    record {
      sound = record {
        shipped_there = omega (arith, k.shipped_there);
        current_there = omega arith;
        numbered = rw (own) refl;
      };
      counted = omega arith;
      shipped = refl;
      more = λ p h. omega (arith, h);
      kept = λ p h. let other : (p == s.allocated) ≡ false = ground (arith, h) in rw (other) refl;
    }

same-IsLater :
    {C : Type 0} (s : Store C) (subs : _) → IsSound s → IsLater 0 s (record s { subs = subs })
same-IsLater s subs k = record {
  sound = record {
    shipped_there = k.shipped_there;
    current_there = k.current_there;
    numbered = k.numbered;
  };
  counted = omega arith;
  shipped = refl;
  more = λ p h. h;
  kept = λ p h. refl;
}

step-IsLater :
    {C : Type 0} (models : ModelPackage C) (e : Step models) (s : Store C)
    → IsSound s
    → IsLater (if is_write models e s then 1 else 0) s (step models e s)
unfolding step set_attribute set_limit reset
step-IsLater models (attribute_call part_id name value) s k =
    elim (Sum-cases (models.set_attribute (s.heap s.current) part_id name value)) [
      | inl (r, q) ↦ rw (q, step, set_attribute) (same-IsLater s s.subs k)
      | inr (m, q) ↦ rw (q, step, set_attribute) (installed-IsLater m s k)
    ]
step-IsLater models (limit_call requirement_id value) s k =
    elim (Sum-cases (models.set_limit (s.heap s.current) requirement_id value)) [
      | inl (r, q) ↦ rw (q, step, set_limit) (same-IsLater s s.subs k)
      | inr (m, q) ↦ rw (q, step, set_limit) (installed-IsLater m s k)
    ]
step-IsLater models reset_call s k = installed-IsLater (s.heap s.shipped) s k
step-IsLater models subscribe_call s k = same-IsLater s _ k
step-IsLater models (cancel ch) s k = same-IsLater s _ k
step-IsLater models (read ch) s k = same-IsLater s _ k

-- From a store whose pointers are allocated and whose served model carries its version, every run of calls
-- ends in such a store. Its version is the one before and the number of the run's writes that were not
-- refused and of its resets. Every model that was allocated before the run, also the shipped one and any
-- that a reader holds, has its content and its version still, and the shipped pointer is the same.
pub steps-IsLater :
    {C : Type 0} (models : ModelPackage C) (es : List (Step models)) (s : Store C)
    → IsSound s
    → IsLater (writes models es s) s (steps models es s)
unfolding steps
steps-IsLater models [] s k = same-IsLater s s.subs k
steps-IsLater models (e ∷ es) s k =
    let one = step-IsLater models e s k in
    let rest = steps-IsLater models es (step models e s) one.sound in
    record {
      sound = rest.sound;
      counted = omega (arith, one.counted, rest.counted);
      shipped = rest.shipped ∙ one.shipped;
      more = λ p h. rest.more p (one.more p h);
      kept = λ p h. rest.kept p (one.more p h) ∙ one.kept p h;
    }
