-- ===== src/Projection/Examples.antt =====
-- A store over a small model package, on which the theorems are applied.
use sysml_federation.Base.{
  arith, ℕ, zero, suc, ◌≡◌, refl, ◌⊎◌, inl, inr, List, [], ◌∷◌, some, bytes,
}
use sysml_federation.Broadcast.{subscribe, notify, receive, unread_of}
use sysml_federation.Projection.Store.Latest.{seen_after, IsCurrent, subscriber-IsCurrent}
use sysml_federation.Projection.Store.Versions.{IsSound, IsLater, writes, steps-IsLater}
use sysml_federation.Projection.Store.{
  Model, ModelPackage, Store, new_store, alloc, assign, install, set_attribute, set_limit, reset,
  Step, attribute_call, limit_call, reset_call, subscribe_call, read, step, steps,
}

-- A model that holds one number, and refuses a write of zero.
abbrev write : Model ℕ → ℕ → Unit {0} ⊎ Model ℕ
write m zero = inl tt
write m (suc v) = inr (record { content = suc v; version = suc m.version })

abbrev one_number : ModelPackage ℕ
one_number = record {
  Value = ℕ;
  Refusal = Unit {0};
  Part = ℕ;
  Requirement = ℕ;
  set_attribute = λ m part name v. write m v;
  set_limit = λ m requirement v. write m v;
  part_by_id = λ content id. some content;
  requirement_by_id = λ content id. some content;
}

abbrev start : Store ℕ
start = new_store (record { content = 5; version = 1 })

-- Two writes, one of them refused, and a reset.
abbrev calls : List (Step one_number)
calls =
    attribute_call (bytes "p") (bytes "a") 7 ∷ limit_call (bytes "R") 0 ∷ read 0 ∷ reset_call ∷ []

start-IsSound : IsSound start
unfolding new_store
start-IsSound = record { shipped_there = omega arith; current_there = omega arith; numbered = refl }

steps-IsLater_example : IsLater (writes one_number calls start) start (steps one_number calls start)
steps-IsLater_example = steps-IsLater one_number calls start start-IsSound

calls_run : (steps one_number calls start).version ≡ 3
unfolding steps step set_attribute set_limit reset install alloc assign new_store
calls_run = refl

subscriber-IsCurrent_example :
    IsCurrent start.subs.made
      (seen_after one_number start.subs.made calls
        (step one_number subscribe_call start)
        start.version)
      (steps one_number calls (step one_number subscribe_call start))
subscriber-IsCurrent_example = subscriber-IsCurrent one_number calls start

-- The subscriber reads version 2 and finds version 3 behind it.
unread_run :
    unread_of 0 (steps one_number calls (step one_number subscribe_call start)).subs.channels
    ≡ some 3
unfolding steps step set_attribute set_limit reset install alloc assign new_store subscribe notify
    receive unread_of
unread_run = refl
