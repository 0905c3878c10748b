-- ===== src/Projection/Store.antt =====
-- adapter/projection/store.go: the model that is served, its version counter and the subscribers. Each
-- method runs under the store's lock, so a run of the store is a sequence of them.
pub mod Latest
pub mod Versions
use sysml_federation.Base.{
  ℕ, zero, suc, ◌≡◌, refl, List, [], ◌∷◌, Bool, true, false, Option, none, some, ◌⊎◌, inl, inr,
  Bytes, ◌==◌, if◌then◌else◌,
}
use sysml_federation.Broadcast.{
  Channel, Subscribers, no_subscribers, subscribe, close_channel, notify, receive, unread_of,
  is_open,
}

-- A model: what was parsed and its version.
pub record Model (Content : Type 0) : Type 0 where
  pub content : Content
  pub version : ℕ

-- The model package as the store calls it: a write gives a new model or refuses. A part and a
-- requirement are looked up in what was parsed.
pub record ModelPackage (Content : Type 0) : Type 1 where
  pub Value : Type 0
  pub Refusal : Type 0
  pub Part : Type 0
  pub Requirement : Type 0
  pub set_attribute : Model Content → Bytes → Bytes → Value → Refusal ⊎ Model Content
  pub set_limit : Model Content → Bytes → Value → Refusal ⊎ Model Content
  pub part_by_id : Content → Bytes → Option Part
  pub requirement_by_id : Content → Bytes → Option Requirement

-- A pointer to a model is a number, that of its allocation, and the heap has the models.
pub record Store (Content : Type 0) : Type 0 where
  pub heap : ℕ → Model Content
  pub allocated : ℕ
  pub shipped : ℕ
  pub current : ℕ
  pub version : ℕ
  pub subs : Subscribers

unfoldable pub new_store : {C : Type 0} → Model C → Store C
new_store m = record {
  heap = λ p. m;
  allocated = 1;
  shipped = 0;
  current = 0;
  version = m.version;
  subs = no_subscribers;
}

-- *p = m
unfoldable pub assign : {C : Type 0} → ℕ → Model C → Store C → Store C
assign p m s = record s { heap = λ q. if q == p then m else s.heap q }

-- A model in a place of its own, whose pointer is the number of those allocated before.
unfoldable pub alloc : {C : Type 0} → Model C → Store C → Store C
alloc m s = record (assign s.allocated m s) { allocated = suc s.allocated }

-- install, of the pointer to the next model
unfoldable pub install : {C : Type 0} → Store C → ℕ → Store C
install s next =
    let version = suc s.version in
    record (assign next (record (s.heap next) { version = version }) s) {
      version = version;
      current = next;
      subs = record s.subs { channels = notify version s.subs.channels };
    }

module _ {C : Type 0} (models : ModelPackage C) where
  unfoldable pub set_attribute :
      Store C → Bytes → Bytes → models.Value → models.Refusal ⊎ (Store C × Option models.Part × ℕ)
  set_attribute s part_id name value =
      elim (models.set_attribute (s.heap s.current) part_id name value) [
        | inl e ↦ inl e
        | inr next ↦
            let s' = install (alloc next s) s.allocated in
            inr (s', models.part_by_id (s'.heap s.allocated).content part_id, s.allocated)
      ]

  unfoldable pub set_limit :
      Store C → Bytes → models.Value → models.Refusal ⊎ (Store C × Option models.Requirement × ℕ)
  set_limit s requirement_id value =
      elim (models.set_limit (s.heap s.current) requirement_id value) [
        | inl e ↦ inl e
        | inr next ↦
            let s' = install (alloc next s) s.allocated in
            inr (
              s',
              models.requirement_by_id (s'.heap s.allocated).content requirement_id,
              s.allocated,
            )
      ]

-- Reset: a copy of the shipped model is installed, and the pointer to it is the result.
unfoldable pub reset : {C : Type 0} → Store C → Store C × ℕ
reset s = (install (alloc (s.heap s.shipped) s) s.allocated, s.allocated)

-- One call on the store, or a receive on a channel.
pub data Step {C : Type 0} (models : ModelPackage C) : Type 0 where
  attribute_call : Bytes → Bytes → models.Value → Step models
  limit_call : Bytes → models.Value → Step models
  reset_call : Step models
  subscribe_call : Step models
  cancel : ℕ → Step models
  read : ℕ → Step models

-- The store after the step; a refused call leaves it as it was.
unfoldable pub step : {C : Type 0} (models : ModelPackage C) → Step models → Store C → Store C
step models (attribute_call part_id name value) s =
    elim (set_attribute models s part_id name value) [ inl e ↦ s | inr (s', part, m) ↦ s' ]
step models (limit_call requirement_id value) s = elim (set_limit models s requirement_id value) [
  | inl e ↦ s
  | inr (s', part, m) ↦ s'
]
step models reset_call s = (reset s).0
step models subscribe_call s = record s { subs = subscribe s.subs }
step models (cancel ch) s = record s {
  subs = record s.subs { channels = close_channel ch s.subs.channels };
}
step models (read ch) s = record s {
  subs = record s.subs { channels = receive ch s.subs.channels };
}

unfoldable pub steps :
    {C : Type 0} (models : ModelPackage C) → List (Step models) → Store C → Store C
steps models [] s = s
steps models (e ∷ es) s = steps models es (step models e s)
