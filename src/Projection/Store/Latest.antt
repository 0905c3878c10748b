-- ===== src/Projection/Store/Latest.antt =====
-- store.go and broadcast.go: the versions that reach a subscriber.
use sysml_federation.Base.{
  ℕ, suc, ◌<◌, ◌≡◌, refl, sym, ◌∙◌, ◌⊎◌, inl, inr, List, [], ◌∷◌, true, false, Option, none, some,
  arith, ◌==◌, if◌then◌else◌, Bool-cases,
}
use sysml_federation.Broadcast.{subscribe, close_channel, receive, unread_of, is_open}
use sysml_federation.Broadcast.Channels.{
  notify-unread_of, notify-is_open, close_channel-is_open, close_channel-other, receive-is_open,
  receive-unread_of, receive-other,
}
use sysml_federation.Projection.Store.{
  Model, ModelPackage, Store, alloc, assign, install, set_attribute, set_limit, reset, Step,
  attribute_call, limit_call, reset_call, subscribe_call, cancel, read, step, steps,
}

pub Sum-cases {ℓ κ} :
    {A : Type ℓ} {B : Type κ} (x : A ⊎ B) → ((a : A) × (x ≡ inl a)) ⊎ ((b : B) × (x ≡ inr b))
Sum-cases (inl a) = inl (a, refl)
Sum-cases (inr b) = inr (b, refl)

-- The last version that the subscriber of a channel has seen, from one that it saw before: a read
-- of an empty channel waits, and shows nothing.
abbrev pub sees : {C : Type 0} {models : ModelPackage C} → ℕ → Step models → Store C → ℕ → ℕ
sees ch (read c) s seen = if c == ch then or_seen (unread_of ch s.subs.channels) else seen
  where
    or_seen : Option ℕ → ℕ
    or_seen none = seen
    or_seen (some v) = v
sees ch _ s seen = seen

abbrev pub seen_after :
    {C : Type 0} (models : ModelPackage C) → ℕ → List (Step models) → Store C → ℕ → ℕ
seen_after models ch [] s seen = seen
seen_after models ch (e ∷ es) s seen = seen_after models ch es (step models e s) (sees ch e s seen)

-- A subscriber whose channel is open has seen the store's version, or it is the one to be read.
abbrev pub IsCurrent : {C : Type 0} → ℕ → ℕ → Store C → Type 0
IsCurrent ch seen s =
    (ch < s.subs.made)
    × (is_open ch s.subs.channels ≡ true
        → (unread_of ch s.subs.channels ≡ some s.version)
          ⊎ ((unread_of ch s.subs.channels ≡ none) × (seen ≡ s.version)))

install-IsCurrent :
    {C : Type 0} (ch seen : ℕ) (s : Store C) (m : Model C)
    → IsCurrent ch seen s
    → IsCurrent ch seen (install (alloc m s) s.allocated)
unfolding install alloc assign
install-IsCurrent ch seen s m h = (
  h.0,
  λ there. inl (
      notify-unread_of ch (suc s.version) s.subs.channels
        (sym (notify-is_open ch (suc s.version) s.subs.channels) ∙ there)),
)

subscribe-IsCurrent :
    {C : Type 0} (ch seen : ℕ) (s : Store C)
    → IsCurrent ch seen s
    → IsCurrent ch seen (record s { subs = subscribe s.subs })
unfolding subscribe is_open unread_of
subscribe-IsCurrent ch seen s h =
    let differs : (s.subs.made == ch) ≡ false = ground (arith, h.0) in
    (omega (arith, h.0), rw (differs) h.1)

close_channel-IsCurrent :
    {C : Type 0} (ch seen c : ℕ) (s : Store C)
    → IsCurrent ch seen s
    → IsCurrent ch seen
        (record s { subs = record s.subs { channels = close_channel c s.subs.channels } })
close_channel-IsCurrent ch seen c s h = (
  h.0,
  λ there. elim (Bool-cases (c == ch)) [
    | inl e ↦
        let same : c ≡ ch = ground arith in
        absurd (cc (there, close_channel-is_open c s.subs.channels, same))
    | inr e ↦
        let kept = close_channel-other ch c s.subs.channels (ground arith) in
        rw kept.1 (h.1 (sym kept.0 ∙ there))
  ],
)

receive-IsCurrent :
    {C : Type 0} (models : ModelPackage C) (ch seen c : ℕ) (s : Store C)
    → IsCurrent ch seen s
    → IsCurrent ch
        (sees {models = models} ch (read c) s seen)
        (record s { subs = record s.subs { channels = receive c s.subs.channels } })
receive-IsCurrent models ch seen c s h = (
  h.0,
  λ there.
      let before = h.1 (sym (receive-is_open ch c s.subs.channels) ∙ there) in
      elim (Bool-cases (c == ch)) [
        | inl e ↦
            let same : c ≡ ch = ground arith in
            inr (
              rw same (receive-unread_of ch s.subs.channels),
              elim before [ inl u ↦ rw (e, u) refl | inr (u, v) ↦ rw (e, u) v ],
            )
        | inr e ↦ rw (e, receive-other ch c s.subs.channels (ground arith)) before
      ],
)

step-IsCurrent :
    {C : Type 0} (models : ModelPackage C) (ch seen : ℕ) (e : Step models) (s : Store C)
    → IsCurrent ch seen s
    → IsCurrent ch (sees ch e s seen) (step models e s)
unfolding step install set_attribute set_limit reset
step-IsCurrent models ch seen (attribute_call part_id name value) s h =
    elim (Sum-cases (models.set_attribute (s.heap s.current) part_id name value)) [
      | inl (r, q) ↦ rw (q, step, set_attribute) h
      | inr (m, q) ↦ rw (q, step, set_attribute) (install-IsCurrent ch seen s m h)
    ]
step-IsCurrent models ch seen (limit_call requirement_id value) s h =
    elim (Sum-cases (models.set_limit (s.heap s.current) requirement_id value)) [
      | inl (r, q) ↦ rw (q, step, set_limit) h
      | inr (m, q) ↦ rw (q, step, set_limit) (install-IsCurrent ch seen s m h)
    ]
step-IsCurrent models ch seen reset_call s h = install-IsCurrent ch seen s (s.heap s.shipped) h
step-IsCurrent models ch seen subscribe_call s h = subscribe-IsCurrent ch seen s h
step-IsCurrent models ch seen (cancel c) s h = close_channel-IsCurrent ch seen c s h
step-IsCurrent models ch seen (read c) s h = receive-IsCurrent models ch seen c s h

steps-IsCurrent :
    {C : Type 0} (models : ModelPackage C) (ch seen : ℕ) (es : List (Step models)) (s : Store C)
    → IsCurrent ch seen s
    → IsCurrent ch (seen_after models ch es s seen) (steps models es s)
unfolding steps
steps-IsCurrent models ch seen [] s h = h
steps-IsCurrent models ch seen (e ∷ es) s h =
    steps-IsCurrent models ch (sees ch e s seen) es (step models e s)
      (step-IsCurrent models ch seen e s h)

subscribed-IsCurrent :
    {C : Type 0} (models : ModelPackage C) (s : Store C)
    → IsCurrent s.subs.made s.version (step models subscribe_call s)
unfolding step subscribe is_open unread_of
subscribed-IsCurrent models s =
    let same : (s.subs.made == s.subs.made) ≡ true = ground arith in
    (omega arith, λ there. inr (rw same refl, refl))

-- No version is lost: after a subscription and any steps behind it, a subscriber whose channel is
-- still open has the store's version as the last that it saw, or the next read gives exactly it. The
-- version of the moment of the subscription counts as seen.
pub subscriber-IsCurrent :
    {C : Type 0} (models : ModelPackage C) (es : List (Step models)) (s : Store C)
    → IsCurrent s.subs.made
        (seen_after models s.subs.made es (step models subscribe_call s) s.version)
        (steps models es (step models subscribe_call s))
subscriber-IsCurrent models es s =
    steps-IsCurrent models s.subs.made s.version es (step models subscribe_call s)
      (subscribed-IsCurrent models s)
