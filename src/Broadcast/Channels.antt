-- ===== src/Broadcast/Channels.antt =====
-- What the operations on the channels do to one channel, its own and the others.
use sysml_federation.Base.{
  ℕ, ◌≡◌, ◌≢◌, refl, inl, inr, List, [], ◌∷◌, true, false, none, some, arith, ◌==◌, Bool-cases,
}
use sysml_federation.Broadcast.{Channel, close_channel, notify, receive, unread_of, is_open}

pub notify-unread_of :
    (ch version : ℕ) (cs : List Channel)
    → is_open ch cs ≡ true
    → unread_of ch (notify version cs) ≡ some version
unfolding is_open unread_of notify
notify-unread_of ch version [] h = absurd (ground arith)
notify-unread_of ch version (c ∷ cs) h = elim (Bool-cases (c.id == ch)) [
  | inl e ↦ rw (e) refl
  | inr e ↦ rw (e) (notify-unread_of ch version cs (ground arith))
]

pub notify-is_open :
    (ch version : ℕ) (cs : List Channel) → is_open ch (notify version cs) ≡ is_open ch cs
unfolding is_open notify
notify-is_open ch version [] = refl
notify-is_open ch version (c ∷ cs) = rw (notify-is_open ch version cs) refl

pub close_channel-is_open : (ch : ℕ) (cs : List Channel) → is_open ch (close_channel ch cs) ≡ false
unfolding is_open close_channel
close_channel-is_open ch [] = refl
close_channel-is_open ch (c ∷ cs) = elim (Bool-cases (c.id == ch)) [
  | inl e ↦ rw (e) (close_channel-is_open ch cs)
  | inr e ↦ rw (e, is_open, e) (close_channel-is_open ch cs)
]

-- Another channel is not changed by a close or a receive.
pub close_channel-other :
    (ch other : ℕ) (cs : List Channel)
    → ch ≢ other
    → (is_open ch (close_channel other cs) ≡ is_open ch cs)
      × (unread_of ch (close_channel other cs) ≡ unread_of ch cs)
unfolding is_open unread_of close_channel
close_channel-other ch other [] h = (refl, refl)
close_channel-other ch other (c ∷ cs) h =
    let later = close_channel-other ch other cs h in
    elim (Bool-cases (c.id == other)) [
      | inl e ↦
          let differs : (c.id == ch) ≡ false = ground arith in
          (rw (e, differs) later.0, rw (e, differs) later.1)
      | inr e ↦ (rw (e, is_open, later.0) refl, rw (e, unread_of, later.1) refl)
    ]

pub receive-is_open :
    (ch other : ℕ) (cs : List Channel) → is_open ch (receive other cs) ≡ is_open ch cs
unfolding is_open receive
receive-is_open ch other [] = refl
receive-is_open ch other (c ∷ cs) = elim (Bool-cases (c.id == other)) [
  | inl e ↦ rw (e) refl
  | inr e ↦ rw (e, is_open, receive-is_open ch other cs) refl
]

pub receive-unread_of : (ch : ℕ) (cs : List Channel) → unread_of ch (receive ch cs) ≡ none
unfolding unread_of receive
receive-unread_of ch [] = refl
receive-unread_of ch (c ∷ cs) = elim (Bool-cases (c.id == ch)) [
  | inl e ↦ rw (e, unread_of, e) refl
  | inr e ↦ rw (e, unread_of, e) (receive-unread_of ch cs)
]

pub receive-other :
    (ch other : ℕ) (cs : List Channel)
    → ch ≢ other
    → unread_of ch (receive other cs) ≡ unread_of ch cs
unfolding unread_of receive
receive-other ch other [] h = refl
receive-other ch other (c ∷ cs) h = elim (Bool-cases (c.id == other)) [
  | inl e ↦ let differs : (c.id == ch) ≡ false = ground arith in rw (e, unread_of, differs) refl
  | inr e ↦ rw (e, unread_of, receive-other ch other cs h) refl
]
