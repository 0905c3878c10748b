-- ===== src/Broadcast.antt =====
-- adapter/projection/broadcast.go: the subscribers' channels, each of which holds one version. The
-- document's service has the same code in its apply and subscribe.
pub mod Channels
use sysml_federation.Base.{
  ℕ, zero, suc, ◌+◌, ◌≤◌, ◌<◌, ◌≡◌, ◌≢◌, refl, sym, ap, ◌∙◌, ◌⊎◌, inl, inr, List, [], ◌∷◌, Bool,
  true, false, Option, none, some, arith, map, ◌==◌, if◌then◌else◌, Bool-cases,
}

-- An open channel: its identity, and the version that nobody has read yet.
pub record Channel : Type 0 where
  pub id : ℕ
  pub unread : Option ℕ

-- The channels of `subs`, and how many were ever made: the next one is a new one.
pub record Subscribers : Type 0 where
  pub channels : List Channel
  pub made : ℕ

abbrev pub no_subscribers : Subscribers
no_subscribers = record { channels = []; made = 0 }

-- The registration in Subscribe.
unfoldable pub subscribe : Subscribers → Subscribers
subscribe s = record {
  channels = record { id = s.made; unread = none } ∷ s.channels;
  made = suc s.made;
}

-- What the goroutine of Subscribe does when its context ends.
unfoldable pub close_channel : ℕ → List Channel → List Channel
close_channel ch [] = []
close_channel ch (c ∷ cs) = let rest = close_channel ch cs in if c.id == ch then rest else c ∷ rest

-- notify: what a subscriber has not read is replaced.
unfoldable pub notify : ℕ → List Channel → List Channel
notify version [] = []
notify version (c ∷ cs) = record c { unread = some version } ∷ notify version cs

-- What a receive on the channel would give; none for a closed channel or one that is empty.
unfoldable pub unread_of : ℕ → List Channel → Option ℕ
unread_of ch [] = none
unread_of ch (c ∷ cs) = let rest = unread_of ch cs in if c.id == ch then c.unread else rest

-- A receive empties the channel.
unfoldable pub receive : ℕ → List Channel → List Channel
receive ch [] = []
receive ch (c ∷ cs) =
    let rest = receive ch cs in if c.id == ch then record c { unread = none } ∷ cs else c ∷ rest

unfoldable pub is_open : ℕ → List Channel → Bool
is_open ch [] = false
is_open ch (c ∷ cs) = let rest = is_open ch cs in if c.id == ch then true else rest
