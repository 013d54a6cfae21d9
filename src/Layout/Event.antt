-- ===== src/Layout/Event.antt =====
-- keyberon/src/layout.rs: the events of the key matrix and the queue's entries.
use kanata.Base.{ℕ, Bool, true, false, KCoord, coord_eq, sat_add16}

pub data Event : Type 0 where
  press release : KCoord → Event

unfoldable pub coord : Event → KCoord
coord (press c) = c
coord (release c) = c

unfoldable pub transform : Event → (ℕ → ℕ → KCoord) → Event
transform (press (i, j)) f = press (f i j)
transform (release (i, j)) f = release (f i j)

abbrev pub is_press : Event → Bool
is_press (press c) = true
is_press (release c) = false

abbrev pub is_release : Event → Bool
is_release (release c) = true
is_release (press c) = false

-- `==` on events.
abbrev pub event_eq : Event → Event → Bool
event_eq (press a) (press b) = coord_eq a b
event_eq (release a) (release b) = coord_eq a b
event_eq (press a) (release b) = false
event_eq (release a) (press b) = false

pub record Queued : Type 0 where
  pub event : Event
  pub since : ℕ

abbrev pub tick_qd : Queued → Queued
tick_qd q = record q { since = sat_add16 q.since 1 }
