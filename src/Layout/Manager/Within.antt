-- ===== src/Layout/Manager/Within.antt =====
-- Where the coordinates that the layout holds come from.
pub mod Layouts
pub mod Rules
pub mod Actions
pub mod Events
pub mod Sequences
pub mod DoAction
use kanata.Base.{ℕ, ◌≡◌, Bool, true, List, Option, none, some, KCoord, all}
use kanata.Layout.Event.{Event, press, release, Queued}
use kanata.Layout.State.{State, state_coord}
use kanata.Layout.Deques.{all_of}
use kanata.Layout.Manager.{Layout, Waiting, QueuedAction}

module _ (P : KCoord → Bool) where
  -- An event can press only what its press is at.
  abbrev pub presses_in : Event → Bool
  presses_in (press c) = P c
  presses_in (release c) = true

  abbrev pub queued_in : Queued → Bool
  queued_in q = presses_in q.event

  abbrev pub state_in : {T : Type 0} → State T → Bool
  state_in s = all_of P (state_coord s)

  abbrev pub waiting_in : {R T : Type 0} → Waiting R T → Bool
  waiting_in w = P w.state.coord

  abbrev pub action_in : {R T : Type 0} → QueuedAction R T → Bool
  action_in none = true
  action_in (some a) = P a.0

  -- All keys that are active, that wait or that are yet to be pressed are at coordinates of the set.
  pub record IsWithin {R T : Type 0} (l : Layout R T) : Type 0 where
    pub states_within : all state_in l.states ≡ true
    pub queue_within : all queued_in l.queue ≡ true
    pub waiting_within : all_of waiting_in l.waiting ≡ true
    pub extra_within : all waiting_in l.extra_waiting ≡ true
    pub actions_within : all action_in l.action_queue ≡ true
