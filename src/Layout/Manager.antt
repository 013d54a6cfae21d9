-- ===== src/Layout/Manager.antt =====
-- keyberon/src/layout.rs, `Layout`: the layout manager's state, without chords of version 2.
pub mod Layers
pub mod Run
pub mod Parts
pub mod Effects
pub mod Waits
pub mod Events
pub mod Release
pub mod Perform
pub mod DoAction
pub mod Sequences
pub mod TickWaiting
pub mod Tick
pub mod Within
pub mod Inputs
pub mod Released
pub mod Repeat
pub mod Ends
use kanata.Base.{ℕ, ◌-◌, Bool, List, [], Option, KCoord, if◌then◌else◌, ◌==◌}
use kanata.Layout.Event.{Queued}
use kanata.Layout.State.{State, SequenceEvent}
use kanata.Layout.OneShot.{OneShotState}
use kanata.Layout.HoldTap.{WaitingState, HoldTapConfig}
use kanata.Layout.History.{History}
use kanata.Layout.Action.{Action, TimedChords}

abbrev pub real_key_row : ℕ
real_key_row = 0

pub record LastPressTracker : Type 0 where
  pub coord : KCoord
  pub tap_hold_timeout : ℕ

abbrev pub tick_lpt : LastPressTracker → LastPressTracker
tick_lpt t = record t { tap_hold_timeout = t.tap_hold_timeout - 1 }

abbrev pub update_coord : KCoord → LastPressTracker → LastPressTracker
update_coord c t = if c.0 == real_key_row then record t { coord = c } else t

-- What the arms of a `WaitingConfig` hold; `WaitingState` has the fields that the decision reads.
pub data WaitingConfig (R : Type 0) : Type 0 where
  hold_tap_config : HoldTapConfig → WaitingConfig R
  tap_dance_config : List R → ℕ → ℕ → WaitingConfig R
  chord_config : TimedChords R → WaitingConfig R

pub record Waiting (R T : Type 0) : Type 0 where
  pub state : WaitingState
  pub hold : Action R T
  pub tap : Action R T
  pub timeout_action : Action R T
  pub config : WaitingConfig R
  pub layer_stack : List ℕ

pub record TapDanceEagerState (R : Type 0) : Type 0 where
  pub coord : KCoord
  pub actions : List R
  pub timeout : ℕ
  pub orig_timeout : ℕ
  pub num_taps : ℕ

pub record SequenceState (T : Type 0) : Type 0 where
  pub cur_event : Option (SequenceEvent T)
  pub delay : ℕ
  pub tapped : Option ℕ
  pub remaining_events : List (SequenceEvent T)

abbrev pub QueuedAction : Type 0 → Type 0 → Type 0
QueuedAction R T = Option (KCoord × ℕ × Action R T × List ℕ)

pub record Layout (R T : Type 0) : Type 0 where
  pub src_keys : List (Action R T)
  pub layers : List (List (List (Action R T)))
  pub default_layer : ℕ
  pub states : List (State T)
  pub waiting : Option (Waiting R T)
  pub extra_waiting : List (Waiting R T)
  pub tap_dance_eager : Option (TapDanceEagerState R)
  pub queue : List Queued
  pub oneshot : OneShotState
  pub keys_to_suppress_for_one_cycle : List ℕ
  pub last_press_tracker : LastPressTracker
  pub active_sequences : List (SequenceState T)
  pub action_queue : List (QueuedAction R T)
  pub custom_event_release_queue : List T
  pub rpt_action : Option (Action R T)
  pub historical_keys : History ℕ
  pub historical_inputs : History KCoord
  pub historical_inputs_sans_holds_or_timeouts : History KCoord
  pub quick_tap_hold_timeout : Bool
  pub tap_hold_require_prior_idle : ℕ
  pub device_history : List (Option ℕ)
  pub trans_resolution_behavior_v2 : Bool
  pub delegate_to_first_layer : Bool
  pub pause_historical_keys_updates : Bool
