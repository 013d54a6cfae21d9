-- ===== src/Layout/Action.antt =====
-- keyberon/src/action.rs: the actions of keys. What the source nests in an action by a reference or
-- by value is here a reference, of any type.
use kanata.Base.{ℕ, Bool, List, Option}
use kanata.Layout.State.{SequenceEvent, ReleasableState}
use kanata.Layout.OneShot.{OneShotEndConfig}
use kanata.Layout.HoldTap.{HoldTapConfig}
use kanata.Layout.Chords.Group.{ChordsGroup}
use kanata.Switch.Actions.{Case}

pub record HoldTapAction (R : Type 0) : Type 0 where
  pub timeout : ℕ
  pub hold : R
  pub tap : R
  pub timeout_action : R
  pub config : HoldTapConfig
  pub tap_hold_interval : ℕ
  pub on_press_reset_timeout_to : Option ℕ
  pub require_prior_idle : Option ℕ

pub record OneShot (R : Type 0) : Type 0 where
  pub action : R
  pub timeout : ℕ
  pub end_config : OneShotEndConfig

pub data TapDanceConfig : Type 0 where
  lazy eager : TapDanceConfig

pub record TapDance (R : Type 0) : Type 0 where
  pub actions : List R
  pub timeout : ℕ
  pub config : TapDanceConfig

-- The cases, and what a call of each callback returns.
pub record Switch (R : Type 0) : Type 0 where
  pub cases : List (Case R)
  pub callbacks : List Bool

-- A group of chords with its timeout.
pub record TimedChords (R : Type 0) : Type 0 where
  pub group : ChordsGroup R
  pub timeout : ℕ

pub record ForkConfig (R : Type 0) : Type 0 where
  pub left : R
  pub right : R
  pub right_triggers : List ℕ

pub data Action (R T : Type 0) : Type 0 where
  no_op trans repeat src cancel_sequences : Action R T
  key_code : ℕ → Action R T
  multiple_key_codes : List ℕ → Action R T
  multiple_actions : List R → Action R T
  layer default_layer : ℕ → Action R T
  sequence repeatable_sequence : List (SequenceEvent T) → Action R T
  release_state : ReleasableState → Action R T
  hold_tap : HoldTapAction R → Action R T
  custom : T → Action R T
  one_shot : OneShot R → Action R T
  one_shot_ignore_events_ticks : ℕ → Action R T
  tap_dance : TapDance R → Action R T
  chords : TimedChords R → Action R T
  fork : ForkConfig R → Action R T
  switch : Switch R → Action R T
