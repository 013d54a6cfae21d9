-- ===== src/Layout/State.antt =====
-- keyberon/src/layout.rs: the states of active keys (`State`), custom events, and how a state is
-- released. The release of a custom action goes through a queue, whose push is a parameter.
use kanata.Base.{
  ℕ, Bool, true, false, not, ◌||◌, List, [], ◌∷◌, Option, none, some, KCoord, ◌==◌, coord_eq,
  if◌then◌else◌, any, bit_and, u16,
}
use kanata.Layout.OneShot.{
  OneShotRetainableState, key_code as retained_key, layer as retained_layer, retainable_eq,
}

pub data CustomEvent (T : Type 0) : Type 0 where
  no_event : CustomEvent T
  pressed released : T → CustomEvent T

-- The order is `NoEvent < Press < Release`.
abbrev pub update : {T : Type 0} → CustomEvent T → CustomEvent T → CustomEvent T
update no_event e = e
update (pressed v) (released w) = released w
update (pressed v) (pressed w) = pressed v
update (pressed v) no_event = pressed v
update (released v) e = released v

abbrev pub clear_on_next_action_flag : ℕ
clear_on_next_action_flag = 1

abbrev pub clear_on_next_release_flag : ℕ
clear_on_next_release_flag = 2

abbrev pub nkf_clear_on_next_action : ℕ → Bool
nkf_clear_on_next_action flags =
    bit_and flags clear_on_next_action_flag == clear_on_next_action_flag

abbrev pub nkf_clear_on_next_release : ℕ → Bool
nkf_clear_on_next_release flags =
    bit_and flags clear_on_next_release_flag == clear_on_next_release_flag

-- action.rs.
pub data SequenceEvent (T : Type 0) : Type 0 where
  no_op complete : SequenceEvent T
  press_key release_key tap_key : ℕ → SequenceEvent T
  delay : ℕ → SequenceEvent T
  custom_in_sequence : T → SequenceEvent T

pub data ReleasableState : Type 0 where
  releasable_key releasable_layer : ℕ → ReleasableState

pub data State (T : Type 0) : Type 0 where
  normal_key : ℕ → KCoord → ℕ → State T
  layer_modifier : ℕ → KCoord → State T
  custom : T → KCoord → State T
  fake_key : ℕ → State T
  repeating_sequence : List (SequenceEvent T) → KCoord → State T
  seq_custom_pending seq_custom_active : T → State T
  tombstone : State T
  no_op_input : KCoord → State T

module _ {T : Type 0} where
  abbrev pub keycode : State T → Option ℕ
  keycode (normal_key kc c flags) = some kc
  keycode (fake_key kc) = some kc
  keycode _ = none

  abbrev pub state_coord : State T → Option KCoord
  state_coord (normal_key kc c flags) = some c
  state_coord (layer_modifier l c) = some c
  state_coord (custom v c) = some c
  state_coord (no_op_input c) = some c
  state_coord (repeating_sequence s c) = some c
  state_coord (fake_key kc) = none
  state_coord (seq_custom_pending v) = none
  state_coord (seq_custom_active v) = none
  state_coord tombstone = none

  abbrev pub keycode_in_coords : State T → List KCoord → Option ℕ
  keycode_in_coords (normal_key kc c flags) coords =
      if any (λ k. coord_eq k c) coords then some kc else none
  keycode_in_coords _ coords = none

  abbrev pub get_layer : State T → Option ℕ
  get_layer (layer_modifier l c) = some l
  get_layer _ = none

  abbrev pub clear_on_next_release : State T → Bool
  clear_on_next_release (normal_key kc c flags) = nkf_clear_on_next_release flags
  clear_on_next_release _ = false

  -- Whether `release_state` and `seq_release` keep the state.
  abbrev pub release_state : State T → ReleasableState → Bool
  release_state (normal_key k1 c flags) (releasable_key k2) = not (k1 == k2)
  release_state (fake_key k1) (releasable_key k2) = not (k1 == k2)
  release_state (layer_modifier l1 c) (releasable_layer l2) = not (l1 == l2)
  release_state _ _ = true

  abbrev pub seq_release : State T → ℕ → Bool
  seq_release (fake_key k) kc = not (k == kc)
  seq_release _ kc = true

-- What a release changes beside the states. A release that overflows the queue panics.
pub record Releasing (T : Type 0) : Type 0 where
  pub custom_event : CustomEvent T
  pub custom_release_queue : List T
  pub overflowed : Bool

module _ {T : Type 0} (push_back : List T → T → List T × Option T) where
  abbrev queue_release : T → Releasing T → Releasing T
  queue_release v r =
      let (queue, overflow) = push_back r.custom_release_queue v in
      let lost : Bool = elim overflow [ none ↦ false | some w ↦ true ] in
      record r { custom_release_queue = queue; overflowed = r.overflowed || lost }

  abbrev release_custom : T → Releasing T → Releasing T
  release_custom v r = elim r.custom_event [
    | no_event ↦ record r { custom_event = released v }
    | pressed w ↦ queue_release v r
    | released w ↦ queue_release v r
  ]

  -- Whether the state is kept.
  unfoldable pub release : State T → KCoord → Releasing T → Bool × Releasing T
  release (normal_key kc coord flags) c r = (not (coord_eq coord c), r)
  release (layer_modifier l coord) c r = (not (coord_eq coord c), r)
  release (repeating_sequence s coord) c r = (not (coord_eq coord c), r)
  release (no_op_input coord) c r = (not (coord_eq coord c), r)
  release (custom v coord) c r = if coord_eq coord c then (false, release_custom v r) else (true, r)
  release (fake_key kc) c r = (true, r)
  release (seq_custom_pending v) c r = (true, r)
  release (seq_custom_active v) c r = (true, r)
  release tombstone c r = (true, r)

  -- `states.retain` with a test that changes what is beside.
  unfoldable pub retain :
      (State T → Releasing T → Bool × Releasing T)
      → List (State T)
      → Releasing T
      → List (State T) × Releasing T
  retain test [] r = ([], r)
  retain test (s ∷ states) r =
      let (keep, next) = test s r in
      let (kept, last) = retain test states next in ((if keep then s ∷ kept else kept), last)

  -- The test of an ordinary release.
  abbrev pub release_or_clear : KCoord → State T → Releasing T → Bool × Releasing T
  release_or_clear c s r = if clear_on_next_release s then (false, r) else release s c r

  -- The test where the key is an active one shot key, whose own states are kept.
  abbrev pub release_others :
      KCoord → List OneShotRetainableState → State T → Releasing T → Bool × Releasing T
  release_others c retained (normal_key kc coord flags) r =
      (not (coord_eq coord c) || any (λ t. retainable_eq t (retained_key coord kc)) retained, r)
  release_others c retained (layer_modifier l coord) r = (
    not (coord_eq coord c) || any (λ t. retainable_eq t (retained_layer coord (u16 l))) retained,
    r,
  )
  release_others c retained s r = release_or_clear c s r
