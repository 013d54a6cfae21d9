-- ===== src/Tests/Manager.antt =====
-- The layout manager with four keys.
use kanata.Base.{
  ◌+◌, ◌++◌, ℕ, zero, suc, ◌≡◌, refl, arith, true, false, List, [], ◌∷◌, Option, none, some,
}
use kanata.Layout.Event.{press, release}
use kanata.Layout.OneShot.{OneShotState, end_on_first_press}
use kanata.Layout.State.{
  State, CustomEvent, no_event, pressed, released, normal_key, custom as custom_state, fake_key,
  seq_custom_pending, tombstone, SequenceEvent, complete, tap_key, press_key, custom_in_sequence,
  delay as pause_for,
}
use kanata.Layout.History.{History}
use kanata.Layout.Manager.Effects.{start_sequence}
use kanata.Layout.Manager.Sequences.{start_repeating}
use kanata.Layout.Manager.Sequences.Performed.{
  duration, process_ticks, with_sequence, without_sequence, effects, process_sequences-performed,
}
use kanata.Layout.Manager.Sequences.Told.{told_on_ticks, pending, process_sequence_custom-told}
use kanata.Tests.Deques.{deques}
use kanata.Layout.Action.{Action, key_code, repeat, multiple_actions, custom}
use kanata.Layout.Manager.{Layout}
use kanata.Layout.Manager.Run.{Run}
use kanata.Layout.Manager.Run.Returns.{is_some}
use kanata.Layout.Manager.Parts.{keep}
use kanata.Layout.Manager.DoAction.{do_action, dequeued}
use kanata.Layout.Manager.Inputs.{
  Input, received, taken, macros_processed, one_shots_ended, handle_all,
}
use kanata.Layout.Manager.Released.{customs_at, told, behind_release, dequeued-release}
use kanata.Layout.Manager.Repeat.{do_action-endless}
use kanata.Layout.Manager.Ends.{IsTame}
use kanata.Layout.Manager.Ends.Tame.{do_action-Returns}

-- `a`, `rpt-any`, `(multi rpt-any a)` and a custom action.
abbrev pub deref : ℕ → Action ℕ ℕ
deref zero = key_code 30
deref (suc zero) = repeat
deref (suc (suc zero)) = multiple_actions (1 ∷ 0 ∷ [])
deref (suc (suc (suc n))) = custom 7

abbrev no_history : {A : Type 0} → History A
no_history = record { events = []; ticks_since_occurrences = [] }

abbrev quiet : OneShotState
quiet = record {
  keys = [];
  released_keys = [];
  state_to_retain_on_release = [];
  other_pressed_keys = [];
  timeout = 0;
  end_config = end_on_first_press;
  release_on_next_tick = false;
  pause_input_processing_delay = 5;
  pause_input_processing_ticks = 0;
  ticks_to_ignore_events = 0;
}

abbrev keys : List (Action ℕ ℕ)
keys = deref 0 ∷ deref 1 ∷ deref 2 ∷ deref 3 ∷ []

abbrev pub start : Layout ℕ ℕ
start = record {
  src_keys = keys;
  layers = (keys ∷ []) ∷ [];
  default_layer = 0;
  states = [];
  waiting = none;
  extra_waiting = [];
  tap_dance_eager = none;
  queue = [];
  oneshot = quiet;
  keys_to_suppress_for_one_cycle = [];
  last_press_tracker = record { coord = (0, 0); tap_hold_timeout = 0 };
  active_sequences = [];
  action_queue = [];
  custom_event_release_queue = [];
  rpt_action = none;
  historical_keys = no_history;
  historical_inputs = no_history;
  historical_inputs_sans_holds_or_timeouts = no_history;
  quick_tap_hold_timeout = false;
  tap_hold_require_prior_idle = 0;
  device_history = [];
  trans_resolution_behavior_v2 = true;
  delegate_to_first_layer = false;
  pause_historical_keys_updates = false;
}

abbrev pub run : Layout ℕ ℕ → Run ℕ ℕ
run l = record { layout = l; custom_activation_count = 0 }

abbrev two_presses : List Input
two_presses =
    received (press (0, 0))
    ∷ received (press (0, 3))
    ∷ taken
    ∷ taken
    ∷ macros_processed
    ∷ one_shots_ended
    ∷ received (release (0, 0))
    ∷ []

abbrev states_of : Option (Layout ℕ ℕ) → List (State ℕ)
states_of none = []
states_of (some l) = l.states

both_are_active :
    states_of (handle_all deques deref 5 two_presses start)
    ≡ normal_key 30 (0, 0) 0 ∷ custom_state 7 (0, 3) ∷ []
unfolding handle_all
both_are_active = refl

-- Two custom actions and a key of two coordinates.
abbrev pub held : Run ℕ ℕ
held = run (record start {
  states =
      custom_state 7 (0, 3)
      ∷ normal_key 30 (0, 0) 0
      ∷ custom_state 8 (0, 3)
      ∷ normal_key 31 (0, 3) 0
      ∷ [];
})

dequeued-release_example :
    dequeued deques deref 5 (record { event = release (0, 3); since = 2 }) held
    ≡ some (
      told (customs_at (0, 3) held.layout.states),
      record held { layout = behind_release deques (0, 3) held.layout },
    )
unfolding customs_at
dequeued-release_example = dequeued-release deques deref 5 2 (0, 3) held refl (omega arith)

one_is_left : (behind_release deques (0, 3) held.layout).states ≡ normal_key 30 (0, 0) 0 ∷ []
unfolding keep
one_is_left = refl

one_is_untold : (behind_release deques (0, 3) held.layout).custom_event_release_queue ≡ 8 ∷ []
unfolding customs_at
one_is_untold = refl

-- Behind a first press of `(multi rpt-any a)`.
abbrev behind : Option (CustomEvent ℕ × Run ℕ ℕ) → Run ℕ ℕ → Run ℕ ℕ
behind none s = s
behind (some (e, s)) _ = s

abbrev pressed_once : Run ℕ ℕ
unfolding do_action
pressed_once = behind (do_action deques deref 3 (deref 2) (0, 2) 0 false [] (run start)) (run start)

returns_once :
    do_action deques deref 3 (deref 2) (0, 2) 0 false [] (run start) ≡ some (no_event, pressed_once)
unfolding do_action
returns_once = refl

do_action-endless_example :
    do_action deques deref 100 (deref 2) (0, 2) 0 false [] pressed_once ≡ none
do_action-endless_example =
    do_action-endless deques deref 1 (0 ∷ []) (0, 2) (0, 2) 0 0 false false [] [] (run start)
      pressed_once no_event 3 100 refl returns_once

-- A custom action to repeat.
abbrev after_custom : Run ℕ ℕ
after_custom = run (record start { rpt_action = some (custom 7) })

abbrev repeated : Run ℕ ℕ
unfolding do_action
repeated = behind (do_action deques deref 2 repeat (0, 1) 0 false [] after_custom) after_custom

custom_is_active : repeated.layout.states ≡ custom_state 7 (0, 1) ∷ []
unfolding do_action
custom_is_active = refl

tells_nothing :
    do_action deques deref 2 repeat (0, 1) 0 false [] after_custom ≡ some (no_event, repeated)
unfolding do_action
tells_nothing = refl

-- The actions without the repetition.
abbrev tame : ℕ → Action ℕ ℕ
tame zero = key_code 30
tame (suc zero) = custom 7
tame (suc (suc n)) = multiple_actions (n ∷ suc n ∷ [])

all_tame : (n : ℕ) → IsTame (λ k. k) n (tame n)
all_tame zero = tt
all_tame (suc zero) = tt
all_tame (suc (suc n)) = ground arith

do_action-Returns_example : is_some (do_action deques tame 4 (tame 3) (0, 1) 0 false [] held) ≡ true
do_action-Returns_example = do_action-Returns deques tame (λ k. k) 3 (0, 1) 0 false [] held all_tame

-- `(macro a 3 (cmd) b)` with a tap of a and a press of b.
abbrev events : List (SequenceEvent ℕ)
events = tap_key 30 ∷ pause_for 3 ∷ custom_in_sequence 7 ∷ press_key 48 ∷ []

process_sequences-performed_example :
    process_ticks deques
      (duration events + 1)
      (with_sequence (start_sequence (events ++ complete ∷ [])) start)
    ≡ start_repeating deques (without_sequence (effects deques events start))
process_sequences-performed_example = process_sequences-performed deques events start refl

seven_ticks : duration events ≡ 7
unfolding duration
seven_ticks = refl

b_is_left : (effects deques events start).states ≡ seq_custom_pending 7 ∷ fake_key 48 ∷ []
unfolding effects
b_is_left = refl

-- Two custom actions of macros are pending.
abbrev two_pending : Layout ℕ ℕ
two_pending = record start {
  states = fake_key 48 ∷ seq_custom_pending 7 ∷ tombstone ∷ seq_custom_pending 8 ∷ [];
}

process_sequence_custom-told_example :
    told_on_ticks 4 two_pending ≡ pressed 7 ∷ released 7 ∷ pressed 8 ∷ released 8 ∷ []
unfolding pending
process_sequence_custom-told_example = process_sequence_custom-told two_pending refl
