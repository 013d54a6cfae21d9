-- ===== src/Layout/Manager/Ends.antt =====
-- Which actions end, without a panic, in every state of the layout.
pub mod Tame
use kanata.Base.{
  ℕ, zero, suc, ◌+◌, ◌<◌, ◌≡◌, refl, arith, Bool, true, false, List, [], ◌∷◌, Option, none, some,
  KCoord, ltb, if◌then◌else◌, all,
}
use kanata.Layout.OneShot.{OneShotRetainableState}
use kanata.Layout.State.{CustomEvent, SequenceEvent, ReleasableState}
use kanata.Layout.Deques.{Deques}
use kanata.Layout.Action.{
  Action, no_op, trans, repeat, src, cancel_sequences, key_code, multiple_key_codes,
  multiple_actions, layer, default_layer, sequence, repeatable_sequence, release_state, hold_tap,
  custom, one_shot, one_shot_ignore_events_ticks, tap_dance, chords, fork, switch, HoldTapAction,
  TapDance, TapDanceConfig, lazy, eager, TimedChords, ForkConfig,
}
use kanata.Layout.Manager.{Layout}
use kanata.Layout.Manager.Run.{Run, Method, pure, or_panic, modify, ◌>>=◌}
use kanata.Layout.Manager.Run.Returns.{is_some, Returns, Returns-bind, return_rules}
use kanata.Layout.Manager.Parts.{
  other_press, note_press, note_or_retain, note_or_retain_all, act_no_op, act_key_code,
  act_multiple_key_codes,
}
use kanata.Layout.Manager.Effects.{
  act_layer, act_default_layer, act_sequence, act_repeatable_sequence, act_cancel_sequences,
  act_release_state, act_one_shot_ignore, count_custom, act_custom,
}
use kanata.Layout.Manager.Waits.{Act, act_hold_tap, start_dance, act_tap_dance, act_chords}
use kanata.Layout.Manager.Perform.{act_each, act_multiple, act_fork}
use kanata.Layout.Manager.DoAction.{dispatch, resolved, act_within, do_action}

module _ {R : Type 0} (rank : R → ℕ) where
  abbrev FirstBelow : ℕ → List R → Type 0
  FirstBelow n [] = ⊥
  FirstBelow n (r ∷ rs) = rank r < n

  abbrev DanceBelow : ℕ → List R → TapDanceConfig → Type 0
  DanceBelow n actions lazy = Unit {0}
  DanceBelow n actions eager = FirstBelow n actions

  -- What the action performs has a rank below the bound, and it is none of the actions that look
  -- something up or repeat.
  abbrev pub IsTame : {T : Type 0} → ℕ → Action R T → Type 0
  IsTame n trans = ⊥
  IsTame n repeat = ⊥
  IsTame n src = ⊥
  IsTame n (one_shot o) = ⊥
  IsTame n (switch sw) = ⊥
  IsTame n (hold_tap h) = rank h.tap < n
  IsTame n (multiple_actions rs) = all (λ r. ltb (rank r) n) rs ≡ true
  IsTame n (tap_dance td) = DanceBelow n td.actions td.config
  IsTame n (fork f) = (rank f.left < n) × (rank f.right < n)
  IsTame n no_op = Unit {0}
  IsTame n cancel_sequences = Unit {0}
  IsTame n (key_code kc) = Unit {0}
  IsTame n (multiple_key_codes kcs) = Unit {0}
  IsTame n (layer l) = Unit {0}
  IsTame n (default_layer l) = Unit {0}
  IsTame n (sequence events) = Unit {0}
  IsTame n (repeatable_sequence events) = Unit {0}
  IsTame n (release_state rs) = Unit {0}
  IsTame n (custom v) = Unit {0}
  IsTame n (one_shot_ignore_events_ticks ticks) = Unit {0}
  IsTame n (chords group) = Unit {0}

module _ {R T : Type 0} (d : Deques) where
  other_press-Returns : (c : KCoord) → Returns (other_press {R = R} {T = T} d c)
  unfolding other_press
  other_press-Returns c = search (return_rules)

  note_press-Returns : (b : Bool) (c : KCoord) → Returns (note_press {R = R} {T = T} d b c)
  unfolding note_press
  note_press-Returns b c = search (return_rules, other_press-Returns)

  note_or_retain-Returns :
      (b : Bool) (c : KCoord) (s : OneShotRetainableState)
      → Returns (note_or_retain {R = R} {T = T} d b c s)
  unfolding note_or_retain
  note_or_retain-Returns b c s = search (return_rules, other_press-Returns)

  note_or_retain_all-Returns :
      (b : Bool) (c : KCoord) (kcs : List ℕ)
      → Returns (note_or_retain_all {R = R} {T = T} d b c kcs)
  unfolding note_or_retain_all
  note_or_retain_all-Returns b c kcs = search (return_rules, other_press-Returns)

  count_custom-Returns : Returns (count_custom {R = R} {T = T} d)
  unfolding count_custom
  count_custom-Returns = record { at = λ s. refl }

module _ {R T : Type 0} (d : Deques) (deref : R → Action R T) (act : Act R T) where
  -- The actions that perform no other.
  abbrev Ends : Action R T → KCoord → ℕ → Bool → List ℕ → Type 0
  Ends action c delay b stack = Returns (dispatch d deref act action c delay b stack)

  module _ (c : KCoord) (delay : ℕ) (b : Bool) (stack : List ℕ) where
    no_op-Ends : Ends no_op c delay b stack
    unfolding dispatch act_no_op
    no_op-Ends = search (return_rules, note_press-Returns) depth 12

    key_code-Ends : (kc : ℕ) → Ends (key_code kc) c delay b stack
    unfolding dispatch act_key_code
    key_code-Ends kc = search (return_rules, note_or_retain-Returns) depth 12

    multiple_key_codes-Ends : (kcs : List ℕ) → Ends (multiple_key_codes kcs) c delay b stack
    unfolding dispatch act_multiple_key_codes
    multiple_key_codes-Ends kcs = search (return_rules, note_or_retain_all-Returns) depth 12

    layer-Ends : (l : ℕ) → Ends (layer l) c delay b stack
    unfolding dispatch act_layer
    layer-Ends l = search (return_rules, note_or_retain-Returns) depth 12

    default_layer-Ends : (l : ℕ) → Ends (default_layer l) c delay b stack
    unfolding dispatch act_default_layer
    default_layer-Ends l = search (return_rules, note_press-Returns) depth 12

    sequence-Ends : (events : List (SequenceEvent T)) → Ends (sequence events) c delay b stack
    unfolding dispatch act_sequence
    sequence-Ends events = search (return_rules, note_press-Returns) depth 12

    repeatable_sequence-Ends :
        (events : List (SequenceEvent T)) → Ends (repeatable_sequence events) c delay b stack
    unfolding dispatch act_repeatable_sequence
    repeatable_sequence-Ends events = search (return_rules, note_press-Returns) depth 12

    cancel_sequences-Ends : Ends cancel_sequences c delay b stack
    unfolding dispatch act_cancel_sequences
    cancel_sequences-Ends = search (return_rules, note_press-Returns) depth 12

    release_state-Ends : (rs : ReleasableState) → Ends (release_state rs) c delay b stack
    unfolding dispatch act_release_state
    release_state-Ends rs = search (return_rules, note_press-Returns) depth 12

    custom-Ends : (v : T) → Ends (custom v) c delay b stack
    unfolding dispatch act_custom
    custom-Ends v = search (return_rules, note_press-Returns, count_custom-Returns) depth 14

    one_shot_ignore-Ends : (ticks : ℕ) → Ends (one_shot_ignore_events_ticks ticks) c delay b stack
    unfolding dispatch act_one_shot_ignore
    one_shot_ignore-Ends ticks = search (return_rules) depth 12

    chords-Ends : (group : TimedChords R) → Ends (chords group) c delay b stack
    unfolding dispatch act_chords
    chords-Ends group = search (return_rules) depth 12
