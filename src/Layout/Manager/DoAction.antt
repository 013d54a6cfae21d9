-- ===== src/Layout/Manager/DoAction.antt =====
-- keyberon/src/layout.rs, `do_action`, within a bound on the depth of calls: `none` is a panic, or a
-- stack deeper than the bound. `deref` reads a reference.
use kanata.Base.{ℕ, zero, suc, not, ◌&&◌, List, KCoord, ◌==◌, coord_eq, if◌then◌else◌}
use kanata.Layout.Event.{Event, Queued}
use kanata.Layout.State.{CustomEvent}
use kanata.Layout.Deques.{Deques}
use kanata.Layout.Action.{
  Action, no_op, trans, repeat, src, cancel_sequences, key_code, multiple_key_codes,
  multiple_actions, layer, default_layer, sequence, repeatable_sequence, release_state, hold_tap,
  custom, one_shot, one_shot_ignore_events_ticks, tap_dance, chords, fork, switch,
}
use kanata.Layout.Manager.{Layout, real_key_row}
use kanata.Layout.Manager.Layers.{is_trans, resolve_coord}
use kanata.Layout.Manager.Run.{Method, pure, fail, gets, or_panic, modify, ◌>>=◌, ◌>>◌}
use kanata.Layout.Manager.Parts.{clear_states, act_no_op, act_key_code, act_multiple_key_codes}
use kanata.Layout.Manager.Effects.{
  act_layer, act_default_layer, act_sequence, act_repeatable_sequence, act_cancel_sequences,
  act_release_state, act_one_shot_ignore, act_custom,
}
use kanata.Layout.Manager.Waits.{
  Act, set_interval, act_hold_tap, act_tap_dance, act_chords, act_one_shot,
}
use kanata.Layout.Manager.Perform.{
  dequeue, send_event, act_multiple, act_src, act_repeat, act_fork, act_switch,
}

module _ {R T : Type 0} (d : Deques) (deref : R → Action R T) where
  -- The `match`. A transparent key was resolved before.
  unfoldable pub dispatch : Act R T → Act R T
  unfolding act_no_op act_key_code act_multiple_key_codes act_layer act_default_layer act_sequence
      act_repeatable_sequence act_cancel_sequences act_release_state act_one_shot_ignore act_custom
      act_hold_tap act_tap_dance act_chords act_one_shot send_event act_multiple act_src act_repeat
      act_fork act_switch fail
  dispatch act no_op c delay is_oneshot stack = act_no_op d no_op c is_oneshot
  dispatch act src c delay is_oneshot stack = act_src d deref act c delay is_oneshot
  dispatch act trans c delay is_oneshot stack = fail
  dispatch act repeat c delay is_oneshot stack = act_repeat d deref act c delay is_oneshot
  dispatch act (hold_tap h) c delay is_oneshot stack =
      act_hold_tap d deref act h c delay is_oneshot stack
  dispatch act (one_shot o) c delay is_oneshot stack =
      act_one_shot d deref act (send_event d deref act) (one_shot o) o c delay
  dispatch act (one_shot_ignore_events_ticks ticks) c delay is_oneshot stack =
      act_one_shot_ignore d (one_shot_ignore_events_ticks ticks) ticks c
  dispatch act (tap_dance td) c delay is_oneshot stack = act_tap_dance d deref act td c delay stack
  dispatch act (chords group) c delay is_oneshot stack = act_chords d deref group c delay stack
  dispatch act (key_code kc) c delay is_oneshot stack = act_key_code d (key_code kc) kc c is_oneshot
  dispatch act (multiple_key_codes v) c delay is_oneshot stack =
      act_multiple_key_codes d (multiple_key_codes v) v c is_oneshot
  dispatch act (multiple_actions v) c delay is_oneshot stack =
      act_multiple d deref act (multiple_actions v) v c delay is_oneshot stack
  dispatch act (sequence events) c delay is_oneshot stack =
      act_sequence d (sequence events) events c is_oneshot
  dispatch act (repeatable_sequence events) c delay is_oneshot stack =
      act_repeatable_sequence d (repeatable_sequence events) events c is_oneshot
  dispatch act cancel_sequences c delay is_oneshot stack =
      act_cancel_sequences d cancel_sequences c is_oneshot
  dispatch act (layer value) c delay is_oneshot stack = act_layer d value c is_oneshot
  dispatch act (default_layer value) c delay is_oneshot stack =
      act_default_layer d value c is_oneshot
  dispatch act (custom value) c delay is_oneshot stack =
      act_custom d (custom value) value c delay is_oneshot stack
  dispatch act (release_state rs) c delay is_oneshot stack =
      act_release_state d (release_state rs) rs c is_oneshot
  dispatch act (fork fcfg) c delay is_oneshot stack =
      act_fork d deref act (fork fcfg) fcfg c delay stack
  dispatch act (switch sw) c delay is_oneshot stack =
      act_switch d deref act (switch sw) sw c delay is_oneshot stack

  -- The action of a transparent key, with the layers that are left.
  unfoldable pub resolved : Action R T → KCoord → List ℕ → Method R T (Action R T × List ℕ)
  unfolding resolve_coord pure gets or_panic ◌>>=◌
  resolved action c layer_stack =
      if is_trans action
      then (do found ← gets (λ l. resolve_coord l c layer_stack); or_panic found)
      else pure (action, layer_stack)

  abbrev pub reset_interval : KCoord → Layout R T → Layout R T
  reset_interval c l =
      if not (coord_eq l.last_press_tracker.coord c) && c.0 == real_key_row
      then set_interval 0 l
      else l

  unfoldable pub act_within : Act R T → Act R T
  unfolding resolved clear_states dispatch modify
  act_within act action c delay is_oneshot layer_stack = do
    (action', rest) ← resolved action c layer_stack
    modify (reset_interval c)
    modify clear_states
    dispatch act action' c delay is_oneshot rest

  unfoldable pub do_action : ℕ → Act R T
  unfolding act_within
  do_action zero action c delay is_oneshot layer_stack = fail
  do_action (suc depth) action c delay is_oneshot layer_stack =
      act_within (do_action depth) action c delay is_oneshot layer_stack

  unfoldable pub event : ℕ → Event → Method R T (Unit {0})
  unfolding do_action send_event
  event depth e = send_event d deref (do_action depth) e

  unfoldable pub dequeued : ℕ → Queued → Method R T (CustomEvent T)
  unfolding do_action dequeue
  dequeued depth q = dequeue d deref (do_action depth) q
