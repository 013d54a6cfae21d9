-- ===== src/Layout/Manager/Within/DoAction.antt =====
-- `do_action`, `event` and `dequeue` keep the coordinates of the layout within a set.
use kanata.Base.{
  ℕ, zero, suc, ◌≡◌, refl, arith, Bool, true, List, [], ◌∷◌, Option, none, some, KCoord,
}
use kanata.Layout.Event.{Event, release, Queued}
use kanata.Layout.State.{CustomEvent}
use kanata.Layout.Deques.{Deques}
use kanata.Layout.Action.{
  Action, no_op, trans, repeat, src, cancel_sequences, key_code, multiple_key_codes,
  multiple_actions, layer, default_layer, sequence, repeatable_sequence, release_state, hold_tap,
  custom, one_shot, one_shot_ignore_events_ticks, tap_dance, chords, fork, switch, HoldTapAction,
  OneShot, TapDance, TapDanceConfig, lazy, eager, TimedChords, ForkConfig, Switch,
}
use kanata.Layout.Manager.{Layout, WaitingConfig}
use kanata.Layout.Manager.Run.{Method}
use kanata.Layout.Manager.Run.Keeps.{Keeps-bind, Keeps-fail}
use kanata.Layout.Manager.Waits.{
  plain_waiting, start_dance, send_overflow, Act, act_hold_tap, act_tap_dance, act_chords,
  act_one_shot,
}
use kanata.Layout.Manager.Perform.{
  send_event, act_each, act_multiple, act_src, repeat_action, act_repeat, act_fork, act_switch,
}
use kanata.Layout.Manager.DoAction.{
  dispatch, resolved, reset_interval, act_within, do_action, event, dequeued,
}
use kanata.Layout.Manager.Within.{IsWithin, presses_in, queued_in}
use kanata.Layout.Manager.Within.Rules.{Kept, kept_rules}
use kanata.Layout.Manager.Within.Layouts.{
  clear_states-IsWithin, wait_for_hold_tap-IsWithin, start_eager-IsWithin,
}
use kanata.Layout.Manager.Within.Actions.{
  act_no_op-Kept, act_key_code-Kept, act_multiple_key_codes-Kept, act_layer-Kept,
  act_default_layer-Kept, act_sequence-Kept, act_repeatable_sequence-Kept,
  act_cancel_sequences-Kept, act_release_state-Kept, act_one_shot_ignore-Kept, act_custom-Kept,
}
use kanata.Layout.Manager.Within.Events.{ActKept, send_event-Kept, dequeue-Kept}

module _ {R T : Type 0} {P : KCoord → Bool} (d : Deques) (deref : R → Action R T) (act : Act R T)
    (kept : ActKept P act) where
  act_hold_tap-Kept :
      (h : HoldTapAction R) (c : KCoord) (delay : ℕ) (b : Bool) (stack : List ℕ)
      → P c ≡ true
      → Kept P (act_hold_tap d deref act h c delay b stack)
  unfolding act_hold_tap
  act_hold_tap-Kept h c delay b stack here =
      search (kept_rules, kept, wait_for_hold_tap-IsWithin) depth 14

  dancing-IsWithin :
      (config : WaitingConfig R) (c : KCoord) (timeout delay : ℕ) (stack : List ℕ) (l : Layout R T)
      → P c ≡ true
      → IsWithin P l
      → IsWithin P
          (record l { waiting = some (plain_waiting d deref config timeout c delay stack) })
  dancing-IsWithin config c timeout delay stack l here h = ground arith

  start_dance-Kept :
      (td : TapDance R) (c : KCoord) (delay : ℕ) (stack : List ℕ) (config : TapDanceConfig)
      → P c ≡ true
      → Kept P (start_dance d deref act td c delay stack config)
  unfolding start_dance
  start_dance-Kept td c delay stack lazy here = search (kept_rules, dancing-IsWithin) depth 14
  start_dance-Kept td c delay stack eager here =
      search (kept_rules, kept, start_eager-IsWithin) depth 14

  act_tap_dance-Kept :
      (td : TapDance R) (c : KCoord) (delay : ℕ) (stack : List ℕ)
      → P c ≡ true
      → Kept P (act_tap_dance d deref act td c delay stack)
  unfolding act_tap_dance
  act_tap_dance-Kept td c delay stack here = search (kept_rules, start_dance-Kept)

  act_chords-Kept :
      (group : TimedChords R) (c : KCoord) (delay : ℕ) (stack : List ℕ)
      → P c ≡ true
      → Kept P (act_chords d deref group c delay stack)
  unfolding act_chords
  act_chords-Kept group c delay stack here = search (kept_rules, dancing-IsWithin) depth 14

  send_overflow-Kept :
      (o : Option KCoord) → Kept P (send_overflow d deref (send_event d deref act) o)
  unfolding send_overflow
  send_overflow-Kept none = search (kept_rules)
  send_overflow-Kept (some c) = send_event-Kept d deref act kept (release c) refl

  act_one_shot-Kept :
      (action : Action R T) (o : OneShot R) (c : KCoord) (delay : ℕ)
      → P c ≡ true
      → Kept P (act_one_shot d deref act (send_event d deref act) action o c delay)
  unfolding act_one_shot
  act_one_shot-Kept action o c delay here = search (kept_rules, kept, send_overflow-Kept) depth 14

  act_each-Kept :
      (perform : R → Method R T (CustomEvent T)) (acs : List R) (e : CustomEvent T)
      → ((r : R) → Kept P (perform r))
      → Kept P (act_each d deref perform acs e)
  unfolding act_each
  act_each-Kept perform [] e h = search (kept_rules)
  act_each-Kept perform (r ∷ acs) e h = Keeps-bind _ _ (h r) (λ e'. act_each-Kept perform acs _ h)

  act_multiple-Kept :
      (action : Action R T) (acs : List R) (c : KCoord) (delay : ℕ) (b : Bool) (stack : List ℕ)
      → P c ≡ true
      → Kept P (act_multiple d deref act action acs c delay b stack)
  unfolding act_multiple
  act_multiple-Kept action acs c delay b stack here =
      search (kept_rules, act_each-Kept, kept) depth 14

  act_src-Kept :
      (c : KCoord) (delay : ℕ) (b : Bool) → P c ≡ true → Kept P (act_src d deref act c delay b)
  unfolding act_src
  act_src-Kept c delay b here = search (kept_rules, kept) depth 14

  repeat_action-Kept :
      (c : KCoord) (delay : ℕ) (b : Bool) (o : Option (Action R T))
      → P c ≡ true
      → Kept P (repeat_action d deref act c delay b o)
  unfolding repeat_action
  repeat_action-Kept c delay b none here = search (kept_rules)
  repeat_action-Kept c delay b (some ac) here = search (kept_rules, kept) depth 14

  act_repeat-Kept :
      (c : KCoord) (delay : ℕ) (b : Bool) → P c ≡ true → Kept P (act_repeat d deref act c delay b)
  unfolding act_repeat
  act_repeat-Kept c delay b here = search (kept_rules, repeat_action-Kept)

  act_fork-Kept :
      (action : Action R T) (f : ForkConfig R) (c : KCoord) (delay : ℕ) (stack : List ℕ)
      → P c ≡ true
      → Kept P (act_fork d deref act action f c delay stack)
  unfolding act_fork
  act_fork-Kept action f c delay stack here = search (kept_rules, kept) depth 14

  act_switch-Kept :
      (action : Action R T) (sw : Switch R) (c : KCoord) (delay : ℕ) (b : Bool) (stack : List ℕ)
      → P c ≡ true
      → Kept P (act_switch d deref act action sw c delay b stack)
  unfolding act_switch
  act_switch-Kept action sw c delay b stack here = search (kept_rules, act_each-Kept, kept) depth 14

  dispatch-Kept : ActKept P (dispatch d deref act)
  unfolding dispatch
  dispatch-Kept no_op c delay b stack here = act_no_op-Kept d no_op c b here
  dispatch-Kept src c delay b stack here = act_src-Kept c delay b here
  dispatch-Kept trans c delay b stack here = Keeps-fail
  dispatch-Kept repeat c delay b stack here = act_repeat-Kept c delay b here
  dispatch-Kept (hold_tap h) c delay b stack here = act_hold_tap-Kept h c delay b stack here
  dispatch-Kept (one_shot o) c delay b stack here = act_one_shot-Kept (one_shot o) o c delay here
  dispatch-Kept (one_shot_ignore_events_ticks ticks) c delay b stack here =
      act_one_shot_ignore-Kept d (one_shot_ignore_events_ticks ticks) ticks c
  dispatch-Kept (tap_dance td) c delay b stack here = act_tap_dance-Kept td c delay stack here
  dispatch-Kept (chords group) c delay b stack here = act_chords-Kept group c delay stack here
  dispatch-Kept (key_code kc) c delay b stack here = act_key_code-Kept d (key_code kc) kc c b here
  dispatch-Kept (multiple_key_codes v) c delay b stack here =
      act_multiple_key_codes-Kept d (multiple_key_codes v) v c b here
  dispatch-Kept (multiple_actions v) c delay b stack here =
      act_multiple-Kept (multiple_actions v) v c delay b stack here
  dispatch-Kept (sequence events) c delay b stack here =
      act_sequence-Kept d (sequence events) events c b
  dispatch-Kept (repeatable_sequence events) c delay b stack here =
      act_repeatable_sequence-Kept d (repeatable_sequence events) events c b here
  dispatch-Kept cancel_sequences c delay b stack here =
      act_cancel_sequences-Kept d cancel_sequences c b
  dispatch-Kept (layer value) c delay b stack here = act_layer-Kept d value c b here
  dispatch-Kept (default_layer value) c delay b stack here = act_default_layer-Kept d value c b
  dispatch-Kept (custom value) c delay b stack here =
      act_custom-Kept d (custom value) value c delay b stack here
  dispatch-Kept (release_state rs) c delay b stack here =
      act_release_state-Kept d (release_state rs) rs c b
  dispatch-Kept (fork fcfg) c delay b stack here = act_fork-Kept (fork fcfg) fcfg c delay stack here
  dispatch-Kept (switch sw) c delay b stack here =
      act_switch-Kept (switch sw) sw c delay b stack here

  resolved-Kept :
      (action : Action R T) (c : KCoord) (stack : List ℕ) → Kept P (resolved d deref action c stack)
  unfolding resolved
  resolved-Kept action c stack = search (kept_rules)

  reset_interval-IsWithin :
      (c : KCoord) (l : Layout R T) → IsWithin P l → IsWithin P (reset_interval d deref c l)
  reset_interval-IsWithin c l h = ground arith

  act_within-Kept : ActKept P (act_within d deref act)
  unfolding act_within
  act_within-Kept action c delay b stack here =
      search
        (kept_rules, resolved-Kept, reset_interval-IsWithin, clear_states-IsWithin, dispatch-Kept)
        depth 14

module _ {R T : Type 0} {P : KCoord → Bool} (d : Deques) (deref : R → Action R T) where
  pub do_action-Kept : (depth : ℕ) → ActKept P (do_action d deref depth)
  unfolding do_action
  do_action-Kept zero action c delay b stack here = Keeps-fail
  do_action-Kept (suc depth) action c delay b stack here =
      act_within-Kept d deref (do_action d deref depth) (do_action-Kept depth) action c delay b
        stack here

  pub event-Kept : (depth : ℕ) (e : Event) → presses_in P e ≡ true → Kept P (event d deref depth e)
  unfolding event
  event-Kept depth e here =
      send_event-Kept d deref (do_action d deref depth) (do_action-Kept depth) e here

  pub dequeued-Kept :
      (depth : ℕ) (q : Queued) → queued_in P q ≡ true → Kept P (dequeued d deref depth q)
  unfolding dequeued
  dequeued-Kept depth q here =
      dequeue-Kept d deref (do_action d deref depth) (do_action-Kept depth) q here
