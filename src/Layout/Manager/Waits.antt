-- ===== src/Layout/Manager/Waits.antt =====
-- keyberon/src/layout.rs, `do_action`: the actions that wait for a decision, and one shot actions.
-- `deref` reads a reference, `act` performs an action, and `send` is `event`.
use kanata.Base.{
  ℕ, ◌+◌, ◌-◌, Bool, true, false, not, ◌&&◌, ◌||◌, List, [], ◌∷◌, Option, none, some, KCoord, ltb,
  leb, ◌==◌, coord_eq, if◌then◌else◌, any, min, get_elem?,
}
use kanata.Switch.Eval.{HistoricalEvent}
use kanata.Layout.Event.{Event, press, release, Queued}
use kanata.Layout.OneShot.{activate}
use kanata.Layout.State.{CustomEvent, no_event}
use kanata.Layout.Deques.{Deques, one_shot_deque}
use kanata.Layout.History.{iter_hevents, zip_events}
use kanata.Layout.Action.{
  Action, HoldTapAction, OneShot, TapDance, TapDanceConfig, lazy, eager, TimedChords, no_op,
}
use kanata.Layout.Manager.{
  Layout, Waiting, WaitingConfig, hold_tap_config, tap_dance_config, chord_config,
  TapDanceEagerState, real_key_row,
}
use kanata.Layout.Manager.Parts.{track, set_repeat}
use kanata.Layout.Manager.Run.{Method, pure, gets, or_panic, modify, ◌>>=◌, ◌>>◌}

abbrev pub extra_waiting_len : ℕ
extra_waiting_len = 8

-- `QueueLen::MAX`
abbrev pub queue_len_max : ℕ
queue_len_max = 255

abbrev pub abs_diff : ℕ → ℕ → ℕ
abs_diff a b = (a - b) + (b - a)

-- A queued press that is the press of the history's entry, give or take two ticks.
abbrev pub is_unresolved : HistoricalEvent KCoord → Queued → Bool
is_unresolved prior q =
    leb (abs_diff q.since prior.ticks_since_occurrence) 2
    && elim q.event [ press c ↦ c.0 == 0 && c.1 == prior.event.1 | release c ↦ false ]

abbrev pub is_prior_press : KCoord → List Queued → HistoricalEvent KCoord → Bool
is_prior_press c queue prior =
    prior.event.0 == real_key_row
    && not (coord_eq prior.event c)
    && not (any (is_unresolved prior) queue)

-- `find` and `is_some_and`.
unfoldable pub first_within :
    (HistoricalEvent KCoord → Bool) → ℕ → List (HistoricalEvent KCoord) → Bool
first_within test threshold [] = false
first_within test threshold (prior ∷ rest) =
    let later = first_within test threshold rest in
    if test prior then leb prior.ticks_since_occurrence threshold else later

-- An action, the coordinate, the delay, `is_oneshot` and the layers that are left.
abbrev pub Act : Type 0 → Type 0 → Type 0
Act R T = Action R T → KCoord → ℕ → Bool → List ℕ → Method R T (CustomEvent T)

module _ {R T : Type 0} where
  abbrev idle_threshold : HoldTapAction R → Layout R T → ℕ
  idle_threshold h l = elim h.require_prior_idle [
    | none ↦ l.tap_hold_require_prior_idle
    | some n ↦ n
  ]

  unfoldable pub is_prior_idle_tap : HoldTapAction R → KCoord → Layout R T → Bool
  unfolding first_within zip_events
  is_prior_idle_tap h c l =
      ltb 0 (idle_threshold h l)
      && first_within (is_prior_press c l.queue) (idle_threshold h l)
          (iter_hevents l.historical_inputs_sans_holds_or_timeouts)

  abbrev pub waits_for_decision : HoldTapAction R → KCoord → Layout R T → Bool
  waits_for_decision h c l =
      h.tap_hold_interval == 0
      || not (coord_eq c l.last_press_tracker.coord)
      || l.last_press_tracker.tap_hold_timeout == 0

  abbrev pub set_interval : ℕ → Layout R T → Layout R T
  set_interval ticks l = record l {
    last_press_tracker = record l.last_press_tracker { tap_hold_timeout = ticks };
  }

module _ {R T : Type 0} (d : Deques) (deref : R → Action R T) where
  abbrev pub hold_tap_waiting : HoldTapAction R → KCoord → ℕ → List ℕ → Layout R T → Waiting R T
  hold_tap_waiting h c delay_ layers l =
      let ticks_ = if l.quick_tap_hold_timeout then min delay_ (h.timeout - 1) else 0 in
      record {
        state = record {
          coord = c;
          timeout = h.timeout - ticks_;
          on_press_reset_timeout_to = h.on_press_reset_timeout_to;
          delay = delay_ - ticks_;
          ticks = ticks_;
          prev_queue_len = queue_len_max;
        };
        hold = deref h.hold;
        tap = deref h.tap;
        timeout_action = deref h.timeout_action;
        config = hold_tap_config h.config;
        layer_stack = layers;
      }

  abbrev pub start_waiting : Waiting R T → Layout R T → Layout R T
  start_waiting w l = elim l.waiting [
    | none ↦ record l { waiting = some w }
    | some _ ↦ record l { extra_waiting = (d.push_back extra_waiting_len l.extra_waiting w).0 }
  ]

  unfoldable pub wait_for_hold_tap : HoldTapAction R → KCoord → ℕ → List ℕ → Layout R T → Layout R T
  wait_for_hold_tap h c delay layer_stack l =
      set_interval h.tap_hold_interval (start_waiting (hold_tap_waiting h c delay layer_stack l) l)

  unfoldable pub act_hold_tap :
      Act R T → HoldTapAction R → KCoord → ℕ → Bool → List ℕ → Method R T (CustomEvent T)
  unfolding is_prior_idle_tap wait_for_hold_tap pure gets modify ◌>>=◌
  act_hold_tap act h c delay is_oneshot layer_stack = do
    prior_idle_tap ← gets (is_prior_idle_tap h c)
    if prior_idle_tap
        then (do
          custom ← act (deref h.tap) c delay is_oneshot layer_stack
          modify (track c)
          pure custom)
        else (do
          waits ← gets (waits_for_decision h c)
          custom ←
              (if waits
                then (do modify (wait_for_hold_tap h c delay layer_stack); pure no_event)
                else (do modify (set_interval 0); act (deref h.tap) c delay is_oneshot layer_stack))
          modify (track c)
          pure custom)

  -- `timeout` ticks for a key that waits with actions that do nothing.
  abbrev pub plain_waiting : WaitingConfig R → ℕ → KCoord → ℕ → List ℕ → Waiting R T
  plain_waiting config_ timeout_ c delay_ layers = record {
    state = record {
      coord = c;
      timeout = timeout_;
      on_press_reset_timeout_to = none;
      delay = delay_;
      ticks = 0;
      prev_queue_len = queue_len_max;
    };
    hold = no_op;
    tap = no_op;
    timeout_action = no_op;
    config = config_;
    layer_stack = layers;
  }

  abbrev pub eager_state : TapDance R → KCoord → TapDanceEagerState R
  eager_state td c = record {
    coord = c;
    actions = td.actions;
    timeout = td.timeout;
    orig_timeout = td.timeout;
    num_taps = 1;
  }

  abbrev pub start_eager : TapDance R → KCoord → Layout R T → Layout R T
  start_eager td c l = elim l.tap_dance_eager [
    | none ↦ record l { tap_dance_eager = some (eager_state td c) }
    | some tde ↦
        if coord_eq tde.coord c then l else record l { tap_dance_eager = some (eager_state td c) }
  ]

  -- The first action of an eager dance panics where there is none.
  unfoldable pub start_dance :
      Act R T → TapDance R → KCoord → ℕ → List ℕ → TapDanceConfig → Method R T (CustomEvent T)
  unfolding pure or_panic modify ◌>>=◌
  start_dance act td c delay layer_stack lazy = do
    modify (λ l. record l {
      waiting =
          some (
            plain_waiting (tap_dance_config td.actions td.timeout 1) td.timeout c delay
              layer_stack);
    })
    pure no_event
  start_dance act td c delay layer_stack eager = do
    modify (start_eager td c)
    first ← or_panic (get_elem? td.actions 0)
    act (deref first) c delay false layer_stack

  unfoldable pub act_tap_dance :
      Act R T → TapDance R → KCoord → ℕ → List ℕ → Method R T (CustomEvent T)
  unfolding start_dance
  act_tap_dance act td c delay layer_stack = do
    modify (track c)
    start_dance act td c delay layer_stack td.config

  unfoldable pub act_chords : TimedChords R → KCoord → ℕ → List ℕ → Method R T (CustomEvent T)
  unfolding pure modify ◌>>=◌
  act_chords group c delay layer_stack = do
    modify (track c)
    modify (λ l. record l {
      waiting = some (plain_waiting (chord_config group) group.timeout c delay layer_stack);
    })
    pure no_event

  unfoldable pub send_overflow :
      (Event → Method R T (Unit {0})) → Option KCoord → Method R T (Unit {0})
  unfolding pure
  send_overflow send none = pure tt
  send_overflow send (some c) = send (release c)

  -- The release of a one shot key that is one too many is sent as an event.
  unfoldable pub act_one_shot :
      Act R T
      → (Event → Method R T (Unit {0}))
      → Action R T
      → OneShot R
      → KCoord
      → ℕ
      → Method R T (CustomEvent T)
  unfolding activate send_overflow gets modify ◌>>=◌
  act_one_shot act send action o c delay = do
    modify (track c)
    custom ← act (deref o.action) c delay true []
    modify (set_repeat action)
    overflow ← gets (λ l. (activate (one_shot_deque d) l.oneshot c o.timeout o.end_config).0)
    modify (λ l. record l {
      oneshot = (activate (one_shot_deque d) l.oneshot c o.timeout o.end_config).1;
    })
    send_overflow send overflow
    pure custom
