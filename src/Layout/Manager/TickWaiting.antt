-- ===== src/Layout/Manager/TickWaiting.antt =====
-- keyberon/src/layout.rs, `tick_wt` of any waiting key and `process_extra_waitings`. `deref` reads a
-- reference.
use mathlib.Core.Option
use kanata.Base.{
  ℕ, suc, ◌-◌, List, [], ◌∷◌, Option, none, some, KCoord, get_elem?, length, map, sat_add16,
}
use kanata.Layout.Event.{Queued}
use kanata.Layout.HoldTap.{
  WaitingAction, hold, tap, timed_out, no_op as drop, HoldTapConfig, tick_wt as tick_hold_tap,
}
use kanata.Layout.TapDance.{tick_wt as tick_tap_dance}
use kanata.Layout.Chords.Group.{ChordsGroup}
use kanata.Layout.Chords.Handle.{Outcome, handle_chord}
use kanata.Layout.State.{CustomEvent, no_event, pressed, released}
use kanata.Layout.Deques.{Deques}
use kanata.Layout.Action.{Action, no_op, TimedChords}
use kanata.Layout.Manager.{
  Layout, Waiting, hold_tap_config, tap_dance_config, chord_config, QueuedAction,
}
use kanata.Layout.Manager.Run.{Method, pure, gets, or_panic, modify, ◌>>=◌, ◌>>◌}
use kanata.Layout.Manager.Waits.{Act}
use kanata.Layout.Manager.Events.{
  WaitingPlace, waiting_into_hold, waiting_into_timeout, waiting_into_tap,
}
use kanata.Layout.Manager.Perform.{queue_size}

abbrev pub action_queue_len : ℕ
action_queue_len = 8

-- A decision, and the presses that a chord has used up.
abbrev pub Decision : Type 0
Decision = WaitingAction × Option (List KCoord)

-- What a tick of a waiting key leaves, and what it returns.
pub record Ticked (R T : Type 0) : Type 0 where
  pub waiting : Waiting R T
  pub queue : List Queued
  pub action_queue : List (QueuedAction R T)
  pub decision : Option Decision

module _ {R T : Type 0} (d : Deques) (deref : R → Action R T) where
  abbrev pub push_chord_action :
      List (QueuedAction R T) → KCoord × ℕ × Action R T → List (QueuedAction R T)
  push_chord_action action_queue (c, delay, action) =
      (d.push_back action_queue_len action_queue (some (c, delay, action, []))).0

  -- The group with its actions.
  abbrev pub read_group : ChordsGroup R → ChordsGroup (Action R T)
  read_group group = record {
    coords = group.coords;
    chords = map (λ (keys, r). (keys, deref r)) group.chords;
  }

  abbrev pub tick_hold_tap_config :
      HoldTapConfig → Waiting R T → List Queued → List (QueuedAction R T) → Ticked R T
  tick_hold_tap_config htc w queue action_queue =
      let (ret, state) = tick_hold_tap htc w.state queue in
      record {
        waiting = record w { state = state };
        queue = queue;
        action_queue = action_queue;
        decision = Option.map (λ action. (action, none)) ret;
      }

  -- `self.tap = tds.actions[idx]`; `none` is the panic of the index.
  unfoldable pub set_tap : List R → Option ℕ → Waiting R T → Option (Waiting R T)
  set_tap actions none w = some w
  set_tap actions (some idx) w = elim (get_elem? actions idx) [
    | none ↦ none
    | some r ↦ some (record w { tap = deref r })
  ]

  abbrev pub tick_tap_dance_config :
      List R → ℕ → ℕ → Waiting R T → List Queued → List (QueuedAction R T) → Option (Ticked R T)
  tick_tap_dance_config actions timeout num_taps w queue action_queue =
      let (ret, s, queue') =
        tick_tap_dance
          (record {
            waiting = w.state;
            num_actions = length actions;
            timeout = timeout;
            num_taps = num_taps;
          })
          queue in
      Option.map
        (λ w'. record {
          waiting = w';
          queue = queue';
          action_queue = action_queue;
          decision = Option.map (λ idx. (tap, none)) ret;
        })
        (set_tap actions ret
          (record w { state = s.waiting; config = tap_dance_config actions timeout s.num_taps }))

  abbrev chord_ticked :
      Waiting R T → Outcome push_chord_action (d.push_or_refuse queue_size) no_op → Ticked R T
  chord_ticked w o = record {
    waiting = elim o.decision [
      | none ↦ record w { state = o.state }
      | some (ret, action, cpq) ↦ record w { state = o.state; tap = action }
    ];
    queue = o.queue;
    action_queue = o.action_queue;
    decision = Option.map (λ (ret, action, cpq). (ret, some cpq)) o.decision;
  }

  abbrev pub tick_chord_config :
      TimedChords R → Waiting R T → List Queued → List (QueuedAction R T) → Option (Ticked R T)
  tick_chord_config config w queue action_queue = Option.map (chord_ticked w) (
      handle_chord push_chord_action (d.push_or_refuse queue_size) no_op (read_group config.group)
        (record w.state { timeout = w.state.timeout - 1; ticks = sat_add16 w.state.ticks 1 }) queue
        action_queue)

  unfoldable pub tick_wt : Waiting R T → List Queued → List (QueuedAction R T) → Option (Ticked R T)
  unfolding tick_hold_tap tick_tap_dance handle_chord set_tap
  tick_wt w queue action_queue = elim w.config [
    | hold_tap_config htc ↦ some (tick_hold_tap_config htc w queue action_queue)
    | tap_dance_config actions timeout num_taps ↦
        tick_tap_dance_config actions timeout num_taps w queue action_queue
    | chord_config config ↦ tick_chord_config config w queue action_queue
  ]

  -- The extra waiting keys from a place on, up to the first that is decided, with its place.
  pub record Extra : Type 0 where
    pub waiting : List (Waiting R T)
    pub queue : List Queued
    pub action_queue : List (QueuedAction R T)
    pub decided : Option (ℕ × Decision)

  abbrev put_first : Waiting R T → Option Extra → Option Extra
  put_first w none = none
  put_first w (some e) = some (record e { waiting = w ∷ e.waiting })

  abbrev stop_at :
      ℕ → List (Waiting R T) → Ticked R T → Option Decision → Option Extra → Option Extra
  stop_at i ws t none later = put_first t.waiting later
  stop_at i ws t (some decision) later = some (record {
    waiting = t.waiting ∷ ws;
    queue = t.queue;
    action_queue = t.action_queue;
    decided = some (i, decision);
  })

  unfoldable pub tick_extra :
      ℕ → List (Waiting R T) → List Queued → List (QueuedAction R T) → Option Extra
  unfolding tick_wt
  tick_extra i [] queue action_queue =
      some (record { waiting = []; queue = queue; action_queue = action_queue; decided = none })
  tick_extra i (w ∷ ws) queue action_queue = elim (tick_wt w queue action_queue) [
    | none ↦ none
    | some t ↦ stop_at i ws t t.decision (tick_extra (suc i) ws t.queue t.action_queue)
  ]

  unfoldable pub drop_waiting : Method R T (CustomEvent T)
  unfolding pure modify ◌>>=◌
  drop_waiting = do modify (λ l. record l { waiting = none }); pure no_event

  -- A key that does nothing drops the waiting key also where it is an extra one.
  unfoldable pub waiting_into : Act R T → WaitingPlace → Decision → Method R T (CustomEvent T)
  unfolding drop_waiting waiting_into_hold waiting_into_timeout waiting_into_tap
  waiting_into act idx (hold, _) = waiting_into_hold act idx
  waiting_into act idx (tap, pq) = waiting_into_tap deref act pq idx
  waiting_into act idx (timed_out, _) = waiting_into_timeout act idx
  waiting_into act idx (drop, _) = drop_waiting

  unfoldable pub extra_decided : Act R T → Option (ℕ × Decision) → Method R T (CustomEvent T)
  unfolding waiting_into
  extra_decided act none = pure no_event
  extra_decided act (some (i, decision)) = waiting_into act (some i) decision

  abbrev pub put_extra : Extra → Layout R T → Layout R T
  put_extra e l = record l {
    extra_waiting = e.waiting;
    queue = e.queue;
    action_queue = e.action_queue;
  }

  unfoldable pub process_extra_waitings : Act R T → CustomEvent T → Method R T (CustomEvent T)
  unfolding tick_extra extra_decided gets or_panic
  process_extra_waitings act no_event = do
    ticked ← gets (λ l. tick_extra 0 l.extra_waiting l.queue l.action_queue)
    e ← or_panic ticked
    modify (put_extra e)
    extra_decided act e.decided
  process_extra_waitings act (pressed v) = pure (pressed v)
  process_extra_waitings act (released v) = pure (released v)
