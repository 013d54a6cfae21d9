-- ===== src/Layout/Manager/Tick.antt =====
-- keyberon/src/layout.rs, `tick_layout`, with a bound on the depth of calls of `do_action`. `deref`
-- reads a reference.
pub mod Told
pub mod Plain
pub mod Quiet
pub mod Pressed
pub mod Held
pub mod KeyPressed
pub mod Typed
pub mod Text
use kanata.Base.{
  ℕ, ◌-◌, Bool, false, List, [], ◌∷◌, Option, none, some, KCoord, ltb, if◌then◌else◌, map,
}
use kanata.Layout.Event.{release, Queued, tick_qd}
use kanata.Layout.OneShot.{is_empty, tick_osh}
use kanata.Layout.State.{CustomEvent, no_event, released, update}
use kanata.Layout.Deques.{Deques}
use kanata.Layout.History.{tick_hist}
use kanata.Layout.Action.{Action}
use kanata.Layout.Manager.{Layout, Waiting, TapDanceEagerState, tick_lpt, QueuedAction}
use kanata.Layout.Manager.Run.{
  Method, pure, gets, or_panic, modify, changing, ◌>>=◌, ◌>>◌, counting_anew,
}
use kanata.Layout.Manager.Events.{is_expired}
use kanata.Layout.Manager.DoAction.{do_action, dequeued}
use kanata.Layout.Manager.Sequences.{process_sequences, process_sequence_custom}
use kanata.Layout.Manager.TickWaiting.{
  Ticked, Decision, tick_wt, waiting_into, process_extra_waitings,
}

module _ {R : Type 0} where
  abbrev tick_tde : TapDanceEagerState R → TapDanceEagerState R
  tick_tde tde = record tde { timeout = tde.timeout - 1 }

  abbrev pub tick_eager : Option (TapDanceEagerState R) → Option (TapDanceEagerState R)
  tick_eager none = none
  tick_eager (some tde) = if is_expired (tick_tde tde) then none else some (tick_tde tde)

module _ {R T : Type 0} where
  abbrev pub tick_timers : Layout R T → Layout R T
  tick_timers l = record l {
    queue = map tick_qd l.queue;
    last_press_tracker = tick_lpt l.last_press_tracker;
    tap_dance_eager = tick_eager l.tap_dance_eager;
  }

  abbrev pub tick_histories : Layout R T → Layout R T
  tick_histories l = record l {
    historical_keys = tick_hist l.historical_keys;
    historical_inputs = tick_hist l.historical_inputs;
    historical_inputs_sans_holds_or_timeouts = tick_hist l.historical_inputs_sans_holds_or_timeouts;
  }

  abbrev pub put_ticked : Ticked R T → Layout R T → Layout R T
  put_ticked t l = record l {
    waiting = some t.waiting;
    queue = t.queue;
    action_queue = t.action_queue;
  }

module _ {R T : Type 0} (d : Deques) (deref : R → Action R T) (depth : ℕ) where
  -- The releases of one shot keys that ended.
  unfoldable pub release_all : List KCoord → CustomEvent T → Method R T (CustomEvent T)
  unfolding dequeued pure ◌>>=◌
  release_all [] custom = pure custom
  release_all (c ∷ cs) custom = do
    e ← dequeued d deref depth (record { event = release c; since = 0 })
    release_all cs (update custom e)

  unfoldable pub release_ended : Option (List KCoord) → Method R T (CustomEvent T)
  unfolding release_all
  release_ended none = pure no_event
  release_ended (some cs) = release_all cs no_event

  abbrev pub end_one_shot : Layout R T → Option (List KCoord) × Layout R T
  end_one_shot l = let (cs, oneshot_) = tick_osh l.oneshot in (cs, record l { oneshot = oneshot_ })

  unfoldable pub take_queued : List Queued → Method R T (CustomEvent T)
  unfolding modify
  take_queued [] = pure no_event
  take_queued (q ∷ queue_) = do modify (λ l. record l { queue = queue_ }); dequeued d deref depth q

  abbrev pass_tick : Layout R T → Layout R T
  pass_tick l = record l {
    oneshot = record l.oneshot {
      pause_input_processing_ticks = l.oneshot.pause_input_processing_ticks - 1;
    };
  }

  -- Where no key waits.
  unfoldable pub take_input : Layout R T → Method R T (CustomEvent T)
  unfolding take_queued
  take_input l =
      if is_empty l.extra_waiting
      then if ltb 0 l.oneshot.pause_input_processing_ticks
        then (do modify pass_tick; pure no_event)
        else take_queued l.queue
      else pure no_event

  unfoldable pub decided : Option Decision → Method R T (CustomEvent T)
  unfolding waiting_into do_action
  decided none = pure no_event
  decided (some decision) = waiting_into d deref (do_action d deref depth) none decision

  unfoldable pub tick_waiting : Option (Waiting R T) → Layout R T → Method R T (CustomEvent T)
  unfolding tick_wt decided take_input or_panic
  tick_waiting none l = take_input l
  tick_waiting (some w) l = do
    t ← or_panic (tick_wt d deref w l.queue l.action_queue)
    modify (put_ticked t)
    decided t.decision

  -- What follows the queue of actions.
  unfoldable pub tick_keys : Method R T (CustomEvent T)
  unfolding process_sequences tick_osh release_ended tick_waiting process_extra_waitings
      process_sequence_custom gets changing
  tick_keys = do
    modify tick_timers
    modify (process_sequences d)
    modify tick_histories
    ended ← changing end_one_shot
    custom ← release_ended ended
    l ← gets (λ l. l)
    e ← tick_waiting l.waiting l
    custom' ← process_extra_waitings d deref (do_action d deref depth) (update custom e)
    changing (process_sequence_custom custom')

  -- The action at the front of the queue is done alone.
  unfoldable pub take_action : List (QueuedAction R T) → Method R T (CustomEvent T)
  unfolding tick_keys do_action counting_anew
  take_action [] = tick_keys
  take_action (none ∷ actions) = do modify (λ l. record l { action_queue = actions }); tick_keys
  take_action (some (c, delay, action, layer_stack) ∷ actions) = do
    modify (λ l. record l { action_queue = actions })
    counting_anew (do_action d deref depth action c delay false layer_stack)

  -- A release of a custom action that is yet to be told comes before all else.
  unfoldable pub tell_released : List T → Method R T (CustomEvent T)
  unfolding take_action
  tell_released [] = do
    modify (λ l. record l { keys_to_suppress_for_one_cycle = [] })
    take_action (← gets (λ l. l.action_queue))
  tell_released (v ∷ vs) = do
    modify (λ l. record l { custom_event_release_queue = vs })
    pure (released v)

  unfoldable pub tick_layout : Method R T (CustomEvent T)
  unfolding tell_released
  tick_layout = do tell_released (← gets (λ l. l.custom_event_release_queue))
