-- ===== src/Layout/Manager/Perform.antt =====
-- keyberon/src/layout.rs, `event`, `dequeue`, and the actions of `do_action` that perform others.
-- `deref` reads a reference and `act` is `do_action`.
use kanata.Base.{
  ℕ, zero, suc, Bool, false, List, [], ◌∷◌, Option, none, some, KCoord, ◌==◌, if◌then◌else◌, any,
  length, get_elem?, u16,
}
use kanata.Switch.Eval.{Inputs}
use kanata.Switch.Actions.{collect}
use kanata.Layout.Event.{Event, press, release, Queued}
use kanata.Layout.State.{State, CustomEvent, no_event, update, state_coord}
use kanata.Layout.Deques.{Deques}
use kanata.Layout.History.{push_front, iter_hevents, zip_events}
use kanata.Layout.Action.{Action, ForkConfig, Switch}
use kanata.Layout.Manager.{Layout}
use kanata.Layout.Manager.Layers.{trans_resolution_layer_order}
use kanata.Layout.Manager.Run.{Method, pure, gets, or_panic, modify, ◌>>=◌, ◌>>◌}
use kanata.Layout.Manager.Parts.{keycodes, keycodes_of, track, set_repeat}
use kanata.Layout.Manager.Waits.{Act, extra_waiting_len}
use kanata.Layout.Manager.Events.{waiting_into_hold, dequeue_press}
use kanata.Layout.Manager.Release.{dequeue_release}

abbrev pub queue_size : ℕ
queue_size = 32

-- `Queued::from`.
abbrev pub queued : Event → Queued
queued e = record { event = e; since = 0 }

module _ {T : Type 0} where
  unfoldable pub coords_of : List (State T) → List KCoord
  coords_of [] = []
  coords_of (s ∷ states) =
      let rest = coords_of states in elim (state_coord s) [ none ↦ rest | some c ↦ c ∷ rest ]

module _ {R T : Type 0} (d : Deques) (deref : R → Action R T) where
  unfoldable pub dequeue : Act R T → Queued → Method R T (CustomEvent T)
  unfolding dequeue_press dequeue_release
  dequeue act q = elim q.event [
    | press c ↦ dequeue_press deref act c q.since
    | release c ↦ dequeue_release d c
  ]

  abbrev pub remember : Event → Layout R T → Layout R T
  remember (release c) l = l
  remember (press c) l = record l {
    historical_inputs = push_front d l.historical_inputs c;
    historical_inputs_sans_holds_or_timeouts =
        push_front d l.historical_inputs_sans_holds_or_timeouts c;
  }

  -- `for i in -1..EXTRA_WAITING_LEN`: from this place on, this many.
  unfoldable pub hold_all : Act R T → ℕ → ℕ → Method R T (Unit {0})
  unfolding waiting_into_hold
  hold_all act i zero = pure tt
  hold_all act i (suc n) = do waiting_into_hold act (some i); hold_all act (suc i) n

  -- A queue that is full gives up its first event: all waiting keys become holds, and the event is
  -- done at once.
  unfoldable pub overflowing : Act R T → Option Queued → Method R T (Unit {0})
  unfolding dequeue hold_all
  overflowing act none = pure tt
  overflowing act (some q) = do
    waiting_into_hold act none
    hold_all act 0 extra_waiting_len
    dequeue act q
    pure tt

  unfoldable pub send_event : Act R T → Event → Method R T (Unit {0})
  unfolding overflowing
  send_event act e = do
    modify (remember e)
    overflow ← gets (λ l. (d.push_back queue_size l.queue (queued e)).1)
    modify (λ l. record l { queue = (d.push_back queue_size l.queue (queued e)).0 })
    overflowing act overflow

  unfoldable pub event_to_front : Act R T → Event → Method R T (Unit {0})
  unfolding overflowing
  event_to_front act e = do
    modify (remember e)
    overflow ← gets (λ l. (d.push_front queue_size l.queue (queued e)).1)
    modify (λ l. record l { queue = (d.push_front queue_size l.queue (queued e)).0 })
    overflowing act overflow

  -- The actions in turn, with the event of all.
  unfoldable pub act_each :
      (R → Method R T (CustomEvent T)) → List R → CustomEvent T → Method R T (CustomEvent T)
  unfolding pure ◌>>=◌
  act_each perform [] event = pure event
  act_each perform (r ∷ acs) event = do e ← perform r; act_each perform acs (update event e)

  unfoldable pub act_multiple :
      Act R T → Action R T → List R → KCoord → ℕ → Bool → List ℕ → Method R T (CustomEvent T)
  unfolding act_each modify
  act_multiple act action acs c delay is_oneshot layer_stack = do
    modify (track c)
    event ← act_each (λ r. act (deref r) c delay is_oneshot layer_stack) acs no_event
    modify (set_repeat action)
    pure event

  -- The event of the source's key is dropped.
  unfoldable pub act_src : Act R T → KCoord → ℕ → Bool → Method R T (CustomEvent T)
  unfolding pure gets or_panic ◌>>=◌
  act_src act c delay is_oneshot = do
    found ← gets (λ l. get_elem? l.src_keys c.1)
    action ← or_panic found
    act action c delay is_oneshot []
    pure no_event

  unfoldable pub repeat_action :
      Act R T → KCoord → ℕ → Bool → Option (Action R T) → Method R T (CustomEvent T)
  unfolding pure ◌>>=◌
  repeat_action act c delay is_oneshot none = pure no_event
  repeat_action act c delay is_oneshot (some ac) = do act ac c delay is_oneshot []; pure no_event

  -- So is that of the action that is repeated.
  unfoldable pub act_repeat : Act R T → KCoord → ℕ → Bool → Method R T (CustomEvent T)
  unfolding repeat_action gets
  act_repeat act c delay is_oneshot = do
    repeat_action act c delay is_oneshot (← gets (λ l. l.rpt_action))

  abbrev is_right : ForkConfig R → Layout R T → Bool
  is_right fcfg l = any (λ kc. any (λ k. k == kc) fcfg.right_triggers) (keycodes l)

  unfoldable pub act_fork :
      Act R T → Action R T → ForkConfig R → KCoord → ℕ → List ℕ → Method R T (CustomEvent T)
  unfolding pure gets modify ◌>>=◌ keycodes_of
  act_fork act action fcfg c delay layer_stack = do
    right ← gets (is_right fcfg)
    ret ← act (if right then deref fcfg.right else deref fcfg.left) c delay false layer_stack
    modify (set_repeat action)
    pure ret

  abbrev inputs : List ℕ → Switch R → Layout R T → Inputs
  inputs layers_ sw l = record {
    key_codes = keycodes l;
    inputs = coords_of l.states;
    historical_keys = iter_hevents l.historical_keys;
    historical_inputs = iter_hevents l.historical_inputs;
    layers = layers_;
    default_layer = u16 l.default_layer;
    device_history = l.device_history;
    callbacks = sw.callbacks;
  }

  -- The local queue of eight actions.
  unfoldable pub push_actions : List R → List R → List R
  push_actions [] queue = queue
  push_actions (r ∷ rs) queue = push_actions rs (d.push_back 8 queue r).0

  unfoldable pub act_switch :
      Act R T → Action R T → Switch R → KCoord → ℕ → Bool → List ℕ → Method R T (CustomEvent T)
  unfolding act_each push_actions coords_of zip_events keycodes_of trans_resolution_layer_order gets
      or_panic modify collect
  act_switch act action sw c delay is_oneshot layer_stack = do
    order ← gets trans_resolution_layer_order
    layers ← or_panic order
    selected ← gets (λ l.
        collect (suc (length sw.cases)) (inputs layers sw l)
          (record { cases = sw.cases; case_index = 0 }))
    actions ← or_panic selected
    event ←
        act_each (λ r. act (deref r) c delay is_oneshot layer_stack) (push_actions actions [])
          no_event
    modify (set_repeat action)
    pure event
