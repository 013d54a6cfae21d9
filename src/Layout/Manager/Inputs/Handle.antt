-- ===== src/Layout/Manager/Inputs/Handle.antt =====
-- keyberon/src/layout.rs: what `tick_layout` and the caller do with keys, in any order: events are
-- received and taken from the queue, waiting hold-tap and tap-dance keys are decided, and queued actions
-- are done. Decisions of chord keys, which `Layout.Manager.TickWaiting` has, are left out.
use kanata.Base.{ℕ, Bool, false, List, [], ◌∷◌, Option, none, some, KCoord, any, coord_eq}
use kanata.Layout.Event.{Event, press, release, Queued}
use kanata.Layout.Deques.{Deques}
use kanata.Layout.Action.{Action}
use kanata.Layout.Manager.{Layout, QueuedAction}
use kanata.Layout.Manager.Events.{
  WaitingPlace, waiting_into_hold, waiting_into_timeout, waiting_into_tap,
}
use kanata.Layout.Manager.Run.{Run}
use kanata.Layout.OneShot.{tick_osh}
use kanata.Layout.Manager.Tick.{release_ended, end_one_shot}
use kanata.Layout.Manager.DoAction.{do_action, event, dequeued}
use kanata.Layout.State.{no_event}
use kanata.Layout.Manager.Sequences.{process_sequences, process_sequence_custom}

-- An event comes in, the front of the queue or of the queue of actions is taken, or a waiting key
-- becomes a hold, a timeout, or a tap that is no chord's; macros and their custom actions advance, and
-- one shot keys end.
pub data Input : Type 0 where
  received : Event → Input
  taken action_taken macros_processed : Input
  customs_processed one_shots_ended : Input
  held timed_out tapped : WaitingPlace → Input

abbrev pub pressed_coords : List Input → List KCoord
pressed_coords [] = []
pressed_coords (received (press c) ∷ inputs) = c ∷ pressed_coords inputs
pressed_coords (received (release c) ∷ inputs) = pressed_coords inputs
pressed_coords (taken ∷ inputs) = pressed_coords inputs
pressed_coords (action_taken ∷ inputs) = pressed_coords inputs
pressed_coords (macros_processed ∷ inputs) = pressed_coords inputs
pressed_coords (customs_processed ∷ inputs) = pressed_coords inputs
pressed_coords (one_shots_ended ∷ inputs) = pressed_coords inputs
pressed_coords (held idx ∷ inputs) = pressed_coords inputs
pressed_coords (timed_out idx ∷ inputs) = pressed_coords inputs
pressed_coords (tapped idx ∷ inputs) = pressed_coords inputs

abbrev pub was_pressed : List Input → KCoord → Bool
was_pressed inputs c = any (λ k. coord_eq k c) (pressed_coords inputs)

module _ {R T : Type 0} (d : Deques) (deref : R → Action R T) where
  abbrev pub layout_of : {A : Type 0} → Option (A × Run R T) → Option (Layout R T)
  layout_of none = none
  layout_of (some (a, s)) = some s.layout

  abbrev pub fresh : Layout R T → Run R T
  fresh l = record { layout = l; custom_activation_count = 0 }

  abbrev pub take_front : ℕ → List Queued → Layout R T → Option (Layout R T)
  take_front depth [] l = some l
  take_front depth (q ∷ queue_) l =
      layout_of (dequeued d deref depth q (fresh (record l { queue = queue_ })))

  abbrev pub take_action : ℕ → List (QueuedAction R T) → Layout R T → Option (Layout R T)
  take_action depth [] l = some l
  take_action depth (none ∷ actions) l = some (record l { action_queue = actions })
  take_action depth (some (c, delay, action, layer_stack) ∷ actions) l = layout_of (
      do_action d deref depth action c delay false layer_stack
        (fresh (record l { action_queue = actions })))

  unfoldable pub handle : ℕ → Input → Layout R T → Option (Layout R T)
  unfolding event dequeued do_action waiting_into_hold waiting_into_timeout waiting_into_tap
      process_sequences process_sequence_custom release_ended tick_osh
  handle depth action_taken l = take_action depth l.action_queue l
  handle depth macros_processed l = some (process_sequences d l)
  handle depth customs_processed l = some (process_sequence_custom no_event l).1
  handle depth one_shots_ended l =
      let (ended, l') = end_one_shot d deref depth l in
      layout_of (release_ended d deref depth ended (fresh l'))
  handle depth (held idx) l = layout_of (waiting_into_hold (do_action d deref depth) idx (fresh l))
  handle depth (timed_out idx) l =
      layout_of (waiting_into_timeout (do_action d deref depth) idx (fresh l))
  handle depth (tapped idx) l =
      layout_of (waiting_into_tap deref (do_action d deref depth) none idx (fresh l))
  handle depth (received e) l = layout_of (event d deref depth e (fresh l))
  handle depth taken l = take_front depth l.queue l

  unfoldable pub handle_all : ℕ → List Input → Layout R T → Option (Layout R T)
  unfolding handle
  handle_all depth [] l = some l
  handle_all depth (i ∷ inputs) l = elim (handle depth i l) [
    | none ↦ none
    | some l' ↦ handle_all depth inputs l'
  ]
