-- ===== src/Layout/Manager/Inputs.antt =====
-- Where active keys come from, over inputs in any order.
pub mod Handle
use kanata.Base.{◌≡◌, Bool, true, List, [], Option, none, some, KCoord, any, all, coord_eq}
use kanata.Layout.Event.{Event}
use kanata.Layout.Deques.{Deques}
use kanata.Layout.Action.{Action}
use kanata.Layout.Manager.{Layout}
use kanata.Layout.Manager.Events.{WaitingPlace}
use kanata.Layout.Manager.Run.{Run}
use kanata.Layout.OneShot.{tick_osh}
use kanata.Layout.Manager.Within.{IsWithin, state_in, presses_in}
use kanata.Layout.Manager.Sequences.{process_sequences, process_sequence_custom}
pub use kanata.Layout.Manager.Inputs.Handle.{
  Input, received, taken, action_taken, macros_processed, customs_processed, one_shots_ended, held,
  timed_out, tapped, pressed_coords, was_pressed, layout_of, fresh, take_front, take_action,
}
unfoldable pub use kanata.Layout.Manager.Inputs.Handle.{handle, handle_all}

abbrev input_in : (KCoord → Bool) → Input → Bool
input_in P (received e) = presses_in P e
input_in P _ = true

module _ {R T : Type 0} (P : KCoord → Bool) (d : Deques) (deref : R → Action R T) where
  abbrev LeftWithin : Option (Layout R T) → Type 0
  LeftWithin none = Unit {0}
  LeftWithin (some l) = IsWithin P l

-- A layout that holds no key.
pub record IsIdle {R T : Type 0} (l : Layout R T) : Type 0 where
  pub no_states : l.states ≡ []
  pub no_queue : l.queue ≡ []
  pub no_waiting : l.waiting ≡ none
  pub no_extra : l.extra_waiting ≡ []
  pub no_actions : l.action_queue ≡ []

abbrev pub AllPressed : {R T : Type 0} → List Input → Option (Layout R T) → Type 0
AllPressed inputs none = Unit {0}
AllPressed inputs (some l) = all (state_in (was_pressed inputs)) l.states ≡ true
