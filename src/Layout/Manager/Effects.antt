-- ===== src/Layout/Manager/Effects.antt =====
-- keyberon/src/layout.rs, `do_action`: layers, sequences, custom actions and the release of states.
use kanata.Base.{ℕ, ◌+◌, Bool, List, [], none, some, KCoord, leb, if◌then◌else◌, min, u16}
use kanata.Layout.OneShot.{layer as retained_layer}
use kanata.Layout.State.{
  CustomEvent, no_event, pressed, SequenceEvent, ReleasableState, release_state, layer_modifier,
  custom, repeating_sequence,
}
use kanata.Layout.Deques.{Deques}
use kanata.Layout.Action.{Action}
use kanata.Layout.Manager.{Layout, SequenceState}
use kanata.Layout.Manager.Layers.{set_default_layer}
use kanata.Layout.Manager.Parts.{
  keep, release_fake_keys, track, push_state, set_repeat, note_press, note_or_retain,
}
use kanata.Layout.Manager.Run.{Method, pure, modify, ◌>>=◌, ◌>>◌}

abbrev pub start_sequence : {T : Type 0} → List (SequenceEvent T) → SequenceState T
start_sequence events = record {
  cur_event = none;
  delay = 0;
  tapped = none;
  remaining_events = events;
}

module _ {R T : Type 0} (d : Deques) where
  unfoldable pub act_layer : ℕ → KCoord → Bool → Method R T (CustomEvent T)
  unfolding note_or_retain
  act_layer value c is_oneshot = do
    modify (track c)
    modify (push_state (layer_modifier value c))
    note_or_retain d is_oneshot c (retained_layer c (u16 value))
    pure no_event

  unfoldable pub act_default_layer : ℕ → KCoord → Bool → Method R T (CustomEvent T)
  unfolding note_press
  act_default_layer value c is_oneshot = do
    modify (track c)
    modify (set_default_layer value)
    note_press d is_oneshot c
    pure no_event

  abbrev pub push_sequence : List (SequenceEvent T) → Layout R T → Layout R T
  push_sequence events l = record l {
    active_sequences = (d.push_back 4 l.active_sequences (start_sequence events)).0;
  }

  unfoldable pub act_sequence :
      Action R T → List (SequenceEvent T) → KCoord → Bool → Method R T (CustomEvent T)
  unfolding note_press
  act_sequence action events c is_oneshot = do
    modify (push_sequence events)
    note_press d is_oneshot c
    modify (set_repeat action)
    pure no_event

  unfoldable pub act_repeatable_sequence :
      Action R T → List (SequenceEvent T) → KCoord → Bool → Method R T (CustomEvent T)
  unfolding note_press
  act_repeatable_sequence action events c is_oneshot = do
    modify (push_sequence events)
    modify (push_state (repeating_sequence events c))
    note_press d is_oneshot c
    modify (set_repeat action)
    pure no_event

  unfoldable pub act_cancel_sequences : Action R T → KCoord → Bool → Method R T (CustomEvent T)
  unfolding note_press release_fake_keys
  act_cancel_sequences action c is_oneshot = do
    modify (λ l. record l { active_sequences = []; states = release_fake_keys l.states l.states })
    note_press d is_oneshot c
    modify (set_repeat action)
    pure no_event

  unfoldable pub act_release_state :
      Action R T → ReleasableState → KCoord → Bool → Method R T (CustomEvent T)
  unfolding note_press keep
  act_release_state action rs c is_oneshot = do
    modify (λ l. record l { states = keep (λ s. release_state s rs) l.states })
    note_press d is_oneshot c
    modify (set_repeat action)
    pure no_event

  unfoldable pub act_one_shot_ignore : Action R T → ℕ → KCoord → Method R T (CustomEvent T)
  unfolding pure modify ◌>>=◌
  act_one_shot_ignore action ticks c = do
    modify (track c)
    modify (set_repeat action)
    modify (λ l. record l { oneshot = record l.oneshot { ticks_to_ignore_events = ticks } })
    pure no_event

  -- `custom_activation_count` is a `u8`; what it is behind this action.
  unfoldable pub count_custom : Method R T ℕ
  count_custom s =
      let n = min (s.custom_activation_count + 1) 255 in
      some (n, record s { custom_activation_count = n })

  -- Only the first custom action of a key is done at once; another waits in the queue of actions.
  unfoldable pub act_custom :
      Action R T → T → KCoord → ℕ → Bool → List ℕ → Method R T (CustomEvent T)
  unfolding note_press count_custom
  act_custom action value c delay is_oneshot layer_stack = do
    modify (track c)
    note_press d is_oneshot c
    n ← count_custom
    modify (set_repeat action)
    if leb n 1 then (do modify (push_state (custom value c)); pure (pressed value)) else (do
      modify (λ l. record l {
        action_queue = (d.push_back 8 l.action_queue (some (c, delay, action, layer_stack))).0;
      })
      pure no_event)
