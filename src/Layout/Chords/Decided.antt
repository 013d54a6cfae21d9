-- ===== src/Layout/Chords/Decided.antt =====
-- When a chord key is decided.
use kanata.Base.{
  ◌-◌, true, false, not, ◌&&◌, List, Option, none, some, KCoord, ltb, ◌==◌, length, ◌≤◌, ◌≡◌, refl,
  arith, Option-cases, inl, inr, u8,
}
use kanata.Layout.Event.{Queued}
use kanata.Layout.HoldTap.{WaitingAction, tap, no_op, WaitingState}
use kanata.Layout.Chords.Group.{ChordsGroup, or_zero, get_keys, get_chord}
use kanata.Layout.Chords.Decompose.{QueuedAction}
use kanata.Layout.Chords.Decomposed.{decompose-Split}
use kanata.Layout.Chords.Handle.{
  Fold, fold_active, Outcome, finish_chord, end_chord, decide_chord, handle_chord,
}

module _ {A Q : Type 0} (push_action : Q → QueuedAction A → Q)
    (push_pressed : List KCoord → KCoord → List KCoord) (no_op_action : A) where
  -- An outcome with a decision.
  abbrev pub Decided : Option (Outcome push_action push_pressed no_op_action) → Type 0
  Decided r =
      (o : Outcome push_action push_pressed no_op_action) × (d : WaitingAction × A × List KCoord)
      × (r ≡ some o)
      × (o.decision ≡ some d)

  finish_chord-Decided :
      (config : ChordsGroup A) (w : WaitingState) (f : Fold) (queued : List Queued)
      (action_queue : Q) (c : KCoord) (decided : WaitingAction) (action : A)
      → Decided (
          some (
            finish_chord push_action push_pressed no_op_action config w f queued action_queue c
              decided action))
  finish_chord-Decided config w f queued action_queue c decided action = (_, _, refl, refl)

  end_chord-Decided :
      (config : ChordsGroup A) (w : WaitingState) (f : Fold) (queued : List Queued)
      (action_queue : Q)
      → Decided (end_chord push_action push_pressed no_op_action config w f queued action_queue)
  unfolding end_chord
  end_chord-Decided config w f queued action_queue =
      let (found, split, e) = decompose-Split push_action config w queued action_queue in
      elim (Option-cases (get_chord config f.active)) [
        | inr (action, hit) ↦
            rw (hit, end_chord)
              (finish_chord-Decided config _ f queued action_queue w.coord tap action)
        | inl none_hit ↦
            rw (none_hit, end_chord, e)
              (finish_chord-Decided config w f queued _ w.coord no_op no_op_action)
      ]

  decide_chord-Decided :
      (config : ChordsGroup A) (w : WaitingState) (queued : List Queued) (action_queue : Q)
      → w.timeout ≤ w.delay
      → Decided (decide_chord push_action push_pressed no_op_action config w queued action_queue)
  unfolding decide_chord
  decide_chord-Decided config w queued action_queue h =
      let f = fold_active config w queued (record {
        active = or_zero (get_keys config w.coord);
        ongoing = true;
        handled_press_events = 0;
        released_coord = none;
      }) in
      let ended : (f.ongoing && not (w.timeout - w.delay == 0)) ≡ false = ground arith in
      rw ended (end_chord-Decided config w f queued action_queue)

  -- When the timeout of a chord key is over, the key is decided, whatever is queued.
  pub handle_chord-Decided :
      (config : ChordsGroup A) (w : WaitingState) (queued : List Queued) (action_queue : Q)
      → w.timeout ≤ w.delay
      → Decided (handle_chord push_action push_pressed no_op_action config w queued action_queue)
  unfolding handle_chord
  handle_chord-Decided config w queued action_queue h =
      let queue_len = u8 (length queued) in
      let slow : (queue_len == w.prev_queue_len && ltb 0 (w.timeout - w.delay)) ≡ false =
        ground arith in
      rw slow (
        decide_chord-Decided config (record w { prev_queue_len = queue_len }) queued action_queue h)
