-- ===== src/Layout/Chords/Handle.antt =====
-- keyberon/src/layout.rs, `handle_chord` of a waiting chord key. The pushes to the two bounded deques
-- are parameters, and so is the action that does nothing.
use kanata.Base.{
  ℕ, ◌+◌, ◌-◌, Bool, true, false, not, ◌&&◌, List, [], ◌∷◌, Option, none, some, KCoord, ltb, ◌==◌,
  if◌then◌else◌, bit_or, length, u8,
}
use kanata.Layout.Event.{Event, press, release, is_press, coord, Queued}
use kanata.Layout.HoldTap.{WaitingAction, tap, no_op, WaitingState}
use kanata.Layout.Chords.Group.{
  ChordsGroup, or_zero, expired, get_keys, get_chord, find_unambiguous, get_chord_if_unambiguous,
}
use kanata.Layout.Chords.Decompose.{QueuedAction, decompose_chord_into_action_queue}

-- The fold over the events: `ongoing` is `Ok`.
pub record Fold : Type 0 where
  pub active : ℕ
  pub ongoing : Bool
  pub handled_press_events : ℕ
  pub released_coord : Option KCoord

abbrev fold_event : Event → Option ℕ → Fold → Fold
fold_event (press c) (some chord_keys) f = record f {
  active = bit_or f.active chord_keys;
  handled_press_events = f.handled_press_events + 1;
}
fold_event (release c) (some chord_keys) f = record f { ongoing = false; released_coord = some c }
fold_event (press c) none f = record f { ongoing = false }
fold_event (release c) none f = f

module _ {A : Type 0} where
  unfoldable pub fold_active : ChordsGroup A → WaitingState → List Queued → Fold → Fold
  unfolding coord
  fold_active config w [] f = f
  fold_active config w (s ∷ queued) f =
      let next =
        if expired w s then f else fold_event s.event (get_keys config (coord s.event)) f in
      let rest = fold_active config w queued next in if next.ongoing then rest else next

-- The pushes to the queue of actions and to the queue of presses.
module _ {A Q : Type 0} (push_action : Q → QueuedAction A → Q)
    (push_pressed : List KCoord → KCoord → List KCoord) (no_op_action : A) where
  -- `self`, the queue, the queue of actions, and the decision with its action and the coordinates of
  -- the presses that it handled.
  pub record Outcome : Type 0 where
    pub state : WaitingState
    pub queue : List Queued
    pub action_queue : Q
    pub decision : Option (WaitingAction × A × List KCoord)

  -- `queued.retain(…)`, with the presses left to handle.
  unfoldable pub retain :
      ChordsGroup A → WaitingState → ℕ → List KCoord → List Queued → List Queued × List KCoord
  unfolding coord
  retain config w handled pq [] = ([], pq)
  retain config w handled pq (s ∷ queued) =
      let c = coord s.event in
      let is_chord_key : Bool = elim (get_keys config c) [ none ↦ false | some keys ↦ true ] in
      let handles = not (expired w s) && is_press s.event && is_chord_key && ltb 0 handled in
      let (kept, pressed) =
        retain config w (if handles then handled - 1 else handled)
          (if handles then push_pressed pq c else pq) queued in
      (if handles then kept else s ∷ kept, pressed)

  abbrev pub finish_chord :
      ChordsGroup A → WaitingState → Fold → List Queued → Q → KCoord → WaitingAction → A → Outcome
  finish_chord config w f queued action_queue start_chord_coord decided action =
      let (kept, pressed) =
        retain config w f.handled_press_events (push_pressed [] start_chord_coord) queued in
      record {
        state = w;
        queue = kept;
        action_queue = action_queue;
        decision = some (decided, action, pressed);
      }

  abbrev pub to_released : Fold → WaitingState → WaitingState
  to_released f w = elim f.released_coord [ none ↦ w | some c ↦ record w { coord = c } ]

  -- Chording mode ends: the chord that was pressed, or what it is broken down to. `none` is that the
  -- loop has not ended.
  unfoldable pub end_chord : ChordsGroup A → WaitingState → Fold → List Queued → Q → Option Outcome
  unfolding retain decompose_chord_into_action_queue
  end_chord config w f queued action_queue = elim (get_chord config f.active) [
    | some action ↦
        some (finish_chord config (to_released f w) f queued action_queue w.coord tap action)
    | none ↦ elim (decompose_chord_into_action_queue push_action config w queued action_queue) [
      | none ↦ none
      | some actions ↦ some (finish_chord config w f queued actions w.coord no_op no_op_action)
    ]
  ]

  -- Chording mode goes on, unless no larger chord is possible.
  unfoldable pub continue_chord : ChordsGroup A → WaitingState → Fold → List Queued → Q → Outcome
  unfolding retain find_unambiguous
  continue_chord config w f queued action_queue = elim (get_chord_if_unambiguous config f.active) [
    | none ↦ record { state = w; queue = queued; action_queue = action_queue; decision = none }
    | some action ↦ finish_chord config (to_released f w) f queued action_queue w.coord tap action
  ]

  -- Behind the fast path.
  unfoldable pub decide_chord : ChordsGroup A → WaitingState → List Queued → Q → Option Outcome
  unfolding fold_active end_chord continue_chord
  decide_chord config w queued action_queue =
      let f = fold_active config w queued (record {
        active = or_zero (get_keys config w.coord);
        ongoing = true;
        handled_press_events = 0;
        released_coord = none;
      }) in
      let ended = end_chord config w f queued action_queue in
      if f.ongoing && not (w.timeout - w.delay == 0)
      then some (continue_chord config w f queued action_queue)
      else ended

  unfoldable pub handle_chord : ChordsGroup A → WaitingState → List Queued → Q → Option Outcome
  unfolding decide_chord
  handle_chord config w queued action_queue =
      let queue_len = u8 (length queued) in
      let decided =
        decide_chord config (record w { prev_queue_len = queue_len }) queued action_queue in
      if queue_len == w.prev_queue_len && ltb 0 (w.timeout - w.delay)
      then some (record { state = w; queue = queued; action_queue = action_queue; decision = none })
      else decided
