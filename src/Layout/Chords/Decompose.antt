-- ===== src/Layout/Chords/Decompose.antt =====
-- keyberon/src/layout.rs, `decompose_chord_into_action_queue`. The queue of actions and its push are
-- parameters.
use kanata.Base.{
  ℕ, zero, suc, ◌+◌, ◌-◌, Bool, true, false, not, ◌&&◌, List, [], ◌∷◌, ◌++◌, Option, none, some,
  KCoord, ltb, leb, ◌==◌, coord_eq, if◌then◌else◌, bit_or, bit_and, length, take, drop, u16,
}
use kanata.Layout.Event.{Event, press, release, coord, Queued}
use kanata.Layout.HoldTap.{WaitingState}
use kanata.Layout.Chords.Group.{
  ChordsGroup, find_keys, or_zero, union, expired, get_keys, find_chord,
}

-- The keys in the order in which they were pressed, and the coordinate of an early release.
pub record Order : Type 0 where
  pub active_keys : ℕ
  pub chord_key_order : List ℕ
  pub associated_coord : KCoord
  pub going : Bool

abbrev pub order_event : Event → Option ℕ → Order → Order
order_event (press c) (some chord_keys) o = record o {
  active_keys = bit_or o.active_keys chord_keys;
  chord_key_order =
      (if bit_or o.active_keys chord_keys == o.active_keys
        then o.chord_key_order
        else o.chord_key_order ++ chord_keys ∷ []);
}
order_event (release c) (some chord_keys) o = record o { associated_coord = c; going = false }
order_event (press c) none o = record o { going = false }
order_event (release c) none o = o

module _ {A : Type 0} where
  unfoldable pub fold_order : ChordsGroup A → WaitingState → List Queued → Order → Order
  unfolding coord
  fold_order config w [] o = o
  fold_order config w (s ∷ queued) o =
      let next =
        if expired w s then o else order_event s.event (get_keys config (coord s.event)) o in
      let rest = fold_order config w queued next in if next.going then rest else next

  abbrev pub pressed_order : ChordsGroup A → WaitingState → List Queued → Order
  pressed_order config w queued =
      let starting_mask = or_zero (get_keys config w.coord) in
      fold_order config w queued (record {
        active_keys = starting_mask;
        chord_key_order = starting_mask ∷ [];
        associated_coord = w.coord;
        going = true;
      })

  -- `find_map` over the queue.
  unfoldable pub queued_coord : ChordsGroup A → KCoord → ℕ → List Queued → KCoord
  unfolding coord
  queued_coord config default mask [] = default
  queued_coord config default mask (q ∷ queued) =
      let later = queued_coord config default mask queued in
      let c = coord q.event in if bit_and (or_zero (get_keys config c)) mask == 0 then later else c

  unfoldable pub get_coord_for_chord :
      ChordsGroup A → WaitingState → List Queued → KCoord → ℕ → KCoord
  unfolding queued_coord find_keys
  get_coord_for_chord config w queued associated mask =
      if ltb 0 (bit_and (or_zero (get_keys config associated)) mask)
      then associated
      else if not (coord_eq w.coord associated)
          && ltb 0 (bit_and (or_zero (get_keys config w.coord)) mask)
      then w.coord
      else queued_coord config associated mask queued

-- A queued action with an empty layer stack: its coordinate, its delay and the action.
abbrev pub QueuedAction : Type 0 → Type 0
QueuedAction A = KCoord × ℕ × A

-- `delay + ticks` wraps, as in a release build.
abbrev pub entry_for :
    {A : Type 0} → ChordsGroup A → WaitingState → List Queued → KCoord → ℕ → A → QueuedAction A
entry_for config w queued associated mask action =
    (get_coord_for_chord config w queued associated mask, u16 (w.delay + w.ticks), action)

-- The loop over the keys `keys`: what is queued for a chord, and how, are parameters.
module _ {A E Q : Type 0} (chords : List (ℕ × A)) (entry : ℕ → A → E) (push_back : Q → E → Q)
    (keys : List ℕ) where
  abbrev pub chord_mask : ℕ → ℕ → ℕ
  chord_mask start end = union (take (end - start) (drop start keys))

  -- `while end > start`, down from `end`; the end is given back.
  unfoldable pub shrink : ℕ → ℕ → Q → Q × ℕ
  unfolding find_chord union
  shrink start zero q = (q, zero)
  shrink start (suc e) q =
      let rest = shrink start e q in
      let tried : Q × ℕ = elim (find_chord chords (chord_mask start (suc e))) [
        | none ↦ rest
        | some action ↦ (push_back q (entry (chord_mask start (suc e)) action), suc e)
      ] in
      if ltb start (suc e) then tried else (q, suc e)

  -- One round of `while start < len`.
  unfoldable pub round : ℕ → Q → Q × ℕ
  unfolding shrink
  round start q = elim (find_chord chords (chord_mask start (length keys))) [
    | none ↦ shrink start (length keys - 1) q
    | some action ↦ (push_back q (entry (chord_mask start (length keys)) action), length keys)
  ]

  unfoldable pub decompose_loop : ℕ → ℕ → Q → Option (Q)
  unfolding round
  decompose_loop zero start q = none
  decompose_loop (suc fuel) start q =
      let (queue, end) = round start q in
      let rest = decompose_loop fuel (if leb end start then start + 1 else end) queue in
      if ltb start (length keys) then rest else some q

module _ {A Q : Type 0} (push_action : Q → QueuedAction A → Q) where
  unfoldable pub decompose_chord_into_action_queue :
      ChordsGroup A → WaitingState → List Queued → Q → Option Q
  unfolding fold_order get_coord_for_chord decompose_loop
  decompose_chord_into_action_queue config w queued action_queue =
      let order = pressed_order config w queued in
      let keys = order.chord_key_order in
      decompose_loop config.chords (entry_for config w queued order.associated_coord) push_action
        keys (suc (length keys)) 0 action_queue
