-- ===== src/CustomTapHold/Hands.antt =====
-- parser/src/cfg/custom_tap_hold.rs, tap-hold-opposite-hand and tap-hold-opposite-hand-release.
-- `none` around a result is a panic. The key codes of the platform, `OsCode::from_u16`, and the
-- neutral keys, by their numbers, are parameters.
pub mod Agree
use kanata.Base.{
  ℕ, suc, Bool, true, false, not, ◌&&◌, List, [], ◌∷◌, Option, none, some, KCoord, ◌==◌,
  if◌then◌else◌, get_elem?, any,
}
use kanata.CustomTapHold.{is_real, released, has_key}
use kanata.Layout.Event.{is_press, coord, Queued}
use kanata.Layout.HoldTap.{WaitingAction}

pub data Hand : Type 0 where
  left right neutral : Hand

pub record HandMap : Type 0 where
  pub keys : List ℕ
  pub hands : List Hand

-- `Iterator::position` of the key.
unfoldable pub position : List ℕ → ℕ → Option ℕ
position [] key_code = none
position (k ∷ keys) key_code =
    let later = position keys key_code in
    if k == key_code then some 0 else elim later [ none ↦ none | some i ↦ some (suc i) ]

-- The index panics where the hands are fewer than the keys.
unfoldable pub get : HandMap → ℕ → Option Hand
unfolding position
get m key_code = elim (position m.keys key_code) [
  | none ↦ some neutral
  | some i ↦ get_elem? m.hands i
]

pub data DecisionBehavior : Type 0 where
  tap hold ignore : DecisionBehavior

-- What a key among those pressed says: a decision, or to go on.
abbrev pub decision : DecisionBehavior → Option WaitingAction
decision tap = some WaitingAction.tap
decision hold = some WaitingAction.hold
decision ignore = none

-- The arms of the match on both hands.
pub data Sides : Type 0 where
  same opposite unknown : Sides

abbrev pub sides : Hand → Hand → Sides
sides left right = opposite
sides right left = opposite
sides left left = same
sides right right = same
sides neutral h = unknown
sides left neutral = unknown
sides right neutral = unknown

abbrev pub Result : Type 0
Result = Option (Option WaitingAction × Bool)

-- An early return, or the rest of the loop.
abbrev pub or_rest : Option WaitingAction → Result → Result
or_rest (some a) rest = some (some a, false)
or_rest none rest = rest

pub record Config : Type 0 where
  pub hand_map : HandMap
  pub same_hand : DecisionBehavior
  pub neutral_behavior : DecisionBehavior
  pub unknown_hand : DecisionBehavior
  pub neutral_keys : List ℕ

module _ (from_u16 : ℕ → Option ℕ) (cfg : Config) where
  abbrev pub is_neutral_key : ℕ → Bool
  is_neutral_key j = elim (from_u16 j) [ none ↦ false | some osc ↦ has_key cfg.neutral_keys osc ]

  abbrev pub by_sides : Sides → Option WaitingAction
  by_sides opposite = some WaitingAction.hold
  by_sides same = decision cfg.same_hand
  by_sides unknown = decision cfg.unknown_hand

  -- The loop, with the waiting key's hand.
  unfoldable pub opposite_hand_loop : Hand → List Queued → Result
  unfolding coord
  opposite_hand_loop waiting_hand [] = some (none, false)
  opposite_hand_loop waiting_hand (q ∷ queued) =
      let rest = opposite_hand_loop waiting_hand queued in
      let c = coord q.event in
      let by_hands : Result = elim (get cfg.hand_map c.1) [
        | none ↦ none
        | some pressed_hand ↦ or_rest (by_sides (sides waiting_hand pressed_hand)) rest
      ] in
      if is_press q.event && is_real c
      then (if is_neutral_key c.1 then or_rest (decision cfg.neutral_behavior) rest else by_hands)
      else rest

  unfoldable pub custom_tap_hold_opposite_hand : List Queued → KCoord → Result
  unfolding opposite_hand_loop
  custom_tap_hold_opposite_hand queued waiting = elim (get cfg.hand_map waiting.1) [
    | none ↦ none
    | some waiting_hand ↦ opposite_hand_loop waiting_hand queued
  ]

  -- A key of the same hand decides when it is pressed, any other when it is released.
  abbrev pub when_released : Sides → Bool → Option WaitingAction
  when_released same was_released = by_sides same
  when_released opposite was_released = if was_released then by_sides opposite else none
  when_released unknown was_released = if was_released then by_sides unknown else none

  unfoldable pub opposite_hand_release_loop : Hand → List Queued → Result
  unfolding coord
  opposite_hand_release_loop waiting_hand [] = some (none, false)
  opposite_hand_release_loop waiting_hand (q ∷ queued) =
      let rest = opposite_hand_release_loop waiting_hand queued in
      let c = coord q.event in
      let was_released = released c queued in
      let by_hands : Result = elim (get cfg.hand_map c.1) [
        | none ↦ none
        | some pressed_hand ↦
            or_rest (when_released (sides waiting_hand pressed_hand) was_released) rest
      ] in
      if is_press q.event && is_real c
      then (if is_neutral_key c.1
          then or_rest (if was_released then decision cfg.neutral_behavior else none) rest
          else by_hands)
      else rest

  unfoldable pub custom_tap_hold_opposite_hand_release : List Queued → KCoord → Result
  unfolding opposite_hand_release_loop
  custom_tap_hold_opposite_hand_release queued waiting = elim (get cfg.hand_map waiting.1) [
    | none ↦ none
    | some waiting_hand ↦ opposite_hand_release_loop waiting_hand queued
  ]
