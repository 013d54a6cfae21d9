-- ===== src/CustomTapHold/Hands/Agree.antt =====
-- The two functions agree on a queue of keys that were released, and neither panics.
use kanata.Base.{
  ℕ, suc, ◌≡◌, ◌≤◌, ◌<◌, zero, refl, arith, Bool, true, false, not, ◌&&◌, ◌||◌, List, [], ◌∷◌,
  Option, none, some, KCoord, get_elem?, length, Bool-cases, Option-cases, inl, inr,
}
use kanata.CustomTapHold.{is_real, released}
use kanata.CustomTapHold.Hands.{
  Hand, neutral, HandMap, position, get, Sides, same, opposite, unknown, or_rest, Result, Config,
  by_sides, is_neutral_key, when_released, opposite_hand_loop, custom_tap_hold_opposite_hand,
  opposite_hand_release_loop, custom_tap_hold_opposite_hand_release,
}
use kanata.Layout.Event.{is_press, coord, Queued}
use kanata.Layout.HoldTap.{WaitingAction}

-- Every press of a real key has its release behind it.
unfoldable pub all_released : List Queued → Bool
unfolding coord
all_released [] = true
all_released (q ∷ queued) =
    (not (is_press q.event && is_real (coord q.event)) || released (coord q.event) queued)
    && all_released queued

module _ (from_u16 : ℕ → Option ℕ) (cfg : Config) where
  when_released-by_sides : (s : Sides) → when_released from_u16 cfg s true ≡ by_sides from_u16 cfg s
  when_released-by_sides same = refl
  when_released-by_sides opposite = refl
  when_released-by_sides unknown = refl

  loops_agree :
      (h : Hand) (queued : List Queued)
      → all_released queued ≡ true
      → opposite_hand_release_loop from_u16 cfg h queued ≡ opposite_hand_loop from_u16 cfg h queued
  unfolding opposite_hand_release_loop opposite_hand_loop all_released
  loops_agree h [] p = refl
  loops_agree h (q ∷ queued) p =
      let real = is_press q.event && is_real (coord q.event) in
      elim (Bool-cases real) [
        | inr other ↦ rw other (loops_agree h queued (ground arith))
        | inl pressed ↦
            let behind : released (coord q.event) queued ≡ true = ground arith in
            let later = loops_agree h queued (ground arith) in
            elim (Option-cases (get cfg.hand_map (coord q.event).1)) [
              | inl out ↦ rw (pressed, out, behind, later)
              | inr (k, found) ↦ rw (pressed, found, behind, when_released-by_sides, later)
            ]
      ]

  -- Where every press of a real key in the queue has its release behind it,
  -- tap-hold-opposite-hand-release decides as tap-hold-opposite-hand does.
  pub release-opposite_hand :
      (queued : List Queued) (waiting : KCoord)
      → all_released queued ≡ true
      → custom_tap_hold_opposite_hand_release from_u16 cfg queued waiting
        ≡ custom_tap_hold_opposite_hand from_u16 cfg queued waiting
  unfolding custom_tap_hold_opposite_hand_release custom_tap_hold_opposite_hand
  release-opposite_hand queued waiting p = elim (Option-cases (get cfg.hand_map waiting.1)) [
    | inl out ↦ rw (custom_tap_hold_opposite_hand_release, custom_tap_hold_opposite_hand, out)
    | inr (h, found) ↦
        rw (custom_tap_hold_opposite_hand_release, custom_tap_hold_opposite_hand, found)
          (loops_agree h queued p)
  ]

position-lt : (keys : List ℕ) (j : ℕ) {i : ℕ} → position keys j ≡ some i → i < length keys
unfolding position
position-lt [] j h = cc
position-lt (k ∷ keys) j h = elim (Option-cases (position keys j)) [
  | inl out ↦ ground arith
  | inr (i, found) ↦ ground (arith, position-lt keys j found)
]

get_elem?-some {ℓ} :
    {A : Type ℓ} (xs : List A) (i : ℕ) → i < length xs → (x : A) × (get_elem? xs i ≡ some x)
get_elem?-some [] i h = absurd (omega arith)
get_elem?-some (x ∷ xs) zero h = (x, refl)
get_elem?-some (x ∷ xs) (suc i) h = get_elem?-some xs i (omega arith)

get-some : (m : HandMap) (j : ℕ) → length m.keys ≤ length m.hands → (h : Hand) × (get m j ≡ some h)
unfolding get
get-some m j enough = elim (Option-cases (position m.keys j)) [
  | inl out ↦ (neutral, rw (get, out))
  | inr (i, found) ↦
      let lt = position-lt m.keys j found in
      let (h, e) = get_elem?-some m.hands i (omega arith) in (h, rw (get, found) e)
]

-- A result that is no panic and does not skip the timeout.
abbrev pub Decides : Result → Type 0
Decides r = (a : Option WaitingAction) × (r ≡ some (a, false))

or_rest-Decides :
    (o : Option WaitingAction) (rest : Result) → Decides rest → Decides (or_rest o rest)
or_rest-Decides (some a) rest d = (some a, refl)
or_rest-Decides none rest d = d

module _ (from_u16 : ℕ → Option ℕ) (cfg : Config) where
  opposite_hand_loop-Decides :
      (h : Hand) (queued : List Queued)
      → length cfg.hand_map.keys ≤ length cfg.hand_map.hands
      → Decides (opposite_hand_loop from_u16 cfg h queued)
  unfolding opposite_hand_loop
  opposite_hand_loop-Decides h [] enough = (none, refl)
  opposite_hand_loop-Decides h (q ∷ queued) enough =
      let d = opposite_hand_loop-Decides h queued enough in
      let (k, found) = get-some cfg.hand_map (coord q.event).1 enough in
      elim (Bool-cases (is_press q.event && is_real (coord q.event))) [
        | inr other ↦ rw other d
        | inl pressed ↦ elim (Bool-cases (is_neutral_key from_u16 cfg (coord q.event).1)) [
          | inl listed ↦ rw (pressed, listed) (or_rest-Decides _ _ d)
          | inr unlisted ↦ rw (pressed, unlisted, found) (or_rest-Decides _ _ d)
        ]
      ]

  release_loop-Decides :
      (h : Hand) (queued : List Queued)
      → length cfg.hand_map.keys ≤ length cfg.hand_map.hands
      → Decides (opposite_hand_release_loop from_u16 cfg h queued)
  unfolding opposite_hand_release_loop
  release_loop-Decides h [] enough = (none, refl)
  release_loop-Decides h (q ∷ queued) enough =
      let d = release_loop-Decides h queued enough in
      let (k, found) = get-some cfg.hand_map (coord q.event).1 enough in
      elim (Bool-cases (is_press q.event && is_real (coord q.event))) [
        | inr other ↦ rw other d
        | inl pressed ↦ elim (Bool-cases (is_neutral_key from_u16 cfg (coord q.event).1)) [
          | inl listed ↦ rw (pressed, listed) (or_rest-Decides _ _ d)
          | inr unlisted ↦ rw (pressed, unlisted, found) (or_rest-Decides _ _ d)
        ]
      ]

  -- With a hand for every key of the hand map neither of the two functions panics, and neither of
  -- them skips the timeout, whatever is queued.
  pub opposite_hand-Decides :
      (queued : List Queued) (waiting : KCoord)
      → length cfg.hand_map.keys ≤ length cfg.hand_map.hands
      → Decides (custom_tap_hold_opposite_hand from_u16 cfg queued waiting)
        × Decides (custom_tap_hold_opposite_hand_release from_u16 cfg queued waiting)
  unfolding custom_tap_hold_opposite_hand custom_tap_hold_opposite_hand_release
  opposite_hand-Decides queued waiting enough =
      let (h, found) = get-some cfg.hand_map waiting.1 enough in
      let (a, d) = opposite_hand_loop-Decides h queued enough in
      let (b, e) = release_loop-Decides h queued enough in
      (
        (a, rw (custom_tap_hold_opposite_hand, found) d),
        (b, rw (custom_tap_hold_opposite_hand_release, found) e),
      )
