-- ===== src/CustomTapHold/Except.antt =====
-- When the functions that tap on the first or on any press of a listed key let the timeout pass.
use kanata.Base.{
  ℕ, ◌≡◌, refl, arith, Bool, true, not, ◌&&◌, List, [], ◌∷◌, Option, none, KCoord, all, Bool-cases,
  inl, inr, u8, length, ◌==◌, ltb, ◌-◌, sat_add16,
}
use kanata.CustomTapHold.{custom_tap_hold_except}
use kanata.Layout.Event.{is_press, release, event_eq, Queued}
use kanata.Layout.HoldTap.{
  custom, WaitingState, reset_timeout, by_queue, find_release, by_timeout, decide, handle_hold_tap,
  tick_wt,
}
use kanata.Layout.HoldTap.Decision.{ticks_wt}

-- Neither a press nor the release of the key at `c`.
abbrev pub quiet : KCoord → Queued → Bool
quiet c q = not (is_press q.event) && not (event_eq q.event (release c))

except-skips :
    (keys : List ℕ) (c : KCoord) (queued : List Queued)
    → all (quiet c) queued ≡ true
    → custom_tap_hold_except keys queued c ≡ (none, true)
unfolding custom_tap_hold_except
except-skips keys c [] h = refl
except-skips keys c (q ∷ queued) h = ground (arith, except-skips keys c queued)

find_release-none :
    (w : WaitingState) (queued : List Queued)
    → all (quiet w.coord) queued ≡ true
    → find_release w queued ≡ none
unfolding find_release
find_release-none w [] h = refl
find_release-none w (q ∷ queued) h = ground (arith, find_release-none w queued)

decide-none :
    (keys : List ℕ) (w : WaitingState) (queued : List Queued)
    → all (quiet w.coord) queued ≡ true
    → decide (custom (custom_tap_hold_except keys)) w queued ≡ none
unfolding decide by_queue by_timeout
decide-none keys w queued h =
    ground (arith, except-skips keys w.coord queued h, find_release-none w queued h)

reset_timeout-coord :
    (o : Option ℕ) (queued : List Queued) (w : WaitingState)
    → (reset_timeout o queued w).coord ≡ w.coord
unfolding reset_timeout
reset_timeout-coord o queued w = ground arith

tick_wt-none :
    (keys : List ℕ) (w : WaitingState) (queued : List Queued)
    → all (quiet w.coord) queued ≡ true
    → ((tick_wt (custom (custom_tap_hold_except keys)) w queued).0 ≡ none)
      × ((tick_wt (custom (custom_tap_hold_except keys)) w queued).1.coord ≡ w.coord)
unfolding tick_wt handle_hold_tap
tick_wt-none keys w queued h =
    let ticked = record w { timeout = w.timeout - 1; ticks = sat_add16 w.ticks 1 } in
    let t = record (reset_timeout w.on_press_reset_timeout_to queued ticked) {
      prev_queue_len = u8 (length queued);
    } in
    let c = reset_timeout-coord w.on_press_reset_timeout_to queued ticked in
    elim (Bool-cases (u8 (length queued) == w.prev_queue_len && ltb 0 (w.timeout - 1))) [
      | inl same ↦ rw same (refl, refl)
      | inr other ↦ rw other (decide-none keys t queued (rw c h), c)
    ]

-- A tap-hold-except-keys key is never decided, not by its timeout either, while neither a press nor
-- its own release is in the queue, however many ticks pass.
ticks_wt-waits :
    (keys : List ℕ) (queues : List (List Queued)) (w : WaitingState)
    → all (all (quiet w.coord)) queues ≡ true
    → ticks_wt (custom (custom_tap_hold_except keys)) w queues ≡ none
unfolding ticks_wt
ticks_wt-waits keys [] w h = refl
ticks_wt-waits keys (queued ∷ queues) w h = elim (Bool-cases (all (quiet w.coord) queued)) [
  | inr other ↦ ground arith
  | inl now ↦
      let (e, c) = tick_wt-none keys w queued now in
      let later =
        ticks_wt-waits keys queues (tick_wt (custom (custom_tap_hold_except keys)) w queued).1
          (rw c (ground arith)) in
      rw (e, ticks_wt) later
]
