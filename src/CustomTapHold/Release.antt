-- ===== src/CustomTapHold/Release.antt =====
-- How the functions that wait for a release relate to one another and to permissive hold.
use kanata.Base.{◌≡◌, refl, arith, List, [], ◌∷◌, Option-cases, inl, inr}
use kanata.CustomTapHold.{custom_tap_hold_release}
use kanata.Layout.Event.{Queued}
use kanata.Layout.HoldTap.{
  custom, permissive_hold, WaitingState, by_queue, decide, handle_hold_tap, tick_wt,
}
use kanata.Layout.HoldTap.Decision.{ticks_wt}

release-permissive_hold :
    (queued : List Queued) (w : WaitingState)
    → custom_tap_hold_release [] queued w.coord ≡ by_queue permissive_hold w queued
unfolding custom_tap_hold_release by_queue
release-permissive_hold [] w = refl
release-permissive_hold (q ∷ queued) w = ground (arith, release-permissive_hold queued w)

decide-permissive_hold :
    (w : WaitingState) (queued : List Queued)
    → decide (custom (custom_tap_hold_release [])) w queued ≡ decide permissive_hold w queued
unfolding decide
decide-permissive_hold w queued =
    let e : by_queue (custom (custom_tap_hold_release [])) w queued
        ≡ by_queue permissive_hold w queued =
      (unfold by_queue in release-permissive_hold queued w) in
    rw e

tick_wt-permissive_hold :
    (w : WaitingState) (queued : List Queued)
    → tick_wt (custom (custom_tap_hold_release [])) w queued ≡ tick_wt permissive_hold w queued
unfolding tick_wt handle_hold_tap
tick_wt-permissive_hold w queued = rw decide-permissive_hold

-- With an empty list of keys, a tap-hold-release-keys key is a permissive hold: over any ticks, with
-- whatever is queued at each of them, it comes to the same decision.
pub ticks_wt-permissive_hold :
    (queues : List (List Queued)) (w : WaitingState)
    → ticks_wt (custom (custom_tap_hold_release [])) w queues ≡ ticks_wt permissive_hold w queues
unfolding ticks_wt
ticks_wt-permissive_hold [] w = refl
ticks_wt-permissive_hold (queued ∷ queues) w =
    let later = ticks_wt-permissive_hold queues (tick_wt permissive_hold w queued).1 in
    elim (Option-cases (tick_wt permissive_hold w queued).0) [
      | inl waits ↦ rw (ticks_wt, tick_wt-permissive_hold, waits, tick_wt-permissive_hold) later
      | inr (a, decided) ↦ rw (ticks_wt, tick_wt-permissive_hold, decided)
    ]
