-- ===== src/Layout/HoldTap/Decision.antt =====
-- When a hold-tap key is decided, and that the fast path changes no decision.
use kanata.Base.{
  ◌-◌, ◌≤◌, ◌≡◌, refl, arith, false, ◌&&◌, List, [], ◌∷◌, Option, none, some, KCoord, ltb, leb,
  ◌==◌, u8, sat_add16, length, max, Bool-cases, Option-cases, inl, inr, ◌⊎◌,
}
use kanata.Layout.Event.{Queued}
use kanata.Layout.HoldTap.{
  WaitingAction, HoldTapConfig, default, hold_on_other_key_press, permissive_hold, order, custom,
  WaitingState, reset_timeout, by_queue, find_release, by_timeout, decide, handle_hold_tap, tick_wt,
}

-- Ticks with the queue as it is at each of them, up to the decision.
unfoldable pub ticks_wt : HoldTapConfig → WaitingState → List (List Queued) → Option WaitingAction
ticks_wt cfg w [] = none
ticks_wt cfg w (queued ∷ queues) =
    let (decision, t) = tick_wt cfg w queued in
    let later = ticks_wt cfg t queues in elim decision [ none ↦ later | some a ↦ some a ]

-- A custom configuration that never skips the timeout.
abbrev pub NeverSkips : HoldTapConfig → Type 0
NeverSkips (custom f) = (queued : List Queued) (c : KCoord) → (f queued c).1 ≡ false
NeverSkips _ = Unit {0}

no_skip :
    (cfg : HoldTapConfig) (w : WaitingState) (queued : List Queued)
    → NeverSkips cfg
    → (by_queue cfg w queued).1 ≡ false
unfolding by_queue
no_skip default w queued h = refl
no_skip hold_on_other_key_press w queued h = refl
no_skip permissive_hold w queued h = refl
no_skip (order buffer) w queued h = refl
no_skip (custom f) w queued h = h queued w.coord

expired :
    (cfg : HoldTapConfig) (w : WaitingState) (queued : List Queued)
    → NeverSkips cfg
    → w.timeout ≡ 0
    → (a : WaitingAction) × (decide cfg w queued ≡ some a)
unfolding decide by_timeout
expired cfg w queued h e = elim (Option-cases (by_queue cfg w queued).0) [
  | inr (a, early) ↦ (a, rw early)
  | inl waits ↦ elim (Option-cases (find_release w queued)) [
    | inr (q, found) ↦ elim (Bool-cases (leb (w.delay - q.since) w.timeout)) [
      | inl in_time ↦ (WaitingAction.tap, rw (waits, found, in_time))
      | inr late ↦ (WaitingAction.timed_out, rw (waits, found, late))
    ]
    | inl never ↦ (WaitingAction.timed_out, rw (waits, never, no_skip cfg w queued h, e))
  ]
]

-- A tick decides, or the timeout has come one closer and is not over.
abbrev Stepped : WaitingState → Option WaitingAction × WaitingState → Type 0
Stepped w (decision, t) =
    ((a : WaitingAction) × (decision ≡ some a))
    ⊎ ((decision ≡ none)
        × (t.timeout ≡ w.timeout - 1)
        × (1 ≤ t.timeout)
        × (t.on_press_reset_timeout_to ≡ none))

decided_or_waits :
    (cfg : HoldTapConfig) (w t : WaitingState) (queued : List Queued)
    → NeverSkips cfg
    → t.timeout ≡ w.timeout - 1
    → t.on_press_reset_timeout_to ≡ none
    → Stepped w (decide cfg t queued, t)
decided_or_waits cfg w t queued h e r = elim (Option-cases (decide cfg t queued)) [
  | inr (a, p) ↦ inl (a, p)
  | inl p ↦ elim (Bool-cases (t.timeout == 0)) [
    | inl over ↦ (let (a, q) = expired cfg t queued h (ground arith) in inl (a, q))
    | inr more ↦ inr (p, e, ground arith, r)
  ]
]

tick-Stepped :
    (cfg : HoldTapConfig) (w : WaitingState) (queued : List Queued)
    → NeverSkips cfg
    → w.on_press_reset_timeout_to ≡ none
    → Stepped w (tick_wt cfg w queued)
unfolding tick_wt handle_hold_tap reset_timeout
tick-Stepped cfg w queued h r =
    let fast = u8 (length queued) == w.prev_queue_len && ltb 0 (w.timeout - 1) in
    elim (Bool-cases fast) [
      | inl same ↦ rw same (inr (refl, refl, ground arith, r))
      | inr other ↦
          rw (other, r)
            (decided_or_waits cfg w
              (record w {
                timeout = w.timeout - 1;
                ticks = sat_add16 w.ticks 1;
                on_press_reset_timeout_to = none;
                prev_queue_len = u8 (length queued);
              })
              queued h refl refl)
    ]

-- A hold-tap key whose timeout presses do not reset, and whose configuration does not skip the
-- timeout, is decided within as many ticks as its timeout, or one, whatever is queued at each.
pub ticks_wt_decided :
    (cfg : HoldTapConfig) (queues : List (List Queued)) (w : WaitingState)
    → NeverSkips cfg
    → w.on_press_reset_timeout_to ≡ none
    → max w.timeout 1 ≤ length queues
    → (a : WaitingAction) × (ticks_wt cfg w queues ≡ some a)
unfolding ticks_wt
ticks_wt_decided cfg [] w h r long = absurd (omega arith)
ticks_wt_decided cfg (queued ∷ queues) w h r long = elim (tick-Stepped cfg w queued h r) [
  | inl (a, e) ↦ (a, rw (e, ticks_wt))
  | inr (e, p, q, s) ↦
      (let (a, f) = ticks_wt_decided cfg queues (tick_wt cfg w queued).1 h s (omega arith) in
        (a, rw (e, ticks_wt) f))
]
