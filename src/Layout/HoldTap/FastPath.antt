-- ===== src/Layout/HoldTap/FastPath.antt =====
-- The fast path of `handle_hold_tap` returns early while the queue only grows older: the full
-- evaluation would have no decision then either.
use mathlib.Core.Option
use kanata.Base.{
  ℕ, ◌-◌, ◌≤◌, ◌<◌, ◌≡◌, refl, ap, arith, Bool, true, false, ◌||◌, List, [], ◌∷◌, map, none, ltb,
  ◌==◌, sat_add16, any, all, Bool-cases, Option-cases, inl, inr,
}
use kanata.Layout.Event.{Event, release, is_press, coord, event_eq, Queued, tick_qd}
use kanata.Layout.HoldTap.{
  HoldTapConfig, default, hold_on_other_key_press, permissive_hold, order, custom, WaitingState,
  is_corresponding_release, tapped, outside_buffer, by_queue, find_release, by_timeout, decide,
}

abbrev pub IsBuiltIn : HoldTapConfig → Type 0
IsBuiltIn (custom f) = ⊥
IsBuiltIn _ = Unit {0}

abbrev pub unsaturated : Queued → Bool
unsaturated q = ltb q.since 65535

any_event_aged :
    (p : Event → Bool) (qs : List Queued)
    → any (λ q. p q.event) (map tick_qd qs) ≡ any (λ q. p q.event) qs
any_event_aged p [] = refl
any_event_aged p (q ∷ qs) = ap (◌||◌ (p q.event)) (any_event_aged p qs)

tapped_aged :
    (before after : Queued → Bool) (qs : List Queued)
    → ((q : Queued) → unsaturated q ≡ true → after (tick_qd q) ≡ before q)
    → all unsaturated qs ≡ true
    → tapped after (map tick_qd qs) ≡ tapped before qs
unfolding tapped
tapped_aged before after [] same h = refl
tapped_aged before after (q ∷ qs) same h = rw (
  same q (ground arith),
  any_event_aged (λ e. event_eq e (release (coord q.event))) qs,
  tapped_aged before after qs same (ground arith),
)

-- The state and the queue a tick later, with nothing new.
abbrev pub a_tick_later : WaitingState → WaitingState
a_tick_later w = record w { timeout = w.timeout - 1; ticks = sat_add16 w.ticks 1 }

buffer_aged :
    (w : WaitingState) (buffer : ℕ) (q : Queued)
    → w.ticks < 65535
    → unsaturated q ≡ true
    → outside_buffer (a_tick_later w) buffer (tick_qd q) ≡ outside_buffer w buffer q
buffer_aged w buffer q h u = ground arith

by_queue_aged :
    (cfg : HoldTapConfig) (w : WaitingState) (qs : List Queued)
    → IsBuiltIn cfg
    → w.ticks < 65535
    → all unsaturated qs ≡ true
    → by_queue cfg (a_tick_later w) (map tick_qd qs) ≡ by_queue cfg w qs
unfolding by_queue
by_queue_aged default w qs b h u = refl
by_queue_aged hold_on_other_key_press w qs b h u = rw (any_event_aged is_press qs)
by_queue_aged permissive_hold w qs b h u =
    rw (tapped_aged (λ q. true) (λ q. true) qs (λ q _. refl) u)
by_queue_aged (order buffer) w qs b h u = rw (
    tapped_aged (outside_buffer w buffer) (outside_buffer (a_tick_later w) buffer) qs
      (λ q v. buffer_aged w buffer q h v) u)
by_queue_aged (custom f) w qs b h u = absurd b

find_release_aged :
    (w : WaitingState) (qs : List Queued)
    → find_release (a_tick_later w) (map tick_qd qs) ≡ Option.map tick_qd (find_release w qs)
unfolding find_release
find_release_aged w [] = refl
find_release_aged w (q ∷ qs) = elim (Bool-cases (is_corresponding_release w q.event)) [
  | inl here ↦ rw here
  | inr there ↦ rw there (find_release_aged w qs)
]

-- An undecided key has neither an early answer nor its release in the queue.
undecided :
    (cfg : HoldTapConfig) (w : WaitingState) (qs : List Queued)
    → decide cfg w qs ≡ none
    → ((by_queue cfg w qs).0 ≡ none) × (find_release w qs ≡ none)
unfolding decide by_timeout
undecided cfg w qs e = elim (Option-cases (by_queue cfg w qs).0) [
  | inr (a, p) ↦ cc (rw p at e)
  | inl p ↦ elim (Option-cases (find_release w qs)) [
    | inl f ↦ (p, f)
    | inr (q, f) ↦ absurd (ground arith)
  ]
]

-- With a built-in configuration: if a key is undecided by the full evaluation, and a tick later the
-- queue has only grown older, the timeout is not over and no count of ticks was at its limit, then
-- the full evaluation is still undecided.
pub decide-a_tick_later :
    (cfg : HoldTapConfig) (w : WaitingState) (queued : List Queued)
    → IsBuiltIn cfg
    → w.ticks < 65535
    → all unsaturated queued ≡ true
    → 2 ≤ w.timeout
    → decide cfg w queued ≡ none
    → decide cfg (a_tick_later w) (map tick_qd queued) ≡ none
unfolding decide by_timeout
decide-a_tick_later cfg w queued b h u more e =
    let (early, absent) = undecided cfg w queued e in
    let going : (w.timeout - 1 == 0) ≡ false = ground arith in
    rw (by_queue_aged cfg w queued b h u, early, find_release_aged w queued, absent, going)
