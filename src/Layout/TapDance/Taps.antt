-- ===== src/Layout/TapDance/Taps.antt =====
-- The number of taps decides a tap dance, and the key's own events leave the queue.
use kanata.Base.{
  ℕ, suc, ◌+◌, ◌-◌, ◌≤◌, ◌≡◌, ◌∙◌, refl, ap, arith, Bool, true, false, not, ◌||◌, List, [], ◌∷◌,
  none, some, ltb, leb, ◌==◌, if◌then◌else◌, u8, length, min, all, Bool-cases, inl, inr,
}
use kanata.Layout.Event.{Event, press, release, is_press, Queued}
use kanata.Layout.HoldTap.{WaitingState, is_corresponding_release}
use kanata.Layout.TapDance.{
  is_corresponding_press, evict, count_taps, handle_tap_dance, TapDanceState, ticked, tick_wt,
}

-- The presses and the releases of the key, and the rest of the queue.
abbrev pub presses : WaitingState → List Queued → ℕ
presses w [] = 0
presses w (q ∷ qs) = if is_corresponding_press w q.event then suc (presses w qs) else presses w qs

abbrev pub releases : WaitingState → List Queued → ℕ
releases w [] = 0
releases w (q ∷ qs) =
    if is_corresponding_release w q.event then suc (releases w qs) else releases w qs

abbrev pub others : WaitingState → List Queued → List Queued
others w [] = []
others w (q ∷ qs) =
    if is_corresponding_press w q.event || is_corresponding_release w q.event
    then others w qs
    else q ∷ others w qs

one_kind :
    (w : WaitingState) (e : Event)
    → is_corresponding_release w e ≡ true
    → is_corresponding_press w e ≡ false
one_kind w (press c) h = cc
one_kind w (release c) h = refl

-- One event of the queue.
module _ (w : WaitingState) (r : ℕ) (q : Queued) (qs : List Queued) where
  evict-removed :
      is_corresponding_release w q.event ≡ true
      → ltb 0 r ≡ true
      → evict w r (q ∷ qs) ≡ evict w (r - 1) qs
  unfolding evict
  evict-removed ended more = rw (evict, ended, more)

  evict-kept :
      is_corresponding_release w q.event ≡ true
      → ltb 0 r ≡ false
      → evict w r (q ∷ qs) ≡ q ∷ evict w r qs
  unfolding evict
  evict-kept ended enough = rw (evict, ended, enough)

  evict-press :
      is_corresponding_release w q.event ≡ false
      → is_corresponding_press w q.event ≡ true
      → evict w r (q ∷ qs) ≡ evict w r qs
  unfolding evict
  evict-press no_release tapped = rw (evict, no_release, tapped)

  evict-other :
      is_corresponding_release w q.event ≡ false
      → is_corresponding_press w q.event ≡ false
      → evict w r (q ∷ qs) ≡ q ∷ evict w r qs
  unfolding evict
  evict-other no_release another = rw (evict, no_release, another)

-- Eviction leaves no press of the key, takes out the given number of its releases or all there are,
-- and leaves the other events as they are.
evict-parts :
    (w : WaitingState) (releases_to_remove : ℕ) (queued : List Queued)
    → (presses w (evict w releases_to_remove queued) ≡ 0)
      × (releases w (evict w releases_to_remove queued) ≡ releases w queued - releases_to_remove)
      × (others w (evict w releases_to_remove queued) ≡ others w queued)
unfolding evict
evict-parts w r [] = (refl, omega arith, refl)
evict-parts w r (q ∷ qs) = elim (Bool-cases (is_corresponding_release w q.event)) [
  | inl ended ↦
      (let other = one_kind w q.event ended in
        elim (Bool-cases (ltb 0 r)) [
          | inl more ↦
              (let (a, b, c) = evict-parts w (r - 1) qs in
                rw (evict-removed w r q qs ended more, ended, other) (a, ground arith, c))
          | inr enough ↦
              (let (a, b, c) = evict-parts w r qs in
                rw (evict-kept w r q qs ended enough, ended, other) (a, ground arith, c))
        ])
  | inr no_release ↦ elim (Bool-cases (is_corresponding_press w q.event)) [
    | inl tapped ↦
        rw (evict-press w r q qs no_release tapped, no_release, tapped) (evict-parts w r qs)
    | inr another ↦
        (let (a, b, c) = evict-parts w r qs in
          rw (evict-other w r q qs no_release another, no_release, another) (a, b, ap (◌∷◌ q) c))
  ]
]

-- Every press of the queue is the key's own.
abbrev pub is_own : WaitingState → Queued → Bool
is_own w q = is_corresponding_press w q.event || not (is_press q.event)

count_taps-presses :
    (w : WaitingState) (n : ℕ) (queued : List Queued)
    → all (is_own w) queued ≡ true
    → count_taps w n queued ≡ (n + presses w queued, false)
unfolding count_taps
count_taps-presses w n [] h = ap (λ m. (m, false)) (omega arith)
count_taps-presses w n (q ∷ qs) h = elim (Bool-cases (is_corresponding_press w q.event)) [
  | inl tapped ↦
      (let more : n + 1 + presses w qs ≡ n + suc (presses w qs) = omega arith in
        rw (count_taps, tapped)
          (count_taps-presses w (n + 1) qs (ground arith) ∙ ap (λ m. (m, false)) more))
  | inr another ↦ elim (Bool-cases (is_press q.event)) [
    | inl pressed ↦ absurd (ground arith)
    | inr released ↦ rw (count_taps, another, released) (count_taps-presses w n qs (ground arith))
  ]
]

-- While the timeout is not over and the queue has changed, and no other key was pressed: a tap dance
-- takes its last action as soon as it was tapped as often as it has actions, and waits before that.
tick_wt-taps :
    (s : TapDanceState) (queued : List Queued)
    → 2 ≤ s.waiting.timeout
    → (u8 (length queued) == s.waiting.prev_queue_len) ≡ false
    → all (is_own (ticked s)) queued ≡ true
    → (tick_wt s queued).0 ≡ (
        if leb s.num_actions (1 + presses (ticked s) queued)
        then some (s.num_actions - 1)
        else none)
unfolding tick_wt handle_tap_dance
tick_wt-taps s queued more changed own =
    let going : (s.waiting.timeout - 1 == 0) ≡ false = ground arith in
    rw (changed, going, count_taps-presses (ticked s) 1 queued own) (ground arith)

-- When the timeout is over, a tap dance takes the action of the number of taps that were counted, or
-- its last, and its own presses are no longer in the queue.
tick_wt-timed_out :
    (s : TapDanceState) (queued : List Queued)
    → s.waiting.timeout ≤ 1
    → ((tick_wt s queued).0 ≡ some (min s.num_taps s.num_actions - 1))
      × (presses (ticked s) (tick_wt s queued).2 ≡ 0)
unfolding tick_wt handle_tap_dance
tick_wt-timed_out s queued late =
    let ended : (s.waiting.timeout - 1 == 0) ≡ true = ground arith in
    let slow : ltb 0 (s.waiting.timeout - 1) ≡ false = ground arith in
    let (gone, _, _) = evict-parts (ticked s) (s.num_taps - 1) queued in
    elim (Bool-cases (u8 (length queued) == s.waiting.prev_queue_len)) [
      | inl same ↦ rw (same, slow, ended) (refl, gone)
      | inr changed ↦ rw (changed, ended) (refl, gone)
    ]
