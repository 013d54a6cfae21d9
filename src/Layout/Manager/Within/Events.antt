-- ===== src/Layout/Manager/Within/Events.antt =====
-- Waiting keys, events, and the actions that perform others keep the coordinates of the layout within
-- a set, where `act` does at coordinates of the set.
use kanata.Base.{
  ℕ, zero, suc, ◌≡◌, refl, arith, Bool, true, false, List, [], ◌∷◌, Option, none, some, KCoord,
  if◌then◌else◌, all, Bool-cases, inl, inr,
}
use kanata.Layout.Event.{Event, press, release, Queued}
use kanata.Layout.State.{State, Releasing, retain, release as release_of}
use kanata.Layout.Deques.{Deques, all_of}
use kanata.Layout.Action.{Action, multiple_actions}
use kanata.Layout.Manager.{Layout, Waiting, TapDanceEagerState}
use kanata.Layout.Manager.Run.{pure, modify, ◌>>=◌}
use kanata.Layout.Manager.Run.Keeps.{Keeps-bind, Keeps-gets-bind}
use kanata.Layout.Manager.Waits.{Act}
use kanata.Layout.Manager.Events.{
  WaitingPlace, waiting_at, is_simple, into_timeout, press_others, into_tap, into_hold, press_with,
  waiting_into_hold, waiting_into_timeout, act_for_all, act_simple_for_all, act_for_others,
  waiting_into_tap, dequeue_press,
}
use kanata.Layout.Manager.Release.{
  push_released, retain_overflow, start_release, asked, release_test, release_states, release_coord,
  dequeue_release,
}
use kanata.Layout.Manager.Perform.{
  dequeue, remember, hold_all, overflowing, queue_size, queued, send_event,
}
use kanata.Layout.Manager.Within.{IsWithin, state_in, queued_in, waiting_in, presses_in}
use kanata.Layout.Manager.Within.Rules.{Kept, kept_rules}
use kanata.Layout.Manager.Within.Layouts.{
  waiting_at-within, remove_waiting-IsWithin, leave_waiting-IsWithin, remember-IsWithin,
}

-- `act` keeps to the set.
abbrev pub ActKept : {R T : Type 0} → (KCoord → Bool) → Act R T → Type 0
ActKept {R} {T} P act =
    (action : Action R T) (c : KCoord) (delay : ℕ) (b : Bool) (stack : List ℕ)
    → P c ≡ true
    → Kept P (act action c delay b stack)

all-retain :
    {T : Type 0} (push : List T → T → List T × Option T) (p : State T → Bool)
    (test : State T → Releasing T → Bool × Releasing T) (xs : List (State T)) (r : Releasing T)
    → all p xs ≡ true
    → all p (retain push test xs r).0 ≡ true
unfolding retain
all-retain push p test [] r h = refl
all-retain push p test (x ∷ xs) r h = ground (arith, all-retain push p test xs (test x r).1)

module _ {R T : Type 0} {P : KCoord → Bool} (d : Deques) where
  retain_overflow-IsWithin :
      (o : Option KCoord) (l : Layout R T) (r : Releasing T)
      → IsWithin P l
      → IsWithin P (retain_overflow d o l r).0
  retain_overflow-IsWithin none l r h = h
  retain_overflow-IsWithin (some c) l r h = ground (
    arith,
    all-retain (push_released d) (state_in P) (λ s. release_of (push_released d) s c) l.states r,
  )

  release_states-IsWithin :
      (c : KCoord) (l : Layout R T) → IsWithin P l → IsWithin P (release_states d c l).0
  unfolding release_states
  release_states-IsWithin c l h = ground (
    arith,
    all-retain (push_released d) (state_in P) (release_test d c l) l.states (start_release d l),
  )

  release_coord-IsWithin :
      (c : KCoord) (l : Layout R T) → IsWithin P l → IsWithin P (release_coord d c l).0
  unfolding release_coord
  release_coord-IsWithin c l h =
      retain_overflow-IsWithin (asked d c l).0.1 (release_states d c l).0 (release_states d c l).1
        (release_states-IsWithin c l h)

  dequeue_release-Kept : (c : KCoord) → Kept P (dequeue_release {R = R} {T = T} d c)
  unfolding dequeue_release
  dequeue_release-Kept c = record {
    at = λ s h.
        let released = release_coord-IsWithin c s.layout h in
        elim (Bool-cases (release_coord d c s.layout).1.overflowed) [
          | inl lost ↦ rw lost tt
          | inr room ↦ rw room (ground arith)
        ];
  }

  push_back-within :
      (e : Event) (l : Layout R T)
      → presses_in P e ≡ true
      → IsWithin P l
      → (all (queued_in P) (d.push_back queue_size l.queue (queued e)).0 ≡ true)
        × (all_of (queued_in P) (d.push_back queue_size l.queue (queued e)).1 ≡ true)
  push_back-within e l here h =
      d.push_back_all queue_size (queued_in P) l.queue _ h.queue_within here

  module _ (deref : R → Action R T) (act : Act R T) (kept : ActKept P act) where
    into_hold-Kept :
        (idx : WaitingPlace) (o : Option (Waiting R T))
        → all_of (waiting_in P) o ≡ true
        → Kept P (into_hold act idx o)
    unfolding into_hold
    into_hold-Kept idx none here = search (kept_rules)
    into_hold-Kept idx (some w) here = search (kept_rules, leave_waiting-IsWithin, kept) depth 12

    pub waiting_into_hold-Kept : (idx : WaitingPlace) → Kept P (waiting_into_hold act idx)
    unfolding waiting_into_hold
    waiting_into_hold-Kept idx =
        Keeps-gets-bind (waiting_at idx) (λ o. all_of (waiting_in P) o ≡ true) (into_hold act idx)
          (waiting_at-within idx) (into_hold-Kept idx)

    into_timeout-Kept :
        (idx : WaitingPlace) (o : Option (Waiting R T))
        → all_of (waiting_in P) o ≡ true
        → Kept P (into_timeout act idx o)
    unfolding into_timeout
    into_timeout-Kept idx none here = search (kept_rules)
    into_timeout-Kept idx (some w) here = search (kept_rules, leave_waiting-IsWithin, kept) depth 12

    pub waiting_into_timeout-Kept : (idx : WaitingPlace) → Kept P (waiting_into_timeout act idx)
    unfolding waiting_into_timeout
    waiting_into_timeout-Kept idx =
        Keeps-gets-bind (waiting_at idx) (λ o. all_of (waiting_in P) o ≡ true)
          (into_timeout act idx) (waiting_at-within idx) (into_timeout-Kept idx)

    act_for_all-Kept :
        (action : Action R T) (delay : ℕ) (stack : List ℕ) (pq : List KCoord)
        → all P pq ≡ true
        → Kept P (act_for_all act action delay stack pq)
    unfolding act_for_all
    act_for_all-Kept action delay stack [] here = search (kept_rules)
    act_for_all-Kept action delay stack (c ∷ pq) here =
        Keeps-bind _ _ (kept action c delay false stack (ground arith))
          (λ _. act_for_all-Kept action delay stack pq (ground arith))

    act_simple_for_all-Kept :
        (acs : List R) (delay : ℕ) (stack : List ℕ) (pq : List KCoord)
        → all P pq ≡ true
        → Kept P (act_simple_for_all deref act acs delay stack pq)
    unfolding act_simple_for_all
    act_simple_for_all-Kept [] delay stack pq here = search (kept_rules)
    act_simple_for_all-Kept (r ∷ acs) delay stack pq here =
        Keeps-bind
          (if is_simple (deref r) then act_for_all act (deref r) delay stack pq else pure tt) _
          (search (kept_rules, act_for_all-Kept))
          (λ _. act_simple_for_all-Kept acs delay stack pq here)

    act_for_others-Kept :
        (action : Action R T) (delay : ℕ) (stack : List ℕ) (pq : List KCoord)
        → all P pq ≡ true
        → Kept P (act_for_others deref act action delay stack pq)
    unfolding act_for_others
    act_for_others-Kept (multiple_actions acs) delay stack pq here =
        act_simple_for_all-Kept acs delay stack pq here
    act_for_others-Kept action delay stack pq here = search (kept_rules, act_for_all-Kept)

    press_others-Kept :
        (w : Waiting R T) (pq : Option (List KCoord))
        → all_of (all P) pq ≡ true
        → Kept P (press_others deref act w pq)
    unfolding press_others
    press_others-Kept w none here = search (kept_rules)
    press_others-Kept w (some pq) here = search (kept_rules, act_for_others-Kept) depth 12

    into_tap-Kept :
        (pq : Option (List KCoord)) (idx : WaitingPlace) (o : Option (Waiting R T))
        → all_of (all P) pq ≡ true
        → all_of (waiting_in P) o ≡ true
        → Kept P (into_tap deref act pq idx o)
    unfolding into_tap
    into_tap-Kept pq idx none all_in here = search (kept_rules)
    into_tap-Kept pq idx (some w) all_in here =
        search (kept_rules, remove_waiting-IsWithin, kept, press_others-Kept) depth 12

    pub waiting_into_tap-Kept :
        (pq : Option (List KCoord)) (idx : WaitingPlace)
        → all_of (all P) pq ≡ true
        → Kept P (waiting_into_tap deref act pq idx)
    unfolding waiting_into_tap
    waiting_into_tap-Kept pq idx all_in =
        Keeps-gets-bind (waiting_at idx) (λ o. all_of (waiting_in P) o ≡ true)
          (into_tap deref act pq idx) (waiting_at-within idx)
          (λ o here. into_tap-Kept pq idx o all_in here)

    hold_all-Kept : (i n : ℕ) → Kept P (hold_all d deref act i n)
    unfolding hold_all
    hold_all-Kept i zero = search (kept_rules)
    hold_all-Kept i (suc n) =
        Keeps-bind _ _ (waiting_into_hold-Kept (some i)) (λ _. hold_all-Kept (suc i) n)

    press_with-Kept :
        (c : KCoord) (since : ℕ) (stack : List ℕ) (o : Option (TapDanceEagerState R))
        → P c ≡ true
        → Kept P (press_with deref act c since stack o)
    unfolding press_with
    press_with-Kept c since stack none here = search (kept_rules, kept)
    press_with-Kept c since stack (some tde) here = search (kept_rules, kept) depth 12

    dequeue_press-Kept :
        (c : KCoord) (since : ℕ) → P c ≡ true → Kept P (dequeue_press deref act c since)
    unfolding dequeue_press
    dequeue_press-Kept c since here = search (kept_rules, press_with-Kept) depth 12

    pub dequeue-Kept : (q : Queued) → queued_in P q ≡ true → Kept P (dequeue d deref act q)
    unfolding dequeue
    dequeue-Kept q here = by_event q.event here
      where
        by_event :
            (e : Event)
            → presses_in P e ≡ true
            → Kept P (dequeue d deref act (record q { event = e }))
        by_event (press c) here = dequeue_press-Kept c q.since here
        by_event (release c) here = dequeue_release-Kept c

    overflowing-Kept :
        (o : Option Queued) → all_of (queued_in P) o ≡ true → Kept P (overflowing d deref act o)
    unfolding overflowing
    overflowing-Kept none here = search (kept_rules)
    overflowing-Kept (some q) here =
        search (kept_rules, waiting_into_hold-Kept, hold_all-Kept, dequeue-Kept) depth 12

    pushed_back-IsWithin :
        (e : Event) (l : Layout R T)
        → presses_in P e ≡ true
        → IsWithin P l
        → IsWithin P (record l { queue = (d.push_back queue_size l.queue (queued e)).0 })
    pushed_back-IsWithin e l here h = let pushed = (push_back-within e l here h).0 in ground arith

    pub send_event-Kept : (e : Event) → presses_in P e ≡ true → Kept P (send_event d deref act e)
    unfolding send_event
    send_event-Kept e here =
        Keeps-bind (modify (remember d deref e)) _ (search (kept_rules, remember-IsWithin)) (λ _.
          Keeps-gets-bind (λ l. (d.push_back queue_size l.queue (queued e)).1)
            (λ o. all_of (queued_in P) o ≡ true)
            (λ overflow.
              modify (λ l. record l { queue = (d.push_back queue_size l.queue (queued e)).0 })
              >>= λ _. overflowing d deref act overflow)
            (λ l h. (push_back-within e l here h).1)
            (λ o q. search (kept_rules, pushed_back-IsWithin, overflowing-Kept) depth 12))
