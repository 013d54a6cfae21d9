-- ===== src/Layout/Manager/Release.antt =====
-- keyberon/src/layout.rs, `dequeue` of a release: the states that it releases.
use kanata.Base.{ℕ, Bool, false, List, Option, none, some, KCoord, if◌then◌else◌}
use kanata.Layout.OneShot.{OneShotState, handle_release}
use kanata.Layout.State.{
  State, CustomEvent, no_event, Releasing, release as release_of, release_or_clear, release_others,
  retain,
}
use kanata.Layout.Deques.{Deques, one_shot_deque}
use kanata.Layout.Manager.{Layout}
use kanata.Layout.Manager.Run.{Method}

abbrev pub custom_event_release_queue_len : ℕ
custom_event_release_queue_len = 16

abbrev pub push_released : Deques → {T : Type 0} → List T → T → List T × Option T
push_released d queue v = d.push_back custom_event_release_queue_len queue v

module _ {R T : Type 0} (d : Deques) where
  -- The release of a one shot key that overflowed.
  abbrev pub retain_overflow : Option KCoord → Layout R T → Releasing T → Layout R T × Releasing T
  retain_overflow none l r = (l, r)
  retain_overflow (some c) l r =
      let (states_, last) =
        retain (push_released d) (λ s. release_of (push_released d) s c) l.states r in
      (record l { states = states_ }, last)

  abbrev pub start_release : Layout R T → Releasing T
  start_release l = record {
    custom_event = no_event;
    custom_release_queue = l.custom_event_release_queue;
    overflowed = false;
  }

  -- What the one shot keys say to the release: whether it is to be done, and a key that overflows.
  abbrev pub asked : KCoord → Layout R T → (Bool × Option KCoord) × OneShotState
  asked c l = handle_release (one_shot_deque d) l.oneshot c

  abbrev pub release_test : KCoord → Layout R T → State T → Releasing T → Bool × Releasing T
  release_test c l =
      if (asked c l).0.0
      then release_or_clear (push_released d) c
      else release_others (push_released d) c (asked c l).1.state_to_retain_on_release

  unfoldable pub release_states : KCoord → Layout R T → Layout R T × Releasing T
  unfolding handle_release release_of retain
  release_states c l =
      let (states_, r) = retain (push_released d) (release_test c l) l.states (start_release l) in
      (record l { oneshot = (asked c l).1; states = states_ }, r)

  -- The states that go with the release of a coordinate.
  unfoldable pub release_coord : KCoord → Layout R T → Layout R T × Releasing T
  unfolding release_states
  release_coord c l = let (l', r) = release_states c l in retain_overflow (asked c l).0.1 l' r

  unfoldable pub dequeue_release : KCoord → Method R T (CustomEvent T)
  unfolding release_coord
  dequeue_release c s =
      let (l, r) = release_coord c s.layout in
      if r.overflowed
      then none
      else some (
        r.custom_event,
        record s { layout = record l { custom_event_release_queue = r.custom_release_queue } },
      )
