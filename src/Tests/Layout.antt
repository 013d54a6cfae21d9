-- ===== src/Tests/Layout.antt =====
-- One shot keys and hold-tap keys at concrete states.
use kanata.Base.{
  map, ◌<◌, ◌≡◌, refl, arith, true, false, List, [], ◌∷◌, ◌++◌, Option, none, some, ltb,
  if◌then◌else◌, length,
}
use kanata.Layout.Event.{press, release, Queued, tick_qd}
use kanata.Layout.OneShot.{
  one_shot_max_active, Deque, end_on_first_press, end_on_first_release, OneShotState, has,
}
use kanata.Layout.OneShot.Acts.{Act, tick, activate_key, acts, IsValid, acts-IsValid}
use kanata.Layout.OneShot.Expiry.{acts-let_go}
use kanata.Layout.HoldTap.{WaitingAction, hold, permissive_hold, WaitingState, decide}
use kanata.Layout.HoldTap.Decision.{ticks_wt, ticks_wt_decided}
use kanata.Layout.TapDance.{TapDanceState, tick_wt}
use kanata.Layout.HoldTap.FastPath.{a_tick_later, decide-a_tick_later}

abbrev behind_front : {A : Type 0} → List A → A → List A × Option A
behind_front [] x = (x ∷ [], none)
behind_front (y ∷ ys) x = (ys ++ x ∷ [], some y)

abbrev push : {A : Type 0} → List A → A → List A × Option A
push xs x = if ltb (length xs) one_shot_max_active then (xs ++ x ∷ [], none) else behind_front xs x

push_room :
    {A : Type 0} (xs : List A) (x : A)
    → length xs < one_shot_max_active
    → push xs x ≡ (xs ++ x ∷ [], none)
push_room xs x h = let room : ltb (length xs) one_shot_max_active ≡ true = ground arith in rw room

push_full :
    {A : Type 0} (y : A) (xs : List A) (x : A)
    → length (y ∷ xs) ≡ one_shot_max_active
    → push (y ∷ xs) x ≡ (xs ++ x ∷ [], some y)
push_full y xs x h =
    let full : ltb (length (y ∷ xs)) one_shot_max_active ≡ false = ground arith in rw full

abbrev deque : Deque
deque = record { push_back = push; push_back_room = push_room; push_back_full = push_full }

-- One key is active and was released.
abbrev shifted : OneShotState
shifted = record {
  keys = (0, 42) ∷ [];
  released_keys = (0, 42) ∷ [];
  state_to_retain_on_release = [];
  other_pressed_keys = (0, 30) ∷ [];
  timeout = 3;
  end_config = end_on_first_press;
  release_on_next_tick = false;
  pause_input_processing_delay = 1;
  pause_input_processing_ticks = 0;
  ticks_to_ignore_events = 0;
}

shifted-IsValid : IsValid shifted
shifted-IsValid = (omega arith, omega arith, omega arith, omega arith, λ e. cc)

abbrev a_while : List Act
a_while = Act.press (0, 30) ∷ tick ∷ Act.release (0, 30) ∷ tick ∷ tick ∷ []

acts-IsValid_example :
    IsValid (acts deque shifted (activate_key (0, 54) 500 end_on_first_release ∷ a_while)).1
acts-IsValid_example =
    acts-IsValid deque (activate_key (0, 54) 500 end_on_first_release ∷ a_while) shifted
      shifted-IsValid

acts-let_go_example : has (acts deque shifted a_while).0 (0, 42) ≡ true
acts-let_go_example =
    acts-let_go deque a_while shifted (0, 42) shifted-IsValid refl (omega arith) refl

abbrev home_row : WaitingState
home_row = record {
  coord = (0, 30);
  timeout = 2;
  on_press_reset_timeout_to = none;
  delay = 0;
  ticks = 5;
  prev_queue_len = 255;
}

abbrev j_pressed : List Queued
j_pressed = record { event = press (0, 36); since = 1 } ∷ []

abbrev j_tapped : List Queued
j_tapped = j_pressed ++ record { event = release (0, 36); since = 0 } ∷ []

ticks_wt_decided_example :
    (a : WaitingAction) × (ticks_wt permissive_hold home_row (j_pressed ∷ j_pressed ∷ []) ≡ some a)
ticks_wt_decided_example =
    ticks_wt_decided permissive_hold (j_pressed ∷ j_pressed ∷ []) home_row tt refl (omega arith)

j_holds : decide permissive_hold home_row j_tapped ≡ some hold
unfolding decide
j_holds = refl

j_waits : decide permissive_hold home_row j_pressed ≡ none
unfolding decide
j_waits = refl

-- A second tap of two is queued.
abbrev danced : List Queued
danced =
    record { event = release (0, 30); since = 9 }
    ∷ record { event = press (0, 30); since = 4 }
    ∷ record { event = release (0, 36); since = 2 }
    ∷ record { event = release (0, 30); since = 1 }
    ∷ []

abbrev dance : TapDanceState
dance = record { waiting = home_row; num_actions = 2; timeout = 200; num_taps = 1 }

second_action : (tick_wt dance danced).0 ≡ some 1
unfolding tick_wt
second_action = refl

decide-a_tick_later_example :
    decide permissive_hold (a_tick_later home_row) (map tick_qd j_pressed) ≡ none
decide-a_tick_later_example =
    decide-a_tick_later permissive_hold home_row j_pressed tt (omega arith) refl (omega arith)
      j_waits
