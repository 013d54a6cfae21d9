-- ===== src/Tests/CustomTapHold.antt =====
-- The custom functions of hold-tap keys at concrete queues.
use kanata.Base.{◌≡◌, refl, arith, false, List, [], ◌∷◌, some, ℕ}
use kanata.CustomTapHold.{custom_tap_hold_release, custom_tap_hold_keys, custom_tap_hold_except}
use kanata.CustomTapHold.Hands.Agree.{
  all_released, release-opposite_hand, Decides, opposite_hand-Decides,
}
use kanata.CustomTapHold.Hands.{
  left, right, Config, DecisionBehavior, ignore, get, custom_tap_hold_opposite_hand,
  custom_tap_hold_opposite_hand_release,
}
use kanata.CustomTapHold.Release.{ticks_wt-permissive_hold}
use kanata.Layout.Event.{press, release, Queued}
use kanata.Layout.HoldTap.Decision.{ticks_wt}
use kanata.Layout.HoldTap.{tap, hold, custom, permissive_hold, WaitingState, tick_wt}

abbrev pressed : ℕ → Queued
pressed j = record { event = press (0, j); since = 3 }

abbrev let_go : ℕ → Queued
let_go j = record { event = release (0, j); since = 1 }

abbrev two_keys : List Queued
two_keys = pressed 30 ∷ pressed 31 ∷ let_go 31 ∷ let_go 30 ∷ []

abbrev held : WaitingState
held = record {
  coord = (0, 58);
  timeout = 2;
  on_press_reset_timeout_to = some 9;
  delay = 0;
  ticks = 0;
  prev_queue_len = 255;
}

taps_on_release : custom_tap_hold_keys (57 ∷ []) (30 ∷ []) [] two_keys (0, 58) ≡ (some tap, false)
unfolding custom_tap_hold_keys
taps_on_release = refl

abbrev some_ticks : List (List Queued)
some_ticks = [] ∷ (pressed 30 ∷ []) ∷ (pressed 30 ∷ let_go 30 ∷ []) ∷ []

ticks_wt-permissive_hold_example :
    ticks_wt (custom (custom_tap_hold_release [])) held some_ticks
    ≡ ticks_wt permissive_hold held some_ticks
ticks_wt-permissive_hold_example = ticks_wt-permissive_hold some_ticks held

held_in_the_end : ticks_wt (custom (custom_tap_hold_release [])) held some_ticks ≡ some hold
unfolding ticks_wt tick_wt custom_tap_hold_release
held_in_the_end = refl

except_taps : custom_tap_hold_except (30 ∷ []) two_keys (0, 58) ≡ (some tap, false)
unfolding custom_tap_hold_except
except_taps = refl

-- Caps lock, 58, is a left key; 57 is neutral.
abbrev by_hand : Config
by_hand = record {
  hand_map = record { keys = 58 ∷ 30 ∷ 36 ∷ []; hands = left ∷ left ∷ right ∷ [] };
  same_hand = DecisionBehavior.tap;
  neutral_behavior = ignore;
  unknown_hand = ignore;
  neutral_keys = 57 ∷ [];
}

abbrev across : List Queued
across = pressed 57 ∷ pressed 36 ∷ let_go 57 ∷ let_go 36 ∷ []

release-opposite_hand_example :
    custom_tap_hold_opposite_hand_release some by_hand across (0, 58)
    ≡ custom_tap_hold_opposite_hand some by_hand across (0, 58)
unfolding all_released
release-opposite_hand_example = release-opposite_hand some by_hand across (0, 58) refl

across_holds : custom_tap_hold_opposite_hand some by_hand across (0, 58) ≡ some (some hold, false)
unfolding custom_tap_hold_opposite_hand get
across_holds = refl

opposite_hand-Decides_example :
    Decides (custom_tap_hold_opposite_hand some by_hand two_keys (0, 58))
    × Decides (custom_tap_hold_opposite_hand_release some by_hand two_keys (0, 58))
opposite_hand-Decides_example = opposite_hand-Decides some by_hand two_keys (0, 58) (omega arith)
