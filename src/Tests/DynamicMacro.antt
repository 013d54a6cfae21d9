-- ===== src/Tests/DynamicMacro.antt =====
-- Dynamic macros at a concrete recording: a pressed and released, with 100 ms between.
use mathlib.Core.Option
use kanata.Base.{ℕ, ◌≤◌, ◌≡◌, refl, arith, false, List, [], ◌∷◌, ◌++◌, none, some, ◌↔◌}
use kanata.DynamicMacro.Record.{
  DynamicMacroItem, press, release, end_macro, new, contains, pressed_from,
  add_release_for_all_unreleased_presses, begin_record_macro, stop_macro,
}
use kanata.DynamicMacro.Replay.{ReplayState, constant, recorded, Recorded, play_macro}
use kanata.DynamicMacro.Emission.{
  replay_ticks, item_events, duration, replay_ticks-item_events, play_macro_nested,
}
use kanata.DynamicMacro.Closed.{NoEvent, add_release-none_pressed, stop-begin_panic_iff}
use kanata.DynamicMacro.Fidelity.{Act, tick, key, acts, keys, recorded_keys, acts-recorded_keys}

abbrev a_tapped : List DynamicMacroItem
a_tapped = DynamicMacroItem.press 30 100 ∷ DynamicMacroItem.release 30 0 ∷ []

abbrev playing : ReplayState
playing = record { active_macros = 1 ∷ []; delay_remaining = 0; macro_items = a_tapped }

lasts : duration recorded 0 a_tapped ≤ 102
unfolding duration
lasts = omega arith

replay_ticks-item_events_example :
    replay_ticks 102 recorded (some playing) ≡ (item_events recorded a_tapped, none)
replay_ticks-item_events_example = replay_ticks-item_events 102 recorded playing lasts

abbrev as_it_is : List ℕ → List ℕ
as_it_is xs = xs

add_release-none_pressed_example :
    contains
      (pressed_from []
        (add_release_for_all_unreleased_presses as_it_is (DynamicMacroItem.press 30 5 ∷ [])))
      30
    ≡ false
add_release-none_pressed_example =
    add_release-none_pressed as_it_is (DynamicMacroItem.press 30 5 ∷ []) 30 (λ xs a. refl)

stop-begin_panic_iff_example :
    ((stop_macro as_it_is (some (new 4)) 0 ≡ none) ↔ NoEvent (new 4))
    × ((begin_record_macro as_it_is 4 (some (new 4)) ≡ none) ↔ NoEvent (new 4))
stop-begin_panic_iff_example = stop-begin_panic_iff as_it_is (new 4) 4 0

abbrev a_tap : List Act
a_tap = key 30 press ∷ tick ∷ tick ∷ key 30 release ∷ tick ∷ []

acts-recorded_keys_example :
    Option.map recorded_keys (acts as_it_is 4 (some (new 1)) a_tap)
    ≡ some (recorded_keys (new 1) ++ keys a_tap)
unfolding new
acts-recorded_keys_example = acts-recorded_keys as_it_is 4 a_tap (new 1) (omega arith)

abbrev two_macros : Recorded
two_macros id = some (DynamicMacroItem.press 48 0 ∷ DynamicMacroItem.release 48 0 ∷ [])

lasts_nested :
    duration constant 0
      ((DynamicMacroItem.press 48 0 ∷ DynamicMacroItem.release 48 0 ∷ []) ++ end_macro 2 ∷ a_tapped)
    ≤ 26
unfolding duration
lasts_nested = omega arith

play_macro_nested_example : replay_ticks 26 constant (play_macro 2 two_macros (some playing)) ≡ (
  item_events constant (DynamicMacroItem.press 48 0 ∷ DynamicMacroItem.release 48 0 ∷ [])
      ++ item_events constant a_tapped,
  none,
)
play_macro_nested_example =
    play_macro_nested constant playing 2 26 two_macros
      (DynamicMacroItem.press 48 0 ∷ DynamicMacroItem.release 48 0 ∷ []) refl refl lasts_nested
