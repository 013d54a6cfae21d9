-- ===== src/Tests/Chords.antt =====
-- Chords at concrete groups and queues.
use kanata.Base.{ℕ, ◌≡◌, refl, arith, List, [], ◌∷◌, ◌++◌, none, some}
use kanata.Layout.Chords.Decided.{Decided, handle_chord-Decided}
use kanata.Layout.Chords.Decompose.{pressed_order, entry_for, decompose_chord_into_action_queue}
use kanata.Layout.Chords.Decomposed.{pushes, decompose-Split}
use kanata.Layout.Chords.Group.{ChordsGroup, get_chord_if_unambiguous, find_unambiguous}
use kanata.Layout.Chords.Handle.{handle_chord}
use kanata.Layout.Chords.Split.{Split}
use kanata.Layout.Event.{press, Queued}
use kanata.Layout.HoldTap.{WaitingState}

-- Four keys; defined are the first two together, each of the last two, and the last three.
abbrev group : ChordsGroup ℕ
group = record {
  coords = ((0, 35), 1) ∷ ((0, 36), 2) ∷ ((0, 37), 4) ∷ ((0, 38), 8) ∷ [];
  chords = (3, 100) ∷ (4, 101) ∷ (8, 102) ∷ (14, 103) ∷ [];
}

abbrev pressed : ℕ → Queued
pressed j = record { event = press (0, j); since = 5 }

abbrev all_four : List Queued
all_four = pressed 36 ∷ pressed 37 ∷ pressed 38 ∷ []

abbrev waiting : WaitingState
waiting = record {
  coord = (0, 35);
  timeout = 20;
  on_press_reset_timeout_to = none;
  delay = 20;
  ticks = 9;
  prev_queue_len = 3;
}

abbrev push_back : {A : Type 0} → List A → A → List A
push_back xs x = xs ++ x ∷ []

first_two_then_each :
    decompose_chord_into_action_queue push_back group waiting all_four []
    ≡ some (((0, 35), 29, 100) ∷ ((0, 37), 29, 101) ∷ ((0, 38), 29, 102) ∷ [])
unfolding decompose_chord_into_action_queue
first_two_then_each = refl

decompose-Split_example :
    (found : List (ℕ × ℕ)) × Split group.chords
      (pressed_order group waiting all_four).chord_key_order
      found
    × (decompose_chord_into_action_queue push_back group waiting all_four []
        ≡ some (
            pushes
              (entry_for group waiting all_four
                (pressed_order group waiting all_four).associated_coord)
              push_back
              []
              found))
decompose-Split_example = decompose-Split push_back group waiting all_four []

one_key_is_ambiguous : get_chord_if_unambiguous group 4 ≡ none
unfolding find_unambiguous
one_key_is_ambiguous = refl

handle_chord-Decided_example :
    Decided push_back push_back 7 (handle_chord push_back push_back 7 group waiting all_four [])
handle_chord-Decided_example =
    handle_chord-Decided push_back push_back 7 group waiting all_four [] (omega arith)
