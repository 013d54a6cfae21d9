-- ===== src/Layout/Manager/Sequences.antt =====
-- keyberon/src/layout.rs, `process_sequences` and `process_sequence_custom`: the macros that run.
pub mod Performed
pub mod Told
use kanata.Base.{
  ℕ, zero, suc, ◌-◌, Bool, true, false, not, List, [], ◌∷◌, Option, none, some, ltb, if◌then◌else◌,
  length,
}
use kanata.Layout.OneShot.{other, handle_press, handle_release, is_empty}
use kanata.Layout.State.{
  State, CustomEvent, no_event, pressed, released, update, SequenceEvent, no_op, complete,
  press_key, release_key, tap_key, custom_in_sequence, delay as pause_for, seq_release, fake_key,
  repeating_sequence, seq_custom_pending, seq_custom_active, tombstone,
}
use kanata.Layout.Deques.{Deques, one_shot_deque}
use kanata.Layout.Manager.{Layout, SequenceState}
use kanata.Layout.Manager.Parts.{keep, push_state, push_historical_key}
use kanata.Layout.Manager.Effects.{start_sequence}

-- The capacity of `active_sequences`.
abbrev pub active_sequences_capacity : ℕ
active_sequences_capacity = 4

module _ {T : Type 0} where
  -- The next event becomes the current one; behind the last, the last is processed again.
  abbrev pub pull : SequenceState T → SequenceState T
  pull seq = elim seq.remaining_events [
    | [] ↦ seq
    | e ∷ tail ↦ record seq { cur_event = some e; remaining_events = tail }
  ]

  -- The macro of the last state that repeats one.
  unfoldable pub latest_repeating : List (State T) → Option (List (SequenceEvent T))
  latest_repeating [] = none
  latest_repeating (repeating_sequence events c ∷ states) = elim (latest_repeating states) [
    | none ↦ some events
    | some later ↦ some later
  ]
  latest_repeating (_ ∷ states) = latest_repeating states

module _ {R T : Type 0} where
  unfoldable pub release_fake : ℕ → Layout R T → Layout R T
  unfolding keep
  release_fake kc l = record l { states = keep (λ s. seq_release s kc) l.states }

module _ {R T : Type 0} (d : Deques) where
  -- A key of a macro is pressed, for one shot keys at (0, 0).
  unfoldable pub press_fake : ℕ → Layout R T → Layout R T
  unfolding handle_press
  press_fake kc l =
      let l' = push_historical_key d kc (push_state (fake_key kc) l) in
      record l' { oneshot = (handle_press (one_shot_deque d) l'.oneshot (other (0, 0))).1 }

  unfoldable pub note_release : Layout R T → Layout R T
  unfolding handle_release
  note_release l = record l { oneshot = (handle_release (one_shot_deque d) l.oneshot (0, 0)).1 }

  abbrev pub process_event :
      Option (SequenceEvent T) → SequenceState T → Layout R T → SequenceState T × Layout R T
  process_event none seq l = (seq, l)
  process_event (some no_op) seq l = (seq, l)
  process_event (some complete) seq l = (record seq { remaining_events = [] }, l)
  process_event (some (press_key kc)) seq l = (seq, press_fake kc l)
  process_event (some (tap_key kc)) seq l = (record seq { tapped = some kc }, press_fake kc l)
  process_event (some (release_key kc)) seq l = (seq, release_fake kc (note_release l))
  process_event (some (pause_for duration)) seq l =
      ((if ltb 0 duration then record seq { delay = duration - 1 } else seq), l)
  process_event (some (custom_in_sequence v)) seq l = (seq, push_state (seq_custom_pending v) l)

  abbrev pub process_due : SequenceState T → Layout R T → SequenceState T × Layout R T
  process_due seq l = elim seq.tapped [
    | some kc ↦ (record seq { tapped = none }, release_fake kc l)
    | none ↦ process_event (pull seq).cur_event (pull seq) l
  ]

  abbrev pub process_sequence : SequenceState T → Layout R T → SequenceState T × Layout R T
  process_sequence seq l =
      if ltb 0 seq.delay then (record seq { delay = seq.delay - 1 }, l) else process_due seq l

  abbrev pub put_back : SequenceState T → Layout R T → Layout R T
  put_back seq l = if is_empty seq.remaining_events then l else record l {
    active_sequences = (d.push_back active_sequences_capacity l.active_sequences seq).0;
  }

  abbrev pub process_front : List (SequenceState T) → Layout R T → Layout R T
  process_front [] l = l
  process_front (seq ∷ seqs) l =
      let (seq', l') = process_sequence seq (record l { active_sequences = seqs }) in
      put_back seq' l'

  unfoldable pub process_each : ℕ → Layout R T → Layout R T
  unfolding press_fake release_fake note_release
  process_each zero l = l
  process_each (suc n) l = process_each n (process_front l.active_sequences l)

  -- Where no macro is left, one that repeats starts.
  unfoldable pub start_repeating : Layout R T → Layout R T
  unfolding latest_repeating
  start_repeating l =
      if is_empty l.active_sequences
      then elim (latest_repeating l.states) [
        | none ↦ l
        | some events ↦ record l {
          active_sequences =
              (d.push_back active_sequences_capacity l.active_sequences (start_sequence events)).0;
        }
      ]
      else l

  unfoldable pub process_sequences : Layout R T → Layout R T
  unfolding process_each start_repeating
  process_sequences l = start_repeating (process_each (length l.active_sequences) l)

module _ {T : Type 0} where
  abbrev pub is_tombstone : State T → Bool
  is_tombstone tombstone = true
  is_tombstone _ = false

  -- The first custom action of a macro is pressed or, on the next tick, released.
  unfoldable pub process_custom_states :
      List (State T) → CustomEvent T → List (State T) × CustomEvent T
  process_custom_states [] current = ([], current)
  process_custom_states (seq_custom_pending v ∷ states) current =
      (seq_custom_active v ∷ states, update current (pressed v))
  process_custom_states (seq_custom_active v ∷ states) current =
      (tombstone ∷ states, update current (released v))
  process_custom_states (s ∷ states) current =
      let (states', told) = process_custom_states states current in (s ∷ states', told)

module _ {R T : Type 0} where
  unfoldable pub process_sequence_custom : CustomEvent T → Layout R T → CustomEvent T × Layout R T
  unfolding keep process_custom_states
  process_sequence_custom no_event l =
      if is_empty l.states
      then (no_event, l)
      else (let (states', told) =
            process_custom_states (keep (λ s. not (is_tombstone s)) l.states) no_event in
          (told, record l { states = states' }))
  process_sequence_custom (pressed v) l = (pressed v, l)
  process_sequence_custom (released v) l = (released v, l)
