-- ===== src/Layout/Manager/Within/Sequences.antt =====
-- Running macros keeps the coordinates of the layout within a set.
use kanata.Base.{
  ℕ, zero, suc, ◌≡◌, refl, arith, true, List, [], ◌∷◌, Option, none, some, KCoord, Bool, all, not,
  length,
}
use kanata.Layout.State.{
  State, CustomEvent, no_event, pressed, released, SequenceEvent, no_op, complete, press_key,
  release_key, tap_key, custom_in_sequence, delay as pause_for, fake_key, seq_custom_pending,
  normal_key, layer_modifier, custom, repeating_sequence, seq_custom_active, tombstone, no_op_input,
}
use kanata.Layout.Deques.{Deques}
use kanata.Layout.Manager.{Layout, SequenceState}
use kanata.Layout.Manager.Parts.{keep}
use kanata.Layout.Manager.Sequences.{
  press_fake, release_fake, note_release, process_event, process_due, pull, process_sequence,
  put_back, process_front, process_each, start_repeating, process_sequences, is_tombstone,
  process_custom_states, process_sequence_custom,
}
use kanata.Layout.Manager.Within.{IsWithin, state_in}
use kanata.Layout.Manager.Within.Layouts.{
  all-keep, push_state-IsWithin, push_historical_key-IsWithin,
}

all-process_custom_states :
    {T : Type 0} (P : KCoord → Bool) (states : List (State T)) (current : CustomEvent T)
    → all (state_in P) states ≡ true
    → all (state_in P) (process_custom_states states current).0 ≡ true
unfolding process_custom_states
all-process_custom_states P [] current h = refl
all-process_custom_states P (seq_custom_pending v ∷ states) current h = h
all-process_custom_states P (seq_custom_active v ∷ states) current h = h
all-process_custom_states P (normal_key kc c flags ∷ states) current h =
    ground (arith, all-process_custom_states P states current)
all-process_custom_states P (layer_modifier n c ∷ states) current h =
    ground (arith, all-process_custom_states P states current)
all-process_custom_states P (custom v c ∷ states) current h =
    ground (arith, all-process_custom_states P states current)
all-process_custom_states P (fake_key kc ∷ states) current h =
    all-process_custom_states P states current h
all-process_custom_states P (repeating_sequence events c ∷ states) current h =
    ground (arith, all-process_custom_states P states current)
all-process_custom_states P (tombstone ∷ states) current h =
    all-process_custom_states P states current h
all-process_custom_states P (no_op_input c ∷ states) current h =
    ground (arith, all-process_custom_states P states current)

module _ {R T : Type 0} {P : KCoord → Bool} where
  pub process_sequence_custom-IsWithin :
      (e : CustomEvent T) (l : Layout R T)
      → IsWithin P l
      → IsWithin P (process_sequence_custom e l).1
  unfolding process_sequence_custom
  process_sequence_custom-IsWithin no_event l h =
      let kept =
        all-process_custom_states P (keep (λ s. not (is_tombstone s)) l.states) no_event
          (all-keep _ _ l.states h.states_within) in
      ground arith
  process_sequence_custom-IsWithin (pressed v) l h = h
  process_sequence_custom-IsWithin (released v) l h = h

  release_fake-IsWithin : (kc : ℕ) (l : Layout R T) → IsWithin P l → IsWithin P (release_fake kc l)
  unfolding release_fake
  release_fake-IsWithin kc l h =
      let kept = all-keep _ _ l.states h.states_within in
      record {
        states_within = kept;
        queue_within = h.queue_within;
        waiting_within = h.waiting_within;
        extra_within = h.extra_within;
        actions_within = h.actions_within;
      }

module _ {R T : Type 0} {P : KCoord → Bool} (d : Deques) where
  press_fake-IsWithin : (kc : ℕ) (l : Layout R T) → IsWithin P l → IsWithin P (press_fake d kc l)
  unfolding press_fake
  press_fake-IsWithin kc l h =
      let noted =
        push_historical_key-IsWithin d kc _ (push_state-IsWithin (fake_key kc) l refl h) in
      record {
        states_within = noted.states_within;
        queue_within = noted.queue_within;
        waiting_within = noted.waiting_within;
        extra_within = noted.extra_within;
        actions_within = noted.actions_within;
      }

  note_release-IsWithin : (l : Layout R T) → IsWithin P l → IsWithin P (note_release d l)
  unfolding note_release
  note_release-IsWithin l h = record {
    states_within = h.states_within;
    queue_within = h.queue_within;
    waiting_within = h.waiting_within;
    extra_within = h.extra_within;
    actions_within = h.actions_within;
  }

  process_event-IsWithin :
      (o : Option (SequenceEvent T)) (seq : SequenceState T) (l : Layout R T)
      → IsWithin P l
      → IsWithin P (process_event d o seq l).1
  process_event-IsWithin none seq l h = h
  process_event-IsWithin (some no_op) seq l h = h
  process_event-IsWithin (some complete) seq l h = h
  process_event-IsWithin (some (press_key kc)) seq l h = press_fake-IsWithin kc l h
  process_event-IsWithin (some (tap_key kc)) seq l h = press_fake-IsWithin kc l h
  process_event-IsWithin (some (release_key kc)) seq l h =
      release_fake-IsWithin kc (note_release d l) (note_release-IsWithin l h)
  process_event-IsWithin (some (pause_for n)) seq l h = h
  process_event-IsWithin (some (custom_in_sequence v)) seq l h =
      push_state-IsWithin (seq_custom_pending v) l refl h

  process_due-IsWithin :
      (seq : SequenceState T) (tapped : Option ℕ) (l : Layout R T)
      → seq.tapped ≡ tapped
      → IsWithin P l
      → IsWithin P (process_due d seq l).1
  process_due-IsWithin seq none l e h =
      let next = pull (record seq { tapped = none }) in
      rw (e) (process_event-IsWithin next.cur_event next l h)
  process_due-IsWithin seq (some kc) l e h = rw (e) (release_fake-IsWithin kc l h)

  process_sequence-IsWithin :
      (seq : SequenceState T) (l : Layout R T)
      → IsWithin P l
      → IsWithin P (process_sequence d seq l).1
  process_sequence-IsWithin seq l h =
      let due = process_due-IsWithin seq seq.tapped l refl h in ground arith

  put_back-IsWithin :
      (seq : SequenceState T) (l : Layout R T) → IsWithin P l → IsWithin P (put_back d seq l)
  put_back-IsWithin seq l h = ground arith

  process_front-IsWithin :
      (seqs : List (SequenceState T)) (l : Layout R T)
      → IsWithin P l
      → IsWithin P (process_front d seqs l)
  process_front-IsWithin [] l h = h
  process_front-IsWithin (seq ∷ seqs) l h =
      let taken : IsWithin P (record l { active_sequences = seqs }) = ground arith in
      put_back-IsWithin _ _ (process_sequence-IsWithin seq _ taken)

  process_each-IsWithin : (n : ℕ) (l : Layout R T) → IsWithin P l → IsWithin P (process_each d n l)
  unfolding process_each
  process_each-IsWithin zero l h = h
  process_each-IsWithin (suc n) l h =
      process_each-IsWithin n _ (process_front-IsWithin l.active_sequences l h)

  start_repeating-IsWithin : (l : Layout R T) → IsWithin P l → IsWithin P (start_repeating d l)
  unfolding start_repeating
  start_repeating-IsWithin l h = ground arith

  pub process_sequences-IsWithin :
      (l : Layout R T) → IsWithin P l → IsWithin P (process_sequences d l)
  unfolding process_sequences
  process_sequences-IsWithin l h =
      start_repeating-IsWithin _ (process_each-IsWithin (length l.active_sequences) l h)
