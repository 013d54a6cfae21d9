-- ===== src/Layout/Manager/Sequences/Performed.antt =====
-- A macro that runs alone: the course of its ticks.
use kanata.Base.{
  ℕ, zero, suc, ◌+◌, ◌≡◌, refl, arith, Bool, true, false, List, [], ◌∷◌, ◌++◌, Option, none, some,
  all, ◌∙◌, Bool-cases, inl, inr, ap, ltb, ◌-◌,
}
use kanata.Layout.OneShot.{is_empty}
use kanata.Layout.State.{
  SequenceEvent, no_op, complete, press_key, release_key, tap_key, custom_in_sequence,
  delay as pause_for, seq_custom_pending,
}
use kanata.Layout.Deques.{Deques}
use kanata.Layout.Manager.{Layout, SequenceState}
use kanata.Layout.Manager.Parts.{push_state}
use kanata.Layout.Manager.Effects.{start_sequence}
use kanata.Layout.Manager.Sequences.{
  press_fake, release_fake, note_release, process_sequence, process_each, start_repeating,
  process_sequences, active_sequences_capacity,
}

counts_down : (n : ℕ) → (ltb 0 (suc n) ≡ true) × (suc n - 1 ≡ n)
counts_down n = (ground arith, omega arith)

module _ {T : Type 0} where
  -- The ticks that an event takes.
  abbrev pub duration_of : SequenceEvent T → ℕ
  duration_of (tap_key kc) = 2
  duration_of (pause_for (suc n)) = suc n
  duration_of _ = 1

  unfoldable pub duration : List (SequenceEvent T) → ℕ
  duration [] = 0
  duration (e ∷ events) = duration_of e + duration events

  abbrev pub goes_on : SequenceEvent T → Bool
  goes_on complete = false
  goes_on _ = true

  abbrev at_rest : Option (SequenceEvent T) → List (SequenceEvent T) → SequenceState T
  at_rest c rest = record { cur_event = c; delay = 0; tapped = none; remaining_events = rest }

  abbrev last_from : Option (SequenceEvent T) → List (SequenceEvent T) → Option (SequenceEvent T)
  last_from c [] = c
  last_from c (e ∷ events) = last_from (some e) events

  more_behind : (events : List (SequenceEvent T)) → is_empty (events ++ complete ∷ []) ≡ false
  more_behind [] = refl
  more_behind (e ∷ events) = refl

module _ {R T : Type 0} where
  -- The layout with one macro.
  abbrev pub with_sequence : SequenceState T → Layout R T → Layout R T
  with_sequence seq l = record l { active_sequences = seq ∷ [] }

  abbrev pub without_sequence : Layout R T → Layout R T
  without_sequence l = record l { active_sequences = [] }

module _ {R T : Type 0} (d : Deques) where
  abbrev pub effect : SequenceEvent T → Layout R T → Layout R T
  effect (press_key kc) l = press_fake d kc l
  effect (tap_key kc) l = release_fake kc (press_fake d kc l)
  effect (release_key kc) l = release_fake kc (note_release d l)
  effect (custom_in_sequence v) l = push_state (seq_custom_pending v) l
  effect _ l = l

  -- What the events do one after another.
  unfoldable pub effects : List (SequenceEvent T) → Layout R T → Layout R T
  unfolding press_fake release_fake note_release
  effects [] l = l
  effects (e ∷ events) l = effects events (effect e l)

  unfoldable pub process_ticks : ℕ → Layout R T → Layout R T
  unfolding process_sequences
  process_ticks zero l = l
  process_ticks (suc n) l = process_ticks n (process_sequences d l)

  process_ticks-add :
      (m n : ℕ) (l : Layout R T) → process_ticks (m + n) l ≡ process_ticks n (process_ticks m l)
  unfolding process_ticks
  process_ticks-add zero n l = let e : 0 + n ≡ n = omega arith in ap (λ k. process_ticks k l) e
  process_ticks-add (suc m) n l =
      let e : suc m + n ≡ suc (m + n) = omega arith in
      ap (λ k. process_ticks k l) e ∙ process_ticks-add m n (process_sequences d l)

  press_fake-without :
      (kc : ℕ) (l : Layout R T)
      → press_fake d kc (without_sequence l) ≡ without_sequence (press_fake d kc l)
  unfolding press_fake
  press_fake-without kc l = elim (Bool-cases l.pause_historical_keys_updates) [
    | inl e ↦ rw (e) refl
    | inr e ↦ rw (e) refl
  ]

  module _ (rest : List (SequenceEvent T)) (more : is_empty rest ≡ false) where
    -- A tick that leaves events of the macro.
    tick-left :
        (seq : SequenceState T) (c : Option (SequenceEvent T)) (n : ℕ) (t : Option ℕ)
        (l l' : Layout R T)
        → process_sequence d seq (without_sequence l) ≡ (
          record { cur_event = c; delay = n; tapped = t; remaining_events = rest },
          without_sequence l',
        )
        → process_sequences d (with_sequence seq l)
          ≡ with_sequence
              (record { cur_event = c; delay = n; tapped = t; remaining_events = rest })
              l'
    unfolding process_sequences process_each start_repeating
    tick-left seq c n t l l' h =
        let seq' : SequenceState T = record {
          cur_event = c;
          delay = n;
          tapped = t;
          remaining_events = rest;
        } in
        rw (h, more, d.push_back_room active_sequences_capacity [] seq' (omega arith)) refl

    paused :
        (n : ℕ) (c : Option (SequenceEvent T)) (l : Layout R T)
        → process_ticks n (
            with_sequence
              (record { cur_event = c; delay = n; tapped = none; remaining_events = rest })
              l)
          ≡ with_sequence (at_rest c rest) l
    unfolding process_ticks
    paused zero c l = refl
    paused (suc n) c l =
        ap (process_ticks n) (
          tick-left
            (record { cur_event = c; delay = suc n; tapped = none; remaining_events = rest }) c n
            none l l (rw ((counts_down n).0, (counts_down n).1) refl))
        ∙ paused n c l

    event-performed :
        (e : SequenceEvent T) (c : Option (SequenceEvent T)) (l : Layout R T)
        → goes_on e ≡ true
        → process_ticks (duration_of e) (with_sequence (at_rest c (e ∷ rest)) l)
          ≡ with_sequence (at_rest (some e) rest) (effect e l)
    unfolding process_ticks release_fake note_release
    event-performed no_op c l h = tick-left (at_rest c (no_op ∷ rest)) (some no_op) 0 none l l refl
    event-performed complete c l h = cc
    event-performed (press_key kc) c l h =
        tick-left (at_rest c (press_key kc ∷ rest)) (some (press_key kc)) 0 none l
          (press_fake d kc l) (rw (press_fake-without kc l) refl)
    event-performed (release_key kc) c l h =
        tick-left (at_rest c (release_key kc ∷ rest)) (some (release_key kc)) 0 none l
          (release_fake kc (note_release d l)) refl
    event-performed (tap_key kc) c l h =
        ap (process_sequences d) (
          tick-left (at_rest c (tap_key kc ∷ rest)) (some (tap_key kc)) 0 (some kc) l
            (press_fake d kc l) (rw (press_fake-without kc l) refl))
        ∙ tick-left
            (record {
              cur_event = some (tap_key kc);
              delay = 0;
              tapped = some kc;
              remaining_events = rest;
            })
            (some (tap_key kc)) 0 none (press_fake d kc l) (release_fake kc (press_fake d kc l))
            refl
    event-performed (pause_for zero) c l h =
        tick-left (at_rest c (pause_for zero ∷ rest)) (some (pause_for zero)) 0 none l l refl
    event-performed (pause_for (suc n)) c l h =
        ap (process_ticks n) (
          tick-left (at_rest c (pause_for (suc n) ∷ rest)) (some (pause_for (suc n))) n none l l
            (rw ((counts_down n).0, (counts_down n).1) refl))
        ∙ paused n (some (pause_for (suc n))) l
    event-performed (custom_in_sequence v) c l h =
        tick-left (at_rest c (custom_in_sequence v ∷ rest)) (some (custom_in_sequence v)) 0 none l
          (push_state (seq_custom_pending v) l) refl

  events-performed :
      (events : List (SequenceEvent T)) (c : Option (SequenceEvent T)) (l : Layout R T)
      → all goes_on events ≡ true
      → process_ticks (duration events) (with_sequence (at_rest c (events ++ complete ∷ [])) l)
        ≡ with_sequence (at_rest (last_from c events) (complete ∷ [])) (effects events l)
  unfolding duration effects process_ticks
  events-performed [] c l h = refl
  events-performed (e ∷ events) c l h =
      process_ticks-add (duration_of e) (duration events)
        (with_sequence (at_rest c (e ∷ events ++ complete ∷ [])) l)
      ∙ ap (process_ticks (duration events))
          (event-performed (events ++ complete ∷ []) (more_behind events) e c l (ground arith))
      ∙ events-performed events (some e) (effect e l) (ground arith)

  completed :
      (c : Option (SequenceEvent T)) (l : Layout R T)
      → process_sequences d (with_sequence (at_rest c (complete ∷ [])) l)
        ≡ start_repeating d (without_sequence l)
  unfolding process_sequences process_each
  completed c l = refl

-- A macro that is the only one, none of whose events but the last completes it, takes a tick for each
-- event, one more for a tap, and as many as its duration for a delay of at least one, and a last one.
-- Over these ticks the events do their effects one after another, a tap's press with its release, and
-- nothing else happens to the layout; no macro is left then, and the latest that repeats, if any,
-- starts.
pub process_sequences-performed :
    {R T : Type 0} (d : Deques) (events : List (SequenceEvent T)) (l : Layout R T)
    → all goes_on events ≡ true
    → process_ticks d
        (duration events + 1)
        (with_sequence (start_sequence (events ++ complete ∷ [])) l)
      ≡ start_repeating d (without_sequence (effects d events l))
unfolding process_ticks
process_sequences-performed d events l h =
    process_ticks-add d (duration events) 1
      (with_sequence (start_sequence (events ++ complete ∷ [])) l)
    ∙ ap (process_ticks d 1) (events-performed d events none l h)
    ∙ completed d (last_from none events) (effects d events l)
