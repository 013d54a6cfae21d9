-- ===== src/Layout/Manager/Tick/Plain.antt =====
-- States that the macros leave alone.
use kanata.Base.{◌≡◌, refl, arith, Bool, true, false, not, List, [], ◌∷◌, none, all}
use kanata.Layout.State.{
  State, no_event, normal_key, layer_modifier, custom, fake_key, repeating_sequence,
  seq_custom_pending, seq_custom_active, tombstone, no_op_input,
}
use kanata.Layout.Manager.Parts.{keep}
use kanata.Layout.Manager.Sequences.{is_tombstone, latest_repeating, process_custom_states}

-- A state that is not of a macro.
abbrev pub is_plain : {T : Type 0} → State T → Bool
is_plain (repeating_sequence events c) = false
is_plain (seq_custom_pending v) = false
is_plain (seq_custom_active v) = false
is_plain tombstone = false
is_plain _ = true

module _ {T : Type 0} where
  pub latest_repeating-plain :
      (states : List (State T)) → all is_plain states ≡ true → latest_repeating states ≡ none
  unfolding latest_repeating
  latest_repeating-plain [] h = refl
  latest_repeating-plain (normal_key kc c flags ∷ states) h = latest_repeating-plain states h
  latest_repeating-plain (layer_modifier n c ∷ states) h = latest_repeating-plain states h
  latest_repeating-plain (custom v c ∷ states) h = latest_repeating-plain states h
  latest_repeating-plain (fake_key kc ∷ states) h = latest_repeating-plain states h
  latest_repeating-plain (repeating_sequence events c ∷ states) h = absurd (ground arith)
  latest_repeating-plain (seq_custom_pending v ∷ states) h = absurd (ground arith)
  latest_repeating-plain (seq_custom_active v ∷ states) h = absurd (ground arith)
  latest_repeating-plain (tombstone ∷ states) h = absurd (ground arith)
  latest_repeating-plain (no_op_input c ∷ states) h = latest_repeating-plain states h

  pub customs-plain :
      (states : List (State T))
      → all is_plain states ≡ true
      → process_custom_states (keep (λ s. not (is_tombstone s)) states) no_event
        ≡ (states, no_event)
  unfolding process_custom_states keep
  customs-plain [] h = refl
  customs-plain (normal_key kc c flags ∷ states) h = rw (customs-plain states h) refl
  customs-plain (layer_modifier n c ∷ states) h = rw (customs-plain states h) refl
  customs-plain (custom v c ∷ states) h = rw (customs-plain states h) refl
  customs-plain (fake_key kc ∷ states) h = rw (customs-plain states h) refl
  customs-plain (repeating_sequence events c ∷ states) h = absurd (ground arith)
  customs-plain (seq_custom_pending v ∷ states) h = absurd (ground arith)
  customs-plain (seq_custom_active v ∷ states) h = absurd (ground arith)
  customs-plain (tombstone ∷ states) h = absurd (ground arith)
  customs-plain (no_op_input c ∷ states) h = rw (customs-plain states h) refl
