-- ===== src/KeyOverride/Erase/Cleared.antt =====
-- Which keys the next action clears behind the marking of those that are overridden.
use kanata.Base.{
  ℕ, ◌≡◌, refl, arith, Bool, true, false, not, ◌&&◌, ◌||◌, List, [], ◌∷◌, ◌==◌, any, ◌∙◌,
  Bool-cases, inl, inr,
}
use kanata.Base.Bits.Digits.{bit_and-one}
use kanata.KeyOverride.Mask.{is_modifier}
use kanata.KeyOverride.Apply.{OverrideStates}
use kanata.KeyOverride.Erase.{mark_all, mark_removed, mark_overridden_nonmodkeys_for_eager_erasure}
use kanata.Layout.State.{
  State, normal_key, layer_modifier, custom, fake_key, repeating_sequence, seq_custom_pending,
  seq_custom_active, tombstone, no_op_input,
}
use kanata.Layout.Manager.{Layout}
use kanata.Layout.Manager.Parts.{keep, is_cleared, clear_states}

module _ {T : Type 0} where
  -- The state is of a key among these that is no modifier.
  abbrev pub is_removed : List ℕ → State T → Bool
  is_removed oscs (normal_key kc c flags) = any (λ osc. not (is_modifier osc) && osc == kc) oscs
  is_removed oscs _ = false

  abbrev pub stays : List ℕ → State T → Bool
  stays oscs s = not (is_cleared s || is_removed oscs s)

  keep-mark_all :
      (osc : ℕ) (oscs : List ℕ) (states : List (State T))
      → is_modifier osc ≡ false
      → keep (stays oscs) (mark_all osc states) ≡ keep (stays (osc ∷ oscs)) states
  unfolding keep mark_all
  keep-mark_all osc oscs [] no_mod = refl
  keep-mark_all osc oscs (normal_key kc c flags ∷ states) no_mod =
      ground (arith, keep-mark_all osc oscs states no_mod, bit_and-one flags)
  keep-mark_all osc oscs (layer_modifier n c ∷ states) no_mod =
      ground (arith, keep-mark_all osc oscs states no_mod)
  keep-mark_all osc oscs (custom v c ∷ states) no_mod =
      ground (arith, keep-mark_all osc oscs states no_mod)
  keep-mark_all osc oscs (fake_key kc ∷ states) no_mod =
      ground (arith, keep-mark_all osc oscs states no_mod)
  keep-mark_all osc oscs (repeating_sequence events c ∷ states) no_mod =
      ground (arith, keep-mark_all osc oscs states no_mod)
  keep-mark_all osc oscs (seq_custom_pending v ∷ states) no_mod =
      ground (arith, keep-mark_all osc oscs states no_mod)
  keep-mark_all osc oscs (seq_custom_active v ∷ states) no_mod =
      ground (arith, keep-mark_all osc oscs states no_mod)
  keep-mark_all osc oscs (tombstone ∷ states) no_mod =
      ground (arith, keep-mark_all osc oscs states no_mod)
  keep-mark_all osc oscs (no_op_input c ∷ states) no_mod =
      ground (arith, keep-mark_all osc oscs states no_mod)

  keep-same :
      (p q : State T → Bool) (states : List (State T))
      → ((s : State T) → p s ≡ q s)
      → keep p states ≡ keep q states
  unfolding keep
  keep-same p q [] h = refl
  keep-same p q (s ∷ states) h = rw (h s, keep-same p q states h) refl

  stays-modifier :
      (osc : ℕ) (oscs : List ℕ) (s : State T)
      → is_modifier osc ≡ true
      → stays oscs s ≡ stays (osc ∷ oscs) s
  stays-modifier osc oscs (normal_key kc c flags) is_mod = rw is_mod refl
  stays-modifier osc oscs (layer_modifier n c) is_mod = refl
  stays-modifier osc oscs (custom v c) is_mod = refl
  stays-modifier osc oscs (fake_key kc) is_mod = refl
  stays-modifier osc oscs (repeating_sequence events c) is_mod = refl
  stays-modifier osc oscs (seq_custom_pending v) is_mod = refl
  stays-modifier osc oscs (seq_custom_active v) is_mod = refl
  stays-modifier osc oscs tombstone is_mod = refl
  stays-modifier osc oscs (no_op_input c) is_mod = refl

  stays-none : (s : State T) → not (is_cleared s) ≡ stays [] s
  stays-none (normal_key kc c flags) = ground arith
  stays-none (layer_modifier n c) = refl
  stays-none (custom v c) = refl
  stays-none (fake_key kc) = refl
  stays-none (repeating_sequence events c) = refl
  stays-none (seq_custom_pending v) = refl
  stays-none (seq_custom_active v) = refl
  stays-none tombstone = refl
  stays-none (no_op_input c) = refl

  keep-mark_removed :
      (oscs : List ℕ) (states : List (State T))
      → keep (stays []) (mark_removed oscs states) ≡ keep (stays oscs) states
  unfolding mark_removed
  keep-mark_removed [] states = refl
  keep-mark_removed (osc ∷ oscs) states = elim (Bool-cases (is_modifier osc)) [
    | inl is_mod ↦ rw is_mod (
        keep-mark_removed oscs states
        ∙ keep-same (stays oscs) (stays (osc ∷ oscs)) states
            (λ s. stays-modifier osc oscs s is_mod))
    | inr no_mod ↦
        rw no_mod
          (keep-mark_removed oscs (mark_all osc states) ∙ keep-mark_all osc oscs states no_mod)
  ]

-- Behind the marking, what the next action clears are the keys that were marked before and those that
-- are overridden and no modifiers, wherever they were pressed; all other states stay as they are.
pub clear_states-marked :
    {R T : Type 0} (os : OverrideStates) (l : Layout R T)
    → (clear_states
        (record l { states = mark_overridden_nonmodkeys_for_eager_erasure os l.states })).states
      ≡ keep (λ s. not (is_cleared s || is_removed os.oscs_to_remove s)) l.states
unfolding clear_states mark_overridden_nonmodkeys_for_eager_erasure
clear_states-marked os l =
    keep-same (λ s. not (is_cleared s)) (stays []) (mark_removed os.oscs_to_remove l.states)
      (λ s. stays-none s)
    ∙ keep-mark_removed os.oscs_to_remove l.states
