-- ===== src/KeyOverride/Erase.antt =====
-- parser/src/cfg/key_override.rs, `mark_overridden_nonmodkeys_for_eager_erasure`: the keys that are
-- overridden are marked in the layout, so that they are cleared early.
pub mod Cleared
use kanata.Base.{
  ℕ, zero, suc, ◌+◌, ◌*◌, ◌/◌, ◌%◌, ◌≤◌, ◌≡◌, refl, arith, Bool, true, false, not, ◌&&◌, ◌||◌, List,
  [], ◌∷◌, ◌==◌, if◌then◌else◌, bit_or, bit_and, any, min, max,
}
use kanata.KeyOverride.Mask.{is_modifier}
use kanata.KeyOverride.Apply.{OverrideStates}
use kanata.Layout.State.{
  State, normal_key, layer_modifier, custom, fake_key, repeating_sequence, seq_custom_pending,
  seq_custom_active, tombstone, no_op_input, clear_on_next_action_flag, clear_on_next_release_flag,
}

module _ {T : Type 0} where
  abbrev mark : ℕ → State T → State T
  mark kc (normal_key keycode coord flags) =
      if kc == keycode
      then normal_key keycode coord
          (bit_or flags (bit_or clear_on_next_action_flag clear_on_next_release_flag))
      else normal_key keycode coord flags
  mark kc s = s

  unfoldable pub mark_all : ℕ → List (State T) → List (State T)
  mark_all kc [] = []
  mark_all kc (s ∷ states) = mark kc s ∷ mark_all kc states

  unfoldable pub mark_removed : List ℕ → List (State T) → List (State T)
  unfolding mark_all
  mark_removed [] states = states
  mark_removed (osc ∷ oscs) states =
      if is_modifier osc then mark_removed oscs states else mark_removed oscs (mark_all osc states)

  unfoldable pub mark_overridden_nonmodkeys_for_eager_erasure :
      OverrideStates → List (State T) → List (State T)
  unfolding mark_removed
  mark_overridden_nonmodkeys_for_eager_erasure override_states states =
      mark_removed override_states.oscs_to_remove states
