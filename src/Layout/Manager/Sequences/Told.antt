-- ===== src/Layout/Manager/Sequences/Told.antt =====
-- The custom actions of macros, over several ticks.
use kanata.Base.{
  ℕ, zero, suc, ◌*◌, ◌≡◌, refl, arith, Bool, true, false, not, List, [], ◌∷◌, ◌∙◌, ap, all, length,
}
use kanata.Layout.State.{
  State, CustomEvent, no_event, pressed, released, normal_key, layer_modifier, custom, fake_key,
  repeating_sequence, seq_custom_pending, seq_custom_active, tombstone, no_op_input,
}
use kanata.Layout.Manager.{Layout}
use kanata.Layout.Manager.Parts.{keep}
use kanata.Layout.Manager.Sequences.{is_tombstone, process_custom_states, process_sequence_custom}

module _ {T : Type 0} where
  -- No custom action of a macro is pressed.
  abbrev pub is_settled : State T → Bool
  is_settled (seq_custom_active v) = false
  is_settled _ = true

  -- The custom actions of macros that are not yet pressed.
  unfoldable pub pending : List (State T) → List T
  pending [] = []
  pending (seq_custom_pending v ∷ states) = v ∷ pending states
  pending (_ ∷ states) = pending states

  abbrev pub pressed_and_released : List T → List (CustomEvent T)
  pressed_and_released [] = []
  pressed_and_released (v ∷ vs) = pressed v ∷ released v ∷ pressed_and_released vs

  abbrev standing : List (State T) → List (State T)
  standing states = keep (λ s. not (is_tombstone s)) states

  -- What the states tell and leave on a tick.
  abbrev ticked : List (State T) → List (State T) × CustomEvent T
  ticked states = process_custom_states (standing states) no_event

  abbrev told_over : ℕ → List (State T) → List (CustomEvent T)
  told_over zero states = []
  told_over (suc n) states = let (states', e) = ticked states in e ∷ told_over n states'

  pending-standing : (states : List (State T)) → pending (standing states) ≡ pending states
  unfolding pending keep
  pending-standing [] = refl
  pending-standing (normal_key kc c flags ∷ states) = pending-standing states
  pending-standing (layer_modifier n c ∷ states) = pending-standing states
  pending-standing (custom v c ∷ states) = pending-standing states
  pending-standing (fake_key kc ∷ states) = pending-standing states
  pending-standing (repeating_sequence events c ∷ states) = pending-standing states
  pending-standing (seq_custom_pending v ∷ states) = ap (λ vs. v ∷ vs) (pending-standing states)
  pending-standing (seq_custom_active v ∷ states) = pending-standing states
  pending-standing (tombstone ∷ states) = pending-standing states
  pending-standing (no_op_input c ∷ states) = pending-standing states

  standing-settled :
      (states : List (State T))
      → all is_settled states ≡ true
      → all is_settled (standing states) ≡ true
  unfolding keep
  standing-settled [] h = refl
  standing-settled (s ∷ states) h = ground (arith, standing-settled states)

  -- Two ticks of states without tombstones.
  abbrev TwoTicks : T → List T → List (State T) → Type 0
  TwoTicks v vs states =
      let (states', first) = process_custom_states states no_event in
      let (states'', second) = ticked states' in
      (first ≡ pressed v)
      × (second ≡ released v)
      × (pending states'' ≡ vs)
      × (all is_settled states'' ≡ true)

  TwoTicks-behind :
      (v : T) (vs : List T) (states : List (State T))
      → all is_settled states ≡ true
      → pending states ≡ v ∷ vs
      → TwoTicks v vs states
  unfolding pending keep process_custom_states
  TwoTicks-behind v vs [] h p = absurd cc
  TwoTicks-behind v vs (normal_key kc c flags ∷ states) h p = TwoTicks-behind v vs states h p
  TwoTicks-behind v vs (layer_modifier n c ∷ states) h p = TwoTicks-behind v vs states h p
  TwoTicks-behind v vs (custom w c ∷ states) h p = TwoTicks-behind v vs states h p
  TwoTicks-behind v vs (fake_key kc ∷ states) h p = TwoTicks-behind v vs states h p
  TwoTicks-behind v vs (repeating_sequence events c ∷ states) h p = TwoTicks-behind v vs states h p
  TwoTicks-behind v vs (seq_custom_pending w ∷ states) h p =
      (cc, cc, pending-standing states ∙ cc, standing-settled states h)
  TwoTicks-behind v vs (seq_custom_active w ∷ states) h p = absurd cc
  TwoTicks-behind v vs (tombstone ∷ states) h p = TwoTicks-behind v vs states h p
  TwoTicks-behind v vs (no_op_input c ∷ states) h p = TwoTicks-behind v vs states h p

  told_over-pending :
      (vs : List T) (states : List (State T))
      → all is_settled states ≡ true
      → pending states ≡ vs
      → told_over (2 * length vs) states ≡ pressed_and_released vs
  told_over-pending [] states h p = refl
  told_over-pending (v ∷ vs) states h p =
      let (first, second, left, settled) =
        TwoTicks-behind v vs (standing states) (standing-settled states h)
          (pending-standing states ∙ p) in
      let twice : 2 * length (v ∷ vs) ≡ suc (suc (2 * length vs)) = omega arith in
      ap (λ n. told_over n states) twice
      ∙ (rw (first, second, told_over-pending vs _ settled left) refl)

module _ {R T : Type 0} where
  -- What is told over several ticks on which nothing else is.
  unfoldable pub told_on_ticks : ℕ → Layout R T → List (CustomEvent T)
  unfolding process_sequence_custom
  told_on_ticks zero l = []
  told_on_ticks (suc n) l =
      let (e, l') = process_sequence_custom no_event l in e ∷ told_on_ticks n l'

  custom-ticked :
      (states : List (State T)) (l : Layout R T)
      → l.states ≡ states
      → process_sequence_custom no_event l
        ≡ ((ticked states).1, record l { states = (ticked states).0 })
  unfolding process_sequence_custom keep process_custom_states
  custom-ticked [] l e = rw (e) refl
  custom-ticked (s ∷ states) l e = rw (e) refl

  told_on_ticks_lem : (n : ℕ) (l : Layout R T) → told_on_ticks n l ≡ told_over n l.states
  unfolding told_on_ticks
  told_on_ticks_lem zero l = refl
  told_on_ticks_lem (suc n) l = rw (custom-ticked l.states l refl) (
      ap (λ es. (ticked l.states).1 ∷ es)
        (told_on_ticks_lem n (record l { states = (ticked l.states).0 })))

-- Where no custom action of a macro is pressed: on two ticks for each that is pending, on which no
-- other custom event is told, each is told as pressed and, on the next tick, as released, in the order
-- of the states.
pub process_sequence_custom-told :
    {R T : Type 0} (l : Layout R T)
    → all is_settled l.states ≡ true
    → told_on_ticks (2 * length (pending l.states)) l ≡ pressed_and_released (pending l.states)
process_sequence_custom-told l h =
    told_on_ticks_lem (2 * length (pending l.states)) l
    ∙ told_over-pending (pending l.states) l.states h refl
