-- ===== src/Layout/Manager/Tick/Held.antt =====
-- Active states that neither a press nor the release of another key changes.
use kanata.Base.{
  ℕ, ◌≡◌, refl, arith, Bool, true, not, ◌&&◌, List, [], ◌∷◌, ◌++◌, KCoord, length, ◌<◌, all,
  coord_eq,
}
use kanata.Layout.State.{
  State, normal_key, layer_modifier, custom, fake_key, repeating_sequence, seq_custom_pending,
  seq_custom_active, tombstone, no_op_input,
}
use kanata.Layout.Manager.Layers.{states_capacity, push_within}
use kanata.Layout.Manager.Parts.{is_cleared, keep, count_cleared, keycodes_of}
use kanata.Layout.Manager.Released.{stays, customs_at}
use kanata.Layout.Manager.Tick.Plain.{is_plain}

coord_eq-same : (c : KCoord) → coord_eq c c ≡ true
coord_eq-same c = ground arith

module _ {T : Type 0} where
  abbrev pub is_held : KCoord → State T → Bool
  is_held c s = is_plain s && stays c s && not (is_cleared s)

  pub keep-held :
      (c : KCoord) (states : List (State T))
      → all (is_held c) states ≡ true
      → keep (λ s. not (is_cleared s)) states ≡ states
  unfolding keep
  keep-held c [] h = refl
  keep-held c (s ∷ states) h = ground (arith, keep-held c states)

  pub count-held :
      (c : KCoord) (states : List (State T))
      → all (is_held c) states ≡ true
      → count_cleared states ≡ 0
  unfolding count_cleared
  count-held c [] h = refl
  count-held c (s ∷ states) h = ground (arith, count-held c states)

  pub plain-held :
      (c : KCoord) (states : List (State T))
      → all (is_held c) states ≡ true
      → all is_plain states ≡ true
  plain-held c [] h = refl
  plain-held c (s ∷ states) h = ground (arith, plain-held c states)

  pub customs-held :
      (c : KCoord) (states : List (State T)) (kc : ℕ)
      → all (is_held c) states ≡ true
      → customs_at c (states ++ normal_key kc c 0 ∷ []) ≡ []
  unfolding customs_at
  customs-held c [] kc h = refl
  customs-held c (normal_key k x flags ∷ states) kc h = customs-held c states kc (ground arith)
  customs-held c (layer_modifier k x ∷ states) kc h = customs-held c states kc (ground arith)
  customs-held c (custom v x ∷ states) kc h = ground (arith, customs-held c states kc)
  customs-held c (fake_key k ∷ states) kc h = customs-held c states kc (ground arith)
  customs-held c (repeating_sequence k x ∷ states) kc h = customs-held c states kc (ground arith)
  customs-held c (seq_custom_pending k ∷ states) kc h = customs-held c states kc (ground arith)
  customs-held c (seq_custom_active k ∷ states) kc h = customs-held c states kc (ground arith)
  customs-held c (tombstone ∷ states) kc h = customs-held c states kc (ground arith)
  customs-held c (no_op_input x ∷ states) kc h = customs-held c states kc (ground arith)

  -- What the release leaves.
  pub keep-stays :
      (c : KCoord) (states : List (State T)) (kc : ℕ)
      → all (is_held c) states ≡ true
      → keep (stays c) (states ++ normal_key kc c 0 ∷ []) ≡ states
  unfolding keep
  keep-stays c [] kc h = rw (coord_eq-same c) refl
  keep-stays c (s ∷ states) kc h = ground (arith, keep-stays c states kc)

  pub keycodes-typed :
      (states : List (State T)) (kc : ℕ) (c : KCoord)
      → keycodes_of (states ++ normal_key kc c 0 ∷ []) ≡ keycodes_of states ++ kc ∷ []
  unfolding keycodes_of
  keycodes-typed [] kc c = refl
  keycodes-typed (normal_key k x flags ∷ states) kc c = rw (keycodes-typed states kc c) refl
  keycodes-typed (layer_modifier k x ∷ states) kc c = keycodes-typed states kc c
  keycodes-typed (custom v x ∷ states) kc c = keycodes-typed states kc c
  keycodes-typed (fake_key k ∷ states) kc c = rw (keycodes-typed states kc c) refl
  keycodes-typed (repeating_sequence k x ∷ states) kc c = keycodes-typed states kc c
  keycodes-typed (seq_custom_pending k ∷ states) kc c = keycodes-typed states kc c
  keycodes-typed (seq_custom_active k ∷ states) kc c = keycodes-typed states kc c
  keycodes-typed (tombstone ∷ states) kc c = keycodes-typed states kc c
  keycodes-typed (no_op_input x ∷ states) kc c = keycodes-typed states kc c

  pub plain-typed :
      (states : List (State T)) (kc : ℕ) (c : KCoord)
      → all is_plain states ≡ true
      → all is_plain (states ++ normal_key kc c 0 ∷ []) ≡ true
  plain-typed [] kc c h = refl
  plain-typed (s ∷ states) kc c h = ground (arith, plain-typed states kc c)

  pub push_within-room :
      (states : List (State T)) (s : State T)
      → length states < states_capacity
      → push_within states_capacity states s ≡ states ++ s ∷ []
  push_within-room states s room = ground arith
