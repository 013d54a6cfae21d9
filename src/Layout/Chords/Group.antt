-- ===== src/Layout/Chords/Group.antt =====
-- keyberon/src/action.rs, `ChordsGroup`: which keys belong to a group, and which chords it defines.
use kanata.Base.{
  ℕ, ◌-◌, Bool, not, ◌&&◌, List, [], ◌∷◌, Option, none, some, KCoord, ltb, ◌==◌, coord_eq,
  if◌then◌else◌, bit_or,
}
use kanata.Layout.Event.{Queued}
use kanata.Layout.HoldTap.{WaitingState}

-- The timeout of the group is in the waiting state.
pub record ChordsGroup (A : Type 0) : Type 0 where
  pub coords : List (KCoord × ℕ)
  pub chords : List (ℕ × A)

unfoldable pub find_keys : List (KCoord × ℕ) → KCoord → Option ℕ
find_keys [] c = none
find_keys ((c', keys) ∷ coords) c =
    let later = find_keys coords c in if coord_eq c' c then some keys else later

abbrev pub or_zero : Option ℕ → ℕ
or_zero none = 0
or_zero (some n) = n

-- `reduce(|acc, e| acc | e).unwrap_or(0)`
abbrev union_from : ℕ → List ℕ → ℕ
union_from acc [] = acc
union_from acc (k ∷ ks) = union_from (bit_or acc k) ks

unfoldable pub union : List ℕ → ℕ
union [] = 0
union (k ∷ ks) = union_from k ks

abbrev pub expired : WaitingState → Queued → Bool
expired w s = ltb w.timeout (w.delay - s.since)

module _ {A : Type 0} where
  abbrev pub get_keys : ChordsGroup A → KCoord → Option ℕ
  get_keys config c = find_keys config.coords c

  unfoldable pub find_chord : List (ℕ × A) → ℕ → Option A
  find_chord [] keys = none
  find_chord ((chord_keys, action) ∷ chords) keys =
      let later = find_chord chords keys in if chord_keys == keys then some action else later

  abbrev pub get_chord : ChordsGroup A → ℕ → Option A
  get_chord config keys = find_chord config.chords keys

  -- The fold over the chords, with the action found so far; a larger chord ends it.
  unfoldable pub find_unambiguous : List (ℕ × A) → ℕ → Option A → Option A
  find_unambiguous [] keys res = res
  find_unambiguous ((chord_keys, action) ∷ chords) keys res =
      let rest = find_unambiguous chords keys (if chord_keys == keys then some action else res) in
      if not (chord_keys == keys) && bit_or chord_keys keys == chord_keys then none else rest

  abbrev pub get_chord_if_unambiguous : ChordsGroup A → ℕ → Option A
  get_chord_if_unambiguous config keys = find_unambiguous config.chords keys none
