-- ===== src/KeyOverride/Apply.antt =====
-- parser/src/cfg/key_override.rs: the overrides by their input key, the scratch state, and the
-- rewriting of the keys that are down.
use kanata.Base.{
  ℕ, Bool, true, false, not, ◌&&◌, List, [], ◌∷◌, ◌++◌, Option, none, some, ◌==◌, if◌then◌else◌,
  bit_or, bit_and,
}
use kanata.KeyOverride.Mask.{mask_for_key}
use kanata.KeyOverride.Override.{
  Override, contains, retain, get_mod_mask, get_excluded_mod_mask, add_override_keys,
  add_removed_keys,
}

-- The `HashMap<OsCode, Vec<Override>>`.
pub record Overrides : Type 0 where
  pub overrides_by_osc : List (ℕ × List Override)

-- `.entry(key).and_modify(push).or_insert_with(vec![..])`.
unfoldable pub push_entry : Override → List (ℕ × List Override) → List (ℕ × List Override)
push_entry o [] = (o.in_non_mod_osc, o ∷ []) ∷ []
push_entry o ((key, ovds) ∷ rest) =
    if key == o.in_non_mod_osc
    then (key, ovds ++ o ∷ []) ∷ rest
    else (key, ovds) ∷ push_entry o rest

unfoldable pub push_entries : List Override → List (ℕ × List Override) → List (ℕ × List Override)
push_entries [] entries = entries
push_entries (o ∷ os) entries = push_entries os (push_entry o entries)

unfoldable pub new : List Override → Overrides
unfolding push_entries push_entry
new os = record { overrides_by_osc = push_entries os [] }

unfoldable pub get : List (ℕ × List Override) → ℕ → Option (List Override)
get [] osc = none
get ((key, ovds) ∷ rest) osc = if key == osc then some ovds else get rest osc

abbrev pub in_layers : Option (List ℕ) → ℕ → Bool
in_layers none layer = false
in_layers (some ls) layer = contains ls layer

-- `mask & active_mod_mask == mask && exclude_mask & active_mod_mask == 0`.
abbrev masks_fit : Option ℕ → Option ℕ → ℕ → Option Bool
masks_fit (some mask) (some exclude_mask) active =
    some (bit_and mask active == mask && bit_and exclude_mask active == 0)
masks_fit none _ active = none
masks_fit (some mask) none active = none

-- The closure of `rfind`. `none` is the panic of a mask.
unfoldable pub is_applicable : Override → ℕ → ℕ → Option Bool
is_applicable o active_mod_mask active_layer =
    if in_layers o.excluded_layers active_layer
    then some false
    else masks_fit (get_mod_mask o) (get_excluded_mod_mask o) active_mod_mask

pub record OverrideStates : Type 0 where
  pub mods_pressed : ℕ
  pub oscs_to_remove : List ℕ
  pub oscs_to_add : List ℕ

abbrev pub empty_states : OverrideStates
empty_states = record { mods_pressed = 0; oscs_to_remove = []; oscs_to_add = [] }

-- `rfind`: the last override of the list for which the closure is true; those before it are not
-- looked at.
unfoldable pub rfind : List Override → ℕ → ℕ → Option (Option Override)
rfind [] active_mod_mask active_layer = some none
rfind (o ∷ os) active_mod_mask active_layer = elim (rfind os active_mod_mask active_layer) [
  | none ↦ none
  | some (some found) ↦ some (some found)
  | some none ↦ elim (is_applicable o active_mod_mask active_layer) [
    | none ↦ none
    | some true ↦ some (some o)
    | some false ↦ some none
  ]
]

unfoldable pub update_keys : Overrides → ℕ → ℕ → OverrideStates → Option OverrideStates
update_keys ovs active_osc active_layer s = elim (get ovs.overrides_by_osc active_osc) [
  | none ↦ some s
  | some ovds ↦ elim (rfind ovds s.mods_pressed active_layer) [
    | none ↦ none
    | some none ↦ some s
    | some (some o) ↦ some (record s {
      oscs_to_add = add_override_keys o s.oscs_to_add;
      oscs_to_remove = add_removed_keys o s.oscs_to_remove;
    })
  ]
]

unfoldable pub update : Overrides → ℕ → ℕ → OverrideStates → Option OverrideStates
update ovs osc active_layer s = elim (mask_for_key osc) [
  | some mod_mask ↦ some (record s { mods_pressed = bit_or s.mods_pressed mod_mask })
  | none ↦ update_keys ovs osc active_layer s
]

unfoldable pub update_all : Overrides → List ℕ → ℕ → OverrideStates → Option OverrideStates
update_all ovs [] active_layer s = some s
update_all ovs (kc ∷ kcs) active_layer s = elim (update ovs kc active_layer s) [
  | none ↦ none
  | some t ↦ update_all ovs kcs active_layer t
]

unfoldable pub is_key_overridden : OverrideStates → ℕ → Bool
is_key_overridden s osc = contains s.oscs_to_remove osc

abbrev pub is_empty : Overrides → Bool
is_empty ovs = elim ovs.overrides_by_osc [ [] ↦ true | _ ∷ _ ↦ false ]

-- The keys that are down, the scratch state and the active layer; `none` is a panic.
unfoldable pub override_keys :
    Overrides → List ℕ → OverrideStates → ℕ → Option (List ℕ × OverrideStates)
unfolding retain is_key_overridden
override_keys ovs kcs states active_layer =
    if is_empty ovs
    then some (kcs, states)
    else elim (update_all ovs kcs active_layer empty_states) [
      | none ↦ none
      | some s ↦ some (retain (λ kc. not (is_key_overridden s kc)) kcs ++ s.oscs_to_add, s)
    ]

unfoldable pub outs : List Override → List ℕ
outs [] = []
outs (o ∷ os) = o.out_non_mod_osc ∷ outs os

unfoldable pub output_non_mods_for_input_non_mod : Overrides → ℕ → List ℕ
unfolding outs get
output_non_mods_for_input_non_mod ovs in_osc = elim (get ovs.overrides_by_osc in_osc) [
  | none ↦ []
  | some ovds ↦ outs ovds
]
