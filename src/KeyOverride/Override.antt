-- ===== src/KeyOverride/Override.antt =====
-- parser/src/cfg/key_override.rs: one override, how it is made and what it asks for.
use kanata.Base.{
  ℕ, Bool, true, false, List, [], ◌∷◌, ◌++◌, Option, none, some, ◌==◌, if◌then◌else◌, any, bit_or,
}
use kanata.KeyOverride.Mask.{is_modifier, mask_for_key}

pub record Override : Type 0 where
  pub in_non_mod_osc : ℕ
  pub out_non_mod_osc : ℕ
  pub in_mod_oscs : List ℕ
  pub out_mod_oscs : List ℕ
  pub excluded_mod_oscs : Option (List ℕ)
  pub excluded_layers : Option (List ℕ)

-- The four `bail!`s of `try_new`.
pub data NewError : Type 0 where
  no_input many_inputs no_output many_outputs : NewError

pub data Made : Type 0 where
  ok : Override → Made
  err : NewError → Made

abbrev pub contains : List ℕ → ℕ → Bool
contains xs a = any (λ x. x == a) xs

abbrev pub is_none : Option ℕ → Bool
is_none none = true
is_none (some x) = false

-- `.filter(..)` over codes.
unfoldable pub retain : (ℕ → Bool) → List ℕ → List ℕ
retain p [] = []
retain p (x ∷ xs) = let rest = retain p xs in if p x then x ∷ rest else rest

abbrev pub non_mods : List ℕ → List ℕ
non_mods = retain (λ osc. is_none (mask_for_key osc))

abbrev pub mods : List ℕ → List ℕ
mods = retain is_modifier

-- The outputs' part of `try_new`, with the input's key at hand.
unfoldable pub with_output : List ℕ → List ℕ → ℕ → List ℕ → Made
unfolding retain
with_output in_oscs out_oscs in_key [] = err no_output
with_output in_oscs out_oscs in_key (out_key ∷ []) = ok (record {
  in_non_mod_osc = in_key;
  out_non_mod_osc = out_key;
  in_mod_oscs = mods in_oscs;
  out_mod_oscs = mods out_oscs;
  excluded_mod_oscs = none;
  excluded_layers = none;
})
with_output in_oscs out_oscs in_key (_ ∷ _ ∷ _) = err many_outputs

unfoldable pub with_input : List ℕ → List ℕ → List ℕ → Made
unfolding with_output
with_input in_oscs out_oscs [] = err no_input
with_input in_oscs out_oscs (in_key ∷ []) = with_output in_oscs out_oscs in_key (non_mods out_oscs)
with_input in_oscs out_oscs (_ ∷ _ ∷ _) = err many_inputs

unfoldable pub try_new : List ℕ → List ℕ → Made
unfolding with_input
try_new in_oscs out_oscs = with_input in_oscs out_oscs (non_mods in_oscs)

abbrev excluding : Made → List ℕ → List ℕ → Made
excluding (err e) ms ls = err e
excluding (ok o) ms ls = ok (record o { excluded_mod_oscs = some ms; excluded_layers = some ls })

unfoldable pub try_new_v2 : List ℕ → List ℕ → List ℕ → List ℕ → Made
unfolding try_new
try_new_v2 in_oscs out_oscs excluded_mods excluded_layers_ =
    excluding (try_new in_oscs out_oscs) excluded_mods excluded_layers_

-- `mask |= mask_for_key(osc).expect("mod only")` over some modifiers: `none` is the panic.
unfoldable pub mask_of : ℕ → List ℕ → Option ℕ
mask_of mask [] = some mask
mask_of mask (osc ∷ oscs) = elim (mask_for_key osc) [
  | none ↦ none
  | some m ↦ mask_of (bit_or mask m) oscs
]

unfoldable pub get_mod_mask : Override → Option ℕ
get_mod_mask o = mask_of 0 o.in_mod_oscs

unfoldable pub get_excluded_mod_mask : Override → Option ℕ
get_excluded_mod_mask o = elim o.excluded_mod_oscs [ none ↦ some 0 | some ms ↦ mask_of 0 ms ]

-- `if !oscs.contains(&osc) { oscs.push(osc); }`.
unfoldable pub push_new : List ℕ → ℕ → List ℕ
push_new oscs osc = if contains oscs osc then oscs else oscs ++ osc ∷ []

unfoldable pub push_all_new : List ℕ → List ℕ → List ℕ
push_all_new oscs [] = oscs
push_all_new oscs (osc ∷ rest) = push_all_new (push_new oscs osc) rest

unfoldable pub add_override_keys : Override → List ℕ → List ℕ
add_override_keys o oscs_to_add =
    push_new (push_all_new oscs_to_add o.out_mod_oscs) o.out_non_mod_osc

unfoldable pub add_removed_keys : Override → List ℕ → List ℕ
add_removed_keys o oscs_to_remove =
    push_new (push_all_new oscs_to_remove o.in_mod_oscs) o.in_non_mod_osc
