-- ===== src/Tests/KeyOverride.antt =====
-- Key overrides at a concrete override: left shift and q make w, but not with left alt, nor on
-- layer 3.
use mathlib.Core.Option
use kanata.Base.{ℕ, List, not, ◌||◌, ◌≡◌, refl, true, false, [], ◌∷◌, none, some, ◌↔◌, length, all}
use kanata.KeyOverride.Mask.{is_modifier, mask_for_key}
use kanata.Layout.State.{State, normal_key, layer_modifier}
use kanata.Layout.Manager.{Layout}
use kanata.Layout.Manager.Parts.{keep, is_cleared, clear_states}
use kanata.KeyOverride.Erase.{mark_overridden_nonmodkeys_for_eager_erasure}
use kanata.KeyOverride.Erase.Cleared.{is_removed, clear_states-marked}
use kanata.Tests.Manager.{start}
use kanata.KeyOverride.Override.{
  Override, many_outputs, ok, err, try_new, mask_of, non_mods, add_override_keys, add_removed_keys,
  push_all_new, push_new,
}
use kanata.KeyOverride.Apply.{OverrideStates, new, empty_states, override_keys, is_applicable}
use kanata.KeyOverride.Fits.{or_empty, fits, is_applicable-fits}
use kanata.KeyOverride.Choice.{only_mods, chosen}
use kanata.KeyOverride.Rewrite.{rewritten, override_keys-rewritten}
use kanata.KeyOverride.Made.{refusal, try_new-err_iff}

abbrev shift_q : Override
shift_q = record {
  in_non_mod_osc = 16;
  out_non_mod_osc = 17;
  in_mod_oscs = 42 ∷ [];
  out_mod_oscs = [];
  excluded_mod_oscs = some (56 ∷ []);
  excluded_layers = some (3 ∷ []);
}

wanted : all is_modifier shift_q.in_mod_oscs ≡ true
unfolding is_modifier
wanted = refl

unwanted : all is_modifier (or_empty shift_q.excluded_mod_oscs) ≡ true
unfolding is_modifier
unwanted = refl

shift_ctrl_mask : mask_of 0 (29 ∷ 42 ∷ []) ≡ some 3
unfolding mask_of mask_for_key
shift_ctrl_mask = refl

is_applicable-fits_example : is_applicable shift_q 3 0 ≡ some (fits shift_q (29 ∷ 42 ∷ []) 0)
is_applicable-fits_example =
    is_applicable-fits shift_q (29 ∷ 42 ∷ []) 3 0 wanted unwanted shift_ctrl_mask

fits_here : fits shift_q (29 ∷ 42 ∷ []) 0 ≡ true
unfolding fits
fits_here = refl

fits_not_with_alt : fits shift_q (42 ∷ 56 ∷ []) 0 ≡ false
unfolding fits
fits_not_with_alt = refl

abbrev made : Override
made = record {
  in_non_mod_osc = 16;
  out_non_mod_osc = 17;
  in_mod_oscs = 42 ∷ [];
  out_mod_oscs = [];
  excluded_mod_oscs = none;
  excluded_layers = none;
}

made_lem : try_new (42 ∷ 16 ∷ []) (17 ∷ []) ≡ ok made
unfolding try_new mask_for_key is_modifier
made_lem = refl

try_new-err_iff_example :
    (try_new (16 ∷ []) (17 ∷ 18 ∷ []) ≡ err many_outputs)
    ↔ (refusal (length (non_mods (16 ∷ []))) (length (non_mods (17 ∷ 18 ∷ []))) ≡ some many_outputs)
try_new-err_iff_example = try_new-err_iff (16 ∷ []) (17 ∷ 18 ∷ []) many_outputs

-- Without left alt, a shifted q is w and an unshifted q is x.
abbrev plain_q : Override
plain_q = record {
  in_non_mod_osc = 16;
  out_non_mod_osc = 45;
  in_mod_oscs = [];
  out_mod_oscs = [];
  excluded_mod_oscs = none;
  excluded_layers = none;
}

both-only_mods : all only_mods (plain_q ∷ shift_q ∷ []) ≡ true
unfolding is_modifier
both-only_mods = refl

override_keys-rewritten_example :
    Option.map
      (λ r. r.0)
      (override_keys (new (plain_q ∷ shift_q ∷ [])) (42 ∷ 16 ∷ 30 ∷ []) empty_states 0)
    ≡ some (rewritten (plain_q ∷ shift_q ∷ []) (42 ∷ 16 ∷ 30 ∷ []) 0)
override_keys-rewritten_example =
    override_keys-rewritten (plain_q ∷ shift_q ∷ []) (42 ∷ 16 ∷ 30 ∷ []) empty_states 0
      both-only_mods

shifted_q_is_w : rewritten (plain_q ∷ shift_q ∷ []) (42 ∷ 16 ∷ 30 ∷ []) 0 ≡ 30 ∷ 17 ∷ []
unfolding rewritten chosen fits is_modifier add_override_keys add_removed_keys push_all_new push_new
shifted_q_is_w = refl

-- a is overridden by b, and is pressed twice beside left shift and a layer.
abbrev overriding : OverrideStates
overriding = record { mods_pressed = 0; oscs_to_remove = 42 ∷ 30 ∷ []; oscs_to_add = 48 ∷ [] }

abbrev typing : List (State ℕ)
typing =
    normal_key 30 (0, 30) 0
    ∷ normal_key 42 (0, 42) 0
    ∷ layer_modifier 1 (0, 30)
    ∷ normal_key 30 (1, 7) 0
    ∷ normal_key 48 (0, 48) 1
    ∷ []

abbrev typing_layout : Layout ℕ ℕ
typing_layout = record start { states = typing }

clear_states-marked_example :
    (clear_states (record start {
      states = mark_overridden_nonmodkeys_for_eager_erasure overriding typing;
    })).states
    ≡ keep (λ s. not (is_cleared s || is_removed overriding.oscs_to_remove s)) typing
clear_states-marked_example = clear_states-marked overriding typing_layout

shift_is_left :
    keep (λ s. not (is_cleared s || is_removed overriding.oscs_to_remove s)) typing
    ≡ normal_key 42 (0, 42) 0 ∷ layer_modifier 1 (0, 30) ∷ []
unfolding keep is_modifier
shift_is_left = refl
