-- ===== src/KeyOverride/Made.antt =====
-- What `try_new` makes of lists of keys.
use kanata.Base.{
  ℕ, ◌≡◌, refl, arith, Bool, true, false, not, ◌||◌, List, [], ◌∷◌, Option, none, some, ◌↔◌, subst,
  length, ltb, ◌==◌, if◌then◌else◌, all,
}
use kanata.KeyOverride.Mask.{is_modifier, mask_for_key}
use kanata.KeyOverride.Override.{
  Override, NewError, no_input, many_inputs, no_output, many_outputs, ok, err, contains, is_none,
  retain, non_mods, mods, with_output, with_input, try_new,
}

-- The two tests for a modifier agree.
mask-is_modifier : (osc : ℕ) → is_none (mask_for_key osc) ≡ not (is_modifier osc)
unfolding mask_for_key is_modifier
mask-is_modifier osc = ground arith

all-retain : (p : ℕ → Bool) (xs : List ℕ) → all p (retain p xs) ≡ true
unfolding retain
all-retain p [] = refl
all-retain p (x ∷ xs) = ground (arith, all-retain p xs)

-- Keys are partitioned into modifiers and others.
split : (xs : List ℕ) (a : ℕ) → contains xs a ≡ (contains (non_mods xs) a || contains (mods xs) a)
unfolding retain
split [] a = refl
split (x ∷ xs) a = ground (arith, split xs a, mask-is_modifier x)

-- What is read off the two parts of a list with one key that is no modifier.
abbrev pub Parted : List ℕ → ℕ → List ℕ → Type 0
Parted xs k ms =
    (is_modifier k ≡ false)
    × (all is_modifier ms ≡ true)
    × ((a : ℕ) → contains xs a ≡ (k == a || contains ms a))

parted : (xs : List ℕ) (k : ℕ) → non_mods xs ≡ k ∷ [] → Parted xs k (mods xs)
parted xs k e = (outside, all-retain is_modifier xs, (λ a. ground (arith, split xs a)))
  where
    outside : is_modifier k ≡ false
    outside =
        ground
          (arith, mask-is_modifier k, rw e at (all-retain (λ osc. is_none (mask_for_key osc)) xs))

output-Parted :
    (ins outs l : List ℕ) (k : ℕ) (o : Override)
    → non_mods ins ≡ k ∷ []
    → non_mods outs ≡ l
    → with_output ins outs k l ≡ ok o
    → Parted ins o.in_non_mod_osc o.in_mod_oscs × Parted outs o.out_non_mod_osc o.out_mod_oscs
unfolding with_output
output-Parted ins outs [] k o e f h = cc
output-Parted ins outs (j ∷ []) k o e f h =
    subst
      (λ m. elim m [
        | err _ ↦ ⊥
        | ok q ↦
            Parted ins q.in_non_mod_osc q.in_mod_oscs × Parted outs q.out_non_mod_osc q.out_mod_oscs
      ])
      h (parted ins k e, parted outs j f)
output-Parted ins outs (j ∷ j' ∷ l) k o e f h = cc

input-Parted :
    (ins outs l : List ℕ) (o : Override)
    → non_mods ins ≡ l
    → with_input ins outs l ≡ ok o
    → Parted ins o.in_non_mod_osc o.in_mod_oscs × Parted outs o.out_non_mod_osc o.out_mod_oscs
unfolding with_input
input-Parted ins outs [] o e h = cc
input-Parted ins outs (k ∷ []) o e h = output-Parted ins outs (non_mods outs) k o e refl h
input-Parted ins outs (k ∷ k' ∷ l) o e h = cc

-- An override that is made has, for its inputs and for its outputs, one key that is no modifier and
-- beside it modifiers only, and together they are the keys that were given.
try_new-Parted :
    (ins outs : List ℕ) (o : Override)
    → try_new ins outs ≡ ok o
    → Parted ins o.in_non_mod_osc o.in_mod_oscs × Parted outs o.out_non_mod_osc o.out_mod_oscs
unfolding try_new
try_new-Parted ins outs o h = input-Parted ins outs (non_mods ins) o refl h

-- The error for given numbers of keys that are no modifiers.
abbrev pub refusal : ℕ → ℕ → Option NewError
refusal ins outs =
    if ins == 0
    then some no_input
    else if ltb 1 ins
    then some many_inputs
    else if outs == 0
    then some no_output
    else if ltb 1 outs
    then some many_outputs
    else none

refused :
    (l m ins outs : List ℕ) (e : NewError)
    → non_mods outs ≡ m
    → (with_input ins outs l ≡ err e) ↔ (refusal (length l) (length m) ≡ some e)
unfolding with_input
refused [] m ins outs e h = ground arith
refused (k ∷ k' ∷ l) m ins outs e h = ground arith
refused (k ∷ []) [] ins outs e h = rw (h, with_output) (ground arith)
refused (k ∷ []) (j ∷ []) ins outs e h = rw (h, with_output) (ground arith)
refused (k ∷ []) (j ∷ j' ∷ m) ins outs e h = rw (h, with_output) (ground arith)

-- `try_new` refuses exactly when the inputs or the outputs do not have one key that is no modifier,
-- and the error says which of them has none or has several, the inputs first.
pub try_new-err_iff :
    (ins outs : List ℕ) (e : NewError)
    → (try_new ins outs ≡ err e)
      ↔ (refusal (length (non_mods ins)) (length (non_mods outs)) ≡ some e)
unfolding try_new
try_new-err_iff ins outs e = refused (non_mods ins) (non_mods outs) ins outs e refl
