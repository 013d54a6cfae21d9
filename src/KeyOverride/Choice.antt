-- ===== src/KeyOverride/Choice.antt =====
-- Which override is used for a key: the last of the configuration that is for it and fits.
use kanata.Base.{
  ℕ, ◌≡◌, refl, ap, sym, ◌∙◌, arith, Bool, true, false, ◌&&◌, List, [], ◌∷◌, ◌++◌, Option, none,
  some, ◌==◌, if◌then◌else◌, all, Bool-cases, Option-cases, inl, inr, ◌⊎◌,
}
use mathlib.Core.List.{append_assoc, append-nil}
use kanata.KeyOverride.Mask.{is_modifier}
use kanata.KeyOverride.Override.{Override, mask_of, add_override_keys, add_removed_keys}
use kanata.KeyOverride.Apply.{
  Overrides, push_entry, push_entries, new, get, OverrideStates, rfind, update_keys,
}
use kanata.KeyOverride.Fits.{fits, or_empty, is_applicable-fits}

-- The overrides for a key, as they are found and as they are configured.
abbrev pub entries_for : List (ℕ × List Override) → ℕ → List Override
entries_for [] k = []
entries_for ((key, ovds) ∷ rest) k = if key == k then ovds else entries_for rest k

abbrev pub for_key : List Override → ℕ → List Override
for_key [] k = []
for_key (o ∷ os) k = let rest = for_key os k in if o.in_non_mod_osc == k then o ∷ rest else rest

abbrev if_for_key : Override → ℕ → List Override
if_for_key o k = if o.in_non_mod_osc == k then o ∷ [] else []

entries-push :
    (o : Override) (es : List (ℕ × List Override)) (k : ℕ)
    → entries_for (push_entry o es) k ≡ entries_for es k ++ if_for_key o k
unfolding push_entry
entries-push o [] k = refl
entries-push o ((key, ovds) ∷ rest) k = elim (Bool-cases (key == o.in_non_mod_osc)) [
  | inl same ↦ elim (Bool-cases (key == k)) [
    | inl here ↦ (let mine : (o.in_non_mod_osc == k) ≡ true = ground arith in rw (same, here, mine))
    | inr there ↦
        (let other : (o.in_non_mod_osc == k) ≡ false = ground arith in
          rw (same, there, other) (sym (append-nil (entries_for rest k))))
  ]
  | inr differs ↦ elim (Bool-cases (key == k)) [
    | inl here ↦
        (let other : (o.in_non_mod_osc == k) ≡ false = ground arith in
          rw (differs, here, other) (sym (append-nil ovds)))
    | inr there ↦ rw (differs, there) (entries-push o rest k)
  ]
]

joined :
    (o : Override) (os xs : List Override) (k : ℕ)
    → (xs ++ if_for_key o k) ++ for_key os k ≡ xs ++ for_key (o ∷ os) k
joined o os xs k = elim (Bool-cases (o.in_non_mod_osc == k)) [
  | inl mine ↦ rw mine (append_assoc xs (o ∷ []) (for_key os k))
  | inr other ↦ rw other (ap (λ l. l ++ for_key os k) (append-nil xs))
]

entries-push_entries :
    (os : List Override) (es : List (ℕ × List Override)) (k : ℕ)
    → entries_for (push_entries os es) k ≡ entries_for es k ++ for_key os k
unfolding push_entries
entries-push_entries [] es k = sym (append-nil (entries_for es k))
entries-push_entries (o ∷ os) es k =
    entries-push_entries os (push_entry o es) k
    ∙ ap (λ l. l ++ for_key os k) (entries-push o es k)
    ∙ joined o os (entries_for es k) k

pub entries-new :
    (os : List Override) (k : ℕ) → entries_for (new os).overrides_by_osc k ≡ for_key os k
unfolding new
entries-new os k = entries-push_entries os [] k

-- The last override for the key that fits.
unfoldable pub chosen : List Override → ℕ → List ℕ → ℕ → Option Override
chosen [] k pressed layer = none
chosen (o ∷ os) k pressed layer = elim (chosen os k pressed layer) [
  | some found ↦ some found
  | none ↦ if o.in_non_mod_osc == k && fits o pressed layer then some o else none
]

-- The modifiers that an override names are modifiers.
abbrev pub only_mods : Override → Bool
only_mods o = all is_modifier o.in_mod_oscs && all is_modifier (or_empty o.excluded_mod_oscs)

pub rfind-chosen :
    (os : List Override) (k : ℕ) (pressed : List ℕ) (active layer : ℕ)
    → all only_mods os ≡ true
    → mask_of 0 pressed ≡ some active
    → rfind (for_key os k) active layer ≡ some (chosen os k pressed layer)
unfolding rfind chosen
rfind-chosen [] k pressed active layer h m = refl
rfind-chosen (o ∷ os) k pressed active layer h m =
    let later = rfind-chosen os k pressed active layer (ground arith) m in
    let here = is_applicable-fits o pressed active layer (ground arith) (ground arith) m in
    elim (Bool-cases (o.in_non_mod_osc == k)) [
      | inr other ↦ (elim (Option-cases (chosen os k pressed layer)) [
        | inl absent ↦ rw (other, absent, other) (later ∙ ap some absent)
        | inr (found, e) ↦ rw (other, e) (later ∙ ap some e)
      ])
      | inl mine ↦ (elim (Option-cases (chosen os k pressed layer)) [
        | inr (found, e) ↦ rw (mine, later, e)
        | inl absent ↦ elim (Bool-cases (fits o pressed layer)) [
          | inl good ↦ rw (mine, later, absent, here, good, mine)
          | inr bad ↦ rw (mine, later, absent, here, bad, mine)
        ]
      ])
    ]

-- The keys to remove and to add, with an override's.
abbrev pub Changes : Type 0
Changes = List ℕ × List ℕ

abbrev pub use_override : Option Override → Changes → Changes
use_override none ch = ch
use_override (some o) (remove, add) = (add_removed_keys o remove, add_override_keys o add)

abbrev pub changes : OverrideStates → Changes
changes s = (s.oscs_to_remove, s.oscs_to_add)

abbrev pub with_changes : Changes → OverrideStates → OverrideStates
with_changes (remove, add) s = record s { oscs_to_remove = remove; oscs_to_add = add }

get-entries_for :
    (es : List (ℕ × List Override)) (k : ℕ)
    → ((get es k ≡ none) × (entries_for es k ≡ [])) ⊎ (get es k ≡ some (entries_for es k))
unfolding get
get-entries_for [] k = inl (refl, refl)
get-entries_for ((key, ovds) ∷ rest) k = elim (Bool-cases (key == k)) [
  | inl here ↦ inr (rw here)
  | inr there ↦ elim (get-entries_for rest k) [
    | inl (e, f) ↦ inl (rw there e, rw there f)
    | inr e ↦ inr (rw there e)
  ]
]

pub update_keys-rfind :
    (ovs : Overrides) (osc layer : ℕ) (s : OverrideStates) (found : Option Override)
    → rfind (entries_for ovs.overrides_by_osc osc) s.mods_pressed layer ≡ some found
    → update_keys ovs osc layer s ≡ some (with_changes (use_override found (changes s)) s)
unfolding update_keys rfind
update_keys-rfind ovs osc layer s none h = elim (get-entries_for ovs.overrides_by_osc osc) [
  | inl (e, f) ↦ rw (e, update_keys)
  | inr e ↦ rw (e, update_keys, h)
]
update_keys-rfind ovs osc layer s (some o) h = elim (get-entries_for ovs.overrides_by_osc osc) [
  | inl (e, f) ↦ cc (rw f at h)
  | inr e ↦ rw (e, update_keys, h)
]
