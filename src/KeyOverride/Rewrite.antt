-- ===== src/KeyOverride/Rewrite.antt =====
-- parser/src/cfg/key_override.rs, `override_keys`: what becomes of the keys that are down.
use kanata.Base.{
  ℕ, ◌≡◌, refl, ap, sym, subst, ◌∙◌, arith, true, false, not, List, [], ◌∷◌, ◌++◌, Option, none,
  some, ◌==◌, if◌then◌else◌, all, bit_or, Bool-cases, Option-cases, inl, inr,
}
use mathlib.Core.Option
use mathlib.Core.List.{append-nil}
use kanata.KeyOverride.Mask.{is_modifier, mask_for_key}
use kanata.KeyOverride.Override.{Override, contains, retain, mask_of}
use kanata.KeyOverride.Apply.{
  Overrides, push_entry, push_entries, new, OverrideStates, empty_states, rfind, update_keys,
  update, update_all, is_key_overridden, is_empty, override_keys,
}
use kanata.KeyOverride.Choice.{
  entries-new, chosen, only_mods, rfind-chosen, Changes, use_override, changes, with_changes,
  update_keys-rfind,
}

-- The keys that are down in their order, with the modifiers before each: every other key uses the
-- override that is chosen for it.
unfoldable pub walk : List Override → ℕ → List ℕ → List ℕ → Changes → Changes
walk os layer pressed [] ch = ch
walk os layer pressed (kc ∷ kcs) ch =
    if is_modifier kc
    then walk os layer (pressed ++ kc ∷ []) kcs ch
    else walk os layer pressed kcs (use_override (chosen os kc pressed layer) ch)

mask_of-append :
    (xs : List ℕ) (acc x : ℕ) {m v : ℕ}
    → mask_of acc xs ≡ some m
    → mask_for_key x ≡ some v
    → mask_of acc (xs ++ x ∷ []) ≡ some (bit_or m v)
unfolding mask_of
mask_of-append [] acc x {v = v} h e =
    rw (e, mask_of)
      (subst (λ o. Option.map (λ a. bit_or a v) (some acc) ≡ Option.map (λ a. bit_or a v) o) h refl)
mask_of-append (y ∷ xs) acc x h e = elim (Option-cases (mask_for_key y)) [
  | inl p ↦ cc (rw (p, mask_of) at h)
  | inr (v, p) ↦ rw (p, mask_of) (mask_of-append xs (bit_or acc v) x (rw (p, mask_of) at h) e)
]

modifier-mask : (osc : ℕ) → is_modifier osc ≡ true → (v : ℕ) × (mask_for_key osc ≡ some v)
unfolding is_modifier mask_for_key
modifier-mask osc h = elim (Option-cases (mask_for_key osc)) [
  | inr found ↦ found
  | inl absent ↦ absurd (ground arith)
]

other-mask : (osc : ℕ) → is_modifier osc ≡ false → mask_for_key osc ≡ none
unfolding is_modifier mask_for_key
other-mask osc h = ground arith

update-modifier :
    (ovs : Overrides) (kc layer : ℕ) (s : OverrideStates) {v : ℕ}
    → mask_for_key kc ≡ some v
    → update ovs kc layer s ≡ some (record s { mods_pressed = bit_or s.mods_pressed v })
unfolding update
update-modifier ovs kc layer s e = rw (e, update)

update-other :
    (ovs : Overrides) (kc layer : ℕ) (s : OverrideStates)
    → mask_for_key kc ≡ none
    → update ovs kc layer s ≡ update_keys ovs kc layer s
unfolding update
update-other ovs kc layer s e = rw (e, update)

abbrev Walked : OverrideStates → Option OverrideStates → Changes → Type 0
Walked s o ch = (t : OverrideStates) × (o ≡ some t) × (changes t ≡ ch)

update_all-cons :
    (ovs : Overrides) (kc : ℕ) (kcs : List ℕ) (layer : ℕ) (s t : OverrideStates)
    → update ovs kc layer s ≡ some t
    → update_all ovs (kc ∷ kcs) layer s ≡ update_all ovs kcs layer t
unfolding update_all
update_all-cons ovs kc kcs layer s t e = rw (e, update_all)

walk-cons :
    (os : List Override) (layer : ℕ) (pressed : List ℕ) (kc : ℕ) (kcs : List ℕ) (ch : Changes)
    → ((is_modifier kc ≡ true)
        → walk os layer pressed (kc ∷ kcs) ch ≡ walk os layer (pressed ++ kc ∷ []) kcs ch)
      × ((is_modifier kc ≡ false)
          → walk os layer pressed (kc ∷ kcs) ch
            ≡ walk os layer pressed kcs (use_override (chosen os kc pressed layer) ch))
unfolding walk
walk-cons os layer pressed kc kcs ch = ((λ e. rw e), (λ e. rw e))

update_all-walk :
    (os : List Override) (kcs : List ℕ) (layer : ℕ) (pressed : List ℕ) (s : OverrideStates)
    → all only_mods os ≡ true
    → mask_of 0 pressed ≡ some s.mods_pressed
    → (t : OverrideStates) × (update_all (new os) kcs layer s ≡ some t)
      × (changes t ≡ walk os layer pressed kcs (changes s))
unfolding update_all walk
update_all-walk os [] layer pressed s h m = (s, refl, refl)
update_all-walk os (kc ∷ kcs) layer pressed s h m = elim (Bool-cases (is_modifier kc)) [
  | inl held ↦
      (let (v, e) = modifier-mask kc held in
        let t = record s { mods_pressed = bit_or s.mods_pressed v } in
        let (u, p, q) =
          update_all-walk os kcs layer (pressed ++ kc ∷ []) t h (mask_of-append pressed 0 kc m e) in
        (
          u,
          update_all-cons (new os) kc kcs layer s t (update-modifier (new os) kc layer s e) ∙ p,
          q ∙ sym ((walk-cons os layer pressed kc kcs (changes s)).0 held),
        ))
  | inr other ↦
      (let found = chosen os kc pressed layer in
        let t = with_changes (use_override found (changes s)) s in
        let used = update_keys-rfind (new os) kc layer s found (
          subst (λ ovds. rfind ovds s.mods_pressed layer ≡ some found) (sym (entries-new os kc))
            (rfind-chosen os kc pressed s.mods_pressed layer h m)) in
        let (u, p, q) = update_all-walk os kcs layer pressed t h m in
        (
          u,
          update_all-cons (new os) kc kcs layer s t
                (update-other (new os) kc layer s (other-mask kc other) ∙ used)
              ∙ p,
          q ∙ sym ((walk-cons os layer pressed kc kcs (changes s)).1 other),
        ))
]

-- What becomes of the keys that are down, for overrides that are configured.
unfoldable pub rewritten : List Override → List ℕ → ℕ → List ℕ
unfolding walk retain
rewritten os kcs layer =
    let (remove, add) = walk os layer [] kcs ([], []) in
    retain (λ kc. not (contains remove kc)) kcs ++ add

walk-nil :
    (kcs : List ℕ) (layer : ℕ) (pressed : List ℕ) (ch : Changes) → walk [] layer pressed kcs ch ≡ ch
unfolding walk chosen
walk-nil [] layer pressed ch = refl
walk-nil (kc ∷ kcs) layer pressed ch = elim (Bool-cases (is_modifier kc)) [
  | inl held ↦ rw held (walk-nil kcs layer (pressed ++ kc ∷ []) ch)
  | inr other ↦ rw other (walk-nil kcs layer pressed ch)
]

retain-all : (kcs : List ℕ) → retain (λ kc. not (contains [] kc)) kcs ≡ kcs
unfolding retain
retain-all [] = refl
retain-all (kc ∷ kcs) = ap (◌∷◌ kc) (retain-all kcs)

push_entry-cons :
    (o : Override) (e : ℕ × List Override) (es : List (ℕ × List Override))
    → (e' : ℕ × List Override) × (es' : List (ℕ × List Override)) × (push_entry o (e ∷ es)
        ≡ e' ∷ es')
unfolding push_entry
push_entry-cons o (key, ovds) es = elim (Bool-cases (key == o.in_non_mod_osc)) [
  | inl same ↦ ((key, ovds ++ o ∷ []), es, rw same)
  | inr differs ↦ ((key, ovds), push_entry o es, rw differs)
]

push_entries-cons :
    (os : List Override) (e : ℕ × List Override) (es : List (ℕ × List Override))
    → (e' : ℕ × List Override) × (es' : List (ℕ × List Override)) × (push_entries os (e ∷ es)
        ≡ e' ∷ es')
unfolding push_entries
push_entries-cons [] e es = (e, es, refl)
push_entries-cons (o ∷ os) e es =
    let (e', es', p) = push_entry-cons o e es in
    let (e'', es'', q) = push_entries-cons os e' es' in (e'', es'', ap (push_entries os) p ∙ q)

-- With an override there is an entry.
new-cons :
    (o : Override) (os : List Override)
    → (e : ℕ × List Override) × (es : List (ℕ × List Override)) × ((new (o ∷ os)).overrides_by_osc
        ≡ e ∷ es)
unfolding new push_entries push_entry
new-cons o os = push_entries-cons os (o.in_non_mod_osc, o ∷ []) []

override_keys-some :
    (ovs : Overrides) (kcs : List ℕ) (states t : OverrideStates) (layer : ℕ)
    → is_empty ovs ≡ false
    → update_all ovs kcs layer empty_states ≡ some t
    → override_keys ovs kcs states layer
      ≡ some (retain (λ kc. not (contains t.oscs_to_remove kc)) kcs ++ t.oscs_to_add, t)
unfolding override_keys is_key_overridden
override_keys-some ovs kcs states t layer entries p = rw (override_keys, entries, p)

-- For overrides whose modifiers, wanted and excluded, are modifiers: `override_keys` does not panic.
-- It leaves out the input keys of the overrides used and adds their output keys, where each key
-- that is no modifier uses the last override for it that fits the modifiers before it.
pub override_keys-rewritten :
    (os : List Override) (kcs : List ℕ) (states : OverrideStates) (layer : ℕ)
    → all only_mods os ≡ true
    → Option.map (λ r. r.0) (override_keys (new os) kcs states layer)
      ≡ some (rewritten os kcs layer)
unfolding override_keys rewritten mask_of new push_entries is_key_overridden
override_keys-rewritten [] kcs states layer h =
    rw (walk-nil kcs layer [] ([], []), retain-all kcs, append-nil kcs)
override_keys-rewritten (o ∷ os) kcs states layer h =
    let (e, es, some_entry) = new-cons o os in
    let (t, p, q) = update_all-walk (o ∷ os) kcs layer [] empty_states h refl in
    let entries : is_empty (new (o ∷ os)) ≡ false =
      subst (λ xs. elim xs [ [] ↦ true | _ ∷ _ ↦ false ] ≡ false) (sym some_entry) refl in
    rw (override_keys-some (new (o ∷ os)) kcs states t layer entries p, ← q)
