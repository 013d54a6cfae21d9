-- ===== src/SubsetMap/Buckets.antt =====
-- One list of the map: what an insertion changes.
use Prim.Native.Nat.{Ordering}
use kanata.Base.{
  ℕ, suc, ◌≡◌, refl, arith, ap, ◌∙◌, Bool, true, false, ◌||◌, List, [], ◌∷◌, Option, none, some,
  any, get_elem?, set, if◌then◌else◌, ◌⊎◌, inl, inr,
}
use kanata.SubsetMap.{
  cmp, is_subset_of, Search, found, at, shift, GetOrIsSubsetOfKnownKey, has_value, is_subset,
  neither, SsmKeyValue, binary_search, insert_at, insert_keyval, get_in,
}
use kanata.SubsetMap.Compare.{cmp_refl, cmp_eq, cmp_lt_trans, cmp_gt, cmp_lt}

pub Ordering-cases : (o : Ordering) → (o ≡ Ordering.lt) ⊎ ((o ≡ Ordering.eq) ⊎ (o ≡ Ordering.gt))
Ordering-cases Ordering.lt = inl refl
Ordering-cases Ordering.eq = inr (inl refl)
Ordering-cases Ordering.gt = inr (inr refl)

Search-cases : (s : Search) → ((pos : ℕ) × (s ≡ found pos)) ⊎ ((pos : ℕ) × (s ≡ at pos))
Search-cases (found pos) = inl (pos, refl)
Search-cases (at pos) = inr (pos, refl)

-- Equality of keys, by their order.
abbrev pub same_key : List ℕ → List ℕ → Bool
same_key a b = elim (cmp a b) [ Ordering.eq ↦ true | Ordering.lt ↦ false | Ordering.gt ↦ false ]

module _ {V : Type 0} where
  -- The value of a key in a sorted list.
  unfoldable pub value_in : List (SsmKeyValue V) → List ℕ → Option V
  value_in [] key = none
  value_in (probe ∷ keyvals) key =
      let behind = value_in keyvals key in
      elim (cmp probe.key key) [
        | Ordering.lt ↦ behind
        | Ordering.eq ↦ some probe.value
        | Ordering.gt ↦ none
      ]

  unfoldable pub inserted : List (SsmKeyValue V) → SsmKeyValue V → List (SsmKeyValue V)
  inserted [] kv = kv ∷ []
  inserted (probe ∷ keyvals) kv =
      let behind = inserted keyvals kv in
      elim (cmp probe.key kv.key) [
        | Ordering.lt ↦ probe ∷ behind
        | Ordering.eq ↦ kv ∷ keyvals
        | Ordering.gt ↦ kv ∷ probe ∷ keyvals
      ]

  -- What stands at the place that a search gives.
  abbrev put : List (SsmKeyValue V) → SsmKeyValue V → Search → List (SsmKeyValue V)
  put b kv (found pos) = set b pos kv
  put b kv (at pos) = insert_at b pos kv

  put-shift :
      (probe : SsmKeyValue V) (b : List (SsmKeyValue V)) (kv : SsmKeyValue V) (s : Search)
      → put (probe ∷ b) kv (shift s) ≡ probe ∷ put b kv s
  unfolding insert_at
  put-shift probe b kv (found pos) = refl
  put-shift probe b kv (at pos) = refl

  put-inserted :
      (b : List (SsmKeyValue V)) (kv : SsmKeyValue V)
      → put b kv (binary_search b kv.key) ≡ inserted b kv
  unfolding inserted binary_search insert_at
  put-inserted [] kv = refl
  put-inserted (probe ∷ b) kv = elim (Ordering-cases (cmp probe.key kv.key)) [
    | inl less ↦
        rw (less, binary_search, put, inserted)
          (put-shift probe b kv (binary_search b kv.key) ∙ ap (◌∷◌ probe) (put-inserted b kv))
    | inr (inl same) ↦ rw (same, binary_search, put, inserted)
    | inr (inr more) ↦ rw (more, binary_search, put, inserted)
  ]

  insert_keyval-put :
      (b : List (SsmKeyValue V)) (kv : SsmKeyValue V)
      → (insert_keyval b kv.key kv.value).0 ≡ put b kv (binary_search b kv.key)
  unfolding insert_keyval
  insert_keyval-put b kv = elim (Search-cases (binary_search b kv.key)) [
    | inl (pos, e) ↦ rw (e, insert_keyval)
    | inr (pos, e) ↦ rw (e, insert_keyval)
  ]

  pub insert_keyval-inserted :
      (b : List (SsmKeyValue V)) (kv : SsmKeyValue V)
      → (insert_keyval b kv.key kv.value).0 ≡ inserted b kv
  insert_keyval-inserted b kv = insert_keyval-put b kv ∙ put-inserted b kv

  -- A search finds the key at a place with its value, or there is no value for it.
  search-value :
      (b : List (SsmKeyValue V)) (key : List ℕ)
      → ((pos : ℕ) × (kv : SsmKeyValue V) × (binary_search b key ≡ found pos)
          × (get_elem? b pos ≡ some kv)
          × (value_in b key ≡ some kv.value))
        ⊎ ((pos : ℕ) × (binary_search b key ≡ at pos) × (value_in b key ≡ none))
  unfolding binary_search value_in
  search-value [] key = inr (0, refl, refl)
  search-value (probe ∷ b) key = elim (Ordering-cases (cmp probe.key key)) [
    | inl less ↦ elim (search-value b key) [
      | inl (pos, kv, e, g, v) ↦
          inl (suc pos, kv, rw (less, binary_search, e), g, rw (less, value_in) v)
      | inr (pos, e, v) ↦ inr (suc pos, rw (less, binary_search, e), rw (less, value_in) v)
    ]
    | inr (inl same) ↦ inl (0, probe, rw (same, binary_search), refl, rw (same, value_in))
    | inr (inr more) ↦ inr (0, rw (more, binary_search), rw (more, value_in))
  ]

  -- An answer from the value found, and whether the key is a subset.
  abbrev pub answer : Option V → Bool → GetOrIsSubsetOfKnownKey V
  answer (some v) part = has_value v
  answer none part = if part then is_subset else neither

  pub get_in-value :
      (b : List (SsmKeyValue V)) (key : List ℕ)
      → get_in key b ≡ answer (value_in b key) (any (λ kv. is_subset_of key kv.key) b)
  unfolding get_in
  get_in-value b key = elim (search-value b key) [
    | inl (pos, kv, e, g, v) ↦ rw (e, get_in, g, v)
    | inr (pos, e, v) ↦ rw (e, get_in, v)
  ]

  pub value_in-inserted :
      (b : List (SsmKeyValue V)) (kv : SsmKeyValue V) (key : List ℕ)
      → value_in (inserted b kv) key
        ≡ (if same_key kv.key key then some kv.value else value_in b key)
  unfolding value_in inserted
  value_in-inserted [] kv key = ground (arith)
  value_in-inserted (probe ∷ b) kv key = ground (
    arith,
    value_in-inserted b kv key,
    cmp_refl kv.key,
    cmp_eq probe.key kv.key,
    cmp_eq kv.key key,
    cmp_lt_trans probe.key kv.key key,
    cmp_gt probe.key kv.key,
    cmp_lt_trans key kv.key probe.key,
    cmp_gt kv.key key,
    cmp_gt probe.key key,
    cmp_lt kv.key probe.key,
    cmp_lt key kv.key,
    cmp_lt key probe.key,
    cmp_lt_trans kv.key probe.key key,
  )

  pub any-inserted :
      (p : List ℕ → Bool) (b : List (SsmKeyValue V)) (kv : SsmKeyValue V)
      → any (λ x. p x.key) (inserted b kv) ≡ (p kv.key || any (λ x. p x.key) b)
  unfolding inserted
  any-inserted p [] kv = refl
  any-inserted p (probe ∷ b) kv = ground (arith, any-inserted p b kv, cmp_eq probe.key kv.key)
