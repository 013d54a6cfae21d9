-- ===== src/SubsetMap/History.antt =====
-- What the map answers after any insertions.
use kanata.Base.{
  ℕ, ◌≡◌, refl, arith, ap, ◌∙◌, Bool, true, false, ◌&&◌, ◌||◌, List, [], ◌∷◌, Option, none, some,
  any, all, ◌==◌, if◌then◌else◌, Bool-cases, Option-cases, inl, inr,
}
use kanata.SubsetMap.{
  cmp, contains, is_subset_of, SsmKeyValue, SubsetMap, SsmKeyExistedBeforeInsert, not_there,
  ssm_new, get_bucket, or_default, set_bucket, insert_keyval, insert_items, ssm_insert_ksorted,
  get_in, is_empty, ssm_get_or_is_subset_ksorted,
}
use kanata.SubsetMap.Buckets.{
  same_key, value_in, inserted, insert_keyval-inserted, answer, get_in-value, value_in-inserted,
  any-inserted,
}
use kanata.SubsetMap.Compare.{cmp_eq}

abbrev pub is_nonempty : List ℕ → Bool
is_nonempty [] = false
is_nonempty (k ∷ ks) = true

same_key-nil : (key : List ℕ) → is_nonempty key ≡ true → same_key key [] ≡ false
unfolding cmp
same_key-nil [] n = cc
same_key-nil (k ∷ ks) n = refl

module _ {V : Type 0} where
  get_bucket-set_bucket :
      (es : List (ℕ × List (SsmKeyValue V))) (k : ℕ) (b : List (SsmKeyValue V)) (k' : ℕ)
      → get_bucket (set_bucket es k b) k' ≡ (if k == k' then some b else get_bucket es k')
  unfolding get_bucket set_bucket
  get_bucket-set_bucket [] k b k' = refl
  get_bucket-set_bucket ((i, c) ∷ es) k b k' = ground (arith, get_bucket-set_bucket es k b k')

  abbrev pub bucket : SubsetMap V → ℕ → List (SsmKeyValue V)
  bucket m k = or_default (get_bucket m.entries k)

  abbrev pub step : SubsetMap V → ℕ → SsmKeyValue V → SubsetMap V
  step m k kv = record {
    entries = set_bucket m.entries k (insert_keyval (bucket m k) kv.key kv.value).0;
  }

  pub bucket-step :
      (m : SubsetMap V) (k : ℕ) (kv : SsmKeyValue V) (k' : ℕ)
      → bucket (step m k kv) k' ≡ (if k == k' then inserted (bucket m k) kv else bucket m k')
  bucket-step m k kv k' =
      ap or_default (get_bucket-set_bucket m.entries k _ k') ∙ elim (Bool-cases (k == k')) [
        | inl same ↦ rw same (insert_keyval-inserted (bucket m k) kv)
        | inr other ↦ rw other
      ]

  value-insert_items :
      (ks : List ℕ) (kv : SsmKeyValue V) (m : SubsetMap V) (e : SsmKeyExistedBeforeInsert) (k : ℕ)
      (j : List ℕ)
      → value_in (bucket (insert_items ks kv.key kv.value m e).0 k) j
        ≡ (if contains ks k && same_key kv.key j then some kv.value else value_in (bucket m k) j)
  unfolding insert_items
  value-insert_items [] kv m e k j = refl
  value-insert_items (i ∷ ks) kv m e k j =
      value-insert_items ks kv (step m i kv) _ k j
      ∙ ground (arith, bucket-step m i kv k, value_in-inserted (bucket m i) kv j)

  any-insert_items :
      (ks : List ℕ) (kv : SsmKeyValue V) (m : SubsetMap V) (e : SsmKeyExistedBeforeInsert) (k : ℕ)
      (p : List ℕ → Bool)
      → any (λ x. p x.key) (bucket (insert_items ks kv.key kv.value m e).0 k)
        ≡ (contains ks k && p kv.key || any (λ x. p x.key) (bucket m k))
  unfolding insert_items
  any-insert_items [] kv m e k p = refl
  any-insert_items (i ∷ ks) kv m e k p =
      any-insert_items ks kv (step m i kv) _ k p
      ∙ ground (arith, bucket-step m i kv k, any-inserted p (bucket m i) kv)

  -- The map after insertions, the latest first.
  unfoldable pub inserts : List (SsmKeyValue V) → SubsetMap V
  unfolding ssm_insert_ksorted
  inserts [] = ssm_new
  inserts (kv ∷ history) = (ssm_insert_ksorted (inserts history) kv.key kv.value).0

  -- The value that was last inserted for a key.
  unfoldable pub latest : List (SsmKeyValue V) → List ℕ → Option V
  latest [] key = none
  latest (kv ∷ history) key =
      let before = latest history key in if same_key kv.key key then some kv.value else before

  -- A key that was inserted has all the items.
  abbrev pub is_covered : List (SsmKeyValue V) → List ℕ → Bool
  is_covered history key = any (λ kv. is_subset_of key kv.key) history

  value-inserts :
      (h : List (SsmKeyValue V)) (k : ℕ) (j : List ℕ)
      → contains j k ≡ true
      → value_in (bucket (inserts h) k) j ≡ latest h j
  unfolding inserts ssm_insert_ksorted latest get_bucket value_in
  value-inserts [] k j c = refl
  value-inserts (kv ∷ h) k j c =
      value-insert_items kv.key kv (inserts h) not_there k j
      ∙ ground (arith, value-inserts h k j c, cmp_eq kv.key j)

  any-inserts :
      (h : List (SsmKeyValue V)) (k : ℕ) (ks : List ℕ)
      → any (λ x. is_subset_of (k ∷ ks) x.key) (bucket (inserts h) k) ≡ is_covered h (k ∷ ks)
  unfolding inserts ssm_insert_ksorted get_bucket
  any-inserts [] k ks = refl
  any-inserts (kv ∷ h) k ks =
      any-insert_items kv.key kv (inserts h) not_there k (is_subset_of (k ∷ ks))
      ∙ ground (arith, any-inserts h k ks)

  get-bucket :
      (m : SubsetMap V) (k : ℕ) (ks : List ℕ)
      → ssm_get_or_is_subset_ksorted m (k ∷ ks) ≡ get_in (k ∷ ks) (bucket m k)
  unfolding ssm_get_or_is_subset_ksorted get_in
  get-bucket m k ks = elim (Option-cases (get_bucket m.entries k)) [
    | inl out ↦ rw (out, ssm_get_or_is_subset_ksorted)
    | inr (b, e) ↦ rw (e, ssm_get_or_is_subset_ksorted)
  ]

  is_empty-set_bucket :
      (es : List (ℕ × List (SsmKeyValue V))) (k : ℕ) (b : List (SsmKeyValue V))
      → is_empty (record { entries = set_bucket es k b }) ≡ false
  unfolding set_bucket
  is_empty-set_bucket [] k b = refl
  is_empty-set_bucket ((i, c) ∷ es) k b = ground arith

  is_empty-insert_items :
      (ks : List ℕ) (kv : SsmKeyValue V) (m : SubsetMap V) (e : SsmKeyExistedBeforeInsert)
      → is_empty m ≡ false
      → is_empty (insert_items ks kv.key kv.value m e).0 ≡ false
  unfolding insert_items
  is_empty-insert_items [] kv m e h = h
  is_empty-insert_items (k ∷ ks) kv m e h =
      is_empty-insert_items ks kv (step m k kv) _ (is_empty-set_bucket m.entries k _)

  is_empty-inserts :
      (key : List ℕ) (value : V) (h : List (SsmKeyValue V))
      → is_nonempty key ≡ true
      → is_empty (inserts (record { key = key; value = value } ∷ h)) ≡ false
  unfolding inserts ssm_insert_ksorted insert_items
  is_empty-inserts [] value h n = cc
  is_empty-inserts (k ∷ ks) value h n =
      let kv : SsmKeyValue V = record { key = k ∷ ks; value = value } in
      is_empty-insert_items ks kv (step (inserts h) k kv) _
        (is_empty-set_bucket (inserts h).entries k _)

  latest_nil :
      (h : List (SsmKeyValue V)) → all (λ kv. is_nonempty kv.key) h ≡ true → latest h [] ≡ none
  unfolding latest
  latest_nil [] n = refl
  latest_nil (kv ∷ h) n = rw (same_key-nil kv.key (ground arith)) (latest_nil h (ground arith))

  get-nil :
      (h : List (SsmKeyValue V))
      → all (λ kv. is_nonempty kv.key) h ≡ true
      → ssm_get_or_is_subset_ksorted (inserts h) [] ≡ answer (latest h []) (is_covered h [])
  unfolding ssm_get_or_is_subset_ksorted
  get-nil [] n = unfold latest inserts in refl
  get-nil (kv ∷ h) n =
      let some_key = is_empty-inserts kv.key kv.value h (ground arith) in
      rw (some_key, latest_nil (kv ∷ h) n)

  -- After any insertions of keys that are not empty, what is got for any key is the value that was
  -- last inserted for it; where there is none, it is whether some key that was inserted has all its
  -- items.
  pub get-inserts :
      (h : List (SsmKeyValue V)) (j : List ℕ)
      → all (λ kv. is_nonempty kv.key) h ≡ true
      → ssm_get_or_is_subset_ksorted (inserts h) j ≡ answer (latest h j) (is_covered h j)
  get-inserts h [] n = get-nil h n
  get-inserts h (k ∷ ks) n =
      let own : contains (k ∷ ks) k ≡ true = ground arith in
      get-bucket (inserts h) k ks
      ∙ get_in-value (bucket (inserts h) k) (k ∷ ks)
      ∙ (λ i. answer (value-inserts h k (k ∷ ks) own i) (any-inserts h k ks i))
