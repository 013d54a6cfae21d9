-- ===== src/SubsetMap.antt =====
-- parser/src/subset.rs, `SubsetMap`, with keys that are lists of numbers. The hash map is an
-- association list.
pub mod Compare
pub mod Buckets
pub mod History
pub mod Order
use Prim.Native.Nat.{compare, Ordering}
use kanata.Base.{
  ℕ, zero, suc, Bool, true, false, not, ◌&&◌, List, [], ◌∷◌, Option, none, some, ◌==◌,
  if◌then◌else◌, any, all, get_elem?, set,
}

-- `cmp` of two slices.
unfoldable pub cmp : List ℕ → List ℕ → Ordering
cmp [] [] = Ordering.eq
cmp [] (b ∷ bs) = Ordering.lt
cmp (a ∷ as') [] = Ordering.gt
cmp (a ∷ as') (b ∷ bs) =
    let rest = cmp as' bs in
    elim (compare a b) [
      | Ordering.lt ↦ Ordering.lt
      | Ordering.eq ↦ rest
      | Ordering.gt ↦ Ordering.gt
    ]

abbrev pub contains : List ℕ → ℕ → Bool
contains key k = any (λ x. x == k) key

abbrev pub is_subset_of : List ℕ → List ℕ → Bool
is_subset_of get_key key = all (contains key) get_key

pub data SsmKeyExistedBeforeInsert : Type 0 where
  existed not_there : SsmKeyExistedBeforeInsert

-- `Ok` and `Err` of a binary search.
pub data Search : Type 0 where
  found at : ℕ → Search

pub data GetOrIsSubsetOfKnownKey (V : Type 0) : Type 0 where
  has_value : V → GetOrIsSubsetOfKnownKey V
  is_subset neither : GetOrIsSubsetOfKnownKey V

pub record SsmKeyValue (V : Type 0) : Type 0 where
  pub key : List ℕ
  pub value : V

pub record SubsetMap (V : Type 0) : Type 0 where
  pub entries : List (ℕ × List (SsmKeyValue V))

abbrev pub ssm_new : {V : Type 0} → SubsetMap V
ssm_new = record { entries = [] }

abbrev pub shift : Search → Search
shift (found pos) = found (suc pos)
shift (at pos) = at (suc pos)

module _ {V : Type 0} where
  -- `binary_search_by`: the place of the key, or that where it belongs. The list is sorted, so it is
  -- behind all smaller keys.
  unfoldable pub binary_search : List (SsmKeyValue V) → List ℕ → Search
  unfolding cmp
  binary_search [] key = at 0
  binary_search (probe ∷ keyvals) key =
      let behind = shift (binary_search keyvals key) in
      elim (cmp probe.key key) [ Ordering.lt ↦ behind | Ordering.eq ↦ found 0 | Ordering.gt ↦ at 0 ]

  -- `Vec::insert`
  unfoldable pub insert_at : List (SsmKeyValue V) → ℕ → SsmKeyValue V → List (SsmKeyValue V)
  insert_at xs zero x = x ∷ xs
  insert_at [] (suc i) x = x ∷ []
  insert_at (y ∷ xs) (suc i) x = y ∷ insert_at xs i x

  -- The two arms for one key item.
  unfoldable pub insert_keyval :
      List (SsmKeyValue V) → List ℕ → V → List (SsmKeyValue V) × Option SsmKeyExistedBeforeInsert
  unfolding binary_search insert_at
  insert_keyval keyvals key val =
      let kv : SsmKeyValue V = record { key = key; value = val } in
      elim (binary_search keyvals key) [
        | found pos ↦ (set keyvals pos kv, some existed)
        | at pos ↦ (insert_at keyvals pos kv, none)
      ]

  -- `map.get(&k)`
  unfoldable pub get_bucket : List (ℕ × List (SsmKeyValue V)) → ℕ → Option (List (SsmKeyValue V))
  get_bucket [] k = none
  get_bucket ((k', keyvals) ∷ entries) k =
      let later = get_bucket entries k in if k' == k then some keyvals else later

  abbrev pub or_default : Option (List (SsmKeyValue V)) → List (SsmKeyValue V)
  or_default none = []
  or_default (some keyvals) = keyvals

  -- What `map.entry(k).or_default()` refers to is replaced.
  unfoldable pub set_bucket :
      List (ℕ × List (SsmKeyValue V)) → ℕ → List (SsmKeyValue V) → List (ℕ × List (SsmKeyValue V))
  set_bucket [] k keyvals = (k, keyvals) ∷ []
  set_bucket ((k', keyvals') ∷ entries) k keyvals =
      let later = set_bucket entries k keyvals in
      if k' == k then (k, keyvals) ∷ entries else (k', keyvals') ∷ later

  -- The loop over the items of the key.
  unfoldable pub insert_items :
      List ℕ
      → List ℕ
      → V
      → SubsetMap V
      → SsmKeyExistedBeforeInsert
      → SubsetMap V × SsmKeyExistedBeforeInsert
  unfolding insert_keyval get_bucket set_bucket
  insert_items [] key val m key_existed = (m, key_existed)
  insert_items (k ∷ ks) key val m key_existed =
      let (keyvals, result) = insert_keyval (or_default (get_bucket m.entries k)) key val in
      let seen : SsmKeyExistedBeforeInsert = elim result [ none ↦ key_existed | some e ↦ e ] in
      insert_items ks key val (record { entries = set_bucket m.entries k keyvals }) seen

  unfoldable pub ssm_insert_ksorted :
      SubsetMap V → List ℕ → V → SubsetMap V × SsmKeyExistedBeforeInsert
  unfolding insert_items
  ssm_insert_ksorted m key val = insert_items key key val m not_there

  abbrev pub is_empty : SubsetMap V → Bool
  is_empty m = elim m.entries [ [] ↦ true | e ∷ es ↦ false ]

  -- In the list of the first item. A place that was found is never out of range.
  unfoldable pub get_in : List ℕ → List (SsmKeyValue V) → GetOrIsSubsetOfKnownKey V
  unfolding binary_search
  get_in get_key keyvals =
      let subset : GetOrIsSubsetOfKnownKey V =
        if any (λ kv. is_subset_of get_key kv.key) keyvals then is_subset else neither in
      elim (binary_search keyvals get_key) [
        | found pos ↦ elim (get_elem? keyvals pos) [ none ↦ neither | some kv ↦ has_value kv.value ]
        | at pos ↦ subset
      ]

  unfoldable pub ssm_get_or_is_subset_ksorted : SubsetMap V → List ℕ → GetOrIsSubsetOfKnownKey V
  unfolding get_in get_bucket
  ssm_get_or_is_subset_ksorted m [] = if is_empty m then neither else is_subset
  ssm_get_or_is_subset_ksorted m (k ∷ ks) = elim (get_bucket m.entries k) [
    | none ↦ neither
    | some keyvals ↦ get_in (k ∷ ks) keyvals
  ]
