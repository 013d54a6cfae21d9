-- ===== src/SubsetMap/Order.antt =====
-- The order of the lists of the map.
use Prim.Native.Nat.{Ordering}
use kanata.Base.{ℕ, ◌≡◌, subst, sym, List, [], ◌∷◌, Bool-cases, inl, inr, ◌==◌, if◌then◌else◌}
use kanata.SubsetMap.{
  cmp, SsmKeyValue, SubsetMap, SsmKeyExistedBeforeInsert, not_there, get_bucket, insert_items,
  ssm_insert_ksorted,
}
use kanata.SubsetMap.Buckets.{Ordering-cases, inserted}
use kanata.SubsetMap.Compare.{cmp_eq, cmp_gt}
use kanata.SubsetMap.History.{bucket, step, bucket-step, inserts}

module _ {V : Type 0} where
  -- A key that is less than the first of a list.
  abbrev Below : List ℕ → List (SsmKeyValue V) → Type 0
  Below key [] = Unit {0}
  Below key (kv ∷ b) = cmp key kv.key ≡ Ordering.lt

  abbrev pub Sorted : List (SsmKeyValue V) → Type 0
  Sorted [] = Unit {0}
  Sorted (kv ∷ b) = Below kv.key b × Sorted b

  inserted-Below :
      (key : List ℕ) (b : List (SsmKeyValue V)) (kv : SsmKeyValue V)
      → Below key b
      → cmp key kv.key ≡ Ordering.lt
      → Below key (inserted b kv)
  unfolding inserted
  inserted-Below key [] kv h lt = lt
  inserted-Below key (probe ∷ b) kv h lt = elim (Ordering-cases (cmp probe.key kv.key)) [
    | inl less ↦ rw (less, Below, inserted) h
    | inr (inl same) ↦ rw (same, Below, inserted) lt
    | inr (inr more) ↦ rw (more, Below, inserted) lt
  ]

  inserted-Sorted :
      (b : List (SsmKeyValue V)) (kv : SsmKeyValue V) → Sorted b → Sorted (inserted b kv)
  unfolding inserted
  inserted-Sorted [] kv h = (tt, tt)
  inserted-Sorted (probe ∷ b) kv (h, s) = elim (Ordering-cases (cmp probe.key kv.key)) [
    | inl less ↦
        rw (less, Sorted, inserted) (inserted-Below probe.key b kv h less, inserted-Sorted b kv s)
    | inr (inl same) ↦
        rw (same, Sorted, inserted) (subst (λ key. Below key b) (cmp_eq probe.key kv.key same) h, s)
    | inr (inr more) ↦ rw (more, Sorted, inserted) (cmp_gt probe.key kv.key more, (h, s))
  ]

  insert_items-Sorted :
      (ks : List ℕ) (kv : SsmKeyValue V) (m : SubsetMap V) (e : SsmKeyExistedBeforeInsert)
      → ((k : ℕ) → Sorted (bucket m k))
      → (k : ℕ) → Sorted (bucket (insert_items ks kv.key kv.value m e).0 k)
  unfolding insert_items
  insert_items-Sorted [] kv m e h = h
  insert_items-Sorted (i ∷ ks) kv m e h = insert_items-Sorted ks kv (step m i kv) _ (λ k.
      subst Sorted (sym (bucket-step m i kv k)) (elim (Bool-cases (i == k)) [
        | inl same ↦ rw (same, if◌then◌else◌) (inserted-Sorted (bucket m i) kv (h i))
        | inr other ↦ rw (other, if◌then◌else◌) (h k)
      ]))

  -- After any insertions each list is sorted, without a key twice.
  pub inserts-Sorted : (h : List (SsmKeyValue V)) (k : ℕ) → Sorted (bucket (inserts h) k)
  unfolding inserts ssm_insert_ksorted get_bucket
  inserts-Sorted [] k = tt
  inserts-Sorted (kv ∷ h) k =
      insert_items-Sorted kv.key kv (inserts h) not_there (inserts-Sorted h) k
