-- ===== src/Tests/SubsetMap.antt =====
-- The subset map after concrete insertions.
use kanata.Base.{ℕ, ◌≡◌, refl, List, [], ◌∷◌}
use kanata.SubsetMap.Buckets.{answer}
use kanata.SubsetMap.History.{inserts, latest, is_covered, get-inserts}
use kanata.SubsetMap.{
  has_value, is_subset, neither, SsmKeyValue, ssm_get_or_is_subset_ksorted, ssm_insert_ksorted,
  existed,
}

abbrev history : List (SsmKeyValue ℕ)
history =
    record { key = 1 ∷ 3 ∷ []; value = 12 }
    ∷ record { key = 2 ∷ []; value = 11 }
    ∷ record { key = 1 ∷ 2 ∷ 3 ∷ []; value = 10 }
    ∷ []

get-inserts_example :
    ssm_get_or_is_subset_ksorted (inserts history) (1 ∷ 2 ∷ [])
    ≡ answer (latest history (1 ∷ 2 ∷ [])) (is_covered history (1 ∷ 2 ∷ []))
get-inserts_example = get-inserts history (1 ∷ 2 ∷ []) refl

part_of_a_key : ssm_get_or_is_subset_ksorted (inserts history) (1 ∷ 2 ∷ []) ≡ is_subset
unfolding inserts ssm_get_or_is_subset_ksorted
part_of_a_key = refl

whole_key : ssm_get_or_is_subset_ksorted (inserts history) (1 ∷ 3 ∷ []) ≡ has_value 12
unfolding inserts ssm_get_or_is_subset_ksorted
whole_key = refl

no_key : ssm_get_or_is_subset_ksorted (inserts history) (4 ∷ []) ≡ neither
unfolding inserts ssm_get_or_is_subset_ksorted
no_key = refl

inserted_again : (ssm_insert_ksorted (inserts history) (2 ∷ []) 13).1 ≡ existed
unfolding inserts ssm_insert_ksorted
inserted_again = refl
