-- ===== src/SubsetMap/Compare.antt =====
-- The order of keys.
use Prim.Native.Nat.{Ordering}
use kanata.Base.{ℕ, ◌≡◌, refl, arith, List, [], ◌∷◌}
use kanata.SubsetMap.{cmp}

pub cmp_refl : (a : List ℕ) → cmp a a ≡ Ordering.eq
unfolding cmp
cmp_refl [] = refl
cmp_refl (x ∷ a) = ground (arith, cmp_refl a)

pub cmp_eq : (a b : List ℕ) → cmp a b ≡ Ordering.eq → a ≡ b
unfolding cmp
cmp_eq [] [] h = refl
cmp_eq [] (y ∷ b) h = cc
cmp_eq (x ∷ a) [] h = cc
cmp_eq (x ∷ a) (y ∷ b) h = ground (arith, cmp_eq a b)

pub cmp_lt_trans :
    (a b c : List ℕ) → cmp a b ≡ Ordering.lt → cmp b c ≡ Ordering.lt → cmp a c ≡ Ordering.lt
unfolding cmp
cmp_lt_trans [] [] c h k = cc
cmp_lt_trans [] (y ∷ b) [] h k = cc
cmp_lt_trans [] (y ∷ b) (z ∷ c) h k = refl
cmp_lt_trans (x ∷ a) [] c h k = cc
cmp_lt_trans (x ∷ a) (y ∷ b) [] h k = cc
cmp_lt_trans (x ∷ a) (y ∷ b) (z ∷ c) h k = ground (arith, cmp_lt_trans a b c)

pub cmp_gt : (a b : List ℕ) → cmp a b ≡ Ordering.gt → cmp b a ≡ Ordering.lt
unfolding cmp
cmp_gt [] [] h = cc
cmp_gt [] (y ∷ b) h = cc
cmp_gt (x ∷ a) [] h = refl
cmp_gt (x ∷ a) (y ∷ b) h = ground (arith, cmp_gt a b)

pub cmp_lt : (a b : List ℕ) → cmp a b ≡ Ordering.lt → cmp b a ≡ Ordering.gt
unfolding cmp
cmp_lt [] [] h = cc
cmp_lt [] (y ∷ b) h = refl
cmp_lt (x ∷ a) [] h = cc
cmp_lt (x ∷ a) (y ∷ b) h = ground (arith, cmp_lt a b)
