-- ===== src/Layout/Deques.antt =====
-- The arraydeque crate, by the capacity of a deque: what its documentation says of the two pushes with
-- the behaviour that wraps around, and of the push that refuses where there is no room. A pop at the front is that of a list.
use kanata.Base.{ℕ, ◌<◌, ◌≡◌, Bool, true, List, [], ◌∷◌, ◌++◌, Option, none, some, length, all}
use kanata.Layout.OneShot.{Deque, one_shot_max_active}

abbrev pub all_of {ℓ} : {A : Type ℓ} → (A → Bool) → Option A → Bool
all_of p none = true
all_of p (some x) = p x

pub record Deques : Type 1 where
  pub push_back : ℕ → {A : Type 0} → List A → A → List A × Option A
  pub push_front : ℕ → {A : Type 0} → List A → A → List A × Option A
  pub push_or_refuse : ℕ → {A : Type 0} → List A → A → List A
  pub push_back_room :
      (capacity : ℕ) {A : Type 0} (xs : List A) (x : A)
      → length xs < capacity
      → push_back capacity xs x ≡ (xs ++ x ∷ [], none)
  pub push_back_full :
      (capacity : ℕ) {A : Type 0} (y : A) (xs : List A) (x : A)
      → length (y ∷ xs) ≡ capacity
      → push_back capacity (y ∷ xs) x ≡ (xs ++ x ∷ [], some y)
  pub push_or_refuse_room :
      (capacity : ℕ) {A : Type 0} (xs : List A) (x : A)
      → length xs < capacity
      → push_or_refuse capacity xs x ≡ xs ++ x ∷ []
  -- What a push leaves or gives back was there or was pushed.
  pub push_back_all :
      (capacity : ℕ) {A : Type 0} (p : A → Bool) (xs : List A) (x : A)
      → all p xs ≡ true
      → p x ≡ true
      → (all p (push_back capacity xs x).0 ≡ true) × (all_of p (push_back capacity xs x).1 ≡ true)
  pub push_front_all :
      (capacity : ℕ) {A : Type 0} (p : A → Bool) (xs : List A) (x : A)
      → all p xs ≡ true
      → p x ≡ true
      → (all p (push_front capacity xs x).0 ≡ true) × (all_of p (push_front capacity xs x).1 ≡ true)

-- The deques of the one shot keys.
abbrev pub one_shot_deque : Deques → Deque
one_shot_deque d = record {
  push_back = λ {A} xs x. d.push_back one_shot_max_active xs x;
  push_back_room = λ {A} xs x h. d.push_back_room one_shot_max_active xs x h;
  push_back_full = λ {A} y xs x h. d.push_back_full one_shot_max_active y xs x h;
}
