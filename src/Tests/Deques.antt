-- ===== src/Tests/Deques.antt =====
-- Deques that wrap around, by lists.
use kanata.Base.{
  ℕ, zero, suc, ◌<◌, ◌≡◌, refl, arith, Bool, true, false, List, [], ◌∷◌, ◌++◌, Option, none, some,
  ltb, if◌then◌else◌, length, all, take, get_elem?,
}
use kanata.Layout.Deques.{Deques, all_of}

-- A deque that wraps around.
abbrev pub behind_front : {A : Type 0} → List A → A → List A × Option A
behind_front [] x = ([], some x)
behind_front (y ∷ ys) x = (ys ++ x ∷ [], some y)

abbrev pub wrap_back : ℕ → {A : Type 0} → List A → A → List A × Option A
wrap_back n xs x = if ltb (length xs) n then (xs ++ x ∷ [], none) else behind_front xs x

abbrev pub wrap_front : ℕ → {A : Type 0} → List A → A → List A × Option A
wrap_front n xs x = (take n (x ∷ xs), get_elem? (x ∷ xs) n)

pub wrap_back-room :
    (n : ℕ) {A : Type 0} (xs : List A) (x : A)
    → length xs < n
    → wrap_back n xs x ≡ (xs ++ x ∷ [], none)
wrap_back-room n xs x h = let room : ltb (length xs) n ≡ true = ground arith in rw room

pub wrap_back-full :
    (n : ℕ) {A : Type 0} (y : A) (xs : List A) (x : A)
    → length (y ∷ xs) ≡ n
    → wrap_back n (y ∷ xs) x ≡ (xs ++ x ∷ [], some y)
wrap_back-full n y xs x h = let full : ltb (length (y ∷ xs)) n ≡ false = ground arith in rw full

all-push :
    {A : Type 0} (p : A → Bool) (xs : List A) (x : A)
    → all p xs ≡ true
    → p x ≡ true
    → all p (xs ++ x ∷ []) ≡ true
all-push p [] x h k = ground arith
all-push p (y ∷ xs) x h k = ground (arith, all-push p xs x)

all-take :
    {A : Type 0} (p : A → Bool) (n : ℕ) (xs : List A) → all p xs ≡ true → all p (take n xs) ≡ true
all-take p zero xs h = refl
all-take p (suc n) [] h = refl
all-take p (suc n) (x ∷ xs) h = ground (arith, all-take p n xs)

all_of-get_elem? :
    {A : Type 0} (p : A → Bool) (xs : List A) (i : ℕ)
    → all p xs ≡ true
    → all_of p (get_elem? xs i) ≡ true
all_of-get_elem? p [] i h = refl
all_of-get_elem? p (x ∷ xs) zero h = ground arith
all_of-get_elem? p (x ∷ xs) (suc i) h = all_of-get_elem? p xs i (ground arith)

pub wrap_back-all :
    (n : ℕ) {A : Type 0} (p : A → Bool) (xs : List A) (x : A)
    → all p xs ≡ true
    → p x ≡ true
    → (all p (wrap_back n xs x).0 ≡ true) × (all_of p (wrap_back n xs x).1 ≡ true)
wrap_back-all n p [] x h k = ground arith
wrap_back-all n p (y ∷ xs) x h k = ground (arith, all-push p xs x)

pub wrap_front-all :
    (n : ℕ) {A : Type 0} (p : A → Bool) (xs : List A) (x : A)
    → all p xs ≡ true
    → p x ≡ true
    → (all p (wrap_front n xs x).0 ≡ true) × (all_of p (wrap_front n xs x).1 ≡ true)
wrap_front-all n p xs x h k =
    let both : all p (x ∷ xs) ≡ true = ground arith in
    (all-take p n (x ∷ xs) both, all_of-get_elem? p (x ∷ xs) n both)

abbrev pub refuse : ℕ → {A : Type 0} → List A → A → List A
refuse n xs x = if ltb (length xs) n then xs ++ x ∷ [] else xs

pub refuse-room :
    (n : ℕ) {A : Type 0} (xs : List A) (x : A) → length xs < n → refuse n xs x ≡ xs ++ x ∷ []
refuse-room n xs x h = let room : ltb (length xs) n ≡ true = ground arith in rw room

abbrev pub deques : Deques
deques = record {
  push_back = wrap_back;
  push_front = wrap_front;
  push_or_refuse = refuse;
  push_or_refuse_room = refuse-room;
  push_back_room = wrap_back-room;
  push_back_full = wrap_back-full;
  push_back_all = wrap_back-all;
  push_front_all = wrap_front-all;
}
