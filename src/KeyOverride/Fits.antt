-- ===== src/KeyOverride/Fits.antt =====
-- The mask test of an override is that its modifiers are pressed and the excluded ones are not.
use kanata.Base.{
  ℕ, zero, suc, ◌^◌, ◌<◌, ◌≡◌, refl, ap, sym, arith, Bool, true, false, not, ◌&&◌, List, [], ◌∷◌,
  Option, none, some, ◌==◌, any, all, bit_or, bit_and, max, min, Bool-cases, Option-cases, inl, inr,
  ==_iff,
}
use kanata.Base.Bits.Digits.{
  digit, digit-bit_or, digit-bit_and, digit-zero, eq_of_digits, bit_or-lt, bit_and-le,
}
use kanata.KeyOverride.Mask.{is_modifier, mask_for_key}
use kanata.KeyOverride.Override.{Override, contains, mask_of, get_mod_mask, get_excluded_mod_mask}
use kanata.KeyOverride.Apply.{in_layers, is_applicable}

abbrev one_if : Bool → ℕ
one_if true = 1
one_if false = 0

-- The modifier of each bit.
unfoldable pub key_at : ℕ → ℕ
key_at zero = 29
key_at (suc zero) = 42
key_at (suc (suc zero)) = 56
key_at (suc (suc (suc zero))) = 125
key_at (suc (suc (suc (suc zero)))) = 97
key_at (suc (suc (suc (suc (suc zero))))) = 54
key_at (suc (suc (suc (suc (suc (suc zero)))))) = 100
key_at (suc (suc (suc (suc (suc (suc (suc k))))))) = 126

mask_digit :
    (k osc : ℕ) {m : ℕ} → k < 8 → mask_for_key osc ≡ some m → digit k m ≡ one_if (osc == key_at k)
unfolding digit key_at mask_for_key
mask_digit zero osc h e = ground arith
mask_digit (suc zero) osc h e = ground arith
mask_digit (suc (suc zero)) osc h e = ground arith
mask_digit (suc (suc (suc zero))) osc h e = ground arith
mask_digit (suc (suc (suc (suc zero)))) osc h e = ground arith
mask_digit (suc (suc (suc (suc (suc zero))))) osc h e = ground arith
mask_digit (suc (suc (suc (suc (suc (suc zero)))))) osc h e = ground arith
mask_digit (suc (suc (suc (suc (suc (suc (suc zero))))))) osc h e = ground arith
mask_digit (suc (suc (suc (suc (suc (suc (suc (suc k)))))))) osc h e = absurd (omega arith)

mask_lt : (osc : ℕ) {m : ℕ} → mask_for_key osc ≡ some m → m < 256
unfolding mask_for_key
mask_lt osc e = ground arith

-- A modifier has its mask and its bit.
modifier_mask : (osc : ℕ) → is_modifier osc ≡ true → (m : ℕ) × (mask_for_key osc ≡ some m)
unfolding is_modifier mask_for_key
modifier_mask osc h = go (mask_for_key osc) refl
  where
    go : (o : Option ℕ) → mask_for_key osc ≡ o → (m : ℕ) × (mask_for_key osc ≡ some m)
    go none e = absurd (ground arith)
    go (some m) e = (m, e)

modifier_place : (osc : ℕ) → is_modifier osc ≡ true → (k : ℕ) × (k < 8) × (osc ≡ key_at k)
unfolding is_modifier key_at
modifier_place osc h = elim (Bool-cases (osc == 29)) [
  | inl e ↦ (0, omega arith, ground arith)
  | inr n0 ↦ elim (Bool-cases (osc == 42)) [
    | inl e ↦ (1, omega arith, ground arith)
    | inr n1 ↦ elim (Bool-cases (osc == 56)) [
      | inl e ↦ (2, omega arith, ground arith)
      | inr n2 ↦ elim (Bool-cases (osc == 125)) [
        | inl e ↦ (3, omega arith, ground arith)
        | inr n3 ↦ elim (Bool-cases (osc == 97)) [
          | inl e ↦ (4, omega arith, ground arith)
          | inr n4 ↦ elim (Bool-cases (osc == 54)) [
            | inl e ↦ (5, omega arith, ground arith)
            | inr n5 ↦ elim (Bool-cases (osc == 100)) [
              | inl e ↦ (6, omega arith, ground arith)
              | inr n6 ↦ (7, omega arith, ground arith)
            ]
          ]
        ]
      ]
    ]
  ]
]

-- The mask of some modifiers exists, fits a `u8`, and has a bit exactly for each of them.
mask_of-some :
    (ms : List ℕ) (acc : ℕ) → all is_modifier ms ≡ true → (m : ℕ) × (mask_of acc ms ≡ some m)
unfolding mask_of
mask_of-some [] acc h = (acc, refl)
mask_of-some (x ∷ ms) acc h =
    let (m, e) = modifier_mask x (ground arith) in
    let (r, p) = mask_of-some ms (bit_or acc m) (ground arith) in (r, rw (e, mask_of) p)

mask_of-cons :
    (x : ℕ) (ms : List ℕ) (acc : ℕ) {m : ℕ}
    → mask_of acc (x ∷ ms) ≡ some m
    → (v : ℕ) × (mask_for_key x ≡ some v) × (mask_of (bit_or acc v) ms ≡ some m)
unfolding mask_of
mask_of-cons x ms acc e = elim (Option-cases (mask_for_key x)) [
  | inl p ↦ cc (rw (p, mask_of) at e)
  | inr (v, p) ↦ (v, p, rw (p, mask_of) at e)
]

mask_of-nil : (acc : ℕ) {m : ℕ} → mask_of acc [] ≡ some m → acc ≡ m
unfolding mask_of
mask_of-nil acc e = ground arith

mask_of-lt : (ms : List ℕ) (acc : ℕ) {m : ℕ} → acc < 256 → mask_of acc ms ≡ some m → m < 256
mask_of-lt [] acc h e = omega (arith, mask_of-nil acc e)
mask_of-lt (x ∷ ms) acc h e =
    let (v, p, q) = mask_of-cons x ms acc e in
    mask_of-lt ms (bit_or acc v) (bit_or-lt 8 acc v h (mask_lt x p)) q

digit_of_mask :
    (ms : List ℕ) (acc k : ℕ) {m : ℕ}
    → k < 8
    → mask_of acc ms ≡ some m
    → digit k m ≡ max (digit k acc) (one_if (contains ms (key_at k)))
digit_of_mask [] acc k h e = rw (← mask_of-nil acc e) (omega arith)
digit_of_mask (x ∷ ms) acc k h e =
    let (v, p, q) = mask_of-cons x ms acc e in
    ground (arith, digit_of_mask ms (bit_or acc v) k h q, digit-bit_or k acc v, mask_digit k x h p)

-- From a mask of its own.
digit_of_keys :
    (ms : List ℕ) (k : ℕ) {m : ℕ}
    → k < 8
    → mask_of 0 ms ≡ some m
    → digit k m ≡ one_if (contains ms (key_at k))
digit_of_keys ms k h e = omega (arith, digit_of_mask ms 0 k h e, digit-zero k)

all_apply :
    (p : ℕ → Bool) (ms : List ℕ) (x : ℕ) → all p ms ≡ true → contains ms x ≡ true → p x ≡ true
all_apply p [] x h c = cc
all_apply p (y ∷ ms) x h c = elim (Bool-cases (y == x)) [
  | inl e ↦ (let same : y ≡ x = (==_iff y x).0 e in rw (← same) (ground arith))
  | inr n ↦ all_apply p ms x (ground arith) (ground arith)
]

any_apply :
    (p : ℕ → Bool) (ms : List ℕ) (x : ℕ) → any p ms ≡ false → contains ms x ≡ true → p x ≡ false
any_apply p [] x h c = cc
any_apply p (y ∷ ms) x h c = elim (Bool-cases (y == x)) [
  | inl e ↦ (let same : y ≡ x = (==_iff y x).0 e in rw (← same) (ground arith))
  | inr n ↦ any_apply p ms x (ground arith) (ground arith)
]

-- All modifiers of a list satisfy a test if those of the eight that are in it do.
all_by_place :
    (p : ℕ → Bool) (ms : List ℕ)
    → all is_modifier ms ≡ true
    → ((k : ℕ) → k < 8 → contains ms (key_at k) ≡ true → p (key_at k) ≡ true)
    → all p ms ≡ true
all_by_place p [] h q = refl
all_by_place p (x ∷ ms) h q =
    let (k, lt, e) = modifier_place x (ground arith) in
    let here : p x ≡ true = rw e (q k lt (ground arith)) in
    let rest : all p ms ≡ true =
      all_by_place p ms (ground arith) (λ j lt' c. q j lt' (ground arith)) in
    ground arith

Bool_eq : (b c : Bool) → (b ≡ true → c ≡ true) → (c ≡ true → b ≡ true) → b ≡ c
Bool_eq true true f g = refl
Bool_eq true false f g = sym (f refl)
Bool_eq false true f g = g refl
Bool_eq false false f g = refl

module _ (ms pressed : List ℕ) (m a : ℕ) (mods : all is_modifier ms ≡ true)
    (mask : mask_of 0 ms ≡ some m) (active : mask_of 0 pressed ≡ some a) where
  digit_both :
      (k : ℕ)
      → k < 8
      → digit k (bit_and m a)
        ≡ min (one_if (contains ms (key_at k))) (one_if (contains pressed (key_at k)))
  digit_both k h =
      omega
        (arith, digit-bit_and k m a, digit_of_keys ms k h mask, digit_of_keys pressed k h active)

  and_lt : bit_and m a < 2 ^ 8
  and_lt = omega (arith, bit_and-le m m a (omega arith), mask_of-lt ms 0 (omega arith) mask)

  covered : (bit_and m a == m) ≡ all (contains pressed) ms
  covered =
      Bool_eq _ _
        (λ e. all_by_place (contains pressed) ms mods (λ k lt c. ground (
          arith,
          digit_both k lt,
          digit_of_keys ms k lt mask,
          ap (digit k) ((==_iff (bit_and m a) m).0 e),
        )))
        (λ e. (==_iff (bit_and m a) m).1 (
          eq_of_digits 8 (bit_and m a) m and_lt (mask_of-lt ms 0 (omega arith) mask) (λ k lt.
            ground (
              arith,
              digit_both k lt,
              digit_of_keys ms k lt mask,
              all_apply (contains pressed) ms (key_at k) e,
            ))))

  avoided : (bit_and m a == 0) ≡ not (any (contains pressed) ms)
  avoided =
      Bool_eq _ _
        (λ e. all_not ms (
          all_by_place (λ x. not (contains pressed x)) ms mods
            (λ k lt c.
              ground (
                arith,
                digit_both k lt,
                digit-zero k,
                ap (digit k) ((==_iff (bit_and m a) 0).0 e),
              ))))
        (λ e. (==_iff (bit_and m a) 0).1 (
          eq_of_digits 8 (bit_and m a) 0 and_lt (omega arith) (λ k lt. ground (
            arith,
            digit_both k lt,
            digit-zero k,
            any_apply (contains pressed) ms (key_at k) (ground arith),
          ))))
    where
      all_not :
          (xs : List ℕ)
          → all (λ x. not (contains pressed x)) xs ≡ true
          → not (any (contains pressed) xs) ≡ true
      all_not [] h = refl
      all_not (x ∷ xs) h = ground (arith, all_not xs)

abbrev pub or_empty : Option (List ℕ) → List ℕ
or_empty none = []
or_empty (some xs) = xs

-- What the source's comparison of masks is for.
unfoldable pub fits : Override → List ℕ → ℕ → Bool
fits o pressed layer =
    not (in_layers o.excluded_layers layer)
    && all (contains pressed) o.in_mod_oscs
    && not (any (contains pressed) (or_empty o.excluded_mod_oscs))

wanted_mask_lem : (o : Override) → get_mod_mask o ≡ mask_of 0 o.in_mod_oscs
unfolding get_mod_mask
wanted_mask_lem o = refl

excluded_mask :
    (o : Override) (ms : Option (List ℕ))
    → o.excluded_mod_oscs ≡ ms
    → get_excluded_mod_mask o ≡ mask_of 0 (or_empty o.excluded_mod_oscs)
unfolding get_excluded_mod_mask mask_of
excluded_mask o none e = rw (e, get_excluded_mod_mask)
excluded_mask o (some ms) e = rw (e, get_excluded_mod_mask)

-- For an override whose modifiers, wanted and excluded, are modifiers, and the mask of the
-- modifiers that are pressed: the comparison of masks does not panic, and says exactly that the
-- layer is not excluded, all the wanted modifiers are pressed and none of the excluded ones is.
pub is_applicable-fits :
    (o : Override) (pressed : List ℕ) (active layer : ℕ)
    → all is_modifier o.in_mod_oscs ≡ true
    → all is_modifier (or_empty o.excluded_mod_oscs) ≡ true
    → mask_of 0 pressed ≡ some active
    → is_applicable o active layer ≡ some (fits o pressed layer)
unfolding is_applicable fits
is_applicable-fits o pressed active layer wanted unwanted e =
    let (m, made) = mask_of-some o.in_mod_oscs 0 wanted in
    let (x, made') = mask_of-some (or_empty o.excluded_mod_oscs) 0 unwanted in
    let p = covered o.in_mod_oscs pressed m active wanted made e in
    let q = avoided (or_empty o.excluded_mod_oscs) pressed x active unwanted made' e in
    let excluded = excluded_mask o o.excluded_mod_oscs refl in
    let wanted_mask = wanted_mask_lem o in
    elim (Bool-cases (in_layers o.excluded_layers layer)) [
      | inl out ↦ rw out
      | inr in_ ↦ rw (in_, excluded, wanted_mask, made, made', p, q)
    ]
