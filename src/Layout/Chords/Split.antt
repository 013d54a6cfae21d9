-- ===== src/Layout/Chords/Split.antt =====
-- How a chord that is not defined is split: into the longest chords, from the front.
use kanata.Base.{
  ℕ, zero, suc, ◌+◌, ◌-◌, ◌≤◌, ◌<◌, ◌≡◌, refl, arith, ap, ◌∙◌, sym, List, [], ◌∷◌, none, some, ltb,
  leb, length, take, drop, Bool-cases, Option-cases, ◌⊎◌, inl, inr, subst,
}
use kanata.Layout.Chords.Decompose.{chord_mask, shrink}
use kanata.Layout.Chords.Group.{find_chord, union}

module _ {A : Type 0} (chords : List (ℕ × A)) where
  -- No part of `keys` in front that is longer than `n`, up to `m`, is a chord.
  abbrev pub NoChord : ℕ → ℕ → List ℕ → Type 0
  NoChord n m keys = (i : ℕ) → n < i → i ≤ m → find_chord chords (union (take i keys)) ≡ none

  -- The longest chord in front, then those of the rest; a key with which no chord begins is dropped.
  pub data Split : List ℕ → List (ℕ × A) → Type 0 where
    nothing : Split [] []
    longest :
        {keys : List ℕ} {found : List (ℕ × A)} {action : A} (n : ℕ)
        → 0 < n
        → n ≤ length keys
        → find_chord chords (union (take n keys)) ≡ some action
        → NoChord n (length keys) keys
        → Split (drop n keys) found
        → Split keys ((union (take n keys), action) ∷ found)
    dropped :
        {k : ℕ} {keys : List ℕ} {found : List (ℕ × A)}
        → NoChord 0 (suc (length keys)) (k ∷ keys)
        → Split keys found
        → Split (k ∷ keys) found

pub length-drop : (n : ℕ) (xs : List ℕ) → length (drop n xs) ≡ length xs - n
length-drop zero xs = omega arith
length-drop (suc n) [] = omega arith
length-drop (suc n) (x ∷ xs) = omega (arith, length-drop n xs)

drop-nil : (n : ℕ) → drop {A = ℕ} n [] ≡ []
drop-nil zero = refl
drop-nil (suc n) = refl

pub drop-drop : (m n : ℕ) (xs : List ℕ) → drop m (drop n xs) ≡ drop (n + m) xs
drop-drop m zero xs = ap (λ k. drop k xs) (omega arith)
drop-drop m (suc n) [] = drop-nil m ∙ sym (drop-nil (suc n + m))
drop-drop m (suc n) (x ∷ xs) =
    let e : suc n + m ≡ suc (n + m) = omega arith in rw e (drop-drop m n xs)

NoChord-suc :
    {A : Type 0} (chords : List (ℕ × A)) (n m : ℕ) (keys : List ℕ)
    → NoChord chords n m keys
    → find_chord chords (union (take (suc m) keys)) ≡ none
    → NoChord chords n (suc m) keys
NoChord-suc chords n m keys h e i lt le = elim (Bool-cases (leb i m)) [
  | inl less ↦ h i lt (ground arith)
  | inr last ↦
      (let same : i ≡ suc m = ground arith in
        subst (λ j. find_chord chords (union (take j keys)) ≡ none) (sym same) e)
]

module _ {A E Q : Type 0} (chords : List (ℕ × A)) (entry : ℕ → A → E) (push_back : Q → E → Q)
    (keys : List ℕ) where
  -- What a search from `start` down from `end` gives: the longest chord, or that there is none.
  abbrev pub Searched : ℕ → ℕ → Q → Q × ℕ → Type 0
  Searched start end q r =
      ((n : ℕ) × (action : A) × (0 < n)
        × (start + n ≤ end)
        × (find_chord chords (union (take n (drop start keys))) ≡ some action)
        × NoChord chords n (end - start) (drop start keys)
        × (r ≡ (push_back q (entry (union (take n (drop start keys))) action), start + n)))
      ⊎ ((r.0 ≡ q) × (r.1 ≤ start) × NoChord chords 0 (end - start) (drop start keys))

  pub shrink-Searched :
      (start end : ℕ) (q : Q)
      → Searched start end q (shrink chords entry push_back keys start end q)
  unfolding shrink
  shrink-Searched start zero q = inr (refl, omega arith, λ i h k. absurd (omega arith))
  shrink-Searched start (suc e) q = elim (Bool-cases (ltb start (suc e))) [
    | inr over ↦ rw over (inr (refl, ground arith, λ i h k. absurd (ground arith)))
    | inl more ↦
        (let size : suc e - start ≡ suc (e - start) = ground arith in
          let here = drop start keys in
          elim (Option-cases
            (find_chord chords (chord_mask chords entry push_back keys start (suc e)))) [
              | inr (action, found) ↦ inl (
                suc e - start,
                action,
                ground arith,
                ground arith,
                found,
                λ i h k. absurd (omega arith),
                rw (more, found)
                    (ap (λ k. (push_back q (entry (union (take (suc e - start) here)) action), k))
                      (ground arith)),
              )
              | inl none_found ↦
                  let none_here =
                    subst (λ m. find_chord chords (union (take m here)) ≡ none) size none_found in
                  elim (shrink-Searched start e q) [
                    | inl (n, action, pos, le, found, none_longer, r) ↦ inl (
                      n,
                      action,
                      pos,
                      omega arith,
                      found,
                      subst (λ m. NoChord chords n m here) (sym size)
                          (NoChord-suc chords n (e - start) here none_longer none_here),
                      rw (more, none_found) r,
                    )
                    | inr (r, back, none_shorter) ↦ inr (
                      rw (more, none_found) r,
                      rw (more, none_found) back,
                      subst (λ m. NoChord chords 0 m here) (sym size)
                          (NoChord-suc chords 0 (e - start) here none_shorter none_here),
                    )
                  ]
            ])
  ]
