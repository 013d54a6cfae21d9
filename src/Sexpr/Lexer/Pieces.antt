-- ===== src/Sexpr/Lexer/Pieces.antt =====
-- The lexer cuts its source into pieces, one for each item, and drops those that it ignores.
pub mod Source
pub mod Sliced
use kanata.Base.{
  ℕ, zero, suc, ◌+◌, ◌≤◌, ◌<◌, ◌≡◌, refl, arith, ap, ◌∙◌, sym, Bool, true, false, not, ◌&&◌, List,
  [], ◌∷◌, ◌++◌, Option, none, some, length, length-append, Bool-cases, ◌⊎◌, inl, inr,
  if◌then◌else◌,
}
use mathlib.Core.List.{append_assoc}
use kanata.Sexpr.Position.{
  Position, Span, PositionCountingBytesIterator, pos, read_byte, iterator_new,
}
use kanata.Sexpr.Position.Reading.{
  reading, read_byte-reading, position_after, pos-reading, span_after, span_new-after,
}
use kanata.Sexpr.Lexer.{TokenRes, Spanned, scan, is_ignored, next_token, lex, spanned, lexer_new}
use kanata.Sexpr.Lexer.Scan.{Advances, scan-Advances}

-- With `done` read and a text left, the pieces of that text.
pub data Lexes : List ℕ → List ℕ → List Spanned → Type 0 where
  end : {done : List ℕ} → Lexes done [] []
  piece :
      {done : List ℕ} {b : ℕ} {bs : List ℕ} {t : TokenRes} {items : List Spanned}
      (read rest : List ℕ)
      → bs ≡ read ++ rest
      → scan b (reading (done ++ b ∷ []) bs) ≡ (t, reading (done ++ b ∷ read) rest)
      → Lexes (done ++ b ∷ read) rest items
      → Lexes done (b ∷ bs) ((t, span_after done (b ∷ read)) ∷ items)

pub Lexes-some :
    (n : ℕ) (done bs : List ℕ) → length bs ≤ n → (items : List Spanned) × Lexes done bs items
Lexes-some n done [] h = ([], Lexes.end)
Lexes-some zero done (b ∷ bs) h = absurd (omega arith)
Lexes-some (suc n) done (b ∷ bs) h =
    let (read, rest, e, f) = scan-Advances b (done ++ b ∷ []) bs in
    let (items, l) =
      Lexes-some n (done ++ b ∷ read) rest (omega (arith, ap length e, length-append read rest)) in
    let g : (done ++ b ∷ []) ++ read ≡ done ++ b ∷ read = append_assoc done (b ∷ []) read in
    (
      (((scan b (reading (done ++ b ∷ []) bs)).0, span_after done (b ∷ read)) ∷ items),
      piece read rest e
          (λ i. ((scan b (reading (done ++ b ∷ []) bs)).0, (f ∙ ap (λ d. reading d rest) g) i)) l,
    )

-- The items that are not passed over.
unfoldable pub kept : Bool → List Spanned → List Spanned
kept ignore [] = []
kept ignore (item ∷ items) =
    let rest = kept ignore items in if ignore && is_ignored item.0 then rest else item ∷ rest

-- The next token that is kept, or none.
abbrev Next : Bool → ℕ → List ℕ → List ℕ → List Spanned → Type 0
Next ignore g done bs items =
    ((next_token g ignore (reading done bs) ≡ some none) × (kept ignore items ≡ []))
    ⊎ ((done' : List ℕ) × (read : List ℕ) × (rest : List ℕ) × (t : TokenRes) × (items' : List
          Spanned)
        × (next_token g ignore (reading done bs)
            ≡ some (some (position_after done', t, reading (done' ++ read) rest)))
        × (kept ignore items ≡ (t, span_after done' read) ∷ kept ignore items')
        × Lexes (done' ++ read) rest items'
        × (length rest < length bs))

next_token-end :
    (done : List ℕ) (ignore : Bool) (g : ℕ)
    → next_token (suc g) ignore (reading done []) ≡ some none
unfolding next_token
next_token-end done ignore g = rw (pos-reading, next_token)

next_token-piece :
    (done : List ℕ) (b : ℕ) (bs read rest : List ℕ) (t : TokenRes) (ignore : Bool) (g : ℕ)
    → scan b (reading (done ++ b ∷ []) bs) ≡ (t, reading (done ++ b ∷ read) rest)
    → next_token (suc g) ignore (reading done (b ∷ bs)) ≡ (
        if ignore && is_ignored t
        then next_token g ignore (reading (done ++ b ∷ read) rest)
        else some (some (position_after done, t, reading (done ++ b ∷ read) rest)))
unfolding next_token
next_token-piece done b bs read rest t ignore g e =
    rw (pos-reading, next_token, read_byte-reading, e)

next_token-Next :
    (ignore : Bool) (g : ℕ) {done bs : List ℕ} {items : List Spanned}
    → Lexes done bs items
    → length bs < g
    → Next ignore g done bs items
unfolding kept
next_token-Next ignore zero l h = absurd (omega arith)
next_token-Next ignore (suc g) (end {done}) h = inl (next_token-end done ignore g, refl)
next_token-Next ignore (suc g) (piece {done} {b} {bs} {t} {items} read rest e s l) h =
    let shorter : length rest ≤ length bs = omega (arith, ap length e, length-append read rest) in
    let step = next_token-piece done b bs read rest t ignore g s in
    elim (Bool-cases (ignore && is_ignored t)) [
      | inr used ↦ inr (done, b ∷ read, rest, t, items, rw used at step, rw used, l, omega arith)
      | inl dropped ↦ elim (next_token-Next ignore g l (omega arith)) [
        | inl (out, none_kept) ↦ inl (rw dropped at step ∙ out, rw dropped none_kept)
        | inr (d, r, x, t', i, found, k, l', lt) ↦
            inr (d, r, x, t', i, rw dropped at step ∙ found, rw dropped k, l', omega arith)
      ]
    ]

-- With enough fuel the lexer's items are the pieces that are kept.
pub lex-kept :
    (ignore : Bool) (f : ℕ) {done bs : List ℕ} {items : List Spanned}
    → Lexes done bs items
    → length bs < f
    → lex f ignore (reading done bs) ≡ some (kept ignore items)
unfolding lex
lex-kept ignore zero l h = absurd (omega arith)
lex-kept ignore (suc f) {done} {bs} {items} l h =
    elim (next_token-Next ignore (suc (length bs)) l (omega arith)) [
      | inl (out, none_kept) ↦ rw (out, lex, none_kept)
      | inr (d, r, x, t, i, found, k, l', lt) ↦
          rw (
            found,
            lex,
            k,
            pos-reading,
            span_new-after,
            spanned,
            lex-kept ignore f l' (omega arith),
          )
    ]
