-- ===== src/Sexpr/Lexer/Pieces/Sliced.antt =====
-- The slices that the parser takes of a text.
use kanata.Base.{
  ℕ, ◌≡◌, refl, arith, ap, ◌∙◌, sym, Bool, true, false, List, [], ◌∷◌, ◌++◌, some, length, ◌&&◌,
  Bool-cases, inl, inr, subst,
}
use mathlib.Core.List.{append_assoc}
use kanata.Sexpr.Position.{starts_char, slice}
use kanata.Sexpr.Position.Chars.{
  is_text, is_cut, is_text-cut, ends_ascii, ends_ascii-behind, slice-span_after,
}
use kanata.Sexpr.Position.Reading.{reading, span_after}
use kanata.Sexpr.Lexer.{TokenRes, ok, err, Spanned, is_ignored, scan, lexer_new}
use kanata.Sexpr.Lexer.Cut.{ends_cut, scan-cut}
use kanata.Sexpr.Lexer.Pieces.{Lexes, end, piece, Lexes-some, kept}
use kanata.Sexpr.Lexer.Pieces.Source.{lexer_new-kept, kept_all, AllLocated, Lexes-AllLocated}

-- Up to the first error, the span of each item is a slice.
abbrev pub AllSliced : List ℕ → List Spanned → Type 0
AllSliced source [] = Unit {0}
AllSliced source ((err m, span) ∷ items) = Unit {0}
AllSliced source ((ok t, span) ∷ items) =
    ((a : List ℕ) × (slice source span ≡ some a)) × AllSliced source items

-- What a token that is no error leaves is cut between characters.
left-cut :
    (done : List ℕ) (b : ℕ) (bs read rest : List ℕ) (t : TokenRes)
    → is_cut (b ∷ bs) ≡ true
    → bs ≡ read ++ rest
    → scan b (reading (done ++ b ∷ []) bs) ≡ (t, reading (done ++ b ∷ read) rest)
    → ends_cut (t, reading (done ++ b ∷ read) rest) ≡ true
left-cut done b bs read rest t p e s =
    ap ends_cut (sym s) ∙ scan-cut b (reading (done ++ b ∷ []) bs) (ground arith)

Lexes-AllSliced :
    (source : List ℕ) (ignore : Bool) {done bs : List ℕ} {items : List Spanned}
    → Lexes done bs items
    → source ≡ done ++ bs
    → is_cut bs ≡ true
    → AllSliced source (kept ignore items)
unfolding kept
Lexes-AllSliced source ignore end h p = tt
Lexes-AllSliced source ignore (piece {done} {b} {bs} {t = err m} {items} read rest e s l) h p =
    elim (Bool-cases (ignore && false)) [
      | inl dropped ↦ absurd (ground arith)
      | inr used ↦ rw used tt
    ]
Lexes-AllSliced source ignore (piece {done} {b} {bs} {t = ok t} {items} read rest e s l) h p =
    let g : source ≡ done ++ ((b ∷ read) ++ rest) = h ∙ ap (λ x. done ++ b ∷ x) e in
    let start : starts_char rest ≡ true = left-cut done b bs read rest (ok t) p e s in
    let ends : ends_ascii rest ≡ true =
      ends_ascii-behind (b ∷ read) rest (ap (λ x. ends_ascii (b ∷ x)) (sym e) ∙ ground arith) in
    let first : starts_char ((b ∷ read) ++ rest) ≡ true = ground arith in
    let sliced : slice source (span_after done (b ∷ read)) ≡ some (b ∷ read) =
      rw g (slice-span_after done (b ∷ read) rest first start) in
    let later =
      Lexes-AllSliced source ignore l (g ∙ sym (append_assoc done (b ∷ read) rest))
        (ground arith) in
    elim (Bool-cases (ignore && is_ignored (ok t))) [
      | inl dropped ↦ rw dropped later
      | inr used ↦ rw used ((b ∷ read, sliced), later)
    ]

-- What the parser needs of the items of a text.
pub lexer_new-AllSliced :
    (source : List ℕ) (ignore : Bool)
    → is_text source ≡ true
    → (items : List Spanned) × (lexer_new source ignore ≡ some items)
      × AllLocated source items
      × AllSliced source items
lexer_new-AllSliced source ignore h =
    let (items, l) = Lexes-some (length source) [] source (omega arith) in
    (
      kept ignore items,
      lexer_new-kept ignore source l,
      Lexes-AllLocated source ignore l refl,
      Lexes-AllSliced source ignore l refl (is_text-cut source h),
    )

-- Both ways of lexing at once.
pub lexer_new-both :
    (source : List ℕ)
    → is_text source ≡ true
    → (items : List Spanned) × (lexer_new source false ≡ some items)
      × (lexer_new source true ≡ some (kept true items))
      × AllSliced source items
lexer_new-both source h =
    let (items, l) = Lexes-some (length source) [] source (omega arith) in
    (
      items,
      lexer_new-kept false source l ∙ ap some (kept_all items),
      lexer_new-kept true source l,
      subst (AllSliced source) (kept_all items)
          (Lexes-AllSliced source false l refl (is_text-cut source h)),
    )
