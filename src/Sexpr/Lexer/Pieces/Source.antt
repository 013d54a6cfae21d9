-- ===== src/Sexpr/Lexer/Pieces/Source.antt =====
-- The items of a whole source.
use kanata.Base.{
  ℕ, suc, ◌≤◌, ◌≡◌, refl, arith, ap, ◌∙◌, sym, Bool, true, false, List, [], ◌∷◌, ◌++◌, some, length,
  ◌&&◌, Bool-cases, inl, inr,
}
use mathlib.Core.List.{append_assoc}
use kanata.Sexpr.Position.{Span, iterator_new}
use kanata.Sexpr.Position.Chars.{bytes_at, bytes_at-span_after}
use kanata.Sexpr.Position.Reading.{reading, span_after, newlines, last_line}
use kanata.Sexpr.Lexer.{Spanned, is_ignored, lexer_new}
use kanata.Sexpr.Lexer.Pieces.{Lexes, end, piece, Lexes-some, kept, lex-kept}

iterator_new-reading : (source : List ℕ) → iterator_new source ≡ reading [] source
unfolding newlines last_line
iterator_new-reading source = ground arith

pub lexer_new-kept :
    (ignore : Bool) (source : List ℕ) {items : List Spanned}
    → Lexes [] source items
    → lexer_new source ignore ≡ some (kept ignore items)
unfolding lexer_new
lexer_new-kept ignore source l =
    rw (iterator_new-reading source) (lex-kept ignore (suc (length source)) l (omega arith))

pub kept_all : (items : List Spanned) → kept false items ≡ items
unfolding kept
kept_all [] = refl
kept_all (item ∷ items) = ap (◌∷◌ item) (kept_all items)

-- The lexer never fails an assertion and its fuel is enough, whatever the source, and the items it
-- gives when it ignores whitespace and comments are those it gives otherwise without the whitespace
-- and the comments.
pub lexer_new-ignored :
    (source : List ℕ)
    → (items : List Spanned) × (lexer_new source false ≡ some items)
      × (lexer_new source true ≡ some (kept true items))
lexer_new-ignored source =
    let (items, l) = Lexes-some (length source) [] source (omega arith) in
    (items, lexer_new-kept false source l ∙ ap some (kept_all items), lexer_new-kept true source l)

-- The bytes of the items' spans, one behind the other.
unfoldable pub text : List ℕ → List Spanned → List ℕ
text source [] = []
text source ((t, span) ∷ items) = bytes_at source span ++ text source items

text-Lexes :
    (source : List ℕ) {done bs : List ℕ} {items : List Spanned}
    → Lexes done bs items
    → source ≡ done ++ bs
    → text source items ≡ bs
unfolding text
text-Lexes source end h = refl
text-Lexes source (piece {done} {b} {bs} {t} {items} read rest e s l) h =
    let g : source ≡ done ++ ((b ∷ read) ++ rest) = h ∙ ap (λ x. done ++ b ∷ x) e in
    let here : bytes_at source (span_after done (b ∷ read)) ≡ b ∷ read =
      rw g (bytes_at-span_after done (b ∷ read) rest) in
    let later = text-Lexes source l (g ∙ sym (append_assoc done (b ∷ read) rest)) in
    ap (λ x. x ++ text source items) here
    ∙ ap (λ x. b ∷ (read ++ x)) later
    ∙ ap (λ x. b ∷ x) (sym e)

-- Without ignoring anything the lexer loses nothing: the bytes in the spans of its items, errors
-- included, one behind the other are the source.
pub lexer_new-text :
    (source : List ℕ)
    → (items : List Spanned) × (lexer_new source false ≡ some items) × (text source items ≡ source)
lexer_new-text source =
    let (items, l) = Lexes-some (length source) [] source (omega arith) in
    (items, lexer_new-kept false source l ∙ ap some (kept_all items), text-Lexes source l refl)

-- A span of `source`, not empty, whose positions count the newlines before them.
abbrev pub Located : List ℕ → Span → Type 0
Located source span =
    (done : List ℕ) × (read : List ℕ) × (rest : List ℕ) × (source ≡ done ++ (read ++ rest))
    × (1 ≤ length read)
    × (span ≡ span_after done read)

abbrev pub AllLocated : List ℕ → List Spanned → Type 0
AllLocated source [] = Unit {0}
AllLocated source ((t, span) ∷ items) = Located source span × AllLocated source items

pub Lexes-AllLocated :
    (source : List ℕ) (ignore : Bool) {done bs : List ℕ} {items : List Spanned}
    → Lexes done bs items
    → source ≡ done ++ bs
    → AllLocated source (kept ignore items)
unfolding kept
Lexes-AllLocated source ignore end h = tt
Lexes-AllLocated source ignore (piece {done} {b} {bs} {t} {items} read rest e s l) h =
    let g : source ≡ done ++ ((b ∷ read) ++ rest) = h ∙ ap (λ x. done ++ b ∷ x) e in
    let later = Lexes-AllLocated source ignore l (g ∙ sym (append_assoc done (b ∷ read) rest)) in
    elim (Bool-cases (ignore && is_ignored t)) [
      | inl dropped ↦ rw dropped later
      | inr used ↦ rw used ((done, b ∷ read, rest, g, omega arith, refl), later)
    ]

-- The lexer gives every item, with or without whitespace and comments, the span of a part of the
-- source that is not empty; each end of a span counts the bytes and the newlines before it and names
-- the place behind the last of these newlines.
pub lexer_new-AllLocated :
    (source : List ℕ) (ignore : Bool)
    → (items : List Spanned) × (lexer_new source ignore ≡ some items) × AllLocated source items
lexer_new-AllLocated source ignore =
    let (items, l) = Lexes-some (length source) [] source (omega arith) in
    (kept ignore items, lexer_new-kept ignore source l, Lexes-AllLocated source ignore l refl)
