-- ===== src/Sexpr/Print/Words.antt =====
-- The lexer on a word, a space or a parenthesis with any text behind it.
use kanata.Base.{
  ℕ, ◌≡◌, refl, arith, ap, ◌∙◌, sym, Bool, true, false, not, ◌||◌, all, List, [], ◌∷◌, ◌++◌, ◌==◌,
  subst, Bool-cases, inl, inr,
}
use mathlib.Core.List.{append_assoc, append-nil}
use kanata.Sexpr.Position.{PositionCountingBytesIterator}
use kanata.Sexpr.Position.Reading.{reading, read_byte-reading, span_after}
use kanata.Sexpr.Lexer.{
  open_paren, close_paren, string_tok, whitespace, TokenRes, ok, Spanned, is_ascii_whitespace,
  is_start, next_while_from, peeks, peeks_two, scan,
}
use kanata.Sexpr.Lexer.Pieces.{Lexes, piece}
use kanata.Sexpr.Print.Place.{is_plain}

-- A loop over the bytes with `f` ends before this text.
abbrev pub stops : (ℕ → Bool) → List ℕ → Bool
stops f [] = true
stops f (b ∷ bs) = not (f b)

next_while-reading :
    (f : ℕ → Bool) (w rest before : List ℕ)
    → all f w ≡ true
    → stops f rest ≡ true
    → next_while_from f (w ++ rest) (reading before (w ++ rest)) ≡ reading (before ++ w) rest
unfolding next_while_from
next_while-reading f [] [] before h k = ap (λ b. reading b []) (sym (append-nil before))
next_while-reading f [] (b ∷ rest) before h k =
    let over : f b ≡ false = ground arith in
    rw over (ap (λ d. reading d (b ∷ rest)) (sym (append-nil before)))
next_while-reading f (b ∷ w) rest before h k =
    let more : f b ≡ true = ground arith in
    rw (more, read_byte-reading)
      (next_while-reading f w rest (before ++ b ∷ []) (ground arith) k ∙ rw append_assoc)

-- What follows an element of a list.
abbrev pub delimited : List ℕ → Bool
delimited [] = true
delimited (b ∷ bs) = b == b' ' || b == b')'

no_comment :
    (c : ℕ) (w rest : List ℕ)
    → delimited rest ≡ true
    → (c == b' ') ≡ false
    → (c == b')') ≡ false
    → peeks w c ≡ false
    → peeks (w ++ rest) c ≡ false
no_comment c [] [] d h h' k = refl
no_comment c [] (b ∷ rest) d h h' k = ground arith
no_comment c (x ∷ w) rest d h h' k = k

no_string :
    (w rest : List ℕ)
    → all (λ c. not (is_start c)) w ≡ true
    → delimited rest ≡ true
    → peeks_two (w ++ rest) b'#' b'"' ≡ false
no_string [] [] h d = refl
no_string [] (b ∷ rest) h d = ground arith
no_string (x ∷ []) [] h d = ground arith
no_string (x ∷ []) (b ∷ rest) h d = ground arith
no_string (x ∷ y ∷ w) rest h d = ground arith

delimited-stops :
    (rest : List ℕ) → delimited rest ≡ true → stops (λ c. not (is_start c)) rest ≡ true
delimited-stops [] d = refl
delimited-stops (b ∷ rest) d = ground arith

scan_word :
    (b : ℕ) (w rest before : List ℕ)
    → is_plain (b ∷ w) ≡ true
    → delimited rest ≡ true
    → scan b (reading before (w ++ rest)) ≡ (ok string_tok, reading (before ++ w) rest)
unfolding scan
scan_word b w rest before h d =
    let bytes : all (λ c. not (is_start c)) w ≡ true = ground arith in
    let opening : (b == b'(') ≡ false = ground arith in
    let closing : (b == b')') ≡ false = ground arith in
    let quote : (b == b'"') ≡ false = ground arith in
    let white : is_ascii_whitespace b ≡ false = ground arith in
    let word : ◌≡◌ {A = TokenRes × PositionCountingBytesIterator}
        (
          ok string_tok,
          next_while_from (λ c. not (is_start c)) (w ++ rest) (reading before (w ++ rest)),
        )
        (ok string_tok, reading (before ++ w) rest) =
      ap (λ it. (ok string_tok, it))
        (next_while-reading (λ c. not (is_start c)) w rest before bytes (delimited-stops rest d)) in
    rw (opening, closing, quote, white)
      (elim (Bool-cases (b == b';')) [
        | inl semicolon ↦ rw (semicolon, no_comment b';' w rest d refl refl (ground arith)) word
        | inr other ↦ rw other (elim (Bool-cases (b == b'r')) [
          | inl r ↦ rw (r, no_string w rest bytes d) word
          | inr other' ↦ rw other' (elim (Bool-cases (b == b'#')) [
            | inl hash ↦ rw (hash, no_comment b'|' w rest d refl refl (ground arith)) word
            | inr plain ↦ rw plain word
          ])
        ])
      ])

pub Lexes-at :
    {before before' text text' : List ℕ} {items : List Spanned}
    → before ≡ before'
    → text ≡ text'
    → Lexes before text items
    → Lexes before' text' items
Lexes-at {before} {before'} {text} {text'} {items} e f l =
    subst (λ t. Lexes before' t items) f (subst (λ b. Lexes b text items) e l)

-- One piece of the text is one token.
pub word-Lexes :
    (w rest before : List ℕ) {items : List Spanned}
    → is_plain w ≡ true
    → delimited rest ≡ true
    → Lexes (before ++ w) rest items
    → Lexes before (w ++ rest) ((ok string_tok, span_after before w) ∷ items)
word-Lexes [] rest before h d l = cc
word-Lexes (b ∷ w) rest before h d l =
    piece w rest refl
      (scan_word b w rest (before ++ b ∷ []) h d
        ∙ ap (λ x. (ok string_tok, reading x rest)) (append_assoc before (b ∷ []) w))
      l

pub open-Lexes :
    (rest before : List ℕ) {items : List Spanned}
    → Lexes (before ++ b'(' ∷ []) rest items
    → Lexes before (b'(' ∷ rest) ((ok open_paren, span_after before (b'(' ∷ [])) ∷ items)
unfolding scan
open-Lexes rest before l = piece [] rest refl refl l

pub close-Lexes :
    (rest before : List ℕ) {items : List Spanned}
    → Lexes (before ++ b')' ∷ []) rest items
    → Lexes before (b')' ∷ rest) ((ok close_paren, span_after before (b')' ∷ [])) ∷ items)
unfolding scan
close-Lexes rest before l = piece [] rest refl refl l

pub space-Lexes :
    (rest before : List ℕ) {items : List Spanned}
    → stops is_ascii_whitespace rest ≡ true
    → Lexes (before ++ b' ' ∷ []) rest items
    → Lexes before (b' ' ∷ rest) ((ok whitespace, span_after before (b' ' ∷ [])) ∷ items)
unfolding scan
space-Lexes rest before h l =
    piece [] rest refl
      (ap (λ it. (ok whitespace, it))
        (next_while-reading is_ascii_whitespace [] rest (before ++ b' ' ∷ []) refl h
          ∙ ap (λ x. reading x rest) (append-nil (before ++ b' ' ∷ []))))
      l
