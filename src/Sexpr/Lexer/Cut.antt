-- ===== src/Sexpr/Lexer/Cut.antt =====
-- A token that is no error ends between two characters.
use kanata.Base.{
  ℕ, ◌≡◌, arith, refl, ap, ◌∙◌, Bool, true, false, not, ◌&&◌, List, [], ◌∷◌, ◌==◌, leb,
  if◌then◌else◌, Bool-cases, inl, inr,
}
use kanata.Sexpr.Position.{
  newline, PositionCountingBytesIterator, is_continuation, starts_char, read_byte, skip,
}
use kanata.Sexpr.Position.Chars.{ends_ascii}
use kanata.Sexpr.Lexer.{
  Token, Msg, TokenRes, ok, err, open_paren, close_paren, string_tok, whitespace, block_comment,
  unterminated_multiline_string, unterminated_multiline_comment, peeks, peeks_two,
  is_ascii_whitespace, is_start, next_while_from, next_while, read_until_from, string_end, scan,
}

-- Behind a token: an error may end anywhere.
abbrev pub ends_cut : TokenRes × PositionCountingBytesIterator → Bool
ends_cut (ok t, it) = starts_char it.bytes
ends_cut (err m, it) = true

record Cuts (r : TokenRes × PositionCountingBytesIterator) : Type 0 where
  pub cut : ends_cut r ≡ true

if_both :
    (c : Bool) {x y : TokenRes × PositionCountingBytesIterator}
    → Cuts x
    → Cuts y
    → Cuts (if c then x else y)
if_both true h k = h
if_both false h k = k

read_byte-bytes :
    (it : PositionCountingBytesIterator) (b : ℕ) (bs : List ℕ) → (read_byte it b bs).bytes ≡ bs
read_byte-bytes it b bs = ground arith

-- A loop that ends at bytes that begin a character.
next_while-stops :
    (f : ℕ → Bool) (bs : List ℕ) (it : PositionCountingBytesIterator)
    → ((b : ℕ) → f b ≡ false → is_continuation b ≡ false)
    → it.bytes ≡ bs
    → starts_char (next_while_from f bs it).bytes ≡ true
unfolding next_while_from
next_while-stops f [] it h e = rw e refl
next_while-stops f (b ∷ bs) it h e = elim (Bool-cases (f b)) [
  | inl more ↦ rw more (next_while-stops f bs (read_byte it b bs) h (read_byte-bytes it b bs))
  | inr over ↦ rw (over, e, h b over) refl
]

-- A loop over bytes that are characters of their own.
next_while-ascii :
    (f : ℕ → Bool) (bs : List ℕ) (it : PositionCountingBytesIterator)
    → ((b : ℕ) → f b ≡ true → leb 128 b ≡ false)
    → it.bytes ≡ bs
    → ends_ascii bs ≡ true
    → starts_char bs ≡ true
    → starts_char (next_while_from f bs it).bytes ≡ true
unfolding next_while_from ends_ascii
next_while-ascii f [] it h e p q = rw e refl
next_while-ascii f (b ∷ bs) it h e p q = elim (Bool-cases (f b)) [
  | inl more ↦
      let small = h b more in
      rw more (
        next_while-ascii f bs (read_byte it b bs) h (read_byte-bytes it b bs) (ground arith)
          (ground arith))
  | inr over ↦ rw (over, e) q
]

next_while-ends_ascii :
    (f : ℕ → Bool) (bs : List ℕ) (it : PositionCountingBytesIterator)
    → it.bytes ≡ bs
    → ends_ascii bs ≡ true
    → ends_ascii (next_while_from f bs it).bytes ≡ true
unfolding next_while_from ends_ascii
next_while-ends_ascii f [] it e p = rw e refl
next_while-ends_ascii f (b ∷ bs) it e p = elim (Bool-cases (f b)) [
  | inl more ↦
      rw more
        (next_while-ends_ascii f bs (read_byte it b bs) (read_byte-bytes it b bs) (ground arith))
  | inr over ↦ rw (over, e) p
]

next_while-step :
    (f : ℕ → Bool) (b : ℕ) (bs : List ℕ) (it : PositionCountingBytesIterator)
    → f b ≡ true
    → next_while_from f (b ∷ bs) it ≡ next_while_from f bs (read_byte it b bs)
unfolding next_while_from
next_while-step f b bs it h = rw h refl

next_while-over :
    (f : ℕ → Bool) (b : ℕ) (bs : List ℕ) (it : PositionCountingBytesIterator)
    → f b ≡ false
    → next_while_from f (b ∷ bs) it ≡ it
unfolding next_while_from
next_while-over f b bs it h = rw h refl

skip-bytes :
    (it : PositionCountingBytesIterator) (b : ℕ) (bs : List ℕ)
    → it.bytes ≡ b ∷ bs
    → (skip it).bytes ≡ bs
skip-bytes it b bs e = rw e (read_byte-bytes it b bs)

skip-none : (it : PositionCountingBytesIterator) → it.bytes ≡ [] → (skip it).bytes ≡ []
skip-none it e = rw e refl

skip-newline :
    (bs : List ℕ) (it : PositionCountingBytesIterator)
    → it.bytes ≡ bs
    → ends_ascii bs ≡ true
    → starts_char (skip (next_while_from (λ c. not (c == newline)) bs it)).bytes ≡ true
unfolding next_while_from ends_ascii
skip-newline [] it e p = ap starts_char (skip-none it e)
skip-newline (b ∷ bs) it e p = elim (Bool-cases (b == newline)) [
  | inl over ↦
      let start : starts_char bs ≡ true = ground arith in
      let stopped = next_while-over (λ c. not (c == newline)) b bs it (ap not over) in
      ap (λ x. starts_char (skip x).bytes) stopped ∙ ap starts_char (skip-bytes it b bs e) ∙ start
  | inr more ↦
      let step = next_while-step (λ c. not (c == newline)) b bs it (ap not more) in
      ap (λ x. starts_char (skip x).bytes) step
      ∙ skip-newline bs (read_byte it b bs) (read_byte-bytes it b bs) (ground arith)
]

skip-ends_ascii :
    (bs : List ℕ) (it : PositionCountingBytesIterator)
    → it.bytes ≡ bs
    → ends_ascii bs ≡ true
    → ends_ascii (skip it).bytes ≡ true
unfolding ends_ascii
skip-ends_ascii [] it e p = ap ends_ascii (skip-none it e)
skip-ends_ascii (b ∷ bs) it e p =
    let later : ends_ascii bs ≡ true = ground arith in ap ends_ascii (skip-bytes it b bs e) ∙ later

string_end-Cuts :
    (bs : List ℕ) (it : PositionCountingBytesIterator)
    → it.bytes ≡ bs
    → ends_ascii bs ≡ true
    → Cuts (string_end it)
unfolding ends_ascii
string_end-Cuts [] it e p = record { cut = rw e refl }
string_end-Cuts (b ∷ bs) it e p = elim (Bool-cases (b == b'"')) [
  | inl quote ↦
      let start : starts_char bs ≡ true = ground arith in
      record { cut = rw (e, quote) (ap starts_char (read_byte-bytes it b bs) ∙ start) }
  | inr other ↦ record { cut = rw (e, other) refl }
]

read_until-Cuts :
    (mark : ℕ) (t : Token) (m : Msg) (bs : List ℕ) (it : PositionCountingBytesIterator)
    → it.bytes ≡ bs
    → ends_ascii bs ≡ true
    → Cuts (let (found, read) = read_until_from mark bs it in (if found then ok t else err m, read))
unfolding read_until_from ends_ascii
read_until-Cuts mark t m [] it e p = record { cut = refl }
read_until-Cuts mark t m (b ∷ []) it e p = record { cut = refl }
read_until-Cuts mark t m (b ∷ c ∷ bs) it e p = elim (Bool-cases (b == mark && c == b'#')) [
  | inl found ↦
      let start : starts_char bs ≡ true = ground arith in
      record {
        cut = rw found (ap starts_char (read_byte-bytes (read_byte it b (c ∷ bs)) c bs) ∙ start);
      }
  | inr other ↦ rw other (
      read_until-Cuts mark t m (c ∷ bs) (read_byte it b (c ∷ bs)) (read_byte-bytes it b (c ∷ bs))
        (ground arith))
]

plain-Cuts :
    (t : Token) (it : PositionCountingBytesIterator) → starts_char it.bytes ≡ true → Cuts (ok t, it)
plain-Cuts t it h = record { cut = h }

if_test :
    (c : Bool) {x y : TokenRes × PositionCountingBytesIterator}
    → (c ≡ true → Cuts x)
    → Cuts y
    → Cuts (if c then x else y)
if_test true h k = h refl
if_test false h k = k

word-Cuts :
    (it : PositionCountingBytesIterator)
    → Cuts (ok string_tok, next_while (λ b. not (is_start b)) it)
word-Cuts it = record {
  cut = next_while-stops (λ b. not (is_start b)) it.bytes it (λ b h. ground arith) refl;
}

whitespace-Cuts :
    (it : PositionCountingBytesIterator)
    → ends_ascii it.bytes ≡ true
    → starts_char it.bytes ≡ true
    → Cuts (ok whitespace, next_while is_ascii_whitespace it)
whitespace-Cuts it p q = record {
  cut = next_while-ascii is_ascii_whitespace it.bytes it (λ b h. ground arith) refl p q;
}

-- A token whose first byte was read.
scan-Cuts :
    (b : ℕ) (it : PositionCountingBytesIterator)
    → ends_ascii it.bytes ≡ true
    → (leb 128 b ≡ false → starts_char it.bytes ≡ true)
    → Cuts (scan b it)
unfolding scan
scan-Cuts b it p start =
    let quoted = λ (c : ℕ). not (c == b'"') && not (c == newline) in
    let one = skip-ends_ascii it.bytes it refl p in
    let two = skip-ends_ascii (skip it).bytes (skip it) refl one in
    let word = word-Cuts it in
    if_test (b == b'(') (λ h. plain-Cuts open_paren it (start (ground arith)))
      (if_test (b == b')') (λ h. plain-Cuts close_paren it (start (ground arith)))
        (if_test (b == b'"')
          (λ h.
            string_end-Cuts (next_while quoted it).bytes (next_while quoted it) refl
              (next_while-ends_ascii quoted it.bytes it refl p))
          (if_test (b == b';')
            (λ h.
              if_both (peeks it.bytes b';') (record { cut = skip-newline it.bytes it refl p }) word)
            (if_test (b == b'r')
              (λ h.
                if_both (peeks_two it.bytes b'#' b'"')
                  (read_until-Cuts b'"' string_tok unterminated_multiline_string
                    (skip (skip it)).bytes (skip (skip it)) refl two)
                  word)
              (if_test (b == b'#')
                (λ h.
                  if_both (peeks it.bytes b'|')
                    (read_until-Cuts b'|' block_comment unterminated_multiline_comment
                      (skip it).bytes (skip it) refl one)
                    word)
                (if_test (is_ascii_whitespace b) (λ h. whitespace-Cuts it p (start (ground arith)))
                  word))))))

pub scan-cut :
    (b : ℕ) (it : PositionCountingBytesIterator)
    → ends_ascii (b ∷ it.bytes) ≡ true
    → ends_cut (scan b it) ≡ true
unfolding ends_ascii
scan-cut b it p = (scan-Cuts b it (ground arith) (λ h. ground arith)).cut
