-- ===== src/Sexpr/Lexer.antt =====
-- parser/src/cfg/sexpr.rs: `Lexer`. `none` is a failed assertion, or that the fuel is out.
pub mod Scan
pub mod Cut
pub mod Pieces
use kanata.Base.{
  ℕ, zero, suc, Bool, true, false, not, ◌&&◌, ◌||◌, List, [], ◌∷◌, Option, none, some, ◌==◌,
  if◌then◌else◌, length,
}
use kanata.Sexpr.Position.{
  newline, Position, Span, span_new, PositionCountingBytesIterator, iterator_new, pos, read_byte,
  next, skip,
}

pub data Token : Type 0 where
  open_paren close_paren string_tok block_comment line_comment whitespace : Token

-- The messages of this file's errors.
pub data Msg : Type 0 where
  unterminated_string unterminated_multiline_string unterminated_multiline_comment : Msg
  unexpected_closing unclosed_opening everything_in_a_list : Msg

pub data TokenRes : Type 0 where
  ok : Token → TokenRes
  err : Msg → TokenRes

-- `u8::is_ascii_whitespace`: space, tab, newline, form feed and carriage return.
abbrev pub is_ascii_whitespace : ℕ → Bool
is_ascii_whitespace b = b == b' ' || b == b'\t' || b == newline || b == 12 || b == 13

abbrev pub is_start : ℕ → Bool
is_start b = b == b'(' || b == b')' || b == b'"' || is_ascii_whitespace b

-- The loop over a clone of the iterator, whose bytes are the first list.
unfoldable pub next_while_from :
    (ℕ → Bool) → List ℕ → PositionCountingBytesIterator → PositionCountingBytesIterator
next_while_from f [] it = it
next_while_from f (b ∷ bs) it =
    let rest = next_while_from f bs (read_byte it b bs) in if f b then rest else it

abbrev pub next_while : (ℕ → Bool) → PositionCountingBytesIterator → PositionCountingBytesIterator
next_while f it = next_while_from f it.bytes it

-- `read_until_multiline_string_end` for the quote, `read_until_multiline_comment_end` for the bar:
-- whether the mark and a `#` were found.
unfoldable pub read_until_from :
    ℕ → List ℕ → PositionCountingBytesIterator → Bool × PositionCountingBytesIterator
read_until_from mark [] it = (false, it)
read_until_from mark (b1 ∷ []) it = (false, it)
read_until_from mark (b1 ∷ b2 ∷ bs) it =
    let read = read_byte it b1 (b2 ∷ bs) in
    let later = read_until_from mark (b2 ∷ bs) read in
    if b1 == mark && b2 == b'#' then (true, read_byte read b2 bs) else later

abbrev pub read_until :
    ℕ → Token → Msg → PositionCountingBytesIterator → TokenRes × PositionCountingBytesIterator
read_until mark t e it =
    let (found, read) = read_until_from mark it.bytes it in (if found then ok t else err e, read)

abbrev pub next_string : PositionCountingBytesIterator → TokenRes × PositionCountingBytesIterator
next_string it = (ok string_tok, next_while (λ b. not (is_start b)) it)

abbrev pub next_whitespace :
    PositionCountingBytesIterator → TokenRes × PositionCountingBytesIterator
next_whitespace it = (ok whitespace, next_while is_ascii_whitespace it)

-- Behind the text of a string: the closing quote, or else an error.
abbrev pub string_end : PositionCountingBytesIterator → TokenRes × PositionCountingBytesIterator
string_end it = elim (next it) [
  | none ↦ (err unterminated_string, it)
  | some (b, read) ↦ (if b == b'"' then ok string_tok else err unterminated_string, read)
]

abbrev pub peeks : List ℕ → ℕ → Bool
peeks [] c = false
peeks (b ∷ bs) c = b == c

abbrev pub peeks_two : List ℕ → ℕ → ℕ → Bool
peeks_two [] c d = false
peeks_two (b ∷ bs) c d = b == c && peeks bs d

-- The token that begins with `b`, which was read.
unfoldable pub scan : ℕ → PositionCountingBytesIterator → TokenRes × PositionCountingBytesIterator
unfolding next_while_from read_until_from
scan b it =
    if b == b'('
    then (ok open_paren, it)
    else if b == b')'
    then (ok close_paren, it)
    else if b == b'"'
    then string_end (next_while (λ c. not (c == b'"') && not (c == newline)) it)
    else if b == b';'
    then (if peeks it.bytes b';'
        then (ok line_comment, skip (next_while (λ c. not (c == newline)) it))
        else next_string it)
    else if b == b'r'
    then (if peeks_two it.bytes b'#' b'"'
        then read_until b'"' string_tok unterminated_multiline_string (skip (skip it))
        else next_string it)
    else if b == b'#'
    then (if peeks it.bytes b'|'
        then read_until b'|' block_comment unterminated_multiline_comment (skip it)
        else next_string it)
    else if is_ascii_whitespace b
    then next_whitespace it
    else next_string it

-- What is passed over with `ignore_whitespace_and_comments`.
abbrev pub is_ignored : TokenRes → Bool
is_ignored (ok line_comment) = true
is_ignored (ok block_comment) = true
is_ignored (ok whitespace) = true
is_ignored _ = false

-- `next_token`: the token's start, the token, and the lexer behind it; `some none` at the end.
unfoldable pub next_token :
    ℕ
    → Bool
    → PositionCountingBytesIterator
    → Option (Option (Position × TokenRes × PositionCountingBytesIterator))
next_token zero ignore it = none
next_token (suc fuel) ignore it = elim (pos it) [
  | none ↦ none
  | some start ↦ elim (next it) [
    | none ↦ some none
    | some (b, read) ↦
        (let (t, behind) = scan b read in
          let again = next_token fuel ignore behind in
          if ignore && is_ignored t then again else some (some (start, t, behind)))
  ]
]

abbrev pub Spanned : Type 0
Spanned = TokenRes × Span

abbrev pub spanned :
    Position → TokenRes → Option Position → Option (List Spanned) → Option (List Spanned)
spanned start t none later = none
spanned start t (some end) later = elim (span_new start end) [
  | none ↦ none
  | some span ↦ elim later [ none ↦ none | some items ↦ some ((t, span) ∷ items) ]
]

-- The items of the iterator that `Lexer::new` makes.
unfoldable pub lex : ℕ → Bool → PositionCountingBytesIterator → Option (List Spanned)
lex zero ignore it = none
lex (suc fuel) ignore it = elim (next_token (suc (length it.bytes)) ignore it) [
  | none ↦ none
  | some none ↦ some []
  | some (some (start, t, behind)) ↦ spanned start t (pos behind) (lex fuel ignore behind)
]

-- One step of fuel for each byte, and one for the end.
unfoldable pub lexer_new : List ℕ → Bool → Option (List Spanned)
unfolding lex next_token scan pos span_new
lexer_new source ignore = lex (suc (length source)) ignore (iterator_new source)
