-- ===== src/Sexpr/Position.antt =====
-- parser/src/cfg/sexpr.rs: positions, spans and the iterator that counts lines. `none` is a failed
-- assertion. A span leaves out the file's name and content, which are the same in all spans.
pub mod Reading
pub mod Chars
use kanata.Base.{
  ℕ, ◌+◌, ◌-◌, Bool, true, not, ◌&&◌, ◌||◌, List, [], ◌∷◌, Option, none, some, ◌==◌, leb,
  if◌then◌else◌, length, take, drop,
}

abbrev pub newline : ℕ
newline = b'\n'

pub record Position : Type 0 where
  pub absolute : ℕ
  pub line : ℕ
  pub line_beginning : ℕ

abbrev pub position_new : ℕ → ℕ → ℕ → Option Position
position_new absolute line line_beginning =
    if leb line absolute && leb line_beginning absolute
    then some (record { absolute = absolute; line = line; line_beginning = line_beginning })
    else none

abbrev pub position_default : Position
position_default = record { absolute = 0; line = 0; line_beginning = 0 }

pub record Span : Type 0 where
  pub start : Position
  pub end : Position

abbrev pub span_default : Span
span_default = record { start = position_default; end = position_default }

unfoldable pub span_new : Position → Position → Option Span
span_new start end =
    if leb start.absolute end.absolute && leb start.line end.line
    then some (record { start = start; end = end })
    else none

unfoldable pub cover : Span → Span → Option Span
unfolding span_new
cover s other =
    span_new (if leb s.start.absolute other.start.absolute then s.start else other.start)
      (if leb other.end.absolute s.end.absolute then s.end else other.end)

-- A byte of UTF-8 that is not the first of its character.
abbrev pub is_continuation : ℕ → Bool
is_continuation b = leb 128 b && not (leb 192 b)

abbrev pub starts_char : List ℕ → Bool
starts_char [] = true
starts_char (b ∷ bs) = not (is_continuation b)

-- `str::is_char_boundary`
abbrev pub is_char_boundary : List ℕ → ℕ → Bool
is_char_boundary s i = i == 0 || (leb i (length s) && starts_char (drop i s))

-- `self[span.start()..span.end()]`; a range that is out of bounds or cuts a character panics.
unfoldable pub slice : List ℕ → Span → Option (List ℕ)
slice s span =
    if leb span.start.absolute span.end.absolute
      && is_char_boundary s span.start.absolute
      && is_char_boundary s span.end.absolute
    then some (take (span.end.absolute - span.start.absolute) (drop span.start.absolute s))
    else none

pub record PositionCountingBytesIterator : Type 0 where
  pub bytes : List ℕ
  pub source_length : ℕ
  pub line : ℕ
  pub line_beginning : ℕ

abbrev pub iterator_new : List ℕ → PositionCountingBytesIterator
iterator_new s = record { bytes = s; source_length = length s; line = 0; line_beginning = 0 }

unfoldable pub pos : PositionCountingBytesIterator → Option Position
pos it = position_new (it.source_length - length it.bytes) it.line it.line_beginning

-- `b` is read and `bs` is left.
abbrev pub read_byte : PositionCountingBytesIterator → ℕ → List ℕ → PositionCountingBytesIterator
read_byte it b bs =
    if b == newline
    then record it { bytes = bs; line = it.line + 1; line_beginning = it.source_length - length bs }
    else record it { bytes = bs }

abbrev next_of : PositionCountingBytesIterator → List ℕ → Option (ℕ × PositionCountingBytesIterator)
next_of it [] = none
next_of it (b ∷ bs) = some (b, read_byte it b bs)

abbrev pub next : PositionCountingBytesIterator → Option (ℕ × PositionCountingBytesIterator)
next it = next_of it it.bytes

-- `bytes.next();`, whatever is read.
abbrev skip_of : PositionCountingBytesIterator → List ℕ → PositionCountingBytesIterator
skip_of it [] = it
skip_of it (b ∷ bs) = read_byte it b bs

abbrev pub skip : PositionCountingBytesIterator → PositionCountingBytesIterator
skip it = skip_of it it.bytes
