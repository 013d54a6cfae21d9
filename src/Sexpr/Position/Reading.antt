-- ===== src/Sexpr/Position/Reading.antt =====
-- Where the iterator stands once it has read a part of its source.
use kanata.Base.{
  ℕ, suc, ◌+◌, ◌≤◌, ◌≡◌, arith, Bool, true, List, [], ◌∷◌, ◌++◌, some, ◌==◌, if◌then◌else◌, length,
  length-append, any,
}
use kanata.Sexpr.Position.{
  newline, Position, Span, span_new, PositionCountingBytesIterator, pos, read_byte,
}

-- The newlines of a text, and the place behind the last of them.
unfoldable pub newlines : List ℕ → ℕ
newlines [] = 0
newlines (b ∷ bs) = (if b == newline then 1 else 0) + newlines bs

unfoldable pub last_line : List ℕ → ℕ
last_line [] = 0
last_line (b ∷ bs) =
    let later = last_line bs in
    if any (λ c. c == newline) bs then suc later else if b == newline then 1 else 0

-- The iterator with `done` read and `rest` left.
abbrev pub reading : List ℕ → List ℕ → PositionCountingBytesIterator
reading done rest = record {
  bytes = rest;
  source_length = length done + length rest;
  line = newlines done;
  line_beginning = last_line done;
}

newlines-append : (bs cs : List ℕ) → newlines (bs ++ cs) ≡ newlines bs + newlines cs
unfolding newlines
newlines-append [] cs = omega arith
newlines-append (b ∷ bs) cs = omega (arith, newlines-append bs cs)

any-append :
    (p : ℕ → Bool) (bs : List ℕ) (c : ℕ) → any p (bs ++ c ∷ []) ≡ (if any p bs then true else p c)
any-append p [] c = ground arith
any-append p (b ∷ bs) c = ground (arith, any-append p bs c)

last_line-append :
    (done : List ℕ) (b : ℕ)
    → last_line (done ++ b ∷ []) ≡ (if b == newline then suc (length done) else last_line done)
unfolding last_line
last_line-append [] b = ground arith
last_line-append (d ∷ done) b =
    ground (arith, last_line-append done b, any-append (λ c. c == newline) done b)

newlines_le : (bs : List ℕ) → newlines bs ≤ length bs
unfolding newlines
newlines_le [] = omega arith
newlines_le (b ∷ bs) = ground (arith, newlines_le bs)

last_line_le : (bs : List ℕ) → last_line bs ≤ length bs
unfolding last_line
last_line_le [] = omega arith
last_line_le (b ∷ bs) = ground (arith, last_line_le bs)

pub read_byte-reading :
    (done : List ℕ) (b : ℕ) (bs : List ℕ)
    → read_byte (reading done (b ∷ bs)) b bs ≡ reading (done ++ b ∷ []) bs
unfolding newlines
read_byte-reading done b bs =
    ground
      (arith, newlines-append done (b ∷ []), last_line-append done b, length-append done (b ∷ []))

-- The position behind `done`.
abbrev pub position_after : List ℕ → Position
position_after done = record {
  absolute = length done;
  line = newlines done;
  line_beginning = last_line done;
}

pub pos-reading : (done rest : List ℕ) → pos (reading done rest) ≡ some (position_after done)
unfolding pos
pos-reading done rest = ground (arith, newlines_le done, last_line_le done)

abbrev pub span_after : List ℕ → List ℕ → Span
span_after done piece = record { start = position_after done; end = position_after (done ++ piece) }

pub span_new-after :
    (done piece : List ℕ)
    → span_new (position_after done) (position_after (done ++ piece)) ≡ some (span_after done piece)
unfolding span_new
span_new-after done piece = ground (arith, newlines-append done piece, length-append done piece)
