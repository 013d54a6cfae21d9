-- ===== src/Sexpr/Position/Chars.antt =====
-- Texts as bytes of UTF-8, and their slices.
use kanata.Base.{
  ℕ, zero, suc, ◌-◌, ◌≡◌, arith, refl, ap, ◌∙◌, Bool, true, false, ◌&&◌, ◌||◌, List, [], ◌∷◌, ◌++◌,
  some, ◌==◌, leb, length, length-append, take, take-append, drop, drop-append, if◌then◌else◌,
}
use mathlib.Core.List.{append_assoc}
use kanata.Sexpr.Position.{Span, is_continuation, starts_char, is_char_boundary, slice}
use kanata.Sexpr.Position.Reading.{span_after}

-- That many bytes of a character are yet to come; then characters of one to four bytes follow.
unfoldable pub characters : ℕ → List ℕ → Bool
characters zero [] = true
characters (suc n) [] = false
characters zero (b ∷ bs) =
    let one = characters 0 bs in
    let two = characters 1 bs in
    let three = characters 2 bs in
    let four = characters 3 bs in
    if leb b 127
    then one
    else if leb b 193
    then false
    else if leb b 223
    then two
    else if leb b 239
    then three
    else if leb b 244
    then four
    else false
characters (suc n) (b ∷ bs) = is_continuation b && characters n bs

-- What is a text by its lead bytes, as every text in UTF-8 is.
abbrev pub is_text : List ℕ → Bool
is_text s = characters 0 s

-- A character of one byte ends with it.
unfoldable pub ends_ascii : List ℕ → Bool
ends_ascii [] = true
ends_ascii (b ∷ bs) = (leb 128 b || starts_char bs) && ends_ascii bs

characters-starts : (s : List ℕ) → characters 0 s ≡ true → starts_char s ≡ true
unfolding characters
characters-starts [] h = refl
characters-starts (b ∷ bs) h = ground arith

characters-ends_ascii : (n : ℕ) (s : List ℕ) → characters n s ≡ true → ends_ascii s ≡ true
unfolding characters ends_ascii
characters-ends_ascii n [] h = refl
characters-ends_ascii zero (b ∷ bs) h = ground (
  arith,
  characters-starts bs,
  characters-ends_ascii 0 bs,
  characters-ends_ascii 1 bs,
  characters-ends_ascii 2 bs,
  characters-ends_ascii 3 bs,
)
characters-ends_ascii (suc n) (b ∷ bs) h = ground (arith, characters-ends_ascii n bs)

-- What is left of a text between two characters.
abbrev pub is_cut : List ℕ → Bool
is_cut s = starts_char s && ends_ascii s

pub is_text-cut : (s : List ℕ) → is_text s ≡ true → is_cut s ≡ true
is_text-cut s h = ground (arith, characters-starts s, characters-ends_ascii 0 s)

pub ends_ascii-behind :
    (read rest : List ℕ) → ends_ascii (read ++ rest) ≡ true → ends_ascii rest ≡ true
unfolding ends_ascii
ends_ascii-behind [] rest h = h
ends_ascii-behind (b ∷ read) rest h = ends_ascii-behind read rest (ground arith)

or_true : (b : Bool) → (b || true) ≡ true
or_true true = refl
or_true false = refl

boundary :
    (done rest : List ℕ)
    → starts_char rest ≡ true
    → is_char_boundary (done ++ rest) (length done) ≡ true
boundary done rest h =
    let small : leb (length done) (length (done ++ rest)) ≡ true =
      ground (arith, length-append done rest) in
    rw (small, drop-append done rest, h) (or_true (length done == 0))

-- The bytes of a span.
abbrev pub bytes_at : List ℕ → Span → List ℕ
bytes_at s span = take (span.end.absolute - span.start.absolute) (drop span.start.absolute s)

pub bytes_at-span_after :
    (done read rest : List ℕ) → bytes_at (done ++ (read ++ rest)) (span_after done read) ≡ read
bytes_at-span_after done read rest =
    let e : length (done ++ read) - length done ≡ length read =
      omega (arith, length-append done read) in
    rw e (ap (take (length read)) (drop-append done (read ++ rest)) ∙ take-append read rest)

pub slice-span_after :
    (done read rest : List ℕ)
    → starts_char (read ++ rest) ≡ true
    → starts_char rest ≡ true
    → slice (done ++ (read ++ rest)) (span_after done read) ≡ some read
unfolding slice
slice-span_after done read rest h k =
    let order : leb (length done) (length (done ++ read)) ≡ true =
      ground (arith, length-append done read) in
    let start = boundary done (read ++ rest) h in
    let end : is_char_boundary (done ++ (read ++ rest)) (length (done ++ read)) ≡ true =
      rw (append_assoc done read rest) at (boundary (done ++ read) rest k) in
    rw (order, start, end) (ap some (bytes_at-span_after done read rest))
