-- ===== src/Sexpr/Lexer/Scan.antt =====
-- A scan reads a part of what is left, and the iterator stands behind it.
use kanata.Base.{
  ℕ, ◌≡◌, refl, ap, ◌∙◌, sym, Bool, true, false, List, [], ◌∷◌, ◌++◌, ◌==◌, if◌then◌else◌,
  Bool-cases, inl, inr, ◌&&◌,
}
use mathlib.Core.List.{append_assoc, append-nil}
use kanata.Sexpr.Position.{PositionCountingBytesIterator, skip}
use kanata.Sexpr.Position.Reading.{reading, read_byte-reading}
use kanata.Sexpr.Lexer.{
  Token, Msg, TokenRes, next_while_from, next_while, read_until_from, read_until, string_end, scan,
}

-- With `done` read and `bs` left, `it` has read a further piece of `bs`.
abbrev pub Advances : List ℕ → List ℕ → PositionCountingBytesIterator → Type 0
Advances done bs it =
    (piece : List ℕ) × (rest : List ℕ) × (bs ≡ piece ++ rest) × (it ≡ reading (done ++ piece) rest)

Advances-refl : (done bs : List ℕ) → Advances done bs (reading done bs)
Advances-refl done bs = ([], bs, refl, rw append-nil)

-- After a byte.
Advances-byte :
    (done : List ℕ) (b : ℕ) (bs : List ℕ) {it : PositionCountingBytesIterator}
    → Advances (done ++ b ∷ []) bs it
    → Advances done (b ∷ bs) it
Advances-byte done b bs (piece, rest, e, f) = (b ∷ piece, rest, ap (◌∷◌ b) e, f ∙ rw append_assoc)

Advances-trans :
    (done bs : List ℕ) (f : PositionCountingBytesIterator → PositionCountingBytesIterator)
    {it : PositionCountingBytesIterator}
    → ((done bs : List ℕ) → Advances done bs (f (reading done bs)))
    → Advances done bs it
    → Advances done bs (f it)
Advances-trans done bs f h (piece, rest, e, g) =
    let (piece', rest', e', g') = h (done ++ piece) rest in
    (
      piece ++ piece',
      rest',
      e ∙ ap (◌++◌ piece) e' ∙ sym (append_assoc piece piece' rest'),
      rw g (g' ∙ rw append_assoc),
    )

next_while-Advances :
    (f : ℕ → Bool) (bs done : List ℕ) → Advances done bs (next_while_from f bs (reading done bs))
unfolding next_while_from
next_while-Advances f [] done = Advances-refl done []
next_while-Advances f (b ∷ bs) done = elim (Bool-cases (f b)) [
  | inl more ↦
      rw (more, read_byte-reading done b bs)
        (Advances-byte done b bs (next_while-Advances f bs (done ++ b ∷ [])))
  | inr over ↦ rw over (Advances-refl done (b ∷ bs))
]

skip-Advances : (done bs : List ℕ) → Advances done bs (skip (reading done bs))
skip-Advances done [] = Advances-refl done []
skip-Advances done (b ∷ bs) =
    rw (read_byte-reading done b bs) (Advances-byte done b bs (Advances-refl (done ++ b ∷ []) bs))

read_until-Advances :
    (mark : ℕ) (bs done : List ℕ) → Advances done bs (read_until_from mark bs (reading done bs)).1
unfolding read_until_from
read_until-Advances mark [] done = Advances-refl done []
read_until-Advances mark (b ∷ []) done = Advances-refl done (b ∷ [])
read_until-Advances mark (b ∷ c ∷ bs) done = elim (Bool-cases (b == mark && c == b'#')) [
  | inl found ↦
      rw (found, read_byte-reading done b (c ∷ bs), read_byte-reading (done ++ b ∷ []) c bs)
        (Advances-byte done b (c ∷ bs)
          (Advances-byte (done ++ b ∷ []) c bs (Advances-refl ((done ++ b ∷ []) ++ c ∷ []) bs)))
  | inr other ↦
      rw (other, read_byte-reading done b (c ∷ bs))
        (Advances-byte done b (c ∷ bs) (read_until-Advances mark (c ∷ bs) (done ++ b ∷ [])))
]

string_end-Advances : (done bs : List ℕ) → Advances done bs (string_end (reading done bs)).1
string_end-Advances done [] = Advances-refl done []
string_end-Advances done (b ∷ bs) =
    rw (read_byte-reading done b bs) (Advances-byte done b bs (Advances-refl (done ++ b ∷ []) bs))

-- Of a token and the iterator behind it.
record Scans (done : List ℕ) (bs : List ℕ) (r : TokenRes × PositionCountingBytesIterator)
    : Type 0 where
  pub advances : Advances done bs r.1

if_both :
    {done bs : List ℕ} (c : Bool) {x y : TokenRes × PositionCountingBytesIterator}
    → Scans done bs x
    → Scans done bs y
    → Scans done bs (if c then x else y)
if_both true h k = h
if_both false h k = k

next_while-Scans :
    (f : ℕ → Bool) (t : TokenRes) (done bs : List ℕ)
    → Scans done bs (t, next_while f (reading done bs))
next_while-Scans f t done bs = record { advances = next_while-Advances f bs done }

string-Scans :
    (f : ℕ → Bool) (done bs : List ℕ) → Scans done bs (string_end (next_while f (reading done bs)))
string-Scans f done bs = record {
  advances =
      Advances-trans done bs (λ it. (string_end it).1) string_end-Advances
        (next_while-Advances f bs done);
}

line_comment-Scans :
    (f : ℕ → Bool) (t : TokenRes) (done bs : List ℕ)
    → Scans done bs (t, skip (next_while f (reading done bs)))
line_comment-Scans f t done bs = record {
  advances = Advances-trans done bs skip skip-Advances (next_while-Advances f bs done);
}

read_until-Scans :
    (mark : ℕ) (t : Token) (e : Msg) (done bs : List ℕ)
    → Scans done bs (read_until mark t e (skip (reading done bs)))
read_until-Scans mark t e done bs = record {
  advances =
      Advances-trans done bs (λ it. (read_until_from mark it.bytes it).1)
        (λ done bs. read_until-Advances mark bs done) (skip-Advances done bs);
}

read_until_second-Scans :
    (mark : ℕ) (t : Token) (e : Msg) (done bs : List ℕ)
    → Scans done bs (read_until mark t e (skip (skip (reading done bs))))
read_until_second-Scans mark t e done bs = record {
  advances =
      Advances-trans done bs (λ it. (read_until_from mark it.bytes it).1)
        (λ done bs. read_until-Advances mark bs done)
        (Advances-trans done bs skip skip-Advances (skip-Advances done bs));
}

alone-Scans : (t : TokenRes) (done bs : List ℕ) → Scans done bs (t, reading done bs)
alone-Scans t done bs = record { advances = Advances-refl done bs }

scan-Scans : (b : ℕ) (done bs : List ℕ) → Scans done bs (scan b (reading done bs))
unfolding scan
scan-Scans b done bs =
    search
      (
        if_both, alone-Scans, string-Scans, line_comment-Scans, next_while-Scans, read_until-Scans,
        read_until_second-Scans,
      )
      depth 14

-- Whatever the first byte, the token is read off a part of what is left.
pub scan-Advances : (b : ℕ) (done bs : List ℕ) → Advances done bs (scan b (reading done bs)).1
scan-Advances b done bs = (scan-Scans b done bs).advances
