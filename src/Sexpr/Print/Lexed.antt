-- ===== src/Sexpr/Print/Lexed.antt =====
-- The lexer on a printed tree gives the tree's tokens.
use kanata.Base.{ℕ, ◌≡◌, refl, arith, ap, sym, subst, true, List, [], ◌∷◌, ◌++◌}
use mathlib.Core.List.{append_assoc, append-nil}
use kanata.Sexpr.Lexer.{Spanned, is_ascii_whitespace}
use kanata.Sexpr.Lexer.Pieces.{Lexes}
use kanata.Sexpr.Parser.{SExpr, atom, list, Exprs, nil, cons}
use kanata.Sexpr.Print.{fmt, join}
use kanata.Sexpr.Print.Place.{is_plain, all_plain, each_plain, tokens, tokens_in}
use kanata.Sexpr.Print.Words.{
  stops, delimited, Lexes-at, word-Lexes, open-Lexes, close-Lexes, space-Lexes,
}

word-stops : (w rest : List ℕ) → is_plain w ≡ true → stops is_ascii_whitespace (w ++ rest) ≡ true
word-stops [] rest h = cc
word-stops (b ∷ w) rest h = ground arith

-- A printed tree begins with no whitespace.
fmt-stops :
    (e : SExpr) (rest : List ℕ)
    → all_plain e ≡ true
    → stops is_ascii_whitespace (fmt e ++ rest) ≡ true
unfolding fmt all_plain
fmt-stops (atom a span) rest h = word-stops a rest h
fmt-stops (list es span) rest h = refl

join-stops :
    (e : SExpr) (es : Exprs) (rest : List ℕ)
    → all_plain e ≡ true
    → stops is_ascii_whitespace (join (cons e es) ++ rest) ≡ true
unfolding join
join-stops e nil rest h = fmt-stops e rest h
join-stops e (cons e' es) rest h =
    subst (λ t. stops is_ascii_whitespace t ≡ true)
      (sym (append_assoc (fmt e) (b' ' ∷ join (cons e' es)) rest))
      (fmt-stops e ((b' ' ∷ join (cons e' es)) ++ rest) h)

pub in_list :
    (before text : List ℕ)
    → ((before ++ b'(' ∷ []) ++ text) ++ b')' ∷ [] ≡ before ++ b'(' ∷ (text ++ b')' ∷ [])
in_list before text = simp append_assoc

pub next_in_list :
    (before text text' : List ℕ)
    → (before ++ (text ++ b' ' ∷ [])) ++ text' ≡ before ++ (text ++ (b' ' ∷ text'))
next_in_list before text text' = simp append_assoc

mutual
  unfolding fmt join tokens tokens_in all_plain each_plain

  pub fmt-Lexes :
      (e : SExpr) (before rest : List ℕ) {items : List Spanned}
      → all_plain e ≡ true
      → delimited rest ≡ true
      → Lexes (before ++ fmt e) rest items
      → Lexes before (fmt e ++ rest) (tokens e before items)
  fmt-Lexes (atom a span) before rest h d l = word-Lexes a rest before h d l
  fmt-Lexes (list es span) before rest h d l =
      Lexes-at refl (ap (◌∷◌ b'(') (sym (append_assoc (join es) (b')' ∷ []) rest))) (
        open-Lexes (join es ++ (b')' ∷ rest)) before (
          join-Lexes es (before ++ b'(' ∷ []) (b')' ∷ rest) h refl (
            close-Lexes rest ((before ++ b'(' ∷ []) ++ join es)
              (Lexes-at (sym (in_list before (join es))) refl l))))

  join-Lexes :
      (es : Exprs) (before rest : List ℕ) {items : List Spanned}
      → each_plain es ≡ true
      → delimited rest ≡ true
      → Lexes (before ++ join es) rest items
      → Lexes before (join es ++ rest) (tokens_in es before items)
  join-Lexes nil before rest h d l = Lexes-at (append-nil before) refl l
  join-Lexes (cons e nil) before rest h d l = fmt-Lexes e before rest (ground arith) d l
  join-Lexes (cons e (cons e' es)) before rest h d l =
      let text = join (cons e' es) in
      Lexes-at refl (sym (append_assoc (fmt e) (b' ' ∷ text) rest)) (
        fmt-Lexes e before (b' ' ∷ (text ++ rest)) (ground arith) refl (
          space-Lexes (text ++ rest) (before ++ fmt e) (join-stops e' es rest (ground arith)) (
            Lexes-at (sym (append_assoc before (fmt e) (b' ' ∷ []))) refl (
              join-Lexes (cons e' es) (before ++ (fmt e ++ b' ' ∷ [])) rest (ground arith) d
                (Lexes-at (sym (next_in_list before (fmt e) text)) refl l)))))
