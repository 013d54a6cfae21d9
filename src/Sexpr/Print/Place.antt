-- ===== src/Sexpr/Print/Place.antt =====
-- Trees whose spans are those of their text as it is printed, and the tokens of that text.
use kanata.Base.{ℕ, Bool, true, false, not, ◌&&◌, all, List, [], ◌∷◌, ◌++◌, ◌==◌}
use kanata.Sexpr.Lexer.{
  open_paren, close_paren, string_tok, whitespace, ok, Spanned, is_start, peeks,
}
use kanata.Sexpr.Parser.{SExpr, atom, list, Exprs, nil, cons}
use kanata.Sexpr.Position.{is_continuation}
use kanata.Sexpr.Position.Reading.{span_after}
use kanata.Sexpr.Print.{fmt, join}

-- A word that is one token: without whitespace, parentheses and quotes, and in front neither the mark
-- of a comment nor a byte that continues a character.
abbrev pub is_plain : List ℕ → Bool
is_plain [] = false
is_plain (b ∷ w) =
    not (is_start b)
    && not (is_continuation b)
    && all (λ c. not (is_start c)) w
    && not (b == b';' && peeks w b';')
    && not (b == b'#' && peeks w b'|')

unfoldable mutual
  pub all_plain : SExpr → Bool
  all_plain (atom a span) = is_plain a
  all_plain (list es span) = each_plain es

  pub each_plain : Exprs → Bool
  each_plain nil = true
  each_plain (cons e es) = all_plain e && each_plain es

-- The tree with the spans of its text where it is printed behind `before`.
unfoldable mutual
  unfolding fmt join

  pub place : SExpr → List ℕ → SExpr
  place (atom a span) before = atom a (span_after before a)
  place (list es span) before =
      list (places es (before ++ b'(' ∷ [])) (span_after before (fmt (list es span)))

  pub places : Exprs → List ℕ → Exprs
  places nil before = nil
  places (cons e nil) before = cons (place e before) nil
  places (cons e (cons e' es)) before =
      cons (place e before) (places (cons e' es) (before ++ (fmt e ++ b' ' ∷ [])))

-- The tokens of the text, with others behind them.
unfoldable mutual
  unfolding fmt join

  pub tokens : SExpr → List ℕ → List Spanned → List Spanned
  tokens (atom a span) before items = (ok string_tok, span_after before a) ∷ items
  tokens (list es span) before items =
      (ok open_paren, span_after before (b'(' ∷ []))
      ∷ tokens_in es (before ++ b'(' ∷ [])
          ((ok close_paren, span_after ((before ++ b'(' ∷ []) ++ join es) (b')' ∷ [])) ∷ items)

  pub tokens_in : Exprs → List ℕ → List Spanned → List Spanned
  tokens_in nil before items = items
  tokens_in (cons e nil) before items = tokens e before items
  tokens_in (cons e (cons e' es)) before items = tokens e before (
      (ok whitespace, span_after (before ++ fmt e) (b' ' ∷ []))
      ∷ tokens_in (cons e' es) (before ++ (fmt e ++ b' ' ∷ [])) items)
