-- ===== src/Tests/Sexpr.antt =====
-- The lexer, the parser and the printer at concrete texts.
use kanata.Base.{ℕ, ◌≡◌, refl, true, false, List, [], ◌∷◌, Option, none, some, map}
use kanata.Sexpr.Lexer.Pieces.Source.{
  text, AllLocated, lexer_new-ignored, lexer_new-text, lexer_new-AllLocated,
}
use kanata.Sexpr.Lexer.Pieces.{kept}
use kanata.Sexpr.Lexer.{
  Spanned, TokenRes, ok, err, open_paren, close_paren, string_tok, line_comment, whitespace,
  lexer_new, unexpected_closing, unterminated_multiline_comment,
}
use kanata.Sexpr.Parser.Outcome.{outcome, verdict}
use kanata.Sexpr.Parser.Whole.{parse_-verdict, parse-parse_}
use kanata.Sexpr.Parser.{atom, list, Exprs, nil, cons, done, ◌>>=◌, strip_utf8_bom, parse_, parse}
use kanata.Sexpr.Position.Reading.{span_after}
use kanata.Sexpr.Position.Chars.{characters}
use kanata.Sexpr.Position.{span_default, slice}
use kanata.Sexpr.Print.Place.{all_plain, places}
use kanata.Sexpr.Print.RoundTrip.{parse-fmt_list}
use kanata.Sexpr.Print.{fmt}

-- (a "b") ;;c
abbrev source : List ℕ
source = b'(' ∷ b'a' ∷ b' ' ∷ b'"' ∷ b'b' ∷ b'"' ∷ b')' ∷ b'\n' ∷ b';' ∷ b';' ∷ b'c' ∷ []

kinds : Option (List Spanned) → List TokenRes
kinds none = []
kinds (some items) = map (λ item. item.0) items

kinds_of_source :
    kinds (lexer_new source false)
    ≡ ok open_paren
      ∷ ok string_tok
      ∷ ok whitespace
      ∷ ok string_tok
      ∷ ok close_paren
      ∷ ok whitespace
      ∷ ok line_comment
      ∷ []
unfolding lexer_new kinds
kinds_of_source = refl

-- #|x (a
abbrev unterminated : List ℕ
unterminated = b'#' ∷ b'|' ∷ b'x' ∷ b' ' ∷ b'(' ∷ b'a' ∷ []

kinds_of_unterminated :
    kinds (lexer_new unterminated true) ≡ err unterminated_multiline_comment ∷ ok string_tok ∷ []
unfolding lexer_new kinds
kinds_of_unterminated = refl

lexer_new-ignored_example :
    (items : List Spanned) × (lexer_new source false ≡ some items)
    × (lexer_new source true ≡ some (kept true items))
lexer_new-ignored_example = lexer_new-ignored source

lexer_new-text_example :
    (items : List Spanned) × (lexer_new unterminated false ≡ some items)
    × (text unterminated items ≡ unterminated)
lexer_new-text_example = lexer_new-text unterminated

lexer_new-AllLocated_example :
    (items : List Spanned) × (lexer_new source true ≡ some items) × AllLocated source items
lexer_new-AllLocated_example = lexer_new-AllLocated source true

-- (à))
abbrev closed_twice : List ℕ
closed_twice = b'(' ∷ 0xc3 ∷ 0xa0 ∷ b')' ∷ b')' ∷ []

parse_-verdict_example :
    (items : List Spanned) × (lexer_new (strip_utf8_bom closed_twice) true ≡ some items)
    × (outcome (parse_ closed_twice true) ≡ some (verdict 0 false items))
unfolding characters
parse_-verdict_example = parse_-verdict closed_twice true refl

fails_at_the_second : outcome (parse closed_twice) ≡ some (some unexpected_closing)
unfolding parse
fails_at_the_second = refl

parse-parse__example : parse source ≡ (parse_ source false >>= λ r. done r.0)
unfolding characters
parse-parse__example = parse-parse_ source refl

-- (a (bc) d), with spans that are none of its text.
abbrev tree : Exprs
tree = cons (atom (b'a' ∷ []) span_default) (
    cons (list (cons (atom (b'b' ∷ b'c' ∷ []) span_default) nil) span_default)
      (cons (atom (b'd' ∷ []) span_default) nil))

parse-fmt_list_example :
    parse (fmt (list tree span_default))
    ≡ done ((places tree (b'(' ∷ []), span_after [] (fmt (list tree span_default))) ∷ [])
unfolding all_plain
parse-fmt_list_example = parse-fmt_list tree span_default refl

-- The error in #|é has a span that ends within é, which is no slice.
abbrev within_char : List ℕ
within_char = b'#' ∷ b'|' ∷ 0xc3 ∷ 0xa9 ∷ []

is_no_slice : slice within_char (span_after [] (b'#' ∷ b'|' ∷ 0xc3 ∷ [])) ≡ none
unfolding slice
is_no_slice = refl
