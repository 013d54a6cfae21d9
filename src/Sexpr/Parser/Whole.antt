-- ===== src/Sexpr/Parser/Whole.antt =====
-- `parse_` and `parse` on a whole text.
use kanata.Base.{
  ℕ, ◌≡◌, refl, arith, ap, ◌∙◌, sym, Bool, true, false, List, [], ◌∷◌, Option, some, Option-cases,
  inl, inr,
}
use kanata.Sexpr.Position.{span_default, cover}
use kanata.Sexpr.Lexer.{
  open_paren, close_paren, string_tok, block_comment, line_comment, whitespace, Msg,
  unterminated_string, unterminated_multiline_string, unterminated_multiline_comment,
  unexpected_closing, unclosed_opening, everything_in_a_list, ok, err, Spanned, lexer_new,
}
use kanata.Sexpr.Lexer.Pieces.{kept}
use kanata.Sexpr.Lexer.Pieces.Sliced.{AllSliced, lexer_new-AllSliced, lexer_new-both}
use kanata.Sexpr.Parser.{
  atom, list, nil, push, line_comment_item, block_comment_item, whitespace_item, ParseError, Parsed,
  done, failed, panicked, ◌>>=◌, Stack, Metadata, push_metadata, parse_loop, TopLevel, lists_only,
  finish, parse_with, map_err, shorten_with, strip_utf8_bom, parse_, parse,
}
use kanata.Sexpr.Parser.Outcome.{outcome, verdict, parse_with-verdict}
use kanata.Sexpr.Position.Chars.{characters, is_text}

shorten_with-msg : (m : Msg) (e : ParseError) → (shorten_with m e).msg ≡ e.msg
shorten_with-msg unterminated_multiline_comment e = elim (Option-cases e.span) [
  | inl out ↦ rw out
  | inr (span, at_span) ↦ rw at_span
]
shorten_with-msg unterminated_string e = refl
shorten_with-msg unterminated_multiline_string e = refl
shorten_with-msg unexpected_closing e = refl
shorten_with-msg unclosed_opening e = refl
shorten_with-msg everything_in_a_list e = refl

map_err-outcome {ℓ} : {A : Type ℓ} (x : Parsed A) → outcome (map_err x) ≡ outcome x
unfolding map_err
map_err-outcome (done a) = refl
map_err-outcome (failed e) = ap (λ m. some (some m)) (shorten_with-msg e.msg e)
map_err-outcome panicked = refl

-- A byte order mark is a character.
strip_utf8_bom-is_text : (s : List ℕ) → is_text s ≡ true → is_text (strip_utf8_bom s) ≡ true
unfolding strip_utf8_bom characters
strip_utf8_bom-is_text [] h = h
strip_utf8_bom-is_text (a ∷ []) h = h
strip_utf8_bom-is_text (a ∷ b ∷ []) h = h
strip_utf8_bom-is_text (a ∷ b ∷ c ∷ rest) h = ground arith

-- Parsing a text never panics: no slice that it takes is out of bounds or cuts a character, and no
-- assertion fails. Its success, or the message of its failure, is what the count of open parentheses
-- says of the lexer's items, whether whitespace and comments are ignored or not.
pub parse_-verdict :
    (cfg : List ℕ) (ignore : Bool)
    → is_text cfg ≡ true
    → (items : List Spanned) × (lexer_new (strip_utf8_bom cfg) ignore ≡ some items)
      × (outcome (parse_ cfg ignore) ≡ some (verdict 0 false items))
unfolding parse_
parse_-verdict cfg ignore h =
    let s = strip_utf8_bom cfg in
    let (items, lexed, located, sliced) =
      lexer_new-AllSliced s ignore (strip_utf8_bom-is_text cfg h) in
    (
      items,
      lexed,
      map_err-outcome (parse_with s (lexer_new s ignore))
          ∙ ap (λ tokens. outcome (parse_with s tokens)) lexed
          ∙ parse_with-verdict s items located sliced,
    )

-- The trees, without the metadata.
abbrev trees : Parsed (List TopLevel × Metadata) → Parsed (List TopLevel)
trees x = x >>= λ r. done r.0

abbrev run : List ℕ → List Spanned → Stack → Metadata → Parsed (List TopLevel)
run s items stack metadata = trees (parse_loop s items stack metadata >>= λ r. finish r.0 r.1)

trees-pair :
    (x : Parsed (List TopLevel)) (m m' : Metadata)
    → trees (x >>= λ es. done (es, m)) ≡ trees (x >>= λ es. done (es, m'))
trees-pair (done a) m m' = refl
trees-pair (failed e) m m' = refl
trees-pair panicked m m' = refl

trees-finish : (stack : Stack) (m m' : Metadata) → trees (finish stack m) ≡ trees (finish stack m')
unfolding finish
trees-finish [] m m' = refl
trees-finish ((es, sp) ∷ []) m m' = trees-pair (lists_only es) m m'
trees-finish ((es, sp) ∷ x ∷ stack) m m' = refl

run-kept :
    (s : List ℕ) (items : List Spanned) (stack : Stack) (m m' : Metadata)
    → AllSliced s items
    → run s items stack m ≡ run s (kept true items) stack m'
unfolding parse_loop kept
run-kept s [] stack m m' h = trees-finish stack m m'
run-kept s ((err msg, span) ∷ items) stack m m' h = refl
run-kept s ((ok open_paren, span) ∷ items) stack m m' (l, h) =
    run-kept s items ((nil, span) ∷ stack) m m' h
run-kept s ((ok close_paren, span) ∷ items) [] m m' (l, h) = refl
run-kept s ((ok close_paren, span) ∷ items) (x ∷ []) m m' (l, h) = refl
run-kept s ((ok close_paren, span) ∷ items) ((es, sp) ∷ (es', sp') ∷ stack) m m' (l, h) =
    elim (Option-cases (cover sp span)) [
      | inl out ↦ rw out
      | inr (u, covered) ↦
          rw covered (run-kept s items ((push es' (list es u), sp') ∷ stack) m m' h)
    ]
run-kept s ((ok string_tok, span) ∷ items) [] m m' ((a, sliced), h) = rw sliced
run-kept s ((ok string_tok, span) ∷ items) ((es, sp) ∷ stack) m m' ((a, sliced), h) =
    rw sliced (run-kept s items ((push es (atom a span), sp) ∷ stack) m m' h)
run-kept s ((ok block_comment, span) ∷ items) stack m m' ((a, sliced), h) =
    rw sliced (run-kept s items stack (push_metadata m (block_comment_item a span)) m' h)
run-kept s ((ok line_comment, span) ∷ items) stack m m' ((a, sliced), h) =
    rw sliced (run-kept s items stack (push_metadata m (line_comment_item a span)) m' h)
run-kept s ((ok whitespace, span) ∷ items) stack m m' ((a, sliced), h) =
    rw sliced (run-kept s items stack (push_metadata m (whitespace_item a span)) m' h)

trees-map_err : (x : Parsed (List TopLevel × Metadata)) → trees (map_err x) ≡ map_err (trees x)
unfolding map_err
trees-map_err (done a) = refl
trees-map_err (failed e) = refl
trees-map_err panicked = refl

-- Of a text `parse` gives the trees, or the error with its span, that `parse_` gives when it keeps
-- whitespace and comments as metadata.
pub parse-parse_ :
    (cfg : List ℕ) → is_text cfg ≡ true → parse cfg ≡ (parse_ cfg false >>= λ r. done r.0)
unfolding parse parse_ parse_with
parse-parse_ cfg h =
    let s = strip_utf8_bom cfg in
    let (items, lexed, ignoring, located) = lexer_new-both s (strip_utf8_bom-is_text cfg h) in
    let run_with = λ (tokens : Option (List Spanned)). map_err (trees (parse_with s tokens)) in
    trees-map_err (parse_with s (lexer_new s true))
    ∙ ap run_with ignoring
    ∙ ap map_err (sym (run-kept s items ((nil, span_default) ∷ []) [] [] located))
    ∙ ap run_with (sym lexed)
    ∙ sym (trees-map_err (parse_with s (lexer_new s false)))
