-- ===== src/Sexpr/Parser.antt =====
-- parser/src/cfg/sexpr.rs: `parse_with`, `parse_` and `parse`, from the lexer's items to trees.
pub mod Spans
pub mod Outcome
pub mod Whole
use kanata.Base.{
  ℕ, ◌+◌, Bool, true, false, List, [], ◌∷◌, Option, none, some, ◌==◌, if◌then◌else◌, length,
}
use kanata.Sexpr.Position.{Position, Span, span_default, cover, slice}
use kanata.Sexpr.Lexer.{
  Token, open_paren, close_paren, string_tok, block_comment, line_comment, whitespace, Msg,
  unterminated_multiline_comment, unexpected_closing, unclosed_opening, everything_in_a_list,
  TokenRes, ok, err, Spanned, lexer_new,
}

mutual
  pub data SExpr : Type 0 where
    atom : List ℕ → Span → SExpr
    list : Exprs → Span → SExpr

  -- `Vec<SExpr>`
  pub data Exprs : Type 0 where
    nil : Exprs
    cons : SExpr → Exprs → Exprs

-- `Vec::push`
unfoldable pub push : Exprs → SExpr → Exprs
push nil e = cons e nil
push (cons x xs) e = cons x (push xs e)

pub data SExprMetaData : Type 0 where
  line_comment_item block_comment_item whitespace_item : List ℕ → Span → SExprMetaData

pub record ParseError : Type 0 where
  pub span : Option Span
  pub msg : Msg

abbrev pub parse_error : Span → Msg → ParseError
parse_error span msg = record { span = some span; msg = msg }

pub data Parsed {ℓ} (A : Type ℓ) : Type ℓ where
  done : A → Parsed A
  failed : ParseError → Parsed A
  panicked : Parsed A

infixl 5 ◌>>=◌
abbrev pub ◌>>=◌ {ℓ κ} : {A : Type ℓ} {B : Type κ} → Parsed A → (A → Parsed B) → Parsed B
done a >>= f = f a
failed e >>= f = failed e
panicked >>= f = panicked

-- `expect`, and the operations that assert.
abbrev pub expect {ℓ} : {A : Type ℓ} → Option A → Parsed A
expect none = panicked
expect (some a) = done a

-- The top of the stack comes first; at its bottom is a placeholder.
abbrev pub Stack : Type 0
Stack = List (Exprs × Span)

-- `stack.last_mut().expect("not empty").t.push(e)`
abbrev pub push_last : Stack → SExpr → Parsed Stack
push_last [] e = panicked
push_last ((exprs, span) ∷ stack) e = done ((push exprs e, span) ∷ stack)

abbrev pub Metadata : Type 0
Metadata = List SExprMetaData

unfoldable pub push_metadata : Metadata → SExprMetaData → Metadata
push_metadata [] m = m ∷ []
push_metadata (x ∷ xs) m = x ∷ push_metadata xs m

-- The placeholder was popped where the stack is empty behind it.
abbrev pub close : Stack → Span → Parsed Stack
close [] span = panicked
close ((exprs, stack_span) ∷ []) span = failed (parse_error span unexpected_closing)
close ((exprs, stack_span) ∷ below ∷ stack) span = do
  covered ← expect (cover stack_span span)
  push_last (below ∷ stack) (list exprs covered)

abbrev pub take_token : List ℕ → Token → Span → Stack → Metadata → Parsed (Stack × Metadata)
take_token s open_paren span stack metadata = done ((nil, span) ∷ stack, metadata)
take_token s close_paren span stack metadata = close stack span >>= λ t. done (t, metadata)
take_token s string_tok span stack metadata =
    expect (slice s span) >>= λ a. push_last stack (atom a span) >>= λ t. done (t, metadata)
take_token s block_comment span stack metadata =
    expect (slice s span) >>= λ a. done (stack, push_metadata metadata (block_comment_item a span))
take_token s line_comment span stack metadata =
    expect (slice s span) >>= λ a. done (stack, push_metadata metadata (line_comment_item a span))
take_token s whitespace span stack metadata =
    expect (slice s span) >>= λ a. done (stack, push_metadata metadata (whitespace_item a span))

-- The loop over the tokens.
unfoldable pub parse_loop : List ℕ → List Spanned → Stack → Metadata → Parsed (Stack × Metadata)
parse_loop s [] stack metadata = done (stack, metadata)
parse_loop s ((err msg, span) ∷ items) stack metadata = failed (parse_error span msg)
parse_loop s ((ok t, span) ∷ items) stack metadata =
    take_token s t span stack metadata >>= λ r. parse_loop s items r.0 r.1

abbrev pub TopLevel : Type 0
TopLevel = Exprs × Span

unfoldable pub lists_only : Exprs → Parsed (List TopLevel)
lists_only nil = done []
lists_only (cons (list es span) exprs) = lists_only exprs >>= λ rest. done ((es, span) ∷ rest)
lists_only (cons (atom a span) exprs) = failed (parse_error span everything_in_a_list)

-- Behind the loop.
unfoldable pub finish : Stack → Metadata → Parsed (List TopLevel × Metadata)
unfolding lists_only
finish [] metadata = panicked
finish ((exprs, sp) ∷ []) metadata = lists_only exprs >>= λ es. done (es, metadata)
finish ((exprs, sp) ∷ below ∷ stack) metadata = failed (parse_error sp unclosed_opening)

unfoldable pub parse_with : List ℕ → Option (List Spanned) → Parsed (List TopLevel × Metadata)
unfolding parse_loop finish push push_metadata cover slice
parse_with s tokens = expect tokens >>= λ items.
    parse_loop s items ((nil, span_default) ∷ []) [] >>= λ r. finish r.0 r.1

-- A byte order mark in front is left out.
abbrev strip : List ℕ → List ℕ → List ℕ
strip (a ∷ b ∷ c ∷ rest) s =
    if a == 0xef then (if b == 0xbb then (if c == 0xbf then rest else s) else s) else s
strip _ s = s

unfoldable pub strip_utf8_bom : List ℕ → List ℕ
strip_utf8_bom s = strip s s

-- An unterminated comment is reported at its first two bytes.
abbrev pub shorten : Span → Span
shorten span = record span { end = record span.start { absolute = span.start.absolute + 2 } }

abbrev pub shorten_with : Msg → ParseError → ParseError
shorten_with unterminated_multiline_comment e = elim e.span [
  | none ↦ e
  | some span ↦ parse_error (shorten span) e.msg
]
shorten_with _ e = e

unfoldable pub map_err {ℓ} : {A : Type ℓ} → Parsed A → Parsed A
map_err (failed e) = failed (shorten_with e.msg e)
map_err (done a) = done a
map_err panicked = panicked

unfoldable pub parse_ : List ℕ → Bool → Parsed (List TopLevel × Metadata)
unfolding parse_with strip_utf8_bom map_err lexer_new
parse_ cfg ignore = let s = strip_utf8_bom cfg in map_err (parse_with s (lexer_new s ignore))

unfoldable pub parse : List ℕ → Parsed (List TopLevel)
unfolding parse_
parse cfg = parse_ cfg true >>= λ r. done r.0
