-- ===== src/Sexpr/Parser/Outcome.antt =====
-- Whether parsing succeeds, or with which message it fails, told from the kinds of the tokens alone.
use kanata.Base.{
  ℕ, zero, suc, ◌≡◌, refl, arith, ap, ◌∙◌, Bool, true, false, ◌||◌, List, [], ◌∷◌, Option, none,
  some, length,
}
use kanata.Sexpr.Position.{Span, span_default}
use kanata.Sexpr.Lexer.{
  open_paren, close_paren, string_tok, block_comment, line_comment, whitespace, Msg,
  unexpected_closing, unclosed_opening, everything_in_a_list, ok, err, Spanned,
}
use kanata.Sexpr.Lexer.Pieces.Source.{Located, AllLocated}
use kanata.Sexpr.Lexer.Pieces.Sliced.{AllSliced}
use kanata.Sexpr.Parser.{
  SExpr, atom, list, Exprs, nil, cons, push, line_comment_item, block_comment_item, whitespace_item,
  Parsed, done, failed, panicked, ◌>>=◌, Stack, Metadata, push_metadata, parse_loop, lists_only,
  finish, parse_with,
}
use kanata.Sexpr.Parser.Spans.{Located-cover}

-- The message of a failure, none on success; no outcome at all on a panic.
abbrev pub outcome {ℓ} : {A : Type ℓ} → Parsed A → Option (Option Msg)
outcome (done a) = some none
outcome (failed e) = some (some e.msg)
outcome panicked = none

-- The text has ended at a depth, with or without an atom outside of all lists.
abbrev at_end : ℕ → Bool → Option Msg
at_end zero false = none
at_end zero true = some everything_in_a_list
at_end (suc depth) loose = some unclosed_opening

-- A count of the parentheses that are open. The first error of the lexer or the first closing
-- parenthesis too many is the answer; then one that is not closed; then an atom outside of lists.
unfoldable pub verdict : ℕ → Bool → List Spanned → Option Msg
verdict depth loose [] = at_end depth loose
verdict depth loose ((err msg, span) ∷ items) = some msg
verdict depth loose ((ok open_paren, span) ∷ items) = verdict (suc depth) loose items
verdict zero loose ((ok close_paren, span) ∷ items) = some unexpected_closing
verdict (suc depth) loose ((ok close_paren, span) ∷ items) = verdict depth loose items
verdict zero loose ((ok string_tok, span) ∷ items) = verdict zero true items
verdict (suc depth) loose ((ok string_tok, span) ∷ items) = verdict (suc depth) loose items
verdict depth loose ((ok block_comment, span) ∷ items) = verdict depth loose items
verdict depth loose ((ok line_comment, span) ∷ items) = verdict depth loose items
verdict depth loose ((ok whitespace, span) ∷ items) = verdict depth loose items

abbrev is_atom : SExpr → Bool
is_atom (atom a span) = true
is_atom (list es span) = false

has_atom : Exprs → Bool
has_atom nil = false
has_atom (cons e es) = is_atom e || has_atom es

has_atom-push : (es : Exprs) (e : SExpr) → has_atom (push es e) ≡ (has_atom es || is_atom e)
unfolding has_atom push
has_atom-push nil (atom a span) = refl
has_atom-push nil (list es span) = refl
has_atom-push (cons (atom a span) es) e = refl
has_atom-push (cons (list xs span) es) e = has_atom-push es e

bind_done {ℓ κ} :
    {A : Type ℓ} {B : Type κ} (x : Parsed A) (f : A → B)
    → outcome (x >>= λ a. done (f a)) ≡ outcome x
bind_done (done a) f = refl
bind_done (failed e) f = refl
bind_done panicked f = refl

lists_only-outcome : (es : Exprs) → outcome (lists_only es) ≡ some (at_end 0 (has_atom es))
unfolding lists_only has_atom
lists_only-outcome nil = refl
lists_only-outcome (cons (atom a span) es) = refl
lists_only-outcome (cons (list xs span) es) =
    bind_done (lists_only es) (λ rest. (xs, span) ∷ rest) ∙ lists_only-outcome es

has_atom-push_list : (es xs : Exprs) (span : Span) → has_atom (push es (list xs span)) ≡ has_atom es
has_atom-push_list es xs span = ground (arith, has_atom-push es (list xs span))

has_atom-push_atom :
    (es : Exprs) (a : List ℕ) (span : Span) → has_atom (push es (atom a span)) ≡ true
has_atom-push_atom es a span = ground (arith, has_atom-push es (atom a span))

-- What lies at the bottom of a stack.
bottom : Exprs → Stack → Exprs
bottom es [] = es
bottom es ((es', span) ∷ stack) = bottom es' stack

bottom-push_list :
    (es xs : Exprs) (span : Span) (stack : Stack)
    → has_atom (bottom (push es (list xs span)) stack) ≡ has_atom (bottom es stack)
unfolding bottom
bottom-push_list es xs span [] = has_atom-push_list es xs span
bottom-push_list es xs span (x ∷ stack) = refl

module _ (s : List ℕ) where
  -- All spans but the placeholder's are of the source.
  abbrev StackLocated : Span → Stack → Type 0
  StackLocated span [] = Unit {0}
  StackLocated span ((es, span') ∷ stack) = Located s span × StackLocated span' stack

  loop-verdict :
      (items : List Spanned) (es : Exprs) (sp : Span) (stack : Stack) (metadata : Metadata)
      → AllLocated s items
      → AllSliced s items
      → StackLocated sp stack
      → outcome (parse_loop s items ((es, sp) ∷ stack) metadata >>= λ r. finish r.0 r.1)
        ≡ some (verdict (length stack) (has_atom (bottom es stack)) items)
  unfolding parse_loop finish verdict bottom
  loop-verdict [] es sp [] m h c k =
      bind_done (lists_only es) (λ xs. (xs, m)) ∙ lists_only-outcome es
  loop-verdict [] es sp (x ∷ stack) m h c k = refl
  loop-verdict ((err msg, span) ∷ items) es sp stack m h c k = refl
  loop-verdict ((ok open_paren, span) ∷ items) es sp stack m (l, h) (cut, c) k =
      loop-verdict items nil span ((es, sp) ∷ stack) m h c (l, k)
  loop-verdict ((ok close_paren, span) ∷ items) es sp [] m h c k = refl
  loop-verdict ((ok close_paren, span) ∷ items) es sp ((es', sp') ∷ stack) m (l, h) (cut, c)
        (o, k) =
      let (u, covered) = Located-cover s o l in
      rw covered (
        loop-verdict items (push es' (list es u)) sp' stack m h c k
        ∙ ap (λ b. some (verdict (length stack) b items)) (bottom-push_list es' es u stack))
  loop-verdict ((ok string_tok, span) ∷ items) es sp [] m (l, h) ((a, sliced), c) k = rw sliced (
      loop-verdict items (push es (atom a span)) sp [] m h c k
      ∙ ap (λ b. some (verdict 0 b items)) (has_atom-push_atom es a span))
  loop-verdict ((ok string_tok, span) ∷ items) es sp ((es', sp') ∷ stack) m (l, h) ((a, sliced), c)
        k =
      rw sliced (loop-verdict items (push es (atom a span)) sp ((es', sp') ∷ stack) m h c k)
  loop-verdict ((ok block_comment, span) ∷ items) es sp stack m (l, h) ((a, sliced), c) k =
      rw sliced (loop-verdict items es sp stack (push_metadata m (block_comment_item a span)) h c k)
  loop-verdict ((ok line_comment, span) ∷ items) es sp stack m (l, h) ((a, sliced), c) k =
      rw sliced (loop-verdict items es sp stack (push_metadata m (line_comment_item a span)) h c k)
  loop-verdict ((ok whitespace, span) ∷ items) es sp stack m (l, h) ((a, sliced), c) k =
      rw sliced (loop-verdict items es sp stack (push_metadata m (whitespace_item a span)) h c k)

-- On items whose spans are parts of the source, and slices of it up to the first error, the parser
-- does not panic, and whether it succeeds, or with which message it fails, is what the count of open
-- parentheses says.
pub parse_with-verdict :
    (s : List ℕ) (items : List Spanned)
    → AllLocated s items
    → AllSliced s items
    → outcome (parse_with s (some items)) ≡ some (verdict 0 false items)
unfolding parse_with
parse_with-verdict s items h c =
    unfold bottom has_atom in loop-verdict s items nil span_default [] [] h c tt
