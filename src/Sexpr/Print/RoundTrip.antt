-- ===== src/Sexpr/Print/RoundTrip.antt =====
-- Parsing a printed tree gives the tree, with the spans of its text.
use kanata.Base.{
  ℕ, ◌≡◌, refl, arith, ap, ◌∙◌, sym, subst, true, false, List, [], ◌∷◌, ◌++◌, some, ◌==◌, length,
  length-append, leb,
}
use mathlib.Core.List.{append_assoc, append-nil}
use kanata.Sexpr.Position.{Span, span_default, cover, slice, starts_char}
use kanata.Sexpr.Position.Chars.{slice-span_after}
use kanata.Sexpr.Position.Reading.{span_after, span_new-after}
use kanata.Sexpr.Lexer.{open_paren, close_paren, string_tok, ok, Spanned, lexer_new}
use kanata.Sexpr.Lexer.Pieces.{Lexes, end, kept}
use kanata.Sexpr.Lexer.Pieces.Source.{lexer_new-kept}
use kanata.Sexpr.Parser.{
  SExpr, atom, list, Exprs, nil, cons, push, Parsed, done, ◌>>=◌, Stack, Metadata, parse_loop,
  finish, parse_with, map_err, strip_utf8_bom, parse_, parse, TopLevel,
}
use kanata.Sexpr.Print.Words.{delimited}
use kanata.Sexpr.Print.Lexed.{fmt-Lexes, in_list}
use kanata.Sexpr.Print.Place.{is_plain, all_plain, each_plain, place, places, tokens, tokens_in}
use kanata.Sexpr.Print.{fmt, join}

append : Exprs → Exprs → Exprs
append nil ys = ys
append (cons x xs) ys = cons x (append xs ys)

append-push : (es : Exprs) (x : SExpr) (ys : Exprs) → append (push es x) ys ≡ append es (cons x ys)
unfolding append push
append-push nil x ys = refl
append-push (cons e es) x ys = ap (cons e) (append-push es x ys)

append_nil : (es : Exprs) → append es nil ≡ es
unfolding append
append_nil nil = refl
append_nil (cons e es) = ap (cons e) (append_nil es)

push-append : (es : Exprs) (x : SExpr) → push es x ≡ append es (cons x nil)
unfolding append push
push-append nil x = refl
push-append (cons e es) x = ap (cons e) (push-append es x)

-- From the opening parenthesis to the closing one.
cover-parens :
    (before text : List ℕ)
    → cover (span_after before (b'(' ∷ [])) (span_after ((before ++ b'(' ∷ []) ++ text) (b')' ∷ []))
      ≡ some (span_after before (b'(' ∷ (text ++ b')' ∷ [])))
unfolding cover
cover-parens before text =
    let first = before ++ b'(' ∷ [] in
    let start_first : leb (length before) (length (first ++ text)) ≡ true =
      ground (arith, length-append before (b'(' ∷ []), length-append first text) in
    let end_last : leb (length ((first ++ text) ++ b')' ∷ [])) (length first) ≡ false =
      ground (arith, length-append (first ++ text) (b')' ∷ []), length-append first text) in
    rw (start_first, end_last, in_list before text)
      (span_new-after before (b'(' ∷ (text ++ b')' ∷ [])))

behind_open :
    (before text rest : List ℕ)
    → before ++ (b'(' ∷ (text ++ b')' ∷ []) ++ rest)
      ≡ (before ++ b'(' ∷ []) ++ (text ++ (b')' ∷ rest))
behind_open before text rest = simp append_assoc

behind_space :
    (before text text' rest : List ℕ)
    → before ++ ((text ++ (b' ' ∷ text')) ++ rest)
      ≡ (before ++ (text ++ b' ' ∷ [])) ++ (text' ++ rest)
behind_space before text text' rest = simp append_assoc

module _ (s : List ℕ) (items : List Spanned) (es : Exprs) (sp : Span) (stack : Stack)
    (m : Metadata) where
  read_atom :
      (a : List ℕ) (span : Span)
      → slice s span ≡ some a
      → parse_loop s ((ok string_tok, span) ∷ items) ((es, sp) ∷ stack) m
        ≡ parse_loop s items ((push es (atom a span), sp) ∷ stack) m
  unfolding parse_loop
  read_atom a span sliced = rw sliced

  read_open :
      (span : Span)
      → parse_loop s ((ok open_paren, span) ∷ items) ((es, sp) ∷ stack) m
        ≡ parse_loop s items ((nil, span) ∷ (es, sp) ∷ stack) m
  unfolding parse_loop
  read_open span = refl

  read_close :
      (xs : Exprs) (begin span : Span) {u : Span}
      → cover begin span ≡ some u
      → parse_loop s ((ok close_paren, span) ∷ items) ((xs, begin) ∷ (es, sp) ∷ stack) m
        ≡ parse_loop s items ((push es (list xs u), sp) ∷ stack) m
  unfolding parse_loop
  read_close xs begin span covered = rw covered

word-starts : (a rest : List ℕ) → is_plain a ≡ true → starts_char (a ++ rest) ≡ true
word-starts [] rest h = absurd cc
word-starts (b ∷ a) rest h = ground arith

delimited-starts : (rest : List ℕ) → delimited rest ≡ true → starts_char rest ≡ true
delimited-starts [] h = refl
delimited-starts (b ∷ rest) h = ground arith

module _ (s : List ℕ) where
  mutual
    unfolding fmt join tokens tokens_in place places kept append all_plain

    parse-fmt :
        (e : SExpr) (before rest : List ℕ) (items : List Spanned) (es : Exprs) (sp : Span)
        (stack : Stack) (m : Metadata)
        → all_plain e ≡ true
        → delimited rest ≡ true
        → s ≡ before ++ (fmt e ++ rest)
        → parse_loop s (kept true (tokens e before items)) ((es, sp) ∷ stack) m
          ≡ parse_loop s (kept true items) ((push es (place e before), sp) ∷ stack) m
    parse-fmt (atom a span) before rest items es sp stack m h d e =
        let sliced : slice s (span_after before a) ≡ some a =
          rw e (slice-span_after before a rest (word-starts a rest h) (delimited-starts rest d)) in
        read_atom s (kept true items) es sp stack m a (span_after before a) sliced
    parse-fmt (list xs span) before rest items es sp stack m h d e =
        let first = before ++ b'(' ∷ [] in
        let last : Spanned = (ok close_paren, span_after (first ++ join xs) (b')' ∷ [])) in
        read_open s (kept true (tokens_in xs first (last ∷ items))) es sp stack m
          (span_after before (b'(' ∷ []))
        ∙ parse-join xs first (b')' ∷ rest) (last ∷ items) nil (span_after before (b'(' ∷ []))
            ((es, sp) ∷ stack) m h refl (e ∙ behind_open before (join xs) rest)
        ∙ read_close s (kept true items) es sp stack m (append nil (places xs first))
            (span_after before (b'(' ∷ [])) (span_after (first ++ join xs) (b')' ∷ []))
            (cover-parens before (join xs))

    parse-join :
        (xs : Exprs) (before rest : List ℕ) (items : List Spanned) (es : Exprs) (sp : Span)
        (stack : Stack) (m : Metadata)
        → each_plain xs ≡ true
        → delimited rest ≡ true
        → s ≡ before ++ (join xs ++ rest)
        → parse_loop s (kept true (tokens_in xs before items)) ((es, sp) ∷ stack) m
          ≡ parse_loop s (kept true items) ((append es (places xs before), sp) ∷ stack) m
    parse-join nil before rest items es sp stack m h d e =
        ap (λ t. parse_loop s (kept true items) ((t, sp) ∷ stack) m) (sym (append_nil es))
    parse-join (cons x nil) before rest items es sp stack m h d e =
        parse-fmt x before rest items es sp stack m (ground arith) d e
        ∙ ap (λ t. parse_loop s (kept true items) ((t, sp) ∷ stack) m)
            (push-append es (place x before))
    parse-join (cons x (cons x' xs)) before rest items es sp stack m h d e =
        let text = join (cons x' xs) in
        parse-fmt x before (b' ' ∷ (text ++ rest)) _ es sp stack m (ground arith) refl
          (e ∙ ap (λ t. before ++ t) (append_assoc (fmt x) (b' ' ∷ text) rest))
        ∙ parse-join (cons x' xs) (before ++ (fmt x ++ b' ' ∷ [])) rest items
            (push es (place x before)) sp stack m (ground arith) d
            (e ∙ behind_space before (fmt x) text rest)
        ∙ ap (λ t. parse_loop s (kept true items) ((t, sp) ∷ stack) m)
            (append-push es (place x before) (places (cons x' xs) (before ++ (fmt x ++ b' ' ∷ []))))

strip_utf8_bom-none : (b : ℕ) (bs : List ℕ) → (b == 0xef) ≡ false → strip_utf8_bom (b ∷ bs) ≡ b ∷ bs
unfolding strip_utf8_bom
strip_utf8_bom-none b [] h = refl
strip_utf8_bom-none b (c ∷ []) h = refl
strip_utf8_bom-none b (c ∷ d ∷ bs) h = rw h

abbrev answer : Parsed (List TopLevel × Metadata) → Parsed (List TopLevel)
answer x = map_err x >>= λ r. done r.0

-- A list whose atoms are plain words, however deep, is parsed back from its printed text: the result
-- is that one list, with the spans of its parts in the text.
pub parse-fmt_list :
    (es : Exprs) (span : Span)
    → all_plain (list es span) ≡ true
    → parse (fmt (list es span))
      ≡ done ((places es (b'(' ∷ []), span_after [] (fmt (list es span))) ∷ [])
unfolding parse parse_ parse_with place fmt kept parse_loop finish push map_err
parse-fmt_list es span h =
    let e = list es span in
    let s = fmt e in
    let lexed : lexer_new s true ≡ some (kept true (tokens e [] [])) =
      lexer_new-kept true s
        (subst (λ t. Lexes [] t (tokens e [] [])) (append-nil s) (fmt-Lexes e [] [] h refl end)) in
    let parsed = parse-fmt s e [] [] [] nil span_default [] [] h refl (sym (append-nil s)) in
    ap (λ t. answer (parse_with t (lexer_new t true)))
      (strip_utf8_bom-none b'(' (join es ++ b')' ∷ []) refl)
    ∙ ap (λ x. answer (parse_with s x)) lexed
    ∙ ap (λ x. answer (x >>= λ r. finish r.0 r.1)) parsed
