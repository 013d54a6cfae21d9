-- ===== src/Sexpr/Parser/Spans.antt =====
-- Spans of one source can be covered without a panic.
use kanata.Base.{
  ℕ, zero, suc, ◌≤◌, ◌≡◌, arith, ap, sym, ◌∙◌, List, [], ◌∷◌, ◌++◌, some, length-append, take,
  take-append, leb, if◌then◌else◌,
}
use mathlib.Core.List.{append_assoc}
use kanata.Sexpr.Position.{Position, Span, span_new, cover}
use kanata.Sexpr.Position.Reading.{newlines, position_after}
use kanata.Sexpr.Lexer.Pieces.Source.{Located}

newlines-take_mono : (m n : ℕ) (s : List ℕ) → m ≤ n → newlines (take m s) ≤ newlines (take n s)
unfolding newlines
newlines-take_mono zero n s h = omega arith
newlines-take_mono (suc m) zero s h = absurd (omega arith)
newlines-take_mono (suc m) (suc n) [] h = omega arith
newlines-take_mono (suc m) (suc n) (b ∷ s) h = omega (arith, newlines-take_mono m n s (omega arith))

-- A position whose line is counted in `s`.
abbrev Counts : List ℕ → Position → Type 0
Counts s p = p.line ≡ newlines (take p.absolute s)

position_after-Counts :
    (s before rest : List ℕ) → s ≡ before ++ rest → Counts s (position_after before)
position_after-Counts s before rest e = rw e (ap newlines (sym (take-append before rest)))

span_new-some :
    (p q : Position)
    → p.absolute ≤ q.absolute
    → p.line ≤ q.line
    → span_new p q ≡ some (record { start = p; end = q })
unfolding span_new
span_new-some p q h k = ground arith

module _ (s : List ℕ) where
  abbrev Ordered : Span → Type 0
  Ordered p = Counts s p.start × Counts s p.end × (p.start.absolute ≤ p.end.absolute)

  Located-Ordered : {p : Span} → Located s p → Ordered p
  Located-Ordered (before, read, rest, e, h, f) = rw f (
    position_after-Counts s before (read ++ rest) e,
    position_after-Counts s (before ++ read) rest (e ∙ sym (append_assoc before read rest)),
    omega (arith, length-append before read),
  )

  Ordered-cover : (p q : Span) → Ordered p → Ordered q → (u : Span) × (cover p q ≡ some u)
  unfolding cover
  Ordered-cover p q h k =
      let start = if leb p.start.absolute q.start.absolute then p.start else q.start in
      let end = if leb q.end.absolute p.end.absolute then p.end else q.end in
      (
        record { start = start; end = end },
        span_new-some start end (ground arith) (
            ground (
              arith,
              newlines-take_mono p.start.absolute p.end.absolute s,
              newlines-take_mono p.start.absolute q.end.absolute s,
              newlines-take_mono q.start.absolute p.end.absolute s,
              newlines-take_mono q.start.absolute q.end.absolute s,
            )),
      )

  pub Located-cover : {p q : Span} → Located s p → Located s q → (u : Span) × (cover p q ≡ some u)
  Located-cover {p} {q} h k = Ordered-cover p q (Located-Ordered h) (Located-Ordered k)
