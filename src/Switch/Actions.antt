-- ===== src/Switch/Actions.antt =====
-- keyberon/src/action/switch.rs, the iterator `SwitchActions`: the actions of the cases that apply,
-- up to the first of them that breaks.
use kanata.Base.{
  ℕ, zero, suc, ◌+◌, ◌≤◌, ◌≡◌, refl, ap, arith, true, false, List, [], ◌∷◌, Option, none, some,
  if◌then◌else◌, length, get_elem?, ◌∙◌, Bool-cases, inl, inr,
}
use mathlib.Core.Option
use kanata.Switch.OpCode.{OpCode}
use kanata.Switch.Eval.{Inputs, value, panicked, out_of_fuel, evaluate_boolean}
use kanata.Switch.Parse.{Items, ok, parse_key_match}
use kanata.Switch.Meaning.{AreProper, case_holds}
use kanata.Switch.ParseCode.{evaluate_boolean-parse_key_match}

pub data BreakOrFallthrough : Type 0 where
  break fallthrough : BreakOrFallthrough

abbrev pub Case : Type 0 → Type 0
Case A = List OpCode × A × BreakOrFallthrough

-- The iterator's own state; its other fields are the evaluator's inputs.
pub record SwitchActions (A : Type 0) : Type 0 where
  pub cases : List (Case A)
  pub case_index : ℕ

-- What a call of `next` returns, with the state behind it.
pub data Next (A : Type 0) : Type 0 where
  yields : A → SwitchActions A → Next A
  finished : Next A
  failed : Next A

-- A case that applies: `break` moves the index behind all cases.
unfoldable pub take_case : {A : Type 0} → SwitchActions A → A → BreakOrFallthrough → Next A
take_case s a break = yields a (record s { case_index = length s.cases })
take_case s a fallthrough = yields a (record s { case_index = s.case_index + 1 })

-- The `while`, with a bound on its rounds.
unfoldable pub next_loop : {A : Type 0} → ℕ → Inputs → SwitchActions A → Next A
next_loop zero i s = finished
next_loop (suc rounds) i s = elim (get_elem? s.cases s.case_index) [
  | none ↦ finished
  | some (ops, a, brk) ↦ elim (evaluate_boolean i ops) [
    | value true ↦ take_case s a brk
    | value false ↦ next_loop rounds i (record s { case_index = s.case_index + 1 })
    | panicked ↦ failed
    | out_of_fuel ↦ failed
  ]
]

unfoldable pub next : {A : Type 0} → Inputs → SwitchActions A → Next A
next i s = next_loop (length s.cases) i s

-- All that the iterator yields; `none` is a panic, or too few calls.
unfoldable pub collect : {A : Type 0} → ℕ → Inputs → SwitchActions A → Option (List A)
collect zero i s = none
collect (suc calls) i s = elim (next i s) [
  | yields a t ↦ Option.map (λ rest. a ∷ rest) (collect calls i t)
  | finished ↦ some []
  | failed ↦ none
]

-- The actions that the cases as written select.
unfoldable pub selected : {A : Type 0} → Inputs → List (Items × A × BreakOrFallthrough) → List A
selected i [] = []
selected i ((items, a, break) ∷ rest) = if case_holds i items then a ∷ [] else selected i rest
selected i ((items, a, fallthrough) ∷ rest) =
    if case_holds i items then a ∷ selected i rest else selected i rest

-- The cases are the parser's, of key matches whose lists have items and whose callbacks exist.
abbrev pub AreParsed :
    {A : Type 0} → Inputs → List (Items × A × BreakOrFallthrough) → List (Case A) → Type 0
AreParsed i [] [] = Unit {0}
AreParsed i [] (_ ∷ _) = ⊥
AreParsed i (_ ∷ _) [] = ⊥
AreParsed i ((items, a, brk) ∷ rest) ((ops, a', brk') ∷ cases) =
    AreProper i items
    × (parse_key_match items ≡ ok ops)
    × (a ≡ a')
    × (brk ≡ brk')
    × AreParsed i rest cases

-- The cases from place `n` on.
abbrev From : {A : Type 0} → List (Case A) → ℕ → List (Case A) → Type 0
From cases n [] = get_elem? cases n ≡ none
From cases n (x ∷ xs) = (get_elem? cases n ≡ some x) × From cases (suc n) xs

From-cons :
    {A : Type 0} (x : Case A) (cases : List (Case A)) (n : ℕ) (xs : List (Case A))
    → From cases n xs
    → From (x ∷ cases) (suc n) xs
From-cons x cases n [] h = h
From-cons x cases n (y ∷ xs) h = (h.0, From-cons x cases (suc n) xs h.1)

From-self : {A : Type 0} (cases : List (Case A)) → From cases 0 cases
From-self [] = refl
From-self (x ∷ cases) = (refl, From-cons x cases 0 cases (From-self cases))

get_elem?-length : {A : Type 0} (cases : List (Case A)) → get_elem? cases (length cases) ≡ none
get_elem?-length [] = refl
get_elem?-length (x ∷ cases) = get_elem?-length cases

at : {A : Type 0} → List (Case A) → ℕ → SwitchActions A
at cases n = record { cases = cases; case_index = n }

abbrev collect_next : {A : Type 0} → ℕ → Inputs → Next A → Option (List A)
collect_next calls i (yields a t) = Option.map (λ rest. a ∷ rest) (collect calls i t)
collect_next calls i finished = some []
collect_next calls i failed = none

collect-next :
    {A : Type 0} (calls : ℕ) (i : Inputs) (s : SwitchActions A)
    → collect (suc calls) i s ≡ collect_next calls i (next_loop (length s.cases) i s)
unfolding collect next
collect-next calls i s = ground arith

-- One round on a case whose opcodes have a value.
round_taken :
    {A : Type 0} (n : ℕ) (i : Inputs) (s : SwitchActions A) (ops : List OpCode) (a : A)
    (brk : BreakOrFallthrough)
    → get_elem? s.cases s.case_index ≡ some (ops, a, brk)
    → evaluate_boolean i ops ≡ value true
    → next_loop (suc n) i s ≡ take_case s a brk
unfolding next_loop
round_taken n i s ops a brk e v = rw (e, next_loop) (rw v)

round_skipped :
    {A : Type 0} (n : ℕ) (i : Inputs) (s : SwitchActions A) (ops : List OpCode) (a : A)
    (brk : BreakOrFallthrough)
    → get_elem? s.cases s.case_index ≡ some (ops, a, brk)
    → evaluate_boolean i ops ≡ value false
    → next_loop (suc n) i s ≡ next_loop n i (record s { case_index = s.case_index + 1 })
unfolding next_loop
round_skipped n i s ops a brk e v = rw (e, next_loop) (rw v)

round_over :
    {A : Type 0} (n : ℕ) (i : Inputs) (s : SwitchActions A)
    → get_elem? s.cases s.case_index ≡ none
    → next_loop n i s ≡ finished
unfolding next_loop
round_over zero i s e = refl
round_over (suc n) i s e = rw (e, next_loop)

abbrev with_rest : {A : Type 0} → BreakOrFallthrough → A → List A → List A
with_rest break a rest = a ∷ []
with_rest fallthrough a rest = a ∷ rest

selected-applies :
    {A : Type 0} (i : Inputs) (items : Items) (a : A) (brk : BreakOrFallthrough)
    (rest : List (Items × A × BreakOrFallthrough))
    → case_holds i items ≡ true
    → selected i ((items, a, brk) ∷ rest) ≡ with_rest brk a (selected i rest)
unfolding selected
selected-applies i items a break rest h = rw h
selected-applies i items a fallthrough rest h = rw h

selected-fails :
    {A : Type 0} (i : Inputs) (items : Items) (a : A) (brk : BreakOrFallthrough)
    (rest : List (Items × A × BreakOrFallthrough))
    → case_holds i items ≡ false
    → selected i ((items, a, brk) ∷ rest) ≡ selected i rest
unfolding selected
selected-fails i items a break rest h = rw h
selected-fails i items a fallthrough rest h = rw h

collect-taken :
    {A : Type 0} (calls n : ℕ) (i : Inputs) (cases : List (Case A)) (a : A)
    (brk : BreakOrFallthrough) (rest : List A)
    → collect_next calls i (next_loop (length cases) i (at cases (n + 1))) ≡ some rest
    → collect_next (suc calls) i (take_case (at cases n) a brk) ≡ some (with_rest brk a rest)
unfolding take_case at
collect-taken calls n i cases a break rest h =
    let over = round_over (length cases) i (at cases (length cases)) (get_elem?-length cases) in
    rw (collect-next calls i (at cases (length cases)), over)
collect-taken calls n i cases a fallthrough rest h = rw (collect-next calls i (at cases (n + 1)), h)

collected :
    {A : Type 0} (written : List (Items × A × BreakOrFallthrough)) (rest cases : List (Case A))
    (k n calls rounds : ℕ) (i : Inputs)
    → AreParsed i written rest
    → From cases k rest
    → length rest ≤ rounds
    → length rest ≤ calls
    → n ≡ k
    → length rest ≤ length cases
    → collect_next calls i (next_loop rounds i (at cases n)) ≡ some (selected i written)
unfolding selected at
collected [] [] cases k n calls rounds i pr h p q e l =
    rw (round_over rounds i (at cases n) (rw e h))
collected [] (x ∷ rest) cases k n calls rounds i pr h p q e l = absurd pr
collected (x ∷ written) [] cases k n calls rounds i pr h p q e l = absurd pr
collected (x ∷ written) (y ∷ rest) cases k n calls zero i pr h p q e l = absurd (omega arith)
collected (x ∷ written) (y ∷ rest) cases k n zero (suc rounds) i pr h p q e l = absurd (omega arith)
collected ((items, a, brk) ∷ written) ((ops, a', brk') ∷ rest) cases k n (suc calls) (suc rounds) i
      (proper, parsed, same_a, same_brk, others) h p q e l =
    let here : get_elem? cases n ≡ some (ops, a', brk') = rw e h.0 in
    let v = evaluate_boolean-parse_key_match i items ops proper parsed in
    elim (Bool-cases (case_holds i items)) [
      | inl applies ↦
          let more =
            collected written rest cases (suc k) (n + 1) calls (length cases) i others h.1
              (omega arith) (omega arith) (omega arith) (omega arith) in
          rw
            (
              round_taken rounds i (at cases n) ops a' brk' here (v ∙ ap value applies),
              selected-applies i items a brk written applies,
              same_a,
              same_brk,
            )
            (collect-taken calls n i cases a' brk' (selected i written) more)
      | inr fails ↦
          rw
            (
              round_skipped rounds i (at cases n) ops a' brk' here (v ∙ ap value fails),
              selected-fails i items a brk written fails,
            )
            (collected written rest cases (suc k) (n + 1) (suc calls) rounds i others h.1
              (omega arith) (omega arith) (omega arith) (omega arith))
    ]

-- Of cases that the parser accepted, whose lists have items, whose values are in range and whose
-- callbacks exist, the iterator yields, without a panic, the actions of the cases that hold, in
-- order, up to and with the first of those that breaks. It takes at most one call more than there
-- are cases.
pub collect-selected :
    {A : Type 0} (written : List (Items × A × BreakOrFallthrough)) (cases : List (Case A))
    (i : Inputs)
    → AreParsed i written cases
    → collect (length cases + 1) i (record { cases = cases; case_index = 0 })
      ≡ some (selected i written)
unfolding at
collect-selected written cases i pr =
    let one_more : length cases + 1 ≡ suc (length cases) = omega arith in
    rw one_more (
      collect-next (length cases) i (record { cases = cases; case_index = 0 })
      ∙ collected written cases cases 0 0 (length cases) (length cases) i pr (From-self cases)
          (omega arith) (omega arith) refl (omega arith))
