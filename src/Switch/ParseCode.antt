-- ===== src/Switch/ParseCode.antt =====
-- What the parser leaves behind: the opcodes of each item at its place, within the depth limit.
use kanata.Base.{
  ℕ, suc, ◌+◌, ◌≤◌, ◌≡◌, refl, sym, ap, subst, ◌∙◌, arith, List, [], ◌∷◌, ◌++◌, Option, none, some,
  u16, length, length-append, set, set-append,
}
use mathlib.Core.Path.{ap₂}
use mathlib.Core.List.{append-nil, append_assoc}
use kanata.Switch.OpCode.{OpCode, BooleanOperator, max_opcode_len, max_bool_expr_depth, new_bool}
use kanata.Switch.Condition.{Condition, opcodes}
use kanata.Switch.Eval.{Inputs, value, evaluate_boolean}
use kanata.Switch.Parse.{
  Item, condition, group, Items, nil, cons, Parsed, ok, err, ◌>>=◌, or_panic, guards,
  push_condition, open_group, close_group, parse_switch_case_bool, parse_items, parse_key_match,
}
use kanata.Switch.Meaning.{AreProper, case_holds}
use kanata.Switch.Slice.{IsCode, AreCode}
use kanata.Switch.Correct.{evaluate_boolean-AreCode}

-- A success came of two.
>>=-ok :
    {A B : Type 0} {r : B} (first : Parsed A) (then_ : A → Parsed B)
    → (first >>= then_) ≡ ok r
    → (x : A) × (first ≡ ok x) × (then_ x ≡ ok r)
>>=-ok (err failure) then_ e = cc
>>=-ok (ok x) then_ e = (x, refl, e)

guards_pass :
    (depth : ℕ) (ops : List OpCode) {r : List OpCode}
    → guards depth ops ≡ ok r
    → (r ≡ ops) × (length ops ≤ max_opcode_len) × (depth ≤ max_bool_expr_depth)
unfolding guards
guards_pass depth ops e = ground arith

push_ok :
    (c : Condition) (ops : List OpCode) {r : List OpCode}
    → push_condition c ops ≡ ok r
    → (ws : List OpCode) × (opcodes c ≡ some ws) × (r ≡ ops ++ ws)
unfolding push_condition
push_ok c ops e = ground arith

or_panic-ok : (o : Option OpCode) {w : OpCode} → or_panic o ≡ ok w → o ≡ some w
or_panic-ok none e = cc
or_panic-ok (some v) e = cc

open_ok :
    (op : BooleanOperator) (ops : List OpCode) {r : List OpCode}
    → open_group op ops ≡ ok r
    → (w : OpCode) × (r ≡ ops ++ w ∷ [])
unfolding open_group
open_ok op ops e =
    let (w, made, q) =
      >>=-ok (or_panic (new_bool op (u16 (length ops)))) (λ w. ok (ops ++ w ∷ [])) e in
    (w, ground arith)

close_ok :
    (op : BooleanOperator) (at : ℕ) (ops : List OpCode) {r : List OpCode}
    → close_group op at ops ≡ ok r
    → (w : OpCode) × (new_bool op (length ops) ≡ some w) × (r ≡ set ops at w)
unfolding close_group
close_ok op at ops {r} e =
    let (within, made) = passed in
    let (w, p, q) =
      >>=-ok (or_panic (new_bool op (u16 (length ops)))) (λ w. ok (set ops at w)) made in
    let same : u16 (length ops) ≡ length ops = omega arith in
    (w, subst (λ n. new_bool op n ≡ some w) same (or_panic-ok _ p), ground arith)
  where
    passed :
        (length ops ≤ max_opcode_len)
        × ((or_panic (new_bool op (u16 (length ops))) >>= λ w. ok (set ops at w)) ≡ ok r)
    passed = ground arith

not_none : (c : Condition) → ¬ (opcodes c ≡ some [])
unfolding opcodes
not_none (Condition.key kc) e = ground arith
not_none _ e = ground arith

first_opcode :
    (c : Condition) (ws : List OpCode)
    → opcodes c ≡ some ws
    → (w : OpCode) × (rest : List OpCode) × (ws ≡ w ∷ rest)
first_opcode c [] e = absurd (not_none c e)
first_opcode c (w ∷ ws) e = (w, ws, refl)

-- The result is the opcodes given, followed by those of the item.
abbrev Adds : (List OpCode → Type 0) → List OpCode → List OpCode → Type 0
Adds P ops r = (code : List OpCode) × (r ≡ ops ++ code) × P code

-- The rest of a group behind its guards, and behind its placeholder.
abbrev filling : BooleanOperator → Items → ℕ → List OpCode → List OpCode → Parsed (List OpCode)
filling op items depth ops opened =
    parse_items (suc depth) items opened >>= close_group op (u16 (length ops))

abbrev opening : BooleanOperator → Items → ℕ → List OpCode → Parsed (List OpCode)
opening op items depth ops = open_group op ops >>= filling op items depth ops

-- The placeholder's place is where the group begins.
group_closed :
    (op : BooleanOperator) (ops opened inner body r : List OpCode) (v w : OpCode)
    → length ops ≤ max_opcode_len
    → opened ≡ ops ++ v ∷ []
    → inner ≡ opened ++ body
    → r ≡ set inner (u16 (length ops)) w
    → r ≡ ops ++ w ∷ body
group_closed op ops opened inner body r v w h p q e =
    let same : u16 (length ops) ≡ length ops = omega arith in
    let laid : inner ≡ ops ++ v ∷ body =
      q ∙ ap (λ l. l ++ body) p ∙ append_assoc ops (v ∷ []) body in
    e ∙ ap₂ (λ l n. set l n w) laid same ∙ set-append ops v w body

mutual
  unfolding IsCode parse_items

  item_coded :
      (item : Item) (depth : ℕ) (ops r : List OpCode)
      → parse_switch_case_bool depth item ops ≡ ok r
      → Adds (IsCode depth (length ops) item) ops r
  item_coded (condition c) depth ops r e =
      let (ops', g, p) = >>=-ok (guards depth ops) (push_condition c) e in
      let (same, _, _) = guards_pass depth ops g in
      let (ws, enc, q) = push_ok c ops (rw same at p) in
      let (w, rest, split) = first_opcode c ws enc in (ws, q, (w, rest, split, enc))
  item_coded (group op items) depth ops r e =
      let (ops', g, e') = >>=-ok (guards depth ops) (opening op items depth) e in
      let (same, short, fits) = guards_pass depth ops g in
      let (opened, o, e'') =
        >>=-ok (open_group op ops) (filling op items depth ops)
          (subst (λ l. opening op items depth l ≡ ok r) same e') in
      let (inner, p, closed) =
        >>=-ok (parse_items (suc depth) items opened) (close_group op (u16 (length ops))) e'' in
      let (v, opened_eq) = open_ok op ops o in
      let (body, inner_eq, inside) = items_coded items (suc depth) opened inner p in
      let (w, enc, r_eq) = close_ok op (u16 (length ops)) inner closed in
      let at_body : length opened ≡ suc (length ops) =
        omega (arith, ap length opened_eq, length-append ops (v ∷ [])) in
      let at_end : length inner ≡ length ops + suc (length body) =
        omega (arith, at_body, ap length inner_eq, length-append opened body) in
      (
        w ∷ body,
        group_closed op ops opened inner body r v w short opened_eq inner_eq r_eq,
        (
          w,
          body,
          refl,
          fits,
          subst (λ k. new_bool op k ≡ some w) at_end enc,
          subst (λ k. AreCode (suc depth) k items body) at_body inside,
        ),
      )

  items_coded :
      (items : Items) (depth : ℕ) (ops r : List OpCode)
      → parse_items depth items ops ≡ ok r
      → Adds (AreCode depth (length ops) items) ops r
  items_coded nil depth ops r e = ([], cc (append-nil ops), refl)
  items_coded (cons item items) depth ops r e =
      let (mid, p, q) =
        >>=-ok (parse_switch_case_bool depth item ops) (parse_items depth items) e in
      let (xs, mid_eq, first) = item_coded item depth ops mid p in
      let (ys, r_eq, others) = items_coded items depth mid r q in
      (
        xs ++ ys,
        r_eq ∙ ap (λ m. m ++ ys) mid_eq ∙ append_assoc ops xs ys,
        (
          xs,
          ys,
          refl,
          first,
          subst (λ k. AreCode depth k items ys) (ap length mid_eq ∙ length-append ops xs) others,
        ),
      )

-- If the parser accepts the items of a key match, whose lists all have an item, whose values are in
-- range and whose callbacks exist, then the evaluator ends on its opcodes without a panic, within
-- its fuel, with the truth of the case.
pub evaluate_boolean-parse_key_match :
    (i : Inputs) (items : Items) (ops : List OpCode)
    → AreProper i items
    → parse_key_match items ≡ ok ops
    → evaluate_boolean i ops ≡ value (case_holds i items)
unfolding parse_key_match
evaluate_boolean-parse_key_match i items ops pr e =
    let (code, same, coded) = items_coded items 1 [] ops e in
    evaluate_boolean-AreCode i items ops pr (subst (AreCode 1 0 items) (sym same) coded)
