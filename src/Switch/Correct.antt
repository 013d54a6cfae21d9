-- ===== src/Switch/Correct.antt =====
-- The evaluator over the opcodes of a parsed case computes what the case says.
use kanata.Base.{
  ℕ, zero, suc, ◌+◌, ◌*◌, ◌≤◌, ◌<◌, ◌≡◌, refl, ap, subst, ◌∙◌, arith, Bool, true, false, ◌⊎◌, inl,
  inr, List, [], ◌∷◌, some, length, length-append, get_elem?,
}
use kanata.Switch.OpCode.{OpCode, BooleanOperator, or, and, not, max_bool_expr_depth, new_bool}
use kanata.Switch.Condition.{Condition, InRange, opcodes}
use kanata.Switch.Eval.{Inputs, Eval, resolved_by_condition, flip, value, loop, evaluate_boolean}
use kanata.Switch.Parse.{Item, condition, group, Items, nil, cons}
use kanata.Switch.Meaning.{
  holds, item_holds, items_hold, case_holds, HasCallback, IsItems, IsProper, AreProper,
}
use kanata.Switch.Slice.{Slice, Slice-le, Slice-append, Slice-self, IsCode, AreCode}
use kanata.Switch.Machine.{
  Stack, state, loop-next, loop_stop, loop_more, step_condition, step_open, step-unwind,
}
use kanata.Switch.Resume.{Continues, after-Continues, group_left}

condition_run :
    (c : Condition) (f g : ℕ) (i : Inputs) (ops : List OpCode) (ret : Bool) (n m end : ℕ)
    (op : BooleanOperator) (stack : Stack) (w : OpCode) (ws : List OpCode) (b : Bool)
    → InRange c
    → HasCallback i c
    → opcodes c ≡ some (w ∷ ws)
    → Slice ops n (w ∷ ws)
    → m ≡ n + suc (length ws)
    → m ≤ end
    → Continues f i ops (holds i c) m end op stack b
    → f < g
    → loop g i ops (state ret n end op stack) ≡ value b
condition_run c f zero i ops ret n m end op stack w ws b r k e sl p q cont lt = absurd (omega arith)
condition_run c f (suc g) i ops ret n m end op stack w ws b r k e sl p q cont lt =
    let (t, stepped, rest) =
      after-Continues f i ops ret (holds i c) n (length ws) m end op stack b (omega arith) q cont in
    loop-next g i ops _ t
      (step_condition i ops (state ret n end op stack) c w ws r k sl e (omega arith) ∙ stepped)
    ∙ loop_more f g i ops t b (omega arith) rest

IsCode-pos :
    (depth base : ℕ) (item : Item) (code : List OpCode)
    → IsCode depth base item code
    → 0 < length code
unfolding IsCode
IsCode-pos depth base (condition c) code (w, ws, e, p) = rw e (omega arith)
IsCode-pos depth base (group op items) code (w, body, e, _, _, _) = rw e (omega arith)

-- The value over some items from the value of the first: it settles the operator, or the others do.
items_hold-settled :
    (i : Inputs) (op : BooleanOperator) (item : Item) (items : Items)
    → resolved_by_condition (flip op (item_holds i item)) op ≡ true
    → items_hold i op (cons item items) ≡ flip op (item_holds i item)
unfolding items_hold
items_hold-settled i or item items h = ground arith
items_hold-settled i and item items h = ground arith
items_hold-settled i not item items h = ground arith

items_hold-open :
    (i : Inputs) (op : BooleanOperator) (item : Item) (items : Items)
    → resolved_by_condition (flip op (item_holds i item)) op ≡ false
    → items_hold i op (cons item items) ≡ items_hold i op items
unfolding items_hold
items_hold-open i or item items h = ground arith
items_hold-open i and item items h = ground arith
items_hold-open i not item items h = ground arith

items_hold-last :
    (i : Inputs) (op : BooleanOperator) (item : Item)
    → items_hold i op (cons item nil) ≡ flip op (item_holds i item)
unfolding items_hold
items_hold-last i or item = ground arith
items_hold-last i and item = ground arith
items_hold-last i not item = ground arith

item_holds-condition : (i : Inputs) (c : Condition) → item_holds i (condition c) ≡ holds i c
unfolding item_holds
item_holds-condition i c = refl

item_holds-group :
    (i : Inputs) (op : BooleanOperator) (items : Items)
    → item_holds i (group op items) ≡ items_hold i op items
unfolding item_holds items_hold
item_holds-group i or items = refl
item_holds-group i and items = refl
item_holds-group i not items = refl

-- The parts of a group's code, and the run up to its first item.
group_entered :
    (f g : ℕ) (i : Inputs) (ops : List OpCode) (ret : Bool) (n m end : ℕ)
    (op inner : BooleanOperator) (stack : Stack) (w : OpCode) (b : Bool)
    → get_elem? ops n ≡ some w
    → n < length ops
    → n < end
    → new_bool inner m ≡ some w
    → length stack < max_bool_expr_depth
    → loop g i ops (state ret (suc n) m inner ((op, end) ∷ stack)) ≡ value b
    → loop (suc g) i ops (state ret n end op stack) ≡ value b
group_entered f g i ops ret n m end op inner stack w b h k lt e room rest =
    let next_place : n + 1 ≡ suc n = omega arith in
    loop-next g i ops _ _ (step_open i ops (state ret n end op stack) inner m w h k e lt room)
    ∙ (rw next_place rest)

AreCode-pos :
    (depth base : ℕ) (item : Item) (items : Items) (code : List OpCode)
    → AreCode depth base (cons item items) code
    → 0 < length code
unfolding IsCode
AreCode-pos depth base item items code (xs, ys, q, first, others) =
    let pos : 0 < length xs = IsCode-pos depth base item xs first in
    rw q (omega (arith, length-append xs ys))

-- An item that ends before the operator does is no reason to go to the end.
settling : {A : Type 0} {m end : ℕ} → A ⊎ (end ≤ m) → m < end → A
settling (inl a) h = a
settling (inr le) h = absurd (omega arith)

mutual
  unfolding IsCode IsProper

  item_run :
      (item : Item) (depth f g : ℕ) (i : Inputs) (ops : List OpCode) (ret : Bool) (n m end : ℕ)
      (op : BooleanOperator) (stack : Stack) (code : List OpCode) (b : Bool)
      → IsProper i item
      → IsCode depth n item code
      → Slice ops n code
      → m ≡ n + length code
      → m ≤ end
      → end ≤ length ops
      → length stack < depth
      → Continues f i ops (item_holds i item) m end op stack b
      → 2 * length code + f ≤ g
      → loop g i ops (state ret n end op stack) ≡ value b
  item_run (condition c) depth f g i ops ret n m end op stack code b pr (w, ws, q, p) sl e h k room
        cont fuel =
      condition_run c f g i ops ret n m end op stack w ws b pr.0 pr.1 (p ∙ ap some q)
        (subst (Slice ops n) q sl) (omega (arith, ap length q)) h
        (rw (item_holds-condition i c) at cont) (omega (arith, ap length q))
  item_run (group inner items) depth f zero i ops ret n m end op stack code b pr
        (w, body, q, fits, enc, inside) sl e h k room cont fuel =
      absurd (omega (arith, ap length q))
  item_run (group inner items) depth f (suc g) i ops ret n m end op stack code b pr
        (w, body, q, fits, enc, inside) sl e h k room cont fuel =
      let sl' : Slice ops n (w ∷ body) = subst (Slice ops n) q sl in
      let len : length code ≡ suc (length body) = ap length q in
      let le : n + suc (length body) ≤ length ops = Slice-le ops n (w ∷ body) sl' in
      group_entered f g i ops ret n m end op inner stack w b sl'.0 (omega arith) (omega arith)
        (rw e enc) (omega arith)
        (items_run items (suc depth) (suc f) g i ops ret (suc n) m inner ((op, end) ∷ stack) body b
          pr.0 pr.1 inside sl'.1 (omega arith) (omega arith) (omega arith)
          (group_left f i ops (items_hold i inner items) m end inner op stack b h k
            (rw (item_holds-group i inner items) at cont))
          (omega arith))

  items_run :
      (items : Items) (depth f g : ℕ) (i : Inputs) (ops : List OpCode) (ret : Bool) (n end : ℕ)
      (op : BooleanOperator) (stack : Stack) (code : List OpCode) (b : Bool)
      → IsItems items
      → AreProper i items
      → AreCode depth n items code
      → Slice ops n code
      → end ≡ n + length code
      → end ≤ length ops
      → length stack < depth
      → loop f i ops (state (items_hold i op items) end end op stack) ≡ value b
      → 2 * length code + f ≤ g
      → loop g i ops (state ret n end op stack) ≡ value b
  items_run nil depth f g i ops ret n end op stack code b is pr cd sl e k room rest fuel = absurd is
  items_run (cons item nil) depth f g i ops ret n end op stack code b is pr
        (xs, ys, q, first, none_left) sl e k room rest fuel =
      let len : length code ≡ length xs + length ys = ap length q ∙ length-append xs ys in
      let last : length ys ≡ 0 = ap length none_left in
      let sl' : Slice ops n xs = (Slice-append ops n _ xs ys refl (subst (Slice ops n) q sl)).0 in
      item_run item depth f g i ops ret n end end op stack xs b pr.0 first sl' (omega arith)
        (omega arith) k room
        ((λ _. rw (← items_hold-last i op item) rest), (λ _ lt _. absurd (omega arith)))
        (omega arith)
  items_run (cons item (cons item' items)) depth f g i ops ret n end op stack code b is pr
        (xs, ys, q, first, others) sl e k room rest fuel =
      let len : length code ≡ length xs + length ys = ap length q ∙ length-append xs ys in
      let (sl', sl'') = Slice-append ops n (n + length xs) xs ys refl (subst (Slice ops n) q sl) in
      let pos : 0 < length ys = AreCode-pos depth _ item' items ys others in
      item_run item depth (2 * length ys + f) g i ops ret n (n + length xs) end op stack xs b pr.0
        first sl' refl (omega arith) k room
        (
          (λ settled. loop_more f (2 * length ys + f) i ops _ b (omega arith) (
              rw
                (← items_hold-settled i op item (cons item' items) (settling settled (omega arith)))
                rest)),
          (λ unsettled lt ret'.
              items_run (cons item' items) depth f (2 * length ys + f) i ops ret' (n + length xs)
                end op stack ys b tt pr.1 others sl'' (omega arith) k room
                (rw (← items_hold-open i op item (cons item' items) unsettled) rest) (omega arith)),
        )
        (omega arith)

-- Fuel for a step into and out of each opcode, and one to stop, is enough for any coded case.
pub evaluate_boolean-AreCode :
    (i : Inputs) (items : Items) (ops : List OpCode)
    → AreProper i items
    → AreCode 1 0 items ops
    → evaluate_boolean i ops ≡ value (case_holds i items)
unfolding case_holds AreCode evaluate_boolean items_hold
evaluate_boolean-AreCode i nil ops pr cd = rw cd
evaluate_boolean-AreCode i (cons item items) ops pr cd =
    items_run (cons item items) 1 1 (2 * length ops + 1) i ops true 0 (length ops) or [] ops _ tt pr
      cd (Slice-self ops) (omega arith) (omega arith) (omega arith) (stops _) (omega arith)
  where
    stops : (v : Bool) → loop 1 i ops (state v (length ops) (length ops) or []) ≡ value v
    stops v =
        let s : Eval = state v (length ops) (length ops) or [] in
        loop_stop 0 i ops s v (step-unwind i ops s (omega arith))
