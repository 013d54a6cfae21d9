-- ===== src/Switch/Machine.antt =====
-- Single steps of the evaluator: reading a condition, entering and leaving a group, the end.
use kanata.Base.{
  ℕ, zero, suc, ◌+◌, ◌≤◌, ◌<◌, ◌≡◌, refl, sym, ◌∙◌, arith, Bool, true, false, ◌⊎◌, inl, inr, List,
  ◌∷◌, some, length, get_elem?,
}
use kanata.Switch.OpCode.{OpCode, BooleanOperator, max_bool_expr_depth, opcode_type, new_bool}
use kanata.Switch.Codec.{bool_round}
use kanata.Switch.Condition.{Condition, InRange, opcodes}
use kanata.Switch.Eval.{
  Inputs, Eval, Step, next, stop, panic, resolved_by_group, flip, unwind, after_condition, dispatch,
  read, leave_group, step, value, panicked, loop,
}
use kanata.Switch.Meaning.{holds, HasCallback, dispatch-interpretation}
use kanata.Switch.Slice.{Slice, Slice-le, condition_read}

Step-cases : (r : Step) → ((t : Eval) × (r ≡ next t)) ⊎ ((b : Bool) × (r ≡ stop b)) ⊎ (r ≡ panic)
Step-cases (next t) = inl (t, refl)
Step-cases (stop b) = inr (inl (b, refl))
Step-cases panic = inr (inr refl)

pub loop-next :
    (f : ℕ) (i : Inputs) (ops : List OpCode) (s t : Eval)
    → step i ops s ≡ next t
    → loop (suc f) i ops s ≡ loop f i ops t
unfolding loop
loop-next f i ops s t e = rw (e, loop)

pub loop_stop :
    (f : ℕ) (i : Inputs) (ops : List OpCode) (s : Eval) (b : Bool)
    → step i ops s ≡ stop b
    → loop (suc f) i ops s ≡ value b
unfolding loop
loop_stop f i ops s b e = rw (e, loop)

pub loop_panic :
    (f : ℕ) (i : Inputs) (ops : List OpCode) (s : Eval)
    → step i ops s ≡ panic
    → loop (suc f) i ops s ≡ panicked
unfolding loop
loop_panic f i ops s e = rw (e, loop)

-- More fuel does not change a result.
pub loop_more :
    (f g : ℕ) (i : Inputs) (ops : List OpCode) (s : Eval) (b : Bool)
    → f ≤ g
    → loop f i ops s ≡ value b
    → loop g i ops s ≡ value b
loop_more zero g i ops s b h e = absurd (unfold loop in cc)
loop_more (suc f) zero i ops s b h e = absurd (omega arith)
loop_more (suc f) (suc g) i ops s b h e = elim (Step-cases (step i ops s)) [
  | inl (t, p) ↦
      loop-next g i ops s t p
      ∙ loop_more f g i ops t b (omega arith) (sym (loop-next f i ops s t p) ∙ e)
  | inr (inl (v, p)) ↦ loop_stop g i ops s v p ∙ sym (loop_stop f i ops s v p) ∙ e
  | inr (inr p) ↦ cc (loop_panic f i ops s p)
]

abbrev at : Bool → ℕ → Eval → Eval
at ret index s = record s { ret = ret; index = index }

pub step_read :
    (i : Inputs) (ops : List OpCode) (s : Eval) (w : OpCode)
    → get_elem? ops s.index ≡ some w
    → s.index < length ops
    → s.index < s.end
    → step i ops s ≡ dispatch i s (opcode_type w (get_elem? ops (s.index + 1)))
unfolding step read
step_read i ops s w h b lt = ground arith

-- Reading a condition.
pub step_condition :
    (i : Inputs) (ops : List OpCode) (s : Eval) (c : Condition) (w : OpCode) (ws : List OpCode)
    → InRange c
    → HasCallback i c
    → Slice ops s.index (w ∷ ws)
    → opcodes c ≡ some (w ∷ ws)
    → s.index < s.end
    → step i ops s ≡ after_condition s (holds i c, length ws)
step_condition i ops s c w ws r k h e lt =
    let (t, len) = condition_read ops s.index c w ws r h e in
    let bound : s.index < length ops = omega (arith, Slice-le ops s.index (w ∷ ws) h) in
    step_read i ops s w h.0 bound lt ∙ (rw (t, len) (dispatch-interpretation i s c k))

-- Entering a group.
pub step_open :
    (i : Inputs) (ops : List OpCode) (s : Eval) (op : BooleanOperator) (idx : ℕ) (w : OpCode)
    → get_elem? ops s.index ≡ some w
    → s.index < length ops
    → new_bool op idx ≡ some w
    → s.index < s.end
    → length s.stack < max_bool_expr_depth
    → step i ops s
      ≡ next (record s { op = op; end = idx; index = s.index + 1; stack = (s.op, s.end) ∷ s.stack })
unfolding dispatch
step_open i ops s op idx w h b e lt room =
    step_read i ops s w h b lt
    ∙ (rw (bool_round op idx (get_elem? ops (s.index + 1)) e) (ground arith))

abbrev pub Stack : Type 0
Stack = List (BooleanOperator × ℕ)

abbrev pub state : Bool → ℕ → ℕ → BooleanOperator → Stack → Eval
state ret index end op stack = record {
  ret = ret;
  index = index;
  end = end;
  op = op;
  stack = stack;
}

-- Leaving a group with the value `r` at its end `n`, within the case: the value goes to the
-- operator around the group, and that settles it or the next item is read.
pub step_leave_settled :
    (i : Inputs) (ops : List OpCode) (r : Bool) (n : ℕ) (inner op : BooleanOperator) (end : ℕ)
    (stack : Stack)
    → n < length ops
    → (resolved_by_group r op ≡ true) ⊎ (end ≤ n)
    → step i ops (state r n n inner ((op, end) ∷ stack)) ≡ next (state (flip op r) end end op stack)
unfolding step leave_group
step_leave_settled i ops r n inner op end stack b settled = ground arith

pub step_leave_open :
    (i : Inputs) (ops : List OpCode) (r : Bool) (n : ℕ) (inner op : BooleanOperator) (end : ℕ)
    (stack : Stack)
    → n < length ops
    → resolved_by_group r op ≡ false
    → n < end
    → step i ops (state r n n inner ((op, end) ∷ stack)) ≡ step i ops (state r n end op stack)
unfolding step leave_group
step_leave_open i ops r n inner op end stack b unsettled more = ground arith

pub step-unwind :
    (i : Inputs) (ops : List OpCode) (s : Eval)
    → length ops ≤ s.index
    → step i ops s ≡ stop (unwind s.stack s.ret)
unfolding step
step-unwind i ops s h = ground arith

pub loop_same :
    (f : ℕ) (i : Inputs) (ops : List OpCode) (s t : Eval)
    → step i ops s ≡ step i ops t
    → loop (suc f) i ops s ≡ loop (suc f) i ops t
unfolding loop
loop_same f i ops s t e = rw (e, loop)
