-- ===== src/Switch/Resume.antt =====
-- What a run needs of its rest when an item has its value, and that it is enough for a condition
-- and for a group.
use kanata.Base.{
  ℕ, zero, suc, ◌+◌, ◌≤◌, ◌<◌, ◌≡◌, refl, sym, ◌∙◌, arith, Bool, true, false, ◌⊎◌, inl, inr, List,
  ◌∷◌, length, Bool-cases,
}
use native.Mathlib.Decide.{dec_lt}
use kanata.Switch.OpCode.{OpCode, BooleanOperator, or, and, not}
use kanata.Switch.Eval.{
  Inputs, Eval, next, resolved_by_group, resolved_by_condition, flip, after_condition, value, loop,
}
use kanata.Switch.Machine.{
  Stack, state, loop-next, loop_stop, loop_more, loop_same, step_leave_settled, step_leave_open,
  step-unwind,
}

-- What the rest of the run has to give, for the value `v` of an item that ends at `m`: the
-- operator's end is next where that settles it or no item is left, the next item otherwise.
abbrev pub Continues :
    ℕ → Inputs → List OpCode → Bool → ℕ → ℕ → BooleanOperator → Stack → Bool → Type 0
Continues f i ops v m end op stack b =
    ((resolved_by_condition (flip op v) op ≡ true) ⊎ (end ≤ m)
      → loop f i ops (state (flip op v) end end op stack) ≡ value b)
    × (resolved_by_condition (flip op v) op ≡ false
        → m < end
        → (ret : Bool) → loop f i ops (state ret m end op stack) ≡ value b)

pub after-Continues :
    (f : ℕ) (i : Inputs) (ops : List OpCode) (ret v : Bool) (n k m end : ℕ) (op : BooleanOperator)
    (stack : Stack) (b : Bool)
    → m ≡ n + k + 1
    → m ≤ end
    → Continues f i ops v m end op stack b
    → (t : Eval) × (after_condition (state ret n end op stack) (v, k) ≡ next t)
      × (loop f i ops t ≡ value b)
unfolding after_condition
after-Continues f i ops ret v n k m end op stack b e h c =
    elim (Bool-cases (resolved_by_condition (flip op v) op)) [
      | inl settled ↦ (state (flip op v) end end op stack, rw settled, c.0 (inl settled))
      | inr open_ ↦ (
        state (flip op v) m end op stack,
        rw (open_, e),
        elim (dec_lt m end) [
          | yes lt ↦ c.1 open_ lt (flip op v)
          | no ge ↦ (let same : m ≡ end = omega arith in rw same (c.0 (inr (omega arith))))
        ],
      )
    ]

settled_by :
    (r : Bool) (op : BooleanOperator)
    → resolved_by_group r op ≡ resolved_by_condition (flip op r) op
settled_by true or = refl
settled_by true and = refl
settled_by true not = refl
settled_by false or = refl
settled_by false and = refl
settled_by false not = refl

-- A group that ends within the case.
left_inside :
    (f : ℕ) (i : Inputs) (ops : List OpCode) (r : Bool) (m end : ℕ) (inner op : BooleanOperator)
    (stack : Stack) (b : Bool)
    → m < length ops
    → Continues f i ops r m end op stack b
    → (resolved_by_group r op ≡ true) ⊎ (end ≤ m) ⊎ ((resolved_by_group r op ≡ false) × (m < end))
    → loop (suc f) i ops (state r m m inner ((op, end) ∷ stack)) ≡ value b
left_inside f i ops r m end inner op stack b h c (inl settled) =
    loop-next f i ops _ _ (step_leave_settled i ops r m inner op end stack h (inl settled))
    ∙ c.0 (inl (sym (settled_by r op) ∙ settled))
left_inside f i ops r m end inner op stack b h c (inr (inl last)) =
    loop-next f i ops _ _ (step_leave_settled i ops r m inner op end stack h (inr last))
    ∙ c.0 (inr last)
left_inside f i ops r m end inner op stack b h c (inr (inr (unsettled, lt))) =
    loop_same f i ops _ _ (step_leave_open i ops r m inner op end stack h unsettled lt)
    ∙ loop_more f (suc f) i ops _ b (omega arith) (c.1 (sym (settled_by r op) ∙ unsettled) lt r)

-- One that ends with the case: the loop stops, and the operators left over are unwound.
left_at_end :
    (f : ℕ) (i : Inputs) (ops : List OpCode) (r : Bool) (m end : ℕ) (inner op : BooleanOperator)
    (stack : Stack) (b : Bool)
    → length ops ≤ m
    → end ≤ m
    → m ≤ end
    → Continues f i ops r m end op stack b
    → loop (suc f) i ops (state r m m inner ((op, end) ∷ stack)) ≡ value b
left_at_end zero i ops r m end inner op stack b h k l c = absurd (unfold loop in cc (c.0 (inr k)))
left_at_end (suc f) i ops r m end inner op stack b h k l c =
    loop_stop (suc f) i ops _ _ (step-unwind i ops (state r m m inner ((op, end) ∷ stack)) h)
    ∙ sym (
        loop_stop f i ops _ _
          (step-unwind i ops (state (flip op r) end end op stack) (omega arith)))
    ∙ c.0 (inr k)

pub group_left :
    (f : ℕ) (i : Inputs) (ops : List OpCode) (r : Bool) (m end : ℕ) (inner op : BooleanOperator)
    (stack : Stack) (b : Bool)
    → m ≤ end
    → end ≤ length ops
    → Continues f i ops r m end op stack b
    → loop (suc f) i ops (state r m m inner ((op, end) ∷ stack)) ≡ value b
group_left f i ops r m end inner op stack b h k c = elim (dec_lt m (length ops)) [
  | yes inside ↦ left_inside f i ops r m end inner op stack b inside c (ground arith)
  | no outside ↦ left_at_end f i ops r m end inner op stack b (omega arith) (omega arith) h c
]
