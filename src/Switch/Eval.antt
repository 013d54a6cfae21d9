-- ===== src/Switch/Eval.antt =====
-- keyberon/src/action/switch.rs, `evaluate_boolean`: the evaluator of a case's opcodes, as steps
-- of its loop over the variables that the loop keeps.
use kanata.Base.{
  ℕ, zero, suc, ◌+◌, ◌*◌, Bool, true, false, ◌||◌, not as negate, List, [], ◌∷◌, Option, none, some,
  KCoord, ltb, leb, ◌==◌, coord_eq, if◌then◌else◌, length, get_elem?, any,
}
use kanata.Switch.OpCode.{
  OpCode, OpCodeType, BooleanOperator, or, and, not, boolean_op, key_code, historical_key_code,
  input, historical_input, ticks_since_less_than, ticks_since_greater_than, layer, base_layer,
  historical_device, callback_index, max_bool_expr_depth, opcode_type,
}

-- layout.rs.
pub record HistoricalEvent {ℓ} (T : Type ℓ) : Type ℓ where
  pub event : T
  pub ticks_since_occurrence : ℕ

-- The arguments of `evaluate_boolean` other than the opcodes: what the iterators yield, and what
-- a call of each callback returns. A device identifier is `none` where no device is known.
pub record Inputs : Type 0 where
  pub key_codes : List ℕ
  pub inputs : List KCoord
  pub historical_keys : List (HistoricalEvent ℕ)
  pub historical_inputs : List (HistoricalEvent KCoord)
  pub layers : List ℕ
  pub default_layer : ℕ
  pub device_history : List (Option ℕ)
  pub callbacks : List Bool

-- `.nth(n).map(test).unwrap_or(false)`.
abbrev pub nth_is {ℓ} : {A : Type ℓ} → List A → ℕ → (A → Bool) → Bool
nth_is xs n test = elim (get_elem? xs n) [ none ↦ false | some x ↦ test x ]

abbrev pub is_device : ℕ → Option ℕ → Bool
is_device id none = false
is_device id (some d) = d == id

-- The value of a condition, and how many opcodes beyond the first it takes. `none` is a panic.
unfoldable pub condition_value : Inputs → OpCodeType → Option (Bool × ℕ)
condition_value i (boolean_op op idx) = none
condition_value i (key_code kc) = some (any (λ k. k == kc) i.key_codes, 0)
condition_value i (historical_key_code kc r) =
    some (nth_is i.historical_keys r (λ he. he.event == kc), 0)
condition_value i (ticks_since_less_than n t) =
    some (nth_is i.historical_keys n (λ he. leb he.ticks_since_occurrence t), 0)
condition_value i (ticks_since_greater_than n t) =
    some (nth_is i.historical_keys n (λ he. ltb t he.ticks_since_occurrence), 0)
condition_value i (input c) = some (any (λ k. coord_eq k c) i.inputs, 1)
condition_value i (historical_input c r) =
    some (nth_is i.historical_inputs r (λ he. coord_eq he.event c), 1)
condition_value i (layer l) = some (nth_is i.layers 0 (λ k. k == l), 1)
condition_value i (base_layer l) = some (i.default_layer == l, 1)
condition_value i (historical_device id r) = some (nth_is i.device_history r (is_device id), 1)
condition_value i (callback_index n) = elim (get_elem? i.callbacks n) [
  | none ↦ none
  | some b ↦ some (b, 1)
]

-- The loop's variables. The head of the list is the back of the stack.
pub record Eval : Type 0 where
  pub ret : Bool
  pub index : ℕ
  pub end : ℕ
  pub op : BooleanOperator
  pub stack : List (BooleanOperator × ℕ)

pub data Step : Type 0 where
  next : Eval → Step
  stop : Bool → Step
  panic : Step

-- The two `matches!`.
abbrev pub resolved_by_group : Bool → BooleanOperator → Bool
resolved_by_group true or = true
resolved_by_group true not = true
resolved_by_group true and = false
resolved_by_group false and = true
resolved_by_group false or = false
resolved_by_group false not = false

abbrev pub resolved_by_condition : Bool → BooleanOperator → Bool
resolved_by_condition true or = true
resolved_by_condition true and = false
resolved_by_condition true not = false
resolved_by_condition false or = false
resolved_by_condition false and = true
resolved_by_condition false not = true

-- `if current_op == Not { ret = !ret; }`.
abbrev pub flip : BooleanOperator → Bool → Bool
flip or b = b
flip and b = b
flip not b = negate b

-- The loop behind the main one.
abbrev pub unwind : List (BooleanOperator × ℕ) → Bool → Bool
unwind [] ret = ret
unwind ((op, idx) ∷ stack) ret = unwind stack (flip op ret)

-- Behind the `match` for a condition.
unfoldable pub after_condition : Eval → Bool × ℕ → Step
after_condition s (value, extra) =
    let ret = flip s.op value in
    if resolved_by_condition ret s.op
    then next (record s { ret = ret; index = s.end })
    else next (record s { ret = ret; index = s.index + extra + 1 })

-- The arm of `match` for the opcode that was read.
unfoldable pub dispatch : Inputs → Eval → Option OpCodeType → Step
dispatch i s none = panic
dispatch i s (some (boolean_op op idx)) =
    if ltb (length s.stack) max_bool_expr_depth
    then next
        (record s { op = op; end = idx; index = s.index + 1; stack = (s.op, s.end) ∷ s.stack })
    else panic
dispatch i s (some t) = elim (condition_value i t) [ none ↦ panic | some v ↦ after_condition s v ]

unfoldable pub read : Inputs → List OpCode → Eval → Step
read i bool_expr s = elim (get_elem? bool_expr s.index) [
  | none ↦ panic
  | some w ↦ dispatch i s (opcode_type w (get_elem? bool_expr (s.index + 1)))
]

-- A group has ended: its value goes to the operator around it.
unfoldable pub leave_group : Inputs → List OpCode → Eval → List (BooleanOperator × ℕ) → Step
leave_group i bool_expr s [] = stop s.ret
leave_group i bool_expr s ((op, end) ∷ stack) =
    let t = record s { op = op; end = end; stack = stack } in
    if resolved_by_group s.ret op || leb end s.index
    then next (record t { ret = flip op s.ret; index = end })
    else read i bool_expr t

unfoldable pub step : Inputs → List OpCode → Eval → Step
step i bool_expr s =
    if ltb s.index (length bool_expr)
    then (if leb s.end s.index then leave_group i bool_expr s s.stack else read i bool_expr s)
    else stop (unwind s.stack s.ret)

pub data Verdict : Type 0 where
  value : Bool → Verdict
  panicked : Verdict
  out_of_fuel : Verdict

unfoldable pub loop : ℕ → Inputs → List OpCode → Eval → Verdict
loop zero i bool_expr s = out_of_fuel
loop (suc fuel) i bool_expr s = elim (step i bool_expr s) [
  | next t ↦ loop fuel i bool_expr t
  | stop b ↦ value b
  | panic ↦ panicked
]

abbrev pub start : ℕ → Eval
start len = record { ret = true; index = 0; end = len; op = or; stack = [] }

-- Each opcode costs at most a step to enter it and one to leave it.
unfoldable pub evaluate_boolean : Inputs → List OpCode → Verdict
unfolding loop step leave_group read dispatch after_condition
evaluate_boolean i bool_expr =
    let len = length bool_expr in loop (2 * len + 1) i bool_expr (start len)
