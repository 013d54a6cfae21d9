-- ===== src/Switch/Parse.antt =====
-- parser/src/cfg/switch.rs, `parse_switch_case_bool`: the opcodes of a case. An item of a case is
-- given with its names and numbers looked up, a list with its operator.
use kanata.Base.{
  ℕ, suc, List, [], ◌∷◌, ◌++◌, Option, none, some, ltb, if◌then◌else◌, u16, length, set,
}
use kanata.Switch.OpCode.{OpCode, BooleanOperator, max_opcode_len, max_bool_expr_depth, new_bool}
use kanata.Switch.Condition.{Condition, opcodes}

mutual
  pub data Item : Type 0 where
    condition : Condition → Item
    group : BooleanOperator → Items → Item

  pub data Items : Type 0 where
    nil : Items
    cons : Item → Items → Items

pub data ParseError : Type 0 where
  size_exceeded depth_exceeded length_exceeded : ParseError
  panicked : ParseError

pub data Parsed {ℓ} (A : Type ℓ) : Type ℓ where
  ok : A → Parsed A
  err : ParseError → Parsed A

infixl 5 ◌>>=◌
abbrev pub ◌>>=◌ {ℓ κ} : {A : Type ℓ} {B : Type κ} → Parsed A → (A → Parsed B) → Parsed B
ok a >>= f = f a
err e >>= f = err e

-- A failed `assert!`.
abbrev pub or_panic {ℓ} : {A : Type ℓ} → Option A → Parsed A
or_panic none = err panicked
or_panic (some a) = ok a

-- The two tests at the head of the function.
unfoldable pub guards : ℕ → List OpCode → Parsed (List OpCode)
guards depth ops =
    if ltb max_opcode_len (length ops)
    then err size_exceeded
    else if ltb max_bool_expr_depth depth
    then err depth_exceeded
    else ok ops

-- `ops.push` or `ops.extend` of a condition's opcodes.
unfoldable pub push_condition : Condition → List OpCode → Parsed (List OpCode)
push_condition c ops = or_panic (opcodes c) >>= λ ws. ok (ops ++ ws)

-- The placeholder of a group.
unfoldable pub open_group : BooleanOperator → List OpCode → Parsed (List OpCode)
open_group op ops = or_panic (new_bool op (u16 (length ops))) >>= λ w. ok (ops ++ w ∷ [])

-- The group's end is known: the placeholder at `at` is replaced.
unfoldable pub close_group : BooleanOperator → ℕ → List OpCode → Parsed (List OpCode)
close_group op at ops =
    if ltb max_opcode_len (length ops)
    then err length_exceeded
    else (or_panic (new_bool op (u16 (length ops))) >>= λ w. ok (set ops at w))

unfoldable mutual
  unfolding guards push_condition open_group close_group

  pub parse_switch_case_bool : ℕ → Item → List OpCode → Parsed (List OpCode)
  parse_switch_case_bool depth (condition c) ops = guards depth ops >>= push_condition c
  parse_switch_case_bool depth (group op items) ops = do
    ops ← guards depth ops
    opened ← open_group op ops
    inner ← parse_items (suc depth) items opened
    close_group op (u16 (length ops)) inner

  pub parse_items : ℕ → Items → List OpCode → Parsed (List OpCode)
  parse_items depth nil ops = ok ops
  parse_items depth (cons item items) ops =
      parse_switch_case_bool depth item ops >>= parse_items depth items

-- The loop of `parse_switch` over the items of a case's key match.
unfoldable pub parse_key_match : Items → Parsed (List OpCode)
unfolding parse_items
parse_key_match items = parse_items 1 items []
