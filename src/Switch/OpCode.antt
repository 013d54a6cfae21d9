-- ===== src/Switch/OpCode.antt =====
-- keyberon/src/action/switch.rs: the encoding of a condition in one or two 16-bit opcodes, and
-- its interpretation. A failed `assert!`, `expect` or `unreachable!` is `none`.
-- `x & m` with a mask of low bits is written as a remainder, `x >> k` as a division.
use kanata.Base.{
  ℕ, ◌+◌, ◌*◌, ◌/◌, ◌%◌, ◌^◌, bit_or, Bool, ◌&&◌, Option, none, some, KCoord, ltb, leb, ◌==◌,
  if◌then◌else◌, u8,
}
use kanata.Switch.Ticks.{lossy_compress_ticks, lossy_decompress_ticks}

abbrev pub max_opcode_len : ℕ
max_opcode_len = 0x0FFF

abbrev pub max_bool_expr_depth : ℕ
max_bool_expr_depth = 8

abbrev pub max_key_recency : ℕ
max_key_recency = 7

-- key_code.rs and layout.rs.
abbrev pub key_max : ℕ
key_max = 850

abbrev pub max_layers : ℕ
max_layers = 60000

abbrev or_val : ℕ
or_val = 0x1000

abbrev and_val : ℕ
and_val = 0x2000

abbrev not_val : ℕ
not_val = 0x3000

abbrev input_val : ℕ
input_val = 851

abbrev historical_input_val : ℕ
historical_input_val = 852

abbrev layer_val : ℕ
layer_val = 853

abbrev base_layer_val : ℕ
base_layer_val = 854

abbrev historical_device_val : ℕ
historical_device_val = 855

abbrev callback_index_val : ℕ
callback_index_val = 856

abbrev ticks_since_val_gt : ℕ
ticks_since_val_gt = 0x4000

abbrev ticks_since_val_lt : ℕ
ticks_since_val_lt = 0x6000

abbrev historical_keycode_val : ℕ
historical_keycode_val = 0x8000

pub data BooleanOperator : Type 0 where
  or and not : BooleanOperator

-- The `u16` of an opcode.
abbrev pub OpCode : Type 0
OpCode = ℕ

-- The source's `OperatorAndEndIndex`, `HistoricalKeyCode`, `HistoricalInput`, `TicksSinceNthKey`
-- and `HistoricalDevice` are the arguments of their constructors, in the order of their fields.
pub data OpCodeType : Type 0 where
  boolean_op : BooleanOperator → ℕ → OpCodeType
  key_code : ℕ → OpCodeType
  historical_key_code : ℕ → ℕ → OpCodeType
  input : KCoord → OpCodeType
  historical_input : KCoord → ℕ → OpCodeType
  ticks_since_less_than : ℕ → ℕ → OpCodeType
  ticks_since_greater_than : ℕ → ℕ → OpCodeType
  layer : ℕ → OpCodeType
  base_layer : ℕ → OpCodeType
  historical_device : ℕ → ℕ → OpCodeType
  callback_index : ℕ → OpCodeType

unfoldable pub to_u16 : BooleanOperator → ℕ
to_u16 or = or_val
to_u16 and = and_val
to_u16 not = not_val

abbrev assert {ℓ} : {A : Type ℓ} → Bool → A → Option A
assert b x = if b then some x else none

unfoldable pub new_key : ℕ → Option OpCode
new_key kc = assert (leb kc key_max) (kc % 0x1000)

unfoldable pub new_key_history : ℕ → ℕ → Option OpCode
new_key_history kc key_recency =
    assert (leb kc max_opcode_len && leb key_recency max_key_recency)
      (bit_or (bit_or (kc % 0x1000) historical_keycode_val) (key_recency * 2 ^ 12))

unfoldable pub new_ticks_since_gt : ℕ → ℕ → Option OpCode
new_ticks_since_gt nth_key ticks_since =
    assert (leb nth_key max_key_recency)
      (bit_or (bit_or ticks_since_val_gt (lossy_compress_ticks ticks_since)) (nth_key * 2 ^ 10))

unfoldable pub new_ticks_since_lt : ℕ → ℕ → Option OpCode
new_ticks_since_lt nth_key ticks_since =
    assert (leb nth_key max_key_recency)
      (bit_or (bit_or ticks_since_val_lt (lossy_compress_ticks ticks_since)) (nth_key * 2 ^ 10))

unfoldable pub new_bool : BooleanOperator → ℕ → Option OpCode
unfolding to_u16
new_bool op end_idx = assert (leb end_idx max_opcode_len) (end_idx % 0x1000 + to_u16 op)

unfoldable pub new_active_input : KCoord → Option (OpCode × OpCode)
new_active_input (i, j) = assert (ltb i 4 && ltb j 0x0400) (input_val, i % 4 * 2 ^ 14 + j)

unfoldable pub new_historical_input : KCoord → ℕ → Option (OpCode × OpCode)
new_historical_input (i, j) key_recency =
    assert (ltb i 4 && ltb j 0x0400 && ltb key_recency 8)
      (historical_input_val, i % 4 * 2 ^ 14 + key_recency * 2 ^ 11 + j)

unfoldable pub new_layer : ℕ → Option (OpCode × OpCode)
new_layer l = assert (ltb l max_layers) (layer_val, l)

unfoldable pub new_base_layer : ℕ → Option (OpCode × OpCode)
new_base_layer l = assert (ltb l max_layers) (base_layer_val, l)

-- `id` is a `NonZeroU8`.
unfoldable pub new_device_history : ℕ → ℕ → Option (OpCode × OpCode)
new_device_history id how_far_back =
    assert (leb how_far_back max_key_recency)
      (historical_device_val, bit_or id (how_far_back * 2 ^ 8))

unfoldable pub new_callback_index : ℕ → OpCode × OpCode
new_callback_index index = (callback_index_val, index)

-- `OperatorAndEndIndex::from`.
unfoldable pub operator_and_end_index : ℕ → Option OpCodeType
operator_and_end_index value =
    let op = value / 2 ^ 12 * 2 ^ 12 in
    let idx = value % 0x1000 in
    if op == or_val
    then some (boolean_op or idx)
    else if op == and_val
    then some (boolean_op and idx)
    else if op == not_val
    then some (boolean_op not idx)
    else none

-- The second opcode of a condition that takes two.
two_words : OpCode → OpCode → Option OpCodeType
two_words op1 op2 =
    if op1 == input_val
    then some (input (op2 / 2 ^ 14 % 4, op2 % 0x400))
    else if op1 == historical_input_val
    then some (historical_input (op2 / 2 ^ 14 % 4, op2 % 0x400) (u8 (op2 / 2 ^ 11) % 8))
    else if op1 == layer_val
    then some (layer op2)
    else if op1 == base_layer_val
    then some (base_layer op2)
    else if op1 == historical_device_val
    then (if op2 % 0x100 == 0
        then none
        else some (historical_device (op2 % 0x100) (op2 / 2 ^ 8 % 8)))
    else if op1 == callback_index_val
    then some (callback_index op2)
    else none

unfoldable pub opcode_type : OpCode → Option OpCode → Option OpCodeType
unfolding two_words operator_and_end_index lossy_decompress_ticks
opcode_type op next =
    if ltb op key_max
    then some (key_code op)
    else if leb op max_opcode_len
    then elim next [ none ↦ none | some op2 ↦ two_words op op2 ]
    else (let kind = op / 2 ^ 13 * 2 ^ 13 in
        let nth_key = op / 2 ^ 10 % 8 in
        let ticks = lossy_decompress_ticks (op % 0x400) in
        if kind == ticks_since_val_lt
        then some (ticks_since_less_than nth_key ticks)
        else if kind == ticks_since_val_gt
        then some (ticks_since_greater_than nth_key ticks)
        else if leb 0x8000 kind && leb kind 0xF000
        then some (historical_key_code (op % 0x1000) (op / 2 ^ 12 % 8))
        else operator_and_end_index op)
