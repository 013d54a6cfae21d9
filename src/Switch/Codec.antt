-- ===== src/Switch/Codec.antt =====
-- The interpretation of an opcode gives back the condition that it was made for.
use kanata.Base.{ℕ, ◌+◌, ◌*◌, ◌%◌, ◌^◌, ◌≤◌, ◌<◌, ◌≡◌, arith, bit_or, Option, some}
use kanata.Base.Bits.{bit_or_high, bit_or_over, zero-bit_or}
use kanata.Switch.Ticks.{lossy_compress_ticks, lossy_decompress_ticks, lossy_compress_ticks-lt}
use kanata.Switch.OpCode.{
  OpCode, BooleanOperator, or, boolean_op, key_code, historical_key_code, input, historical_input,
  ticks_since_less_than, ticks_since_greater_than, layer, base_layer, historical_device,
  callback_index, key_max, new_key, new_key_history, new_ticks_since_gt, new_ticks_since_lt,
  new_bool, new_active_input, new_historical_input, new_layer, new_base_layer, new_device_history,
  new_callback_index, opcode_type,
}

pub bool_round :
    (op : BooleanOperator) (idx : ℕ) (next : Option OpCode) {c : OpCode}
    → new_bool op idx ≡ some c
    → opcode_type c next ≡ some (boolean_op op idx)
unfolding new_bool opcode_type
bool_round or idx next e = ground arith
bool_round _ idx next e = ground arith

pub key_round :
    (kc : ℕ) (next : Option OpCode) {c : OpCode}
    → kc < key_max
    → new_key kc ≡ some c
    → opcode_type c next ≡ some (key_code kc)
unfolding new_key opcode_type
key_round kc next h e = ground arith

pub input_round :
    (i j : ℕ) {c d : OpCode}
    → new_active_input (i, j) ≡ some (c, d)
    → opcode_type c (some d) ≡ some (input (i, j))
unfolding new_active_input opcode_type
input_round i j e = ground arith

pub historical_input_round :
    (i j r : ℕ) {c d : OpCode}
    → new_historical_input (i, j) r ≡ some (c, d)
    → opcode_type c (some d) ≡ some (historical_input (i, j) r)
unfolding new_historical_input opcode_type
historical_input_round i j r e = ground arith

pub layer_round :
    (l : ℕ) {c d : OpCode} → new_layer l ≡ some (c, d) → opcode_type c (some d) ≡ some (layer l)
unfolding new_layer opcode_type
layer_round l e = ground arith

pub base_layer_round :
    (l : ℕ) {c d : OpCode}
    → new_base_layer l ≡ some (c, d)
    → opcode_type c (some d) ≡ some (base_layer l)
unfolding new_base_layer opcode_type
base_layer_round l e = ground arith

-- The three fields of a history condition, each in its bits.
key_history_sum :
    (kc r : ℕ)
    → kc ≤ 4095
    → r ≤ 7
    → bit_or (bit_or (kc % 0x1000) 0x8000) (r * 2 ^ 12) ≡ (8 + r) * 4096 + kc
key_history_sum kc r h k =
    ground (arith, bit_or_over 12 0 8 kc, bit_or_over 12 8 r kc, bit_or_high 3 1 r, zero-bit_or 8)

pub key_history_round :
    (kc r : ℕ) (next : Option OpCode) {c : OpCode}
    → new_key_history kc r ≡ some c
    → opcode_type c next ≡ some (historical_key_code kc r)
unfolding new_key_history opcode_type
key_history_round kc r next e = ground (arith, key_history_sum kc r)

ticks_sum :
    (v c n : ℕ)
    → c < 1024
    → n ≤ 7
    → bit_or (bit_or (v * 2 ^ 13) c) (n * 2 ^ 10) ≡ v * 8192 + n * 1024 + c
ticks_sum v c n h k =
    ground (arith, bit_or_high 10 (v * 8) c, bit_or_over 10 (v * 8) n c, bit_or_high 3 v n)

-- A timing condition reads back the ticks as they were stored.
abbrev pub stored : ℕ → ℕ
stored t = lossy_decompress_ticks (lossy_compress_ticks t)

pub ticks_since_gt_round :
    (n t : ℕ) (next : Option OpCode) {c : OpCode}
    → t < 65536
    → new_ticks_since_gt n t ≡ some c
    → opcode_type c next ≡ some (ticks_since_greater_than n (stored t))
unfolding new_ticks_since_gt opcode_type
ticks_since_gt_round n t next h e =
    let z = lossy_compress_ticks t in ground (arith, ticks_sum 2 z n, lossy_compress_ticks-lt t)

pub ticks_since_lt_round :
    (n t : ℕ) (next : Option OpCode) {c : OpCode}
    → t < 65536
    → new_ticks_since_lt n t ≡ some c
    → opcode_type c next ≡ some (ticks_since_less_than n (stored t))
unfolding new_ticks_since_lt opcode_type
ticks_since_lt_round n t next h e =
    let z = lossy_compress_ticks t in ground (arith, ticks_sum 3 z n, lossy_compress_ticks-lt t)

device_sum : (id r : ℕ) → id < 256 → bit_or id (r * 2 ^ 8) ≡ r * 256 + id
device_sum id r h = ground (arith, bit_or_over 8 0 r id, zero-bit_or r)

pub device_history_round :
    (id r : ℕ) {c d : OpCode}
    → 0 < id
    → id < 256
    → new_device_history id r ≡ some (c, d)
    → opcode_type c (some d) ≡ some (historical_device id r)
unfolding new_device_history opcode_type
device_history_round id r h k e = ground (arith, device_sum id r)

pub callback_round :
    (index : ℕ) {c d : OpCode}
    → new_callback_index index ≡ (c, d)
    → opcode_type c (some d) ≡ some (callback_index index)
unfolding new_callback_index opcode_type
callback_round index e = ground arith
