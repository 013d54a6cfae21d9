-- ===== src/Switch/Condition.antt =====
-- The conditions of a `switch` case as parser/src/cfg/switch.rs takes them, names and numbers
-- already looked up: the opcodes that each arm of `parse_switch_case_bool` makes for them.
use kanata.Base.{
  ℕ, ◌<◌, ◌≡◌, refl, arith, List, [], ◌∷◌, ◌++◌, Option, none, some, KCoord, length, get_elem?,
}
use mathlib.Core.Option
use kanata.Switch.Ticks.{lossy_compress_ticks, lossy_decompress_ticks}
use kanata.Switch.OpCode.{
  OpCode, OpCodeType, key_code, historical_key_code, ticks_since_less_than,
  ticks_since_greater_than, historical_input, historical_device, callback_index, key_max, new_key,
  new_key_history, new_ticks_since_gt, new_ticks_since_lt, new_active_input, new_historical_input,
  new_layer, new_base_layer, new_device_history, new_callback_index, opcode_type,
}
use kanata.Switch.Codec.{
  key_round, key_history_round, ticks_since_gt_round, ticks_since_lt_round, input_round,
  historical_input_round, layer_round, base_layer_round, device_history_round, callback_round,
}

-- The recencies count from 0, as they stand after the parser's `- 1`.
pub data Condition : Type 0 where
  key : ℕ → Condition
  key_history : ℕ → ℕ → Condition
  key_timing_lt : ℕ → ℕ → Condition
  key_timing_gt : ℕ → ℕ → Condition
  input : KCoord → Condition
  input_history : KCoord → ℕ → Condition
  layer : ℕ → Condition
  base_layer : ℕ → Condition
  device_history : ℕ → ℕ → Condition
  cmd_exit : ℕ → Condition

abbrev one : Option OpCode → Option (List OpCode)
one = Option.map λ c. c ∷ []

abbrev two : Option (OpCode × OpCode) → Option (List OpCode)
two = Option.map λ p. p.0 ∷ p.1 ∷ []

unfoldable pub opcodes : Condition → Option (List OpCode)
opcodes (key kc) = one (new_key kc)
opcodes (key_history kc r) = one (new_key_history kc r)
opcodes (key_timing_lt n t) = one (new_ticks_since_lt n t)
opcodes (key_timing_gt n t) = one (new_ticks_since_gt n t)
opcodes (input c) = two (new_active_input c)
opcodes (input_history c r) = two (new_historical_input c r)
opcodes (layer l) = two (new_layer l)
opcodes (base_layer l) = two (new_base_layer l)
opcodes (device_history id r) = two (new_device_history id r)
opcodes (cmd_exit index) = two (some (new_callback_index index))

-- The values that the Rust types and the parser's lookups allow: a `KeyCode` is below `KEY_MAX`,
-- ticks are a `u16`, a device identifier is a `NonZeroU8`.
abbrev pub InRange : Condition → Type 0
InRange (key kc) = kc < key_max
InRange (key_history kc r) = kc < key_max
InRange (key_timing_lt n t) = t < 65536
InRange (key_timing_gt n t) = t < 65536
InRange (device_history id r) = (0 < id) × (id < 256)
InRange _ = Unit {0}

-- What the evaluator should read back. Ticks come back with the loss of their storage.
unfoldable pub interpretation : Condition → OpCodeType
interpretation (key kc) = key_code kc
interpretation (key_history kc r) = historical_key_code kc r
interpretation (key_timing_lt n t) =
    ticks_since_less_than n (lossy_decompress_ticks (lossy_compress_ticks t))
interpretation (key_timing_gt n t) =
    ticks_since_greater_than n (lossy_decompress_ticks (lossy_compress_ticks t))
interpretation (input c) = OpCodeType.input c
interpretation (input_history c r) = historical_input c r
interpretation (layer l) = OpCodeType.layer l
interpretation (base_layer l) = OpCodeType.base_layer l
interpretation (device_history id r) = historical_device id r
interpretation (cmd_exit index) = callback_index index

-- How many opcodes after its first a condition takes.
unfoldable pub extra : Condition → ℕ
extra (key kc) = 0
extra (key_history kc r) = 0
extra (key_timing_lt n t) = 0
extra (key_timing_gt n t) = 0
extra _ = 1

abbrev ReadsAs : OpCodeType → ℕ → OpCode → List OpCode → List OpCode → Type 0
ReadsAs t n w ws rest = (opcode_type w (get_elem? (ws ++ rest) 0) ≡ some t) × (length ws ≡ n)

one_word :
    (o : Option OpCode) (t : OpCodeType) (w : OpCode) (ws rest : List OpCode)
    → one o ≡ some (w ∷ ws)
    → ((next : Option OpCode) → o ≡ some w → opcode_type w next ≡ some t)
    → ReadsAs t 0 w ws rest
one_word none t w ws rest e read = cc
one_word (some v) t w [] rest e read = (read _ (ground arith), refl)
one_word (some v) t w (x ∷ ws) rest e read = ground arith

two_words :
    (o : Option (OpCode × OpCode)) (t : OpCodeType) (w : OpCode) (ws rest : List OpCode)
    → two o ≡ some (w ∷ ws)
    → ((d : OpCode) → o ≡ some (w, d) → opcode_type w (some d) ≡ some t)
    → ReadsAs t 1 w ws rest
two_words none t w ws rest e read = cc
two_words (some (v, d)) t w [] rest e read = ground arith
two_words (some (v, d)) t w (x ∷ []) rest e read = (read x (ground arith), refl)
two_words (some (v, d)) t w (x ∷ y ∷ ws) rest e read = ground arith

-- A condition with values in range that the parser encodes is read back from its first opcode and
-- the opcode behind that, whatever follows it in the case.
pub opcode_type-opcodes :
    (c : Condition) (w : OpCode) (ws rest : List OpCode)
    → InRange c
    → opcodes c ≡ some (w ∷ ws)
    → (opcode_type w (get_elem? (ws ++ rest) 0) ≡ some (interpretation c)) × (length ws ≡ extra c)
unfolding opcodes interpretation extra
opcode_type-opcodes (key kc) w ws rest h e =
    one_word _ _ w ws rest e (λ next p. key_round kc next h p)
opcode_type-opcodes (key_history kc r) w ws rest h e =
    one_word _ _ w ws rest e (λ next p. key_history_round kc r next p)
opcode_type-opcodes (key_timing_lt n t) w ws rest h e =
    one_word _ _ w ws rest e (λ next p. ticks_since_lt_round n t next h p)
opcode_type-opcodes (key_timing_gt n t) w ws rest h e =
    one_word _ _ w ws rest e (λ next p. ticks_since_gt_round n t next h p)
opcode_type-opcodes (input (i, j)) w ws rest h e =
    two_words _ _ w ws rest e (λ d p. input_round i j p)
opcode_type-opcodes (input_history (i, j) r) w ws rest h e =
    two_words _ _ w ws rest e (λ d p. historical_input_round i j r p)
opcode_type-opcodes (layer l) w ws rest h e = two_words _ _ w ws rest e (λ d p. layer_round l p)
opcode_type-opcodes (base_layer l) w ws rest h e =
    two_words _ _ w ws rest e (λ d p. base_layer_round l p)
opcode_type-opcodes (device_history id r) w ws rest h e =
    two_words _ _ w ws rest e (λ d p. device_history_round id r h.0 h.1 p)
opcode_type-opcodes (cmd_exit index) w ws rest h e =
    two_words (some (new_callback_index index)) _ w ws rest e
      (λ d p. callback_round index (ground arith))
