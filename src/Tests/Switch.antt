-- ===== src/Tests/Switch.antt =====
-- `switch` at a concrete configuration: `((not a) (layer 1)) x fallthrough` and
-- `((or b (key-timing 1 less-than 300))) y break`, with the key codes of a and b.
use kanata.Base.{
  ◌≤◌, ◌<◌, ◌+◌, ℕ, ◌≡◌, refl, arith, List, [], ◌∷◌, ◌++◌, none, some, length, get_elem?,
}
use kanata.Switch.Ticks.{
  lossy_compress_ticks, lossy_decompress_ticks, resolution, decompress-compress,
}
use kanata.Switch.OpCode.{
  OpCode, or, not, opcode_type, new_bool, new_key, new_layer, new_ticks_since_lt,
  new_historical_input,
}
use kanata.Switch.Condition.{
  Condition, key, key_timing_lt, layer, input_history, opcodes, interpretation, extra,
  opcode_type-opcodes,
}
use kanata.Switch.Eval.{Inputs, value, evaluate_boolean}
use kanata.Switch.Parse.{condition, group, Items, nil, cons, ok, parse_key_match}
use kanata.Switch.Meaning.{holds, item_holds, case_holds, IsProper, AreProper}
use kanata.Switch.ParseCode.{evaluate_boolean-parse_key_match}
use kanata.Switch.Actions.{
  BreakOrFallthrough, break, fallthrough, Case, collect, selected, AreParsed, collect-selected,
}

abbrev pressing_b : Inputs
pressing_b = record {
  key_codes = 48 ∷ [];
  inputs = (0, 48) ∷ [];
  historical_keys = record { event = 48; ticks_since_occurrence = 20 } ∷ [];
  historical_inputs = record { event = (0, 48); ticks_since_occurrence = 20 } ∷ [];
  layers = 1 ∷ 0 ∷ [];
  default_layer = 0;
  device_history = none ∷ [];
  callbacks = [];
}

abbrev not_a : Items
not_a = cons (group not (cons (condition (key 30)) nil)) (cons (condition (layer 1)) nil)

abbrev b_or_quick : Items
b_or_quick =
    cons (group or (cons (condition (key 48)) (cons (condition (key_timing_lt 0 300)) nil))) nil

abbrev not_a_ops : List OpCode
not_a_ops = 0x3002 ∷ 30 ∷ 853 ∷ 1 ∷ []

abbrev b_or_quick_ops : List OpCode
b_or_quick_ops = 0x1003 ∷ 48 ∷ 0x6104 ∷ []

not_a-AreProper : AreProper pressing_b not_a
unfolding AreProper IsProper
not_a-AreProper = ground arith

not_a_parsed : parse_key_match not_a ≡ ok not_a_ops
unfolding parse_key_match new_bool opcodes new_key new_layer
not_a_parsed = refl

b_or_quick-AreProper : AreProper pressing_b b_or_quick
unfolding AreProper IsProper
b_or_quick-AreProper = ground arith

b_or_quick_parsed : parse_key_match b_or_quick ≡ ok b_or_quick_ops
unfolding parse_key_match new_bool opcodes new_key new_ticks_since_lt lossy_compress_ticks
b_or_quick_parsed = refl

abbrev written : List (Items × ℕ × BreakOrFallthrough)
written = (not_a, 7, fallthrough) ∷ (b_or_quick, 8, break) ∷ (nil, 9, break) ∷ []

abbrev parsed : List (Case ℕ)
parsed = (not_a_ops, 7, fallthrough) ∷ (b_or_quick_ops, 8, break) ∷ ([], 9, break) ∷ []

written-AreParsed : AreParsed pressing_b written parsed
unfolding AreProper parse_key_match
written-AreParsed = (
  not_a-AreProper,
  not_a_parsed,
  refl,
  refl,
  (b_or_quick-AreProper, b_or_quick_parsed, refl, refl, (tt, refl, refl, refl, tt)),
)

collect-selected_example :
    collect 4 pressing_b (record { cases = parsed; case_index = 0 })
    ≡ some (selected pressing_b written)
collect-selected_example = collect-selected written parsed pressing_b written-AreParsed

selects_7_8 : selected pressing_b written ≡ 7 ∷ 8 ∷ []
unfolding selected case_holds item_holds holds
selects_7_8 = refl

evaluate_boolean-parse_key_match_example :
    evaluate_boolean pressing_b b_or_quick_ops ≡ value (case_holds pressing_b b_or_quick)
evaluate_boolean-parse_key_match_example =
    evaluate_boolean-parse_key_match pressing_b b_or_quick b_or_quick_ops b_or_quick-AreProper
      b_or_quick_parsed

abbrev second_last_b : Condition
second_last_b = input_history (0, 48) 1

abbrev second_word : List OpCode
second_word = 2096 ∷ []

second_last_b-opcodes : opcodes second_last_b ≡ some (852 ∷ 2096 ∷ [])
unfolding opcodes new_historical_input
second_last_b-opcodes = refl

opcode_type-opcodes_example :
    (opcode_type 852 (get_elem? (second_word ++ 30 ∷ []) 0) ≡ some (interpretation second_last_b))
    × (length second_word ≡ extra second_last_b)
opcode_type-opcodes_example =
    opcode_type-opcodes second_last_b 852 second_word (30 ∷ []) tt second_last_b-opcodes

decompress-compress_example :
    let d = lossy_decompress_ticks (lossy_compress_ticks 1000) in
    (d ≤ 1000) × (1000 < d + resolution 1000)
decompress-compress_example = decompress-compress 1000 (omega arith)
