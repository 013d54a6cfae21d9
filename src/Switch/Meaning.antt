-- ===== src/Switch/Meaning.antt =====
-- What a case of a `switch` says, independent of opcodes: which conditions hold of the inputs, and
-- `or`, `and` and `not` over the items of a list. `not` is that no item holds.
use kanata.Base.{
  ℕ, zero, suc, [], ◌∷◌, ◌<◌, ◌≡◌, refl, arith, Bool, true, false, ◌&&◌, ◌||◌, not as negate, List,
  Option, none, some, ltb, leb, ◌==◌, coord_eq, length, get_elem?, any,
}
use kanata.Switch.Ticks.{lossy_compress_ticks, lossy_decompress_ticks}
use kanata.Switch.OpCode.{BooleanOperator, or, and, not}
use kanata.Switch.Condition.{
  Condition, key, key_history, key_timing_lt, key_timing_gt, input, input_history, layer,
  base_layer, device_history, cmd_exit, InRange, interpretation, extra,
}
use kanata.Switch.Eval.{Inputs, condition_value, nth_is, is_device, Eval, after_condition, dispatch}
use kanata.Switch.Parse.{Item, condition, group, Items, nil, cons}

abbrev stored : ℕ → ℕ
stored t = lossy_decompress_ticks (lossy_compress_ticks t)

abbrev callback : Option Bool → Bool
callback none = false
callback (some b) = b

-- Ticks are compared as they are stored.
unfoldable pub holds : Inputs → Condition → Bool
holds i (key kc) = any (λ k. k == kc) i.key_codes
holds i (key_history kc r) = nth_is i.historical_keys r (λ he. he.event == kc)
holds i (key_timing_lt n t) =
    nth_is i.historical_keys n (λ he. leb he.ticks_since_occurrence (stored t))
holds i (key_timing_gt n t) =
    nth_is i.historical_keys n (λ he. ltb (stored t) he.ticks_since_occurrence)
holds i (input c) = any (λ k. coord_eq k c) i.inputs
holds i (input_history c r) = nth_is i.historical_inputs r (λ he. coord_eq he.event c)
holds i (layer l) = nth_is i.layers 0 (λ k. k == l)
holds i (base_layer l) = i.default_layer == l
holds i (device_history id r) = nth_is i.device_history r (is_device id)
holds i (cmd_exit n) = callback (get_elem? i.callbacks n)

unfoldable mutual
  pub item_holds : Inputs → Item → Bool
  item_holds i (condition c) = holds i c
  item_holds i (group or items) = some_holds i items
  item_holds i (group and items) = all_hold i items
  item_holds i (group not items) = negate (some_holds i items)

  pub some_holds : Inputs → Items → Bool
  some_holds i nil = false
  some_holds i (cons item items) = item_holds i item || some_holds i items

  pub all_hold : Inputs → Items → Bool
  all_hold i nil = true
  all_hold i (cons item items) = item_holds i item && all_hold i items

-- A whole case: its items are alternatives, and a case without items always applies.
unfoldable pub case_holds : Inputs → Items → Bool
unfolding some_holds
case_holds i nil = true
case_holds i (cons item items) = some_holds i (cons item items)

-- The operator over some items.
unfoldable pub items_hold : Inputs → BooleanOperator → Items → Bool
unfolding some_holds all_hold
items_hold i or items = some_holds i items
items_hold i and items = all_hold i items
items_hold i not items = negate (some_holds i items)

-- The callbacks that the conditions name are there, and a condition's values are in range.
abbrev pub HasCallback : Inputs → Condition → Type 0
HasCallback i (cmd_exit n) = n < length i.callbacks
HasCallback i _ = Unit {0}

abbrev pub IsItems : Items → Type 0
IsItems nil = ⊥
IsItems (cons _ _) = Unit {0}

-- Every list in a case has an item, and every condition is as the parser makes it.
unfoldable mutual
  pub IsProper : Inputs → Item → Type 0
  IsProper i (condition c) = InRange c × HasCallback i c
  IsProper i (group op items) = IsItems items × AreProper i items

  pub AreProper : Inputs → Items → Type 0
  AreProper i nil = Unit {0}
  AreProper i (cons item items) = IsProper i item × AreProper i items

in_bounds : (bs : List Bool) (n : ℕ) → n < length bs → (b : Bool) × (get_elem? bs n ≡ some b)
in_bounds [] n h = elim h [ ]
in_bounds (b ∷ bs) zero h = (b, refl)
in_bounds (b ∷ bs) (suc n) h = in_bounds bs n (omega arith)

-- The evaluator gives a condition its value, and steps over as many opcodes as it takes.
pub dispatch-interpretation :
    (i : Inputs) (s : Eval) (c : Condition)
    → HasCallback i c
    → dispatch i s (some (interpretation c)) ≡ after_condition s (holds i c, extra c)
unfolding dispatch interpretation condition_value holds extra
dispatch-interpretation i s (key kc) h = refl
dispatch-interpretation i s (cmd_exit n) h =
    let (b, e) = in_bounds i.callbacks n h in rw (e, dispatch)
dispatch-interpretation i s _ h = refl
