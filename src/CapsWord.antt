-- ===== src/CapsWord.antt =====
-- src/kanata/caps_word.rs: shift for the keys of a word, until another key or the timeout.
pub mod Word
use kanata.Base.{
  ℕ, ◌-◌, Bool, true, false, not, ◌&&◌, ◌||◌, List, [], ◌∷◌, ◌==◌, if◌then◌else◌, any,
}

-- parser/src/custom_action.rs, with what `new` reads.
pub record CapsWordCfg : Type 0 where
  pub keys_to_capitalize : List ℕ
  pub keys_nonterminal : List ℕ
  pub timeout : ℕ

-- The sets are lists, of which membership is asked only.
pub record CapsWordState : Type 0 where
  pub keys_to_capitalize : List ℕ
  pub keys_nonterminal : List ℕ
  pub timeout : ℕ
  pub timeout_ticks : ℕ

pub data CapsWordNextState : Type 0 where
  active ended : CapsWordNextState

unfoldable pub new : CapsWordCfg → CapsWordState
new cfg = record {
  keys_to_capitalize = cfg.keys_to_capitalize;
  keys_nonterminal = cfg.keys_nonterminal;
  timeout = cfg.timeout;
  timeout_ticks = cfg.timeout;
}

abbrev pub contains : List ℕ → ℕ → Bool
contains xs a = any (λ x. x == a) xs

-- `KeyCode::LShift`.
abbrev pub l_shift : ℕ
l_shift = 42

abbrev pub is_terminal : CapsWordState → ℕ → Bool
is_terminal s kc = not (contains s.keys_to_capitalize kc) && not (contains s.keys_nonterminal kc)

-- `active_keys.last()` is to be capitalized.
unfoldable pub ends_in_capital : CapsWordState → List ℕ → Bool
ends_in_capital s [] = false
ends_in_capital s (kc ∷ []) = contains s.keys_to_capitalize kc
ends_in_capital s (kc ∷ kc' ∷ kcs) = ends_in_capital s (kc' ∷ kcs)

abbrev add_lsft : Bool → List ℕ → List ℕ
add_lsft true kcs = l_shift ∷ kcs
add_lsft false kcs = kcs

abbrev pub is_empty : List ℕ → Bool
is_empty [] = true
is_empty (_ ∷ _) = false

-- The next state, with the active keys and the state behind.
unfoldable pub tick_maybe_add_lsft :
    CapsWordState → List ℕ → CapsWordNextState × List ℕ × CapsWordState
unfolding ends_in_capital
tick_maybe_add_lsft s active_keys =
    if s.timeout_ticks == 0
    then (ended, active_keys, s)
    else if any (is_terminal s) active_keys
    then (ended, active_keys, s)
    else (let keys = add_lsft (ends_in_capital s active_keys) active_keys in
        let ticks = if is_empty keys then s.timeout_ticks else s.timeout in
        (active, keys, record s { timeout_ticks = ticks - 1 }))
