-- ===== src/Tests/CapsWord.antt =====
-- A caps word at a concrete configuration: a and b are capitalized, minus is in a word.
use kanata.Base.{◌≡◌, refl, List, [], ◌∷◌, ℕ}
use kanata.CapsWord.{CapsWordState, ends_in_capital, new}
use kanata.CapsWord.Word.{shifted}

abbrev fresh : CapsWordState
fresh = record {
  keys_to_capitalize = 30 ∷ 48 ∷ [];
  keys_nonterminal = 12 ∷ [];
  timeout = 3;
  timeout_ticks = 3;
}

abbrev word : List (List ℕ)
word = (30 ∷ []) ∷ [] ∷ (12 ∷ []) ∷ (12 ∷ 48 ∷ []) ∷ [] ∷ []

word-shifted : shifted fresh word ≡ (42 ∷ 30 ∷ []) ∷ [] ∷ (12 ∷ []) ∷ (42 ∷ 12 ∷ 48 ∷ []) ∷ [] ∷ []
unfolding ends_in_capital
word-shifted = refl

abbrev keys_30 : CapsWordState
keys_30 =
    new (record { keys_to_capitalize = 30 ∷ 48 ∷ []; keys_nonterminal = 12 ∷ []; timeout = 3 })

starts_fresh : keys_30 ≡ fresh
unfolding new
starts_fresh = refl
