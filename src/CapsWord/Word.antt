-- ===== src/CapsWord/Word.antt =====
-- How long a caps word lasts.
use kanata.Base.{
  ℕ, ◌-◌, ◌≡◌, arith, Bool, true, ◌&&◌, ◌||◌, List, [], ◌∷◌, ltb, ◌==◌, if◌then◌else◌, any, ◌↔◌,
}
use kanata.CapsWord.{
  CapsWordState, CapsWordNextState, active, ended, is_terminal, ends_in_capital, l_shift,
  tick_maybe_add_lsft,
}

-- Ticks in their order, each with the keys that are down: what they become while the caps word lasts,
-- and whether it has ended.
unfoldable pub ticks : CapsWordState → List (List ℕ) → List (List ℕ) × CapsWordNextState
ticks s [] = ([], active)
ticks s (keys ∷ rest) =
    let (next, out, t) = tick_maybe_add_lsft s keys in
    let (outs, last) = ticks t rest in
    elim next [ ended ↦ ([], ended) | active ↦ (out ∷ outs, last) ]

-- The keys with a shift where the last of them is to be capitalized.
abbrev pub shifted : CapsWordState → List (List ℕ) → List (List ℕ)
shifted s [] = []
shifted s (keys ∷ rest) = (if ends_in_capital s keys then l_shift ∷ keys else keys) ∷ shifted s rest

-- No pause is as long as the timeout, of which `left` ticks are left.
abbrev pub no_pause : ℕ → ℕ → List (List ℕ) → Bool
no_pause timeout left [] = true
no_pause timeout left ([] ∷ rest) = ltb 0 left && no_pause timeout (left - 1) rest
no_pause timeout left ((_ ∷ _) ∷ rest) = ltb 0 left && no_pause timeout (timeout - 1) rest

abbrev at : CapsWordState → ℕ → CapsWordState
at s left = record s { timeout_ticks = left }

-- A tick ends a caps word, and leaves the keys and the state as they are, exactly when its time is
-- over or a key is down that is neither to be capitalized nor nonterminal.
tick-ended_iff :
    (s : CapsWordState) (keys : List ℕ)
    → (tick_maybe_add_lsft s keys ≡ (ended, keys, s))
      ↔ ((s.timeout_ticks == 0 || any (is_terminal s) keys) ≡ true)
unfolding tick_maybe_add_lsft
tick-ended_iff s keys = ground arith
