-- ===== src/Layout/Chords/Decomposed.antt =====
-- The loop of `decompose_chord_into_action_queue` ends, and queues the chords of the split.
use kanata.Base.{
  ℕ, zero, suc, ◌+◌, ◌-◌, ◌≤◌, ◌<◌, ◌≡◌, refl, arith, ap, sym, subst, true, false, List, [], ◌∷◌,
  none, some, ltb, leb, length, take, drop, Bool-cases, Option-cases, inl, inr,
}
use kanata.Layout.Event.{Queued}
use kanata.Layout.HoldTap.{WaitingState}
use kanata.Layout.Chords.Decompose.{
  QueuedAction, pressed_order, entry_for, chord_mask, shrink, round, decompose_loop,
  decompose_chord_into_action_queue,
}
use kanata.Layout.Chords.Group.{ChordsGroup, find_chord, union}
use kanata.Layout.Chords.Split.{
  NoChord, Split, nothing, longest, dropped, length-drop, drop-drop, Searched, shrink-Searched,
}

drop_all : (n : ℕ) (xs : List ℕ) → length xs ≤ n → drop n xs ≡ []
drop_all zero [] h = refl
drop_all zero (x ∷ xs) h = absurd (omega arith)
drop_all (suc n) [] h = refl
drop_all (suc n) (x ∷ xs) h = drop_all n xs (omega arith)

drop_next : (n : ℕ) (xs : List ℕ) → n < length xs → (x : ℕ) × (drop n xs ≡ x ∷ drop (suc n) xs)
drop_next n [] h = absurd (omega arith)
drop_next zero (x ∷ xs) h = (x, refl)
drop_next (suc n) (x ∷ xs) h = drop_next n xs (omega arith)

-- What is queued for the chords found, one after the other.
abbrev pub pushes : {A E Q : Type 0} → (ℕ → A → E) → (Q → E → Q) → Q → List (ℕ × A) → Q
pushes entry push_back q [] = q
pushes entry push_back q ((mask, action) ∷ found) =
    pushes entry push_back (push_back q (entry mask action)) found

module _ {A E Q : Type 0} (chords : List (ℕ × A)) (entry : ℕ → A → E) (push_back : Q → E → Q)
    (keys : List ℕ) where
  -- A round, for any number of keys.
  abbrev round_at : ℕ → ℕ → Q → Q × ℕ
  round_at start n q = elim (find_chord chords (chord_mask chords entry push_back keys start n)) [
    | none ↦ shrink chords entry push_back keys start (n - 1) q
    | some action ↦ (push_back q (entry (chord_mask chords entry push_back keys start n) action), n)
  ]

  round_at-shrink :
      (start n : ℕ) (q : Q)
      → start < n
      → round_at start n q ≡ shrink chords entry push_back keys start n q
  unfolding shrink
  round_at-shrink start zero q h = absurd (omega arith)
  round_at-shrink start (suc n) q h =
      let e : suc n - 1 ≡ n = omega arith in
      let inside : ltb start (suc n) ≡ true = ground arith in
      elim (Option-cases
        (find_chord chords (chord_mask chords entry push_back keys start (suc n)))) [
          | inr (action, found) ↦ rw (inside, found, round_at)
          | inl none_found ↦
              rw (inside, none_found, round_at)
                (ap (λ k. shrink chords entry push_back keys start k q) e)
        ]

  round-shrink :
      (start : ℕ) (q : Q)
      → start < length keys
      → round chords entry push_back keys start q
        ≡ shrink chords entry push_back keys start (length keys) q
  unfolding round
  round-shrink start q h = round_at-shrink start (length keys) q h

  abbrev pub Splits : ℕ → ℕ → Q → Type 0
  Splits fuel start q =
      (found : List (ℕ × A)) × Split chords (drop start keys) found
      × (decompose_loop chords entry push_back keys fuel start q
          ≡ some (pushes entry push_back q found))

  pub loop-Splits :
      (fuel start : ℕ) (q : Q)
      → start ≤ length keys
      → length keys - start < fuel
      → Splits fuel start q
  unfolding decompose_loop
  loop-Splits zero start q h lt = absurd (omega arith)
  loop-Splits (suc fuel) start q h lt = elim (Bool-cases (ltb start (length keys))) [
    | inr over ↦ (
      [],
      subst (λ t. Split chords t []) (sym (drop_all start keys (ground arith))) nothing,
      rw over,
    )
    | inl more ↦
        (let inside : start < length keys = ground arith in
          let here = drop start keys in
          let size = length-drop start keys in
          let searched =
            subst (Searched chords entry push_back keys start (length keys) q)
              (sym (round-shrink start q inside))
              (shrink-Searched chords entry push_back keys start (length keys) q) in
          elim searched [
            | inl (n, action, pos, le, hit, none_longer, e) ↦
                (let (found, split, run) =
                    loop-Splits fuel (start + n) (push_back q (entry (union (take n here)) action))
                      le (omega arith) in
                  let forward : leb (start + n) start ≡ false = ground arith in
                  (
                    (union (take n here), action) ∷ found,
                    longest n pos (omega (arith, size)) hit
                        (subst (λ m. NoChord chords n m here) (sym size) none_longer)
                        (subst (λ t. Split chords t found) (sym (drop-drop n start keys)) split),
                    rw (more, e, forward) run,
                  ))
            | inr (same, back, none_here) ↦
                (let (k, e) = drop_next start keys inside in
                  let (found, split, run) = loop-Splits fuel (suc start) q inside (omega arith) in
                  let later = drop (suc start) keys in
                  let left : length keys - start ≡ suc (length later) =
                    omega (arith, length-drop (suc start) keys) in
                  let none_begin =
                    subst (NoChord chords 0 (suc (length later))) e
                      (subst (λ m. NoChord chords 0 m here) left none_here) in
                  let stays : leb (round chords entry push_back keys start q).1 start ≡ true =
                    ground arith in
                  let one : start + 1 ≡ suc start = omega arith in
                  (
                    found,
                    subst (λ t. Split chords t found) (sym e) (dropped none_begin split),
                    rw (more, stays, same, one) run,
                  ))
          ])
  ]

module _ {A Q : Type 0} (push_action : Q → QueuedAction A → Q) where
  -- Breaking a chord down always ends, and queues the actions of the split of the pressed keys: again
  -- and again the longest chord in front of the keys that are left, where there is one, while a key
  -- with which no chord begins is passed over.
  pub decompose-Split :
      (config : ChordsGroup A) (w : WaitingState) (queued : List Queued) (action_queue : Q)
      → let order = pressed_order config w queued in
        (found : List (ℕ × A)) × Split config.chords order.chord_key_order found
        × (decompose_chord_into_action_queue push_action config w queued action_queue
            ≡ some (
                pushes
                  (entry_for config w queued order.associated_coord)
                  push_action
                  action_queue
                  found))
  unfolding decompose_chord_into_action_queue
  decompose-Split config w queued action_queue =
      let order = pressed_order config w queued in
      let keys = order.chord_key_order in
      loop-Splits config.chords (entry_for config w queued order.associated_coord) push_action keys
        (suc (length keys)) 0 action_queue (omega arith) (omega arith)
