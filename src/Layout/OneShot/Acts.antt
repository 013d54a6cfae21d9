-- ===== src/Layout/OneShot/Acts.antt =====
-- What happens to the one shot keys, one call after another, and what stays true of their state.
use kanata.Base.{
  ℕ, ◌-◌, ◌≤◌, ◌≡◌, refl, arith, true, false, ◌||◌, List, [], ◌∷◌, ◌++◌, Option, none, some, KCoord,
  ltb, ◌==◌, length, length-append, any, Bool-cases, inl, inr, ◌⊎◌,
}
use kanata.Layout.OneShot.{
  one_shot_max_active, Deque, OneShotEndConfig, OneShotRetainableState, retainable_eq, OneShotState,
  one_shot_key, other, has, is_empty, on_press, without, tick_osh, handle_press, handle_release,
  add_state_to_retain, activate,
}

-- `press` is of a key that is no one shot key, `activate_key` of one that is.
pub data Act : Type 0 where
  tick : Act
  press release : KCoord → Act
  activate_key : KCoord → ℕ → OneShotEndConfig → Act
  retain : OneShotRetainableState → Act
  ignore_events_ticks : ℕ → Act

abbrev pub or_nil : Option (List KCoord) → List KCoord
or_nil none = []
or_nil (some cs) = cs

abbrev pub one_or_none : Option KCoord → List KCoord
one_or_none none = []
one_or_none (some c) = c ∷ []

-- The coordinates whose release is let go, and the state.
unfoldable pub act : Deque → OneShotState → Act → List KCoord × OneShotState
act d s tick = let (out, t) = tick_osh s in (or_nil out, t)
act d s (press c) = ([], (handle_press d s (other c)).1)
act d s (release c) = let ((_, out), t) = handle_release d s c in (one_or_none out, t)
act d s (activate_key c timeout end_config) =
    let (out, t) = activate d s c timeout end_config in (one_or_none out, t)
act d s (retain state) = ([], add_state_to_retain d s state)
act d s (ignore_events_ticks n) = ([], record s { ticks_to_ignore_events = n })

unfoldable pub acts : Deque → OneShotState → List Act → List KCoord × OneShotState
acts d s [] = ([], s)
acts d s (a ∷ as') = let (out, t) = act d s a in let (outs, u) = acts d t as' in (out ++ outs, u)

-- No deque is over its capacity, and without a one shot key nothing is held back.
abbrev pub IsValid : OneShotState → Type 0
IsValid s =
    (length s.keys ≤ one_shot_max_active)
    × (length s.released_keys ≤ one_shot_max_active)
    × (length s.state_to_retain_on_release ≤ one_shot_max_active)
    × (length s.other_pressed_keys ≤ one_shot_max_active)
    × (is_empty s.keys ≡ true → is_empty s.released_keys ≡ true)

module _ {A : Type 0} (d : Deque) where
  -- What a push leaves, by the two laws.
  pub push_cases :
      (xs : List A) (x : A)
      → length xs ≤ one_shot_max_active
      → (d.push_back xs x ≡ (xs ++ x ∷ [], none))
        ⊎ ((y : A) × (ys : List A) × (xs ≡ y ∷ ys) × (d.push_back xs x ≡ (ys ++ x ∷ [], some y)))
  push_cases [] x h = inl (d.push_back_room [] x (omega arith))
  push_cases (y ∷ ys) x h = elim (Bool-cases (ltb (length (y ∷ ys)) one_shot_max_active)) [
    | inl room ↦ inl (d.push_back_room (y ∷ ys) x (ground arith))
    | inr full ↦ inr (y, ys, refl, d.push_back_full y ys x (ground arith))
  ]

  pub push-length :
      (xs : List A) (x : A)
      → length xs ≤ one_shot_max_active
      → length (d.push_back xs x).0 ≤ one_shot_max_active
  push-length [] x h = rw (d.push_back_room [] x (omega arith)) (omega arith)
  push-length (y ∷ ys) x h = elim (Bool-cases (ltb (length (y ∷ ys)) one_shot_max_active)) [
    | inl room ↦
        rw (d.push_back_room (y ∷ ys) x (ground arith)) (ground (arith, length-append ys (x ∷ [])))
    | inr full ↦
        rw (d.push_back_full y ys x (ground arith)) (ground (arith, length-append ys (x ∷ [])))
  ]

  pub push-not_empty :
      (xs : List A) (x : A)
      → length xs ≤ one_shot_max_active
      → is_empty (d.push_back xs x).0 ≡ false
  push-not_empty xs x h = elim (push_cases xs x h) [
    | inl e ↦ rw e (append-not_empty xs)
    | inr (y, ys, same, e) ↦ rw e (append-not_empty ys)
  ]
    where
      append-not_empty : (zs : List A) → is_empty (zs ++ x ∷ []) ≡ false
      append-not_empty [] = refl
      append-not_empty (z ∷ zs) = refl

without-length : (c : KCoord) (xs : List KCoord) → length (without c xs) ≤ length xs
unfolding without
without-length c [] = omega arith
without-length c (x ∷ xs) = ground (arith, without-length c xs)

without-empty :
    (c : KCoord) (xs : List KCoord) → is_empty xs ≡ true → is_empty (without c xs) ≡ true
unfolding without
without-empty c [] h = refl
without-empty c (x ∷ xs) h = cc

handle_press-IsValid :
    (d : Deque) (s : OneShotState) (c : KCoord) → IsValid s → IsValid (handle_press d s (other c)).1
unfolding handle_press
handle_press-IsValid d s c (k, r, t, o, e) =
    elim (Bool-cases (is_empty s.keys || ltb 0 s.ticks_to_ignore_events)) [
      | inl quiet ↦ rw quiet (k, r, t, o, e)
      | inr active ↦ elim (Bool-cases (on_press s.end_config)) [
        | inl ends ↦ rw (active, ends) (k, r, t, o, e)
        | inr stays ↦ rw (active, stays) (k, r, t, push-length d s.other_pressed_keys c o, e)
      ]
    ]

handle_release-IsValid :
    (d : Deque) (s : OneShotState) (c : KCoord) → IsValid s → IsValid (handle_release d s c).1
unfolding handle_release
handle_release-IsValid d s c (k, r, t, o, e) = elim (Bool-cases (is_empty s.keys)) [
  | inl none_active ↦ rw none_active (k, r, t, o, e)
  | inr active ↦ elim (Bool-cases (has s.keys c)) [
    | inl held ↦ rw (active, held) (k, push-length d s.released_keys c r, t, o, λ p. cc)
    | inr others ↦ rw (active, others) (k, r, t, o, e)
  ]
]

repress-IsValid :
    (d : Deque) (s : OneShotState) (c : KCoord)
    → IsValid s
    → IsValid (handle_press d s (one_shot_key c)).1
unfolding handle_press
repress-IsValid d s c (k, r, t, o, e) =
    elim (Bool-cases (is_empty s.keys || ltb 0 s.ticks_to_ignore_events)) [
      | inl quiet ↦ rw quiet (k, r, t, o, e)
      | inr active ↦ rw active (
        k,
        omega (arith, without-length c s.released_keys),
        t,
        o,
        (λ p. without-empty c s.released_keys (e p)),
      )
    ]

activate-IsValid :
    (d : Deque) (s : OneShotState) (c : KCoord) (timeout : ℕ) (end_config : OneShotEndConfig)
    → IsValid s
    → IsValid (activate d s c timeout end_config).1
unfolding activate
activate-IsValid d s c timeout end_config h =
    let pressed = (handle_press d s (one_shot_key c)).1 in
    let (k, r, t, o, e) = repress-IsValid d s c h in
    let not_empty = push-not_empty d pressed.keys c k in
    (push-length d pressed.keys c k, r, t, o, (λ p. cc))

tick_osh-IsValid : (s : OneShotState) → IsValid s → IsValid (tick_osh s).1
unfolding tick_osh
tick_osh-IsValid s (k, r, t, o, e) = elim (Bool-cases (is_empty s.keys)) [
  | inl none_active ↦ rw none_active (k, r, t, o, e)
  | inr active ↦ elim (Bool-cases (s.release_on_next_tick || s.timeout - 1 == 0)) [
    | inl over ↦ rw (active, over) (omega arith, omega arith, omega arith, omega arith, λ _. refl)
    | inr waits ↦ rw (active, waits) (k, r, t, o, e)
  ]
]

retain-IsValid :
    (d : Deque) (s : OneShotState) (state : OneShotRetainableState)
    → IsValid s
    → IsValid (add_state_to_retain d s state)
unfolding add_state_to_retain
retain-IsValid d s state (k, r, t, o, e) =
    elim (Bool-cases (any (λ x. retainable_eq x state) s.state_to_retain_on_release)) [
      | inl known ↦ rw known (k, r, t, o, e)
      | inr new ↦ rw new (k, r, push-length d s.state_to_retain_on_release state t, o, e)
    ]

pub act-IsValid : (d : Deque) (s : OneShotState) (a : Act) → IsValid s → IsValid (act d s a).1
unfolding act
act-IsValid d s tick h = tick_osh-IsValid s h
act-IsValid d s (press c) h = handle_press-IsValid d s c h
act-IsValid d s (release c) h = handle_release-IsValid d s c h
act-IsValid d s (activate_key c timeout end_config) h = activate-IsValid d s c timeout end_config h
act-IsValid d s (retain state) h = retain-IsValid d s state h
act-IsValid d s (ignore_events_ticks n) h = h

-- Whatever happens to the one shot keys, in any order, keeps that no deque is over its capacity, and
-- that no release is held back while no one shot key is active.
pub acts-IsValid :
    (d : Deque) (as' : List Act) (s : OneShotState) → IsValid s → IsValid (acts d s as').1
unfolding acts
acts-IsValid d [] s h = h
acts-IsValid d (a ∷ as') s h = acts-IsValid d as' (act d s a).1 (act-IsValid d s a h)
