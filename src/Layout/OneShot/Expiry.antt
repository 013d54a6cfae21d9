-- ===== src/Layout/OneShot/Expiry.antt =====
-- One shot keys end with their timeout, and a release that was held back is let go then.
use kanata.Base.{
  ℕ, suc, ◌-◌, ◌≤◌, ◌≡◌, refl, sym, subst, ◌∙◌, arith, Bool, true, false, ◌||◌, List, [], ◌∷◌, ◌++◌,
  KCoord, ltb, ◌==◌, if◌then◌else◌, length, any, max, Bool-cases, inl, inr, ◌⊎◌,
}
use kanata.Layout.OneShot.{
  one_shot_max_active, Deque, OneShotRetainableState, retainable_eq, OneShotState, other, has,
  is_empty, on_press, tick_osh, handle_press, handle_release, add_state_to_retain,
}
use kanata.Layout.OneShot.Acts.{
  Act, tick, press, release, activate_key, retain, ignore_events_ticks, one_or_none, act, acts,
  IsValid, push_cases, act-IsValid,
}

-- No one shot key is pressed.
abbrev pub quiet : List Act → Bool
quiet [] = true
quiet (activate_key _ _ _ ∷ _) = false
quiet (tick ∷ as') = quiet as'
quiet (press _ ∷ as') = quiet as'
quiet (release _ ∷ as') = quiet as'
quiet (retain _ ∷ as') = quiet as'
quiet (ignore_events_ticks _ ∷ as') = quiet as'

abbrev pub ticks : List Act → ℕ
ticks [] = 0
ticks (tick ∷ as') = suc (ticks as')
ticks (activate_key _ _ _ ∷ as') = ticks as'
ticks (press _ ∷ as') = ticks as'
ticks (release _ ∷ as') = ticks as'
ticks (retain _ ∷ as') = ticks as'
ticks (ignore_events_ticks _ ∷ as') = ticks as'

has-append : (xs ys : List KCoord) (c : KCoord) → has (xs ++ ys) c ≡ (has xs c || has ys c)
has-append [] ys c = refl
has-append (x ∷ xs) ys c = ground (arith, has-append xs ys c)

-- How many ticks the active keys still have.
abbrev pub left : OneShotState → ℕ
left s = if s.release_on_next_tick then 1 else max s.timeout 1

-- What an act other than a tick does while keys are active: they stay, not for longer, and a held
-- release stays or is let go.
abbrev Keeps : OneShotState → List KCoord × OneShotState → Type 0
Keeps s (out, t) =
    (is_empty t.keys ≡ is_empty s.keys)
    × (left t ≤ left s)
    × ((c : KCoord) → has s.released_keys c ≡ true → (has out c || has t.released_keys c) ≡ true)

press-Keeps :
    (d : Deque) (s : OneShotState) (c : KCoord) → Keeps s ([], (handle_press d s (other c)).1)
unfolding handle_press
press-Keeps d s c = elim (Bool-cases (is_empty s.keys || ltb 0 s.ticks_to_ignore_events)) [
  | inl silent ↦ rw silent (refl, omega arith, λ k h. h)
  | inr active ↦ elim (Bool-cases (on_press s.end_config)) [
    | inl ends ↦ rw (active, ends) (refl, ground arith, λ k h. h)
    | inr stays ↦ rw (active, stays) (refl, omega arith, λ k h. h)
  ]
]

pushed_kept :
    (d : Deque) (xs : List KCoord) (c k : KCoord)
    → length xs ≤ one_shot_max_active
    → has xs k ≡ true
    → (has (one_or_none (d.push_back xs c).1) k || has (d.push_back xs c).0 k) ≡ true
pushed_kept d xs c k room h = elim (push_cases d xs c room) [
  | inl e ↦ rw e (ground (arith, has-append xs (c ∷ []) k))
  | inr (y, ys, same, e) ↦ rw e (
      let h' : has (y ∷ ys) k ≡ true = subst (λ zs. has zs k ≡ true) same h in
      ground (arith, has-append ys (c ∷ []) k, h'))
]

release-Keeps :
    (d : Deque) (s : OneShotState) (c : KCoord)
    → length s.released_keys ≤ one_shot_max_active
    → Keeps s (act d s (release c))
unfolding act handle_release
release-Keeps d s c room = elim (Bool-cases (is_empty s.keys)) [
  | inl none_active ↦ rw none_active (none_active, omega arith, λ k h. h)
  | inr active ↦ elim (Bool-cases (has s.keys c)) [
    | inl held ↦
        rw (active, held) (active, omega arith, λ k h. pushed_kept d s.released_keys c k room h)
    | inr others ↦ rw (active, others) (active, ground arith, λ k h. h)
  ]
]

retain-Keeps :
    (d : Deque) (s : OneShotState) (state : OneShotRetainableState)
    → Keeps s ([], add_state_to_retain d s state)
unfolding add_state_to_retain
retain-Keeps d s state =
    elim (Bool-cases (any (λ x. retainable_eq x state) s.state_to_retain_on_release)) [
      | inl known ↦ rw known (refl, omega arith, λ k h. h)
      | inr new ↦ rw new (refl, omega arith, λ k h. h)
    ]

-- A tick lets go all held releases, or one millisecond has passed.
abbrev Ticks : OneShotState → List KCoord × OneShotState → Type 0
Ticks s (out, t) =
    ((is_empty t.keys ≡ true) × (out ≡ s.released_keys))
    ⊎ ((t.timeout ≡ s.timeout - 1)
        × (1 ≤ t.timeout)
        × (s.release_on_next_tick ≡ false)
        × (t.release_on_next_tick ≡ false)
        × (t.released_keys ≡ s.released_keys))

tick-Ticks : (d : Deque) (s : OneShotState) → is_empty s.keys ≡ false → Ticks s (act d s tick)
unfolding act tick_osh
tick-Ticks d s active = elim (Bool-cases (s.release_on_next_tick || s.timeout - 1 == 0)) [
  | inl over ↦ rw (active, over) (inl (refl, refl))
  | inr waits ↦ rw (active, waits) (inr (refl, ground arith, ground arith, ground arith, refl))
]

unchanged : (s : OneShotState) → Keeps s ([], s)
unchanged s = (refl, omega arith, λ c h. h)

-- What is let go, and what ends, from here on.
abbrev Ends : OneShotState → List KCoord × OneShotState → Type 0
Ends s (outs, t) =
    (is_empty t.keys ≡ true) × ((c : KCoord) → has s.released_keys c ≡ true → has outs c ≡ true)

Keeps-Ends :
    (s : OneShotState) (first rest : List KCoord × OneShotState)
    → Keeps s first
    → Ends first.1 rest
    → Ends s (first.0 ++ rest.0, rest.1)
Keeps-Ends s (out, t) (outs, u) (_, _, kept) (over, later) =
    (over, λ c h. ground (arith, kept c h, has-append out outs c, later c))

-- Without a one shot key, none appears.
idle :
    (d : Deque) (as' : List Act) (s : OneShotState)
    → IsValid s
    → quiet as' ≡ true
    → is_empty s.keys ≡ true
    → is_empty (acts d s as').1.keys ≡ true
unfolding acts tick_osh act
idle d [] s h q e = e
idle d (tick ∷ as') s h q e = idle d as' (act d s tick).1 (act-IsValid d s tick h) q (rw e e)
idle d (press c ∷ as') s h q e =
    idle d as' (act d s (press c)).1 (act-IsValid d s (press c) h) q ((press-Keeps d s c).0 ∙ e)
idle d (release c ∷ as') s h q e =
    idle d as' (act d s (release c)).1 (act-IsValid d s (release c) h) q
      ((release-Keeps d s c h.1).0 ∙ e)
idle d (retain state ∷ as') s h q e =
    idle d as' (act d s (retain state)).1 (act-IsValid d s (retain state) h) q
      ((retain-Keeps d s state).0 ∙ e)
idle d (ignore_events_ticks n ∷ as') s h q e =
    idle d as' (act d s (ignore_events_ticks n)).1 (act-IsValid d s (ignore_events_ticks n) h) q e
idle d (activate_key _ _ _ ∷ as') s h q e = cc

not_active :
    (d : Deque) (as' : List Act) (s : OneShotState)
    → IsValid s
    → quiet as' ≡ true
    → is_empty s.keys ≡ true
    → Ends s (acts d s as')
not_active d as' s h q e =
    let (_, _, _, _, nothing_held) = h in
    (idle d as' s h q e, λ c held. absurd (nothing s.released_keys c (nothing_held e) held))
  where
    nothing : (xs : List KCoord) (c : KCoord) → is_empty xs ≡ true → ¬ (has xs c ≡ true)
    nothing [] c e h = cc
    nothing (x ∷ xs) c e h = cc

active-Ends :
    (d : Deque) (as' : List Act) (s : OneShotState)
    → IsValid s
    → quiet as' ≡ true
    → left s ≤ suc (ticks as')
    → ((t : OneShotState) → IsValid t → left t ≤ ticks as' → Ends t (acts d t as'))
    → is_empty s.keys ≡ false
    → Ends s (acts d s (tick ∷ as'))
unfolding acts
active-Ends d as' s h q long later active =
    let t = act d s tick in
    elim (tick-Ticks d s active) [
      | inl (over, all) ↦ (
        idle d as' t.1 (act-IsValid d s tick h) q over,
        λ c held. ground (
          arith,
          has-append t.0 (acts d t.1 as').0 c,
          subst (λ cs. has cs c ≡ true) (sym all) held,
        ),
      )
      | inr (waited, more, not_due, not_due', kept) ↦
          (let (over, out) = later t.1 (act-IsValid d s tick h) (ground arith) in
            (
              over,
              λ c held. ground (
                arith,
                has-append t.0 (acts d t.1 as').0 c,
                out c (subst (λ cs. has cs c ≡ true) (sym kept) held),
              ),
            ))
    ]

all-Ends :
    (d : Deque) (as' : List Act) (s : OneShotState)
    → IsValid s
    → quiet as' ≡ true
    → left s ≤ ticks as'
    → Ends s (acts d s as')
unfolding acts act
all-Ends d [] s h q long = absurd (ground arith)
all-Ends d (tick ∷ as') s h q long = elim (Bool-cases (is_empty s.keys)) [
  | inl none_active ↦ not_active d (tick ∷ as') s h q none_active
  | inr active ↦ active-Ends d as' s h q long (λ t v l. all-Ends d as' t v q l) active
]
all-Ends d (press c ∷ as') s h q long =
    let t = act d s (press c) in
    let keeps = press-Keeps d s c in
    Keeps-Ends s t (acts d t.1 as') keeps
      (all-Ends d as' t.1 (act-IsValid d s (press c) h) q (omega (arith, keeps.1)))
all-Ends d (release c ∷ as') s h q long =
    let t = act d s (release c) in
    let keeps = release-Keeps d s c h.1 in
    Keeps-Ends s t (acts d t.1 as') keeps
      (all-Ends d as' t.1 (act-IsValid d s (release c) h) q (omega (arith, keeps.1)))
all-Ends d (retain state ∷ as') s h q long =
    let t = act d s (retain state) in
    let keeps = retain-Keeps d s state in
    Keeps-Ends s t (acts d t.1 as') keeps
      (all-Ends d as' t.1 (act-IsValid d s (retain state) h) q (omega (arith, keeps.1)))
all-Ends d (ignore_events_ticks n ∷ as') s h q long =
    let t = act d s (ignore_events_ticks n) in
    all-Ends d as' t.1 (act-IsValid d s (ignore_events_ticks n) h) q long
all-Ends d (activate_key _ _ _ ∷ as') s h q long = cc

-- From a valid state, while no one shot key is pressed, whatever else happens: after as many ticks
-- as are left of the timeout, or one if that is over or the release is due, no one shot key is
-- active.
pub acts-ended :
    (d : Deque) (as' : List Act) (s : OneShotState)
    → IsValid s
    → quiet as' ≡ true
    → left s ≤ ticks as'
    → is_empty (acts d s as').1.keys ≡ true
acts-ended d as' s h q long = (all-Ends d as' s h q long).0

-- From a valid state, while no one shot key is pressed, whatever else happens: a release that was
-- held back has been let go after as many ticks as are left of the timeout, or one if that is over
-- or the release is due.
pub acts-let_go :
    (d : Deque) (as' : List Act) (s : OneShotState) (c : KCoord)
    → IsValid s
    → quiet as' ≡ true
    → left s ≤ ticks as'
    → has s.released_keys c ≡ true
    → has (acts d s as').0 c ≡ true
acts-let_go d as' s c h q long held = (all-Ends d as' s h q long).1 c held
