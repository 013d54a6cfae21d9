-- ===== src/MillisecondCounting/Paced.antt =====
-- The milliseconds that are counted over several readings of the clock.
use kanata.Base.{ℕ, ◌+◌, ◌-◌, ◌*◌, ◌/◌, ◌≤◌, ◌<◌, ◌≡◌, sym, subst, arith, List, [], ◌∷◌}
use kanata.MillisecondCounting.{TimeState, ns_in_ms, count_ms_elapsed, get_ms_elapsed}

-- All milliseconds that the calls return, each with its two readings of the clock.
unfoldable pub total_ms : TimeState → List (ℕ × ℕ) → ℕ
unfolding get_ms_elapsed
total_ms s [] = 0
total_ms s ((now, actual_now) ∷ rs) =
    let (next, ms) = get_ms_elapsed s now actual_now in ms + total_ms next rs

-- Each first reading is one to ten milliseconds after the one before.
abbrev pub Paced : ℕ → List (ℕ × ℕ) → Type 0
Paced last_tick [] = Unit {0}
Paced last_tick ((now, actual_now) ∷ rs) =
    (last_tick + ns_in_ms ≤ now) × (now ≤ last_tick + 10 * ns_in_ms) × Paced now rs

abbrev pub last_reading : ℕ → List (ℕ × ℕ) → ℕ
last_reading last_tick [] = last_tick
last_reading last_tick ((now, actual_now) ∷ rs) = last_reading now rs

last_reading-le :
    (last_tick : ℕ) (rs : List (ℕ × ℕ)) → Paced last_tick rs → last_tick ≤ last_reading last_tick rs
last_reading-le last_tick [] p = omega arith
last_reading-le last_tick ((now, actual_now) ∷ rs) (a, b, p) =
    let rest = last_reading-le now rs p in omega arith

-- The state after a reading in time.
get_ms_elapsed-in_time :
    (s : TimeState) (now actual_now : ℕ)
    → s.time_remainder < ns_in_ms
    → s.last_tick + ns_in_ms ≤ now
    → now ≤ s.last_tick + 10 * ns_in_ms
    → let next = (get_ms_elapsed s now actual_now).0 in
      let ms = (get_ms_elapsed s now actual_now).1 in
      (next.last_tick ≡ now)
      × (next.time_remainder < ns_in_ms)
      × (ms * ns_in_ms + next.time_remainder ≡ now - s.last_tick + s.time_remainder)
unfolding get_ms_elapsed count_ms_elapsed
get_ms_elapsed-in_time s now actual_now r a b = (ground arith, omega arith, omega arith)

total_ms-counted :
    (s : TimeState) (rs : List (ℕ × ℕ))
    → s.time_remainder < ns_in_ms
    → Paced s.last_tick rs
    → (rem : ℕ) × (rem < ns_in_ms)
      × (total_ms s rs * ns_in_ms + rem
          ≡ last_reading s.last_tick rs - s.last_tick + s.time_remainder)
unfolding total_ms
total_ms-counted s [] r p = (s.time_remainder, r, omega arith)
total_ms-counted s ((now, actual_now) ∷ rs) r (a, b, p) =
    let next = (get_ms_elapsed s now actual_now).0 in
    let (at_now, small, ms) = get_ms_elapsed-in_time s now actual_now r a b in
    let later = last_reading-le now rs p in
    let (rem, small_rem, rest) =
      total_ms-counted next rs small (subst (λ t. Paced t rs) (sym at_now) p) in
    let rest' =
      subst (λ t. total_ms next rs * ns_in_ms + rem ≡ last_reading t rs - t + next.time_remainder)
        at_now rest in
    (rem, small_rem, omega arith)

-- Where the clock is read one to ten milliseconds apart, the milliseconds that the calls return
-- are together the whole milliseconds of the time from the start to the last reading and of the
-- remainder at the start: none is lost or counted twice.
pub total_ms-whole :
    (s : TimeState) (rs : List (ℕ × ℕ))
    → s.time_remainder < ns_in_ms
    → Paced s.last_tick rs
    → total_ms s rs ≡ (last_reading s.last_tick rs - s.last_tick + s.time_remainder) / ns_in_ms
total_ms-whole s rs r p = let (rem, small, counted) = total_ms-counted s rs r p in omega arith

-- Where a reading counts no millisecond, the next one counts the time up to it twice: once since
-- `last_tick`, which stayed, and once in the remainder.
pub get_ms_elapsed-counted_twice :
    (s : TimeState) (now actual_now now' actual_now' : ℕ)
    → (now - s.last_tick) + s.time_remainder < ns_in_ms
    → (get_ms_elapsed (get_ms_elapsed s now actual_now).0 now' actual_now').1
      ≡ ((now' - s.last_tick) + (now - s.last_tick) + s.time_remainder) / ns_in_ms
unfolding get_ms_elapsed count_ms_elapsed
get_ms_elapsed-counted_twice s now actual_now now' actual_now' h = ground arith
