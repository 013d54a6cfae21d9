-- ===== src/Tests/MillisecondCounting.antt =====
-- Counting milliseconds, with the readings of the source's tests.
use kanata.Base.{ℕ, ◌-◌, ◌+◌, ◌/◌, ◌≡◌, refl, arith, List, [], ◌∷◌}
use kanata.MillisecondCounting.{TimeState, ns_in_ms, count_ms_elapsed, get_ms_elapsed}
use kanata.MillisecondCounting.Paced.{
  total_ms, Paced, last_reading, total_ms-whole, get_ms_elapsed-counted_twice,
}

abbrev start : TimeState
start = record { last_tick = 5000000; time_remainder = 0 }

-- Twice 1750 microseconds.
abbrev readings : List (ℕ × ℕ)
readings = (6750000, 6750100) ∷ (8500000, 8500100) ∷ []

ms_counts_0 : (count_ms_elapsed 5000000 5999999 0).ms_elapsed ≡ 0
unfolding count_ms_elapsed
ms_counts_0 = refl

ms_counts_1_then_2 : total_ms start readings ≡ 3
unfolding total_ms get_ms_elapsed count_ms_elapsed
ms_counts_1_then_2 = refl

readings-Paced : Paced 5000000 readings
readings-Paced = (omega arith, omega arith, (omega arith, omega arith, tt))

total_ms-whole_example :
    total_ms start readings ≡ (last_reading 5000000 readings - 5000000 + 0) / ns_in_ms
total_ms-whole_example = total_ms-whole start readings (omega arith) readings-Paced

-- Two readings within one millisecond count one.
get_ms_elapsed-counted_twice_example :
    (get_ms_elapsed (get_ms_elapsed start 5600000 5600100).0 5900000 5900100).1
    ≡ ((5900000 - 5000000) + (5600000 - 5000000) + 0) / ns_in_ms
get_ms_elapsed-counted_twice_example =
    get_ms_elapsed-counted_twice start 5600000 5600100 5900000 5900100 (omega arith)

counts_1_too_early : (get_ms_elapsed (get_ms_elapsed start 5600000 5600100).0 5900000 5900100).1 ≡ 1
unfolding get_ms_elapsed count_ms_elapsed
counts_1_too_early = refl
