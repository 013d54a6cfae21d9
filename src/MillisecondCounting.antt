-- ===== src/MillisecondCounting.antt =====
-- src/kanata/millisecond_counting.rs and `Kanata::get_ms_elapsed` of src/kanata/mod.rs. An instant is
-- a number of nanoseconds, and `duration_since` of an earlier instant than the other is 0. A `Duration`
-- has fewer than 2 ^ 95 nanoseconds, so the sums stay within a `u128`.
pub mod Paced
use kanata.Base.{ℕ, zero, suc, ◌+◌, ◌-◌, ◌/◌, ◌%◌, leb, ◌==◌, if◌then◌else◌}

pub record MillisecondCountResult : Type 0 where
  pub last_tick : ℕ
  pub ms_elapsed : ℕ
  pub ms_remainder_in_ns : ℕ

abbrev pub ns_in_ms : ℕ
ns_in_ms = 1000000

unfoldable pub count_ms_elapsed : ℕ → ℕ → ℕ → MillisecondCountResult
count_ms_elapsed last_tick now prev_ms_remainder_in_ns =
    let ns_elapsed = now - last_tick in
    let ns_elapsed_with_rem = ns_elapsed + prev_ms_remainder_in_ns in
    let ms_elapsed = ns_elapsed_with_rem / ns_in_ms in
    record {
      last_tick = if ms_elapsed == 0 then last_tick else now;
      ms_elapsed = ms_elapsed;
      ms_remainder_in_ns = ns_elapsed_with_rem % ns_in_ms;
    }

-- The two fields of `Kanata` that keep the time.
pub record TimeState : Type 0 where
  pub last_tick : ℕ
  pub time_remainder : ℕ

-- The clock is read at the start, and once more where the number is large.
unfoldable pub get_ms_elapsed : TimeState → ℕ → ℕ → TimeState × ℕ
unfolding count_ms_elapsed
get_ms_elapsed s now actual_now =
    let ms_count_result = count_ms_elapsed s.last_tick now s.time_remainder in
    let ms_elapsed = ms_count_result.ms_elapsed in
    (
      record {
        last_tick = if leb ms_elapsed 10 then ms_count_result.last_tick else actual_now;
        time_remainder = ms_count_result.ms_remainder_in_ns;
      },
      ms_elapsed,
    )
