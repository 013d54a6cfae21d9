-- ===== src/Switch/Ticks.antt =====
-- keyberon/src/action/switch.rs, `lossy_compress_ticks` and `lossy_decompress_ticks`: a `u16` of
-- ticks in the ten bits that an opcode has for it.
use kanata.Base.{ℕ, ◌+◌, ◌-◌, ◌*◌, ◌/◌, ◌≤◌, ◌<◌, arith, leb, if◌then◌else◌, u16}

unfoldable pub lossy_compress_ticks : ℕ → ℕ
lossy_compress_ticks t =
    if leb t 255 then t else if leb t 2303 then (t - 255) / 8 + 255 else (t - 2303) / 128 + 511

-- The last branch wraps as a release build does.
unfoldable pub lossy_decompress_ticks : ℕ → ℕ
lossy_decompress_ticks t =
    if leb t 255 then t else if leb t 511 then (t - 255) * 8 + 255 else u16 ((t - 511) * 128 + 2303)

pub lossy_compress_ticks-lt : (t : ℕ) → t < 65536 → lossy_compress_ticks t < 1024
unfolding lossy_compress_ticks
lossy_compress_ticks-lt t h = ground arith

-- The resolution that the encoders document.
abbrev pub resolution : ℕ → ℕ
resolution t = if leb t 255 then 1 else if leb t 2303 then 8 else 128

-- Of any `u16` number of ticks: what is read back is never above the given number, and less than the
-- documented resolution below it, which is 1, 8 and 128.
pub decompress-compress :
    (t : ℕ)
    → t < 65536
    → let d = lossy_decompress_ticks (lossy_compress_ticks t) in (d ≤ t) × (t < d + resolution t)
unfolding lossy_compress_ticks lossy_decompress_ticks
decompress-compress t h = ground arith
