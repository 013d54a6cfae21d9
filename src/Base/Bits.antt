-- ===== src/Base/Bits.antt =====
-- `|` on numbers whose fields do not meet, as arithmetic.
pub mod Digits
use Prim.Native.Nat.{
  ℕ, zero, suc, ◌+◌, ◌*◌, ◌/◌, ◌%◌, ◌^◌, ◌≤◌, ◌<◌, max, bit_or, digits, bit_or-bitwise,
}
use mathlib.Core.Path.{◌≡◌, refl, ap}
use native.Mathlib.Nat.{pow-suc}
use native.Mathlib.Omega.{arith}

abbrev or_digits : ℕ → ℕ → ℕ → ℕ
or_digits n a b = digits (λ b. b) max n a b

-- The recursion has the same value under any two sufficient amounts of fuel.
or_digits_enough : (n m a b : ℕ) → a ≤ n → a ≤ m → or_digits n a b ≡ or_digits m a b
or_digits_enough (suc n) zero (suc a) b p q = absurd (omega arith)
or_digits_enough zero (suc m) (suc a) b p q = absurd (omega arith)
or_digits_enough (suc n) (suc m) zero b p q = refl
or_digits_enough zero (suc m) zero b p q = refl
or_digits_enough (suc n) zero zero b p q = refl
or_digits_enough zero zero a b p q = refl
or_digits_enough (suc n) (suc m) (suc a) b p q =
    omega (arith, or_digits_enough n m (suc a / 2) (b / 2) (omega arith) (omega arith))

pub zero-bit_or : (b : ℕ) → bit_or 0 b ≡ b
zero-bit_or b = bit_or-bitwise 0 b

pub bit_or_halve : (a b : ℕ) → bit_or a b ≡ bit_or (a / 2) (b / 2) * 2 + max (a % 2) (b % 2)
bit_or_halve zero b = omega (arith, zero-bit_or b, zero-bit_or (b / 2))
bit_or_halve (suc a) b = omega (
  arith,
  bit_or-bitwise (suc a) b,
  bit_or-bitwise (suc a / 2) (b / 2),
  or_digits_enough a (suc a / 2) (suc a / 2) (b / 2) (omega arith) (omega arith),
)

double_pow : (q k : ℕ) → q * 2 ^ suc k ≡ 2 * (q * 2 ^ k)
double_pow q k = omega (arith, ap (λ (t : ℕ). q * t) (pow-suc 2 k))

-- The bits from the k-th on and those below it are joined apart.
pub bit_or_split :
    (k a b r s : ℕ)
    → r < 2 ^ k
    → s < 2 ^ k
    → bit_or (a * 2 ^ k + r) (b * 2 ^ k + s) ≡ bit_or a b * 2 ^ k + bit_or r s
bit_or_split zero a b zero zero p q =
    let e : a * 1 + 0 ≡ a = omega arith in
    let f : b * 1 + 0 ≡ b = omega arith in rw (e, f) (omega arith)
bit_or_split zero a b zero (suc s) p q = absurd (omega arith)
bit_or_split zero a b (suc r) s p q = absurd (omega arith)
bit_or_split (suc k) a b r s p q = ground (
  arith,
  bit_or_halve (a * 2 ^ suc k + r) (b * 2 ^ suc k + s),
  double_pow a k,
  double_pow b k,
  double_pow (bit_or a b) k,
  pow-suc 2 k,
  bit_or_split k a b (r / 2) (s / 2),
  bit_or_halve r s,
)

bit_or-zero_fuel : (n a : ℕ) → a ≤ n → bit_or a 0 ≡ a
bit_or-zero_fuel n zero h = refl
bit_or-zero_fuel zero (suc a) h = absurd (omega arith)
bit_or-zero_fuel (suc n) (suc a) h =
    omega (arith, bit_or_halve (suc a) 0, bit_or-zero_fuel n (suc a / 2) (omega arith))

pub bit_or-zero : (a : ℕ) → bit_or a 0 ≡ a
bit_or-zero a = bit_or-zero_fuel a a (omega arith)

-- A field below a number whose low bits are clear is added to it.
pub bit_or_high : (k a s : ℕ) → s < 2 ^ k → bit_or (a * 2 ^ k) s ≡ a * 2 ^ k + s
bit_or_high k a s h = ground (arith, bit_or_split k a 0 0 s, bit_or-zero a, zero-bit_or s)

-- A field put in over the low bits of a number that has others.
pub bit_or_over :
    (k a b r : ℕ) → r < 2 ^ k → bit_or (a * 2 ^ k + r) (b * 2 ^ k) ≡ bit_or a b * 2 ^ k + r
bit_or_over k a b r h = ground (arith, bit_or_split k a b r 0, bit_or-zero r)
