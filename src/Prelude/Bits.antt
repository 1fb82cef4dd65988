-- ===== src/Prelude/Bits.antt =====
-- The binary digits of a number, and what `bit_and`, `bit_or`, powers of two and complements do to
-- each of them.
use Prim.Native.Nat.{
  ℕ, zero, suc, ◌-◌, ◌*◌, ◌/◌, ◌%◌, ◌^◌, ◌≤◌, ◌<◌, bit_and, bit_or, min, max, bit_and-bitwise,
}
use mathlib.Core.Path.{◌≡◌, refl, ◌∙◌, ap}
use native.Mathlib.Omega.{arith}
use native.Mathlib.Nat.{pow-suc, one-le-pow, pow-le-pow_right}
use danaos.Prelude.Step.{bit_or_step, bit_and_step}
use danaos.Prelude.Tests.{◌==◌, if◌then◌else◌}

-- Binary digit `k` of `a`, 0 or 1.
abbrev pub bit : ℕ → ℕ → ℕ
bit a zero = a % 2
bit a (suc k) = bit (a / 2) k

pub bit-lt : (a k : ℕ) → bit a k < 2
bit-lt a zero = omega arith
bit-lt a (suc k) = bit-lt (a / 2) k

pub zero-bit : (k : ℕ) → bit 0 k ≡ 0
zero-bit zero = refl
zero-bit (suc k) = zero-bit k

pub bit-bit_or : (a b k : ℕ) → bit (bit_or a b) k ≡ max (bit a k) (bit b k)
bit-bit_or a b zero = omega (arith, bit_or_step a b)
bit-bit_or a b (suc k) =
    let e : bit_or a b / 2 ≡ bit_or (a / 2) (b / 2) = omega (arith, bit_or_step a b) in
    rw e (bit-bit_or (a / 2) (b / 2) k)

pub bit-bit_and : (a b k : ℕ) → bit (bit_and a b) k ≡ min (bit a k) (bit b k)
bit-bit_and a b zero = omega (arith, bit_and_step a b)
bit-bit_and a b (suc k) =
    let e : bit_and a b / 2 ≡ bit_and (a / 2) (b / 2) = omega (arith, bit_and_step a b) in
    rw e (bit-bit_and (a / 2) (b / 2) k)

pow_half : (j : ℕ) → 2 ^ suc j / 2 ≡ 2 ^ j
pow_half j = omega (arith, pow-suc 2 j)

pub bit-pow : (j k : ℕ) → bit (2 ^ j) k ≡ (if j == k then 1 else 0)
bit-pow zero zero = refl
bit-pow zero (suc k) = ground (arith, zero-bit k)
bit-pow (suc j) zero = ground (arith, pow-suc 2 j)
bit-pow (suc j) (suc k) = rw (pow_half j) (ground (arith, bit-pow j k))

-- Within `w` digits the complement of `a` has the other digits.
pub bit_complement : (w a k : ℕ) → a < 2 ^ w → k < w → bit (2 ^ w - 1 - a) k ≡ 1 - bit a k
bit_complement zero a k h l = absurd (omega arith)
bit_complement (suc w) a zero h l = omega (arith, pow-suc 2 w)
bit_complement (suc w) a (suc k) h l =
    let e : (2 ^ suc w - 1 - a) / 2 ≡ 2 ^ w - 1 - a / 2 = omega (arith, pow-suc 2 w) in
    rw e (bit_complement w (a / 2) k (omega (arith, pow-suc 2 w)) (omega arith))

pub bit_and-zero : (n a : ℕ) → a ≤ n → bit_and a 0 ≡ 0
bit_and-zero zero zero h = refl
bit_and-zero zero (suc a) h = absurd (omega arith)
bit_and-zero (suc n) a h = ground (arith, bit_and_step a 0, bit_and-zero n (a / 2) (omega arith))

-- The mask `1 << k` keeps digit `k` in its place.
pub bit_and-pow : (k a : ℕ) → bit_and a (2 ^ k) ≡ bit a k * 2 ^ k
bit_and-pow zero a = omega (arith, bit_and_step a 1, bit_and-zero (a / 2) (a / 2) (omega arith))
bit_and-pow (suc k) a =
    let e : bit_and a (2 ^ suc k) ≡ bit_and (a / 2) (2 ^ k) * 2 =
      omega (arith, bit_and_step a (2 ^ suc k), ap (bit_and (a / 2)) (pow_half k), pow-suc 2 k) in
    e ∙ rw (bit_and-pow k (a / 2), pow-suc) (omega arith)

-- Numbers of `w` digits with equal digits are equal.
pub eq_of_bits : (w a b : ℕ) → a < 2 ^ w → b < 2 ^ w → ((k : ℕ) → k < w → bit a k ≡ bit b k) → a ≡ b
eq_of_bits zero a b p q h = omega arith
eq_of_bits (suc w) a b p q h =
    let halves : a / 2 ≡ b / 2 =
      eq_of_bits w (a / 2) (b / 2) (omega (arith, pow-suc 2 w)) (omega (arith, pow-suc 2 w))
        (λ k l. h (suc k) (omega arith)) in
    omega (arith, h 0 (omega arith), halves)

pub bit_or-lt : (w a b : ℕ) → a < 2 ^ w → b < 2 ^ w → bit_or a b < 2 ^ w
bit_or-lt zero a b p q =
    let e : a ≡ 0 = omega arith in let f : b ≡ 0 = omega arith in rw (e, f) (omega arith)
bit_or-lt (suc w) a b p q = omega (
  arith,
  pow-suc 2 w,
  bit_or_step a b,
  bit_or-lt w (a / 2) (b / 2) (omega (arith, pow-suc 2 w)) (omega (arith, pow-suc 2 w)),
)

bit_and-le_fuel : (n a b : ℕ) → a ≤ n → bit_and a b ≤ a
bit_and-le_fuel n zero b h = omega (arith, bit_and-bitwise 0 b)
bit_and-le_fuel zero (suc a) b h = absurd (omega arith)
bit_and-le_fuel (suc n) (suc a) b h =
    omega (arith, bit_and_step (suc a) b, bit_and-le_fuel n (suc a / 2) (b / 2) (omega arith))

pub bit_and-le : (a b : ℕ) → bit_and a b ≤ a
bit_and-le a b = bit_and-le_fuel a a b (omega arith)

pub pow-lt_pow : (k w : ℕ) → k < w → 2 ^ k < 2 ^ w
pow-lt_pow k w h = omega (
  arith,
  pow-suc 2 k,
  one-le-pow k 2,
  pow-le-pow_right {n = 2} (omega arith) {i = suc k} {j = w} h,
)

-- The masks of three and of ten digits.
low_three : (a : ℕ) → bit_and a 7 ≡ a % 8
low_three a = omega (
  arith,
  bit_and_step a 7,
  bit_and_step (a / 2) 3,
  bit_and_step (a / 2 / 2) 1,
  bit_and-zero (a / 2 / 2 / 2) (a / 2 / 2 / 2) (omega arith),
)

low_six : (a : ℕ) → bit_and a 63 ≡ a % 64
low_six a = omega (
  arith,
  bit_and_step a 63,
  bit_and_step (a / 2) 31,
  bit_and_step (a / 2 / 2) 15,
  low_three (a / 2 / 2 / 2),
)

pub low_ten : (a : ℕ) → bit_and a 1023 ≡ a % 1024
low_ten a = omega (
  arith,
  bit_and_step a 1023,
  bit_and_step (a / 2) 511,
  bit_and_step (a / 2 / 2) 255,
  bit_and_step (a / 2 / 2 / 2) 127,
  low_six (a / 2 / 2 / 2 / 2),
)
