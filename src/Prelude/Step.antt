-- ===== src/Prelude/Step.antt =====
-- `bit_and` and `bit_or` one binary digit at a time, from the recursion that they stand for.
use Prim.Native.Nat.{
  ℕ, zero, suc, ◌+◌, ◌-◌, ◌*◌, ◌/◌, ◌%◌, ◌≤◌, bit_and, bit_or, min, max, digits, bit_and-bitwise,
  bit_or-bitwise,
}
use mathlib.Core.Path.{◌≡◌, refl, sym, ◌∙◌, ap}
use native.Mathlib.Omega.{arith}

module _ (rest : ℕ → ℕ) (op : ℕ → ℕ → ℕ) where
  -- One digit more than enough changes nothing.
  more_digits : (n a b : ℕ) → a ≤ n → digits rest op n a b ≡ digits rest op (suc n) a b
  more_digits zero zero b h = refl
  more_digits zero (suc a) b h = absurd (omega arith)
  more_digits (suc n) zero b h = refl
  more_digits (suc n) (suc a) b h =
      ap (λ (t : ℕ). t * 2 + op (suc a % 2) (b % 2))
        (more_digits n (suc a / 2) (b / 2) (omega arith))

  enough_digits : (d n a b : ℕ) → a ≤ n → digits rest op n a b ≡ digits rest op (d + n) a b
  enough_digits zero n a b h = rw (zero_plus n)
    where
      zero_plus : (n : ℕ) → zero + n ≡ n
      zero_plus n = omega arith
  enough_digits (suc d) n a b h =
      rw (suc_plus d n) (enough_digits d n a b h ∙ more_digits (d + n) a b (omega arith))
    where
      suc_plus : (d n : ℕ) → suc d + n ≡ suc (d + n)
      suc_plus d n = omega arith

  enough_digits_le : (n m a b : ℕ) → a ≤ n → n ≤ m → digits rest op m a b ≡ digits rest op n a b
  enough_digits_le n m a b h k =
      let e : m - n + n ≡ m = omega arith in sym (rw e at (enough_digits (m - n) n a b h))

  low_digit :
      (a b : ℕ)
      → digits rest op (suc a) (suc a) b
        ≡ digits rest op (suc a / 2) (suc a / 2) (b / 2) * 2 + op (suc a % 2) (b % 2)
  low_digit a b =
      ap (λ (t : ℕ). t * 2 + op (suc a % 2) (b % 2))
        (enough_digits_le (suc a / 2) a (suc a / 2) (b / 2) (omega arith) (omega arith))

pub bit_or_step : (a b : ℕ) → bit_or a b ≡ bit_or (a / 2) (b / 2) * 2 + max (a % 2) (b % 2)
bit_or_step zero b = omega (arith, bit_or-bitwise 0 b, bit_or-bitwise 0 (b / 2))
bit_or_step (suc a) b = omega (
  arith,
  bit_or-bitwise (suc a) b,
  bit_or-bitwise (suc a / 2) (b / 2),
  low_digit (λ y. y) max a b,
)

pub bit_and_step : (a b : ℕ) → bit_and a b ≡ bit_and (a / 2) (b / 2) * 2 + min (a % 2) (b % 2)
bit_and_step zero b = omega (arith, bit_and-bitwise 0 b, bit_and-bitwise 0 (b / 2))
bit_and_step (suc a) b = omega (
  arith,
  bit_and-bitwise (suc a) b,
  bit_and-bitwise (suc a / 2) (b / 2),
  low_digit (λ y. 0) min a b,
)
