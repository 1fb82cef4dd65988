-- ===== src/Fields/Sums.antt =====
-- Words whose fields do not overlap are sums, and a field is a quotient and a remainder.
use danaos.Prelude.{
  ℕ, zero, suc, ◌+◌, ◌-◌, ◌*◌, ◌/◌, ◌%◌, ◌^◌, ◌≤◌, ◌<◌, ◌≡◌, ◌∙◌, ap, refl, arith, bit, bit_and,
  bit_or, Bool, true, false, ◌==◌, bit_or_step, bit_and_step, bit_and-zero,
}
use native.Mathlib.Nat.{
  pow-suc, pow-zero, one-le-pow, mod-eq_of_lt, mod_def, div-div-eq-div-mul, div-mul-le_self,
}
use danaos.Fields.{of_bool, get_bits, get_bit}
use danaos.Fields.Laws.{get_bit-eq-bit, mask-lt}

pub of_bool-lt : (b : Bool) → of_bool b < 2
of_bool-lt true = omega arith
of_bool-lt false = omega arith

pub of_bool-test : (b : Bool) → (of_bool b == 1) ≡ b
of_bool-test true = refl
of_bool-test false = refl

pub or_zero : (n b : ℕ) → b ≤ n → bit_or 0 b ≡ b
or_zero zero b h = let z : b ≡ 0 = omega arith in rw z refl
or_zero (suc n) zero h = refl
or_zero (suc n) (suc b) h =
    omega (arith, bit_or_step 0 (suc b), or_zero n (suc b / 2) (omega arith))

-- A field above all the bits of `a` is added to it.
pub or_above : (pos a b : ℕ) → a < 2 ^ pos → bit_or a (b * 2 ^ pos) ≡ a + b * 2 ^ pos
or_above zero a b h =
    let z : a ≡ 0 = omega (arith, pow-zero 2) in
    let e : b * 2 ^ 0 ≡ b = omega arith in rw (z, e) (or_zero b b (omega arith) ∙ omega arith)
or_above (suc pos) a b h =
    let half : b * 2 ^ suc pos / 2 ≡ b * 2 ^ pos = rw pow-suc (omega arith) in
    let even : b * 2 ^ suc pos % 2 ≡ 0 = rw pow-suc (omega arith) in
    let twice : b * 2 ^ suc pos ≡ b * 2 ^ pos * 2 = rw pow-suc (omega arith) in
    let rest : bit_or (a / 2) (b * 2 ^ suc pos / 2) ≡ a / 2 + b * 2 ^ pos =
      rw half (or_above pos (a / 2) b (omega (arith, pow-suc 2 pos))) in
    omega (arith, bit_or_step a (b * 2 ^ suc pos))

mod_half : (m a : ℕ) → a % (2 * m) ≡ a / 2 % m * 2 + a % 2
mod_half m a = omega (
  arith,
  mod_def a (2 * m),
  mod_def (a / 2) m,
  div-div-eq-div-mul a 2 m,
  div-mul-le_self (a / 2) m,
  ap (λ (t : ℕ). 2 * m * t) (div-div-eq-div-mul a 2 m),
)

pub and_low : (length a : ℕ) → bit_and a (2 ^ length - 1) ≡ a % 2 ^ length
and_low zero a = bit_and-zero a a (omega arith) ∙ omega arith
and_low (suc length) a =
    let half : (2 ^ suc length - 1) / 2 ≡ 2 ^ length - 1 =
      omega (arith, pow-suc 2 length, one-le-pow length 2) in
    let rest : bit_and (a / 2) ((2 ^ suc length - 1) / 2) ≡ a / 2 % 2 ^ length =
      rw half (and_low length (a / 2)) in
    let whole : 2 ^ suc length ≡ 2 * 2 ^ length = rw pow-suc (omega arith) in
    let split : a % 2 ^ suc length ≡ a / 2 % 2 ^ length * 2 + a % 2 =
      rw whole (mod_half (2 ^ length) a) in
    omega (arith, bit_and_step a (2 ^ suc length - 1), one-le-pow length 2)

pub and_field :
    (pos length a : ℕ) → bit_and a ((2 ^ length - 1) * 2 ^ pos) ≡ a / 2 ^ pos % 2 ^ length * 2 ^ pos
and_field zero length a =
    let mask : (2 ^ length - 1) * 2 ^ 0 ≡ 2 ^ length - 1 = omega arith in
    let word : a / 2 ^ 0 ≡ a = omega arith in rw (mask, word) (and_low length a ∙ omega arith)
and_field (suc pos) length a =
    let twice : (2 ^ length - 1) * 2 ^ suc pos ≡ (2 ^ length - 1) * 2 ^ pos * 2 =
      rw pow-suc (omega arith) in
    let half : (2 ^ length - 1) * 2 ^ suc pos / 2 ≡ (2 ^ length - 1) * 2 ^ pos = omega arith in
    let rest : bit_and (a / 2) ((2 ^ length - 1) * 2 ^ suc pos / 2)
        ≡ a / 2 / 2 ^ pos % 2 ^ length * 2 ^ pos =
      rw half (and_field pos length (a / 2)) in
    let whole : 2 ^ suc pos ≡ 2 * 2 ^ pos = rw pow-suc (omega arith) in
    let word : a / 2 / 2 ^ pos ≡ a / 2 ^ suc pos = rw whole (div-div-eq-div-mul a 2 (2 ^ pos)) in
    bit_and_step a ((2 ^ length - 1) * 2 ^ suc pos) ∙ rw (rest, word, whole) (omega (arith, twice))

-- A field of a word, in its place.
pub get_bits-div :
    (w word pos length : ℕ)
    → pos + length ≤ w
    → get_bits w word pos length ≡ word / 2 ^ pos % 2 ^ length * 2 ^ pos
unfolding get_bits
get_bits-div w word pos length l =
    rw (mod-eq_of_lt (mask-lt w pos length l)) (and_field pos length word)

bit-div : (pos a : ℕ) → bit a pos ≡ a / 2 ^ pos % 2
bit-div zero a = omega arith
bit-div (suc pos) a =
    let whole : 2 ^ suc pos ≡ 2 * 2 ^ pos = rw pow-suc (omega arith) in
    bit-div pos (a / 2) ∙ rw (whole, div-div-eq-div-mul a 2 (2 ^ pos)) refl

-- A flag of a word.
pub get_bit-div : (w word pos : ℕ) → pos < w → get_bit w word pos ≡ (word / 2 ^ pos % 2 == 1)
get_bit-div w word pos l = get_bit-eq-bit w word pos l ∙ ap (λ (t : ℕ). t == 1) (bit-div pos word)

-- `bit_or` and `bit_and` act on the two parts of a word apart.
pub or_split :
    (pos a b c d : ℕ)
    → a < 2 ^ pos
    → c < 2 ^ pos
    → bit_or (a + b * 2 ^ pos) (c + d * 2 ^ pos) ≡ bit_or a c + bit_or b d * 2 ^ pos
or_split zero a b c d p q =
    let za : a ≡ 0 = omega (arith, pow-zero 2) in
    let zc : c ≡ 0 = omega (arith, pow-zero 2) in
    let eb : 0 + b * 2 ^ 0 ≡ b = omega arith in
    let ed : 0 + d * 2 ^ 0 ≡ d = omega arith in
    rw (za, zc, eb, ed) (omega (arith, or_zero 0 0 (omega arith)))
or_split (suc pos) a b c d p q =
    let whole : 2 ^ suc pos ≡ 2 ^ pos * 2 = pow-suc 2 pos in
    let low : (t u : ℕ) → (t + u * 2 ^ suc pos) % 2 ≡ t % 2 = λ t u. rw whole (omega arith) in
    let half : (t u : ℕ) → (t + u * 2 ^ suc pos) / 2 ≡ t / 2 + u * 2 ^ pos =
      λ t u. rw whole (omega arith) in
    let rest = or_split pos (a / 2) b (c / 2) d (omega (arith, whole)) (omega (arith, whole)) in
    bit_or_step (a + b * 2 ^ suc pos) (c + d * 2 ^ suc pos)
    ∙ rw (low a b, low c d, half a b, half c d, rest, whole) (omega (arith, bit_or_step a c))

pub and_split :
    (pos a b c d : ℕ)
    → a < 2 ^ pos
    → c < 2 ^ pos
    → bit_and (a + b * 2 ^ pos) (c + d * 2 ^ pos) ≡ bit_and a c + bit_and b d * 2 ^ pos
and_split zero a b c d p q =
    let za : a ≡ 0 = omega (arith, pow-zero 2) in
    let zc : c ≡ 0 = omega (arith, pow-zero 2) in
    let eb : 0 + b * 2 ^ 0 ≡ b = omega arith in
    let ed : 0 + d * 2 ^ 0 ≡ d = omega arith in
    rw (za, zc, eb, ed) (omega (arith, bit_and-zero 0 0 (omega arith)))
and_split (suc pos) a b c d p q =
    let whole : 2 ^ suc pos ≡ 2 ^ pos * 2 = pow-suc 2 pos in
    let low : (t u : ℕ) → (t + u * 2 ^ suc pos) % 2 ≡ t % 2 = λ t u. rw whole (omega arith) in
    let half : (t u : ℕ) → (t + u * 2 ^ suc pos) / 2 ≡ t / 2 + u * 2 ^ pos =
      λ t u. rw whole (omega arith) in
    let rest = and_split pos (a / 2) b (c / 2) d (omega (arith, whole)) (omega (arith, whole)) in
    bit_and_step (a + b * 2 ^ suc pos) (c + d * 2 ^ suc pos)
    ∙ rw (low a b, low c d, half a b, half c d, rest, whole) (omega (arith, bit_and_step a c))

pub or_shift : (pos b d : ℕ) → bit_or (b * 2 ^ pos) (d * 2 ^ pos) ≡ bit_or b d * 2 ^ pos
or_shift zero b d =
    let plain : (t : ℕ) → t * 2 ^ 0 ≡ t = λ t. omega arith in rw (plain b, plain d) (omega arith)
or_shift (suc pos) b d =
    let twice : (t : ℕ) → t * 2 ^ suc pos ≡ t * 2 ^ pos * 2 = λ t. rw pow-suc (omega arith) in
    let half : (t : ℕ) → t * 2 ^ suc pos / 2 ≡ t * 2 ^ pos = λ t. omega (arith, twice t) in
    bit_or_step (b * 2 ^ suc pos) (d * 2 ^ suc pos)
    ∙ rw (half b, half d, or_shift pos b d) (omega (arith, twice b, twice d, twice (bit_or b d)))
