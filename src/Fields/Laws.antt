-- ===== src/Fields/Laws.antt =====
-- A field is read back as it was set, and setting it leaves the other bits.
use danaos.Prelude.{
  ℕ, zero, suc, ◌+◌, ◌-◌, ◌*◌, ◌/◌, ◌%◌, ◌^◌, ◌≤◌, ◌<◌, ◌≡◌, ◌⊎◌, sym, ◌∙◌, ap, arith, bit, bit_and,
  Bool, true, false, ◌&&◌, not, ltb, leb, ◌==◌, if◌then◌else◌, eq_of_bits, bit_or-lt, bit_and-le,
  bit-bit_or, bit-bit_and, bit_complement, bit-lt, zero-bit, bit_and-pow,
}
use native.Mathlib.Nat.{
  pow-zero, pow-suc, one-le-pow, mod-eq_of_lt, mod-lt, mod_self, pow-le-pow_right,
}
use danaos.Fields.{of_bool, get_mask, complement, set_bits, set_bit, get_bits, get_bit}

flag_lem : (b p : ℕ) → b < 2 → 1 ≤ p → not (b * p == 0) ≡ (b == 1)
flag_lem zero p h l = ground arith
flag_lem (suc zero) p h l = ground arith
flag_lem (suc (suc b)) p h l = absurd (omega arith)

-- The digits of a run of ones, and of a shifted word.
ones-bit : (length k : ℕ) → bit (2 ^ length - 1) k ≡ (if ltb k length then 1 else 0)
ones-bit zero k = zero-bit k ∙ ground arith
ones-bit (suc length) zero = ground (arith, pow-suc 2 length, one-le-pow length 2)
ones-bit (suc length) (suc k) =
    let half : (2 ^ suc length - 1) / 2 ≡ 2 ^ length - 1 =
      omega (arith, pow-suc 2 length, one-le-pow length 2) in
    rw half (ones-bit length k ∙ ground arith)

pub shifted-bit : (pos a k : ℕ) → bit (a * 2 ^ pos) k ≡ (if leb pos k then bit a (k - pos) else 0)
shifted-bit zero a k = rw pow-zero (
    let e : a * 1 ≡ a = omega arith in
    rw e (let z : k - 0 ≡ k = omega arith in rw z (ground arith)))
shifted-bit (suc pos) a zero =
    let even : a * 2 ^ suc pos % 2 ≡ 0 = rw pow-suc (omega arith) in even ∙ ground arith
shifted-bit (suc pos) a (suc k) =
    let half : a * 2 ^ suc pos / 2 ≡ a * 2 ^ pos = rw pow-suc (omega arith) in
    rw half (shifted-bit pos a k ∙ ground arith)

-- The bit `k` lies in the field.
abbrev pub in_field : ℕ → ℕ → ℕ → Bool
in_field pos length k = leb pos k && ltb k (pos + length)

pow_sum : (a b : ℕ) → 2 ^ (a + b) ≡ 2 ^ a * 2 ^ b
pow_sum zero b = let z : 0 + b ≡ b = omega arith in rw (z, pow-zero) (omega arith)
pow_sum (suc a) b =
    let s : suc a + b ≡ suc (a + b) = omega arith in
    rw (s, pow-suc 2 (a + b), pow-suc 2 a, pow_sum a b) (omega arith)

pub mask-lt : (w pos length : ℕ) → pos + length ≤ w → (2 ^ length - 1) * 2 ^ pos < 2 ^ w
mask-lt w pos length l =
    let split : 2 ^ (length + pos) ≡ 2 ^ length * 2 ^ pos = pow_sum length pos in
    let le : 2 ^ (length + pos) ≤ 2 ^ w =
      pow-le-pow_right {n = 2} (omega arith) {i = length + pos} {j = w} (omega arith) in
    let one : (2 ^ length - 1) * 2 ^ pos < 2 ^ length * 2 ^ pos =
      grind (arith, one-le-pow length 2, one-le-pow pos 2) in
    omega arith

mask-bit :
    (w pos length k : ℕ)
    → pos + length ≤ w
    → bit (get_mask w pos length) k ≡ (if in_field pos length k then 1 else 0)
mask-bit w pos length k l =
    rw
      (
        mod-eq_of_lt (mask-lt w pos length l),
        shifted-bit pos (2 ^ length - 1) k,
        ones-bit length (k - pos),
      )
      (ground arith)

-- Setting a field of the word gives it the bits of the value there, and leaves every other bit.
pub bit-set_bits :
    (w word pos length val k : ℕ)
    → pos + length ≤ w
    → k < w
    → bit (set_bits w word pos length val) k
      ≡ (if in_field pos length k then bit val k else bit word k)
unfolding set_bits
bit-set_bits w word pos length val k l h =
    rw
      (
        bit-bit_or,
        bit-bit_and word (complement w (get_mask w pos length)) k,
        bit-bit_and val (get_mask w pos length) k,
        bit_complement w (get_mask w pos length) k
            (mod-lt ((2 ^ length - 1) * 2 ^ pos) (one-le-pow w 2 (omega arith))) h,
        mask-bit w pos length k l,
      )
      (ground (arith, bit-lt word k, bit-lt val k))

mask_bound : (w pos length : ℕ) → get_mask w pos length < 2 ^ w
mask_bound w pos length = mod-lt ((2 ^ length - 1) * 2 ^ pos) (one-le-pow w 2 (omega arith))

set_bits-lt :
    (w word pos length val : ℕ)
    → word < 2 ^ w
    → val < 2 ^ w
    → set_bits w word pos length val < 2 ^ w
unfolding set_bits
set_bits-lt w word pos length val p q =
    bit_or-lt w (bit_and word (complement w (get_mask w pos length)))
      (bit_and val (get_mask w pos length))
      (omega (arith, bit_and-le word (complement w (get_mask w pos length))))
      (omega (arith, bit_and-le val (get_mask w pos length)))

-- A field inside the word reads as the value that was set has it there, for values that fit the
-- word.
pub get_bits-set_bits :
    (w word pos length val : ℕ)
    → pos + length ≤ w
    → word < 2 ^ w
    → val < 2 ^ w
    → get_bits w (set_bits w word pos length val) pos length ≡ get_bits w val pos length
unfolding get_bits
get_bits-set_bits w word pos length val l p q =
    let set : ℕ = set_bits w word pos length val in
    let mask : ℕ = get_mask w pos length in
    eq_of_bits w (bit_and set mask) (bit_and val mask)
      (omega (arith, bit_and-le set mask, set_bits-lt w word pos length val p q))
      (omega (arith, bit_and-le val mask))
      (λ k h.
        rw
          (
            bit-bit_and set mask k,
            bit-bit_and val mask k,
            mask-bit w pos length k l,
            bit-set_bits w word pos length val k l h,
          )
          (ground arith))

pub get_bit-eq-bit : (w word pos : ℕ) → pos < w → get_bit w word pos ≡ (bit word pos == 1)
unfolding get_bit
get_bit-eq-bit w word pos l =
    let one : (2 ^ 1 - 1) * 2 ^ pos ≡ 2 ^ pos = omega arith in
    let lone : (2 ^ 1 - 1) * 2 ^ pos % 2 ^ w ≡ 2 ^ pos =
      mod-eq_of_lt (mask-lt w pos 1 (omega arith)) ∙ one in
    rw (lone, bit_and-pow pos word)
      (flag_lem (bit word pos) (2 ^ pos) (bit-lt word pos) (one-le-pow pos 2 (omega arith)))

ones : (w : ℕ) → (2 ^ w - 1) % 2 ^ w ≡ 2 ^ w - 1
ones w = let p : 1 ≤ 2 ^ w = one-le-pow w 2 (omega arith) in mod-eq_of_lt (omega arith)

wrap : (w : ℕ) → (2 ^ w - 0) % 2 ^ w ≡ 0
wrap w = let e : 2 ^ w - 0 ≡ 2 ^ w = omega arith in rw e (mod_self (2 ^ w))

-- A flag reads as it was set.
pub get_bit-set_bit :
    (w word pos : ℕ) (val : Bool) → pos < w → get_bit w (set_bit w word pos val) pos ≡ val
unfolding set_bit set_bits
get_bit-set_bit w word pos val l =
    get_bit-eq-bit w (set_bit w word pos val) pos l
    ∙ ap (λ (t : ℕ). t == 1)
        (bit-set_bits w word pos 1 ((2 ^ w - of_bool val) % 2 ^ w) pos (omega arith) l)
    ∙ read val
  where
    read :
        (v : Bool)
        → ((if in_field pos 1 pos then bit ((2 ^ w - of_bool v) % 2 ^ w) pos else bit word pos)
            == 1)
          ≡ v
    read true = rw (ones w, ones-bit w pos) (ground arith)
    read false = rw (wrap w, zero-bit pos) (ground arith)

-- Setting a flag leaves the other flags.
pub get_bit-set_bit_other :
    (w word pos k : ℕ) (val : Bool)
    → pos < w
    → k < w
    → (k < pos) ⊎ (pos < k)
    → get_bit w (set_bit w word pos val) k ≡ get_bit w word k
unfolding set_bit set_bits
get_bit-set_bit_other w word pos k val l m d =
    get_bit-eq-bit w (set_bit w word pos val) k m
    ∙ ap (λ (t : ℕ). t == 1)
        (bit-set_bits w word pos 1 ((2 ^ w - of_bool val) % 2 ^ w) k (omega arith) m
          ∙ ground (arith, d))
    ∙ sym (get_bit-eq-bit w word k m)
