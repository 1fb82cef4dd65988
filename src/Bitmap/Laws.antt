-- ===== src/Bitmap/Laws.antt =====
-- Single bits: reading after writing, and what the whole-map operations leave.
use danaos.Prelude.{
  ℕ, zero, suc, ◌+◌, ◌-◌, ◌*◌, ◌/◌, ◌%◌, ◌^◌, ◌<◌, ◌≡◌, true, false, not, arith, ◌==◌,
  if◌then◌else◌, ltb, update, bit, bit-lt, bit-bit_or, bit-bit_and, bit-pow, bit_complement,
  bit_and-pow, zero-bit, ◌||◌, pow-lt_pow, bit_or-lt, bit_and-le, max32,
}
use native.Mathlib.Nat.{one-le-pow}
use danaos.Bitmap.{Bitmap, get, set, clear, clear_all, set_all, fill_blocks}

-- `get` reads one binary digit of one block.
pub get-eq-bit : (b : Bitmap) (i : ℕ) → get b i ≡ (bit (b.mem (i / 32)) (i % 32) == 1)
unfolding get
get-eq-bit b i = ground (
  arith,
  bit_and-pow (i % 32) (b.mem (i / 32)),
  bit-lt (b.mem (i / 32)) (i % 32),
  one-le-pow (i % 32) 2,
)

-- Setting a bit sets that bit, and no other bit of the memory changes.
pub get-set : (b : Bitmap) (i j : ℕ) → get (set b i) j ≡ (if i == j then true else get b j)
unfolding set
get-set b i j =
    rw (get-eq-bit b j, get-eq-bit (set b i) j)
      (ground (
        arith,
        bit-bit_or (b.mem (i / 32)) (2 ^ (i % 32)) (j % 32),
        bit-pow (i % 32) (j % 32),
        bit-lt (b.mem (i / 32)) (j % 32),
      ))

-- Clearing a bit clears that bit, and no other bit of the memory changes.
pub get-clear : (b : Bitmap) (i j : ℕ) → get (clear b i) j ≡ (if i == j then false else get b j)
unfolding clear
get-clear b i j =
    rw (get-eq-bit b j, get-eq-bit (clear b i) j)
      (ground (
        arith,
        bit-bit_and (b.mem (i / 32)) (2 ^ 32 - 1 - 2 ^ (i % 32)) (j % 32),
        bit_complement 32 (2 ^ (i % 32)) (j % 32) (pow-lt_pow (i % 32) 32 (omega arith))
            (omega arith),
        bit-pow (i % 32) (j % 32),
        bit-lt (b.mem (i / 32)) (j % 32),
      ))

-- Every block holds 32 bits, and there are so few blocks that no bit index wraps.
pub record IsValid (b : Bitmap) : Type 0 where
  pub words : (i : ℕ) → b.mem i < 2 ^ 32
  pub few : b.blocks < 2 ^ 27

pub set-IsValid : (b : Bitmap) (i : ℕ) → IsValid b → IsValid (set b i)
unfolding set
set-IsValid b i v = record {
  words = λ j. ground (
    arith,
    v.words j,
    v.words (i / 32),
    bit_or-lt 32 (b.mem (i / 32)) (2 ^ (i % 32)) (v.words (i / 32))
        (pow-lt_pow (i % 32) 32 (omega arith)),
  );
  few = v.few;
}

pub clear-IsValid : (b : Bitmap) (i : ℕ) → IsValid b → IsValid (clear b i)
unfolding clear
clear-IsValid b i v = record {
  words = λ j.
      ground (
        arith,
        v.words j,
        v.words (i / 32),
        bit_and-le (b.mem (i / 32)) (2 ^ 32 - 1 - 2 ^ (i % 32)),
      );
  few = v.few;
}

-- The fill loop writes the blocks of its range and no other.
fill_blocks_lem :
    (rounds i w : ℕ) (mem : ℕ → ℕ) (j : ℕ)
    → fill_blocks rounds i w mem j ≡ (if ltb j i || not (ltb j (i + rounds)) then mem j else w)
unfolding fill_blocks
fill_blocks_lem zero i w mem j = ground arith
fill_blocks_lem (suc rounds) i w mem j =
    ground (arith, fill_blocks_lem rounds (i + 1) w (update mem i w) j)

-- `clear()` clears every bit of the blocks, and `set()` sets every one. Bits behind the last block
-- stay as they are.
pub get-clear_all :
    (b : Bitmap) (j : ℕ) → get (clear_all b) j ≡ (if ltb j (b.blocks * 32) then false else get b j)
unfolding clear_all
get-clear_all b j =
    rw (get-eq-bit b j, get-eq-bit (clear_all b) j)
      (ground (arith, fill_blocks_lem b.blocks 0 0 b.mem (j / 32), zero-bit (j % 32)))

pub get-set_all :
    (b : Bitmap) (j : ℕ) → get (set_all b) j ≡ (if ltb j (b.blocks * 32) then true else get b j)
unfolding set_all
get-set_all b j =
    rw (get-eq-bit b j, get-eq-bit (set_all b) j)
      (ground (
        arith,
        fill_blocks_lem b.blocks 0 max32 b.mem (j / 32),
        bit_complement 32 0 (j % 32) (omega arith) (omega arith),
        zero-bit (j % 32),
      ))
