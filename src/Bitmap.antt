-- ===== src/Bitmap.antt =====
-- `util::bitmap<size_t>` of kernel/src/hal/util/bitmap.h, for the i386 build, where a block is a
-- word of 32 bits. `mem i` is the word at `m_ptr[i]`; the code never checks an index against
-- `m_blocks`, so the function goes on behind the last block.
pub mod Laws
pub mod Scan
use danaos.Prelude.{
  ℕ, zero, suc, ◌+◌, ◌-◌, ◌*◌, ◌/◌, ◌%◌, ◌^◌, bit_and, bit_or, Bool, true, false, not, Option, none,
  some, ◌==◌, if◌then◌else◌, add32, sub32, mul32, max32, update,
}

abbrev pub bits_per_block : ℕ
bits_per_block = 32

abbrev pub npos : ℕ
npos = max32

pub record Bitmap : Type 0 where
  pub bits : ℕ
  pub blocks : ℕ
  pub mem : ℕ → ℕ

abbrev pub get_byte_count : ℕ → ℕ
get_byte_count bits = add32 1 (sub32 bits 1 / bits_per_block)

abbrev pub block_index : ℕ → ℕ
block_index bit = bit / bits_per_block

abbrev pub bit_index : ℕ → ℕ
bit_index bit = bit % bits_per_block

-- The constructor over existing memory.
unfoldable pub new_bitmap : (ℕ → ℕ) → ℕ → Bitmap
new_bitmap addr bits = record { bits = bits; blocks = get_byte_count bits; mem = addr }

-- The loop of `clear()` and `set()`: `rounds` blocks from block `i` on are given the word `w`.
fill_blocks : ℕ → ℕ → ℕ → (ℕ → ℕ) → ℕ → ℕ
fill_blocks zero i w mem = mem
fill_blocks (suc rounds) i w mem = fill_blocks rounds (i + 1) w (update mem i w)

unfoldable pub clear_all : Bitmap → Bitmap
unfolding fill_blocks
clear_all b = record b { mem = fill_blocks b.blocks 0 0 b.mem }

unfoldable pub set_all : Bitmap → Bitmap
unfolding fill_blocks
set_all b = record b { mem = fill_blocks b.blocks 0 max32 b.mem }

-- `1 << k`; the complement `~(1 << k)` is taken among 32 bits.
abbrev pub shifted_one : ℕ → ℕ
shifted_one k = 2 ^ k

unfoldable pub clear : Bitmap → ℕ → Bitmap
clear b bit =
    let i = block_index bit in
    record b { mem = update b.mem i (bit_and (b.mem i) (2 ^ 32 - 1 - shifted_one (bit_index bit))) }

unfoldable pub set : Bitmap → ℕ → Bitmap
set b bit =
    let i = block_index bit in
    record b { mem = update b.mem i (bit_or (b.mem i) (shifted_one (bit_index bit))) }

unfoldable pub get : Bitmap → ℕ → Bool
get b bit = not (bit_and (b.mem (block_index bit)) (shifted_one (bit_index bit)) == 0)

unfoldable pub test_and_set : Bitmap → ℕ → Bool × Bitmap
test_and_set b bit = let value = get b bit in (value, set b bit)

unfoldable pub test_and_clear : Bitmap → ℕ → Bool × Bitmap
test_and_clear b bit = let value = get b bit in (value, clear b bit)

-- The inner loop over `j`: the first digit of `w` from `j` on that equals `wanted`.
unfoldable pub scan_word : Bool → ℕ → ℕ → ℕ → Option ℕ
scan_word wanted zero j w = none
scan_word wanted (suc rounds) j w =
    let rest = scan_word wanted rounds (j + 1) w in
    let is_set = not (bit_and w (shifted_one j) == 0) in
    if (if wanted then is_set else not is_set) then some j else rest

-- What is returned from block `i`: the digit found, and the block's last one otherwise.
abbrev in_block : ℕ → Option ℕ → ℕ
in_block i (some j) = add32 (mul32 i bits_per_block) j
in_block i none = sub32 (mul32 (add32 i 1) bits_per_block) 1

-- The outer loop over `i`: a block that equals `skip` is passed over. In any other block the last
-- digit is taken where the inner loop, over the digits below it, finds nothing.
unfoldable pub scan_blocks : Bool → ℕ → ℕ → ℕ → (ℕ → ℕ) → ℕ
scan_blocks wanted skip zero i mem = npos
scan_blocks wanted skip (suc rounds) i mem =
    let rest = scan_blocks wanted skip rounds (i + 1) mem in
    if mem i == skip then rest else in_block i (scan_word wanted (bits_per_block - 1) 0 (mem i))

unfoldable pub get_first_clear : Bitmap → ℕ
unfolding scan_blocks scan_word
get_first_clear b = scan_blocks false max32 b.blocks 0 b.mem

unfoldable pub get_first_set : Bitmap → ℕ
unfolding scan_blocks scan_word
get_first_set b = scan_blocks true 0 b.blocks 0 b.mem
