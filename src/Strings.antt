-- ===== src/Strings.antt =====
-- `memset`, `memcpy` and `strncmp` of kernel/src/libk/string.cc, over memory by bytes. Addresses
-- that wrap are left out: the ranges lie below the end of the address space.
pub mod Copies
pub mod Compare
pub mod Length
use danaos.Prelude.{
  ℕ, zero, suc, ◌+◌, ◌%◌, Bool, not, ◌&&◌, ◌||◌, ltb, ◌==◌, if◌then◌else◌, max32, update,
}

-- The loop of `memset`, with the bytes left.
unfoldable pub memset : ℕ → ℕ → ℕ → (ℕ → ℕ) → ℕ → ℕ
memset dst c zero mem = mem
memset dst c (suc len) mem = memset (dst + 1) c len (update mem dst c)

-- The loop of `memcpy`, from the byte `i` on, with the bytes left.
unfoldable pub copy_from : ℕ → ℕ → ℕ → ℕ → (ℕ → ℕ) → ℕ → ℕ
copy_from dst src i zero mem = mem
copy_from dst src i (suc left) mem =
    copy_from dst src (i + 1) left (update mem (dst + i) (mem (src + i)))

unfoldable pub memcpy : ℕ → ℕ → ℕ → (ℕ → ℕ) → ℕ → ℕ
unfolding copy_from
memcpy dst src bytes mem = copy_from dst src 0 bytes mem

-- The answers -1, 0 and 1.
pub data Order : Type 0 where
  less same greater : Order

-- `char` is signed.
abbrev pub char_lt : ℕ → ℕ → Bool
char_lt a b = ltb ((a + 128) % 256) ((b + 128) % 256)

-- What is answered behind the loop, for the count that the test has left.
unfoldable pub compare_end : ℕ → ℕ → ℕ → Order
compare_end count c1 c2 =
    if (count == 0) || (c1 == c2) then same else (if c1 == 0 then less else greater)

-- The test of the loop counts down even where it fails, and a count of 0 wraps.
unfoldable pub strncmp : (ℕ → ℕ) → ℕ → ℕ → ℕ → Order
unfolding compare_end
strncmp mem str1 str2 zero = compare_end max32 (mem str1) (mem str2)
strncmp mem str1 str2 (suc count) =
    let rest = strncmp mem (str1 + 1) (str2 + 1) count in
    if not (mem str1 == 0) && not (mem str2 == 0)
    then (if char_lt (mem str1) (mem str2)
        then less
        else (if char_lt (mem str2) (mem str1) then greater else rest))
    else compare_end count (mem str1) (mem str2)
