-- ===== src/Fields.antt =====
-- The bit fields of kernel/src/hal/util/bitmap.h: `util::get_mask`, `set_bits`, `set_bit`,
-- `get_bits` and `get_bit`, over words of `w` bits.
pub mod Laws
pub mod Sums
use danaos.Prelude.{ℕ, ◌+◌, ◌-◌, ◌*◌, ◌%◌, ◌^◌, bit_and, bit_or, Bool, true, false, not, ◌==◌}

abbrev pub of_bool : Bool → ℕ
of_bool true = 1
of_bool false = 0

abbrev pub get_mask : ℕ → ℕ → ℕ → ℕ
get_mask w pos length = (2 ^ length - 1) * 2 ^ pos % 2 ^ w

-- `~mask` within the word.
abbrev pub complement : ℕ → ℕ → ℕ
complement w a = 2 ^ w - 1 - a

unfoldable pub set_bits : ℕ → ℕ → ℕ → ℕ → ℕ → ℕ
set_bits w word pos length val =
    bit_or (bit_and word (complement w (get_mask w pos length)))
      (bit_and val (get_mask w pos length))

-- `-val` is the word of all ones or of all zeros.
unfoldable pub set_bit : ℕ → ℕ → ℕ → Bool → ℕ
set_bit w word pos val =
    bit_or (bit_and word (complement w (get_mask w pos 1)))
      (bit_and ((2 ^ w - of_bool val) % 2 ^ w) (get_mask w pos 1))

unfoldable pub get_bits : ℕ → ℕ → ℕ → ℕ → ℕ
get_bits w word pos length = bit_and word (get_mask w pos length)

-- The result is read as a bool.
unfoldable pub get_bit : ℕ → ℕ → ℕ → Bool
get_bit w word pos = not (bit_and word (get_mask w pos 1) == 0)
