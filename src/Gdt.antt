-- ===== src/Gdt.antt =====
-- The global descriptor table of the i386 kernel, kernel/src/arch/i386/hal/interrupts/gdt.h and
-- gdt.cc: the 64-bit entries and the 16-bit selectors, with their constructors, getters and setters.
pub mod Entries
pub mod Selectors
pub mod Setters
pub mod Table
use danaos.Prelude.{ℕ, ◌+◌, ◌-◌, ◌*◌, ◌/◌, ◌%◌, ◌^◌, bit_and, bit_or, Bool, true, u8, u16, u32}
use danaos.Fields.{of_bool, set_bits, set_bit, get_bits, get_bit}

-- A level is kept as its number.
pub data DplLevel : Type 0 where
  ring_0 ring_1 ring_2 ring_3 : DplLevel

abbrev pub level : DplLevel → ℕ
level ring_0 = 0
level ring_1 = 1
level ring_2 = 2
level ring_3 = 3

-- The flags that the constructor of an entry takes.
pub record EntryFlags : Type 0 where
  pub present : Bool
  pub rw_flag : Bool
  pub down : Bool
  pub exec : Bool
  pub size32 : Bool
  pub gran4kb : Bool

unfoldable pub entry : ℕ → ℕ → DplLevel → EntryFlags → ℕ
entry base limit priv f =
    bit_or
      (bit_or
        (bit_or
          (bit_or
            (bit_or
              (bit_or
                (bit_or
                  (bit_or
                    (bit_or
                      (bit_or (bit_or (bit_and limit 65535) (bit_and base 16777215 * 2 ^ 16))
                        (of_bool f.rw_flag * 2 ^ 41))
                      (of_bool f.down * 2 ^ 42))
                    (of_bool f.exec * 2 ^ 43))
                  (1 * 2 ^ 44))
                (level priv * 2 ^ 45))
              (of_bool f.present * 2 ^ 47))
            (bit_and limit 983040 * 2 ^ 32))
          (of_bool f.size32 * 2 ^ 54))
        (of_bool f.gran4kb * 2 ^ 55))
      (bit_and base 4278190080 * 2 ^ 32)

abbrev pub is_accessed : ℕ → Bool
is_accessed raw = get_bit 64 raw 40

abbrev pub is_read_write : ℕ → Bool
is_read_write raw = get_bit 64 raw 41

abbrev pub is_growing_down : ℕ → Bool
is_growing_down raw = get_bit 64 raw 42

abbrev pub is_executable : ℕ → Bool
is_executable raw = get_bit 64 raw 43

abbrev pub is_present : ℕ → Bool
is_present raw = get_bit 64 raw 47

abbrev pub is_size_32bit : ℕ → Bool
is_size_32bit raw = get_bit 64 raw 54

abbrev pub is_granular_4kb : ℕ → Bool
is_granular_4kb raw = get_bit 64 raw 55

-- The cast to the enumeration keeps the low byte of the masked word, which is not shifted down.
abbrev pub get_privilege_level : ℕ → ℕ
get_privilege_level raw = u8 (get_bits 64 raw 45 2)

abbrev pub get_base_address : ℕ → ℕ
get_base_address raw = u32 (bit_or (get_bits 64 raw 16 24 / 2 ^ 16) (get_bits 64 raw 56 8 / 2 ^ 32))

abbrev pub get_limit : ℕ → ℕ
get_limit raw = u32 (bit_or (get_bits 64 raw 0 16) (get_bits 64 raw 48 4 / 2 ^ 32))

abbrev pub set_accessed : ℕ → Bool → ℕ
set_accessed raw val = set_bit 64 raw 40 val

abbrev pub set_read_write : ℕ → Bool → ℕ
set_read_write raw val = set_bit 64 raw 41 val

abbrev pub set_growing_down : ℕ → Bool → ℕ
set_growing_down raw val = set_bit 64 raw 42 val

abbrev pub set_executable : ℕ → Bool → ℕ
set_executable raw val = set_bit 64 raw 43 val

abbrev pub set_present : ℕ → Bool → ℕ
set_present raw val = set_bit 64 raw 47 val

abbrev pub set_size : ℕ → Bool → ℕ
set_size raw bit32 = set_bit 64 raw 54 bit32

abbrev pub set_granular : ℕ → Bool → ℕ
set_granular raw gran4kb = set_bit 64 raw 55 gran4kb

abbrev pub set_privilege_level : ℕ → DplLevel → ℕ
set_privilege_level raw lvl = set_bits 64 raw 45 2 (level lvl * 2 ^ 45)

unfoldable pub set_base_address : ℕ → ℕ → ℕ
set_base_address raw addr =
    bit_or (bit_and raw 18374687579183185920)
      (bit_or (bit_and addr 16777215 * 2 ^ 16) (bit_and addr 4278190080 * 2 ^ 32))

unfoldable pub set_limit : ℕ → ℕ → ℕ
set_limit raw limit =
    bit_or (bit_and raw 4222124650725375)
      (bit_or (bit_and limit 65535) (bit_and limit 983040 * 2 ^ 32))
