-- ===== src/Pic/ReadWord.antt =====
-- The word that chooses a register to read, `op_cmd_word_3` of kernel/src/arch/pc/devices/pic.h.
use danaos.Prelude.{ℕ, ◌+◌, ◌*◌, Bool, bit_and}
use danaos.Fields.{of_bool, get_bit, set_bit, set_bits}

pub data InternalRegister : Type 0 where
  none isr irr : InternalRegister

pub data SpecialMaskAction : Type 0 where
  keep set reset : SpecialMaskAction

abbrev pub register_code : InternalRegister → ℕ
register_code none = 0
register_code isr = 2
register_code irr = 3

abbrev pub action_code : SpecialMaskAction → ℕ
action_code keep = 0
action_code set = 64
action_code reset = 96

abbrev pub new_word : InternalRegister → Bool → SpecialMaskAction → ℕ
new_word reg poll mask = register_code reg + 4 * of_bool poll + action_code mask

-- The value of the enumeration that the bits stand for.
abbrev pub get_reg : ℕ → ℕ
get_reg raw = bit_and raw 3

abbrev pub is_poll : ℕ → Bool
is_poll raw = get_bit 8 raw 2

abbrev pub get_mask : ℕ → ℕ
get_mask raw = bit_and raw 96

unfoldable pub set_reg : ℕ → InternalRegister → ℕ
set_reg raw reg = set_bits 8 raw 0 2 (register_code reg)

abbrev pub set_poll : ℕ → Bool → ℕ
set_poll raw val = set_bit 8 raw 2 val

unfoldable pub set_mask : ℕ → SpecialMaskAction → ℕ
set_mask raw mask = set_bits 8 raw 5 2 (action_code mask)
