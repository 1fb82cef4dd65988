-- ===== src/Pic/MaskWord.antt =====
-- The mask, `op_cmd_word_1` of kernel/src/arch/pc/devices/pic.h.
use danaos.Prelude.{ℕ, Bool}
use danaos.Fields.{get_bit, set_bit}

abbrev pub get_irq : ℕ → ℕ → Bool
get_irq raw irq = get_bit 8 raw irq

abbrev pub set_irq : ℕ → ℕ → Bool → ℕ
set_irq raw irq val = set_bit 8 raw irq val
