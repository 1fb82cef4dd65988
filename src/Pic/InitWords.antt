-- ===== src/Pic/InitWords.antt =====
-- The words of the initialisation, `init_ctrl_word_1` to `4` of kernel/src/arch/pc/devices/pic.h: what
-- is read from their bytes and set in them.
use danaos.Prelude.{ℕ, ◌*◌, ◌/◌, ◌%◌, ◌^◌, ◌<◌, ◌≡◌, ◌∙◌, arith, Bool, true, false, u8}
use danaos.Fields.{of_bool, get_bit, set_bit, set_bits}
use danaos.Fields.Sums.{of_bool-lt, of_bool-test, get_bit-div}
use danaos.Pic.{init_ctrl_word_1}

abbrev pub get_expects_cw4 : ℕ → Bool
get_expects_cw4 raw = get_bit 8 raw 0

abbrev pub is_single_pic : ℕ → Bool
is_single_pic raw = get_bit 8 raw 1

abbrev pub has_reduced_call_interval : ℕ → Bool
has_reduced_call_interval raw = get_bit 8 raw 2

abbrev pub is_level_triggered : ℕ → Bool
is_level_triggered raw = get_bit 8 raw 3

abbrev pub is_init_start : ℕ → Bool
is_init_start raw = get_bit 8 raw 4

abbrev pub set_expects_cw4 : ℕ → Bool → ℕ
set_expects_cw4 raw val = set_bit 8 raw 0 val

abbrev pub set_single_pic : ℕ → Bool → ℕ
set_single_pic raw val = set_bit 8 raw 1 val

abbrev pub set_reduced_call_interval : ℕ → Bool → ℕ
set_reduced_call_interval raw val = set_bit 8 raw 2 val

abbrev pub set_level_triggered : ℕ → Bool → ℕ
set_level_triggered raw val = set_bit 8 raw 3 val

abbrev pub set_init_start : ℕ → Bool → ℕ
set_init_start raw val = set_bit 8 raw 4 val

abbrev pub get_iv_addr : ℕ → ℕ
get_iv_addr raw = raw / 32

unfoldable pub set_iv_addr : ℕ → ℕ → ℕ
set_iv_addr raw addr = set_bits 8 raw 5 3 (u8 (addr % 8 * 32))

abbrev pub get_idt_offset : ℕ → ℕ
get_idt_offset word = word

abbrev pub set_idt_offset : ℕ → ℕ → ℕ
set_idt_offset word offset = offset

abbrev pub get_slave_irq : ℕ → ℕ
get_slave_irq word = word

-- `1 << (irq & 0x7)` for the master.
abbrev pub set_slave_irq : ℕ → ℕ → Bool → ℕ
set_slave_irq word irq true = irq
set_slave_irq word irq false = u8 (2 ^ (irq % 8))

abbrev pub is_x86_mode : ℕ → Bool
is_x86_mode raw = get_bit 8 raw 0

abbrev pub is_auto_eoi : ℕ → Bool
is_auto_eoi raw = get_bit 8 raw 1

abbrev pub is_buffer_master : ℕ → Bool
is_buffer_master raw = get_bit 8 raw 2

abbrev pub is_buffered_mode : ℕ → Bool
is_buffered_mode raw = get_bit 8 raw 3

abbrev pub is_fully_nested : ℕ → Bool
is_fully_nested raw = get_bit 8 raw 4

abbrev pub set_x86_mode : ℕ → Bool → ℕ
set_x86_mode raw val = set_bit 8 raw 0 val

abbrev pub set_auto_eoi : ℕ → Bool → ℕ
set_auto_eoi raw val = set_bit 8 raw 1 val

abbrev pub set_buffer_master : ℕ → Bool → ℕ
set_buffer_master raw val = set_bit 8 raw 2 val

abbrev pub set_buffered_mode : ℕ → Bool → ℕ
set_buffered_mode raw val = set_bit 8 raw 3 val

abbrev pub set_fully_nested : ℕ → Bool → ℕ
set_fully_nested raw val = set_bit 8 raw 4 val

-- Every getter of the first word reads what the constructor was given; of the address, the low three
-- bits.
pub init_ctrl_word_1_lem :
    (expect_cw4 single_pic reduced level start : Bool) (iv_addr : ℕ)
    → let word = init_ctrl_word_1 expect_cw4 single_pic reduced level start iv_addr in
      (get_expects_cw4 word ≡ expect_cw4)
      × (is_single_pic word ≡ single_pic)
      × (has_reduced_call_interval word ≡ reduced)
      × (is_level_triggered word ≡ level)
      × (is_init_start word ≡ start)
      × (get_iv_addr word ≡ iv_addr % 8)
init_ctrl_word_1_lem expect_cw4 single_pic reduced level start iv_addr =
    let word : ℕ = init_ctrl_word_1 expect_cw4 single_pic reduced level start iv_addr in
    let a = of_bool-lt expect_cw4 in
    let b = of_bool-lt single_pic in
    let c = of_bool-lt reduced in
    let d = of_bool-lt level in
    let e = of_bool-lt start in
    let flag : (pos : ℕ) (f : Bool)
        → pos < 8
        → word / 2 ^ pos % 2 ≡ of_bool f
        → get_bit 8 word pos ≡ f =
      λ pos f l q. get_bit-div 8 word pos l ∙ rw q (of_bool-test f) in
    (
      flag 0 expect_cw4 (omega arith) (omega arith),
      flag 1 single_pic (omega arith) (omega arith),
      flag 2 reduced (omega arith) (omega arith),
      flag 3 level (omega arith) (omega arith),
      flag 4 start (omega arith) (omega arith),
      omega arith,
    )
