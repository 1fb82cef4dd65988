-- ===== src/Pic/EoiWord.antt =====
-- The word that ends an interrupt, `op_cmd_word_2` of kernel/src/arch/pc/devices/pic.h.
use danaos.Prelude.{ℕ, ◌/◌, ◌%◌, ◌^◌, ◌<◌, ◌≡◌, ◌∙◌, refl, arith, ◌==◌, Bool, not, bit_and}
use danaos.Fields.{of_bool, get_bit, set_bit, set_bits}
use danaos.Fields.Sums.{of_bool-lt, of_bool-test, get_bit-div, and_low}
use danaos.Pic.{op_cmd_word_2}

-- The result is a `bool`.
unfoldable pub get_irq : ℕ → Bool
get_irq raw = not (bit_and raw 7 == 0)

abbrev pub is_eoi : ℕ → Bool
is_eoi raw = get_bit 8 raw 5

abbrev pub is_selection : ℕ → Bool
is_selection raw = get_bit 8 raw 6

abbrev pub is_rotation : ℕ → Bool
is_rotation raw = get_bit 8 raw 7

abbrev pub set_eoi : ℕ → Bool → ℕ
set_eoi raw val = set_bit 8 raw 5 val

abbrev pub set_selection : ℕ → Bool → ℕ
set_selection raw val = set_bit 8 raw 6 val

abbrev pub set_rotation : ℕ → Bool → ℕ
set_rotation raw val = set_bit 8 raw 7 val

unfoldable pub set_irq : ℕ → ℕ → ℕ
set_irq raw irq = set_bits 8 raw 0 3 irq

-- The flags of the word read back as the constructor was given them; in place of the interrupt
-- `get_irq` answers only whether it is another one than 0, of the eight.
pub op_cmd_word_2_lem :
    (irq : ℕ) (eoi selection rotation : Bool)
    → let word = op_cmd_word_2 irq eoi selection rotation in
      (is_eoi word ≡ eoi)
      × (is_selection word ≡ selection)
      × (is_rotation word ≡ rotation)
      × (get_irq word ≡ not (irq % 8 == 0))
unfolding get_irq
op_cmd_word_2_lem irq eoi selection rotation =
    let word : ℕ = op_cmd_word_2 irq eoi selection rotation in
    let a = of_bool-lt eoi in
    let b = of_bool-lt selection in
    let c = of_bool-lt rotation in
    let flag : (pos : ℕ) (f : Bool)
        → pos < 8
        → word / 2 ^ pos % 2 ≡ of_bool f
        → get_bit 8 word pos ≡ f =
      λ pos f l q. get_bit-div 8 word pos l ∙ rw q (of_bool-test f) in
    let low : word % 8 ≡ irq % 8 = omega arith in
    (
      flag 5 eoi (omega arith) (omega arith),
      flag 6 selection (omega arith) (omega arith),
      flag 7 rotation (omega arith) (omega arith),
      rw (and_low 3 word, low) refl,
    )
