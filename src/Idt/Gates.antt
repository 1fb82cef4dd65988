-- ===== src/Idt/Gates.antt =====
-- The gates that the constructor makes, read back by the getters, and the gates that `init` sets.
use danaos.Prelude.{
  ℕ, zero, suc, ◌+◌, ◌*◌, ◌/◌, ◌%◌, ◌^◌, ◌<◌, ◌≡◌, ◌∙◌, refl, arith, Bool, true, ltb, leb, ◌&&◌,
  if◌then◌else◌, bit_and, bit_or, update, u16, u32,
}
use danaos.Fields.{of_bool}
use danaos.Fields.Sums.{of_bool-lt, of_bool-test, or_above, and_low, get_bit-div}
use danaos.Gdt.{DplLevel, level, ring_0}
use danaos.Gdt.Entries.{level-lt}
use danaos.Idt.{
  gate_count, GateType, type_code, interrupt, Gate, gate, is_present, get_privilege_level, get_type,
  get_selector, get_offset, Idt, init_gates, init,
}

type_code-lt : (type : GateType) → type_code type < 16
type_code-lt type = ground arith

gate-flags :
    (offset sel : ℕ) (type : GateType) (lvl : DplLevel) (present : Bool)
    → (gate offset sel type lvl present).flags
      ≡ type_code type + level lvl * 2 ^ 5 + of_bool present * 2 ^ 7
unfolding gate
gate-flags offset sel type lvl present =
    let t = type_code-lt type in
    let l = level-lt lvl in
    let b = of_bool-lt present in
    let te : type_code type % 2 ^ 4 ≡ type_code type = omega arith in
    let le : level lvl % 2 ^ 2 ≡ level lvl = omega arith in
    rw
      (
        and_low 4 (type_code type),
        and_low 2 (level lvl),
        te,
        le,
        or_above 5 (type_code type) (level lvl) (omega arith),
        or_above 7 (type_code type + level lvl * 2 ^ 5) (of_bool present) (omega arith),
      )
      (omega arith)

offset_lem :
    (offset : ℕ)
    → offset < 2 ^ 32
    → u32 (bit_or (bit_and offset 65535) (u16 (offset / 2 ^ 16) * 2 ^ 16)) ≡ offset
offset_lem offset l =
    rw (and_low 16 offset, or_above 16 (offset % 2 ^ 16) (u16 (offset / 2 ^ 16)) (omega arith))
      (omega arith)

-- A gate has the type, the level, the flag and the selector that it is made with, and the offset
-- where that has 32 bits.
pub gate_lem :
    (offset sel : ℕ) (type : GateType) (lvl : DplLevel) (present : Bool)
    → offset < 2 ^ 32
    → (get_offset (gate offset sel type lvl present) ≡ offset)
      × (get_selector (gate offset sel type lvl present) ≡ sel)
      × (get_type (gate offset sel type lvl present) ≡ type_code type)
      × (get_privilege_level (gate offset sel type lvl present) ≡ level lvl)
      × (is_present (gate offset sel type lvl present) ≡ present)
unfolding gate
gate_lem offset sel type lvl present h =
    let t = type_code-lt type in
    let l = level-lt lvl in
    let b = of_bool-lt present in
    let sum = gate-flags offset sel type lvl present in
    let flags = type_code type + level lvl * 2 ^ 5 + of_bool present * 2 ^ 7 in
    let flag_bit : flags / 2 ^ 7 % 2 ≡ of_bool present = omega arith in
    (
      offset_lem offset h,
      refl,
      and_low 4 (gate offset sel type lvl present).flags ∙ rw sum (omega arith),
      and_low 2 ((gate offset sel type lvl present).flags / 2 ^ 5) ∙ rw sum (omega arith),
      get_bit-div 8 (gate offset sel type lvl present).flags 7 (omega arith)
          ∙ rw (sum, flag_bit) (of_bool-test present),
    )

init_gates_lem :
    (isr_addresses : ℕ → ℕ) (kernel_seg left i j : ℕ) (table : ℕ → Gate)
    → init_gates isr_addresses kernel_seg left i table j ≡ (
        if leb i j && ltb j (i + left)
        then gate (isr_addresses j) kernel_seg interrupt ring_0 true
        else table j)
unfolding init_gates
init_gates_lem isr_addresses kernel_seg zero i j table = ground arith
init_gates_lem isr_addresses kernel_seg (suc left) i j table =
    init_gates_lem isr_addresses kernel_seg left (i + 1) j
      (update table i (gate (isr_addresses i) kernel_seg interrupt ring_0 true))
    ∙ ground arith

-- After `init`, the gate of every vector below 256 is a present interrupt gate of level 0 that has
-- the address of the vector's service routine, where that has 32 bits, and the kernel's segment.
pub int_desc_table_init_lem :
    (isr_addresses : ℕ → ℕ) (kernel_seg i : ℕ) (t : Idt)
    → i < gate_count
    → isr_addresses i < 2 ^ 32
    → let g = (init isr_addresses kernel_seg t).table i in
      (get_offset g ≡ isr_addresses i)
      × (get_selector g ≡ kernel_seg)
      × (get_type g ≡ 14)
      × (get_privilege_level g ≡ 0)
      × (is_present g ≡ true)
unfolding init
int_desc_table_init_lem isr_addresses kernel_seg i t l a =
    let e : init_gates isr_addresses kernel_seg gate_count 0 t.table i
        ≡ gate (isr_addresses i) kernel_seg interrupt ring_0 true =
      init_gates_lem isr_addresses kernel_seg gate_count 0 i t.table ∙ ground arith in
    rw e (gate_lem (isr_addresses i) kernel_seg interrupt ring_0 true a)
