-- ===== src/Idt.antt =====
-- The interrupt descriptor table of the i386 kernel, kernel/src/arch/i386/hal/interrupts/idt.h and
-- idt.cc: the gates, and the table of 256 of them. The load of the table into the processor and the
-- console messages are left out; `isr_addresses` are the addresses of the service routines.
pub mod Gates
use danaos.Prelude.{
  ℕ, zero, suc, ◌+◌, ◌-◌, ◌*◌, ◌/◌, ◌%◌, ◌^◌, Bool, true, bit_and, bit_or, update, u8, u16, u32,
}
use danaos.Fields.{of_bool, set_bits, set_bit, get_bit}
use danaos.Gdt.{DplLevel, level, ring_0}

abbrev pub gate_count : ℕ
gate_count = 256

pub data GateType : Type 0 where
  call interrupt trap : GateType

abbrev pub type_code : GateType → ℕ
type_code call = 12
type_code interrupt = 14
type_code trap = 15

pub record Gate : Type 0 where
  pub offset_low : ℕ
  pub selector : ℕ
  pub reserved : ℕ
  pub flags : ℕ
  pub offset_high : ℕ

unfoldable pub gate : ℕ → ℕ → GateType → DplLevel → Bool → Gate
gate offset sel type lvl present = record {
  offset_low = bit_and offset 65535;
  selector = sel;
  reserved = 0;
  flags = u8 (
      bit_or (bit_or (bit_and (type_code type) 15) (bit_and (level lvl) 3 * 2 ^ 5))
        (of_bool present * 2 ^ 7));
  offset_high = u16 (offset / 2 ^ 16);
}

abbrev pub is_present : Gate → Bool
is_present g = get_bit 8 g.flags 7

abbrev pub get_privilege_level : Gate → ℕ
get_privilege_level g = bit_and (g.flags / 2 ^ 5) 3

abbrev pub get_type : Gate → ℕ
get_type g = bit_and g.flags 15

abbrev pub get_selector : Gate → ℕ
get_selector g = g.selector

abbrev pub get_offset : Gate → ℕ
get_offset g = u32 (bit_or g.offset_low (g.offset_high * 2 ^ 16))

abbrev pub set_present : Gate → Bool → Gate
set_present g val = record g { flags = set_bit 8 g.flags 7 val }

abbrev pub set_privilege_level : Gate → DplLevel → Gate
set_privilege_level g lvl = record g { flags = set_bits 8 g.flags 5 2 (level lvl * 2 ^ 5) }

abbrev pub set_type : Gate → GateType → Gate
set_type g type = record g { flags = set_bits 8 g.flags 0 4 (type_code type) }

abbrev pub set_selector : Gate → ℕ → Gate
set_selector g sel = record g { selector = sel }

unfoldable pub set_offset : Gate → ℕ → Gate
set_offset g offset = record g {
  offset_low = bit_and offset 65535;
  offset_high = u16 (offset / 2 ^ 16);
}

-- `descr_size` and `descr_address` are the descriptor.
pub record Idt : Type 0 where
  pub table : ℕ → Gate
  pub descr_size : ℕ
  pub descr_address : ℕ

abbrev pub new_idt : (ℕ → Gate) → ℕ → Idt
new_idt table address = record {
  table = table;
  descr_size = u16 (8 * gate_count - 1);
  descr_address = address;
}

unfoldable pub set_gate : ℕ → Gate → Idt → Idt
set_gate index g t = record t { table = update t.table index g }

-- The loop of `init`, with the gates left.
unfoldable pub init_gates : (ℕ → ℕ) → ℕ → ℕ → ℕ → (ℕ → Gate) → ℕ → Gate
init_gates isr_addresses kernel_seg zero i table = table
init_gates isr_addresses kernel_seg (suc left) i table =
    init_gates isr_addresses kernel_seg left (i + 1)
      (update table i (gate (isr_addresses i) kernel_seg interrupt ring_0 true))

unfoldable pub init : (ℕ → ℕ) → ℕ → Idt → Idt
init isr_addresses kernel_seg t = record t {
  table = init_gates isr_addresses kernel_seg gate_count 0 t.table;
}
