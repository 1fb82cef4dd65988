-- ===== src/LongIdt.antt =====
-- The interrupt descriptor table of the x86_64 kernel, kernel/src/arch/x86_64/hal/interrupts/idt.h
-- and idt.cc: the gates of 16 bytes, and the table of 256 of them. The load of the table into the
-- processor and the console messages are left out; `isr_addresses` are the addresses of the service
-- routines.
pub mod Gates
use danaos.Prelude.{
  ℕ, zero, suc, ◌+◌, ◌-◌, ◌*◌, ◌/◌, ◌^◌, Bool, true, leb, ◌==◌, if◌then◌else◌, bit_and, bit_or,
  update, u8, u16, u32,
}
use danaos.Fields.{of_bool, set_bits, set_bit, get_bit}
use danaos.Gdt.{DplLevel, level, ring_0}
use danaos.Idt.{GateType, type_code, interrupt}

abbrev pub gate_count : ℕ
gate_count = 256

pub record Gate : Type 0 where
  pub offset_low : ℕ
  pub selector : ℕ
  pub ist : ℕ
  pub flags : ℕ
  pub offset_mid : ℕ
  pub offset_high : ℕ
  pub reserved : ℕ

unfoldable pub gate : ℕ → ℕ → GateType → DplLevel → ℕ → Bool → Gate
gate offset sel type lvl ist present = record {
  offset_low = bit_and offset 65535;
  selector = sel;
  ist = u8 (bit_and ist (if type_code type == 12 then 0 else 7));
  flags = u8 (
      bit_or (bit_or (bit_and (type_code type) 15) (bit_and (level lvl) 3 * 2 ^ 5))
        (of_bool present * 2 ^ 7));
  offset_mid = u16 (bit_and (offset / 2 ^ 16) 4294967295);
  offset_high = u32 (offset / 2 ^ 32);
  reserved = 0;
}

abbrev pub is_present : Gate → Bool
is_present g = get_bit 8 g.flags 7

abbrev pub get_privilege_level : Gate → ℕ
get_privilege_level g = bit_and (g.flags / 2 ^ 5) 3

abbrev pub get_type : Gate → ℕ
get_type g = bit_and g.flags 15

abbrev pub get_ist : Gate → ℕ
get_ist g = bit_and g.ist 7

abbrev pub get_selector : Gate → ℕ
get_selector g = g.selector

-- An `int`, in two's complement with 32 bits, as a 64-bit word.
abbrev pub sign_extend : ℕ → ℕ
sign_extend word = if leb (2 ^ 31) word then word + (2 ^ 64 - 2 ^ 32) else word

-- The two low parts are put together as an `int`.
unfoldable pub get_offset : Gate → ℕ
get_offset g =
    bit_or (sign_extend (bit_or g.offset_low (u32 (g.offset_mid * 2 ^ 16))))
      (g.offset_high * 2 ^ 32)

abbrev pub set_present : Gate → Bool → Gate
set_present g val = record g { flags = set_bit 8 g.flags 7 val }

abbrev pub set_privilege_level : Gate → DplLevel → Gate
set_privilege_level g lvl = record g { flags = set_bits 8 g.flags 5 2 (level lvl * 2 ^ 5) }

abbrev pub set_selector : Gate → ℕ → Gate
set_selector g sel = record g { selector = sel }

unfoldable pub set_ist : Gate → ℕ → Gate
set_ist g ist = if get_type g == 12 then g else record g { ist = set_bits 8 g.ist 0 3 ist }

-- `~0x1F00` as a 32-bit word.
unfoldable pub set_type : Gate → GateType → Gate
set_type g type = record g {
  reserved = if type_code type == 12 then bit_and g.reserved 4294959359 else g.reserved;
  flags = set_bits 8 g.flags 0 4 (type_code type);
}

unfoldable pub set_offset : Gate → ℕ → Gate
set_offset g offset = record g {
  offset_low = bit_and offset 65535;
  offset_mid = u16 (bit_and (offset / 2 ^ 16) 4294967295);
  offset_high = u32 (offset / 2 ^ 32);
}

-- `descr_size` and `descr_address` are the descriptor.
pub record Idt : Type 0 where
  pub table : ℕ → Gate
  pub descr_size : ℕ
  pub descr_address : ℕ

unfoldable pub new_idt : (ℕ → Gate) → ℕ → Idt
new_idt table address = record {
  table = table;
  descr_size = u16 (16 * gate_count - 1);
  descr_address = address;
}

-- The loop of `init`, with the gates left.
unfoldable pub init_gates : (ℕ → ℕ) → ℕ → ℕ → ℕ → (ℕ → Gate) → ℕ → Gate
init_gates isr_addresses kernel_seg zero i table = table
init_gates isr_addresses kernel_seg (suc left) i table =
    init_gates isr_addresses kernel_seg left (i + 1)
      (update table i (gate (isr_addresses i) kernel_seg interrupt ring_0 0 true))

unfoldable pub init : (ℕ → ℕ) → ℕ → Idt → Idt
init isr_addresses kernel_seg t = record t {
  table = init_gates isr_addresses kernel_seg gate_count 0 t.table;
}
