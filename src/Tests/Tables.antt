-- ===== src/Tests/Tables.antt =====
-- The descriptor tables, the entries of the 64-bit build and a symbol table at concrete states.
use danaos.Prelude.{◌+◌, ◌*◌, ◌≡◌, arith, true, false, ◌==◌, if◌then◌else◌}
use danaos.Gdt
use danaos.Gdt.{
  EntryFlags, entry, ring_3, is_read_write, is_growing_down, is_executable, is_size_32bit,
  is_granular_4kb, get_base_address, get_limit, set_limit,
}
use danaos.Gdt.Entries.{entry_lem}
use danaos.Gdt.Table
use danaos.Idt
use danaos.Idt.Gates
use danaos.Symbols.{SymbolLookup, func, object, lookup}
use danaos.Symbols.Lookup.{FirstCovering, lookup-FirstCovering}

abbrev segment_flags : EntryFlags
segment_flags = record {
  present = true;
  rw_flag = true;
  down = false;
  exec = true;
  size32 = true;
  gran4kb = false;
}

entry_example :
    (is_read_write (entry 305419896 1048575 ring_3 segment_flags) ≡ true)
    × (is_growing_down (entry 305419896 1048575 ring_3 segment_flags) ≡ false)
    × (is_executable (entry 305419896 1048575 ring_3 segment_flags) ≡ true)
    × (Gdt.is_present (entry 305419896 1048575 ring_3 segment_flags) ≡ true)
    × (is_size_32bit (entry 305419896 1048575 ring_3 segment_flags) ≡ true)
    × (is_granular_4kb (entry 305419896 1048575 ring_3 segment_flags) ≡ false)
    × (get_base_address (entry 305419896 1048575 ring_3 segment_flags) ≡ 305419896)
    × (get_limit (entry 305419896 1048575 ring_3 segment_flags) ≡ 1048575)
entry_example = entry_lem 305419896 1048575 ring_3 segment_flags (omega arith)

abbrev empty_table : Table.Gdt
empty_table = record {
  capacity = 0;
  index = 0;
  allocated = false;
  entries = λ i. 0;
  size = 0;
  offset = 0;
}

idt_init_example :
    let g =
      (Idt.init
          (λ i. 1048576 + 16 * i)
          8
          (Idt.new_idt (λ i. Idt.gate 0 0 Idt.trap ring_3 false) 4096)).table
        14 in
    (Idt.get_offset g ≡ 1048800)
    × (Idt.get_selector g ≡ 8)
    × (Idt.get_type g ≡ 14)
    × (Idt.get_privilege_level g ≡ 0)
    × (Idt.is_present g ≡ true)
idt_init_example =
    Gates.int_desc_table_init_lem (λ i. 1048576 + 16 * i) 8 14
      (Idt.new_idt (λ i. Idt.gate 0 0 Idt.trap ring_3 false) 4096) (omega arith) (omega arith)

-- An object and two functions, the second over the end of the first.
abbrev kernel_symbols : SymbolLookup
kernel_symbols = record {
  symbol_table = λ i.
      if i == 0
      then record { st_name = 1; st_value = 100; st_size = 50; st_type = object }
      else if i == 1
      then record { st_name = 9; st_value = 120; st_size = 20; st_type = func }
      else record { st_name = 17; st_value = 130; st_size = 40; st_type = func };
  string_table = 4096;
  symbols = 3;
  strings = 32;
}

lookup_example : FirstCovering kernel_symbols 0 3 150 (lookup kernel_symbols 150)
lookup_example = lookup-FirstCovering kernel_symbols 150
