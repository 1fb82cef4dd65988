-- ===== src/LongPaging/DirEntry.antt =====
-- `page_dir_entry` of kernel/src/arch/x86_64/hal/memory/paging.h: a page of 2 MB or a page table, as a 64-bit word.
use danaos.Prelude.{ℕ, ◌*◌, ◌^◌, bit_and, bit_or, Bool, true, false}
use danaos.Fields.{of_bool, set_bits, set_bit, get_bits, get_bit}
use danaos.Paging.{Flags, flag_bits}

unfoldable pub page_dir_entry_2mb : ℕ → Flags → Bool → Bool → Bool → ℕ
page_dir_entry_2mb phys_addr f attr_table global no_exec =
    bit_or
      (bit_or (bit_or (bit_or (flag_bits f) (of_bool attr_table * 2 ^ 12)) (of_bool global * 2 ^ 8))
        (bit_and phys_addr 4503599625273344))
      (of_bool no_exec * 2 ^ 63)

unfoldable pub page_dir_entry : ℕ → Flags → Bool → ℕ
page_dir_entry table_addr f no_exec =
    bit_or (bit_or (flag_bits f) (bit_and table_addr 4503599627366400)) (of_bool no_exec * 2 ^ 63)

abbrev pub is_present : ℕ → Bool
is_present raw = get_bit 64 raw 0

abbrev pub is_read_write : ℕ → Bool
is_read_write raw = get_bit 64 raw 1

abbrev pub is_user : ℕ → Bool
is_user raw = get_bit 64 raw 2

abbrev pub is_write_through : ℕ → Bool
is_write_through raw = get_bit 64 raw 3

abbrev pub is_cache_disabled : ℕ → Bool
is_cache_disabled raw = get_bit 64 raw 4

abbrev pub is_accessed : ℕ → Bool
is_accessed raw = get_bit 64 raw 5

abbrev pub is_dirty : ℕ → Bool
is_dirty raw = get_bit 64 raw 6

abbrev pub is_global : ℕ → Bool
is_global raw = get_bit 64 raw 8

abbrev pub get_attr_table : ℕ → Bool
get_attr_table raw = get_bit 64 raw 12

abbrev pub get_phys_addr : ℕ → ℕ
get_phys_addr raw = get_bits 64 raw 21 31

abbrev pub get_table_addr : ℕ → ℕ
get_table_addr raw = get_bits 64 raw 12 40

abbrev pub is_no_exec : ℕ → Bool
is_no_exec raw = get_bit 64 raw 63

abbrev pub is_size_2mb : ℕ → Bool
is_size_2mb raw = get_bit 64 raw 7

abbrev pub set_present : ℕ → Bool → ℕ
set_present raw val = set_bit 64 raw 0 val

abbrev pub set_read_write : ℕ → Bool → ℕ
set_read_write raw val = set_bit 64 raw 1 val

abbrev pub set_user : ℕ → Bool → ℕ
set_user raw val = set_bit 64 raw 2 val

abbrev pub set_write_through : ℕ → Bool → ℕ
set_write_through raw val = set_bit 64 raw 3 val

abbrev pub set_cache_disabled : ℕ → Bool → ℕ
set_cache_disabled raw val = set_bit 64 raw 4 val

abbrev pub set_accessed : ℕ → Bool → ℕ
set_accessed raw val = set_bit 64 raw 5 val

abbrev pub set_dirty : ℕ → Bool → ℕ
set_dirty raw val = set_bit 64 raw 6 val

abbrev pub set_global : ℕ → Bool → ℕ
set_global raw val = set_bit 64 raw 8 val

abbrev pub set_attr_table : ℕ → Bool → ℕ
set_attr_table raw val = set_bit 64 raw 12 val

abbrev pub set_phys_addr : ℕ → ℕ → ℕ
set_phys_addr raw addr = set_bits 64 raw 21 31 addr

abbrev pub set_table_addr : ℕ → ℕ → ℕ
set_table_addr raw addr = set_bits 64 raw 12 40 addr

abbrev pub set_no_exec : ℕ → Bool → ℕ
set_no_exec raw val = set_bit 64 raw 63 val

abbrev pub set_size_4kb : ℕ → ℕ
set_size_4kb raw = set_bit 64 raw 7 false

-- The number 8 that the source gives for a flag is true.
unfoldable pub set_size_2mb : ℕ → ℕ
set_size_2mb raw =
    set_attr_table
      (set_global
        (set_dirty (set_accessed (set_bit 64 (set_bit 64 raw 7 true) 13 true) false) false) false)
      false
