-- ===== src/LongPaging/MapEntry.antt =====
-- `page_map_entry` of kernel/src/arch/x86_64/hal/memory/paging.h: the entries of the top level, 64-bit words.
use danaos.Prelude.{ℕ, ◌*◌, ◌^◌, bit_and, bit_or, Bool}
use danaos.Fields.{of_bool, set_bits, set_bit, get_bits, get_bit}
use danaos.Paging.{Flags, flag_bits}

unfoldable pub page_map_entry : ℕ → Flags → Bool → ℕ
page_map_entry dir_ptr_addr f no_exec =
    bit_or (bit_or (flag_bits f) (bit_and dir_ptr_addr 4503599627366400)) (of_bool no_exec * 2 ^ 63)

abbrev pub is_present : ℕ → Bool
is_present raw = get_bit 64 raw 0

abbrev pub is_read_write : ℕ → Bool
is_read_write raw = get_bit 64 raw 1

abbrev pub is_user : ℕ → Bool
is_user raw = get_bit 64 raw 2

abbrev pub is_write_through : ℕ → Bool
is_write_through raw = get_bit 64 raw 3

abbrev pub is_cache_disabled : ℕ → Bool
is_cache_disabled raw = get_bit 64 raw 4

abbrev pub is_accessed : ℕ → Bool
is_accessed raw = get_bit 64 raw 5

abbrev pub get_dir_ptr_addr : ℕ → ℕ
get_dir_ptr_addr raw = get_bits 64 raw 12 40

abbrev pub is_no_exec : ℕ → Bool
is_no_exec raw = get_bit 64 raw 63

abbrev pub set_present : ℕ → Bool → ℕ
set_present raw val = set_bit 64 raw 0 val

abbrev pub set_read_write : ℕ → Bool → ℕ
set_read_write raw val = set_bit 64 raw 1 val

abbrev pub set_user : ℕ → Bool → ℕ
set_user raw val = set_bit 64 raw 2 val

abbrev pub set_write_through : ℕ → Bool → ℕ
set_write_through raw val = set_bit 64 raw 3 val

abbrev pub set_cache_disabled : ℕ → Bool → ℕ
set_cache_disabled raw val = set_bit 64 raw 4 val

abbrev pub set_accessed : ℕ → Bool → ℕ
set_accessed raw val = set_bit 64 raw 5 val

abbrev pub set_dir_ptr_addr : ℕ → ℕ → ℕ
set_dir_ptr_addr raw addr = set_bits 64 raw 12 40 addr

abbrev pub set_no_exec : ℕ → Bool → ℕ
set_no_exec raw val = set_bit 64 raw 63 val
