-- ===== src/Paging.antt =====
-- The page tables of the i386 kernel: the entries of kernel/src/arch/i386/hal/memory/paging.h and
-- the address arithmetic of virt_mem.h beside it. Entries are 32-bit words.
pub mod Entries
pub mod Addresses
use danaos.Prelude.{
  ℕ, ◌+◌, ◌-◌, ◌*◌, ◌/◌, ◌%◌, ◌^◌, bit_and, bit_or, Bool, true, false, sub32, u32, add32, mul32,
}
use danaos.Fields.{of_bool, set_bits, set_bit, get_bits, get_bit}

abbrev pub page_size : ℕ
page_size = 4096

unfoldable pub page_count : ℕ → ℕ
page_count bytes = add32 (sub32 bytes 1 / page_size) 1

unfoldable pub align_down : ℕ → ℕ
align_down addr = u32 (addr / page_size * page_size)

unfoldable pub align_up : ℕ → ℕ
align_up addr = mul32 (page_count addr) page_size

unfoldable pub dir_index : ℕ → ℕ
dir_index address = bit_and (address / 2 ^ 22) 1023

unfoldable pub table_index : ℕ → ℕ
table_index address = bit_and (address / 2 ^ 12) 1023

unfoldable pub address : ℕ → ℕ → ℕ
address dir table = u32 ((dir * 1024 + table) * page_size)

abbrev pub recur_dir_index : ℕ
recur_dir_index = 1023

abbrev pub page_tbl_rec : ℕ
page_tbl_rec = recur_dir_index * 2 ^ 22

abbrev pub page_dir_rec : ℕ
page_dir_rec = page_tbl_rec + recur_dir_index * 2 ^ 12

-- The flags that the constructors of both entries take.
pub record Flags : Type 0 where
  pub present : Bool
  pub rw_flag : Bool
  pub user : Bool
  pub wt : Bool
  pub cd : Bool

abbrev pub flag_bits : Flags → ℕ
flag_bits f =
    bit_or
      (bit_or (bit_or (bit_or (of_bool f.present) (of_bool f.rw_flag * 2)) (of_bool f.user * 4))
        (of_bool f.wt * 8))
      (of_bool f.cd * 16)

abbrev pub frame_mask : ℕ
frame_mask = 4294963200

unfoldable pub page_dir_entry : ℕ → Flags → ℕ
page_dir_entry table_addr f = bit_or (flag_bits f) (bit_and table_addr frame_mask)

unfoldable pub page_dir_entry_4mb : ℕ → Flags → Bool → ℕ
page_dir_entry_4mb phys_addr f global =
    bit_or (bit_or (bit_or (flag_bits f) 128) (of_bool global * 256)) (bit_and phys_addr frame_mask)

unfoldable pub page_table_entry : ℕ → Flags → Bool → ℕ
page_table_entry phys_addr f global =
    bit_or (bit_or (flag_bits f) (of_bool global * 256)) (bit_and phys_addr frame_mask)

-- The getters that the two entries share.
abbrev pub is_present : ℕ → Bool
is_present raw = get_bit 32 raw 0

abbrev pub is_read_write : ℕ → Bool
is_read_write raw = get_bit 32 raw 1

abbrev pub is_user : ℕ → Bool
is_user raw = get_bit 32 raw 2

abbrev pub is_write_through : ℕ → Bool
is_write_through raw = get_bit 32 raw 3

abbrev pub is_cache_disabled : ℕ → Bool
is_cache_disabled raw = get_bit 32 raw 4

abbrev pub is_accessed : ℕ → Bool
is_accessed raw = get_bit 32 raw 5

abbrev pub is_dirty : ℕ → Bool
is_dirty raw = get_bit 32 raw 6

abbrev pub is_size_4mb : ℕ → Bool
is_size_4mb raw = get_bit 32 raw 7

abbrev pub is_global : ℕ → Bool
is_global raw = get_bit 32 raw 8

abbrev pub get_phys_addr : ℕ → ℕ
get_phys_addr raw = get_bits 32 raw 12 20

abbrev pub set_phys_addr : ℕ → ℕ → ℕ
set_phys_addr raw addr = set_bits 32 raw 12 20 addr

abbrev pub set_size_4mb : ℕ → ℕ
set_size_4mb raw =
    set_bit 32 (set_bit 32 (set_bit 32 (set_bit 32 raw 7 true) 5 false) 6 false) 8 false

-- The setters.
abbrev pub set_present : ℕ → Bool → ℕ
set_present raw val = set_bit 32 raw 0 val

abbrev pub set_read_write : ℕ → Bool → ℕ
set_read_write raw val = set_bit 32 raw 1 val

abbrev pub set_user : ℕ → Bool → ℕ
set_user raw val = set_bit 32 raw 2 val

abbrev pub set_write_through : ℕ → Bool → ℕ
set_write_through raw val = set_bit 32 raw 3 val

abbrev pub set_cache_disabled : ℕ → Bool → ℕ
set_cache_disabled raw val = set_bit 32 raw 4 val

abbrev pub set_accessed : ℕ → Bool → ℕ
set_accessed raw val = set_bit 32 raw 5 val

abbrev pub set_dirty : ℕ → Bool → ℕ
set_dirty raw val = set_bit 32 raw 6 val

abbrev pub set_global : ℕ → Bool → ℕ
set_global raw val = set_bit 32 raw 8 val

abbrev pub set_size_4kb : ℕ → ℕ
set_size_4kb raw = set_bit 32 raw 7 false
