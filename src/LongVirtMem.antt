-- ===== src/LongVirtMem.antt =====
-- `virt_mem_manager` of the x86_64 kernel, kernel/src/arch/x86_64/hal/memory/virt_mem.h and
-- virt_mem.cc, with four levels of tables. The memory is kept by its aligned 64-bit words.
-- `translate` is the processor: from the memory and the base of the page map it gives the physical
-- address of a virtual one, or a page fault, which is `none`. The physical memory manager is given
-- by its state, of any type, and its operations. `memset` on a frame clears its words in order. The
-- console messages are left out.
pub mod Walk
pub mod Mapping
pub mod Ranges
pub mod Boot
use danaos.Prelude.{
  ℕ, zero, suc, ◌+◌, ◌-◌, ◌*◌, ◌/◌, ◌%◌, ◌^◌, Bool, true, false, not, Option, none, some, ◌>>=◌,
  ltb, if◌then◌else◌, update,
}
use danaos.LongPaging
use danaos.LongPaging.{
  page_map_place, page_dir_ptr_place, page_dir_place, page_table_place, page_dir_ptr_entry,
  is_present,
}
use danaos.LongPaging.DirEntry.{page_dir_entry}
use danaos.LongPaging.MapEntry.{page_map_entry}
use danaos.LongPaging.Places.{
  page_tbl_rec, page_dir_rec, page_dir_ptr_rec, page_map_rec, map_index, dir_ptr_index, dir_index,
  table_index,
}
use danaos.LongPaging.TableEntry.{page_table_entry}
use danaos.Paging.{Flags}
use danaos.VirtMem.{Translate, flags}

-- The operations of the physical memory manager.
pub record Allocator {ℓ} (F : Type ℓ) : Type ℓ where
  pub alloc_any : F → ℕ × F
  pub free_address : F → ℕ → F

abbrev pub page_size : ℕ
page_size = 4096

abbrev pub add64 : ℕ → ℕ → ℕ
add64 a b = (a + b) % 2 ^ 64

abbrev pub sub64 : ℕ → ℕ → ℕ
sub64 a b = (a + 2 ^ 64 - b) % 2 ^ 64

abbrev pub page_count : ℕ → ℕ
page_count bytes = add64 (sub64 bytes 1 / page_size) 1

abbrev pub align_down : ℕ → ℕ
align_down addr = addr / page_size * page_size

abbrev pub align_up : ℕ → ℕ
align_up addr = page_count addr * page_size % 2 ^ 64

-- `page_map_base` is the register that `set_page_directory` writes.
pub record LongVirtMem {ℓ} (F : Type ℓ) : Type ℓ where
  pub memory : ℕ → ℕ
  pub page_map_base : ℕ
  pub frames : F
  pub page_map_phys : ℕ
  pub vkernel_start : ℕ
  pub vkernel_end : ℕ

module _ {ℓ} {F : Type ℓ} where
  unfoldable pub load_word : Translate → ℕ → LongVirtMem F → Option ℕ
  load_word translate addr s = do
    at_addr ← translate s.memory s.page_map_base addr
    some (s.memory (at_addr / 8))

  unfoldable pub store_word : Translate → ℕ → ℕ → LongVirtMem F → Option (LongVirtMem F)
  store_word translate addr word s = do
    at_addr ← translate s.memory s.page_map_base addr
    some (record s { memory = update s.memory (at_addr / 8) word })

  -- `memset` to 0 through the page tables, with the words left.
  unfoldable pub zero_words : Translate → ℕ → ℕ → LongVirtMem F → Option (LongVirtMem F)
  zero_words translate zero addr s = some s
  zero_words translate (suc left) addr s = do
    next ← store_word translate addr 0 s
    zero_words translate left (addr + 8) next

-- `m_page_map->entry(map)` and those of the other levels.
abbrev pub map_entry : ℕ → ℕ
map_entry map = page_map_rec + 8 * page_map_place map

abbrev pub dir_ptr_entry : ℕ → ℕ → ℕ
dir_ptr_entry map dir_ptr = page_dir_ptr_rec + 8 * page_dir_ptr_place map dir_ptr

abbrev pub dir_entry : ℕ → ℕ → ℕ → ℕ
dir_entry map dir_ptr dir = page_dir_rec + 8 * page_dir_place map dir_ptr dir

abbrev pub table_entry : ℕ → ℕ → ℕ → ℕ → ℕ
table_entry map dir_ptr dir table = page_tbl_rec + 8 * page_table_place map dir_ptr dir table

module _ {ℓ} {F : Type ℓ} (phys_mem : Allocator F) (translate : Translate) where
  -- The test of one of the upper levels, by the address of its entry: where that is not present a
  -- new table is cleared, and its entry made by `make`.
  unfoldable pub check_level : ℕ → (ℕ → ℕ) → LongVirtMem F → Option (LongVirtMem F)
  check_level entry make s = do
    e ← load_word translate entry s
    let (addr, frames) = phys_mem.alloc_any s.frames
    let added : Option (LongVirtMem F) = (do
      zeroed ← zero_words translate 512 addr (record s { frames = frames })
      store_word translate entry (make addr) zeroed)
    if is_present e then some s else added

  -- The body that the three functions share.
  unfoldable pub map_page : ℕ → ℕ → Bool → Bool → Bool → LongVirtMem F → Option (LongVirtMem F)
  map_page virt phys kernel read_only global s =
      let upper = flags true (not kernel) false in
      do
        s1 ← check_level (map_entry (map_index virt)) (λ addr. page_map_entry addr upper false) s
        s2 ←
            check_level (dir_ptr_entry (map_index virt) (dir_ptr_index virt))
              (λ addr. page_dir_ptr_entry addr upper false) s1
        s3 ←
            check_level (dir_entry (map_index virt) (dir_ptr_index virt) (dir_index virt))
              (λ addr. page_dir_entry addr upper false) s2
        store_word translate
            (table_entry (map_index virt) (dir_ptr_index virt) (dir_index virt) (table_index virt))
            (page_table_entry phys (flags (not read_only) (not kernel) false) false global false) s3

  unfoldable pub map : ℕ → ℕ → Bool → Bool → Bool → LongVirtMem F → Option (ℕ × LongVirtMem F)
  map virt phys kernel read_only global s = do
    next ← map_page virt phys kernel read_only global s
    some (virt, next)

  -- The loop of the second `map`, from `curr_page` on, with the pages left.
  unfoldable pub map_pages :
      ℕ → ℕ → ℕ → ℕ → Bool → Bool → Bool → LongVirtMem F → Option (LongVirtMem F)
  map_pages zero curr_page virt phys kernel read_only global s = some s
  map_pages (suc left) curr_page virt phys kernel read_only global s = do
    next ←
        map_page (add64 virt (curr_page * page_size)) (add64 phys (curr_page * page_size)) kernel
          read_only global s
    map_pages left (curr_page + 1) virt phys kernel read_only global next

  unfoldable pub map_count :
      ℕ → ℕ → ℕ → Bool → Bool → Bool → LongVirtMem F → Option (ℕ × LongVirtMem F)
  map_count virt phys count kernel read_only global s = do
    next ← map_pages count 0 virt phys kernel read_only global s
    some (virt, next)

  -- The loop of `map_range`, with fuel: `none` also where the fuel runs out.
  unfoldable pub range_loop :
      ℕ → ℕ → ℕ → ℕ → Bool → Bool → Bool → LongVirtMem F → Option (LongVirtMem F)
  range_loop zero curr_virt virt_end phys kernel read_only global s = none
  range_loop (suc fuel) curr_virt virt_end phys kernel read_only global s =
      let rest : Option (LongVirtMem F) = (do
        next ← map_page curr_virt phys kernel read_only global s
        range_loop fuel (add64 curr_virt page_size) virt_end (add64 phys page_size) kernel read_only
            global next) in
      if ltb curr_virt virt_end then rest else some s

  unfoldable pub map_range :
      ℕ → ℕ → ℕ → Bool → Bool → Bool → LongVirtMem F → Option (ℕ × LongVirtMem F)
  map_range virt_start virt_end phys kernel read_only global s = do
    next ←
        range_loop ((virt_end - virt_start) / page_size + 2) virt_start virt_end phys kernel
          read_only global s
    some (virt_start, next)
