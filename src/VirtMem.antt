-- ===== src/VirtMem.antt =====
-- `virt_mem_manager` of the i386 kernel, kernel/src/arch/i386/hal/memory/virt_mem.h and virt_mem.cc.
-- The memory is kept by its aligned 32-bit words. `translate` is the processor: from the memory and
-- the base of the page directory it gives the physical address of a virtual one, or a page fault,
-- which is `none`. `memset` on a frame clears its words in order. The console messages are left out.
pub mod Mmu
pub mod Mapping
pub mod Ranges
pub mod Boot
pub mod KernelPages
pub mod Kernel
pub mod Kept
use danaos.Prelude.{
  ℕ, zero, suc, ◌+◌, ◌-◌, ◌*◌, ◌/◌, ◌%◌, ◌^◌, Bool, true, false, not, Option, none, some, ◌>>=◌,
  ltb, if◌then◌else◌, update, u32, add32, mul32, sub32, max32,
}
use danaos.Bitmap.{Bitmap}
use danaos.Paging.{
  Flags, page_size, page_dir_rec, page_tbl_rec, recur_dir_index, dir_index, table_index, align_up,
  align_down, page_dir_entry, page_table_entry, is_present, get_phys_addr,
}
use danaos.PhysMem.Any.{alloc_any}
use danaos.PhysMem.Frames.{free_address}

abbrev pub Translate : Type 0
Translate = (ℕ → ℕ) → ℕ → ℕ → Option ℕ

-- `page_dir_base` is the register that `set_page_directory` writes, and `frames` the bitmap of the
-- physical memory manager.
pub record VirtMem : Type 0 where
  pub memory : ℕ → ℕ
  pub page_dir_base : ℕ
  pub frames : Bitmap
  pub page_dir_phys : ℕ
  pub vkernel_start : ℕ
  pub vkernel_end : ℕ

unfoldable pub load_word : Translate → ℕ → VirtMem → Option ℕ
load_word translate addr s = do
  at_addr ← translate s.memory s.page_dir_base addr
  some (s.memory (at_addr / 4))

unfoldable pub store_word : Translate → ℕ → ℕ → VirtMem → Option VirtMem
store_word translate addr word s = do
  at_addr ← translate s.memory s.page_dir_base addr
  some (record s { memory = update s.memory (at_addr / 4) word })

-- `memset` to 0 through the page tables, with the words left.
unfoldable pub zero_words : Translate → ℕ → ℕ → VirtMem → Option VirtMem
zero_words translate zero addr s = some s
zero_words translate (suc left) addr s = do
  next ← store_word translate addr 0 s
  zero_words translate left (addr + 4) next

-- `m_page_dir->entry(dir)` and `m_page_table->entry(dir, table)`.
abbrev pub dir_entry : ℕ → ℕ
dir_entry dir = page_dir_rec + 4 * dir

abbrev pub table_entry : ℕ → ℕ → ℕ
table_entry dir table = page_tbl_rec + 4 * (table + dir * 1024)

abbrev pub flags : Bool → Bool → Bool → Flags
flags rw_flag user wt = record {
  present = true;
  rw_flag = rw_flag;
  user = user;
  wt = wt;
  cd = false;
}

-- The new page table of `map`.
unfoldable pub add_table : Translate → ℕ → Bool → VirtMem → Option VirtMem
add_table translate dir kernel s =
    let (addr, frames) = alloc_any s.frames in
    do
      zeroed ← zero_words translate 1024 addr (record s { frames = frames })
      store_word translate (dir_entry dir) (page_dir_entry addr (flags true (not kernel) false))
          zeroed

unfoldable pub map_page : Translate → ℕ → ℕ → Bool → Bool → Bool → VirtMem → Option VirtMem
map_page translate virt phys kernel read_only global s = do
  e ← load_word translate (dir_entry (dir_index virt)) s
  ready ← if is_present e then some s else add_table translate (dir_index virt) kernel s
  store_word translate (table_entry (dir_index virt) (table_index virt))
      (page_table_entry phys (flags (not read_only) (not kernel) false) global) ready

unfoldable pub map : Translate → ℕ → ℕ → Bool → Bool → Bool → VirtMem → Option (ℕ × VirtMem)
map translate virt phys kernel read_only global s = do
  next ← map_page translate virt phys kernel read_only global s
  some (virt, next)

-- The loop of the second `map`, from `curr_page` on, with the pages left.
unfoldable pub map_pages : Translate → ℕ → ℕ → ℕ → ℕ → Bool → Bool → Bool → VirtMem → Option VirtMem
map_pages translate zero curr_page virt phys kernel read_only global s = some s
map_pages translate (suc left) curr_page virt phys kernel read_only global s = do
  next ←
      map_page translate (add32 virt (mul32 curr_page page_size))
        (add32 phys (mul32 curr_page page_size)) kernel read_only global s
  map_pages translate left (curr_page + 1) virt phys kernel read_only global next

unfoldable pub map_count :
    Translate → ℕ → ℕ → ℕ → Bool → Bool → Bool → VirtMem → Option (ℕ × VirtMem)
map_count translate virt phys count kernel read_only global s = do
  next ← map_pages translate count 0 virt phys kernel read_only global s
  some (virt, next)

-- How a loop goes: it needs more rounds, it ends in a page fault, or it ends.
pub data Run : Type 0 where
  out_of_fuel faulted : Run
  ended : VirtMem → Run

abbrev pub go_on : Option VirtMem → (VirtMem → Run) → Run
go_on none k = faulted
go_on (some s) k = k s

abbrev pub run_result : Run → Option VirtMem
run_result out_of_fuel = none
run_result faulted = none
run_result (ended s) = some s

-- The loop of `map_range`, with fuel.
unfoldable pub range_loop : Translate → ℕ → ℕ → ℕ → ℕ → Bool → Bool → Bool → VirtMem → Run
range_loop translate zero curr_virt virt_end phys kernel read_only global s = out_of_fuel
range_loop translate (suc fuel) curr_virt virt_end phys kernel read_only global s =
    let rest = go_on (map_page translate curr_virt phys kernel read_only global s) (λ next.
      range_loop translate fuel (add32 curr_virt page_size) virt_end (add32 phys page_size) kernel
        read_only global next) in
    if ltb curr_virt virt_end then rest else ended s

unfoldable pub map_range :
    Translate → ℕ → ℕ → ℕ → Bool → Bool → Bool → VirtMem → Option (ℕ × VirtMem)
map_range translate virt_start virt_end phys kernel read_only global s = do
  next ← run_result (
      range_loop translate ((virt_end - virt_start) / page_size + 2) virt_start virt_end phys kernel
        read_only global s)
  some (virt_start, next)
