-- ===== src/Tests/Paging.antt =====
-- The page tables and the heap at concrete states.
use danaos.Prelude.{
  ℕ, not, zero, suc, Bool, Bool-cases, inl, inr, update, some-injective, ◌+◌, ◌-◌, ◌*◌, ◌/◌, ◌%◌,
  ◌^◌, ◌≡◌, ◌≢◌, refl, arith, true, false, none, some, ◌==◌, if◌then◌else◌,
}
use danaos.Bitmap.{get_first_clear, scan_blocks, scan_word, set}
use danaos.Paging.{
  dir_index, table_index, is_present, is_size_4mb, page_dir_entry, page_table_entry,
}
use danaos.Fields.{get_bit}
use danaos.PhysMem.Any.{alloc_any}
use danaos.Heap.{Heap, kernel_malloc}
use danaos.Heap.Objects.{kernel_malloc_in_pages, kernel_malloc_again}
use danaos.VirtMem.{
  Translate, VirtMem, map, map_page, map_range, map_count, out_of_fuel, range_loop, zero_words,
  add_table, load_word, store_word, dir_entry, table_entry, flags,
}
use danaos.VirtMem.Mmu.{IsMmu, Tlb, with_tlb, IsSound, NamesTable, dir_word, table_word}
use danaos.VirtMem.Mapping.{IsRecursive, map_lem}
use danaos.VirtMem.Ranges.{map_range-map_count, range_loop_endless}
use danaos.VirtMem.Boot.{
  map_pre_paging, add_table_pre_paging, set_table_entry, KernelImage, new_directory, init,
}
use danaos.VirtMem.Kernel.{init-maps_kernel}

-- A processor that walks the two levels, with pages of 4 MB where the entry has the size flag.
abbrev two_level : Translate
two_level memory base addr =
    let entry = dir_word memory (base / 4096) (addr / 2 ^ 22) in
    let page = table_word memory entry (addr / 4096 % 1024) in
    if is_present entry
    then (if is_size_4mb entry
        then some (entry / 2 ^ 22 * 2 ^ 22 + addr % 2 ^ 22)
        else if is_present page
        then some (page / 4096 * 4096 + addr % 4096)
        else none)
    else none

two_level-IsMmu : IsMmu two_level
two_level-IsMmu = record {
  walk = λ memory dir_frame addr l n p.
      let d : dir_frame * 4096 / 4096 ≡ dir_frame = omega arith in rw (d, n.0, n.1, p) refl;
  fault = λ memory dir_frame addr l p.
      let d : dir_frame * 4096 / 4096 ≡ dir_frame = omega arith in rw (d, p) refl;
}

-- The page directory in frame 1, recursive, with the table in frame 2 for the addresses from
-- 0xC0000000 on. The first frame is taken.
abbrev tables : VirtMem
tables = record {
  memory = λ i. if i == 2047 then 4099 else if i == 1792 then 8195 else 0;
  page_dir_base = 4096;
  frames = record { bits = 32; blocks = 1; mem = λ i. 7 };
  page_dir_phys = 4096;
  vkernel_start = 0;
  vkernel_end = 4294963200;
}

tables-NamesTable : NamesTable 8195
unfolding get_bit
tables-NamesTable = (refl, refl)

tables-IsRecursive : IsRecursive tables.memory 1
unfolding get_bit
tables-IsRecursive = record { names = (refl, refl); itself = refl }

tables_absent : is_present 0 ≡ false
unfolding get_bit
tables_absent = refl

tables_frame : (alloc_any tables.frames).0 ≡ 3 * 4096
unfolding alloc_any get_first_clear scan_blocks scan_word
tables_frame = refl

-- A cache with the page of the directory.
abbrev tlb : Tlb
tlb page = if page == 2 ^ 20 - 1 then some 1 else none

tlb-IsSound : IsSound tlb tables.memory 1
unfolding get_bit
tlb-IsSound = record {
  held = λ addr frame l n e.
      let page : addr / 4096 ≡ 2 ^ 20 - 1 = ground (arith, e) in
      let dir : addr / 2 ^ 22 ≡ 1023 = omega (arith, page) in
      let table : addr / 4096 % 1024 ≡ 1023 = omega (arith, page) in
      let same : some 1 ≡ some frame = rw page at e in
      rw (dir, table) (refl, some-injective 1 frame same);
}

map_example :
    (s' : VirtMem) × (map
        (with_tlb tlb two_level)
        (2 ^ 31 + 2 ^ 30 + 4097)
        20480
        true
        false
        false
        tables
      ≡ some (2 ^ 31 + 2 ^ 30 + 4097, s'))
    × (with_tlb tlb two_level s'.memory s'.page_dir_base (2 ^ 31 + 2 ^ 30 + 4097) ≡ some 20481)
    × ((i : ℕ) → i ≢ 2049 → s'.memory i ≡ tables.memory i)
map_example =
    map_lem two_level tlb tables 1 (2 ^ 31 + 2 ^ 30 + 4097) 20480 true false false two_level-IsMmu
      tlb-IsSound refl tables-IsRecursive (omega arith) (omega arith) tables-NamesTable
      tables_absent (λ e. omega (arith, e))

map_range_example :
    map_range two_level 4096 12289 20480 true false false tables
    ≡ map_count two_level 4096 20480 3 true false false tables
map_range_example =
    map_range-map_count two_level 4096 12289 20480 true false false tables (omega arith)
      (omega arith) (omega arith)

-- A processor without tables never faults.
abbrev identity : Translate
identity memory base addr = some addr

zero_words-identity :
    (left addr : ℕ) (s : VirtMem) → (next : VirtMem) × (zero_words identity left addr s ≡ some next)
unfolding zero_words store_word
zero_words-identity zero addr s = (s, refl)
zero_words-identity (suc left) addr s =
    zero_words-identity left (addr + 4) (record s { memory = update s.memory (addr / 4) 0 })

add_table-identity :
    (dir : ℕ) (kernel : Bool) (s : VirtMem)
    → (next : VirtMem) × (add_table identity dir kernel s ≡ some next)
unfolding add_table store_word
add_table-identity dir kernel s =
    let zeroed =
      zero_words-identity 1024 (alloc_any s.frames).0
        (record s { frames = (alloc_any s.frames).1 }) in
    let word = page_dir_entry (alloc_any s.frames).0 (flags true (not kernel) false) in
    (
      record zeroed.0 { memory = update zeroed.0.memory (dir_entry dir / 4) word },
      rw (zeroed.1) refl,
    )

abbrev AnyState : VirtMem → Type 0
AnyState s = Unit

map_page-identity :
    (virt to : ℕ) (kernel read_only global : Bool) (s : VirtMem)
    → (next : VirtMem) × (map_page identity virt to kernel read_only global s ≡ some next)
      × AnyState next
unfolding map_page load_word store_word
map_page-identity virt to kernel read_only global s =
    let dir = dir_index virt in
    let place = table_entry dir (table_index virt) / 4 in
    let word = page_table_entry to (flags (not read_only) (not kernel) false) global in
    let new = add_table-identity dir kernel s in
    elim (Bool-cases (is_present (s.memory (dir_entry dir / 4)))) [
      | inl p ↦ (record s { memory = update s.memory place word }, rw p refl, tt)
      | inr p ↦ (record new.0 { memory = update new.0.memory place word }, rw (p, new.1) refl, tt)
    ]

range_loop_example :
    range_loop identity 100 4096 (2 ^ 32 - 1) 20480 true false false tables ≡ out_of_fuel
range_loop_example =
    range_loop_endless identity AnyState 100 4096 (2 ^ 32 - 1) 20480 true false false tables
      (λ virt to t a m. map_page-identity virt to true false false t) tt (omega arith) (omega arith)
      (omega arith)

-- Two pages and a part of a third.
abbrev image : KernelImage
image = record {
  virt_offset = 3221225472;
  virt_begin = 3221225472;
  virt_end = 3221233700;
  phys_begin = 1048576;
  page_directory = 3221225472;
}

second_frame : (alloc_any (new_directory tables).frames).0 ≡ 5 * 4096
unfolding new_directory map_pre_paging add_table_pre_paging set_table_entry dir_index alloc_any
    get_first_clear scan_blocks scan_word get_bit set
second_frame = refl

init-maps_kernel_example :
    (s' : VirtMem) × (init image tables ≡ some s')
    × (two_level s'.memory s'.page_dir_base 3221233699 ≡ some 1056803)
init-maps_kernel_example =
    init-maps_kernel two_level image tables 3 5 768 3221233699 two_level-IsMmu tables_frame
      second_frame (omega arith) (λ e. omega (arith, e)) (omega arith) (omega arith) (omega arith)
      (omega arith) (omega arith) (omega arith) (omega arith) (omega arith)

-- The heap behind the tables' kernel, with a page of its own from the place on.
abbrev heap : Heap
heap = record {
  vheap_start = 3221229568;
  vheap_end = 4294963200;
  vheap_curr = 3221229569;
  vheap_alloced = 3221233664;
  vm = tables;
}

abbrev first_place : ℕ
first_place = 3221229572

abbrev second_place : ℕ
second_place = 3221229572

kernel_malloc_example : (second_place ≡ first_place) × (heap.vheap_curr ≡ 3221229569)
kernel_malloc_example =
    kernel_malloc_again two_level 8 8 4 3 1 first_place second_place heap heap heap (omega arith)
      (omega arith) (λ e. omega (arith, e)) (λ e. omega (arith, e)) in_pages_three in_pages_one
  where
    in_pages_three : kernel_malloc two_level 8 4 3 heap ≡ some (3221229572, heap)
    in_pages_three =
        kernel_malloc_in_pages two_level 8 4 3 heap (omega arith) (λ e. omega (arith, e))
          (omega arith)

    in_pages_one : kernel_malloc two_level 8 4 1 heap ≡ some (3221229572, heap)
    in_pages_one =
        kernel_malloc_in_pages two_level 8 4 1 heap (omega arith) (λ e. omega (arith, e))
          (omega arith)
