-- ===== src/Tests/LongPaging.antt =====
-- The four levels of tables of the x86_64 kernel at a concrete state.
use danaos.Prelude.{
  ℕ, ◌+◌, ◌*◌, ◌/◌, ◌%◌, ◌^◌, ◌≡◌, ◌≢◌, inl, refl, arith, Bool, true, false, not, ◌&&◌, none, some,
  ◌==◌, if◌then◌else◌,
}
use danaos.Bitmap.{Bitmap}
use danaos.Fields.{get_bit}
use danaos.LongPaging.{is_present, is_size_2mb}
use danaos.LongVirtMem.{Allocator, LongVirtMem, map, map_range, map_count}
use danaos.LongVirtMem.Mapping.{HasTables, long_map_lem}
use danaos.LongVirtMem.Ranges.{long_map_range-map_count}
use danaos.LongVirtMem.Walk.{entry_word, frame_of, NamesTable, IsMmu, IsSound, IsRecursive}
use danaos.VirtMem.Mmu.{Tlb, with_tlb}
use danaos.PhysMem.Any.{alloc_any}
use danaos.PhysMem.Frames.{free_address}
use danaos.VirtMem.{Translate}
use danaos.VirtMem.Ranges.{pages_between}

abbrev bitmap_allocator : Allocator Bitmap
bitmap_allocator = record { alloc_any = alloc_any; free_address = free_address }

abbrev names_table : ℕ → Bool
names_table e = is_present e && not (is_size_2mb e)

-- A processor with pages of 4 KB only.
abbrev four_level : Translate
four_level memory base addr =
    let e1 = entry_word memory (base / 4096) (addr / 2 ^ 39 % 512) in
    let e2 = entry_word memory (frame_of e1) (addr / 2 ^ 30 % 512) in
    let e3 = entry_word memory (frame_of e2) (addr / 2 ^ 21 % 512) in
    let e4 = entry_word memory (frame_of e3) (addr / 2 ^ 12 % 512) in
    if names_table e1 && names_table e2 && names_table e3 && is_present e4
    then some (frame_of e4 * 4096 + addr % 4096)
    else none

names : (e : ℕ) → NamesTable e → names_table e ≡ true
names e n = rw (n.0, n.1) refl

four_level-IsMmu : IsMmu four_level
four_level-IsMmu = record {
  walk = λ memory map_frame addr e1 e2 e3 e4 c w1 n1 w2 n2 w3 n3 w4 n4.
      let base : map_frame * 4096 / 4096 ≡ map_frame = omega arith in
      rw (base, w1, w2, w3, w4, names e1 n1, names e2 n2, names e3 n3, n4) refl;
}

-- The page map in frame 1, recursive, and the tables in the frames 2 to 4 for the address 0x400000.
abbrev long_tables : LongVirtMem Bitmap
long_tables = record {
  memory = λ i.
      if i == 1022
      then 4099
      else if i == 512
      then 8195
      else if i == 1024
      then 12291
      else if i == 1538
      then 16387
      else 0;
  page_map_base = 4096;
  frames = record { bits = 32; blocks = 1; mem = λ i. 31 };
  page_map_phys = 4096;
  vkernel_start = 0;
  vkernel_end = 0;
}

long_tables-HasTables : HasTables long_tables.memory 1 0x400000 8195 12291 16387
unfolding get_bit
long_tables-HasTables = record {
  first = refl;
  names_first = (refl, refl);
  second = refl;
  names_second = (refl, refl);
  third = refl;
  names_third = (refl, refl);
}

long_tables-IsRecursive : IsRecursive long_tables.memory 1
unfolding get_bit
long_tables-IsRecursive = ((refl, refl), refl)

-- An empty cache.
abbrev long_tlb : Tlb
long_tlb page = none

long_tlb-IsSound : IsSound long_tlb long_tables.memory 1
long_tlb-IsSound = record {
  held = λ addr frame e1 e2 e3 e4 c w1 n1 w2 n2 w3 n3 w4 e. absurd (ground (arith, e));
}

long_absent : is_present 0 ≡ false
unfolding get_bit
long_absent = refl

long_map_example :
    (memory : ℕ → ℕ) × (map bitmap_allocator
        (with_tlb long_tlb four_level)
        0x400000
        0x5000
        true
        false
        false
        long_tables
      ≡ some (0x400000, record long_tables { memory = memory }))
    × ((i : ℕ)
        → i ≢ frame_of 16387 * 512 + 0x400000 / 2 ^ 12 % 512
        → memory i ≡ long_tables.memory i)
    × (with_tlb long_tlb four_level memory 4096 0x400000
        ≡ some (0x5000 / 4096 * 4096 + 0x400000 % 4096))
long_map_example =
    long_map_lem bitmap_allocator four_level long_tlb long_tables 1 0x400000 0x5000 8195 12291 16387
      true false false four_level-IsMmu long_tlb-IsSound long_tables-IsRecursive refl
      (inl (omega arith)) (omega arith) long_tables-HasTables long_absent (omega arith)
      (omega arith) (omega arith)

long_map_range_example :
    map_range bitmap_allocator four_level 0x400000 0x401001 0x5000 true false false long_tables
    ≡ map_count bitmap_allocator four_level 0x400000 0x5000
        (pages_between 0x400000 0x401001)
        true
        false
        false
        long_tables
long_map_range_example =
    long_map_range-map_count bitmap_allocator four_level 0x400000 0x401001 0x5000 true false false
      long_tables (omega arith) (omega arith) (omega arith)
