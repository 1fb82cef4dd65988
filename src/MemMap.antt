-- ===== src/MemMap.antt =====
-- `hal::multiboot_memmap` of kernel/src/hal/memory/memmap.h and memmap.cc, and its iterators of
-- memmap_iterator.h: the memory map of the boot loader, over the tag at the address `map` in a
-- memory by bytes. An iterator is the pointer that it holds; addresses that wrap are left out.
pub mod Areas
pub mod Iterator
use danaos.Prelude.{
  ℕ, zero, suc, ◌+◌, ◌*◌, ◌/◌, ◌-◌, List, [], ◌∷◌, Option, none, some, ◌>>=◌, Bool, ◌==◌,
  if◌then◌else◌, sub32, read32, read64,
}
use danaos.PhysMem.Init.{AreaType, available, reserved, acpi_reclaimable, nvs, badram, MmapEntry}

-- The size of `multiboot_mmap_entry`.
abbrev pub sizeof_entry : ℕ
sizeof_entry = 24

-- Every other value is no enumerator; like `BADRAM` it is not `AVAILABLE`, which is all that the
-- kernel asks for.
abbrev pub area_type : ℕ → AreaType
area_type n =
    if n == 1
    then available
    else if n == 2
    then reserved
    else if n == 3
    then acpi_reclaimable
    else if n == 4
    then nvs
    else badram

-- What an iterator points to.
abbrev pub entry_at : (ℕ → ℕ) → ℕ → MmapEntry
entry_at mem p = record {
  addr = read64 mem p;
  len = read64 mem (p + 8);
  type = area_type (read32 mem (p + 16));
}

abbrev pub address : ℕ → ℕ
address map = map

abbrev pub size : (ℕ → ℕ) → ℕ → ℕ
size mem map = read32 mem (map + 4)

-- A division by 0 is `none`.
unfoldable pub entries : (ℕ → ℕ) → ℕ → Option ℕ
entries mem map =
    let count = sub32 (size mem map) 16 / read32 mem (map + 8) in
    if read32 mem (map + 8) == 0 then none else some count

abbrev pub begin : ℕ → ℕ
begin map = map + 16

unfoldable pub end : (ℕ → ℕ) → ℕ → Option ℕ
end mem map = do count ← entries mem map; some (map + 16 + sizeof_entry * count)

-- `map[i]`.
abbrev pub get : (ℕ → ℕ) → ℕ → ℕ → MmapEntry
get mem map i = entry_at mem (map + 16 + sizeof_entry * i)

-- What a loop `for(auto &entry : map)` visits, with fuel; where that runs out there is no answer.
unfoldable pub visited_from : ℕ → (ℕ → ℕ) → ℕ → ℕ → Option (List MmapEntry)
visited_from zero mem p last = none
visited_from (suc fuel) mem p last =
    let rest : Option (List MmapEntry) = (do
      others ← visited_from fuel mem (p + sizeof_entry) last
      some (entry_at mem p ∷ others)) in
    if p == last then some [] else rest

-- The fuel is the size of the map and one round more.
unfoldable pub visited : (ℕ → ℕ) → ℕ → Option (List MmapEntry)
visited mem map = do last ← end mem map; visited_from (last - begin map + 1) mem (begin map) last
