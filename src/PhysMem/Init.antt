-- ===== src/PhysMem/Init.antt =====
-- `phys_mem_manager::init` of kernel/src/hal/memory/phys_mem.h: the bitmap over the memory that the
-- linker reserves for it, and the memory map of the boot loader.
use danaos.Prelude.{ℕ, ◌+◌, ◌/◌, ◌%◌, ◌^◌, Bool, List, [], ◌∷◌, ltb, if◌then◌else◌, u32}
use danaos.Bitmap
use danaos.Bitmap.{Bitmap}
use danaos.PhysMem.{page_frame_size, page_frame_count}
use danaos.PhysMem.Frames.{alloc_range}

pub data AreaType : Type 0 where
  available reserved acpi_reclaimable nvs badram : AreaType

-- `multiboot_mmap_entry`; `addr` and `len` have 64 bits.
pub record MmapEntry : Type 0 where
  pub addr : ℕ
  pub len : ℕ
  pub type : AreaType

abbrev pub init_page_frames : ℕ
init_page_frames = 0x20000

abbrev pub add64 : ℕ → ℕ → ℕ
add64 a b = (a + b) % 2 ^ 64

-- One round of the loop over the map, with the bitmap and `highest_address`. The arguments of
-- `alloc_range` lose their upper halves.
unfoldable pub visit_as : AreaType → MmapEntry → Bitmap × ℕ → Bitmap × ℕ
visit_as available e (b, highest) =
    (b, if ltb highest (add64 e.addr e.len) then add64 e.addr e.len else highest)
visit_as _ e (b, highest) = ((alloc_range b (u32 e.addr) (u32 e.len)).1, highest)

unfoldable pub visit : MmapEntry → Bitmap × ℕ → Bitmap × ℕ
unfolding visit_as
visit e s = visit_as e.type e s

unfoldable pub visit_all : List MmapEntry → Bitmap × ℕ → Bitmap × ℕ
unfolding visit
visit_all [] s = s
visit_all (e ∷ map) s = visit_all map (visit e s)

-- What `init` leaves and prints: the megabytes of memory, and whether there is more of it than the
-- bitmap has frames for.
pub record Booted : Type 0 where
  pub bitmap : Bitmap
  pub highest_address : ℕ
  pub ram_mb : ℕ
  pub too_much : Bool

-- `words` is the memory at `_phys_bitmap` and `phys` its physical address; `kernel_end` is
-- `KERNEL_PHYS_END`.
unfoldable pub init : (ℕ → ℕ) → ℕ → ℕ → List MmapEntry → Booted
unfolding visit_all
init words phys kernel_end map =
    let fresh = Bitmap.clear_all (Bitmap.new_bitmap words init_page_frames) in
    let own = (alloc_range fresh phys (init_page_frames / 8)).1 in
    let (mapped, highest) = visit_all map (own, 0) in
    let done = (alloc_range mapped 0 kernel_end).1 in
    record {
      bitmap = done;
      highest_address = highest;
      ram_mb = highest / 0x100000;
      too_much = ltb (page_frame_count done) (u32 (highest / page_frame_size));
    }
