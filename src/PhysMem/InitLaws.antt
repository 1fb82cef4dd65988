-- ===== src/PhysMem/InitLaws.antt =====
-- What is taken when the physical memory manager starts.
use danaos.Prelude.{
  ℕ, ◌+◌, ◌%◌, ◌^◌, ◌<◌, ◌≡◌, refl, Bool, List, [], ◌∷◌, true, false, not, ◌&&◌, ◌||◌, arith,
  if◌then◌else◌, max,
}
use danaos.Bitmap
use danaos.Bitmap.{Bitmap}
use danaos.Bitmap.Laws.{get-clear_all}
use danaos.PhysMem.Frames.{alloc_range}
use danaos.PhysMem.FrameLaws.{page_meets, get-alloc_range}
use danaos.PhysMem.Init.{
  visit_as, AreaType, available, MmapEntry, visit, visit_all, init, init_page_frames,
}

-- An area has at least one byte and lies below 4 GiB.
abbrev pub Below4Gib : MmapEntry → Type 0
Below4Gib e = (0 < e.len) × (e.addr + e.len < 2 ^ 32)

abbrev pub AllBelow4Gib : List MmapEntry → Type 0
AllBelow4Gib [] = Unit
AllBelow4Gib (e ∷ map) = Below4Gib e × AllBelow4Gib map

abbrev pub is_usable : AreaType → Bool
is_usable available = true
is_usable _ = false

-- Some area of the map that is not available has a byte in the page of frame `f`.
abbrev pub reserved_by : List MmapEntry → ℕ → Bool
reserved_by [] f = false
reserved_by (e ∷ map) f = (not (is_usable e.type) && page_meets e.addr e.len f) || reserved_by map f

-- The end of the highest available area, or 0.
abbrev pub highest_end : List MmapEntry → ℕ
highest_end [] = 0
highest_end (e ∷ map) = max (if is_usable e.type then e.addr + e.len else 0) (highest_end map)

visit_as_lem :
    (t : AreaType) (e : MmapEntry) (b : Bitmap) (highest f : ℕ)
    → Below4Gib e
    → let (b', highest') = visit_as t e (b, highest) in
      (Bitmap.get b' f
        ≡ (if not (is_usable t) && page_meets e.addr e.len f then true else Bitmap.get b f))
      × (highest' ≡ max highest (if is_usable t then e.addr + e.len else 0))
unfolding visit_as
visit_as_lem available e b highest f h = (refl, ground arith)
visit_as_lem _ e b highest f h =
    let a : e.addr % 2 ^ 32 ≡ e.addr = omega arith in
    let l : e.len % 2 ^ 32 ≡ e.len = omega arith in
    rw (a, l) (get-alloc_range b e.addr e.len f h.0 h.1, omega arith)

visit_all_lem :
    (map : List MmapEntry) (b : Bitmap) (highest f : ℕ)
    → AllBelow4Gib map
    → let (b', highest') = visit_all map (b, highest) in
      (Bitmap.get b' f ≡ (if reserved_by map f then true else Bitmap.get b f))
      × (highest' ≡ max highest (highest_end map))
unfolding visit_all visit
visit_all_lem [] b highest f h = (refl, omega arith)
visit_all_lem (e ∷ map) b highest f h = ground (
  arith,
  visit_as_lem e.type e b highest f h.0,
  visit_all_lem map (visit e (b, highest)).0 (visit e (b, highest)).1 f h.1,
)

-- For a memory map with areas of at least one byte below 4 GiB, a bitmap whose memory ends below
-- 4 GiB and a kernel that ends above 0 and below 4 GiB: after `init` a frame of the bitmap is
-- taken exactly where its page meets the bitmap's own memory, an area that is not available, or
-- the memory below the end of the kernel; and the highest address is the end of the highest
-- available area.
pub init_lem :
    (words : ℕ → ℕ) (phys kernel_end : ℕ) (map : List MmapEntry) (f : ℕ)
    → AllBelow4Gib map
    → phys + 16384 < 2 ^ 32
    → 0 < kernel_end
    → kernel_end < 2 ^ 32
    → f < 0x20000
    → (Bitmap.get (init words phys kernel_end map).bitmap f
        ≡ page_meets phys 16384 f || reserved_by map f || page_meets 0 kernel_end f)
      × ((init words phys kernel_end map).highest_address ≡ highest_end map)
unfolding init Bitmap.new_bitmap
init_lem words phys kernel_end map f below p k k' l =
    let fresh : Bitmap = Bitmap.clear_all (Bitmap.new_bitmap words init_page_frames) in
    let own : Bitmap = (alloc_range fresh phys 16384).1 in
    let b : Bitmap = (visit_all map (own, 0)).0 in
    (
      ground (
        arith,
        get-clear_all (Bitmap.new_bitmap words init_page_frames) f,
        get-alloc_range fresh phys 16384 f (omega arith) p,
        (visit_all_lem map own 0 f below).0,
        get-alloc_range b 0 kernel_end f k (omega arith),
      ),
      omega (arith, (visit_all_lem map own 0 f below).1),
    )
