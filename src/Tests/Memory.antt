-- ===== src/Tests/Memory.antt =====
-- The bitmap and the physical memory at concrete maps.
use danaos.Prelude.{
  ℕ, ◌≢◌, ◌+◌, ◌*◌, ◌<◌, ◌≡◌, refl, arith, true, false, ◌||◌, none, some, List, [], ◌∷◌, ◌==◌,
  if◌then◌else◌,
}
use danaos.Bitmap.{Bitmap, get_first_clear, get}
use danaos.Bitmap.Laws.{IsValid}
use danaos.Bitmap.Scan.{FirstBit, get_first_clear-FirstBit}
use danaos.Strings.{strncmp, less, same, greater}
use danaos.Strings.Compare.{strncmp_past_count}
use danaos.PhysMem.Frames.{is_available_frame_count}
use danaos.PhysMem.Any.{alloc_any, alloc_any_count, alloc_any_address_count}
use danaos.PhysMem.Loops.{frames_available}
use danaos.PhysMem.Search.{IsPhysMem, AnyFrame, alloc_any-AnyFrame, FirstRun}
use danaos.PhysMem.AnyLaws.{alloc_any_count-FirstRun}
use danaos.PhysMem.FrameLaws.{page_meets}
use danaos.PhysMem.Hint.{alloc_any_address_count_stuck}
use danaos.PhysMem.Init.{MmapEntry, available, reserved, init}
use danaos.PhysMem.InitLaws.{init_lem, reserved_by, highest_end}

-- Two blocks, of which the frames 0 to 2 and 4 are taken.
abbrev map : Bitmap
map = record { bits = 64; blocks = 2; mem = λ i. if i == 0 then 23 else 0 }

map-IsValid : IsValid map
map-IsValid = record { words = λ i. ground arith; few = omega arith }

map-IsPhysMem : IsPhysMem map
map-IsPhysMem = record { valid = map-IsValid; covers = omega arith; reach = omega arith }

map_free : is_available_frame_count map 5 2 ≡ true
unfolding is_available_frame_count frames_available get
map_free = refl

map_hint : get map 3 ≡ false
unfolding get
map_hint = refl

map_next : get map 4 ≡ true
unfolding get
map_next = refl

get_first_clear_example : FirstBit false map (get_first_clear map)
get_first_clear_example = get_first_clear-FirstBit map map-IsValid

alloc_any_example : AnyFrame map (alloc_any map).0 (alloc_any map).1
alloc_any_example = alloc_any-AnyFrame map map-IsPhysMem

alloc_any_count_example :
    (r : ℕ) × (b' : Bitmap) × (alloc_any_count map 2 ≡ some (r, b')) × FirstRun 0 2 map r b'
alloc_any_count_example = alloc_any_count-FirstRun map 2 map-IsPhysMem (omega arith) (omega arith)

alloc_any_address_count_example : alloc_any_address_count 9 map (3 * 4096) 2 ≡ none
alloc_any_address_count_example =
    alloc_any_address_count_stuck 9 map 3 2 4 (omega arith) (omega arith) map_hint (omega arith)
      (omega arith) map_next (omega arith)

-- One frame in memory that is clear, and two frames of which the second is taken.
abbrev lone : Bitmap
lone = record { bits = 1; blocks = 1; mem = λ _. 0 }

abbrev pair : Bitmap
pair = record { bits = 2; blocks = 1; mem = λ _. 2 }

abbrev areas : List MmapEntry
areas =
    record { addr = 0; len = 0x9f000; type = available }
    ∷ record { addr = 0xf0000; len = 0x10000; type = reserved }
    ∷ []

init_example :
    (get (init (λ _. 0) 0x300000 0x400000 areas).bitmap 0x500
      ≡ page_meets 0x300000 16384 0x500 || reserved_by areas 0x500 || page_meets 0 0x400000 0x500)
    × ((init (λ _. 0) 0x300000 0x400000 areas).highest_address ≡ highest_end areas)
init_example =
    init_lem (λ _. 0) 0x300000 0x400000 areas 0x500
      ((omega arith, omega arith), ((omega arith, omega arith), tt)) (omega arith) (omega arith)
      (omega arith) (omega arith)

-- Bytes that are their addresses, but for two strings at 500 and 600 that start alike.
abbrev bytes : ℕ → ℕ
bytes i = if i == 500 then 65 else (if i == 600 then 65 else i)

strncmp_example : strncmp bytes 500 600 1 ≡ (
    if bytes (500 + 1) == bytes (600 + 1)
    then same
    else (if bytes (500 + 1) == 0 then less else greater))
strncmp_example = strncmp_past_count 1 bytes 500 600 (λ i l. alike i l) (λ i l. inside i l)
  where
    alike : (i : ℕ) → i < 1 → bytes (500 + i) ≡ bytes (600 + i)
    alike i l = let z : i ≡ 0 = omega arith in rw z refl

    inside : (i : ℕ) → i < 1 → bytes (500 + i) ≢ 0
    inside i l = ground arith
