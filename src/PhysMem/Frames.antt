-- ===== src/PhysMem/Frames.antt =====
-- The functions of `phys_mem_manager` on given frames, addresses and byte ranges.
use danaos.Prelude.{ℕ, ◌-◌, Bool, true, false, not, add32, mul32}
use danaos.Bitmap
use danaos.Bitmap.{Bitmap}
use danaos.PhysMem.{page_frame_size, get_page_frame, round_page_up}
use danaos.PhysMem.Loops.{
  frames_available, set_frames, clear_frames, test_and_set_frames, test_and_clear_frames,
}

unfoldable pub is_available_frame : Bitmap → ℕ → Bool
is_available_frame b page_frame = not (Bitmap.get b page_frame)

unfoldable pub is_available_frame_count : Bitmap → ℕ → ℕ → Bool
is_available_frame_count b page_frame frame_count =
    frames_available (add32 page_frame frame_count - page_frame) page_frame b

unfoldable pub is_available_address : Bitmap → ℕ → Bool
is_available_address b address = not (Bitmap.get b (get_page_frame address))

unfoldable pub is_available_address_count : Bitmap → ℕ → ℕ → Bool
is_available_address_count b address frame_count =
    let frame = get_page_frame address in frames_available (add32 frame frame_count - frame) frame b

unfoldable pub is_available_range : Bitmap → ℕ → ℕ → Bool
is_available_range b address bytes =
    let frame = get_page_frame address in
    frames_available (round_page_up (add32 address bytes) - frame) frame b

unfoldable pub alloc_frame : Bitmap → ℕ → ℕ × Bitmap
alloc_frame b page_frame = (mul32 page_frame page_frame_size, Bitmap.set b page_frame)

unfoldable pub alloc_frame_count : Bitmap → ℕ → ℕ → ℕ × Bitmap
alloc_frame_count b page_frame frame_count = (
  mul32 page_frame page_frame_size,
  set_frames (add32 page_frame frame_count - page_frame) page_frame b,
)

unfoldable pub alloc_address : Bitmap → ℕ → ℕ × Bitmap
alloc_address b address =
    let frame = get_page_frame address in (mul32 frame page_frame_size, Bitmap.set b frame)

-- The end of the loop adds a number of bytes to a frame number.
unfoldable pub alloc_address_count : Bitmap → ℕ → ℕ → ℕ × Bitmap
alloc_address_count b address frame_count =
    let frame = get_page_frame address in
    let end = add32 (round_page_up address) (mul32 frame_count page_frame_size) in
    (mul32 frame page_frame_size, set_frames (end - frame) frame b)

unfoldable pub alloc_range : Bitmap → ℕ → ℕ → ℕ × Bitmap
alloc_range b address bytes =
    let frame = get_page_frame address in
    (mul32 frame page_frame_size, set_frames (round_page_up (add32 address bytes) - frame) frame b)

unfoldable pub test_and_alloc_frame : Bitmap → ℕ → Bool × Bitmap
test_and_alloc_frame b page_frame =
    let (val, b') = Bitmap.test_and_set b page_frame in (not val, b')

unfoldable pub test_and_alloc_frame_count : Bitmap → ℕ → ℕ → Bool × Bitmap
test_and_alloc_frame_count b page_frame frame_count =
    let (val, b') =
      test_and_set_frames (add32 page_frame frame_count - page_frame) page_frame false b in
    (not val, b')

unfoldable pub test_and_alloc_address : Bitmap → ℕ → Bool × Bitmap
test_and_alloc_address b address =
    let (val, b') = Bitmap.test_and_set b (get_page_frame address) in (not val, b')

unfoldable pub test_and_alloc_address_count : Bitmap → ℕ → ℕ → Bool × Bitmap
test_and_alloc_address_count b address frame_count =
    let frame = get_page_frame address in
    let (val, b') =
      test_and_set_frames (add32 (round_page_up address) frame_count - frame) frame false b in
    (not val, b')

-- The value is returned as it is, not negated.
unfoldable pub test_and_alloc_range : Bitmap → ℕ → ℕ → Bool × Bitmap
test_and_alloc_range b address bytes =
    let frame = get_page_frame address in
    test_and_set_frames (round_page_up (add32 address bytes) - frame) frame false b

unfoldable pub free_frame : Bitmap → ℕ → Bitmap
free_frame b page_frame = Bitmap.clear b page_frame

unfoldable pub free_frame_count : Bitmap → ℕ → ℕ → Bitmap
free_frame_count b page_frame frame_count =
    clear_frames (add32 page_frame frame_count - page_frame) page_frame b

unfoldable pub free_address : Bitmap → ℕ → Bitmap
free_address b address = Bitmap.clear b (get_page_frame address)

unfoldable pub free_address_count : Bitmap → ℕ → ℕ → Bitmap
free_address_count b address frame_count =
    let frame = get_page_frame address in
    clear_frames (add32 (round_page_up address) frame_count - frame) frame b

unfoldable pub free_range : Bitmap → ℕ → ℕ → Bitmap
free_range b address bytes =
    let frame = get_page_frame address in
    clear_frames (round_page_up (add32 address bytes) - frame) frame b

unfoldable pub test_and_free_frame : Bitmap → ℕ → Bool × Bitmap
test_and_free_frame b page_frame = Bitmap.test_and_clear b page_frame

unfoldable pub test_and_free_frame_count : Bitmap → ℕ → ℕ → Bool × Bitmap
test_and_free_frame_count b page_frame frame_count =
    test_and_clear_frames (add32 page_frame frame_count - page_frame) page_frame true b

-- The value is negated here, and in no other function of this kind.
unfoldable pub test_and_free_address : Bitmap → ℕ → Bool × Bitmap
test_and_free_address b address =
    let (val, b') = Bitmap.test_and_clear b (get_page_frame address) in (not val, b')

unfoldable pub test_and_free_address_count : Bitmap → ℕ → ℕ → Bool × Bitmap
test_and_free_address_count b address frame_count =
    let frame = get_page_frame address in
    test_and_clear_frames (add32 (round_page_up address) frame_count - frame) frame true b

unfoldable pub test_and_free_range : Bitmap → ℕ → ℕ → Bool × Bitmap
test_and_free_range b address bytes =
    let frame = get_page_frame address in
    test_and_clear_frames (round_page_up (add32 address bytes) - frame) frame true b
