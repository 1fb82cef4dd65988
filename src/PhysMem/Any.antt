-- ===== src/PhysMem/Any.antt =====
-- The functions of `phys_mem_manager` that look for free frames. The address 0 stands for failure.
use danaos.Prelude.{
  ℕ, zero, suc, ◌+◌, ◌-◌, not, Option, none, some, ◌==◌, ltb, leb, if◌then◌else◌, add32, mul32,
}
use danaos.Bitmap
use danaos.Bitmap.{Bitmap}
use danaos.PhysMem.{page_frame_size, page_frame_count, get_page_frame, round_page_up}
use danaos.PhysMem.Loops.{set_frames, run_end, skip_taken}

unfoldable pub alloc_any : Bitmap → ℕ × Bitmap
alloc_any b =
    let first_clear = Bitmap.get_first_clear b in
    if not (first_clear == Bitmap.npos)
    then (mul32 first_clear page_frame_size, Bitmap.set b first_clear)
    else (0, b)

-- `last_free` after the inner loop from `curr_frame + 1` on.
unfoldable pub last_free_from : ℕ → ℕ → Bitmap → ℕ
last_free_from curr_frame frame_count b =
    run_end (add32 curr_frame frame_count - add32 curr_frame 1) (add32 curr_frame 1) b

-- The block that takes a run: its frames are set, and its address is returned.
unfoldable pub take_run : ℕ → ℕ → Bitmap → ℕ × Bitmap
take_run curr_frame frame_count b = (
  mul32 curr_frame page_frame_size,
  set_frames (add32 curr_frame frame_count - curr_frame) curr_frame b,
)

-- The first frame from `curr_frame` on that is free, or `page_frame_count()`.
unfoldable pub next_free : ℕ → Bitmap → ℕ
next_free curr_frame b = skip_taken (page_frame_count b - curr_frame) curr_frame b

-- The outer loop of `alloc_any(frame_count)` and `alloc_any_range(bytes)`, with fuel.
unfoldable pub search_run : ℕ → ℕ → ℕ → Bitmap → Option (ℕ × Bitmap)
search_run zero curr_frame frame_count b = none
search_run (suc fuel) curr_frame frame_count b =
    let last_free = last_free_from curr_frame frame_count b in
    let rest = search_run fuel (next_free (add32 last_free 1) b) frame_count b in
    if ltb curr_frame (page_frame_count b)
    then (if leb (add32 curr_frame frame_count) last_free
        then some (take_run curr_frame frame_count b)
        else rest)
    else some (0, b)

-- The outer loop of the functions with a hint and a count, with fuel. Where the run is too short,
-- `curr_frame` stays where it is.
unfoldable pub search_hint : ℕ → ℕ → ℕ → Bitmap → Option (ℕ × Bitmap)
search_hint zero curr_frame frame_count b = none
search_hint (suc fuel) curr_frame frame_count b =
    let curr = next_free curr_frame b in
    let rest = search_hint fuel curr frame_count b in
    if ltb curr_frame (page_frame_count b)
    then (if leb (add32 curr frame_count) (last_free_from curr frame_count b)
        then some (take_run curr frame_count b)
        else rest)
    else some (0, b)

-- Each round of `search_run` moves on, so one round for each frame and one more are enough.
unfoldable pub alloc_any_count : Bitmap → ℕ → Option (ℕ × Bitmap)
alloc_any_count b frame_count =
    search_run (page_frame_count b + 1) (Bitmap.get_first_clear b) frame_count b

unfoldable pub alloc_any_range : Bitmap → ℕ → Option (ℕ × Bitmap)
alloc_any_range b bytes =
    search_run (page_frame_count b + 1) (Bitmap.get_first_clear b) (round_page_up bytes) b

-- The loop of `alloc_any_address(address_hint)`, with the frames left; it returns the frame number.
unfoldable pub first_from : ℕ → ℕ → Bitmap → ℕ × Bitmap
first_from zero frame b = (0, b)
first_from (suc left) frame b =
    let rest = first_from left (frame + 1) b in
    if not (Bitmap.get b frame) then (frame, Bitmap.set b frame) else rest

unfoldable pub alloc_any_address : Bitmap → ℕ → ℕ × Bitmap
alloc_any_address b address_hint =
    let frame = get_page_frame address_hint in first_from (page_frame_count b - frame) frame b

unfoldable pub alloc_any_address_count : ℕ → Bitmap → ℕ → ℕ → Option (ℕ × Bitmap)
alloc_any_address_count fuel b address_hint frame_count =
    search_hint fuel (round_page_up address_hint) frame_count b

unfoldable pub alloc_any_range_hint : ℕ → Bitmap → ℕ → ℕ → Option (ℕ × Bitmap)
alloc_any_range_hint fuel b address_hint bytes =
    search_hint fuel (round_page_up address_hint) (round_page_up bytes) b
