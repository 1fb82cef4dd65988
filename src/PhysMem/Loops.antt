-- ===== src/PhysMem/Loops.antt =====
-- The loops over frames. `for(frame = a; frame < e; ++frame)` makes `e - a` rounds from `a` on, and
-- none where `e ≤ a`: the difference of natural numbers is that count.
use danaos.Prelude.{ℕ, zero, suc, ◌+◌, Bool, true, false, ◌&&◌, ◌||◌, if◌then◌else◌}
use danaos.Bitmap
use danaos.Bitmap.{Bitmap}

-- The loop of the functions `is_available_…` over a range, with its early return.
unfoldable pub frames_available : ℕ → ℕ → Bitmap → Bool
frames_available zero frame b = true
frames_available (suc rounds) frame b =
    let rest = frames_available rounds (frame + 1) b in if Bitmap.get b frame then false else rest

-- The loop of the functions `alloc_…` over a range.
unfoldable pub set_frames : ℕ → ℕ → Bitmap → Bitmap
set_frames zero frame b = b
set_frames (suc rounds) frame b = set_frames rounds (frame + 1) (Bitmap.set b frame)

-- The loop of the functions `free_…` over a range.
unfoldable pub clear_frames : ℕ → ℕ → Bitmap → Bitmap
clear_frames zero frame b = b
clear_frames (suc rounds) frame b = clear_frames rounds (frame + 1) (Bitmap.clear b frame)

-- `val |= test_and_set(frame)` over a range.
unfoldable pub test_and_set_frames : ℕ → ℕ → Bool → Bitmap → Bool × Bitmap
test_and_set_frames zero frame val b = (val, b)
test_and_set_frames (suc rounds) frame val b =
    let (old, b') = Bitmap.test_and_set b frame in
    test_and_set_frames rounds (frame + 1) (val || old) b'

-- `val &= test_and_clear(frame)` over a range.
unfoldable pub test_and_clear_frames : ℕ → ℕ → Bool → Bitmap → Bool × Bitmap
test_and_clear_frames zero frame val b = (val, b)
test_and_clear_frames (suc rounds) frame val b =
    let (old, b') = Bitmap.test_and_clear b frame in
    test_and_clear_frames rounds (frame + 1) (val && old) b'

-- `for(last_free = …; last_free < …; ++last_free) if(!is_available_frame(last_free)) break;`
unfoldable pub run_end : ℕ → ℕ → Bitmap → ℕ
run_end zero last_free b = last_free
run_end (suc rounds) last_free b =
    let rest = run_end rounds (last_free + 1) b in
    if Bitmap.get b last_free then last_free else rest

-- `while(curr_frame < page_frame_count() && !is_available_frame(curr_frame)) ++curr_frame;` with
-- the frames below `page_frame_count()` that are left.
unfoldable pub skip_taken : ℕ → ℕ → Bitmap → ℕ
skip_taken zero curr_frame b = curr_frame
skip_taken (suc left) curr_frame b =
    let rest = skip_taken left (curr_frame + 1) b in
    if Bitmap.get b curr_frame then rest else curr_frame
