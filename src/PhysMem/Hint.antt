-- ===== src/PhysMem/Hint.antt =====
-- The functions with a hint and a count: `search_hint` stays at the first free frame.
use danaos.Prelude.{
  ℕ, zero, suc, ◌+◌, ◌-◌, ◌*◌, ◌/◌, ◌%◌, ◌^◌, ◌≤◌, ◌<◌, ◌≡◌, refl, ◌∙◌, true, false, arith, none,
  some, lt→ltb,
}
use native.Mathlib.Decide.{dec_lt}
use danaos.Bitmap
use danaos.Bitmap.{Bitmap}
use danaos.PhysMem.Loops.{set_frames, run_end, skip_taken}
use danaos.PhysMem.Ranges.{AllFrames, Stops, run_end-Stops}
use danaos.PhysMem.Any.{last_free_from, take_run, next_free, search_hint, alloc_any_address_count}

skip_taken_self :
    (left curr : ℕ) (b : Bitmap) → Bitmap.get b curr ≡ false → skip_taken left curr b ≡ curr
unfolding skip_taken
skip_taken_self zero curr b free = refl
skip_taken_self (suc left) curr b free = rw free

search_hint-stuck :
    (fuel curr count : ℕ) (b : Bitmap)
    → Bitmap.get b curr ≡ false
    → curr < b.bits
    → last_free_from curr count b < (curr + count) % 2 ^ 32
    → search_hint fuel curr count b ≡ none
unfolding search_hint next_free
search_hint-stuck zero curr count b free l short = refl
search_hint-stuck (suc fuel) curr count b free l short =
    rw (lt→ltb curr b.bits l, skip_taken_self (b.bits - curr) curr b free)
      (ground (arith, search_hint-stuck fuel curr count b free l short))

-- A taken frame in the run that starts at `curr` ends the run before its length is reached.
last_free_from-short :
    (curr count j : ℕ) (b : Bitmap)
    → curr < j
    → j < curr + count
    → curr + count < 2 ^ 32
    → Bitmap.get b j ≡ true
    → last_free_from curr count b < curr + count
unfolding last_free_from
last_free_from-short curr count j b lo hi fits taken =
    let e : (curr + 1) % 2 ^ 32 ≡ curr + 1 = omega arith in
    let f : (curr + count) % 2 ^ 32 - (curr + 1) ≡ count - 1 = omega arith in
    rw (e, f) (go (run_end (count - 1) (curr + 1) b) (run_end-Stops (count - 1) (curr + 1) b))
  where
    go : (r : ℕ) → Stops false (count - 1) (curr + 1) b r → r < curr + count
    go r s = elim (dec_lt j r) [ yes q ↦ ground (arith, s.passed j, taken) | no q ↦ omega arith ]

-- The loop of `alloc_any_address` with a count never ends where the hint is the address of a
-- free frame of the map, other than frame 0, and a later frame of the run that starts there is
-- taken, in a run that ends below 4 GiB: no number of rounds gives an answer.
pub alloc_any_address_count_stuck :
    (fuel : ℕ) (b : Bitmap) (page_frame frame_count j : ℕ)
    → 0 < page_frame
    → page_frame < b.bits
    → Bitmap.get b page_frame ≡ false
    → page_frame < j
    → j < page_frame + frame_count
    → Bitmap.get b j ≡ true
    → (page_frame + frame_count) * 4096 < 2 ^ 32
    → alloc_any_address_count fuel b (page_frame * 4096) frame_count ≡ none
unfolding alloc_any_address_count
alloc_any_address_count_stuck fuel b page_frame frame_count j pos inside free lo hi taken fits =
    let e : (1 + (page_frame * 4096 + 2 ^ 32 - 1) % 2 ^ 32 / 4096) % 2 ^ 32 ≡ page_frame =
      omega arith in
    rw e (
      search_hint-stuck fuel page_frame frame_count b free inside
        (omega (arith, last_free_from-short page_frame frame_count j b lo hi (omega arith) taken)))

skip_taken_all :
    (left curr : ℕ) (b : Bitmap) → AllFrames true left curr b → skip_taken left curr b ≡ curr + left
unfolding skip_taken
skip_taken_all zero curr b h = omega arith
skip_taken_all (suc left) curr b h =
    rw (h curr (omega arith) (omega arith))
      (omega (arith, skip_taken_all left (curr + 1) b (λ j p q. h j (omega arith) (omega arith))))

-- Where every frame of a map of fewer than 2 ^ 20 frames is taken from the hint's frame on,
-- which is not frame 0, `alloc_any_address` for one frame takes the frame behind the last one of
-- the map and returns its address, in place of failing.
pub alloc_any_address_count_past_end :
    (b : Bitmap) (page_frame : ℕ)
    → 0 < page_frame
    → page_frame < b.bits
    → b.bits < 2 ^ 20
    → ((j : ℕ) → page_frame ≤ j → j < b.bits → Bitmap.get b j ≡ true)
    → alloc_any_address_count 1 b (page_frame * 4096) 1 ≡ some (b.bits * 4096, Bitmap.set b b.bits)
unfolding alloc_any_address_count search_hint next_free last_free_from take_run run_end set_frames
alloc_any_address_count_past_end b page_frame pos inside small taken =
    let e : (1 + (page_frame * 4096 + 2 ^ 32 - 1) % 2 ^ 32 / 4096) % 2 ^ 32 ≡ page_frame =
      omega arith in
    let s : skip_taken (b.bits - page_frame) page_frame b ≡ b.bits =
      skip_taken_all (b.bits - page_frame) page_frame b (λ j p q. taken j p (omega arith))
      ∙ omega arith in
    let z : (b.bits + 1) % 2 ^ 32 - (b.bits + 1) % 2 ^ 32 ≡ 0 = omega arith in
    let o : (b.bits + 1) % 2 ^ 32 - b.bits ≡ 1 = omega arith in
    rw (e, s, lt→ltb page_frame b.bits inside, z, o) (ground arith)
