-- ===== src/PhysMem/FrameLaws.antt =====
-- The functions on given frames and ranges: the frames that they look at and change.
use danaos.Prelude.{
  ℕ, ◌+◌, ◌-◌, ◌*◌, ◌/◌, ◌%◌, ◌^◌, ◌≤◌, ◌<◌, ◌≡◌, ◌↔◌, Bool, true, false, not, ◌&&◌, arith, ltb,
  if◌then◌else◌, ap, ◌∙◌,
}
use danaos.Bitmap
use danaos.Bitmap.{Bitmap}
use danaos.PhysMem.Frames.{
  is_available_frame_count, is_available_range, alloc_frame_count, alloc_range, alloc_address_count,
  free_range, free_frame_count, test_and_alloc_frame_count, test_and_alloc_range,
  test_and_free_frame_count,
}
use danaos.PhysMem.Loops.{set_frames}
use danaos.PhysMem.Ranges.{
  in_frames, get-set_frames, get-clear_frames, frames_available_iff, test_and_set_frames_lem,
  frames_taken_iff, test_and_clear_frames_lem,
}

-- The page of frame `f` and the bytes from `address` on have a byte in common.
abbrev pub page_meets : ℕ → ℕ → ℕ → Bool
page_meets address bytes f = ltb (f * 4096) (address + bytes) && ltb address (f * 4096 + 4096)

-- The loop of a byte range covers the pages that the range meets.
in_range :
    (address bytes f : ℕ)
    → 0 < bytes
    → address + bytes < 2 ^ 32
    → in_frames
        ((1 + ((address + bytes) % 2 ^ 32 + 2 ^ 32 - 1) % 2 ^ 32 / 4096) % 2 ^ 32 - address / 4096)
        (address / 4096)
        f
      ≡ page_meets address bytes f
in_range address bytes f p h = ground arith

-- `is_available_frame` with a count is true exactly where every frame of the range is free.
pub is_available_frame_count_iff :
    (b : Bitmap) (page_frame frame_count : ℕ)
    → page_frame + frame_count < 2 ^ 32
    → (is_available_frame_count b page_frame frame_count ≡ true)
      ↔ ((j : ℕ) → page_frame ≤ j → j < page_frame + frame_count → Bitmap.get b j ≡ false)
unfolding is_available_frame_count
is_available_frame_count_iff b page_frame frame_count h =
    let e : (page_frame + frame_count) % 2 ^ 32 - page_frame ≡ frame_count = omega arith in
    rw e (frames_available_iff frame_count page_frame b)

-- For a range of at least one byte that does not wrap, `alloc_range` takes exactly the pages that
-- the range meets, and leaves every other frame as it was.
pub get-alloc_range :
    (b : Bitmap) (address bytes j : ℕ)
    → 0 < bytes
    → address + bytes < 2 ^ 32
    → Bitmap.get (alloc_range b address bytes).1 j
      ≡ (if page_meets address bytes j then true else Bitmap.get b j)
unfolding alloc_range
get-alloc_range b address bytes j p h =
    get-set_frames _ (address / 4096) b j
    ∙ ap (λ (t : Bool). if t then true else Bitmap.get b j) (in_range address bytes j p h)

-- For a range of at least one byte that does not wrap, `free_range` frees exactly the pages that the
-- range meets, and leaves every other frame as it was.
pub get-free_range :
    (b : Bitmap) (address bytes j : ℕ)
    → 0 < bytes
    → address + bytes < 2 ^ 32
    → Bitmap.get (free_range b address bytes) j
      ≡ (if page_meets address bytes j then false else Bitmap.get b j)
unfolding free_range
get-free_range b address bytes j p h =
    get-clear_frames _ (address / 4096) b j
    ∙ ap (λ (t : Bool). if t then false else Bitmap.get b j) (in_range address bytes j p h)

-- For a range of at least one byte that does not wrap, `is_available_range` is true exactly where every page that the range meets is free.
pub is_available_range_iff :
    (b : Bitmap) (address bytes : ℕ)
    → 0 < bytes
    → address + bytes < 2 ^ 32
    → (is_available_range b address bytes ≡ true)
      ↔ ((j : ℕ) → page_meets address bytes j ≡ true → Bitmap.get b j ≡ false)
unfolding is_available_range
is_available_range_iff b address bytes p h = (
  λ a j m.
      (frames_available_iff _ (address / 4096) b).0 a j
        (ground (arith, in_range address bytes j p h))
        (ground (arith, in_range address bytes j p h)),
  λ a.
      (frames_available_iff _ (address / 4096) b).1
        (λ j l u. a j (ground (arith, in_range address bytes j p h))),
)

-- Where all frames of a range that does not wrap are free, allocating the range and freeing it
-- again gives back the state of every frame.
pub free_frame_count-alloc_frame_count :
    (b : Bitmap) (page_frame frame_count j : ℕ)
    → page_frame + frame_count < 2 ^ 32
    → is_available_frame_count b page_frame frame_count ≡ true
    → Bitmap.get
        (free_frame_count (alloc_frame_count b page_frame frame_count).1 page_frame frame_count)
        j
      ≡ Bitmap.get b j
unfolding free_frame_count alloc_frame_count
free_frame_count-alloc_frame_count b page_frame frame_count j h a =
    let e : (page_frame + frame_count) % 2 ^ 32 - page_frame ≡ frame_count = omega arith in
    rw e (
      ground (
        arith,
        get-clear_frames frame_count page_frame (set_frames frame_count page_frame b) j,
        get-set_frames frame_count page_frame b j,
        (is_available_frame_count_iff b page_frame frame_count h).0 a j,
      ))

-- On a range that does not wrap, `test_and_alloc_frame` with a count is true exactly where all frames of the range were free, and
-- takes them in either case; other frames stay as they were.
pub test_and_alloc_frame_count_lem :
    (b : Bitmap) (page_frame frame_count : ℕ)
    → page_frame + frame_count < 2 ^ 32
    → let (done, b') = test_and_alloc_frame_count b page_frame frame_count in
      ((done ≡ true)
        ↔ ((j : ℕ) → page_frame ≤ j → j < page_frame + frame_count → Bitmap.get b j ≡ false))
      × ((j : ℕ)
          → Bitmap.get b' j ≡ (if in_frames frame_count page_frame j then true else Bitmap.get b j))
unfolding test_and_alloc_frame_count
test_and_alloc_frame_count_lem b page_frame frame_count h =
    let e : (page_frame + frame_count) % 2 ^ 32 - page_frame ≡ frame_count = omega arith in
    rw (e, test_and_set_frames_lem)
      (
        (
          λ d. (frames_available_iff frame_count page_frame b).0 (ground arith),
          λ f. ground (arith, (frames_available_iff frame_count page_frame b).1 f),
        ),
        λ j. get-set_frames frame_count page_frame b j,
      )

-- On a range that does not wrap, `test_and_free_frame` with a count is true exactly where all frames of the range were taken, and
-- frees them in either case; other frames stay as they were.
pub test_and_free_frame_count_lem :
    (b : Bitmap) (page_frame frame_count : ℕ)
    → page_frame + frame_count < 2 ^ 32
    → let (done, b') = test_and_free_frame_count b page_frame frame_count in
      ((done ≡ true)
        ↔ ((j : ℕ) → page_frame ≤ j → j < page_frame + frame_count → Bitmap.get b j ≡ true))
      × ((j : ℕ)
          → Bitmap.get b' j
            ≡ (if in_frames frame_count page_frame j then false else Bitmap.get b j))
unfolding test_and_free_frame_count
test_and_free_frame_count_lem b page_frame frame_count h =
    let e : (page_frame + frame_count) % 2 ^ 32 - page_frame ≡ frame_count = omega arith in
    rw (e, test_and_clear_frames_lem)
      (
        (
          λ d. (frames_taken_iff frame_count page_frame b).0 d,
          λ f. (frames_taken_iff frame_count page_frame b).1 f,
        ),
        λ j. get-clear_frames frame_count page_frame b j,
      )

-- On a positive number of whole pages that end below 4 GiB `test_and_alloc_range` answers the
-- opposite of `test_and_alloc_frame` on the frames of the range: false exactly where all were
-- free.
pub test_and_alloc_range_negated :
    (b : Bitmap) (page_frame frame_count : ℕ)
    → 0 < frame_count
    → (page_frame + frame_count) * 4096 < 2 ^ 32
    → (test_and_alloc_range b (page_frame * 4096) (frame_count * 4096)).0
      ≡ not (test_and_alloc_frame_count b page_frame frame_count).0
unfolding test_and_alloc_range test_and_alloc_frame_count
test_and_alloc_range_negated b page_frame frame_count p h =
    let e : (page_frame + frame_count) % 2 ^ 32 - page_frame ≡ frame_count = omega arith in
    let f : page_frame * 4096 / 4096 ≡ page_frame = omega arith in
    let g : (1 + ((page_frame * 4096 + frame_count * 4096) % 2 ^ 32 + 2 ^ 32 - 1) % 2 ^ 32 / 4096)
            % 2 ^ 32
          - page_frame
        ≡ frame_count =
      omega arith in
    rw (f, g, e, test_and_set_frames_lem) (ground arith)

-- From a page other than the first, and for an end that does not wrap, `alloc_address` with a count
-- takes 4096 times as many frames as it is asked for.
pub get-alloc_address_count :
    (b : Bitmap) (page_frame frame_count j : ℕ)
    → 0 < page_frame
    → (page_frame + frame_count) * 4096 < 2 ^ 32
    → Bitmap.get (alloc_address_count b (page_frame * 4096) frame_count).1 j
      ≡ (if in_frames (frame_count * 4096) page_frame j then true else Bitmap.get b j)
unfolding alloc_address_count
get-alloc_address_count b page_frame frame_count j p h =
    let f : page_frame * 4096 / 4096 ≡ page_frame = omega arith in
    let g : ((1 + (page_frame * 4096 + 2 ^ 32 - 1) % 2 ^ 32 / 4096) % 2 ^ 32
              + frame_count * 4096 % 2 ^ 32)
            % 2 ^ 32
          - page_frame
        ≡ frame_count * 4096 =
      omega arith in
    rw (f, g) (get-set_frames (frame_count * 4096) page_frame b j)
