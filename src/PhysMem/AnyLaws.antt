-- ===== src/PhysMem/AnyLaws.antt =====
-- The functions that look for free frames, as the kernel calls them.
use danaos.Prelude.{
  ℕ, zero, suc, ◌+◌, ◌-◌, ◌*◌, ◌/◌, ◌%◌, ◌^◌, ◌≤◌, ◌<◌, ◌≡◌, ◌⊎◌, inl, inr, refl, ap, ◌∙◌, true,
  false, arith, ◌==◌, if◌then◌else◌, Bool-cases, some,
}
use native.Mathlib.Decide.{dec_lt}
use danaos.Bitmap
use danaos.Bitmap.{Bitmap}
use danaos.Bitmap.Scan.{get_first_clear-FirstBit, FirstBit}
use danaos.PhysMem.Loops.{skip_taken}
use danaos.PhysMem.Ranges.{Stops, skip_taken-Stops}
use danaos.PhysMem.Any.{search_run, alloc_any_count, alloc_any_range, alloc_any_address, first_from}
use danaos.PhysMem.Search.{IsPhysMem, FirstRun, FirstRun-later, NoRun, search_run-FirstRun}

module _ (b : Bitmap) (v : IsPhysMem b) where
  -- No run starts in front of the first clear bit.
  first_clear-NoRun : (count r : ℕ) → 0 < count → FirstBit false b r → NoRun 0 r count b
  first_clear-NoRun count r pos (inl (e, taken)) p lo hi inside free =
      ground (arith, v.covers, taken p, free p)
  first_clear-NoRun count r pos (inr (l, e, taken)) p lo hi inside free =
      ground (arith, taken p, free p)

  first_clear-free : (r : ℕ) → FirstBit false b r → r < b.bits → Bitmap.get b r ≡ false
  first_clear-free r (inl (e, taken)) l = absurd (omega (arith, v.covers, v.reach))
  first_clear-free r (inr (l', e, taken)) l = e

  search_from_first_clear :
      (count : ℕ)
      → 0 < count
      → count ≤ 2 ^ 20
      → (r : ℕ) × (b' : Bitmap) × (search_run (b.bits + 1) (Bitmap.get_first_clear b) count b
          ≡ some (r, b'))
        × FirstRun 0 count b r b'
  search_from_first_clear count pos few =
      let first = get_first_clear-FirstBit b v.valid in
      let found =
        search_run-FirstRun b v count pos few (b.bits + 1) (Bitmap.get_first_clear b) (omega arith)
          (first_clear-free (Bitmap.get_first_clear b) first) in
      (
        found.0,
        found.1,
        found.2,
        FirstRun-later 0 (Bitmap.get_first_clear b) count b found.0 found.1 (omega arith)
            (first_clear-NoRun count (Bitmap.get_first_clear b) pos first) found.3,
      )

-- For 1 to 2 ^ 20 frames, on a map with `IsPhysMem` (the words of the bitmap have 32 bits, its
-- blocks cover the frames, and there are at most 2 ^ 20 of them), `alloc_any` with a count ends.
-- It takes the lowest run of that many free frames that starts inside the map and returns the
-- run's address; where there is no such run it returns 0 and changes nothing.
pub alloc_any_count-FirstRun :
    (b : Bitmap) (frame_count : ℕ)
    → IsPhysMem b
    → 0 < frame_count
    → frame_count ≤ 2 ^ 20
    → (r : ℕ) × (b' : Bitmap) × (alloc_any_count b frame_count ≡ some (r, b'))
      × FirstRun 0 frame_count b r b'
unfolding alloc_any_count
alloc_any_count-FirstRun b frame_count v pos few = search_from_first_clear b v frame_count pos few

-- On a map with `IsPhysMem`, for a positive number of bytes below 2 ^ 32, `alloc_any_range`
-- ends. It takes the lowest run of free frames that starts inside the map and has the least
-- number of pages that hold the bytes, and returns its address; where there is no such run it
-- returns 0 and changes nothing.
pub alloc_any_range-FirstRun :
    (b : Bitmap) (bytes : ℕ)
    → IsPhysMem b
    → 0 < bytes
    → bytes < 2 ^ 32
    → (r : ℕ) × (b' : Bitmap) × (count : ℕ) × (alloc_any_range b bytes ≡ some (r, b'))
      × (bytes ≤ count * 4096)
      × (count * 4096 < bytes + 4096)
      × FirstRun 0 count b r b'
unfolding alloc_any_range
alloc_any_range-FirstRun b bytes v pos h =
    let count : ℕ = (1 + (bytes + 2 ^ 32 - 1) % 2 ^ 32 / 4096) % 2 ^ 32 in
    let found = search_from_first_clear b v count (omega arith) (omega arith) in
    (found.0, found.1, count, found.2, omega arith, omega arith, found.3)

-- A run that ends behind the map is taken too: where only the last frame of a map with
-- `IsPhysMem` is free, and the bits of the memory behind it are clear, a request for 1 to 2 ^ 20
-- frames is granted at that frame.
pub alloc_any_count_past_end :
    (b : Bitmap) (frame_count : ℕ)
    → IsPhysMem b
    → 0 < frame_count
    → frame_count ≤ 2 ^ 20
    → 0 < b.bits
    → ((j : ℕ) → j < b.bits - 1 → Bitmap.get b j ≡ true)
    → ((j : ℕ) → b.bits - 1 ≤ j → Bitmap.get b j ≡ false)
    → (b' : Bitmap) × (alloc_any_count b frame_count ≡ some ((b.bits - 1) * 4096, b'))
      × ((j : ℕ) → b.bits ≤ j → j < b.bits - 1 + frame_count → Bitmap.get b' j ≡ true)
alloc_any_count_past_end b frame_count v pos few some_bits taken free =
    go (alloc_any_count-FirstRun b frame_count v pos few)
  where
    go :
        (r : ℕ) × (b' : Bitmap) × (alloc_any_count b frame_count ≡ some (r, b'))
          × FirstRun 0 frame_count b r b'
        → (b' : Bitmap) × (alloc_any_count b frame_count ≡ some ((b.bits - 1) * 4096, b'))
          × ((j : ℕ) → b.bits ≤ j → j < b.bits - 1 + frame_count → Bitmap.get b' j ≡ true)
    go (r, b', e, inl (z, u, none_at)) =
        absurd (none_at (b.bits - 1) (omega arith) (omega arith) (λ j p q. free j p))
    go (r, b', e, inr (f, ef, lo, hi, runs, first, after)) = elim (dec_lt f (b.bits - 1)) [
      | yes q ↦ ground (arith, taken f q, runs f)
      | no q ↦
          (let same : f ≡ b.bits - 1 = omega arith in
            (
              b',
              e ∙ ap (λ (t : ℕ). some (t, b')) (ef ∙ ap (λ (t : ℕ). t * 4096) same),
              λ j p s. ground (arith, after j),
            ))
    ]

first_from-skip_taken :
    (left frame : ℕ) (b : Bitmap)
    → first_from left frame b ≡ (
        if skip_taken left frame b == frame + left
        then (0, b)
        else (skip_taken left frame b, Bitmap.set b (skip_taken left frame b)))
unfolding first_from skip_taken
first_from-skip_taken zero frame b = ground arith
first_from-skip_taken (suc left) frame b =
    ground
      (arith, first_from-skip_taken left (frame + 1) b, (skip_taken-Stops left (frame + 1) b).low)

-- What `alloc_any_address` answers, for the frame `from` of the hint.
abbrev pub AnyFrom : ℕ → Bitmap → ℕ → Bitmap → Type 0
AnyFrom from b r b' =
    ((r ≡ 0) × (b' ≡ b) × ((j : ℕ) → from ≤ j → j < b.bits → Bitmap.get b j ≡ true))
    ⊎ ((from ≤ r)
        × (r < b.bits)
        × (Bitmap.get b r ≡ false)
        × ((j : ℕ) → from ≤ j → j < r → Bitmap.get b j ≡ true)
        × (b' ≡ Bitmap.set b r))

-- For a hint inside the map, `alloc_any_address` takes the first free frame from the hint's frame
-- on, and returns the number of that frame, not its address; where there is none it returns 0 and
-- changes nothing.
pub alloc_any_address-AnyFrom :
    (b : Bitmap) (address_hint : ℕ)
    → address_hint / 4096 < b.bits
    → let (r, b') = alloc_any_address b address_hint in AnyFrom (address_hint / 4096) b r b'
unfolding alloc_any_address
alloc_any_address-AnyFrom b address_hint inside =
    rw (first_from-skip_taken (b.bits - from) from b)
      (go (skip_taken (b.bits - from) from b) (skip_taken-Stops (b.bits - from) from b))
  where
    from : ℕ
    from = address_hint / 4096

    go :
        (n : ℕ)
        → Stops true (b.bits - from) from b n
        → let out : ℕ × Bitmap =
            if n == from + (b.bits - from) then (0, b) else (n, Bitmap.set b n) in
          AnyFrom from b out.0 out.1
    go n s = elim (Bool-cases (n == from + (b.bits - from))) [
      | inl e ↦ rw e (inl (refl, refl, λ j p q. s.passed j p (ground arith)))
      | inr e ↦ rw e (inr (s.low, ground (arith, s.high), ground (arith, s.stop), s.passed, refl))
    ]
