-- ===== src/PhysMem/Search.antt =====
-- `alloc_any` and the search for a run of free frames: what is found, and that the search ends.
use danaos.Prelude.{
  ℕ, zero, suc, ◌+◌, ◌-◌, ◌*◌, ◌%◌, ◌^◌, ◌≤◌, ◌<◌, ◌≡◌, ◌⊎◌, inl, inr, refl, ◌∙◌, true, false, not,
  arith, leb, ◌==◌, if◌then◌else◌, some, lt→ltb, le→ltb_false,
}
use native.Mathlib.Decide.{dec_lt, ℕ_discrete}
use danaos.Bitmap
use danaos.Bitmap.{Bitmap}
use danaos.Bitmap.Laws.{get-set, IsValid}
use danaos.Bitmap.Scan.{get_first_clear-FirstBit, FirstBit}
use danaos.PhysMem.Ranges.{
  in_frames, get-set_frames, AllFrames, Stops, run_end-Stops, skip_taken-Stops,
}
use danaos.PhysMem.Any.{alloc_any, last_free_from, take_run, next_free, search_run}

-- A map of at most 2 ^ 20 frames, which is what 32-bit addresses can reach.
pub record IsPhysMem (b : Bitmap) : Type 0 where
  pub valid : IsValid b
  pub covers : b.bits ≤ b.blocks * 32
  pub reach : b.blocks * 32 ≤ 2 ^ 20

-- What `alloc_any` may answer: the lowest free frame, which it takes, or 0 with nothing changed
-- where no frame is free.
abbrev pub AnyFrame : Bitmap → ℕ → Bitmap → Type 0
AnyFrame b r b' =
    ((r ≡ 0) × (b' ≡ b) × ((j : ℕ) → j < b.blocks * 32 → Bitmap.get b j ≡ true))
    ⊎ ((f : ℕ) × (r ≡ f * 4096)
        × (f < b.blocks * 32)
        × (Bitmap.get b f ≡ false)
        × ((j : ℕ) → j < f → Bitmap.get b j ≡ true)
        × ((j : ℕ) → Bitmap.get b' j ≡ (if f == j then true else Bitmap.get b j)))

-- On a map with `IsPhysMem` `alloc_any` takes the frame of the lowest clear bit of the blocks
-- and returns its address; where every bit is set it returns 0 and changes nothing.
pub alloc_any-AnyFrame : (b : Bitmap) → IsPhysMem b → AnyFrame b (alloc_any b).0 (alloc_any b).1
unfolding alloc_any
alloc_any-AnyFrame b v = go (Bitmap.get_first_clear b) (get_first_clear-FirstBit b v.valid)
  where
    go :
        (r : ℕ)
        → FirstBit false b r
        → let out : ℕ × Bitmap =
            if not (r == Bitmap.npos) then ((r * 4096) % 2 ^ 32, Bitmap.set b r) else (0, b) in
          AnyFrame b out.0 out.1
    go r (inl (e, h)) = rw e (inl (refl, refl, h))
    go r (inr (l, e, h)) =
        let n : (r == Bitmap.npos) ≡ false = ground (arith, v.reach) in
        rw n (inr (r, omega (arith, v.reach), l, e, h, λ j. get-set b r j))

-- No run of `count` free frames starts at a frame of the map from `from` on and below `end`.
abbrev pub NoRun : ℕ → ℕ → ℕ → Bitmap → Type 0
NoRun from end count b = (p : ℕ) → from ≤ p → p < end → p < b.bits → ¬ AllFrames false count p b

-- What a search from `from` on may answer: the first run, which it takes, or 0 with nothing changed
-- where there is none. The run starts at a frame of the map.
abbrev pub FirstRun : ℕ → ℕ → Bitmap → ℕ → Bitmap → Type 0
FirstRun from count b r b' =
    ((r ≡ 0) × (b' ≡ b) × ((p : ℕ) → from ≤ p → p < b.bits → ¬ AllFrames false count p b))
    ⊎ ((f : ℕ) × (r ≡ f * 4096)
        × (from ≤ f)
        × (f < b.bits)
        × AllFrames false count f b
        × ((p : ℕ) → from ≤ p → p < f → ¬ AllFrames false count p b)
        × ((j : ℕ) → Bitmap.get b' j ≡ (if in_frames count f j then true else Bitmap.get b j)))

-- Frames without a run in front of a search's answer.
pub FirstRun-later :
    (from next count : ℕ) (b : Bitmap) (r : ℕ) (b' : Bitmap)
    → from ≤ next
    → NoRun from next count b
    → FirstRun next count b r b'
    → FirstRun from count b r b'
FirstRun-later from next count b r b' l skipped (inl (e, u, h)) = inl (e, u, none_at)
  where
    none_at : (p : ℕ) → from ≤ p → p < b.bits → ¬ AllFrames false count p b
    none_at p lo hi = elim (dec_lt p next) [
      | yes q ↦ skipped p lo q hi
      | no q ↦ h p (omega arith) hi
    ]
FirstRun-later from next count b r b' l skipped (inr (f, e, lo, hi, free, first, after)) =
    inr (f, e, omega arith, hi, free, none_at, after)
  where
    none_at : (p : ℕ) → from ≤ p → p < f → ¬ AllFrames false count p b
    none_at p lo' q = elim (dec_lt p next) [
      | yes k ↦ skipped p lo' k (omega arith)
      | no k ↦ first p (omega arith) q
    ]

-- Where the search goes on after a run that is too short.
abbrev following : Bitmap → ℕ → ℕ → ℕ
following b count curr = next_free (last_free_from curr count b + 1) b

module _ (b : Bitmap) (v : IsPhysMem b) (count : ℕ) (some_frames : 0 < count)
    (few : count ≤ 2 ^ 20) where
  last_free-Stops :
      (curr : ℕ)
      → curr < b.bits
      → Stops false (count - 1) (curr + 1) b (last_free_from curr count b)
  unfolding last_free_from
  last_free-Stops curr l =
      let e : (curr + 1) % 2 ^ 32 ≡ curr + 1 = omega (arith, v.covers, v.reach) in
      let f : (curr + count) % 2 ^ 32 - (curr + 1) ≡ count - 1 = omega (arith, v.covers, v.reach) in
      rw (e, f) (run_end-Stops (count - 1) (curr + 1) b)

  -- A run that is long enough is taken.
  FirstRun-take :
      (curr last_free : ℕ)
      → curr < b.bits
      → Bitmap.get b curr ≡ false
      → Stops false (count - 1) (curr + 1) b last_free
      → curr + count ≤ last_free
      → FirstRun curr count b (take_run curr count b).0 (take_run curr count b).1
  unfolding take_run
  FirstRun-take curr last_free l free s long =
      let e : (curr + count) % 2 ^ 32 - curr ≡ count = omega (arith, v.covers, v.reach) in
      inr (
        curr,
        omega (arith, v.covers, v.reach),
        omega arith,
        l,
        all_free,
        λ p lo hi. absurd (omega arith),
        λ j. rw e (get-set_frames count curr b j),
      )
    where
      all_free : AllFrames false count curr b
      all_free j lo hi = elim (ℕ_discrete curr j) [
        | yes same ↦ rw (← same) free
        | no other ↦ s.passed j (omega arith) (omega arith)
      ]

  -- After a run that is too short the search goes on at `next`: no run starts in between.
  NoRun-short :
      (curr last_free next : ℕ)
      → Stops false (count - 1) (curr + 1) b last_free
      → last_free < curr + count
      → ((j : ℕ) → last_free + 1 ≤ j → j < next → Bitmap.get b j ≡ true)
      → NoRun curr next count b
  NoRun-short curr last_free next s short taken p lo hi inside free = elim s.stop [
    | inl e ↦ absurd (omega arith)
    | inr blocked ↦ elim (dec_lt last_free p) [
      | yes q ↦ ground (arith, taken p, free p)
      | no q ↦ ground (arith, blocked, free last_free)
    ]
  ]

  pub next_free-Stops : (from : ℕ) → Stops true (b.bits - from) from b (next_free from b)
  unfolding next_free
  next_free-Stops from = skip_taken-Stops (b.bits - from) from b

  -- `next_free` answers a free frame, where it answers a frame of the map.
  next_free-free : (from : ℕ) → next_free from b < b.bits → Bitmap.get b (next_free from b) ≡ false
  next_free-free from l = elim (next_free-Stops from).stop [
    | inl e ↦ absurd (omega (arith, (next_free-Stops from).low))
    | inr e ↦ e
  ]

  -- The three ways that a round of the outer loop can go.
  search_run-stop :
      (fuel curr : ℕ) → b.bits ≤ curr → search_run (suc fuel) curr count b ≡ some (0, b)
  unfolding search_run
  search_run-stop fuel curr l = rw (le→ltb_false curr b.bits l)

  search_run-take :
      (fuel curr : ℕ)
      → curr < b.bits
      → curr + count ≤ last_free_from curr count b
      → search_run (suc fuel) curr count b ≡ some (take_run curr count b)
  unfolding search_run
  search_run-take fuel curr l long =
      let e : leb ((curr + count) % 2 ^ 32) (last_free_from curr count b) ≡ true =
        ground (arith, v.covers, v.reach) in
      rw (lt→ltb curr b.bits l, e)

  search_run-next :
      (fuel curr : ℕ)
      → curr < b.bits
      → last_free_from curr count b < curr + count
      → search_run (suc fuel) curr count b
        ≡ search_run fuel (next_free (last_free_from curr count b + 1) b) count b
  unfolding search_run
  search_run-next fuel curr l short =
      let e : leb ((curr + count) % 2 ^ 32) (last_free_from curr count b) ≡ false =
        ground (arith, v.covers, v.reach) in
      let f : (last_free_from curr count b + 1) % 2 ^ 32 ≡ last_free_from curr count b + 1 =
        omega (arith, v.covers, v.reach) in
      rw (lt→ltb curr b.bits l, e, f)

  -- With more fuel than frames left, the search ends, and its answer is the first run.
  pub search_run-FirstRun :
      (fuel curr : ℕ)
      → b.bits - curr < fuel
      → (curr < b.bits → Bitmap.get b curr ≡ false)
      → (r : ℕ) × (b' : Bitmap) × (search_run fuel curr count b ≡ some (r, b'))
        × FirstRun curr count b r b'
  search_run-FirstRun zero curr enough free = absurd (omega arith)
  search_run-FirstRun (suc fuel) curr enough free = elim (dec_lt curr b.bits) [
    | no q ↦ (
      0,
      b,
      search_run-stop fuel curr (omega arith),
      inl (refl, refl, λ p lo hi. absurd (omega arith)),
    )
    | yes l ↦ elim (dec_lt (last_free_from curr count b) (curr + count)) [
      | no long ↦ (
        (take_run curr count b).0,
        (take_run curr count b).1,
        search_run-take fuel curr l (omega arith),
        FirstRun-take curr _ l (free l) (last_free-Stops curr l) (omega arith),
      )
      | yes short ↦ go l short (
          search_run-FirstRun fuel (next_free (last_free_from curr count b + 1) b)
            (omega (
              arith,
              (last_free-Stops curr l).low,
              (next_free-Stops (last_free_from curr count b + 1)).low,
            ))
            (next_free-free (last_free_from curr count b + 1)))
    ]
  ]
    where
      go :
          (l : curr < b.bits) (short : last_free_from curr count b < curr + count)
          → (r : ℕ) × (b' : Bitmap) × (search_run fuel (following b count curr) count b
              ≡ some (r, b'))
            × FirstRun (following b count curr) count b r b'
          → (r : ℕ) × (b' : Bitmap) × (search_run (suc fuel) curr count b ≡ some (r, b'))
            × FirstRun curr count b r b'
      go l short (r, b', e, first) = (
        r,
        b',
        search_run-next fuel curr l short ∙ e,
        FirstRun-later curr (following b count curr) count b r b'
            (omega (
              arith,
              (last_free-Stops curr l).low,
              (next_free-Stops (last_free_from curr count b + 1)).low,
            ))
            (NoRun-short curr (last_free_from curr count b) (following b count curr)
              (last_free-Stops curr l) short
              (next_free-Stops (last_free_from curr count b + 1)).passed)
            first,
      )
