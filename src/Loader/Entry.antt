-- ===== src/Loader/Entry.antt =====
-- The address that the loader jumps to.
use danaos.Prelude.{
  ℕ, ◌+◌, ◌-◌, ◌*◌, ◌^◌, ◌≤◌, ◌<◌, ◌≡◌, ◌∙◌, ap, refl, ◌⊎◌, inl, inr, Bool, true, false, ◌||◌, List,
  [], ◌∷◌, arith,
}
use danaos.Loader.Segments.{load_list, load_segments-load_list, AllApart, program_headers}
use danaos.Loader.{Segment, Loading, load_segment, load_segments, entry_address, start_loading}

-- The virtual addresses of the loadable segments are `offset` above the physical ones.
pub data AllShifted (offset : ℕ) : List Segment → Type 0 where
  none_left : AllShifted offset []
  skipped :
      {g : Segment} {gs : List Segment}
      → g.loadable ≡ false
      → AllShifted offset gs
      → AllShifted offset (g ∷ gs)
  shifted :
      {g : Segment} {gs : List Segment}
      → g.loadable ≡ true
      → g.vaddr ≡ g.paddr + offset
      → g.vaddr < 2 ^ 32
      → AllShifted offset gs
      → AllShifted offset (g ∷ gs)

abbrev pub some_loadable : List Segment → Bool
some_loadable [] = false
some_loadable (g ∷ gs) = g.loadable || some_loadable gs

-- The bases before and after the first loadable segment.
abbrev Unset : Loading → Type 0
Unset s = (s.base_vaddr ≡ 2 ^ 64 - 1) × (s.base_paddr ≡ 2 ^ 64 - 1)

abbrev Based : ℕ → Loading → Type 0
Based offset s = (s.base_vaddr ≡ s.base_paddr + offset) × (s.base_vaddr < 2 ^ 32)

load_segment-Based :
    (offset h : ℕ) (g : Segment) (s : Loading)
    → g.loadable ≡ true
    → g.vaddr ≡ g.paddr + offset
    → g.vaddr < 2 ^ 32
    → Unset s ⊎ Based offset s
    → Based offset (load_segment h g s)
unfolding load_segment
load_segment-Based offset h g s l e u (inl b) = rw l (ground (arith, b.0, b.1, e, u))
load_segment-Based offset h g s l e u (inr b) = rw l (ground (arith, b.0, b.1, e, u))

load_segment_skipped :
    (h : ℕ) (g : Segment) (s : Loading) → g.loadable ≡ false → load_segment h g s ≡ s
unfolding load_segment
load_segment_skipped h g s l = rw l refl

load_list-Based :
    (offset h : ℕ) (gs : List Segment) (s : Loading)
    → AllShifted offset gs
    → (Unset s × (some_loadable gs ≡ true)) ⊎ Based offset s
    → Based offset (load_list h gs s)
unfolding load_list
load_list-Based offset h [] s none_left (inl b) = cc
load_list-Based offset h [] s none_left (inr b) = b
load_list-Based offset h (g ∷ gs) s (skipped l a) b =
    load_list-Based offset h gs (load_segment h g s) a (rw (load_segment_skipped h g s l) (rest b))
  where
    rest :
        (Unset s × (g.loadable || some_loadable gs ≡ true)) ⊎ Based offset s
        → (Unset s × (some_loadable gs ≡ true)) ⊎ Based offset s
    rest (inl q) = inl (q.0, rw l at q.1)
    rest (inr q) = inr q
load_list-Based offset h (g ∷ gs) s (shifted l e u a) b =
    load_list-Based offset h gs (load_segment h g s) a
      (inr (load_segment-Based offset h g s l e u (begun b)))
  where
    begun :
        (Unset s × (g.loadable || some_loadable gs ≡ true)) ⊎ Based offset s
        → Unset s ⊎ Based offset s
    begun (inl q) = inl q.0
    begun (inr q) = inr q

-- The entry address, which the image gives as a virtual one, becomes a physical one by the offset
-- between the two that the loadable segments share. The image, of `size` bytes from `h` on, holds
-- the table of program headers and lies apart from where the segments go; some segment is loadable,
-- and the entry is at or above the offset and below 2 ^ 32.
pub entry_address-load_segments :
    (left h size p offset entry : ℕ) (mem : ℕ → ℕ)
    → h ≤ p
    → p + 32 * left ≤ h + size
    → AllApart h size (program_headers left p mem)
    → AllShifted offset (program_headers left p mem)
    → some_loadable (program_headers left p mem) ≡ true
    → offset ≤ entry
    → entry < 2 ^ 32
    → entry_address entry (load_segments left h p (start_loading mem)) ≡ entry - offset
entry_address-load_segments left h size p offset entry mem l u a sh some lo hi =
    let gs : List Segment = program_headers left p mem in
    let b = load_list-Based offset h gs (start_loading mem) sh (inl ((refl, refl), some)) in
    ap (entry_address entry)
      (load_segments-load_list left h size p (start_loading mem) mem (λ j lo hi. refl) l u a)
    ∙ omega (arith, b.0, b.1)
