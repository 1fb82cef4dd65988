-- ===== src/Loader/Segments.antt =====
-- What the loading of the segments leaves in memory.
use danaos.Prelude.{
  ℕ, zero, suc, ◌+◌, ◌-◌, ◌*◌, ◌^◌, ◌≤◌, ◌<◌, ◌≡◌, ◌∙◌, ap, refl, sym, ◌⊎◌, inl, inr, true, ◌&&◌,
  ltb, leb, if◌then◌else◌, List, [], ◌∷◌, arith, max, Bool-cases, read32,
}
use mathlib.Core.Path.{fun_ext}
use danaos.Strings.{copy_from, memcpy}
use danaos.Strings.Copies.{memset_lem, memcpy_lem}
use danaos.Loader.{Segment, program_header, Loading, load_memory, load_segment, load_segments}

-- The reference: the segments of a list are put into memory one after the other, and every byte of a
-- segment is the one of the image `snap`, or 0 behind the part of it that the image has.
abbrev pub segment_byte : (ℕ → ℕ) → ℕ → Segment → (ℕ → ℕ) → ℕ → ℕ
segment_byte snap h g mem j =
    if g.loadable && (leb g.paddr j && ltb j (g.paddr + max g.filesz g.memsz))
    then (if ltb j (g.paddr + g.filesz) then snap (h + g.offset + (j - g.paddr)) else 0)
    else mem j

unfoldable pub place_segments : (ℕ → ℕ) → ℕ → List Segment → (ℕ → ℕ) → ℕ → ℕ
place_segments snap h [] mem = mem
place_segments snap h (g ∷ gs) mem = place_segments snap h gs (segment_byte snap h g mem)

-- The program headers from `p` on.
unfoldable pub program_headers : ℕ → ℕ → (ℕ → ℕ) → List Segment
program_headers zero p mem = []
program_headers (suc left) p mem = program_header mem p ∷ program_headers left (p + 32) mem

-- The image from `h` on, of `size` bytes, has the segment and lies apart from where it goes.
pub record Apart (h size : ℕ) (g : Segment) : Type 0 where
  pub inside : g.offset + g.filesz ≤ size
  pub below_or_above : (g.paddr + max g.filesz g.memsz ≤ h) ⊎ (h + size ≤ g.paddr)

pub data AllApart (h size : ℕ) : List Segment → Type 0 where
  none_left : AllApart h size []
  and_then :
      {g : Segment} {gs : List Segment}
      → Apart h size g
      → AllApart h size gs
      → AllApart h size (g ∷ gs)

-- Every segment ends below `top`.
pub data AllBelow (top : ℕ) : List Segment → Type 0 where
  no_more : AllBelow top []
  ends_below :
      {g : Segment} {gs : List Segment}
      → g.paddr + max g.filesz g.memsz < top
      → AllBelow top gs
      → AllBelow top (g ∷ gs)

-- Two memories with the same image.
abbrev pub SameImage : ℕ → ℕ → (ℕ → ℕ) → (ℕ → ℕ) → Type 0
SameImage h size mem snap = (j : ℕ) → h ≤ j → j < h + size → mem j ≡ snap j

copied_byte :
    (h size : ℕ) (g : Segment) (mem : ℕ → ℕ) (j : ℕ)
    → Apart h size g
    → copy_from g.paddr (h + g.offset) 0 g.filesz mem j ≡ (
        if leb g.paddr j && ltb j (g.paddr + g.filesz)
        then mem (h + g.offset + (j - g.paddr))
        else mem j)
unfolding memcpy
copied_byte h size g mem j a =
    memcpy_lem g.paddr (h + g.offset) g.filesz mem j (ground (arith, a.below_or_above, a.inside))

-- The loops over one segment read the image that is still whole.
load_memory_byte :
    (h size : ℕ) (g : Segment) (mem snap : ℕ → ℕ) (j : ℕ)
    → Apart h size g
    → SameImage h size mem snap
    → g.loadable ≡ true
    → load_memory h g mem j ≡ segment_byte snap h g mem j
load_memory_byte h size g mem snap j a same l =
    let unread : g.paddr ≤ j
        → j < g.paddr + g.filesz
        → mem (h + g.offset + (j - g.paddr)) ≡ snap (h + g.offset + (j - g.paddr)) =
      λ k q. same (h + g.offset + (j - g.paddr)) (omega arith) (omega (arith, a.inside)) in
    memset_lem (g.memsz - g.filesz) (g.paddr + g.filesz) 0
      (copy_from g.paddr (h + g.offset) 0 g.filesz mem) j
    ∙ rw (copied_byte h size g mem j a) (rw l (ground (arith, unread)))

pub load_memory-segment_byte :
    (h size : ℕ) (g : Segment) (mem snap : ℕ → ℕ)
    → Apart h size g
    → SameImage h size mem snap
    → g.loadable ≡ true
    → load_memory h g mem ≡ segment_byte snap h g mem
load_memory-segment_byte h size g mem snap a same e =
    fun_ext λ j. load_memory_byte h size g mem snap j a same e

load_segment_mem :
    (h size : ℕ) (g : Segment) (s : Loading) (snap : ℕ → ℕ)
    → Apart h size g
    → SameImage h size s.mem snap
    → (load_segment h g s).mem ≡ segment_byte snap h g s.mem
unfolding load_segment
load_segment_mem h size g s snap a same = elim (Bool-cases g.loadable) [
  | inl e ↦ rw e (load_memory-segment_byte h size g s.mem snap a same e ∙ rw e refl)
  | inr e ↦ rw e refl
]

-- The image itself is left alone.
pub SameImage-segment_byte :
    (h size : ℕ) (g : Segment) (mem snap : ℕ → ℕ)
    → Apart h size g
    → SameImage h size mem snap
    → SameImage h size (segment_byte snap h g mem) snap
SameImage-segment_byte h size g mem snap a same j l u = ground (arith, a.below_or_above, same j l u)

pub read32_same :
    (mem snap : ℕ → ℕ) (a : ℕ)
    → ((i : ℕ) → i < 4 → mem (a + i) ≡ snap (a + i))
    → read32 mem a ≡ read32 snap a
read32_same mem snap a e =
    let zeroth : a + 0 ≡ a = omega arith in
    let start : mem a ≡ snap a = ap mem (sym zeroth) ∙ e 0 (omega arith) ∙ ap snap zeroth in
    let third : a + 2 + 1 ≡ a + 3 = omega arith in
    rw (third, start, e 1 (omega arith), e 2 (omega arith), e 3 (omega arith)) refl

program_header_same :
    (h size p : ℕ) (mem snap : ℕ → ℕ)
    → SameImage h size mem snap
    → h ≤ p
    → p + 32 ≤ h + size
    → program_header mem p ≡ program_header snap p
program_header_same h size p mem snap same l u =
    let word : (k : ℕ) → k ≤ 28 → read32 mem (p + k) ≡ read32 snap (p + k) =
      λ k q. read32_same mem snap (p + k) (λ i r. same (p + k + i) (omega arith) (omega arith)) in
    let first : read32 mem p ≡ read32 snap p =
      read32_same mem snap p (λ i r. same (p + i) (omega arith) (omega arith)) in
    rw
      (
        first,
        word 4 (omega arith),
        word 8 (omega arith),
        word 12 (omega arith),
        word 16 (omega arith),
        word 20 (omega arith),
      )
      refl

program_headers_same :
    (h size left p : ℕ) (mem snap : ℕ → ℕ)
    → SameImage h size mem snap
    → h ≤ p
    → p + 32 * left ≤ h + size
    → program_headers left p mem ≡ program_headers left p snap
unfolding program_headers
program_headers_same h size zero p mem snap same l u = refl
program_headers_same h size (suc left) p mem snap same l u =
    rw
      (
        program_header_same h size p mem snap same l (omega arith),
        program_headers_same h size left (p + 32) mem snap same (omega arith) (omega arith),
      )
      refl

SameImage-load_segment :
    (h size : ℕ) (g : Segment) (s : Loading) (snap : ℕ → ℕ)
    → Apart h size g
    → SameImage h size s.mem snap
    → SameImage h size (load_segment h g s).mem snap
SameImage-load_segment h size g s snap a same j lo hi =
    ap (λ (f : ℕ → ℕ). f j) (load_segment_mem h size g s snap a same)
    ∙ SameImage-segment_byte h size g s.mem snap a same j lo hi

-- The loop as a fold over the table as it is in the image.
unfoldable pub load_list : ℕ → List Segment → Loading → Loading
load_list h [] s = s
load_list h (g ∷ gs) s = load_list h gs (load_segment h g s)

pub load_segments-load_list :
    (left h size p : ℕ) (s : Loading) (snap : ℕ → ℕ)
    → SameImage h size s.mem snap
    → h ≤ p
    → p + 32 * left ≤ h + size
    → AllApart h size (program_headers left p snap)
    → load_segments left h p s ≡ load_list h (program_headers left p snap) s
unfolding load_segments load_list program_headers
load_segments-load_list zero h size p s snap same l u a = refl
load_segments-load_list (suc left) h size p s snap same l u (and_then a rest) =
    let g : Segment = program_header snap p in
    let e : program_header s.mem p ≡ g =
      program_header_same h size p s.mem snap same l (omega arith) in
    ap (λ (t : Segment). load_segments left h (p + 32) (load_segment h t s)) e
    ∙ load_segments-load_list left h size (p + 32) (load_segment h g s) snap
        (SameImage-load_segment h size g s snap a same) (omega arith) (omega arith) rest

pub load_list-place_segments :
    (h size : ℕ) (gs : List Segment) (s : Loading) (snap : ℕ → ℕ)
    → SameImage h size s.mem snap
    → AllApart h size gs
    → (load_list h gs s).mem ≡ place_segments snap h gs s.mem
unfolding load_list place_segments
load_list-place_segments h size [] s snap same a = refl
load_list-place_segments h size (g ∷ gs) s snap same (and_then a rest) =
    load_list-place_segments h size gs (load_segment h g s) snap
      (SameImage-load_segment h size g s snap a same) rest
    ∙ ap (place_segments snap h gs) (load_segment_mem h size g s snap a same)

-- Where the segments and the image end below 2 ^ 32, the loading of the segments leaves in memory what
-- the reference does: placing them one after the other in the order of the headers, so that a later
-- segment stands over an earlier one where they overlap. The image, of `size` bytes from `h` on, holds the table of program headers and the contents of the
-- segments, and lies apart from where they go.
pub load_segments-place_segments :
    (left h size p : ℕ) (s : Loading) (snap : ℕ → ℕ)
    → SameImage h size s.mem snap
    → h ≤ p
    → p + 32 * left ≤ h + size
    → h + size < 2 ^ 32
    → AllApart h size (program_headers left p snap)
    → AllBelow (2 ^ 32) (program_headers left p snap)
    → (load_segments left h p s).mem ≡ place_segments snap h (program_headers left p snap) s.mem
load_segments-place_segments left h size p s snap same l u w a b =
    ap (λ (t : Loading). t.mem) (load_segments-load_list left h size p s snap same l u a)
    ∙ load_list-place_segments h size (program_headers left p snap) s snap same a
