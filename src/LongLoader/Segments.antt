-- ===== src/LongLoader/Segments.antt =====
-- What the loading of the segments leaves in memory in the 64-bit build.
use danaos.Prelude.{
  ℕ, zero, suc, ◌+◌, ◌*◌, ◌%◌, ◌^◌, ◌≤◌, ◌<◌, ◌≡◌, ◌∙◌, ap, refl, max, List, [], ◌∷◌, some, arith,
  read64, Bool-cases, inl, inr,
}
use mathlib.Core.Path.{fun_ext}
use danaos.Loader.{Segment, Loading, load_memory}
use danaos.Loader.Segments.{
  segment_byte, place_segments, Apart, AllApart, and_then, SameImage, SameImage-segment_byte,
  load_memory-segment_byte, read32_same,
}
use danaos.LongLoader.{program_header, in_32_bits, with_segment, load_segment, load_segments}

-- The program headers from `p` on.
unfoldable pub program_headers : ℕ → ℕ → (ℕ → ℕ) → List Segment
program_headers zero p mem = []
program_headers (suc left) p mem = program_header mem p ∷ program_headers left (p + 56) mem

-- Segments that end below 2 ^ 32, whose sizes an `unsigned int` counts.
pub data AllCounted : List Segment → Type 0 where
  no_more : AllCounted []
  counted :
      {g : Segment} {gs : List Segment}
      → g.paddr + max g.filesz g.memsz < 2 ^ 32
      → AllCounted gs
      → AllCounted (g ∷ gs)

read64_same :
    (h size a : ℕ) (mem snap : ℕ → ℕ)
    → SameImage h size mem snap
    → h ≤ a
    → a + 8 ≤ h + size
    → read64 mem a ≡ read64 snap a
read64_same h size a mem snap same l u =
    rw
      (
        read32_same mem snap a (λ i r. same (a + i) (omega arith) (omega arith)),
        read32_same mem snap (a + 4) (λ i r. same (a + 4 + i) (omega arith) (omega arith)),
      )
      refl

program_header_same :
    (h size p : ℕ) (mem snap : ℕ → ℕ)
    → SameImage h size mem snap
    → h ≤ p
    → p + 56 ≤ h + size
    → program_header mem p ≡ program_header snap p
program_header_same h size p mem snap same l u =
    let word : (k : ℕ) → k ≤ 48 → read64 mem (p + k) ≡ read64 snap (p + k) =
      λ k q. read64_same h size (p + k) mem snap same (omega arith) (omega arith) in
    rw
      (
        read32_same mem snap p (λ i r. same (p + i) (omega arith) (omega arith)),
        word 8 (omega arith),
        word 16 (omega arith),
        word 24 (omega arith),
        word 32 (omega arith),
        word 40 (omega arith),
      )
      refl

program_headers_same :
    (h size left p : ℕ) (mem snap : ℕ → ℕ)
    → SameImage h size mem snap
    → h ≤ p
    → p + 56 * left ≤ h + size
    → program_headers left p mem ≡ program_headers left p snap
unfolding program_headers
program_headers_same h size zero p mem snap same l u = refl
program_headers_same h size (suc left) p mem snap same l u =
    rw
      (
        program_header_same h size p mem snap same l (omega arith),
        program_headers_same h size left (p + 56) mem snap same (omega arith) (omega arith),
      )
      refl

-- Its place and its part of the image are 32-bit addresses as they are.
in_32_bits_same :
    (h size : ℕ) (g : Segment)
    → Apart h size g
    → g.paddr + max g.filesz g.memsz < 2 ^ 32
    → size < 2 ^ 32
    → in_32_bits g ≡ g
in_32_bits_same h size g a f m =
    let offset : g.offset % 2 ^ 32 ≡ g.offset = omega (arith, a.inside) in
    let paddr : g.paddr % 2 ^ 32 ≡ g.paddr = omega arith in rw (offset, paddr) refl

-- One segment is loaded, and its bytes are the image's.
load_segment_lem :
    (h size : ℕ) (g : Segment) (s : Loading) (snap : ℕ → ℕ)
    → Apart h size g
    → g.paddr + max g.filesz g.memsz < 2 ^ 32
    → size < 2 ^ 32
    → SameImage h size s.mem snap
    → (r : Loading) × (load_segment h g s ≡ some r) × (r.mem ≡ segment_byte snap h g s.mem)
unfolding load_segment
load_segment_lem h size g s snap a f m same =
    let narrow = in_32_bits_same h size g a f m in
    elim (Bool-cases g.loadable) [
      | inl e ↦ (
        with_segment h g s,
        ground arith,
        ap (λ (t : Segment). load_memory h t s.mem) narrow
            ∙ load_memory-segment_byte h size g s.mem snap a same e,
      )
      | inr e ↦ (s, ground arith, fun_ext λ j. ground arith)
    ]

-- Where the segments and the image end below 2 ^ 32, the loading of the segments ends, and leaves in
-- memory what placing them one after the other in the order of the headers leaves. The image, of `size`
-- bytes from `h` on, holds the table of program headers and the contents of the segments, and lies apart
-- from where they go.
pub long_load_segments_lem :
    (left h size p : ℕ) (s : Loading) (snap : ℕ → ℕ)
    → SameImage h size s.mem snap
    → h ≤ p
    → p + 56 * left ≤ h + size
    → h + size < 2 ^ 32
    → AllApart h size (program_headers left p snap)
    → AllCounted (program_headers left p snap)
    → (r : Loading) × (load_segments left h p s ≡ some r)
      × (r.mem ≡ place_segments snap h (program_headers left p snap) s.mem)
unfolding load_segments place_segments program_headers
long_load_segments_lem zero h size p s snap same l u w a c = (s, refl, refl)
long_load_segments_lem (suc left) h size p s snap same l u w (and_then a rest) (counted f cs) =
    let g : Segment = program_header snap p in
    let e : program_header s.mem p ≡ g =
      program_header_same h size p s.mem snap same l (omega arith) in
    let (r, q, z) = load_segment_lem h size g s snap a f (omega arith) same in
    let (r2, q2, z2) =
      long_load_segments_lem left h size (p + 56) r snap
        (λ j lo hi.
          ap (λ (t : ℕ → ℕ). t j) z ∙ SameImage-segment_byte h size g s.mem snap a same j lo hi)
        (omega arith) (omega arith) w rest cs in
    (r2, rw (e, q) q2, z2 ∙ ap (place_segments snap h (program_headers left (p + 56) snap)) z)
