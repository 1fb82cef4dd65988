-- ===== src/LongVirtMem/Walk.antt =====
-- What the code relies on of the processor: the documented walk of the four levels of tables, and the
-- translations that it keeps of them. And what it sees in the window of the recursive mapping.
use danaos.Prelude.{
  ℕ, ◌+◌, ◌-◌, ◌*◌, ◌/◌, ◌%◌, ◌^◌, ◌≤◌, ◌<◌, ◌≡◌, ◌∙◌, ◌⊎◌, inr, ap, refl, sym, arith, true, false,
  Option, none, some,
}
use danaos.LongPaging.{is_present, is_size_2mb}
use danaos.LongPaging.{page_dir_ptr_place, page_dir_place, page_table_place}
use danaos.LongVirtMem.{map_entry, dir_ptr_entry, dir_entry, table_entry}
use danaos.VirtMem.{Translate}
use danaos.VirtMem.Mmu.{Tlb, with_tlb, kept_or_walked}

-- The frame that an entry names, in its bits 12 to 51.
abbrev pub frame_of : ℕ → ℕ
frame_of entry = entry / 4096 % 2 ^ 40

-- The word with an index in the table of 512 words in a frame.
abbrev pub entry_word : (ℕ → ℕ) → ℕ → ℕ → ℕ
entry_word memory frame index = memory (frame * 512 + index)

-- An entry of one of the upper levels that names a table of the next one.
abbrev pub NamesTable : ℕ → Type 0
NamesTable entry = (is_present entry ≡ true) × (is_size_2mb entry ≡ false)

-- The addresses in which the bits 48 to 63 are copies of bit 47.
abbrev pub IsCanonical : ℕ → Type 0
IsCanonical addr = (addr < 2 ^ 47) ⊎ ((2 ^ 64 - 2 ^ 47 ≤ addr) × (addr < 2 ^ 64))

-- The walk, by the words that it finds, from a page map in the frame `map_frame`: what the processor
-- does for a page that it keeps no translation of.
pub record IsMmu (translate : Translate) : Type 0 where
  pub walk :
      (memory : ℕ → ℕ) (map_frame addr e1 e2 e3 e4 : ℕ)
      → IsCanonical addr
      → entry_word memory map_frame (addr / 2 ^ 39 % 512) ≡ e1
      → NamesTable e1
      → entry_word memory (frame_of e1) (addr / 2 ^ 30 % 512) ≡ e2
      → NamesTable e2
      → entry_word memory (frame_of e2) (addr / 2 ^ 21 % 512) ≡ e3
      → NamesTable e3
      → entry_word memory (frame_of e3) (addr / 2 ^ 12 % 512) ≡ e4
      → is_present e4 ≡ true
      → translate memory (map_frame * 4096) addr ≡ some (frame_of e4 * 4096 + addr % 4096)

-- The walk in one memory, from one page map.
pub record WalksIn (translate : Translate) (memory : ℕ → ℕ) (map_frame : ℕ) : Type 0 where
  pub walk_in :
      (addr e1 e2 e3 e4 : ℕ)
      → IsCanonical addr
      → entry_word memory map_frame (addr / 2 ^ 39 % 512) ≡ e1
      → NamesTable e1
      → entry_word memory (frame_of e1) (addr / 2 ^ 30 % 512) ≡ e2
      → NamesTable e2
      → entry_word memory (frame_of e2) (addr / 2 ^ 21 % 512) ≡ e3
      → NamesTable e3
      → entry_word memory (frame_of e3) (addr / 2 ^ 12 % 512) ≡ e4
      → is_present e4 ≡ true
      → translate memory (map_frame * 4096) addr ≡ some (frame_of e4 * 4096 + addr % 4096)

pub IsMmu-WalksIn :
    (translate : Translate) (memory : ℕ → ℕ) (map_frame : ℕ)
    → IsMmu translate
    → WalksIn translate memory map_frame
IsMmu-WalksIn translate memory map_frame mmu = record { walk_in = mmu.walk memory map_frame }

-- The cache of translations holds what the tables in a memory say: of the pages that have a page table
-- only those that are present there, with their frames. An entry that is not present is never kept.
pub record IsSound (tlb : Tlb) (memory : ℕ → ℕ) (map_frame : ℕ) : Type 0 where
  pub held :
      (addr frame e1 e2 e3 e4 : ℕ)
      → IsCanonical addr
      → entry_word memory map_frame (addr / 2 ^ 39 % 512) ≡ e1
      → NamesTable e1
      → entry_word memory (frame_of e1) (addr / 2 ^ 30 % 512) ≡ e2
      → NamesTable e2
      → entry_word memory (frame_of e2) (addr / 2 ^ 21 % 512) ≡ e3
      → NamesTable e3
      → entry_word memory (frame_of e3) (addr / 2 ^ 12 % 512) ≡ e4
      → tlb (addr / 4096) ≡ some frame
      → (is_present e4 ≡ true) × (frame_of e4 ≡ frame)

-- In the memory that the cache was filled from, it makes no difference.
pub with_tlb-WalksIn :
    (translate : Translate) (tlb : Tlb) (memory : ℕ → ℕ) (map_frame : ℕ)
    → IsMmu translate
    → IsSound tlb memory map_frame
    → WalksIn (with_tlb tlb translate) memory map_frame
with_tlb-WalksIn translate tlb memory map_frame mmu sound = record {
  walk_in = λ addr e1 e2 e3 e4 c w1 n1 w2 n2 w3 n3 w4 p.
      by_cache addr (frame_of e4)
        (λ frame e. (sound.held addr frame e1 e2 e3 e4 c w1 n1 w2 n2 w3 n3 w4 e).1)
        (mmu.walk memory map_frame addr e1 e2 e3 e4 c w1 n1 w2 n2 w3 n3 w4 p) (tlb (addr / 4096))
        refl;
}
  where
    by_cache :
        (addr found : ℕ)
        → ((frame : ℕ) → tlb (addr / 4096) ≡ some frame → found ≡ frame)
        → translate memory (map_frame * 4096) addr ≡ some (found * 4096 + addr % 4096)
        → (o : Option ℕ) → tlb (addr / 4096) ≡ o
        → kept_or_walked o addr (translate memory (map_frame * 4096) addr)
          ≡ some (found * 4096 + addr % 4096)
    by_cache addr found h w none e = w
    by_cache addr found h w (some frame) e =
        ap (λ (f : ℕ). some (f * 4096 + addr % 4096)) (sym (h frame e))

-- A page that is not present in its table is not in the cache.
pub with_tlb_absent :
    (translate : Translate) (tlb : Tlb) (memory memory' : ℕ → ℕ)
    (map_frame base addr e1 e2 e3 e4 : ℕ)
    → IsSound tlb memory map_frame
    → IsCanonical addr
    → entry_word memory map_frame (addr / 2 ^ 39 % 512) ≡ e1
    → NamesTable e1
    → entry_word memory (frame_of e1) (addr / 2 ^ 30 % 512) ≡ e2
    → NamesTable e2
    → entry_word memory (frame_of e2) (addr / 2 ^ 21 % 512) ≡ e3
    → NamesTable e3
    → entry_word memory (frame_of e3) (addr / 2 ^ 12 % 512) ≡ e4
    → is_present e4 ≡ false
    → with_tlb tlb translate memory' base addr ≡ translate memory' base addr
with_tlb_absent translate tlb memory memory' map_frame base addr e1 e2 e3 e4 sound c w1 n1 w2 n2 w3
      n3 w4 p =
    by_cache (tlb (addr / 4096)) refl
  where
    by_cache :
        (o : Option ℕ)
        → tlb (addr / 4096) ≡ o
        → kept_or_walked o addr (translate memory' base addr) ≡ translate memory' base addr
    by_cache none e = refl
    by_cache (some frame) e =
        let q = (sound.held addr frame e1 e2 e3 e4 c w1 n1 w2 n2 w3 n3 w4 e).0 in cc

-- The last but one entry of the page map names the page map itself.
abbrev pub IsRecursive : (ℕ → ℕ) → ℕ → Type 0
IsRecursive memory map_frame =
    NamesTable (entry_word memory map_frame 510)
    × (frame_of (entry_word memory map_frame 510) ≡ map_frame)

-- The walk by indices that are given.
pub walk_by :
    (translate : Translate) (memory : ℕ → ℕ) (map_frame addr i1 i2 i3 i4 e1 e2 e3 e4 : ℕ)
    → WalksIn translate memory map_frame
    → IsCanonical addr
    → (addr / 2 ^ 39 % 512 ≡ i1)
      × (addr / 2 ^ 30 % 512 ≡ i2)
      × (addr / 2 ^ 21 % 512 ≡ i3)
      × (addr / 2 ^ 12 % 512 ≡ i4)
    → entry_word memory map_frame i1 ≡ e1
    → NamesTable e1
    → entry_word memory (frame_of e1) i2 ≡ e2
    → NamesTable e2
    → entry_word memory (frame_of e2) i3 ≡ e3
    → NamesTable e3
    → entry_word memory (frame_of e3) i4 ≡ e4
    → is_present e4 ≡ true
    → translate memory (map_frame * 4096) addr ≡ some (frame_of e4 * 4096 + addr % 4096)
walk_by translate memory map_frame addr i1 i2 i3 i4 e1 e2 e3 e4 walks c i w1 n1 w2 n2 w3 n3 w4 n4 =
    walks.walk_in addr e1 e2 e3 e4 c (rw (i.0) w1) n1 (rw (i.1) w2) n2 (rw (i.2) w3) n3
      (rw (i.3) w4) n4

-- The indices of the places of the entries, and their offsets in a frame.
map_entry-indices :
    (m : ℕ)
    → m < 512
    → (map_entry m / 2 ^ 39 % 512 ≡ 510)
      × (map_entry m / 2 ^ 30 % 512 ≡ 510)
      × (map_entry m / 2 ^ 21 % 512 ≡ 510)
      × (map_entry m / 2 ^ 12 % 512 ≡ 510)
      × (map_entry m % 4096 ≡ 8 * m)
      × IsCanonical (map_entry m)
map_entry-indices m l = (
  omega arith,
  omega arith,
  omega arith,
  omega arith,
  omega arith,
  inr (omega arith, omega arith),
)

dir_ptr_entry-indices :
    (m p : ℕ)
    → m < 512
    → p < 512
    → (dir_ptr_entry m p / 2 ^ 39 % 512 ≡ 510)
      × (dir_ptr_entry m p / 2 ^ 30 % 512 ≡ 510)
      × (dir_ptr_entry m p / 2 ^ 21 % 512 ≡ 510)
      × (dir_ptr_entry m p / 2 ^ 12 % 512 ≡ m)
      × (dir_ptr_entry m p % 4096 ≡ 8 * p)
      × IsCanonical (dir_ptr_entry m p)
unfolding page_dir_ptr_place
dir_ptr_entry-indices m p l l' = (
  omega arith,
  omega arith,
  omega arith,
  omega arith,
  omega arith,
  inr (omega arith, omega arith),
)

dir_entry-indices :
    (m p d : ℕ)
    → m < 512
    → p < 512
    → d < 512
    → (dir_entry m p d / 2 ^ 39 % 512 ≡ 510)
      × (dir_entry m p d / 2 ^ 30 % 512 ≡ 510)
      × (dir_entry m p d / 2 ^ 21 % 512 ≡ m)
      × (dir_entry m p d / 2 ^ 12 % 512 ≡ p)
      × (dir_entry m p d % 4096 ≡ 8 * d)
      × IsCanonical (dir_entry m p d)
unfolding page_dir_place
dir_entry-indices m p d l l' l'' = (
  omega arith,
  omega arith,
  omega arith,
  omega arith,
  omega arith,
  inr (omega arith, omega arith),
)

table_entry-indices :
    (m p d t : ℕ)
    → m < 512
    → p < 512
    → d < 512
    → t < 512
    → (table_entry m p d t / 2 ^ 39 % 512 ≡ 510)
      × (table_entry m p d t / 2 ^ 30 % 512 ≡ m)
      × (table_entry m p d t / 2 ^ 21 % 512 ≡ p)
      × (table_entry m p d t / 2 ^ 12 % 512 ≡ d)
      × (table_entry m p d t % 4096 ≡ 8 * t)
      × IsCanonical (table_entry m p d t)
unfolding page_table_place
table_entry-indices m p d t l l' l'' k = (
  omega arith,
  omega arith,
  omega arith,
  omega arith,
  omega arith,
  inr (omega arith, omega arith),
)

-- Where the processor finds the entries of the four levels, by the entries of the levels above.
module _ (translate : Translate) (memory : ℕ → ℕ) (map_frame : ℕ)
    (walks : WalksIn translate memory map_frame) (recursive : IsRecursive memory map_frame) where
  through :
      (i : ℕ)
      → entry_word memory (frame_of (entry_word memory map_frame 510)) i
        ≡ entry_word memory map_frame i
  through i = ap (λ f. entry_word memory f i) (recursive.1)

  pub map_entry-place :
      (m : ℕ)
      → m < 512
      → translate memory (map_frame * 4096) (map_entry m) ≡ some (map_frame * 4096 + 8 * m)
  map_entry-place m l =
      let i = map_entry-indices m l in
      let r : ℕ = entry_word memory map_frame 510 in
      walk_by translate memory map_frame (map_entry m) 510 510 510 510 r r r r walks i.5
        (i.0, i.1, i.2, i.3) refl recursive.0 (through 510) recursive.0 (through 510) recursive.0
        (through 510) recursive.0.0
      ∙ rw (recursive.1, i.4) refl

  pub dir_ptr_entry-place :
      (m p e1 : ℕ)
      → m < 512
      → p < 512
      → entry_word memory map_frame m ≡ e1
      → is_present e1 ≡ true
      → translate memory (map_frame * 4096) (dir_ptr_entry m p) ≡ some (frame_of e1 * 4096 + 8 * p)
  dir_ptr_entry-place m p e1 l l' w n =
      let i = dir_ptr_entry-indices m p l l' in
      let r : ℕ = entry_word memory map_frame 510 in
      walk_by translate memory map_frame (dir_ptr_entry m p) 510 510 510 m r r r e1 walks i.5
        (i.0, i.1, i.2, i.3) refl recursive.0 (through 510) recursive.0 (through 510) recursive.0
        (through m ∙ w) n
      ∙ rw (i.4) refl

  pub dir_entry-place :
      (m p d e1 e2 : ℕ)
      → m < 512
      → p < 512
      → d < 512
      → entry_word memory map_frame m ≡ e1
      → NamesTable e1
      → entry_word memory (frame_of e1) p ≡ e2
      → is_present e2 ≡ true
      → translate memory (map_frame * 4096) (dir_entry m p d) ≡ some (frame_of e2 * 4096 + 8 * d)
  dir_entry-place m p d e1 e2 l l' l'' w n w' n' =
      let i = dir_entry-indices m p d l l' l'' in
      let r : ℕ = entry_word memory map_frame 510 in
      walk_by translate memory map_frame (dir_entry m p d) 510 510 m p r r e1 e2 walks i.5
        (i.0, i.1, i.2, i.3) refl recursive.0 (through 510) recursive.0 (through m ∙ w) n w' n'
      ∙ rw (i.4) refl

  pub table_entry-place :
      (m p d t e1 e2 e3 : ℕ)
      → m < 512
      → p < 512
      → d < 512
      → t < 512
      → entry_word memory map_frame m ≡ e1
      → NamesTable e1
      → entry_word memory (frame_of e1) p ≡ e2
      → NamesTable e2
      → entry_word memory (frame_of e2) d ≡ e3
      → is_present e3 ≡ true
      → translate memory (map_frame * 4096) (table_entry m p d t)
        ≡ some (frame_of e3 * 4096 + 8 * t)
  table_entry-place m p d t e1 e2 e3 l l' l'' k w n w' n' w'' n'' =
      let i = table_entry-indices m p d t l l' l'' k in
      let r : ℕ = entry_word memory map_frame 510 in
      walk_by translate memory map_frame (table_entry m p d t) 510 m p d r e1 e2 e3 walks i.5
        (i.0, i.1, i.2, i.3) refl recursive.0 (through m ∙ w) n w' n' w'' n''
      ∙ rw (i.4) refl
