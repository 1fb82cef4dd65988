-- ===== src/VirtMem/Mmu.antt =====
-- What the code relies on of the processor: the documented walk of the two levels of tables, and the
-- translations that it keeps of them. And what the walk sees in the entries that the code writes.
use danaos.Prelude.{
  ℕ, ◌+◌, ◌*◌, ◌/◌, ◌%◌, ◌^◌, ◌<◌, ◌≡◌, ◌∙◌, ap, refl, sym, arith, Bool, true, false, Option, none,
  some, bit_and, bit_or, bit_or-lt,
}
use danaos.Fields.{of_bool}
use danaos.Fields.Sums.{of_bool-lt, or_above, and_field, get_bits-div, get_bit-div}
use danaos.Paging.{
  Flags, flag_bits, page_dir_entry, page_table_entry, is_present, is_size_4mb, get_phys_addr,
  frame_mask,
}
use danaos.VirtMem.{Translate}

-- The words of the two levels: the entry of the directory in the frame `dir_frame`, and that of the
-- table that a directory entry names.
abbrev pub dir_word : (ℕ → ℕ) → ℕ → ℕ → ℕ
dir_word memory dir_frame dir = memory (dir_frame * 1024 + dir)

abbrev pub table_word : (ℕ → ℕ) → ℕ → ℕ → ℕ
table_word memory entry table = memory (entry / 4096 * 1024 + table)

-- A directory entry that names a table.
abbrev pub NamesTable : ℕ → Type 0
NamesTable entry = (is_present entry ≡ true) × (is_size_4mb entry ≡ false)

-- The walk for 32-bit addresses, from a page directory in the frame `dir_frame`: what the processor does
-- for a page that it keeps no translation of, as for every one after the register of the page directory
-- is written. A page fault is `none`.
pub record IsMmu (translate : Translate) : Type 0 where
  pub walk :
      (memory : ℕ → ℕ) (dir_frame addr : ℕ)
      → addr < 2 ^ 32
      → NamesTable (dir_word memory dir_frame (addr / 2 ^ 22))
      → is_present
          (table_word memory (dir_word memory dir_frame (addr / 2 ^ 22)) (addr / 4096 % 1024))
        ≡ true
      → translate memory (dir_frame * 4096) addr
        ≡ some (
            table_word memory (dir_word memory dir_frame (addr / 2 ^ 22)) (addr / 4096 % 1024)
              / 4096
              * 4096
            + addr % 4096)
  pub fault :
      (memory : ℕ → ℕ) (dir_frame addr : ℕ)
      → addr < 2 ^ 32
      → is_present (dir_word memory dir_frame (addr / 2 ^ 22)) ≡ false
      → translate memory (dir_frame * 4096) addr ≡ none

-- The walk in one memory, from one page directory.
pub record WalksIn (translate : Translate) (memory : ℕ → ℕ) (dir_frame : ℕ) : Type 0 where
  pub walk_in :
      (addr : ℕ)
      → addr < 2 ^ 32
      → NamesTable (dir_word memory dir_frame (addr / 2 ^ 22))
      → is_present
          (table_word memory (dir_word memory dir_frame (addr / 2 ^ 22)) (addr / 4096 % 1024))
        ≡ true
      → translate memory (dir_frame * 4096) addr
        ≡ some (
            table_word memory (dir_word memory dir_frame (addr / 2 ^ 22)) (addr / 4096 % 1024)
              / 4096
              * 4096
            + addr % 4096)

pub IsMmu-WalksIn :
    (translate : Translate) (memory : ℕ → ℕ) (dir_frame : ℕ)
    → IsMmu translate
    → WalksIn translate memory dir_frame
IsMmu-WalksIn translate memory dir_frame mmu = record { walk_in = mmu.walk memory dir_frame }

-- The translations that a processor keeps in its cache: the frames of pages, by their numbers.
abbrev pub Tlb : Type 0
Tlb = ℕ → Option ℕ

abbrev pub kept_or_walked : Option ℕ → ℕ → Option ℕ → Option ℕ
kept_or_walked none addr walked = walked
kept_or_walked (some frame) addr walked = some (frame * 4096 + addr % 4096)

-- A processor that walks the tables only for the pages that are not in its cache.
abbrev pub with_tlb : Tlb → Translate → Translate
with_tlb tlb translate memory base addr =
    kept_or_walked (tlb (addr / 4096)) addr (translate memory base addr)

-- The cache holds what the tables in a memory say: of the pages that have a page table only those that
-- are present there, with their frames. An entry that is not present is never kept.
pub record IsSound (tlb : Tlb) (memory : ℕ → ℕ) (dir_frame : ℕ) : Type 0 where
  pub held :
      (addr frame : ℕ)
      → addr < 2 ^ 32
      → NamesTable (dir_word memory dir_frame (addr / 2 ^ 22))
      → tlb (addr / 4096) ≡ some frame
      → (is_present
            (table_word memory (dir_word memory dir_frame (addr / 2 ^ 22)) (addr / 4096 % 1024))
          ≡ true)
        × (table_word memory (dir_word memory dir_frame (addr / 2 ^ 22)) (addr / 4096 % 1024) / 4096
            ≡ frame)

-- In the memory that the cache was filled from, it makes no difference.
pub with_tlb-WalksIn :
    (translate : Translate) (tlb : Tlb) (memory : ℕ → ℕ) (dir_frame : ℕ)
    → IsMmu translate
    → IsSound tlb memory dir_frame
    → WalksIn (with_tlb tlb translate) memory dir_frame
with_tlb-WalksIn translate tlb memory dir_frame mmu sound = record {
  walk_in = λ addr l n p. by_cache addr l n p (tlb (addr / 4096)) refl;
}
  where
    by_cache :
        (addr : ℕ)
        → addr < 2 ^ 32
        → NamesTable (dir_word memory dir_frame (addr / 2 ^ 22))
        → is_present
            (table_word memory (dir_word memory dir_frame (addr / 2 ^ 22)) (addr / 4096 % 1024))
          ≡ true
        → (o : Option ℕ) → tlb (addr / 4096) ≡ o
        → kept_or_walked o addr (translate memory (dir_frame * 4096) addr)
          ≡ some (
              table_word memory (dir_word memory dir_frame (addr / 2 ^ 22)) (addr / 4096 % 1024)
                / 4096
                * 4096
              + addr % 4096)
    by_cache addr l n p none e = mmu.walk memory dir_frame addr l n p
    by_cache addr l n p (some frame) e =
        ap (λ (f : ℕ). some (f * 4096 + addr % 4096)) (sym (sound.held addr frame l n e).1)

-- A page that is not present in its table is not in the cache.
pub with_tlb_absent :
    (translate : Translate) (tlb : Tlb) (memory memory' : ℕ → ℕ) (dir_frame base addr : ℕ)
    → IsSound tlb memory dir_frame
    → addr < 2 ^ 32
    → NamesTable (dir_word memory dir_frame (addr / 2 ^ 22))
    → is_present
        (table_word memory (dir_word memory dir_frame (addr / 2 ^ 22)) (addr / 4096 % 1024))
      ≡ false
    → with_tlb tlb translate memory' base addr ≡ translate memory' base addr
with_tlb_absent translate tlb memory memory' dir_frame base addr sound l n p =
    by_cache (tlb (addr / 4096)) refl
  where
    by_cache :
        (o : Option ℕ)
        → tlb (addr / 4096) ≡ o
        → kept_or_walked o addr (translate memory' base addr) ≡ translate memory' base addr
    by_cache none e = refl
    by_cache (some frame) e = let q = (sound.held addr frame l n e).0 in cc

-- The walk, by the words that it finds.
pub walk_by :
    (translate : Translate) (memory : ℕ → ℕ) (dir_frame addr dir table entry page : ℕ)
    → WalksIn translate memory dir_frame
    → addr < 2 ^ 32
    → addr / 2 ^ 22 ≡ dir
    → addr / 4096 % 1024 ≡ table
    → dir_word memory dir_frame dir ≡ entry
    → NamesTable entry
    → table_word memory entry table ≡ page
    → is_present page ≡ true
    → translate memory (dir_frame * 4096) addr ≡ some (page / 4096 * 4096 + addr % 4096)
walk_by translate memory dir_frame addr dir table entry page walks l d t e n w p =
    let word : table_word memory (dir_word memory dir_frame (addr / 2 ^ 22)) (addr / 4096 % 1024)
        ≡ page =
      rw (d, t, e) w in
    walks.walk_in addr l (rw (d, e) n) (rw word p)
    ∙ ap (λ (v : ℕ). some (v / 4096 * 4096 + addr % 4096)) word

pub flag_bits-lt : (f : Flags) → flag_bits f < 2 ^ 5
flag_bits-lt f =
    let p = of_bool-lt f.present in
    let r = of_bool-lt f.rw_flag in
    let u = of_bool-lt f.user in
    let w = of_bool-lt f.wt in
    let c = of_bool-lt f.cd in
    bit_or-lt 5
      (bit_or (bit_or (bit_or (of_bool f.present) (of_bool f.rw_flag * 2)) (of_bool f.user * 4))
        (of_bool f.wt * 8))
      (of_bool f.cd * 16)
      (bit_or-lt 5
        (bit_or (bit_or (of_bool f.present) (of_bool f.rw_flag * 2)) (of_bool f.user * 4))
        (of_bool f.wt * 8)
        (bit_or-lt 5 (bit_or (of_bool f.present) (of_bool f.rw_flag * 2)) (of_bool f.user * 4)
          (bit_or-lt 5 (of_bool f.present) (of_bool f.rw_flag * 2) (omega arith) (omega arith))
          (omega arith))
        (omega arith))
      (omega arith)

-- The frame of an entry that is made is the one of the address.
framed :
    (low addr : ℕ)
    → low < 2 ^ 12
    → addr < 2 ^ 32
    → bit_or low (bit_and addr frame_mask) ≡ low + addr / 4096 * 4096
framed low addr l h =
    let e : bit_and addr frame_mask ≡ addr / 4096 * 4096 = omega (arith, and_field 12 20 addr) in
    rw e (or_above 12 low (addr / 4096) l)

pub page_table_entry-div :
    (phys : ℕ) (f : Flags) (global : Bool)
    → phys < 2 ^ 32
    → page_table_entry phys f global / 4096 ≡ phys / 4096
unfolding page_table_entry
page_table_entry-div phys f global l =
    let g = of_bool-lt global in
    let b = flag_bits-lt f in
    let low = bit_or-lt 12 (flag_bits f) (of_bool global * 256) (omega arith) (omega arith) in
    rw (framed (bit_or (flag_bits f) (of_bool global * 256)) phys low l) (omega arith)

pub page_dir_entry-div :
    (addr : ℕ) (f : Flags) → addr < 2 ^ 32 → page_dir_entry addr f / 4096 ≡ addr / 4096
unfolding page_dir_entry
page_dir_entry-div addr f l =
    let b = flag_bits-lt f in rw (framed (flag_bits f) addr (omega arith) l) (omega arith)

-- The table's address that the code reads from an entry.
pub get_phys_addr-div : (e : ℕ) → e < 2 ^ 32 → get_phys_addr e ≡ e / 4096 * 4096
get_phys_addr-div e l = omega (arith, get_bits-div 32 e 12 20 (omega arith))

-- An entry that `page_dir_entry` makes with the present flag, the lowest of the flags, set.
pub page_dir_entry-NamesTable :
    (addr : ℕ) (f : Flags)
    → addr < 2 ^ 32
    → flag_bits f % 2 ≡ 1
    → NamesTable (page_dir_entry addr f)
unfolding page_dir_entry
page_dir_entry-NamesTable addr f l p =
    let b = flag_bits-lt f in
    let sum = framed (flag_bits f) addr (omega arith) l in
    let word = flag_bits f + addr / 4096 * 4096 in
    (
      rw (sum, get_bit-div 32 word 0 (omega arith)) (ground arith),
      rw (sum, get_bit-div 32 word 7 (omega arith)) (ground arith),
    )

pub page_dir_entry-lt : (addr : ℕ) (f : Flags) → addr < 2 ^ 32 → page_dir_entry addr f < 2 ^ 32
unfolding page_dir_entry
page_dir_entry-lt addr f l =
    let b = flag_bits-lt f in rw (framed (flag_bits f) addr (omega arith) l) (omega arith)
