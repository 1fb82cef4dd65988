-- ===== src/VirtMem/Mapping.antt =====
-- `map` of one page, through the recursive entry of the page directory, and its page faults.
use danaos.Prelude.{
  ℕ, zero, suc, ◌+◌, ◌*◌, ◌/◌, ◌%◌, ◌^◌, ◌<◌, ◌≡◌, ◌≢◌, ◌∙◌, ap, refl, arith, Bool, true, false,
  not, none, some, update, low_ten,
}
use danaos.Paging.{dir_index, table_index, page_table_entry, is_present}
use danaos.Paging.Entries.{page_table_entry_lem}
use danaos.PhysMem.Any.{alloc_any}
use danaos.VirtMem.{
  Translate, VirtMem, load_word, store_word, zero_words, add_table, map_page, map, dir_entry,
  table_entry, flags,
}
use danaos.VirtMem.Mmu.{
  IsMmu, WalksIn, IsMmu-WalksIn, Tlb, with_tlb, IsSound, with_tlb-WalksIn, with_tlb_absent,
  NamesTable, walk_by, dir_word, table_word, page_table_entry-div,
}

-- The last entry of the page directory names the directory itself.
pub record IsRecursive (memory : ℕ → ℕ) (dir_frame : ℕ) : Type 0 where
  pub names : NamesTable (dir_word memory dir_frame 1023)
  pub itself : dir_word memory dir_frame 1023 / 4096 ≡ dir_frame

pub dir_index-div : (addr : ℕ) → addr < 2 ^ 32 → dir_index addr ≡ addr / 2 ^ 22
unfolding dir_index
dir_index-div addr l = low_ten (addr / 2 ^ 22) ∙ omega arith

pub table_index-div : (addr : ℕ) → table_index addr ≡ addr / 4096 % 1024
unfolding table_index
table_index-div addr = low_ten (addr / 4096)

module _ (translate : Translate) (memory : ℕ → ℕ) (dir_frame : ℕ)
    (walks : WalksIn translate memory dir_frame) (rec : IsRecursive memory dir_frame) where
  -- The addresses of the recursive mapping reach the entries.
  pub translate-dir_entry :
      (dir : ℕ)
      → dir < 1024
      → translate memory (dir_frame * 4096) (dir_entry dir) ≡ some ((dir_frame * 1024 + dir) * 4)
  translate-dir_entry dir l =
      walk_by translate memory dir_frame (dir_entry dir) 1023 1023 (dir_word memory dir_frame 1023)
        (dir_word memory dir_frame 1023) walks (omega arith) (omega arith) (omega arith) refl
        rec.names (ap (λ (t : ℕ). memory (t * 1024 + 1023)) rec.itself) rec.names.0
      ∙ ap some (omega (arith, rec.itself))

  pub translate-table_entry :
      (dir table : ℕ)
      → dir < 1024
      → table < 1024
      → is_present (dir_word memory dir_frame dir) ≡ true
      → translate memory (dir_frame * 4096) (table_entry dir table)
        ≡ some ((dir_word memory dir_frame dir / 4096 * 1024 + table) * 4)
  translate-table_entry dir table l m p =
      walk_by translate memory dir_frame (table_entry dir table) 1023 dir
        (dir_word memory dir_frame 1023) (dir_word memory dir_frame dir) walks (omega arith)
        (omega arith) (omega arith) refl rec.names
        (ap (λ (t : ℕ). memory (t * 1024 + dir)) rec.itself) p
      ∙ ap some (omega arith)

-- The new entry of a page table, found by the walk.
pub mapped :
    (translate : Translate) (memory : ℕ → ℕ) (dir_frame virt phys entry page : ℕ)
    → IsMmu translate
    → virt < 2 ^ 32
    → dir_word memory dir_frame (virt / 2 ^ 22) ≡ entry
    → NamesTable entry
    → entry / 4096 ≢ dir_frame
    → is_present page ≡ true
    → page / 4096 ≡ phys / 4096
    → translate
        (update memory (entry / 4096 * 1024 + virt / 4096 % 1024) page)
        (dir_frame * 4096)
        virt
      ≡ some (phys / 4096 * 4096 + virt % 4096)
mapped translate memory dir_frame virt phys entry page mmu l e n apart p d =
    walk_by translate (update memory (entry / 4096 * 1024 + virt / 4096 % 1024) page) dir_frame virt
      (virt / 2 ^ 22) (virt / 4096 % 1024) entry page
      (IsMmu-WalksIn translate (update memory (entry / 4096 * 1024 + virt / 4096 % 1024) page)
        dir_frame mmu)
      l refl refl (ground (arith, e)) n (ground arith) p
    ∙ ap (λ (t : ℕ). some (t * 4096 + virt % 4096)) d

pub load_word-some :
    (translate : Translate) (s : VirtMem) (addr i : ℕ)
    → translate s.memory s.page_dir_base addr ≡ some (i * 4)
    → load_word translate addr s ≡ some (s.memory i)
unfolding load_word
load_word-some translate s addr i e = rw e (ap (λ (t : ℕ). some (s.memory t)) (omega arith))

pub store_word-some :
    (translate : Translate) (s : VirtMem) (addr i word : ℕ)
    → translate s.memory s.page_dir_base addr ≡ some (i * 4)
    → store_word translate addr word s ≡ some (record s { memory = update s.memory i word })
unfolding store_word
store_word-some translate s addr i word e =
    rw e (ap (λ (t : ℕ). some (record s { memory = update s.memory t word })) (omega arith))

-- The state after `map` where the table is there.
abbrev after_map : ℕ → ℕ → ℕ → Bool → Bool → Bool → VirtMem → VirtMem
after_map dir_frame virt phys kernel read_only global s = record s {
  memory =
      update s.memory
        (dir_word s.memory dir_frame (virt / 2 ^ 22) / 4096 * 1024 + virt / 4096 % 1024)
        (page_table_entry phys (flags (not read_only) (not kernel) false) global);
}

map_page-after_map :
    (translate : Translate) (s : VirtMem) (dir_frame virt phys : ℕ) (kernel read_only global : Bool)
    → WalksIn translate s.memory dir_frame
    → s.page_dir_base ≡ dir_frame * 4096
    → IsRecursive s.memory dir_frame
    → virt < 2 ^ 32
    → is_present (dir_word s.memory dir_frame (virt / 2 ^ 22)) ≡ true
    → map_page translate virt phys kernel read_only global s
      ≡ some (after_map dir_frame virt phys kernel read_only global s)
unfolding map_page
map_page-after_map translate s dir_frame virt phys kernel read_only global walks base rec l p =
    let at_dir =
      translate-dir_entry translate s.memory dir_frame walks rec (virt / 2 ^ 22) (omega arith) in
    let at_table =
      translate-table_entry translate s.memory dir_frame walks rec (virt / 2 ^ 22)
        (virt / 4096 % 1024) (omega arith) (omega arith) p in
    let found =
      load_word-some translate s (dir_entry (virt / 2 ^ 22)) (dir_frame * 1024 + virt / 2 ^ 22)
        (ap (λ (t : ℕ). translate s.memory t (dir_entry (virt / 2 ^ 22))) base ∙ at_dir) in
    let stored =
      store_word-some translate s (table_entry (virt / 2 ^ 22) (virt / 4096 % 1024))
        (dir_word s.memory dir_frame (virt / 2 ^ 22) / 4096 * 1024 + virt / 4096 % 1024)
        (page_table_entry phys (flags (not read_only) (not kernel) false) global)
        (ap (λ (t : ℕ). translate s.memory t (table_entry (virt / 2 ^ 22) (virt / 4096 % 1024)))
            base
          ∙ at_table) in
    rw (dir_index-div virt l, table_index-div virt, found, p) stored

-- Where the directory entry of a 32-bit address names a table that is not in the frame of the
-- directory, which is recursive, and the page is not present in that table, `map` to a 32-bit physical
-- address succeeds and writes one word of the memory, the entry of that table. A processor whose cache
-- of translations holds what the tables said before then translates the address to the frame of `phys`.
pub map_lem :
    (translate : Translate) (tlb : Tlb) (s : VirtMem) (dir_frame virt phys : ℕ)
    (kernel read_only global : Bool)
    → IsMmu translate
    → IsSound tlb s.memory dir_frame
    → s.page_dir_base ≡ dir_frame * 4096
    → IsRecursive s.memory dir_frame
    → virt < 2 ^ 32
    → phys < 2 ^ 32
    → NamesTable (dir_word s.memory dir_frame (virt / 2 ^ 22))
    → is_present
        (table_word s.memory (dir_word s.memory dir_frame (virt / 2 ^ 22)) (virt / 4096 % 1024))
      ≡ false
    → dir_word s.memory dir_frame (virt / 2 ^ 22) / 4096 ≢ dir_frame
    → (s' : VirtMem) × (map (with_tlb tlb translate) virt phys kernel read_only global s
        ≡ some (virt, s'))
      × (with_tlb tlb translate s'.memory s'.page_dir_base virt
          ≡ some (phys / 4096 * 4096 + virt % 4096))
      × ((i : ℕ)
          → i ≢ dir_word s.memory dir_frame (virt / 2 ^ 22) / 4096 * 1024 + virt / 4096 % 1024
          → s'.memory i ≡ s.memory i)
unfolding map
map_lem translate tlb s dir_frame virt phys kernel read_only global mmu sound base rec l m n q
      apart =
    let s' = after_map dir_frame virt phys kernel read_only global s in
    let f = flags (not read_only) (not kernel) false in
    (
      s',
      rw
          (map_page-after_map (with_tlb tlb translate) s dir_frame virt phys kernel read_only global
            (with_tlb-WalksIn translate tlb s.memory dir_frame mmu sound) base rec l n.0)
          refl,
      with_tlb_absent translate tlb s.memory s'.memory dir_frame s'.page_dir_base virt sound l n q
          ∙ ap (λ (t : ℕ). translate s'.memory t virt) base
          ∙ mapped translate s.memory dir_frame virt phys
              (dir_word s.memory dir_frame (virt / 2 ^ 22)) (page_table_entry phys f global) mmu l
              refl n apart (page_table_entry_lem phys f global).0
              (page_table_entry-div phys f global m),
      λ i d. ground arith,
    )

zero_words-none :
    (translate : Translate) (left addr : ℕ) (s : VirtMem)
    → 0 < left
    → translate s.memory s.page_dir_base addr ≡ none
    → zero_words translate left addr s ≡ none
unfolding zero_words store_word
zero_words-none translate zero addr s l e = absurd (omega arith)
zero_words-none translate (suc left) addr s l e = rw e refl

add_table-none :
    (translate : Translate) (dir : ℕ) (kernel : Bool) (s : VirtMem)
    → translate s.memory s.page_dir_base (alloc_any s.frames).0 ≡ none
    → add_table translate dir kernel s ≡ none
unfolding add_table
add_table-none translate dir kernel s e =
    rw
      (zero_words-none translate 1024 (alloc_any s.frames).0
        (record s { frames = (alloc_any s.frames).1 }) (omega arith) e)
      refl

map_page-none :
    (translate : Translate) (s : VirtMem) (virt phys e : ℕ) (kernel read_only global : Bool)
    → load_word translate (dir_entry (dir_index virt)) s ≡ some e
    → is_present e ≡ false
    → add_table translate (dir_index virt) kernel s ≡ none
    → map_page translate virt phys kernel read_only global s ≡ none
unfolding map_page
map_page-none translate s virt phys e kernel read_only global l p n = rw (l, p, n) refl

-- Where the directory entry of a 32-bit address is not present and the physical address of the
-- frame that `alloc_any` gives is not mapped as a virtual address, `map` ends in a page fault: it
-- clears the new page table through its physical address.
pub map_fault :
    (translate : Translate) (s : VirtMem) (dir_frame virt phys : ℕ) (kernel read_only global : Bool)
    → IsMmu translate
    → s.page_dir_base ≡ dir_frame * 4096
    → IsRecursive s.memory dir_frame
    → virt < 2 ^ 32
    → is_present (dir_word s.memory dir_frame (virt / 2 ^ 22)) ≡ false
    → (alloc_any s.frames).0 < 2 ^ 32
    → is_present (dir_word s.memory dir_frame ((alloc_any s.frames).0 / 2 ^ 22)) ≡ false
    → map translate virt phys kernel read_only global s ≡ none
unfolding map
map_fault translate s dir_frame virt phys kernel read_only global mmu base rec l p a q =
    let at_dir =
      translate-dir_entry translate s.memory dir_frame
        (IsMmu-WalksIn translate s.memory dir_frame mmu) rec (virt / 2 ^ 22) (omega arith) in
    let found =
      load_word-some translate s (dir_entry (virt / 2 ^ 22)) (dir_frame * 1024 + virt / 2 ^ 22)
        (ap (λ (t : ℕ). translate s.memory t (dir_entry (virt / 2 ^ 22))) base ∙ at_dir) in
    let unmapped : translate s.memory s.page_dir_base (alloc_any s.frames).0 ≡ none =
      ap (λ (t : ℕ). translate s.memory t (alloc_any s.frames).0) base
      ∙ mmu.fault s.memory dir_frame (alloc_any s.frames).0 a q in
    let at_index : load_word translate (dir_entry (dir_index virt)) s
        ≡ some (dir_word s.memory dir_frame (virt / 2 ^ 22)) =
      ap (λ (t : ℕ). load_word translate (dir_entry t) s) (dir_index-div virt l) ∙ found in
    rw
      (map_page-none translate s virt phys (dir_word s.memory dir_frame (virt / 2 ^ 22)) kernel
        read_only global at_index p (add_table-none translate (dir_index virt) kernel s unmapped))
      refl
