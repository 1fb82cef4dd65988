-- ===== src/VirtMem/Boot.antt =====
-- `map_pre_paging` and `init`: the page directory of the kernel, written through the addresses of
-- the memory itself, which are mapped to themselves at that time.
use danaos.Prelude.{
  ℕ, zero, suc, ◌+◌, ◌-◌, ◌*◌, ◌/◌, ◌%◌, ◌^◌, ◌<◌, ◌≡◌, ◌≢◌, ◌⊎◌, inl, inr, ◌∙◌, refl, arith, true,
  false, Option, none, some, ◌>>=◌, ltb, if◌then◌else◌, update, add32, sub32, max32,
}
use danaos.Paging.{
  page_size, recur_dir_index, dir_index, table_index, align_up, align_down, page_dir_entry,
  page_table_entry, is_present, get_phys_addr,
}
use danaos.Paging.Entries.{page_table_entry_lem}
use danaos.PhysMem.Any.{alloc_any}
use danaos.PhysMem.Frames.{free_address}
use danaos.VirtMem.{Translate, VirtMem, flags}
use danaos.VirtMem.Mmu.{
  IsMmu, NamesTable, dir_word, page_table_entry-div, page_dir_entry-div, page_dir_entry-NamesTable,
  page_dir_entry-lt, get_phys_addr-div,
}
use danaos.VirtMem.Mapping.{dir_index-div, table_index-div, mapped}

-- `memset` to 0 of the words from `i` on, with the words left.
unfoldable pub clear_words : ℕ → ℕ → (ℕ → ℕ) → ℕ → ℕ
clear_words zero i memory = memory
clear_words (suc left) i memory = clear_words left (i + 1) (update memory i 0)

-- The new page table, and its entry in the directory.
unfoldable pub add_table_pre_paging : ℕ → VirtMem → VirtMem
add_table_pre_paging dir s =
    let (addr, frames) = alloc_any s.frames in
    record s {
      frames = frames;
      memory =
          update (clear_words 1024 (addr / 4) s.memory) (s.page_dir_phys / 4 + dir)
            (page_dir_entry addr (flags true true false));
    }

-- The entry of the page table that the directory names.
unfoldable pub set_table_entry : ℕ → ℕ → ℕ → VirtMem → VirtMem
set_table_entry dir table phys s =
    let pt = get_phys_addr (s.memory (s.page_dir_phys / 4 + dir)) in
    record s {
      memory =
          update s.memory (pt / 4 + table) (page_table_entry phys (flags true true true) false);
    }

unfoldable pub map_pre_paging : ℕ → ℕ → VirtMem → VirtMem
map_pre_paging virt phys s =
    let dir = dir_index virt in
    let ready =
      if is_present (s.memory (s.page_dir_phys / 4 + dir)) then s else add_table_pre_paging dir s in
    set_table_entry dir (table_index virt) phys ready

-- What the linker sets for the kernel.
pub record KernelImage : Type 0 where
  pub virt_offset : ℕ
  pub virt_begin : ℕ
  pub virt_end : ℕ
  pub phys_begin : ℕ
  pub page_directory : ℕ

-- The loop of `init` over the pages of the kernel, with fuel; where that runs out it stops.
unfoldable pub map_kernel : ℕ → ℕ → ℕ → ℕ → VirtMem → Option VirtMem
map_kernel zero addr virt_end curr_phys s = none
map_kernel (suc fuel) addr virt_end curr_phys s =
    let rest =
      map_kernel fuel (add32 addr page_size) virt_end (add32 curr_phys page_size)
        (map_pre_paging addr curr_phys s) in
    if ltb addr virt_end then rest else some s

-- `init` up to the loop: the new page directory, mapped, cleared, and made recursive.
unfoldable pub new_directory : VirtMem → VirtMem
new_directory s =
    let (page_dir_phys, frames) = alloc_any s.frames in
    let s1 =
      map_pre_paging page_dir_phys page_dir_phys
        (record s { frames = frames; page_dir_phys = page_dir_phys }) in
    record s1 {
      memory =
          update (clear_words 1024 (page_dir_phys / 4) s1.memory)
            (page_dir_phys / 4 + recur_dir_index)
            (page_dir_entry page_dir_phys (flags true false false));
    }

unfoldable pub init : KernelImage → VirtMem → Option VirtMem
init image s =
    let s1 = new_directory s in
    do
      s2 ←
          map_kernel ((image.virt_end - image.virt_begin) / page_size + 2) image.virt_begin
            image.virt_end image.phys_begin s1
      some (record s2 {
        page_dir_base = s1.page_dir_phys;
        frames = free_address s2.frames (sub32 image.page_directory image.virt_offset);
        vkernel_start = align_up image.virt_end;
        vkernel_end = align_down max32;
      })

-- The entry of the table that the directory entry `entry` names.
set_table_entry-mapped :
    (translate : Translate) (s : VirtMem) (dir_frame virt phys entry : ℕ)
    → IsMmu translate
    → s.page_dir_phys ≡ dir_frame * 4096
    → virt < 2 ^ 32
    → phys < 2 ^ 32
    → entry < 2 ^ 32
    → dir_word s.memory dir_frame (virt / 2 ^ 22) ≡ entry
    → NamesTable entry
    → entry / 4096 ≢ dir_frame
    → translate
        (set_table_entry (virt / 2 ^ 22) (virt / 4096 % 1024) phys s).memory
        (dir_frame * 4096)
        virt
      ≡ some (phys / 4096 * 4096 + virt % 4096)
unfolding set_table_entry
set_table_entry-mapped translate s dir_frame virt phys entry mmu base l m h e n apart =
    let page = page_table_entry phys (flags true true true) false in
    let at_dir : s.page_dir_phys / 4 + virt / 2 ^ 22 ≡ dir_frame * 1024 + virt / 2 ^ 22 =
      omega arith in
    let at_table : get_phys_addr (s.memory (s.page_dir_phys / 4 + virt / 2 ^ 22)) / 4
        ≡ entry / 4096 * 1024 =
      rw (at_dir, e, get_phys_addr-div entry h) (omega arith) in
    rw at_table (
      mapped translate s.memory dir_frame virt phys entry page mmu l e n apart
        (page_table_entry_lem phys (flags true true true) false).0
        (page_table_entry-div phys (flags true true true) false m))

-- The new table and its entry in the directory.
pub add_table_pre_paging-entry :
    (s : VirtMem) (dir_frame dir frame : ℕ)
    → s.page_dir_phys ≡ dir_frame * 4096
    → (alloc_any s.frames).0 ≡ frame * 4096
    → dir_word (add_table_pre_paging dir s).memory dir_frame dir
      ≡ page_dir_entry (frame * 4096) (flags true true false)
unfolding add_table_pre_paging
add_table_pre_paging-entry s dir_frame dir frame base a =
    let at_dir : s.page_dir_phys / 4 + dir ≡ dir_frame * 1024 + dir = omega arith in
    rw (at_dir, a) (ground arith)

pub add_table_pre_paging-page_dir_phys :
    (dir : ℕ) (s : VirtMem) → (add_table_pre_paging dir s).page_dir_phys ≡ s.page_dir_phys
unfolding add_table_pre_paging
add_table_pre_paging-page_dir_phys dir s = refl

-- With the page directory in the frame `dir_frame`, and where the directory entry of a 32-bit
-- address names a table in another frame, or is not present and `alloc_any` gives another frame,
-- `map_pre_paging` makes the processor translate the address to the frame of the 32-bit address
-- `phys`, once the directory is in use.
pub map_pre_paging_lem :
    (translate : Translate) (s : VirtMem) (dir_frame virt phys frame : ℕ)
    → IsMmu translate
    → s.page_dir_phys ≡ dir_frame * 4096
    → virt < 2 ^ 32
    → phys < 2 ^ 32
    → (NamesTable (dir_word s.memory dir_frame (virt / 2 ^ 22))
        × (dir_word s.memory dir_frame (virt / 2 ^ 22) < 2 ^ 32)
        × (dir_word s.memory dir_frame (virt / 2 ^ 22) / 4096 ≢ dir_frame))
      ⊎ ((is_present (dir_word s.memory dir_frame (virt / 2 ^ 22)) ≡ false)
          × ((alloc_any s.frames).0 ≡ frame * 4096)
          × (frame < 2 ^ 20)
          × (frame ≢ dir_frame))
    → translate (map_pre_paging virt phys s).memory (dir_frame * 4096) virt
      ≡ some (phys / 4096 * 4096 + virt % 4096)
unfolding map_pre_paging
map_pre_paging_lem translate s dir_frame virt phys frame mmu base l m (inl (n, h, apart)) =
    let at_dir : s.page_dir_phys / 4 + virt / 2 ^ 22 ≡ dir_frame * 1024 + virt / 2 ^ 22 =
      omega arith in
    rw (dir_index-div virt l, table_index-div virt, at_dir, n.0)
      (set_table_entry-mapped translate s dir_frame virt phys
        (dir_word s.memory dir_frame (virt / 2 ^ 22)) mmu base l m h refl n apart)
map_pre_paging_lem translate s dir_frame virt phys frame mmu base l m (inr (p, a, h, apart)) =
    let at_dir : s.page_dir_phys / 4 + virt / 2 ^ 22 ≡ dir_frame * 1024 + virt / 2 ^ 22 =
      omega arith in
    let entry = page_dir_entry (frame * 4096) (flags true true false) in
    let e = add_table_pre_paging-entry s dir_frame (virt / 2 ^ 22) frame base a in
    let d : entry / 4096 ≡ frame =
      page_dir_entry-div (frame * 4096) (flags true true false) (omega arith) ∙ omega arith in
    rw (dir_index-div virt l, table_index-div virt, at_dir, p)
      (set_table_entry-mapped translate (add_table_pre_paging (virt / 2 ^ 22) s) dir_frame virt phys
        entry mmu (add_table_pre_paging-page_dir_phys (virt / 2 ^ 22) s ∙ base) l m
        (page_dir_entry-lt (frame * 4096) (flags true true false) (omega arith)) e
        (page_dir_entry-NamesTable (frame * 4096) (flags true true false) (omega arith) refl)
        (λ q. apart (omega arith)))
