-- ===== src/VirtMem/Kernel.antt =====
-- What `init` leaves for the pages of the kernel, where these lie in one entry of the directory.
use danaos.Prelude.{
  ℕ, zero, suc, ◌+◌, ◌-◌, ◌*◌, ◌/◌, ◌%◌, ◌^◌, ◌≤◌, ◌<◌, ◌≡◌, ◌≢◌, ◌∙◌, ap, refl, arith, true, false,
  Bool-cases, inl, inr, some, ltb, leb, ◌&&◌, if◌then◌else◌, update, sub32, max32,
}
use danaos.Paging.{dir_index, align_up, align_down, page_dir_entry, is_present}
use danaos.Fields.Sums.{get_bit-div}
use danaos.PhysMem.Any.{alloc_any}
use danaos.PhysMem.Frames.{free_address}
use danaos.VirtMem.{Translate, VirtMem, flags}
use danaos.VirtMem.Mmu.{
  IsMmu, dir_word, page_dir_entry-div, page_dir_entry-NamesTable, page_dir_entry-lt,
}
use danaos.VirtMem.Mapping.{dir_index-div, table_index-div}
use danaos.VirtMem.KernelPages.{HasTable, Mapped, map_kernel-Mapped, translate-Mapped}
use danaos.VirtMem.Boot.{
  add_table_pre_paging-entry, add_table_pre_paging-page_dir_phys, clear_words, add_table_pre_paging,
  set_table_entry, map_pre_paging, KernelImage, map_kernel, new_directory, init,
}

clear_words_lem :
    (left i : ℕ) (memory : ℕ → ℕ) (j : ℕ)
    → clear_words left i memory j ≡ (if leb i j && ltb j (i + left) then 0 else memory j)
unfolding clear_words
clear_words_lem zero i memory j = ground arith
clear_words_lem (suc left) i memory j =
    clear_words_lem left (i + 1) (update memory i 0) j ∙ ground arith

map_pre_paging-page_dir_phys :
    (virt phys : ℕ) (s : VirtMem) → (map_pre_paging virt phys s).page_dir_phys ≡ s.page_dir_phys
unfolding map_pre_paging set_table_entry
map_pre_paging-page_dir_phys virt phys s =
    elim (Bool-cases (is_present (s.memory (s.page_dir_phys / 4 + dir_index virt)))) [
      | inl e ↦ rw e refl
      | inr e ↦ rw e (add_table_pre_paging-page_dir_phys (dir_index virt) s)
    ]

new_directory-page_dir_phys :
    (s : VirtMem) → (new_directory s).page_dir_phys ≡ (alloc_any s.frames).0
unfolding new_directory
new_directory-page_dir_phys s =
    map_pre_paging-page_dir_phys (alloc_any s.frames).0 (alloc_any s.frames).0
      (record s { frames = (alloc_any s.frames).1; page_dir_phys = (alloc_any s.frames).0 })

-- The new directory is empty but for the recursive entry.
new_directory-word :
    (s : VirtMem) (dir_frame dir : ℕ)
    → (alloc_any s.frames).0 ≡ dir_frame * 4096
    → dir < 1023
    → dir_word (new_directory s).memory dir_frame dir ≡ 0
unfolding new_directory
new_directory-word s dir_frame dir e l =
    let at_dir : dir_frame * 4096 / 4 ≡ dir_frame * 1024 = omega arith in
    rw (e, at_dir)
      (ground (
        arith,
        clear_words_lem 1024 (dir_frame * 1024)
            (map_pre_paging (dir_frame * 4096) (dir_frame * 4096) (record s {
              frames = (alloc_any s.frames).1;
              page_dir_phys = dir_frame * 4096;
            })).memory
            (dir_frame * 1024 + dir),
      ))

-- Where the table is not there, the loop starts as if it had just been added.
map_pre_paging-add_table :
    (addr phys dir_frame : ℕ) (s : VirtMem)
    → s.page_dir_phys ≡ dir_frame * 4096
    → addr < 2 ^ 32
    → is_present (dir_word s.memory dir_frame (addr / 2 ^ 22)) ≡ false
    → map_pre_paging addr phys s
      ≡ set_table_entry
          (addr / 2 ^ 22)
          (addr / 4096 % 1024)
          phys
          (add_table_pre_paging (addr / 2 ^ 22) s)
unfolding map_pre_paging
map_pre_paging-add_table addr phys dir_frame s base l p =
    let at_dir : s.page_dir_phys / 4 + addr / 2 ^ 22 ≡ dir_frame * 1024 + addr / 2 ^ 22 =
      omega arith in
    rw (dir_index-div addr l, table_index-div addr, at_dir, p) refl

map_pre_paging-present :
    (addr phys dir_frame entry : ℕ) (s : VirtMem)
    → HasTable s dir_frame (addr / 2 ^ 22) entry
    → addr < 2 ^ 32
    → map_pre_paging addr phys s ≡ set_table_entry (addr / 2 ^ 22) (addr / 4096 % 1024) phys s
unfolding map_pre_paging
map_pre_paging-present addr phys dir_frame entry s t l =
    let at_dir : s.page_dir_phys / 4 + addr / 2 ^ 22 ≡ dir_frame * 1024 + addr / 2 ^ 22 =
      omega (arith, t.base) in
    rw (dir_index-div addr l, table_index-div addr, at_dir, t.word, t.names.0) refl

add_table-HasTable :
    (dir_frame dir frame : ℕ) (s : VirtMem)
    → s.page_dir_phys ≡ dir_frame * 4096
    → (alloc_any s.frames).0 ≡ frame * 4096
    → frame < 2 ^ 20
    → frame ≢ dir_frame
    → HasTable
        (add_table_pre_paging dir s)
        dir_frame
        dir
        (page_dir_entry (frame * 4096) (flags true true false))
add_table-HasTable dir_frame dir frame s base a l apart = record {
  base = add_table_pre_paging-page_dir_phys dir s ∙ base;
  word = add_table_pre_paging-entry s dir_frame dir frame base a;
  names = page_dir_entry-NamesTable (frame * 4096) (flags true true false) (omega arith) refl;
  fits = page_dir_entry-lt (frame * 4096) (flags true true false) (omega arith);
  apart = λ q.
      apart
        (omega (arith, page_dir_entry-div (frame * 4096) (flags true true false) (omega arith), q));
}

map_kernel-add_table :
    (fuel addr virt_end phys dir_frame entry : ℕ) (s : VirtMem)
    → s.page_dir_phys ≡ dir_frame * 4096
    → addr < 2 ^ 32
    → addr < virt_end
    → is_present (dir_word s.memory dir_frame (addr / 2 ^ 22)) ≡ false
    → HasTable (add_table_pre_paging (addr / 2 ^ 22) s) dir_frame (addr / 2 ^ 22) entry
    → map_kernel (suc fuel) addr virt_end phys s
      ≡ map_kernel (suc fuel) addr virt_end phys (add_table_pre_paging (addr / 2 ^ 22) s)
unfolding map_kernel
map_kernel-add_table fuel addr virt_end phys dir_frame entry s base l below p t =
    let go : ltb addr virt_end ≡ true = ground arith in
    rw
      (
        go,
        map_pre_paging-add_table addr phys dir_frame s base l p,
        map_pre_paging-present addr phys dir_frame entry (add_table_pre_paging (addr / 2 ^ 22) s) t
            l,
      )
      refl

-- The loop of `init`, from the new directory on.
init_loop :
    (image : KernelImage) (s : VirtMem) (dir_frame frame dir : ℕ)
    → (alloc_any s.frames).0 ≡ dir_frame * 4096
    → (alloc_any (new_directory s).frames).0 ≡ frame * 4096
    → frame < 2 ^ 20
    → frame ≢ dir_frame
    → image.virt_begin % 4096 ≡ 0
    → dir < 1023
    → dir * 2 ^ 22 ≤ image.virt_begin
    → image.virt_end ≤ dir * 2 ^ 22 + 2 ^ 22
    → image.virt_begin < image.virt_end
    → image.phys_begin + 2 ^ 22 < 2 ^ 32
    → (s' : VirtMem) × (map_kernel
          ((image.virt_end - image.virt_begin) / 4096 + 2)
          image.virt_begin
          image.virt_end
          image.phys_begin
          (new_directory s)
        ≡ some s')
      × Mapped
          (add_table_pre_paging (image.virt_begin / 2 ^ 22) (new_directory s))
          s'
          dir_frame
          dir
          (page_dir_entry (frame * 4096) (flags true true false))
          image.virt_begin
          image.virt_end
          image.phys_begin
init_loop image s d f dir e1 e2 l apart vb k lo hi below pl =
    let s1 = new_directory s in
    let base : s1.page_dir_phys ≡ d * 4096 = new_directory-page_dir_phys s ∙ e1 in
    let at_dir : image.virt_begin / 2 ^ 22 ≡ dir = omega arith in
    let absent : is_present (dir_word s1.memory d (image.virt_begin / 2 ^ 22)) ≡ false =
      ap is_present (new_directory-word s d (image.virt_begin / 2 ^ 22) e1 (omega arith))
      ∙ get_bit-div 32 0 0 (omega arith) in
    let table = add_table-HasTable d (image.virt_begin / 2 ^ 22) f s1 base e2 l apart in
    let entry = page_dir_entry (f * 4096) (flags true true false) in
    let loop =
      map_kernel-Mapped ((image.virt_end - image.virt_begin + 4095) / 4096)
        ((image.virt_end - image.virt_begin) / 4096 + 2) image.virt_begin image.virt_end
        image.phys_begin d dir entry (add_table_pre_paging (image.virt_begin / 2 ^ 22) s1) refl
        (omega arith) (rw (← at_dir) table) k vb lo (omega arith) hi (omega arith) in
    let run =
      map_kernel-add_table ((image.virt_end - image.virt_begin) / 4096 + 1) image.virt_begin
        image.virt_end image.phys_begin d entry s1 base (omega arith) below absent table in
    let fuel : suc ((image.virt_end - image.virt_begin) / 4096 + 1)
        ≡ (image.virt_end - image.virt_begin) / 4096 + 2 =
      omega arith in
    (loop.0, (rw fuel at run) ∙ loop.1, loop.2)

abbrev after_init : KernelImage → VirtMem → VirtMem → VirtMem
after_init image s s2 = record s2 {
  page_dir_base = (new_directory s).page_dir_phys;
  frames = free_address s2.frames (sub32 image.page_directory image.virt_offset);
  vkernel_start = align_up image.virt_end;
  vkernel_end = align_down max32;
}

init-after_init :
    (image : KernelImage) (s s2 : VirtMem)
    → map_kernel
        ((image.virt_end - image.virt_begin) / 4096 + 2)
        image.virt_begin
        image.virt_end
        image.phys_begin
        (new_directory s)
      ≡ some s2
    → init image s ≡ some (after_init image s s2)
unfolding init
init-after_init image s s2 e = rw e refl

-- Where the kernel's range starts at a page boundary and lies in one entry of the directory, below
-- the recursive one, and `alloc_any` gives the frame `dir_frame` for the directory and then another
-- one for the page table, `init` ends, and the processor translates every address of the range to
-- the physical one that lies as far behind the kernel's physical start, a page boundary whose next
-- 4 MB do not wrap.
pub init-maps_kernel :
    (translate : Translate) (image : KernelImage) (s : VirtMem) (dir_frame frame dir a : ℕ)
    → IsMmu translate
    → (alloc_any s.frames).0 ≡ dir_frame * 4096
    → (alloc_any (new_directory s).frames).0 ≡ frame * 4096
    → frame < 2 ^ 20
    → frame ≢ dir_frame
    → image.virt_begin % 4096 ≡ 0
    → image.phys_begin % 4096 ≡ 0
    → dir < 1023
    → dir * 2 ^ 22 ≤ image.virt_begin
    → image.virt_end ≤ dir * 2 ^ 22 + 2 ^ 22
    → image.phys_begin + 2 ^ 22 < 2 ^ 32
    → image.virt_begin ≤ a
    → a < image.virt_end
    → (s' : VirtMem) × (init image s ≡ some s')
      × (translate s'.memory s'.page_dir_base a ≡ some (image.phys_begin + (a - image.virt_begin)))
init-maps_kernel translate image s d f dir a mmu e1 e2 l apart vb pb k lo hi pl p q =
    let loop = init_loop image s d f dir e1 e2 l apart vb k lo hi (omega arith) pl in
    let entry = page_dir_entry (f * 4096) (flags true true false) in
    (
      after_init image s loop.0,
      init-after_init image s loop.0 loop.1,
      ap (λ (t : ℕ). translate loop.0.memory t a) (new_directory-page_dir_phys s ∙ e1)
          ∙ translate-Mapped translate
              (add_table_pre_paging (image.virt_begin / 2 ^ 22) (new_directory s)) loop.0 d dir
              entry image.virt_begin image.virt_end image.phys_begin a mmu loop.2 vb pb lo hi k pl p
              q,
    )
