-- ===== src/VirtMem/KernelPages.antt =====
-- The loop of `init` over the pages of the kernel, in one page table, and what the processor finds.
use danaos.Prelude.{
  ℕ, zero, suc, ◌+◌, ◌-◌, ◌*◌, ◌/◌, ◌%◌, ◌^◌, ◌≤◌, ◌<◌, ◌≡◌, ◌≢◌, ◌∙◌, ap, refl, arith, true, false,
  some, ltb, update, add32,
}
use native.Mathlib.Decide.{dec_lt}
use danaos.Paging.{page_table_entry, get_phys_addr}
use danaos.Paging.Entries.{page_table_entry_lem}
use danaos.VirtMem.{Translate, VirtMem, flags}
use danaos.VirtMem.Mmu.{
  IsMmu, IsMmu-WalksIn, NamesTable, walk_by, dir_word, page_table_entry-div, get_phys_addr-div,
}
use danaos.VirtMem.Mapping.{dir_index-div, table_index-div}
use danaos.VirtMem.Boot.{set_table_entry, map_pre_paging, map_kernel}

abbrev pub kernel_page : ℕ → ℕ
kernel_page phys = page_table_entry phys (flags true true true) false

-- The directory in the frame `dir_frame` has the entry `entry` at `dir`, which names a table in
-- another frame.
pub record HasTable (s : VirtMem) (dir_frame dir entry : ℕ) : Type 0 where
  pub base : s.page_dir_phys ≡ dir_frame * 4096
  pub word : dir_word s.memory dir_frame dir ≡ entry
  pub names : NamesTable entry
  pub fits : entry < 2 ^ 32
  pub apart : entry / 4096 ≢ dir_frame

-- The state after one page, where the table is there.
abbrev with_page : ℕ → ℕ → ℕ → VirtMem → VirtMem
with_page entry addr phys s = record s {
  memory = update s.memory (entry / 4096 * 1024 + addr / 4096 % 1024) (kernel_page phys);
}

pub map_pre_paging-with_page :
    (s : VirtMem) (dir_frame entry addr phys : ℕ)
    → HasTable s dir_frame (addr / 2 ^ 22) entry
    → addr < 2 ^ 32
    → map_pre_paging addr phys s ≡ with_page entry addr phys s
unfolding map_pre_paging set_table_entry
map_pre_paging-with_page s dir_frame entry addr phys t l =
    let at_dir : s.page_dir_phys / 4 + addr / 2 ^ 22 ≡ dir_frame * 1024 + addr / 2 ^ 22 =
      omega (arith, t.base) in
    let at_table : get_phys_addr (s.memory (s.page_dir_phys / 4 + addr / 2 ^ 22)) / 4
        ≡ entry / 4096 * 1024 =
      rw (at_dir, t.word, get_phys_addr-div entry t.fits) (omega arith) in
    rw (dir_index-div addr l, table_index-div addr, at_dir, t.word, t.names.0)
      (ap
        (λ (i : ℕ). record s {
          memory = update s.memory (i + addr / 4096 % 1024) (kernel_page phys);
        })
        at_table)

with_page-HasTable :
    (s : VirtMem) (dir_frame dir entry addr phys : ℕ)
    → HasTable s dir_frame dir entry
    → dir < 1024
    → HasTable (with_page entry addr phys s) dir_frame dir entry
with_page-HasTable s dir_frame dir entry addr phys t l = record {
  base = t.base;
  word = ground (arith, t.word, t.apart);
  names = t.names;
  fits = t.fits;
  apart = t.apart;
}

-- What the loop over the pages from `addr` up to `virt_end` leaves: the entries of the pages, and the
-- words of the table for the pages in front of them as they were.
pub record Mapped (s s' : VirtMem) (dir_frame dir entry addr virt_end phys : ℕ) : Type 0 where
  pub table : HasTable s' dir_frame dir entry
  pub pages :
      (a : ℕ)
      → addr ≤ a
      → a < virt_end
      → s'.memory (entry / 4096 * 1024 + a / 4096 % 1024)
        ≡ kernel_page (phys + (a / 4096 - addr / 4096) * 4096)
  pub before :
      (a : ℕ)
      → dir * 2 ^ 22 ≤ a
      → a / 4096 < addr / 4096
      → s'.memory (entry / 4096 * 1024 + a / 4096 % 1024)
        ≡ s.memory (entry / 4096 * 1024 + a / 4096 % 1024)

Mapped-with_page :
    (addr virt_end phys dir_frame dir entry : ℕ) (s s' : VirtMem)
    → addr % 4096 ≡ 0
    → dir * 2 ^ 22 ≤ addr
    → addr < dir * 2 ^ 22 + 2 ^ 22
    → virt_end ≤ dir * 2 ^ 22 + 2 ^ 22
    → Mapped
        (with_page entry addr phys s)
        s'
        dir_frame
        dir
        entry
        (addr + 4096)
        virt_end
        (phys + 4096)
    → Mapped s s' dir_frame dir entry addr virt_end phys
Mapped-with_page addr virt_end phys dir_frame dir entry s s' a lo hi m rest = record {
  table = rest.table;
  pages = λ b q r. elim (dec_lt b (addr + 4096)) [
    | yes l ↦
        (let same : b / 4096 ≡ addr / 4096 = omega arith in
          let offset : phys + (b / 4096 - addr / 4096) * 4096 ≡ phys = omega arith in
          rest.before b (omega arith) (omega arith) ∙ rw (offset, same) (ground arith))
    | no l ↦
        (let offset : phys + 4096 + (b / 4096 - (addr + 4096) / 4096) * 4096
              ≡ phys + (b / 4096 - addr / 4096) * 4096 =
            omega arith in
          rest.pages b (omega arith) r ∙ ap kernel_page offset)
  ];
  before = λ b q r. rest.before b q (omega arith) ∙ ground arith;
}

map_kernel-next :
    (fuel addr virt_end phys dir_frame dir entry : ℕ) (s : VirtMem)
    → HasTable s dir_frame dir entry
    → addr / 2 ^ 22 ≡ dir
    → addr < virt_end
    → addr < 2 ^ 32 - 4096
    → phys < 2 ^ 32 - 4096
    → map_kernel (suc fuel) addr virt_end phys s
      ≡ map_kernel fuel (addr + 4096) virt_end (phys + 4096) (with_page entry addr phys s)
unfolding map_kernel
map_kernel-next fuel addr virt_end phys d dir entry s t at_dir below l m =
    let go : ltb addr virt_end ≡ true = ground arith in
    let next_addr : add32 addr 4096 ≡ addr + 4096 = omega arith in
    let next_phys : add32 phys 4096 ≡ phys + 4096 = omega arith in
    let here : HasTable s d (addr / 2 ^ 22) entry = rw at_dir t in
    rw (go, next_addr, next_phys, map_pre_paging-with_page s d entry addr phys here (omega arith))
      refl

pub map_kernel-Mapped :
    (left fuel addr virt_end phys dir_frame dir entry : ℕ) (s : VirtMem)
    → left ≡ (virt_end - addr + 4095) / 4096
    → left < fuel
    → HasTable s dir_frame dir entry
    → dir < 1023
    → addr % 4096 ≡ 0
    → dir * 2 ^ 22 ≤ addr
    → addr < dir * 2 ^ 22 + 2 ^ 22 + 4096
    → virt_end ≤ dir * 2 ^ 22 + 2 ^ 22
    → phys + left * 4096 < 2 ^ 32
    → (s' : VirtMem) × (map_kernel fuel addr virt_end phys s ≡ some s')
      × Mapped s s' dir_frame dir entry addr virt_end phys
unfolding map_kernel
map_kernel-Mapped zero zero addr virt_end phys d dir entry s e f t k a lo hi m p =
    absurd (omega arith)
map_kernel-Mapped (suc left) zero addr virt_end phys d dir entry s e f t k a lo hi m p =
    absurd (omega arith)
map_kernel-Mapped zero (suc fuel) addr virt_end phys d dir entry s e f t k a lo hi m p =
    let stop : ltb addr virt_end ≡ false = ground arith in
    (
      s,
      rw stop refl,
      record { table = t; pages = λ b q r. absurd (omega arith); before = λ b q r. refl },
    )
map_kernel-Mapped (suc left) (suc fuel) addr virt_end phys d dir entry s e f t k a lo hi m p =
    let rest =
      map_kernel-Mapped left fuel (addr + 4096) virt_end (phys + 4096) d dir entry
        (with_page entry addr phys s) (omega arith) (omega arith)
        (with_page-HasTable s d dir entry addr phys t (omega arith)) k (omega arith) (omega arith)
        (omega arith) m (omega arith) in
    (
      rest.0,
      map_kernel-next fuel addr virt_end phys d dir entry s t (omega arith) (omega arith)
            (omega arith) (omega arith)
          ∙ rest.1,
      Mapped-with_page addr virt_end phys d dir entry s rest.0 a lo (omega arith) m rest.2,
    )

-- What the processor finds for a page of the loop.
pub translate-Mapped :
    (translate : Translate) (s s' : VirtMem) (dir_frame dir entry addr virt_end phys a : ℕ)
    → IsMmu translate
    → Mapped s s' dir_frame dir entry addr virt_end phys
    → addr % 4096 ≡ 0
    → phys % 4096 ≡ 0
    → dir * 2 ^ 22 ≤ addr
    → virt_end ≤ dir * 2 ^ 22 + 2 ^ 22
    → dir < 1023
    → phys + 2 ^ 22 < 2 ^ 32
    → addr ≤ a
    → a < virt_end
    → translate s'.memory (dir_frame * 4096) a ≡ some (phys + (a - addr))
translate-Mapped translate s s' d dir entry addr virt_end phys a mmu m al pl lo hi k f q r =
    let place = phys + (a / 4096 - addr / 4096) * 4096 in
    let frame = page_table_entry-div place (flags true true true) false (omega arith) in
    walk_by translate s'.memory d a dir (a / 4096 % 1024) entry (kernel_page place)
      (IsMmu-WalksIn translate s'.memory d mmu) (omega arith) (omega arith) refl m.table.word
      m.table.names (m.pages a q r) (page_table_entry_lem place (flags true true true) false).0
    ∙ ap some (rw frame (omega arith))
