-- ===== src/LongVirtMem/Boot.antt =====
-- `map_pre_paging` and `init` of the x86_64 kernel: the four levels of tables of the kernel, written
-- through the addresses of the memory itself, which are mapped to themselves at that time.
use danaos.Prelude.{
  ℕ, zero, suc, ◌+◌, ◌-◌, ◌/◌, ◌^◌, true, false, Option, none, some, ◌>>=◌, ltb, if◌then◌else◌,
  update,
}
use danaos.LongPaging.{page_dir_ptr_entry, is_present, get_dir_addr}
use danaos.LongPaging.DirEntry.{page_dir_entry, get_table_addr}
use danaos.LongPaging.MapEntry.{page_map_entry, get_dir_ptr_addr}
use danaos.LongPaging.Places.{map_index, dir_ptr_index, dir_index, table_index, recur_map_index}
use danaos.LongPaging.TableEntry.{page_table_entry}
use danaos.LongVirtMem.{Allocator, LongVirtMem, page_size, add64, sub64, align_up, align_down}
use danaos.VirtMem.{flags}
use danaos.VirtMem.Boot.{clear_words}

-- What the linker sets for the kernel.
pub record KernelImage : Type 0 where
  pub virt_offset : ℕ
  pub virt_begin : ℕ
  pub virt_end : ℕ
  pub phys_begin : ℕ
  pub pml4 : ℕ
  pub pdp : ℕ
  pub pd : ℕ

module _ {ℓ} {F : Type ℓ} (phys_mem : Allocator F) where
  -- The test of one of the upper levels, by the place of its entry among the words.
  unfoldable pub check_pre_paging : ℕ → (ℕ → ℕ) → LongVirtMem F → LongVirtMem F
  check_pre_paging place make s =
      let (addr, frames) = phys_mem.alloc_any s.frames in
      if is_present (s.memory place) then s else record s {
        frames = frames;
        memory = update (clear_words 512 (addr / 8) s.memory) place (make addr);
      }

  unfoldable pub map_pre_paging : ℕ → ℕ → LongVirtMem F → LongVirtMem F
  map_pre_paging virt phys s =
      let upper = flags true true false in
      let pme = s.page_map_phys / 8 + map_index virt in
      let s1 = check_pre_paging pme (λ addr. page_map_entry addr upper false) s in
      let pdpe = get_dir_ptr_addr (s1.memory pme) / 8 + dir_ptr_index virt in
      let s2 = check_pre_paging pdpe (λ addr. page_dir_ptr_entry addr upper false) s1 in
      let pde = get_dir_addr (s2.memory pdpe) / 8 + dir_index virt in
      let s3 = check_pre_paging pde (λ addr. page_dir_entry addr upper false) s2 in
      let pte = get_table_addr (s3.memory pde) / 8 + table_index virt in
      record s3 { memory = update s3.memory pte (page_table_entry phys upper false false false) }

  -- The loop of `init` over the pages of the kernel, with fuel; where that runs out it stops.
  unfoldable pub map_kernel : ℕ → ℕ → ℕ → ℕ → LongVirtMem F → Option (LongVirtMem F)
  map_kernel zero addr virt_end curr_phys s = none
  map_kernel (suc fuel) addr virt_end curr_phys s =
      let rest =
        map_kernel fuel (add64 addr page_size) virt_end (add64 curr_phys page_size)
          (map_pre_paging addr curr_phys s) in
      if ltb addr virt_end then rest else some s

  -- `init` up to the loop: the new page map, mapped, cleared, and made recursive.
  unfoldable pub new_page_map : LongVirtMem F → LongVirtMem F
  new_page_map s =
      let (page_map_phys, frames) = phys_mem.alloc_any s.frames in
      let s1 =
        map_pre_paging page_map_phys page_map_phys
          (record s { frames = frames; page_map_phys = page_map_phys }) in
      record s1 {
        memory =
            update (clear_words 512 (page_map_phys / 8) s1.memory)
              (page_map_phys / 8 + recur_map_index)
              (page_map_entry page_map_phys (flags true false false) false);
      }

  unfoldable pub init : KernelImage → LongVirtMem F → Option (LongVirtMem F)
  init image s =
      let s1 = new_page_map s in
      do
        s2 ←
            map_kernel ((image.virt_end - image.virt_begin) / page_size + 2) image.virt_begin
              image.virt_end image.phys_begin s1
        let f1 = phys_mem.free_address s2.frames (sub64 image.pml4 image.virt_offset)
        let f2 = phys_mem.free_address f1 (sub64 image.pdp image.virt_offset)
        some (record s2 {
          page_map_base = s1.page_map_phys;
          frames = phys_mem.free_address f2 (sub64 image.pd image.virt_offset);
          vkernel_start = align_up image.virt_end;
          vkernel_end = align_down (2 ^ 64 - 1);
        })
