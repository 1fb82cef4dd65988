-- ===== src/Heap.antt =====
-- `memory_manager` of kernel/src/hal/memory/memmanager.h and memmanager.cc: the kernel's heap, over
-- the mapping functions of the i386 build. A panic is `none`, as is a page fault. `size_of` and
-- `align_of` are those of the type that `kernel_malloc` is asked for.
pub mod Pages
pub mod Objects
pub mod Within
use danaos.Prelude.{
  ℕ, zero, suc, ◌+◌, ◌*◌, ◌/◌, Option, none, some, ◌>>=◌, true, false, ltb, leb, ◌==◌,
  if◌then◌else◌, add32, sub32, mul32,
}
use danaos.Paging.{page_size, page_count, align_down, align_up}
use danaos.PhysMem
use danaos.PhysMem.Any.{alloc_any}
use danaos.VirtMem.{Translate, VirtMem, map, map_count}

pub record Heap : Type 0 where
  pub vheap_start : ℕ
  pub vheap_end : ℕ
  pub vheap_curr : ℕ
  pub vheap_alloced : ℕ
  pub vm : VirtMem

abbrev pub align : ℕ → ℕ → ℕ
align addr alignment = mul32 (add32 (sub32 addr 1 / alignment) 1) alignment

unfoldable pub init : Heap → Heap
init h = record h {
  vheap_start = h.vm.vkernel_start;
  vheap_end = h.vm.vkernel_end;
  vheap_curr = h.vm.vkernel_start;
  vheap_alloced = h.vm.vkernel_start;
}

-- The part of `kernel_alloc_pages` behind the test of the size, which is given with the offset of
-- the address in its page.
unfoldable pub alloc_pages : Translate → ℕ → ℕ → Heap → Option (ℕ × Heap)
alloc_pages translate phys size h =
    let first = align_up h.vheap_curr in
    let pages = page_count size in
    let next = add32 first (mul32 page_size pages) in
    if ltb h.vm.vkernel_end next then none else (do
      mapped ← map_count translate first (align_down phys) pages true false false h.vm
      some (
        add32 first (sub32 phys (align_down phys)),
        record h { vheap_curr = next; vheap_alloced = next; vm = mapped.1 },
      ))

unfoldable pub kernel_alloc_pages : Translate → ℕ → ℕ → Heap → Option (ℕ × Heap)
kernel_alloc_pages translate phys size h =
    let whole = add32 size (sub32 phys (align_down phys)) in
    if whole == 0 then some (0, h) else alloc_pages translate phys whole h

-- The loop of `kernel_malloc`, with the pages left.
unfoldable pub add_pages : Translate → ℕ → Heap → Option Heap
add_pages translate zero h = some h
add_pages translate (suc left) h =
    let (phys, frames) = alloc_any h.vm.frames in
    do
      mapped ← map translate h.vheap_alloced phys true false false (record h.vm { frames = frames })
      add_pages translate left
          (record h { vheap_alloced = add32 h.vheap_alloced page_size; vm = mapped.1 })

-- The bytes that `kernel_malloc` reserves, from `vheap_curr` on.
abbrev pub needed_bytes : ℕ → ℕ → Heap → ℕ
needed_bytes size_of align_of h =
    sub32 (add32 (align h.vheap_curr align_of) (mul32 size_of align_of)) h.vheap_curr

unfoldable pub pages_needed : ℕ → Heap → ℕ
pages_needed bytes h =
    if leb h.vheap_alloced (add32 h.vheap_curr bytes)
    then PhysMem.page_count (sub32 bytes (sub32 h.vheap_alloced h.vheap_curr))
    else 0

unfoldable pub kernel_malloc : Translate → ℕ → ℕ → ℕ → Heap → Option (ℕ × Heap)
kernel_malloc translate size_of align_of count h =
    let bytes = needed_bytes size_of align_of h in
    if count == 0 then some (0, h) else if bytes == 0 then some (0, h) else (do
      next ← add_pages translate (pages_needed bytes h) h
      some (align h.vheap_curr align_of, next))
