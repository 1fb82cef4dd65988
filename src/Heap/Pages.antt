-- ===== src/Heap/Pages.antt =====
-- `kernel_alloc_pages`: the pages that it maps, and the address that it returns.
use danaos.Prelude.{ℕ, ◌+◌, ◌*◌, ◌/◌, ◌%◌, ◌^◌, ◌<◌}
use danaos.Heap.{Heap}

-- The first page that `kernel_alloc_pages` maps, and the number of pages.
abbrev pub first_page : Heap → ℕ
first_page h = (h.vheap_curr + 4095) / 4096 * 4096

abbrev pub whole_pages : ℕ → ℕ → ℕ
whole_pages phys size = (size + phys % 4096 + 4095) / 4096

-- Nothing wraps.
pub record NoWrap (h : Heap) (phys size : ℕ) : Type 0 where
  pub last : first_page h + 4096 * whole_pages phys size < 2 ^ 32
  pub start : 0 < h.vheap_curr
  pub bytes : 0 < size
  pub address : phys < 2 ^ 32
