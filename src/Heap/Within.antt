-- ===== src/Heap/Within.antt =====
-- The heap stays below the end of the kernel's memory.
use danaos.Prelude.{
  ℕ, ◌≤◌, ◌≡◌, refl, arith, true, false, ◌==◌, ltb, OnSome, bind-OnSome, Bool-cases, inl, inr,
  add32, sub32, mul32,
}
use danaos.Heap.{Heap, alloc_pages, kernel_alloc_pages}
use danaos.Paging.{page_size, page_count, align_down, align_up}
use danaos.VirtMem.{Translate, map_count}
use danaos.VirtMem.Kept.{EndsAt, map_count-EndsAt}

-- The kernel's memory ends at `v`, the heap at most there, and every page up to its end is mapped.
pub record IsWithin (v : ℕ) (h : Heap) : Type 0 where
  pub ends : h.vm.vkernel_end ≡ v
  pub below : h.vheap_curr ≤ v
  pub mapped : h.vheap_alloced ≡ h.vheap_curr

alloc_pages-IsWithin :
    (translate : Translate) (v phys size : ℕ) (h : Heap)
    → IsWithin v h
    → OnSome (λ (r : ℕ × Heap). IsWithin v r.1) (alloc_pages translate phys size h)
unfolding alloc_pages
alloc_pages-IsWithin translate v phys size h w =
    let first : ℕ = align_up h.vheap_curr in
    let next : ℕ = add32 first (mul32 page_size (page_count size)) in
    elim (Bool-cases (ltb h.vm.vkernel_end next)) [
      | inl p ↦ rw p tt
      | inr p ↦ rw p (
          bind-OnSome (λ r. EndsAt v r.1) (λ r. IsWithin v r.1)
            (map_count translate first (align_down phys) (page_count size) true false false h.vm) _
            (map_count-EndsAt translate v first (align_down phys) (page_count size) true false false
              h.vm w.ends)
            (λ m e. record { ends = e; below = ground (arith, w.ends); mapped = refl }))
    ]

-- `kernel_alloc_pages` keeps the heap below the end of the kernel's memory, whatever it is asked for.
pub kernel_alloc_pages-IsWithin :
    (translate : Translate) (v phys size : ℕ) (h : Heap)
    → IsWithin v h
    → OnSome (λ (r : ℕ × Heap). IsWithin v r.1) (kernel_alloc_pages translate phys size h)
unfolding kernel_alloc_pages
kernel_alloc_pages-IsWithin translate v phys size h w =
    let whole : ℕ = add32 size (sub32 phys (align_down phys)) in
    elim (Bool-cases (whole == 0)) [
      | inl p ↦ rw p w
      | inr p ↦ rw p (alloc_pages-IsWithin translate v phys whole h w)
    ]
