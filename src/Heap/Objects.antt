-- ===== src/Heap/Objects.antt =====
-- `kernel_malloc`: the place of an object, and the pages that are asked for.
use danaos.Prelude.{
  ℕ, zero, suc, ◌+◌, ◌^◌, ◌<◌, ◌≡◌, ◌≢◌, ◌∙◌, sym, ap, refl, arith, Option, some, ◌>>=◌, true,
  false, leb, ◌==◌, add32, bind-some, some-injective,
}
use danaos.PhysMem.Any.{alloc_any}
use danaos.VirtMem.{Translate, VirtMem, map}
use danaos.Heap.{Heap, align, add_pages, needed_bytes, pages_needed, kernel_malloc}

-- New pages do not move the place of the next object.
add_pages-vheap_curr :
    (translate : Translate) (left : ℕ) (h h' : Heap)
    → add_pages translate left h ≡ some h'
    → h'.vheap_curr ≡ h.vheap_curr
unfolding add_pages
add_pages-vheap_curr translate zero h h' e =
    ap (λ (t : Heap). t.vheap_curr) (sym (some-injective h h' e))
add_pages-vheap_curr translate (suc left) h h' e =
    let with_frames : VirtMem = record h.vm { frames = (alloc_any h.vm.frames).1 } in
    let more : VirtMem → Heap =
      λ vm. record h { vheap_alloced = add32 h.vheap_alloced 4096; vm = vm } in
    let next =
      bind-some
        {m = map translate h.vheap_alloced (alloc_any h.vm.frames).0 true false false with_frames}
        {f = λ mapped. add_pages translate left (more mapped.1)} e in
    add_pages-vheap_curr translate left (more next.0.1) h' next.2

abbrev placed : ℕ → Heap → Option (ℕ × Heap)
placed place h = some (place, h)

kernel_malloc-placed :
    (translate : Translate) (size_of align_of count : ℕ) (h : Heap)
    → 0 < count
    → needed_bytes size_of align_of h ≢ 0
    → kernel_malloc translate size_of align_of count h ≡ (
        add_pages translate (pages_needed (needed_bytes size_of align_of h) h) h
        >>= placed (align h.vheap_curr align_of))
unfolding kernel_malloc
kernel_malloc-placed translate size_of align_of count h c n =
    let bytes : (needed_bytes size_of align_of h == 0) ≡ false = ground (arith, n) in
    let some_count : (count == 0) ≡ false = ground arith in rw (some_count, bytes) refl

-- An allocation that returns gives the aligned place, and leaves the place as it was.
kernel_malloc-place :
    (translate : Translate) (size_of align_of count p : ℕ) (h h' : Heap)
    → 0 < count
    → needed_bytes size_of align_of h ≢ 0
    → kernel_malloc translate size_of align_of count h ≡ some (p, h')
    → (p ≡ align h.vheap_curr align_of) × (h'.vheap_curr ≡ h.vheap_curr)
kernel_malloc-place translate size_of align_of count p h h' c n e =
    let pages = pages_needed (needed_bytes size_of align_of h) h in
    let place = align h.vheap_curr align_of in
    let next =
      bind-some {m = add_pages translate pages h} {f = placed place}
        (sym (kernel_malloc-placed translate size_of align_of count h c n) ∙ e) in
    let pair = some-injective (place, next.0) (p, h') next.2 in
    let curr = add_pages-vheap_curr translate pages h next.0 next.1 in
    (sym (ap (λ (t : ℕ × Heap). t.0) pair), ap (λ (t : ℕ × Heap). t.1.vheap_curr) (sym pair) ∙ curr)

-- Two allocations in a row of the same alignment, of at least one object each, both reserving some
-- bytes and returning, give the same address, whatever pages they map: the heap's place stays.
pub kernel_malloc_again :
    (translate : Translate) (size_of size_of' align_of count count' p p' : ℕ) (h h' h'' : Heap)
    → 0 < count
    → 0 < count'
    → needed_bytes size_of align_of h ≢ 0
    → needed_bytes size_of' align_of h' ≢ 0
    → kernel_malloc translate size_of align_of count h ≡ some (p, h')
    → kernel_malloc translate size_of' align_of count' h' ≡ some (p', h'')
    → (p' ≡ p) × (h''.vheap_curr ≡ h.vheap_curr)
kernel_malloc_again translate size_of size_of' align_of count count' p p' h h' h'' c c' n n' e e' =
    let first = kernel_malloc-place translate size_of align_of count p h h' c n e in
    let second = kernel_malloc-place translate size_of' align_of count' p' h' h'' c' n' e' in
    (second.0 ∙ ap (λ (t : ℕ). align t align_of) first.1 ∙ sym first.0, second.1 ∙ first.1)

-- The number of objects, from 1 on, makes no difference.
pub kernel_malloc_count :
    (translate : Translate) (size_of align_of count : ℕ) (h : Heap)
    → 0 < count
    → kernel_malloc translate size_of align_of count h
      ≡ kernel_malloc translate size_of align_of 1 h
unfolding kernel_malloc
kernel_malloc_count translate size_of align_of count h c =
    let some_count : (count == 0) ≡ false = ground arith in rw some_count refl

-- Where an object ends at the end of the pages there are, which lies below 2 ^ 32, it needs no page,
-- but 2 ^ 20 of them are asked for.
pub pages_needed_exact :
    (bytes : ℕ) (h : Heap)
    → h.vheap_curr + bytes ≡ h.vheap_alloced
    → h.vheap_alloced < 2 ^ 32
    → pages_needed bytes h ≡ 2 ^ 20
unfolding pages_needed
pages_needed_exact bytes h e l =
    let full : leb h.vheap_alloced (add32 h.vheap_curr bytes) ≡ true = ground arith in
    rw full (omega arith)

-- An allocation of at least one object whose bytes, not none, end in front of the end of the pages
-- there are returns the aligned place and leaves the heap as it was.
pub kernel_malloc_in_pages :
    (translate : Translate) (size_of align_of count : ℕ) (h : Heap)
    → 0 < count
    → needed_bytes size_of align_of h ≢ 0
    → add32 h.vheap_curr (needed_bytes size_of align_of h) < h.vheap_alloced
    → kernel_malloc translate size_of align_of count h ≡ some (align h.vheap_curr align_of, h)
unfolding pages_needed add_pages
kernel_malloc_in_pages translate size_of align_of count h c n l =
    let room : leb h.vheap_alloced (add32 h.vheap_curr (needed_bytes size_of align_of h)) ≡ false =
      ground arith in
    kernel_malloc-placed translate size_of align_of count h c n ∙ rw room refl
