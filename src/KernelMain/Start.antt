-- ===== src/KernelMain/Start.antt =====
-- The heap that `kernelMain` leaves.
use danaos.Prelude.{
  ℕ, ◌+◌, ◌/◌, ◌-◌, ◌^◌, ◌≤◌, ◌<◌, ◌≡◌, refl, arith, true, false, Option, none, some, ◌==◌, OnSome,
  bind-OnSome, bind-OnSome_any, add32, mul32, Bool-cases, inl, inr,
}
use danaos.BootInfo.{multiboot2_bootloader_magic}
use danaos.Cga.Setup
use danaos.Heap
use danaos.Heap.{Heap, kernel_alloc_pages}
use danaos.Heap.Within.{IsWithin, kernel_alloc_pages-IsWithin}
use danaos.KernelMain.{Links, prepare, names_header, section_headers}
use danaos.KernelMain.Remap.{
  Load, Kernel, byte_of, map_table, map_sections, map_elf, section_size, set_up, kernel_main,
}
use danaos.Paging.{page_count, align_up, align_down}
use danaos.Symbols.{SectionHeader, SymbolLookup, find_table}
use danaos.VirtMem.{Translate, VirtMem, map_range}
use danaos.VirtMem.Boot
use danaos.VirtMem.Boot.{KernelImage, new_directory, map_kernel}
use danaos.VirtMem.Kept.{EndsAt, map_range-EndsAt}

-- The last page of the address space is not the kernel's.
abbrev last_page : ℕ
last_page = 2 ^ 32 - 4096

module _ (translate : Translate) (v : ℕ) where
  map_table-IsWithin :
      (t : Option SectionHeader) (h : Heap)
      → IsWithin v h
      → OnSome (λ (r : Option ℕ × Heap). IsWithin v r.1) (map_table translate t h)
  unfolding map_table
  map_table-IsWithin none h w = w
  map_table-IsWithin (some header) h w =
      bind-OnSome (λ r. IsWithin v r.1) (λ r. IsWithin v r.1)
        (kernel_alloc_pages translate header.sh_addr header.sh_size h) _
        (kernel_alloc_pages-IsWithin translate v header.sh_addr header.sh_size h w) (λ _ k. k)

  map_sections-IsWithin :
      (load : Load) (links : Links) (phys size : ℕ) (h : Heap) (lookup : SymbolLookup)
      → IsWithin v h
      → OnSome
          (λ (r : Heap × SymbolLookup). IsWithin v r.0)
          (map_sections translate load links phys size h lookup)
  unfolding map_sections
  map_sections-IsWithin load links phys size h lookup w =
      bind-OnSome (λ r. IsWithin v r.1) (λ r. IsWithin v r.0)
        (kernel_alloc_pages translate phys size h) _
        (kernel_alloc_pages-IsWithin translate v phys size h w)
        (λ tag k.
          let names = names_header (load tag.1.vm) tag.0 in
          bind-OnSome (λ r. IsWithin v r.1) (λ r. IsWithin v r.0)
            (kernel_alloc_pages translate names.sh_addr names.sh_size tag.1) _
            (kernel_alloc_pages-IsWithin translate v names.sh_addr names.sh_size tag.1 k)
            (λ str k2.
              let headers = section_headers (load str.1.vm) tag.0 in
              bind-OnSome (λ r. IsWithin v r.1) (λ r. IsWithin v r.0)
                (map_table translate (find_table (load str.1.vm) links.strtab str.0 headers) str.1)
                _
                (map_table-IsWithin (find_table (load str.1.vm) links.strtab str.0 headers) str.1
                  k2)
                (λ strings k3.
                  bind-OnSome (λ r. IsWithin v r.1) (λ r. IsWithin v r.0)
                    (map_table translate (find_table (load str.1.vm) links.symtab str.0 headers)
                      strings.1)
                    _
                    (map_table-IsWithin (find_table (load str.1.vm) links.symtab str.0 headers)
                      strings.1 k3)
                    (λ _ k4. k4))))

  map_elf-IsWithin :
      (load : Load) (links : Links) (tag : Option ℕ) (size : ℕ) (k : Kernel)
      → IsWithin v k.heap
      → OnSome (λ (r : Kernel). IsWithin v r.heap) (map_elf translate load links tag size k)
  unfolding map_elf
  map_elf-IsWithin load links none size k w = w
  map_elf-IsWithin load links (some phys) size k w =
      bind-OnSome (λ r. IsWithin v r.0) (λ r. IsWithin v r.heap)
        (map_sections translate load links phys size k.heap k.lookup) _
        (map_sections-IsWithin load links phys size k.heap k.lookup w) (λ _ h. h)

ends_below : (virt_end : ℕ) → 0 < virt_end → virt_end ≤ last_page → align_up virt_end ≤ last_page
unfolding align_up page_count
ends_below virt_end p q = omega arith

-- The heap that starts behind the kernel.
first_heap-IsWithin :
    (virt_end : ℕ) (h : Heap)
    → 0 < virt_end
    → virt_end ≤ last_page
    → h.vm.vkernel_start ≡ align_up virt_end
    → h.vm.vkernel_end ≡ last_page
    → IsWithin last_page (Heap.init h)
unfolding Heap.init
first_heap-IsWithin virt_end h p q s e = record {
  ends = e;
  below = rw s (ends_below virt_end p q);
  mapped = refl;
}

vm_heap-IsWithin :
    (image : KernelImage) (s : VirtMem) (h : Heap)
    → 0 < image.virt_end
    → image.virt_end ≤ last_page
    → OnSome
        (λ (vm : VirtMem). IsWithin last_page (Heap.init (record h { vm = vm })))
        (Boot.init image s)
unfolding Boot.init align_down
vm_heap-IsWithin image s h p q =
    bind-OnSome_any (λ (vm : VirtMem). IsWithin last_page (Heap.init (record h { vm = vm })))
      (map_kernel ((image.virt_end - image.virt_begin) / 4096 + 2) image.virt_begin image.virt_end
        image.phys_begin (new_directory s))
      _ (λ vm. first_heap-IsWithin image.virt_end _ p q refl refl)

screen-IsWithin :
    (translate : Translate) (v offset addr width height : ℕ) (h : Heap)
    → IsWithin v h
    → OnSome
        (λ (r : Setup.Screen × VirtMem). IsWithin v (record h { vm = r.1 }))
        (Setup.init translate offset addr width height h.vm)
unfolding Setup.init
screen-IsWithin translate v offset addr width height h w =
    let screen : ℕ = add32 addr offset in
    let last : ℕ = add32 screen (mul32 (mul32 width height) 2) in
    bind-OnSome (λ (r : ℕ × VirtMem). EndsAt v r.1)
      (λ (r : Setup.Screen × VirtMem). IsWithin v (record h { vm = r.1 }))
      (map_range translate screen last addr true false false h.vm) _
      (map_range-EndsAt translate v screen last addr true false false h.vm w.ends)
      (λ _ e. record { ends = e; below = w.below; mapped = w.mapped })

set_up-IsWithin :
    (translate : Translate) (load : Load) (image : KernelImage) (links : Links) (info : ℕ)
    (k : Kernel)
    → 0 < image.virt_end
    → image.virt_end ≤ last_page
    → OnSome (λ (r : Kernel). IsWithin last_page r.heap) (set_up translate load image links info k)
unfolding set_up
set_up-IsWithin translate load image links info k p q =
    bind-OnSome_any (λ r. IsWithin last_page r.heap)
      (prepare (byte_of k.heap.vm.memory) links info k.heap.vm.frames) _
      (λ ready.
        bind-OnSome (λ (vm : VirtMem). IsWithin last_page (Heap.init (record k.heap { vm = vm })))
          (λ r. IsWithin last_page r.heap)
          (Boot.init image (record k.heap.vm { frames = ready.frames })) _
          (vm_heap-IsWithin image (record k.heap.vm { frames = ready.frames }) k.heap p q)
          (λ vm w.
            bind-OnSome
              (λ (r : Setup.Screen × VirtMem).
                IsWithin last_page (record (Heap.init (record k.heap { vm = vm })) { vm = r.1 }))
              (λ r. IsWithin last_page r.heap)
              (Setup.init translate image.virt_offset ready.framebuffer.fb_addr
                ready.framebuffer.fb_width ready.framebuffer.fb_height
                (Heap.init (record k.heap { vm = vm })).vm)
              _
              (screen-IsWithin translate last_page image.virt_offset ready.framebuffer.fb_addr
                ready.framebuffer.fb_width ready.framebuffer.fb_height
                (Heap.init (record k.heap { vm = vm })) w)
              (λ shown w2.
                map_elf-IsWithin translate last_page load links ready.elf_sections
                  (section_size (byte_of k.heap.vm.memory) ready.elf_sections)
                  (record k {
                    heap = record (Heap.init (record k.heap { vm = vm })) { vm = shown.1 };
                    screen = shown.0;
                  })
                  w2)))

-- Where the kernel ends behind address 0 and before the last page of the address space, the heap
-- that `kernelMain` leaves ends at most at that last page, where the kernel's memory ends, and every
-- page up to its end is mapped; whatever the boot information holds, unless the kernel stops on the
-- way.
pub kernel_main-IsWithin :
    (translate : Translate) (load : Load) (image : KernelImage) (links : Links) (magic info : ℕ)
    (k : Kernel)
    → 0 < image.virt_end
    → image.virt_end ≤ last_page
    → OnSome
        (λ (r : Kernel). IsWithin last_page r.heap)
        (kernel_main translate load image links magic info k)
unfolding kernel_main
kernel_main-IsWithin translate load image links magic info k p q =
    elim (Bool-cases (magic == multiboot2_bootloader_magic)) [
      | inl e ↦ rw e (set_up-IsWithin translate load image links info k p q)
      | inr e ↦ rw e tt
    ]
