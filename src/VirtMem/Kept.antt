-- ===== src/VirtMem/Kept.antt =====
-- The mapping functions keep the end of the kernel's memory.
use danaos.Prelude.{
  ℕ, zero, suc, ◌+◌, ◌≡◌, Bool, true, false, some, OnSome, bind-OnSome, bind-OnSome_any, ◌-◌, ◌/◌,
  if◌then◌else◌, ltb, Bool-cases, inl, inr, not, add32, mul32,
}
use danaos.Paging.{page_size, dir_index, table_index, page_dir_entry, page_table_entry, is_present}
use danaos.PhysMem.Any.{alloc_any}
use danaos.VirtMem.{
  Translate, VirtMem, load_word, store_word, zero_words, dir_entry, table_entry, flags, add_table,
  map_page, map_pages, map_count, run_result, range_loop, map_range,
}
use danaos.VirtMem.Ranges.{run_result-go_on}

abbrev pub EndsAt : ℕ → VirtMem → Type 0
EndsAt v s = s.vkernel_end ≡ v

module _ (translate : Translate) (v : ℕ) where
  store_word-EndsAt :
      (addr word : ℕ) (s : VirtMem)
      → EndsAt v s
      → OnSome (EndsAt v) (store_word translate addr word s)
  unfolding store_word
  store_word-EndsAt addr word s h =
      bind-OnSome_any (EndsAt v) (translate s.memory s.page_dir_base addr) _ (λ _. h)

  zero_words-EndsAt :
      (left addr : ℕ) (s : VirtMem)
      → EndsAt v s
      → OnSome (EndsAt v) (zero_words translate left addr s)
  unfolding zero_words
  zero_words-EndsAt zero addr s h = h
  zero_words-EndsAt (suc left) addr s h =
      bind-OnSome (EndsAt v) (EndsAt v) (store_word translate addr 0 s) _
        (store_word-EndsAt addr 0 s h) (zero_words-EndsAt left (addr + 4))

  add_table-EndsAt :
      (dir : ℕ) (kernel : Bool) (s : VirtMem)
      → EndsAt v s
      → OnSome (EndsAt v) (add_table translate dir kernel s)
  unfolding add_table
  add_table-EndsAt dir kernel s h =
      let (addr, frames) = alloc_any s.frames in
      bind-OnSome (EndsAt v) (EndsAt v)
        (zero_words translate 1024 addr (record s { frames = frames })) _
        (zero_words-EndsAt 1024 addr (record s { frames = frames }) h)
        (store_word-EndsAt (dir_entry dir) (page_dir_entry addr (flags true (not kernel) false)))

  checked-EndsAt :
      (there : Bool) (dir : ℕ) (kernel : Bool) (s : VirtMem)
      → EndsAt v s
      → OnSome (EndsAt v) (if there then some s else add_table translate dir kernel s)
  checked-EndsAt true dir kernel s h = h
  checked-EndsAt false dir kernel s h = add_table-EndsAt dir kernel s h

  map_page-EndsAt :
      (virt phys : ℕ) (kernel read_only global : Bool) (s : VirtMem)
      → EndsAt v s
      → OnSome (EndsAt v) (map_page translate virt phys kernel read_only global s)
  unfolding map_page
  map_page-EndsAt virt phys kernel read_only global s h =
      bind-OnSome_any (EndsAt v) (load_word translate (dir_entry (dir_index virt)) s) _ (λ e.
        bind-OnSome (EndsAt v) (EndsAt v)
          (if is_present e then some s else add_table translate (dir_index virt) kernel s) _
          (checked-EndsAt (is_present e) (dir_index virt) kernel s h)
          (store_word-EndsAt (table_entry (dir_index virt) (table_index virt))
            (page_table_entry phys (flags (not read_only) (not kernel) false) global)))

  map_pages-EndsAt :
      (left curr virt phys : ℕ) (kernel read_only global : Bool) (s : VirtMem)
      → EndsAt v s
      → OnSome (EndsAt v) (map_pages translate left curr virt phys kernel read_only global s)
  unfolding map_pages
  map_pages-EndsAt zero curr virt phys kernel read_only global s h = h
  map_pages-EndsAt (suc left) curr virt phys kernel read_only global s h =
      bind-OnSome (EndsAt v) (EndsAt v)
        (map_page translate (add32 virt (mul32 curr page_size)) (add32 phys (mul32 curr page_size))
          kernel read_only global s)
        _
        (map_page-EndsAt (add32 virt (mul32 curr page_size)) (add32 phys (mul32 curr page_size))
          kernel read_only global s h)
        (map_pages-EndsAt left (curr + 1) virt phys kernel read_only global)

  range_loop-EndsAt :
      (fuel curr_virt virt_end phys : ℕ) (kernel read_only global : Bool) (s : VirtMem)
      → EndsAt v s
      → OnSome
          (EndsAt v)
          (run_result (range_loop translate fuel curr_virt virt_end phys kernel read_only global s))
  unfolding range_loop
  range_loop-EndsAt zero curr_virt virt_end phys kernel read_only global s h = tt
  range_loop-EndsAt (suc fuel) curr_virt virt_end phys kernel read_only global s h =
      elim (Bool-cases (ltb curr_virt virt_end)) [
        | inl p ↦
            rw
              (
                p,
                run_result-go_on (map_page translate curr_virt phys kernel read_only global s)
                    (λ next.
                      range_loop translate fuel (add32 curr_virt page_size) virt_end
                        (add32 phys page_size) kernel read_only global next),
              )
              (bind-OnSome (EndsAt v) (EndsAt v)
                (map_page translate curr_virt phys kernel read_only global s) _
                (map_page-EndsAt curr_virt phys kernel read_only global s h)
                (range_loop-EndsAt fuel (add32 curr_virt page_size) virt_end (add32 phys page_size)
                  kernel read_only global))
        | inr p ↦ rw p h
      ]

  pub map_count-EndsAt :
      (virt phys count : ℕ) (kernel read_only global : Bool) (s : VirtMem)
      → EndsAt v s
      → OnSome
          (λ (r : ℕ × VirtMem). EndsAt v r.1)
          (map_count translate virt phys count kernel read_only global s)
  unfolding map_count
  map_count-EndsAt virt phys count kernel read_only global s h =
      bind-OnSome (EndsAt v) (λ r. EndsAt v r.1)
        (map_pages translate count 0 virt phys kernel read_only global s) _
        (map_pages-EndsAt count 0 virt phys kernel read_only global s h) (λ _ e. e)

  pub map_range-EndsAt :
      (virt_start virt_end phys : ℕ) (kernel read_only global : Bool) (s : VirtMem)
      → EndsAt v s
      → OnSome
          (λ (r : ℕ × VirtMem). EndsAt v r.1)
          (map_range translate virt_start virt_end phys kernel read_only global s)
  unfolding map_range
  map_range-EndsAt virt_start virt_end phys kernel read_only global s h =
      bind-OnSome (EndsAt v) (λ r. EndsAt v r.1)
        (run_result (
          range_loop translate ((virt_end - virt_start) / page_size + 2) virt_start virt_end phys
            kernel read_only global s))
        _
        (range_loop-EndsAt ((virt_end - virt_start) / page_size + 2) virt_start virt_end phys kernel
          read_only global s h)
        (λ _ e. e)
