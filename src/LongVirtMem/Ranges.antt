-- ===== src/LongVirtMem/Ranges.antt =====
-- The mapping functions of the x86_64 kernel for several pages: `map` with a count, and `map_range`.
use danaos.Prelude.{
  ℕ, zero, suc, ◌+◌, ◌-◌, ◌*◌, ◌/◌, ◌^◌, ◌≤◌, ◌<◌, ◌≡◌, ap, refl, arith, Bool, true, false, Option,
  some, ◌>>=◌, ltb,
}
use mathlib.Core.Path.{fun_ext}
use danaos.LongVirtMem.{
  Allocator, LongVirtMem, add64, map_page, map_pages, map_count, range_loop, map_range,
}
use danaos.VirtMem.{Translate}
use danaos.VirtMem.Ranges.{pages_between}

module _ {ℓ} {F : Type ℓ} (phys_mem : Allocator F) (translate : Translate) (virt phys : ℕ)
    (kernel read_only global : Bool) where
  range_loop-map_pages :
      (left fuel curr virt_end : ℕ) (s : LongVirtMem F)
      → left ≡ pages_between (virt + curr * 4096) virt_end
      → left < fuel
      → virt + curr * 4096 < 2 ^ 64
      → virt_end ≤ 2 ^ 64 - 4096
      → range_loop phys_mem translate fuel
          (add64 virt (curr * 4096))
          virt_end
          (add64 phys (curr * 4096))
          kernel
          read_only
          global
          s
        ≡ map_pages phys_mem translate left curr virt phys kernel read_only global s
  unfolding range_loop map_pages
  range_loop-map_pages zero zero curr virt_end s e f h l = absurd (omega arith)
  range_loop-map_pages (suc left) zero curr virt_end s e f h l = absurd (omega arith)
  range_loop-map_pages zero (suc fuel) curr virt_end s e f h l =
      let stop : ltb (add64 virt (curr * 4096)) virt_end ≡ false = ground arith in rw stop refl
  range_loop-map_pages (suc left) (suc fuel) curr virt_end s e f h l =
      let go : ltb (add64 virt (curr * 4096)) virt_end ≡ true = ground arith in
      let next_virt : add64 (add64 virt (curr * 4096)) 4096 ≡ add64 virt ((curr + 1) * 4096) =
        omega arith in
      let next_phys : add64 (add64 phys (curr * 4096)) 4096 ≡ add64 phys ((curr + 1) * 4096) =
        omega arith in
      rw (go, next_virt, next_phys)
        (ap
          (λ (k : LongVirtMem F → Option (LongVirtMem F)).
            map_page phys_mem translate (add64 virt (curr * 4096)) (add64 phys (curr * 4096)) kernel
              read_only global s
            >>= k)
          (fun_ext (λ next.
            range_loop-map_pages left fuel (curr + 1) virt_end next (omega arith) (omega arith)
              (omega arith) (omega arith))))

-- For a range of 64-bit addresses that ends below the last page, and for 64-bit physical addresses,
-- `map_range` does what `map` does with the number of pages from its start up to its end, and its
-- fuel is enough: it ends where `map` does.
pub long_map_range-map_count {ℓ} :
    {F : Type ℓ} (phys_mem : Allocator F) (translate : Translate) (virt_start virt_end phys : ℕ)
    (kernel read_only global : Bool) (s : LongVirtMem F)
    → virt_start < 2 ^ 64
    → virt_end ≤ 2 ^ 64 - 4096
    → phys < 2 ^ 64
    → map_range phys_mem translate virt_start virt_end phys kernel read_only global s
      ≡ map_count phys_mem translate virt_start phys
          (pages_between virt_start virt_end)
          kernel
          read_only
          global
          s
unfolding map_range map_count
long_map_range-map_count {F = F} phys_mem translate virt_start virt_end phys kernel read_only global
      s v l p =
    let start : (a : ℕ) → a < 2 ^ 64 → add64 a (0 * 4096) ≡ a = λ a h. omega arith in
    let loop =
      range_loop-map_pages phys_mem translate virt_start phys kernel read_only global
        (pages_between virt_start virt_end) ((virt_end - virt_start) / 4096 + 2) 0 virt_end s
        (omega arith) (omega arith) (omega arith) l in
    ap (λ (r : Option (LongVirtMem F)). r >>= (λ next. some (virt_start, next)))
      (rw (start virt_start v, start phys p) at loop)
