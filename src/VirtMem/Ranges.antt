-- ===== src/VirtMem/Ranges.antt =====
-- The mapping functions for several pages: `map` with a count, and `map_range`.
use danaos.Prelude.{
  ℕ, zero, suc, ◌+◌, ◌-◌, ◌*◌, ◌/◌, ◌%◌, ◌^◌, ◌≤◌, ◌<◌, ◌≡◌, ◌∙◌, ap, refl, arith, Bool, true,
  false, Option, none, some, ◌>>=◌, ltb, add32, mul32,
}
use mathlib.Core.Path.{fun_ext}
use danaos.VirtMem.{
  Translate, VirtMem, map, map_page, map_pages, map_count, Run, out_of_fuel, go_on, run_result,
  range_loop, map_range,
}

-- The number of pages from `from` up to `to`.
abbrev pub pages_between : ℕ → ℕ → ℕ
pages_between from to = (to - from + 4095) / 4096

pub run_result-go_on :
    (m : Option VirtMem) (k : VirtMem → Run)
    → run_result (go_on m k) ≡ (m >>= (λ s. run_result (k s)))
run_result-go_on none k = refl
run_result-go_on (some s) k = refl

module _ (translate : Translate) (virt phys : ℕ) (kernel read_only global : Bool) where
  range_loop-map_pages :
      (left fuel curr virt_end : ℕ) (s : VirtMem)
      → left ≡ pages_between (virt + curr * 4096) virt_end
      → left < fuel
      → virt + curr * 4096 < 2 ^ 32
      → virt_end ≤ 2 ^ 32 - 4096
      → run_result (
          range_loop translate fuel
            (add32 virt (mul32 curr 4096))
            virt_end
            (add32 phys (mul32 curr 4096))
            kernel
            read_only
            global
            s)
        ≡ map_pages translate left curr virt phys kernel read_only global s
  unfolding range_loop map_pages
  range_loop-map_pages zero zero curr virt_end s e f h l = absurd (omega arith)
  range_loop-map_pages (suc left) zero curr virt_end s e f h l = absurd (omega arith)
  range_loop-map_pages zero (suc fuel) curr virt_end s e f h l =
      let stop : ltb (add32 virt (mul32 curr 4096)) virt_end ≡ false = ground arith in rw stop refl
  range_loop-map_pages (suc left) (suc fuel) curr virt_end s e f h l =
      let go : ltb (add32 virt (mul32 curr 4096)) virt_end ≡ true = ground arith in
      let next_virt : add32 (add32 virt (mul32 curr 4096)) 4096
          ≡ add32 virt (mul32 (curr + 1) 4096) =
        omega arith in
      let next_phys : add32 (add32 phys (mul32 curr 4096)) 4096
          ≡ add32 phys (mul32 (curr + 1) 4096) =
        omega arith in
      rw (go, next_virt, next_phys)
        (run_result-go_on
            (map_page translate (add32 virt (mul32 curr 4096)) (add32 phys (mul32 curr 4096)) kernel
              read_only global s)
            (λ next.
              range_loop translate fuel (add32 virt (mul32 (curr + 1) 4096)) virt_end
                (add32 phys (mul32 (curr + 1) 4096)) kernel read_only global next)
          ∙ ap
              (λ (k : VirtMem → Option VirtMem).
                map_page translate (add32 virt (mul32 curr 4096)) (add32 phys (mul32 curr 4096))
                  kernel read_only global s
                >>= k)
              (fun_ext (λ next.
                range_loop-map_pages left fuel (curr + 1) virt_end next (omega arith) (omega arith)
                  (omega arith) (omega arith))))

-- For a range of 32-bit addresses that ends below the last page, and for 32-bit physical addresses,
-- `map_range` does what `map` does with the number of pages from its start up to its end, and its
-- fuel is enough: it ends where `map` does.
pub map_range-map_count :
    (translate : Translate) (virt_start virt_end phys : ℕ) (kernel read_only global : Bool)
    (s : VirtMem)
    → virt_start < 2 ^ 32
    → virt_end ≤ 2 ^ 32 - 4096
    → phys < 2 ^ 32
    → map_range translate virt_start virt_end phys kernel read_only global s
      ≡ map_count translate virt_start phys
          (pages_between virt_start virt_end)
          kernel
          read_only
          global
          s
unfolding map_range map_count
map_range-map_count translate virt_start virt_end phys kernel read_only global s v l p =
    let start : (a : ℕ) → a < 2 ^ 32 → add32 a (mul32 0 4096) ≡ a = λ a h. omega arith in
    let loop =
      range_loop-map_pages translate virt_start phys kernel read_only global
        (pages_between virt_start virt_end) ((virt_end - virt_start) / 4096 + 2) 0 virt_end s
        (omega arith) (omega arith) (omega arith) l in
    ap (λ (r : Option VirtMem). r >>= (λ next. some (virt_start, next)))
      (rw (start virt_start v, start phys p) at loop)

-- A range that ends inside the last page has no end for `map_range`: from a page boundary on the loop
-- goes around the address space, and no number of rounds is enough. The conditions on the states in
-- between are those under which no round ends in a page fault: a property of the state that every round
-- for the start of a page keeps.
pub range_loop_endless :
    (translate : Translate) (Mappable : VirtMem → Type 0) (fuel curr_virt virt_end phys : ℕ)
    (kernel read_only global : Bool) (s : VirtMem)
    → ((virt to : ℕ) (t : VirtMem)
        → virt % 4096 ≡ 0
        → Mappable t
        → (next : VirtMem) × (map_page translate virt to kernel read_only global t ≡ some next)
          × Mappable next)
    → Mappable s
    → curr_virt % 4096 ≡ 0
    → curr_virt < 2 ^ 32
    → 2 ^ 32 - 4096 < virt_end
    → range_loop translate fuel curr_virt virt_end phys kernel read_only global s ≡ out_of_fuel
unfolding range_loop
range_loop_endless translate Mappable zero curr_virt virt_end phys kernel read_only global s maps m
      a c l =
    refl
range_loop_endless translate Mappable (suc fuel) curr_virt virt_end phys kernel read_only global s
      maps m a c l =
    let go : ltb curr_virt virt_end ≡ true = ground arith in
    let (next, e, m') = maps curr_virt phys s a m in
    rw (go, e)
      (range_loop_endless translate Mappable fuel (add32 curr_virt 4096) virt_end (add32 phys 4096)
        kernel read_only global next maps m' (omega arith) (omega arith) l)

-- With the count 1 the second `map` is the first.
pub map_count_one :
    (translate : Translate) (virt phys : ℕ) (kernel read_only global : Bool) (s : VirtMem)
    → virt < 2 ^ 32
    → phys < 2 ^ 32
    → map_count translate virt phys 1 kernel read_only global s
      ≡ map translate virt phys kernel read_only global s
unfolding map map_count map_pages
map_count_one translate virt phys kernel read_only global s v p =
    let start : (a : ℕ) → a < 2 ^ 32 → add32 a (mul32 0 4096) ≡ a = λ a h. omega arith in
    rw (start virt v, start phys p) (once (map_page translate virt phys kernel read_only global s))
  where
    with_virt : VirtMem → Option (ℕ × VirtMem)
    with_virt next = some (virt, next)

    once : (m : Option VirtMem) → ((m >>= (λ next. some next)) >>= with_virt) ≡ (m >>= with_virt)
    once none = refl
    once (some next) = refl
