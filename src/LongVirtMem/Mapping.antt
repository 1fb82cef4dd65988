-- ===== src/LongVirtMem/Mapping.antt =====
-- `map` where the tables of the upper levels are there.
use danaos.Prelude.{
  ℕ, ◌+◌, ◌*◌, ◌/◌, ◌%◌, ◌^◌, ◌<◌, ◌≡◌, ◌≢◌, ◌∙◌, refl, arith, Bool, true, false, not, some,
  bit_and, bit_or, bit_or-lt, bit_or_step, update,
}
use danaos.Fields.{of_bool}
use danaos.Fields.Sums.{of_bool-lt, or_above, and_low, and_field, get_bit-div}
use danaos.LongPaging.{is_present}
use danaos.LongPaging.Places.{map_index, dir_ptr_index, dir_index, table_index}
use danaos.LongPaging.TableEntry.{page_table_entry}
use danaos.LongVirtMem.{
  Allocator, LongVirtMem, map_entry, dir_ptr_entry, dir_entry, load_word, store_word, check_level,
  map_page, map,
}
use danaos.LongVirtMem.Walk.{
  frame_of, entry_word, NamesTable, IsCanonical, IsMmu, WalksIn, IsMmu-WalksIn, IsSound,
  with_tlb-WalksIn, with_tlb_absent, IsRecursive, walk_by, map_entry-place, dir_ptr_entry-place,
  dir_entry-place, table_entry-place,
}
use danaos.Paging.{Flags, flag_bits}
use danaos.VirtMem.{Translate, flags}
use danaos.VirtMem.Mmu.{flag_bits-lt, Tlb, with_tlb}

-- The lowest flag of the entries that are made is the present flag.
flags-odd : (rw_flag user wt : Bool) → flag_bits (flags rw_flag user wt) % 2 ≡ 1
flags-odd rw_flag user wt =
    let one = bit_or 1 (of_bool rw_flag * 2) in
    let two = bit_or one (of_bool user * 4) in
    let three = bit_or two (of_bool wt * 8) in
    omega (
      arith,
      bit_or_step 1 (of_bool rw_flag * 2),
      bit_or_step one (of_bool user * 4),
      bit_or_step two (of_bool wt * 8),
      bit_or_step three 0,
    )

table_entry-sum :
    (phys : ℕ) (f : Flags) (global : Bool)
    → phys < 2 ^ 52
    → flag_bits f % 2 ≡ 1
    → (frame_of (page_table_entry phys f false global false) ≡ phys / 4096)
      × (is_present (page_table_entry phys f false global false) ≡ true)
unfolding page_table_entry
table_entry-sum phys f global l odd =
    let b = flag_bits-lt f in
    let g = of_bool-lt global in
    let low : ℕ = bit_or (bit_or (flag_bits f) 0) (of_bool global * 2 ^ 8) in
    let word : ℕ = low + phys / 4096 * 4096 in
    let small : low < 2 ^ 12 =
      bit_or-lt 12 (bit_or (flag_bits f) 0) (of_bool global * 2 ^ 8)
        (bit_or-lt 12 (flag_bits f) 0 (omega arith) (omega arith)) (omega arith) in
    let masked : bit_and phys 4503599627366400 ≡ phys / 4096 * 4096 =
      omega (arith, and_field 12 40 phys) in
    let sum : bit_or (bit_or low (bit_and phys 4503599627366400)) 0 ≡ word =
      rw (masked, or_above 12 low (phys / 4096) small)
        (or_above 63 word 0 (omega arith) ∙ omega arith) in
    let first : low % 2 ≡ 1 = omega (
      arith,
      bit_or_step (bit_or (flag_bits f) 0) (of_bool global * 2 ^ 8),
      bit_or_step (flag_bits f) 0,
    ) in
    (rw sum (omega arith), rw (sum, get_bit-div 64 word 0 (omega arith)) (ground arith))

module _ {ℓ} {F : Type ℓ} (phys_mem : Allocator F) (translate : Translate) where
  check_level_present :
      (entry place : ℕ) (make : ℕ → ℕ) (s : LongVirtMem F)
      → translate s.memory s.page_map_base entry ≡ some place
      → is_present (s.memory (place / 8)) ≡ true
      → check_level phys_mem translate entry make s ≡ some s
  unfolding check_level load_word
  check_level_present entry place make s h p = rw (h, p) refl

-- The tables of the upper levels for the address `virt`: the entries that name them.
pub record HasTables (memory : ℕ → ℕ) (map_frame virt e1 e2 e3 : ℕ) : Type 0 where
  pub first : entry_word memory map_frame (virt / 2 ^ 39 % 512) ≡ e1
  pub names_first : NamesTable e1
  pub second : entry_word memory (frame_of e1) (virt / 2 ^ 30 % 512) ≡ e2
  pub names_second : NamesTable e2
  pub third : entry_word memory (frame_of e2) (virt / 2 ^ 21 % 512) ≡ e3
  pub names_third : NamesTable e3

map_index-mod : (virt : ℕ) → map_index virt ≡ virt / 2 ^ 39 % 512
unfolding map_index
map_index-mod virt = and_low 9 (virt / 2 ^ 39)

dir_ptr_index-mod : (virt : ℕ) → dir_ptr_index virt ≡ virt / 2 ^ 30 % 512
unfolding dir_ptr_index
dir_ptr_index-mod virt = and_low 9 (virt / 2 ^ 30)

dir_index-mod : (virt : ℕ) → dir_index virt ≡ virt / 2 ^ 21 % 512
unfolding dir_index
dir_index-mod virt = and_low 9 (virt / 2 ^ 21)

table_index-mod : (virt : ℕ) → table_index virt ≡ virt / 2 ^ 12 % 512
unfolding table_index
table_index-mod virt = and_low 9 (virt / 2 ^ 12)

-- A word of the memory at a place in a frame.
word_at :
    (memory : ℕ → ℕ) (frame i e : ℕ)
    → entry_word memory frame i ≡ e
    → memory ((frame * 4096 + 8 * i) / 8) ≡ e
word_at memory frame i e w =
    let at : (frame * 4096 + 8 * i) / 8 ≡ frame * 512 + i = omega arith in rw at w

module _ {ℓ} {F : Type ℓ} (phys_mem : Allocator F) (translate : Translate) where
  map_page-table_entry :
      (s : LongVirtMem F) (map_frame virt phys e1 e2 e3 : ℕ) (kernel read_only global : Bool)
      → WalksIn translate s.memory map_frame
      → IsRecursive s.memory map_frame
      → s.page_map_base ≡ map_frame * 4096
      → HasTables s.memory map_frame virt e1 e2 e3
      → map_page phys_mem translate virt phys kernel read_only global s
        ≡ some (record s {
          memory =
              update s.memory (frame_of e3 * 512 + virt / 2 ^ 12 % 512) (
                page_table_entry phys
                  (flags (not read_only) (not kernel) false)
                  false
                  global
                  false);
        })
  unfolding map_page store_word
  map_page-table_entry s map_frame virt phys e1 e2 e3 kernel read_only global walks r base t =
      let upper : Flags = flags true (not kernel) false in
      let m : ℕ = virt / 2 ^ 39 % 512 in
      let p : ℕ = virt / 2 ^ 30 % 512 in
      let d : ℕ = virt / 2 ^ 21 % 512 in
      let k : ℕ = virt / 2 ^ 12 % 512 in
      let l1 : m < 512 = omega arith in
      let l2 : p < 512 = omega arith in
      let l3 : d < 512 = omega arith in
      let l4 : k < 512 = omega arith in
      let at : (frame_of e3 * 4096 + 8 * k) / 8 ≡ frame_of e3 * 512 + k = omega arith in
      let checked_1 = λ (make : ℕ → ℕ).
        check_level_present phys_mem translate (map_entry m) (map_frame * 4096 + 8 * m) make s
          (rw base (map_entry-place translate s.memory map_frame walks r m l1))
          (rw (word_at s.memory map_frame m e1 t.first) (t.names_first.0)) in
      let checked_2 = λ (make : ℕ → ℕ).
        check_level_present phys_mem translate (dir_ptr_entry m p) (frame_of e1 * 4096 + 8 * p) make
          s
          (rw base (
            dir_ptr_entry-place translate s.memory map_frame walks r m p e1 l1 l2 t.first
              t.names_first.0))
          (rw (word_at s.memory (frame_of e1) p e2 t.second) (t.names_second.0)) in
      let checked_3 = λ (make : ℕ → ℕ).
        check_level_present phys_mem translate (dir_entry m p d) (frame_of e2 * 4096 + 8 * d) make s
          (rw base (
            dir_entry-place translate s.memory map_frame walks r m p d e1 e2 l1 l2 l3 t.first
              t.names_first t.second t.names_second.0))
          (rw (word_at s.memory (frame_of e2) d e3 t.third) (t.names_third.0)) in
      rw
        (
          map_index-mod virt,
          dir_ptr_index-mod virt,
          dir_index-mod virt,
          table_index-mod virt,
          checked_1,
          checked_2,
          checked_3,
          base,
          table_entry-place translate s.memory map_frame walks r m p d k e1 e2 e3 l1 l2 l3 l4
              t.first t.names_first t.second t.names_second t.third t.names_third.0,
          at,
        )
        refl

-- Where the page map is recursive and the entries of the upper levels name tables for a canonical
-- address, whose page is not present in the page table, `map` writes one word, in that table. If it is
-- in another frame than the tables above it, a processor whose cache of translations holds what the
-- tables said before then translates the address to the frame of the physical address, which has 52
-- bits.
pub long_map_lem {ℓ} :
    {F : Type ℓ} (phys_mem : Allocator F) (translate : Translate) (tlb : Tlb) (s : LongVirtMem F)
    (map_frame virt phys e1 e2 e3 : ℕ) (kernel read_only global : Bool)
    → IsMmu translate
    → IsSound tlb s.memory map_frame
    → IsRecursive s.memory map_frame
    → s.page_map_base ≡ map_frame * 4096
    → IsCanonical virt
    → phys < 2 ^ 52
    → HasTables s.memory map_frame virt e1 e2 e3
    → is_present (entry_word s.memory (frame_of e3) (virt / 2 ^ 12 % 512)) ≡ false
    → frame_of e3 ≢ map_frame
    → frame_of e3 ≢ frame_of e1
    → frame_of e3 ≢ frame_of e2
    → (memory : ℕ → ℕ) × (map phys_mem (with_tlb tlb translate) virt phys kernel read_only global s
        ≡ some (virt, record s { memory = memory }))
      × ((i : ℕ) → i ≢ frame_of e3 * 512 + virt / 2 ^ 12 % 512 → memory i ≡ s.memory i)
      × (with_tlb tlb translate memory s.page_map_base virt
          ≡ some (phys / 4096 * 4096 + virt % 4096))
unfolding map
long_map_lem phys_mem translate tlb s map_frame virt phys e1 e2 e3 kernel read_only global mmu sound
      r base c l t q a1 a2 a3 =
    let page : ℕ =
      page_table_entry phys (flags (not read_only) (not kernel) false) false global false in
    let place : ℕ = frame_of e3 * 512 + virt / 2 ^ 12 % 512 in
    let memory : ℕ → ℕ = update s.memory place page in
    let e =
      table_entry-sum phys (flags (not read_only) (not kernel) false) global l
        (flags-odd (not read_only) (not kernel) false) in
    let other : (frame i : ℕ)
        → i < 512
        → frame_of e3 ≢ frame
        → entry_word memory frame i ≡ entry_word s.memory frame i =
      λ frame i q a. ground arith in
    let written : entry_word memory (frame_of e3) (virt / 2 ^ 12 % 512) ≡ page = ground arith in
    (
      memory,
      rw
          (map_page-table_entry phys_mem (with_tlb tlb translate) s map_frame virt phys e1 e2 e3
            kernel read_only global (with_tlb-WalksIn translate tlb s.memory map_frame mmu sound) r
            base t)
          refl,
      λ i d. ground arith,
      with_tlb_absent translate tlb s.memory memory map_frame s.page_map_base virt e1 e2 e3
            (entry_word s.memory (frame_of e3) (virt / 2 ^ 12 % 512)) sound c t.first t.names_first
            t.second t.names_second t.third t.names_third refl q
          ∙ rw base (
              walk_by translate memory map_frame virt (virt / 2 ^ 39 % 512) (virt / 2 ^ 30 % 512)
                (virt / 2 ^ 21 % 512) (virt / 2 ^ 12 % 512) e1 e2 e3 page
                (IsMmu-WalksIn translate memory map_frame mmu) c (refl, refl, refl, refl)
                (other map_frame (virt / 2 ^ 39 % 512) (omega arith) a1 ∙ t.first) t.names_first
                (other (frame_of e1) (virt / 2 ^ 30 % 512) (omega arith) a2 ∙ t.second)
                t.names_second
                (other (frame_of e2) (virt / 2 ^ 21 % 512) (omega arith) a3 ∙ t.third) t.names_third
                written e.1
              ∙ rw (e.0) refl),
    )
