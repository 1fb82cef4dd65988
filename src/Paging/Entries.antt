-- ===== src/Paging/Entries.antt =====
-- The entries that the constructors make, read back by the getters.
use danaos.Prelude.{
  ℕ, ◌-◌, ◌*◌, ◌^◌, ◌<◌, ◌≡◌, ◌⊎◌, ◌∙◌, ap, refl, sym, arith, bit, bit_and, bit_or, max, Bool, true,
  false, bit-bit_or, bit-bit_and, bit-pow, zero-bit, if◌then◌else◌, ◌==◌,
}
use danaos.Fields.{of_bool, get_bit, set_bit}
use danaos.Fields.Laws.{shifted-bit, get_bit-eq-bit, get_bit-set_bit, get_bit-set_bit_other}
use danaos.Paging.{
  Flags, flag_bits, page_table_entry, is_present, is_read_write, is_user, is_write_through,
  is_cache_disabled, is_global, frame_mask, is_accessed, is_dirty, is_size_4mb, set_size_4mb,
  set_size_4kb,
}

-- The bit `k` of a flag that stands at `j`.
abbrev pub flag_at : Bool → ℕ → ℕ → ℕ
flag_at b j k = if j == k then of_bool b else 0

pub flag-bit : (b : Bool) (j k : ℕ) → bit (of_bool b * 2 ^ j) k ≡ flag_at b j k
flag-bit true j k = let one : 1 * 2 ^ j ≡ 2 ^ j = omega arith in rw one (bit-pow j k)
flag-bit false j k = let none : 0 * 2 ^ j ≡ 0 = omega arith in rw none (zero-bit k ∙ ground arith)

pub flag_bits-bit :
    (f : Flags) (k : ℕ)
    → bit (flag_bits f) k
      ≡ max
          (max
            (max (max (flag_at f.present 0 k) (flag_at f.rw_flag 1 k)) (flag_at f.user 2 k))
            (flag_at f.wt 3 k))
          (flag_at f.cd 4 k)
flag_bits-bit f k =
    let plain : of_bool f.present * 2 ^ 0 ≡ of_bool f.present = omega arith in
    let present : bit (of_bool f.present) k ≡ flag_at f.present 0 k =
      ap (λ (t : ℕ). bit t k) (sym plain) ∙ flag-bit f.present 0 k in
    bit-bit_or
      (bit_or (bit_or (bit_or (of_bool f.present) (of_bool f.rw_flag * 2)) (of_bool f.user * 4))
        (of_bool f.wt * 8))
      (of_bool f.cd * 16) k
    ∙ rw
        (
          bit-bit_or,
          bit-bit_or,
          bit-bit_or,
          flag-bit f.rw_flag 1 k,
          flag-bit f.user 2 k,
          flag-bit f.wt 3 k,
          flag-bit f.cd 4 k,
          present,
        )
        refl

frame-bit : (a k : ℕ) → k < 12 → bit (bit_and a frame_mask) k ≡ 0
frame-bit a k l =
    let low : bit frame_mask k ≡ 0 = shifted-bit 12 (2 ^ 20 - 1) k ∙ ground arith in
    bit-bit_and a frame_mask k ∙ rw low (omega arith)

-- Every bit of an entry of a page table.
entry-bit :
    (phys k : ℕ) (f : Flags) (global : Bool)
    → bit (page_table_entry phys f global) k
      ≡ max (max (bit (flag_bits f) k) (flag_at global 8 k)) (bit (bit_and phys frame_mask) k)
unfolding page_table_entry
entry-bit phys k f global =
    bit-bit_or (bit_or (flag_bits f) (of_bool global * 256)) (bit_and phys frame_mask) k
    ∙ rw (bit-bit_or (flag_bits f) (of_bool global * 256) k, flag-bit global 8 k) refl

read_back :
    (phys k : ℕ) (f : Flags) (global b : Bool)
    → k < 12
    → max (bit (flag_bits f) k) (flag_at global 8 k) ≡ of_bool b
    → get_bit 32 (page_table_entry phys f global) k ≡ b
read_back phys k f global b l e =
    get_bit-eq-bit 32 (page_table_entry phys f global) k (omega arith)
    ∙ ap (λ (t : ℕ). t == 1)
        (entry-bit phys k f global ∙ rw (frame-bit phys k l) (omega (arith, e)))
    ∙ test b
  where
    test : (v : Bool) → (of_bool v == 1) ≡ v
    test true = refl
    test false = refl

-- An entry of a page table has the flags that it is made with.
pub page_table_entry_lem :
    (phys : ℕ) (f : Flags) (global : Bool)
    → (is_present (page_table_entry phys f global) ≡ f.present)
      × (is_read_write (page_table_entry phys f global) ≡ f.rw_flag)
      × (is_user (page_table_entry phys f global) ≡ f.user)
      × (is_write_through (page_table_entry phys f global) ≡ f.wt)
      × (is_cache_disabled (page_table_entry phys f global) ≡ f.cd)
      × (is_global (page_table_entry phys f global) ≡ global)
page_table_entry_lem phys f global = (
  read_back phys 0 f global f.present (omega arith) (rw (flag_bits-bit f 0) (omega arith)),
  read_back phys 1 f global f.rw_flag (omega arith) (rw (flag_bits-bit f 1) (omega arith)),
  read_back phys 2 f global f.user (omega arith) (rw (flag_bits-bit f 2) (omega arith)),
  read_back phys 3 f global f.wt (omega arith) (rw (flag_bits-bit f 3) (omega arith)),
  read_back phys 4 f global f.cd (omega arith) (rw (flag_bits-bit f 4) (omega arith)),
  read_back phys 8 f global global (omega arith) (rw (flag_bits-bit f 8) (omega arith)),
)

-- `set_size_4mb` sets the size flag, clears the flags of a page of 4 MB, and leaves those that every
-- entry has; `set_size_4kb` clears the size flag again.
pub set_size_4mb_lem :
    (raw : ℕ)
    → (is_size_4mb (set_size_4mb raw) ≡ true)
      × (is_accessed (set_size_4mb raw) ≡ false)
      × (is_dirty (set_size_4mb raw) ≡ false)
      × (is_global (set_size_4mb raw) ≡ false)
      × (is_present (set_size_4mb raw) ≡ is_present raw)
      × (is_size_4mb (set_size_4kb (set_size_4mb raw)) ≡ false)
set_size_4mb_lem raw =
    let a = set_bit 32 raw 7 true in
    let b = set_bit 32 a 5 false in
    let c = set_bit 32 b 6 false in
    (
      keep c 8 7 false (omega arith) (omega arith) (omega arith)
          ∙ keep b 6 7 false (omega arith) (omega arith) (omega arith)
          ∙ keep a 5 7 false (omega arith) (omega arith) (omega arith)
          ∙ get_bit-set_bit 32 raw 7 true (omega arith),
      keep c 8 5 false (omega arith) (omega arith) (omega arith)
          ∙ keep b 6 5 false (omega arith) (omega arith) (omega arith)
          ∙ get_bit-set_bit 32 a 5 false (omega arith),
      keep c 8 6 false (omega arith) (omega arith) (omega arith)
          ∙ get_bit-set_bit 32 b 6 false (omega arith),
      get_bit-set_bit 32 c 8 false (omega arith),
      keep c 8 0 false (omega arith) (omega arith) (omega arith)
          ∙ keep b 6 0 false (omega arith) (omega arith) (omega arith)
          ∙ keep a 5 0 false (omega arith) (omega arith) (omega arith)
          ∙ keep raw 7 0 true (omega arith) (omega arith) (omega arith),
      get_bit-set_bit 32 (set_size_4mb raw) 7 false (omega arith),
    )
  where
    keep :
        (word pos k : ℕ) (v : Bool)
        → pos < 32
        → k < 32
        → (k < pos) ⊎ (pos < k)
        → get_bit 32 (set_bit 32 word pos v) k ≡ get_bit 32 word k
    keep word pos k v l m n = get_bit-set_bit_other 32 word pos k v l m n
