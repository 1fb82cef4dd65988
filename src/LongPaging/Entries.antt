-- ===== src/LongPaging/Entries.antt =====
-- The flags of the entries that the constructors make, and what `set_size_1gb` leaves.
use danaos.Prelude.{
  ℕ, ◌*◌, ◌^◌, ◌<◌, ◌≡◌, ◌⊎◌, inl, inr, ◌∙◌, ap, refl, arith, bit, bit_and, bit_or, max, Bool, true,
  false, bit-bit_or, bit-bit_and, ◌==◌,
}
use danaos.Fields.{of_bool, get_bit, set_bit}
use danaos.Fields.Laws.{shifted-bit, get_bit-eq-bit, get_bit-set_bit, get_bit-set_bit_other}
use danaos.Fields.Sums.{of_bool-test}
use danaos.Paging.{Flags, flag_bits}
use danaos.Paging.Entries.{flag_at, flag-bit, flag_bits-bit}
use danaos.LongPaging.{
  page_dir_ptr_entry_1gb, is_present, is_read_write, is_user, is_write_through, is_cache_disabled,
  is_global, get_attr_table, is_no_exec, is_size_2mb, set_size_1gb,
}

-- Every bit of an entry for a page of 1 GB below the address.
entry-bit :
    (phys k : ℕ) (f : Flags) (attr_table global no_exec : Bool)
    → bit (page_dir_ptr_entry_1gb phys f attr_table global no_exec) k
      ≡ max
          (max
            (max (max (bit (flag_bits f) k) (flag_at attr_table 12 k)) (flag_at global 8 k))
            (bit (bit_and phys 4503598553628672) k))
          (flag_at no_exec 63 k)
unfolding page_dir_ptr_entry_1gb
entry-bit phys k f attr_table global no_exec =
    bit-bit_or
      (bit_or (bit_or (bit_or (flag_bits f) (of_bool attr_table * 2 ^ 12)) (of_bool global * 2 ^ 8))
        (bit_and phys 4503598553628672))
      (of_bool no_exec * 2 ^ 63) k
    ∙ rw
        (
          bit-bit_or,
          bit-bit_or,
          bit-bit_or,
          flag-bit attr_table 12 k,
          flag-bit global 8 k,
          flag-bit no_exec 63 k,
        )
        refl

address-bit : (a k : ℕ) → k < 30 ⊎ (k ≡ 63) → bit (bit_and a 4503598553628672) k ≡ 0
address-bit a k l =
    let low : bit 4503598553628672 k ≡ 0 = elim l [
      | inl p ↦ shifted-bit 30 4194303 k ∙ ground arith
      | inr e ↦ rw e refl
    ] in
    bit-bit_and a 4503598553628672 k ∙ rw low (omega arith)

read_back :
    (phys k : ℕ) (f : Flags) (attr_table global no_exec b : Bool)
    → k < 30 ⊎ (k ≡ 63)
    → max
        (max (max (bit (flag_bits f) k) (flag_at attr_table 12 k)) (flag_at global 8 k))
        (flag_at no_exec 63 k)
      ≡ of_bool b
    → get_bit 64 (page_dir_ptr_entry_1gb phys f attr_table global no_exec) k ≡ b
read_back phys k f attr_table global no_exec b l e =
    get_bit-eq-bit 64 (page_dir_ptr_entry_1gb phys f attr_table global no_exec) k (omega (arith, l))
    ∙ ap (λ (t : ℕ). t == 1)
        (entry-bit phys k f attr_table global no_exec
          ∙ rw (address-bit phys k l) (omega (arith, e)))
    ∙ of_bool-test b

-- An entry for a page of 1 GB has the flags that it is made with, but not the flag of such a page:
-- it reads as the entry of a page directory.
pub page_dir_ptr_entry_1gb_lem :
    (phys : ℕ) (f : Flags) (attr_table global no_exec : Bool)
    → let e = page_dir_ptr_entry_1gb phys f attr_table global no_exec in
      (is_present e ≡ f.present)
      × (is_read_write e ≡ f.rw_flag)
      × (is_user e ≡ f.user)
      × (is_write_through e ≡ f.wt)
      × (is_cache_disabled e ≡ f.cd)
      × (is_global e ≡ global)
      × (get_attr_table e ≡ attr_table)
      × (is_no_exec e ≡ no_exec)
      × (is_size_2mb e ≡ false)
page_dir_ptr_entry_1gb_lem phys f a g n = (
  read_back phys 0 f a g n f.present (omega arith) (rw (flag_bits-bit f 0) (omega arith)),
  read_back phys 1 f a g n f.rw_flag (omega arith) (rw (flag_bits-bit f 1) (omega arith)),
  read_back phys 2 f a g n f.user (omega arith) (rw (flag_bits-bit f 2) (omega arith)),
  read_back phys 3 f a g n f.wt (omega arith) (rw (flag_bits-bit f 3) (omega arith)),
  read_back phys 4 f a g n f.cd (omega arith) (rw (flag_bits-bit f 4) (omega arith)),
  read_back phys 8 f a g n g (omega arith) (rw (flag_bits-bit f 8) (omega arith)),
  read_back phys 12 f a g n a (omega arith) (rw (flag_bits-bit f 12) (omega arith)),
  read_back phys 63 f a g n n (omega arith) (rw (flag_bits-bit f 63) (omega arith)),
  read_back phys 7 f a g n false (omega arith) (rw (flag_bits-bit f 7) (omega arith)),
)

-- `set_size_1gb` sets the size flag and clears the flags behind it, but it also sets the bit 13, one
-- of those that have to be 0 in an entry for a page of 1 GB.
pub set_size_1gb_lem :
    (raw : ℕ)
    → (is_size_2mb (set_size_1gb raw) ≡ true)
      × (is_global (set_size_1gb raw) ≡ false)
      × (get_attr_table (set_size_1gb raw) ≡ false)
      × (get_bit 64 (set_size_1gb raw) 13 ≡ true)
unfolding set_size_1gb
set_size_1gb_lem raw =
    let a = set_bit 64 raw 7 true in
    let b = set_bit 64 a 13 true in
    let c = set_bit 64 b 5 false in
    let d = set_bit 64 c 6 false in
    let e = set_bit 64 d 8 false in
    let keep : (word pos k : ℕ) (v : Bool)
        → pos < 64
        → k < 64
        → (k < pos) ⊎ (pos < k)
        → get_bit 64 (set_bit 64 word pos v) k ≡ get_bit 64 word k =
      λ word pos k v l m n. get_bit-set_bit_other 64 word pos k v l m n in
    (
      keep e 12 7 false (omega arith) (omega arith) (omega arith)
          ∙ keep d 8 7 false (omega arith) (omega arith) (omega arith)
          ∙ keep c 6 7 false (omega arith) (omega arith) (omega arith)
          ∙ keep b 5 7 false (omega arith) (omega arith) (omega arith)
          ∙ keep a 13 7 true (omega arith) (omega arith) (omega arith)
          ∙ get_bit-set_bit 64 raw 7 true (omega arith),
      keep e 12 8 false (omega arith) (omega arith) (omega arith)
          ∙ get_bit-set_bit 64 d 8 false (omega arith),
      get_bit-set_bit 64 e 12 false (omega arith),
      keep e 12 13 false (omega arith) (omega arith) (omega arith)
          ∙ keep d 8 13 false (omega arith) (omega arith) (omega arith)
          ∙ keep c 6 13 false (omega arith) (omega arith) (omega arith)
          ∙ keep b 5 13 false (omega arith) (omega arith) (omega arith)
          ∙ get_bit-set_bit 64 a 13 true (omega arith),
    )
