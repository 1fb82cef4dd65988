-- ===== src/Gdt/Setters.antt =====
-- The setters of the two fields of an entry that are split.
use danaos.Prelude.{
  ℕ, ◌+◌, ◌*◌, ◌/◌, ◌%◌, ◌^◌, ◌<◌, ◌≡◌, ◌∙◌, ap, arith, refl, bit_or-lt, bit_and, bit_or, false,
}
use danaos.Fields.Sums.{or_above, or_split, or_shift, and_split, and_low, and_field, get_bit-div}
use danaos.Gdt.{is_present, get_base_address, get_limit, set_base_address, set_limit}
use danaos.Gdt.Entries.{get_base_address-sum, get_limit-sum}

-- The masks, by their fields.
kept_limit : (raw : ℕ) → bit_and raw 4222124650725375 ≡ raw % 2 ^ 16 + raw / 2 ^ 48 % 16 * 2 ^ 48
kept_limit raw =
    let word : raw ≡ raw % 2 ^ 48 + raw / 2 ^ 48 * 2 ^ 48 = omega arith in
    ap (λ (t : ℕ). bit_and t 4222124650725375) word
    ∙ and_split 48 (raw % 2 ^ 48) (raw / 2 ^ 48) 65535 15 (omega arith) (omega arith)
    ∙ rw (and_low 16 (raw % 2 ^ 48), and_low 4 (raw / 2 ^ 48)) (omega arith)

kept_base :
    (raw : ℕ)
    → bit_and raw 18374687579183185920
      ≡ raw / 2 ^ 16 % 2 ^ 24 * 2 ^ 16 + raw / 2 ^ 56 % 256 * 2 ^ 56
kept_base raw =
    let word : raw ≡ raw % 2 ^ 56 + raw / 2 ^ 56 * 2 ^ 56 = omega arith in
    ap (λ (t : ℕ). bit_and t 18374687579183185920) word
    ∙ and_split 56 (raw % 2 ^ 56) (raw / 2 ^ 56) 1099511562240 255 (omega arith) (omega arith)
    ∙ rw (and_field 16 24 (raw % 2 ^ 56), and_low 8 (raw / 2 ^ 56)) (omega arith)

-- The value that the setters leave: every bit outside of the field is 0.
set_limit-sum :
    (raw limit : ℕ)
    → set_limit raw limit
      ≡ bit_or (raw % 2 ^ 16) (limit % 2 ^ 16)
        + bit_or (raw / 2 ^ 48 % 16) (limit / 2 ^ 16 % 16) * 2 ^ 48
unfolding set_limit
set_limit-sum raw limit =
    let high : bit_and limit 983040 * 2 ^ 32 ≡ limit / 2 ^ 16 % 16 * 2 ^ 48 =
      omega (arith, and_field 16 4 limit) in
    rw
      (
        kept_limit raw,
        and_low 16 limit,
        high,
        or_above 48 (limit % 2 ^ 16) (limit / 2 ^ 16 % 16) (omega arith),
      )
      (or_split 48 (raw % 2 ^ 16) (raw / 2 ^ 48 % 16) (limit % 2 ^ 16) (limit / 2 ^ 16 % 16)
        (omega arith) (omega arith))

set_base_address-sum :
    (raw addr : ℕ)
    → set_base_address raw addr
      ≡ bit_or (raw / 2 ^ 16 % 2 ^ 24) (addr % 2 ^ 24) * 2 ^ 16
        + bit_or (raw / 2 ^ 56 % 256) (addr / 2 ^ 24 % 256) * 2 ^ 56
unfolding set_base_address
set_base_address-sum raw addr =
    let high : bit_and addr 4278190080 * 2 ^ 32 ≡ addr / 2 ^ 24 % 256 * 2 ^ 56 =
      omega (arith, and_field 24 8 addr) in
    rw
      (
        kept_base raw,
        and_low 24 addr,
        high,
        or_above 56 (addr % 2 ^ 24 * 2 ^ 16) (addr / 2 ^ 24 % 256) (omega arith),
        or_split 56 (raw / 2 ^ 16 % 2 ^ 24 * 2 ^ 16) (raw / 2 ^ 56 % 256) (addr % 2 ^ 24 * 2 ^ 16)
            (addr / 2 ^ 24 % 256) (omega arith) (omega arith),
        or_shift 16 (raw / 2 ^ 16 % 2 ^ 24) (addr % 2 ^ 24),
      )
      refl

-- `set_limit` joins the low twenty bits of the new limit to those of the old one, and clears the
-- base address and the present flag.
pub set_limit_lem :
    (raw limit : ℕ)
    → (get_limit (set_limit raw limit) ≡ bit_or (get_limit raw) (limit % 2 ^ 20))
      × (get_base_address (set_limit raw limit) ≡ 0)
      × (is_present (set_limit raw limit) ≡ false)
set_limit_lem raw limit =
    let low = bit_or-lt 16 (raw % 2 ^ 16) (limit % 2 ^ 16) (omega arith) (omega arith) in
    let high = bit_or-lt 4 (raw / 2 ^ 48 % 16) (limit / 2 ^ 16 % 16) (omega arith) (omega arith) in
    let joined =
      or_split 16 (raw % 2 ^ 16) (raw / 2 ^ 48 % 16) (limit % 2 ^ 16) (limit / 2 ^ 16 % 16)
        (omega arith) (omega arith) in
    let new : limit % 2 ^ 20 ≡ limit % 2 ^ 16 + limit / 2 ^ 16 % 16 * 2 ^ 16 = omega arith in
    (
      get_limit-sum (set_limit raw limit)
          ∙ rw (set_limit-sum raw limit, get_limit-sum raw, new, joined) (omega arith),
      get_base_address-sum (set_limit raw limit) ∙ rw (set_limit-sum raw limit) (omega arith),
      get_bit-div 64 (set_limit raw limit) 47 (omega arith)
          ∙ rw (set_limit-sum raw limit) (ground arith),
    )

-- `set_base_address` joins the bits of the new address, where it has 32 bits, to those of the old
-- one, and clears the limit and the present flag.
pub set_base_address_lem :
    (raw addr : ℕ)
    → addr < 2 ^ 32
    → (get_base_address (set_base_address raw addr) ≡ bit_or (get_base_address raw) addr)
      × (get_limit (set_base_address raw addr) ≡ 0)
      × (is_present (set_base_address raw addr) ≡ false)
set_base_address_lem raw addr l =
    let low = bit_or-lt 24 (raw / 2 ^ 16 % 2 ^ 24) (addr % 2 ^ 24) (omega arith) (omega arith) in
    let high = bit_or-lt 8 (raw / 2 ^ 56 % 256) (addr / 2 ^ 24 % 256) (omega arith) (omega arith) in
    let joined =
      or_split 24 (raw / 2 ^ 16 % 2 ^ 24) (raw / 2 ^ 56 % 256) (addr % 2 ^ 24) (addr / 2 ^ 24 % 256)
        (omega arith) (omega arith) in
    let new : addr ≡ addr % 2 ^ 24 + addr / 2 ^ 24 % 256 * 2 ^ 24 = omega arith in
    (
      get_base_address-sum (set_base_address raw addr)
          ∙ rw (set_base_address-sum raw addr, get_base_address-sum raw)
              (omega (
                arith,
                joined,
                ap (bit_or (raw / 2 ^ 16 % 2 ^ 24 + raw / 2 ^ 56 % 256 * 2 ^ 24)) new,
              )),
      get_limit-sum (set_base_address raw addr) ∙ rw (set_base_address-sum raw addr) (omega arith),
      get_bit-div 64 (set_base_address raw addr) 47 (omega arith)
          ∙ rw (set_base_address-sum raw addr) (ground arith),
    )
