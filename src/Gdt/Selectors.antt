-- ===== src/Gdt/Selectors.antt =====
-- The selectors: 16-bit words of a privilege level, the flag of the local table and an index.
use danaos.Prelude.{
  ℕ, ◌+◌, ◌*◌, ◌/◌, ◌%◌, ◌^◌, ◌<◌, ◌≡◌, ◌∙◌, ap, arith, refl, sym, bit_and, bit_or, bit_or-lt, Bool,
  u8, u16, ◌==◌,
}
use danaos.Fields.{of_bool, set_bits, set_bit, get_bits, get_bit}
use danaos.Fields.Sums.{
  of_bool-lt, of_bool-test, or_zero, or_above, or_split, and_low, and_field, get_bits-div,
  get_bit-div,
}
use danaos.Gdt.{DplLevel, level}

unfoldable pub selector : ℕ → Bool → ℕ → ℕ
selector priv is_local index =
    u16 (bit_or (bit_or priv (of_bool is_local * 2 ^ 2)) (bit_and index 8191 * 2 ^ 3))

abbrev pub is_local : ℕ → Bool
is_local raw = get_bit 16 raw 2

abbrev pub get_privilege_level : ℕ → ℕ
get_privilege_level raw = u8 (get_bits 16 raw 0 2)

abbrev pub get_index : ℕ → ℕ
get_index raw = bit_and raw 65528 / 2 ^ 3

abbrev pub get_segment_selector : ℕ → ℕ
get_segment_selector raw = bit_and raw 65528

abbrev pub set_local : ℕ → Bool → ℕ
set_local raw val = set_bit 16 raw 2 val

abbrev pub set_privilege_level : ℕ → DplLevel → ℕ
set_privilege_level raw lvl = set_bits 16 raw 0 2 (level lvl)

unfoldable pub set_index : ℕ → ℕ → ℕ
set_index raw index = u16 (bit_or (bit_and raw 7) (bit_and index 8191 * 2 ^ 3))

unfoldable pub set_segment_selector : ℕ → ℕ → ℕ
set_segment_selector raw sel = u16 (bit_or (bit_and raw 7) (bit_and sel 8191))

pub selector-sum :
    (priv index : ℕ) (local : Bool)
    → priv < 4
    → selector priv local index ≡ priv + of_bool local * 2 ^ 2 + index % 2 ^ 13 * 2 ^ 3
unfolding selector
selector-sum priv index local l =
    let flag = of_bool-lt local in
    rw
      (
        and_low 13 index,
        or_above 2 priv (of_bool local) (omega arith),
        or_above 3 (priv + of_bool local * 2 ^ 2) (index % 2 ^ 13) (omega arith),
      )
      (omega arith)

get_index-div : (raw : ℕ) → raw < 2 ^ 16 → get_index raw ≡ raw / 2 ^ 3
get_index-div raw l = omega (arith, and_field 3 13 raw)

-- A selector has the level, where that is below 4, the flag, and the low thirteen bits of the index
-- that it is made with.
pub selector_lem :
    (priv index : ℕ) (local : Bool)
    → priv < 4
    → (get_privilege_level (selector priv local index) ≡ priv)
      × (is_local (selector priv local index) ≡ local)
      × (get_index (selector priv local index) ≡ index % 2 ^ 13)
selector_lem priv index local l =
    let flag = of_bool-lt local in
    let sum = selector-sum priv index local l in
    let flag_bit : (priv + of_bool local * 2 ^ 2 + index % 2 ^ 13 * 2 ^ 3) / 2 ^ 2 % 2
        ≡ of_bool local =
      omega arith in
    (
      rw sum (
          omega (
            arith,
            get_bits-div 16 (priv + of_bool local * 2 ^ 2 + index % 2 ^ 13 * 2 ^ 3) 0 2
                (omega arith),
          )),
      get_bit-div 16 (selector priv local index) 2 (omega arith)
          ∙ rw sum (ap (λ (t : ℕ). t == 1) flag_bit ∙ of_bool-test local),
      rw sum (
          get_index-div (priv + of_bool local * 2 ^ 2 + index % 2 ^ 13 * 2 ^ 3) (omega arith)
          ∙ omega arith),
    )

set_index-sum : (raw index : ℕ) → set_index raw index ≡ raw % 2 ^ 3 + index % 2 ^ 13 * 2 ^ 3
unfolding set_index
set_index-sum raw index =
    rw (and_low 3 raw, and_low 13 index, or_above 3 (raw % 2 ^ 3) (index % 2 ^ 13) (omega arith))
      (omega arith)

-- `set_index` sets the low thirteen bits of the index and leaves the level and the flag of the
-- selector, a 16-bit word.
pub set_index_lem :
    (raw index : ℕ)
    → raw < 2 ^ 16
    → (get_index (set_index raw index) ≡ index % 2 ^ 13)
      × (get_privilege_level (set_index raw index) ≡ get_privilege_level raw)
      × (is_local (set_index raw index) ≡ is_local raw)
set_index_lem raw index l =
    let sum = set_index-sum raw index in
    let new = raw % 2 ^ 3 + index % 2 ^ 13 * 2 ^ 3 in
    let bits : new / 2 ^ 2 % 2 ≡ raw / 2 ^ 2 % 2 = omega arith in
    (
      rw sum (get_index-div new (omega arith) ∙ omega arith),
      rw sum (
          omega
            (arith, get_bits-div 16 new 0 2 (omega arith), get_bits-div 16 raw 0 2 (omega arith))),
      rw (sum, get_bit-div 16 new 2 (omega arith), get_bit-div 16 raw 2 (omega arith), bits) refl,
    )

-- `set_segment_selector` keeps the flags in the result and loses the high three bits of the new
-- selector: the index becomes the one of its low thirteen bits.
pub set_segment_selector_lem :
    (raw sel : ℕ) → raw < 2 ^ 16 → get_index (set_segment_selector raw sel) ≡ sel % 2 ^ 13 / 2 ^ 3
unfolding set_segment_selector
set_segment_selector_lem raw sel l =
    let word : sel % 2 ^ 13 ≡ sel % 2 ^ 3 + sel % 2 ^ 13 / 2 ^ 3 * 2 ^ 3 = omega arith in
    let flags = bit_or-lt 3 (raw % 2 ^ 3) (sel % 2 ^ 3) (omega arith) (omega arith) in
    let joined : bit_or (raw % 2 ^ 3) (sel % 2 ^ 13)
        ≡ bit_or (raw % 2 ^ 3) (sel % 2 ^ 3) + sel % 2 ^ 13 / 2 ^ 3 * 2 ^ 3 =
      ap (bit_or (raw % 2 ^ 3)) word ∙ above in
    rw (and_low 3 raw, and_low 13 sel, joined)
      (get_index-div ((bit_or (raw % 2 ^ 3) (sel % 2 ^ 3) + sel % 2 ^ 13 / 2 ^ 3 * 2 ^ 3) % 2 ^ 16)
          (omega arith)
        ∙ omega arith)
  where
    above :
        bit_or (raw % 2 ^ 3) (sel % 2 ^ 3 + sel % 2 ^ 13 / 2 ^ 3 * 2 ^ 3)
        ≡ bit_or (raw % 2 ^ 3) (sel % 2 ^ 3) + sel % 2 ^ 13 / 2 ^ 3 * 2 ^ 3
    above =
        let plain : raw % 2 ^ 3 + 0 * 2 ^ 3 ≡ raw % 2 ^ 3 = omega arith in
        let zero : bit_or 0 (sel % 2 ^ 13 / 2 ^ 3) ≡ sel % 2 ^ 13 / 2 ^ 3 =
          or_zero (sel % 2 ^ 13 / 2 ^ 3) (sel % 2 ^ 13 / 2 ^ 3) (omega arith) in
        ap (λ (t : ℕ). bit_or t (sel % 2 ^ 3 + sel % 2 ^ 13 / 2 ^ 3 * 2 ^ 3)) (sym plain)
        ∙ or_split 3 (raw % 2 ^ 3) 0 (sel % 2 ^ 3) (sel % 2 ^ 13 / 2 ^ 3) (omega arith)
            (omega arith)
        ∙ rw zero refl
