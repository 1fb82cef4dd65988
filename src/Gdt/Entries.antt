-- ===== src/Gdt/Entries.antt =====
-- The entries that the constructor makes, read back by the getters.
use danaos.Prelude.{
  ℕ, ◌+◌, ◌*◌, ◌/◌, ◌%◌, ◌^◌, ◌<◌, ◌≡◌, ◌∙◌, ap, refl, arith, bit_and, bit_or, Bool, ◌==◌,
}
use danaos.Fields.{of_bool, get_bits, get_bit}
use danaos.Fields.Sums.{
  of_bool-lt, of_bool-test, or_above, and_low, and_field, get_bits-div, get_bit-div,
}
use danaos.Gdt.{
  DplLevel, level, EntryFlags, entry, is_read_write, is_growing_down, is_executable, is_present,
  is_size_32bit, is_granular_4kb, get_privilege_level, get_base_address, get_limit,
}

pub level-lt : (lvl : DplLevel) → level lvl < 4
level-lt lvl = ground arith

-- The value of an entry, by its fields: the halves of the limit and of the base, and the flags.
abbrev packed : ℕ → ℕ → ℕ → ℕ → ℕ → ℕ → ℕ → ℕ → ℕ → ℕ → ℕ → ℕ
packed limit_low base_low rw_flag down exec priv present limit_high size32 gran4kb base_high =
    limit_low
    + base_low * 2 ^ 16
    + rw_flag * 2 ^ 41
    + down * 2 ^ 42
    + exec * 2 ^ 43
    + 2 ^ 44
    + priv * 2 ^ 45
    + present * 2 ^ 47
    + limit_high * 2 ^ 48
    + size32 * 2 ^ 54
    + gran4kb * 2 ^ 55
    + base_high * 2 ^ 56

packed_lem :
    (limit_low base_low rw_flag down exec priv present limit_high size32 gran4kb base_high : ℕ)
    → limit_low < 2 ^ 16
    → base_low < 2 ^ 24
    → rw_flag < 2
    → down < 2
    → exec < 2
    → priv < 4
    → present < 2
    → limit_high < 16
    → size32 < 2
    → gran4kb < 2
    → bit_or
        (bit_or
          (bit_or
            (bit_or
              (bit_or
                (bit_or
                  (bit_or
                    (bit_or
                      (bit_or
                        (bit_or (bit_or limit_low (base_low * 2 ^ 16)) (rw_flag * 2 ^ 41))
                        (down * 2 ^ 42))
                      (exec * 2 ^ 43))
                    (1 * 2 ^ 44))
                  (priv * 2 ^ 45))
                (present * 2 ^ 47))
              (limit_high * 2 ^ 48))
            (size32 * 2 ^ 54))
          (gran4kb * 2 ^ 55))
        (base_high * 2 ^ 56)
      ≡ packed limit_low base_low rw_flag down exec priv present limit_high size32 gran4kb base_high
packed_lem a b c d e f g h i j k la lb lc ld le lf lg lh li lj =
    let s1 = or_above 16 a b la in
    let s2 = or_above 41 (a + b * 2 ^ 16) c (omega arith) in
    let s3 = or_above 42 (a + b * 2 ^ 16 + c * 2 ^ 41) d (omega arith) in
    let s4 = or_above 43 (a + b * 2 ^ 16 + c * 2 ^ 41 + d * 2 ^ 42) e (omega arith) in
    let t4 = a + b * 2 ^ 16 + c * 2 ^ 41 + d * 2 ^ 42 + e * 2 ^ 43 in
    let s5 = or_above 44 t4 1 (omega arith) in
    let s6 = or_above 45 (t4 + 1 * 2 ^ 44) f (omega arith) in
    let s7 = or_above 47 (t4 + 1 * 2 ^ 44 + f * 2 ^ 45) g (omega arith) in
    let t7 = t4 + 1 * 2 ^ 44 + f * 2 ^ 45 + g * 2 ^ 47 in
    let s8 = or_above 48 t7 h (omega arith) in
    let s9 = or_above 54 (t7 + h * 2 ^ 48) i (omega arith) in
    let s10 = or_above 55 (t7 + h * 2 ^ 48 + i * 2 ^ 54) j (omega arith) in
    let s11 = or_above 56 (t7 + h * 2 ^ 48 + i * 2 ^ 54 + j * 2 ^ 55) k (omega arith) in
    rw (s1, s2, s3, s4, s5, s6, s7, s8, s9, s10, s11) refl

entry-packed :
    (base limit : ℕ) (priv : DplLevel) (f : EntryFlags)
    → entry base limit priv f
      ≡ packed
          (limit % 2 ^ 16)
          (base % 2 ^ 24)
          (of_bool f.rw_flag)
          (of_bool f.down)
          (of_bool f.exec)
          (level priv)
          (of_bool f.present)
          (limit / 2 ^ 16 % 16)
          (of_bool f.size32)
          (of_bool f.gran4kb)
          (base / 2 ^ 24 % 256)
unfolding entry
entry-packed base limit priv f =
    let ll : bit_and limit 65535 ≡ limit % 2 ^ 16 = and_low 16 limit in
    let bl : bit_and base 16777215 ≡ base % 2 ^ 24 = and_low 24 base in
    let lh : bit_and limit 983040 * 2 ^ 32 ≡ limit / 2 ^ 16 % 16 * 2 ^ 48 =
      omega (arith, and_field 16 4 limit) in
    let bh : bit_and base 4278190080 * 2 ^ 32 ≡ base / 2 ^ 24 % 256 * 2 ^ 56 =
      omega (arith, and_field 24 8 base) in
    rw (ll, bl, lh, bh)
      (packed_lem (limit % 2 ^ 16) (base % 2 ^ 24) (of_bool f.rw_flag) (of_bool f.down)
        (of_bool f.exec) (level priv) (of_bool f.present) (limit / 2 ^ 16 % 16) (of_bool f.size32)
        (of_bool f.gran4kb) (base / 2 ^ 24 % 256) (omega arith) (omega arith) (of_bool-lt f.rw_flag)
        (of_bool-lt f.down) (of_bool-lt f.exec) (level-lt priv) (of_bool-lt f.present) (omega arith)
        (of_bool-lt f.size32) (of_bool-lt f.gran4kb))

-- A flag of the entry, by the value of the entry.
flag_lem :
    (base limit pos : ℕ) (priv : DplLevel) (f : EntryFlags) (b : Bool)
    → pos < 64
    → packed
          (limit % 2 ^ 16)
          (base % 2 ^ 24)
          (of_bool f.rw_flag)
          (of_bool f.down)
          (of_bool f.exec)
          (level priv)
          (of_bool f.present)
          (limit / 2 ^ 16 % 16)
          (of_bool f.size32)
          (of_bool f.gran4kb)
          (base / 2 ^ 24 % 256)
        / 2 ^ pos
        % 2
      ≡ of_bool b
    → get_bit 64 (entry base limit priv f) pos ≡ b
flag_lem base limit pos priv f b l e =
    get_bit-div 64 (entry base limit priv f) pos l
    ∙ ap (λ (t : ℕ). t / 2 ^ pos % 2 == 1) (entry-packed base limit priv f)
    ∙ ap (λ (t : ℕ). t == 1) e
    ∙ of_bool-test b

-- The halves of the base address and of the limit, put together.
pub get_base_address-sum :
    (raw : ℕ) → get_base_address raw ≡ raw / 2 ^ 16 % 2 ^ 24 + raw / 2 ^ 56 % 256 * 2 ^ 24
get_base_address-sum raw =
    let low : get_bits 64 raw 16 24 / 2 ^ 16 ≡ raw / 2 ^ 16 % 2 ^ 24 =
      omega (arith, get_bits-div 64 raw 16 24 (omega arith)) in
    let high : get_bits 64 raw 56 8 / 2 ^ 32 ≡ raw / 2 ^ 56 % 256 * 2 ^ 24 =
      omega (arith, get_bits-div 64 raw 56 8 (omega arith)) in
    rw (low, high)
      (omega (arith, or_above 24 (raw / 2 ^ 16 % 2 ^ 24) (raw / 2 ^ 56 % 256) (omega arith)))

pub get_limit-sum : (raw : ℕ) → get_limit raw ≡ raw % 2 ^ 16 + raw / 2 ^ 48 % 16 * 2 ^ 16
get_limit-sum raw =
    let low : get_bits 64 raw 0 16 ≡ raw % 2 ^ 16 =
      omega (arith, get_bits-div 64 raw 0 16 (omega arith)) in
    let high : get_bits 64 raw 48 4 / 2 ^ 32 ≡ raw / 2 ^ 48 % 16 * 2 ^ 16 =
      omega (arith, get_bits-div 64 raw 48 4 (omega arith)) in
    rw (low, high) (omega (arith, or_above 16 (raw % 2 ^ 16) (raw / 2 ^ 48 % 16) (omega arith)))

-- An entry has the flags that it is made with, its base address where that has 32 bits, and the
-- low twenty bits of its limit.
pub entry_lem :
    (base limit : ℕ) (priv : DplLevel) (f : EntryFlags)
    → base < 2 ^ 32
    → (is_read_write (entry base limit priv f) ≡ f.rw_flag)
      × (is_growing_down (entry base limit priv f) ≡ f.down)
      × (is_executable (entry base limit priv f) ≡ f.exec)
      × (is_present (entry base limit priv f) ≡ f.present)
      × (is_size_32bit (entry base limit priv f) ≡ f.size32)
      × (is_granular_4kb (entry base limit priv f) ≡ f.gran4kb)
      × (get_base_address (entry base limit priv f) ≡ base)
      × (get_limit (entry base limit priv f) ≡ limit % 2 ^ 20)
entry_lem base limit priv f l =
    let rw1 = of_bool-lt f.rw_flag in
    let rw2 = of_bool-lt f.down in
    let rw3 = of_bool-lt f.exec in
    let rw4 = of_bool-lt f.present in
    let rw5 = of_bool-lt f.size32 in
    let rw6 = of_bool-lt f.gran4kb in
    let rw7 = level-lt priv in
    (
      flag_lem base limit 41 priv f f.rw_flag (omega arith) (omega arith),
      flag_lem base limit 42 priv f f.down (omega arith) (omega arith),
      flag_lem base limit 43 priv f f.exec (omega arith) (omega arith),
      flag_lem base limit 47 priv f f.present (omega arith) (omega arith),
      flag_lem base limit 54 priv f f.size32 (omega arith) (omega arith),
      flag_lem base limit 55 priv f f.gran4kb (omega arith) (omega arith),
      get_base_address-sum (entry base limit priv f)
          ∙ rw (entry-packed base limit priv f) (omega arith),
      get_limit-sum (entry base limit priv f) ∙ rw (entry-packed base limit priv f) (omega arith),
    )

-- The cast drops the bits that the mask leaves in their place: every entry has level 0.
pub get_privilege_level_lem : (raw : ℕ) → get_privilege_level raw ≡ 0
get_privilege_level_lem raw = omega (arith, get_bits-div 64 raw 45 2 (omega arith))
