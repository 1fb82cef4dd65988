-- ===== src/LongGdt.antt =====
-- The global descriptor table of the x86_64 kernel, kernel/src/arch/x86_64/hal/interrupts/gdt.h and
-- gdt.cc, where it differs from the i386 one: the entries have a flag of the long mode, and no flag
-- of the 32-bit size. The table and its operations are written alike in both builds.
pub mod Segments
use danaos.Prelude.{
  ℕ, ◌*◌, ◌/◌, ◌-◌, ◌^◌, Bool, true, false, if◌then◌else◌, Option, none, some, bit_and, bit_or, u16,
  u32, u8,
}
use danaos.Fields.{of_bool, set_bits, set_bit, get_bits, get_bit}
use danaos.Gdt.{DplLevel, level, ring_0, ring_3}
use danaos.Gdt.Table.{Gdt, push_entry, load}

-- The flags that the constructor of an entry takes.
pub record EntryFlags : Type 0 where
  pub present : Bool
  pub rw_flag : Bool
  pub down : Bool
  pub exec : Bool
  pub gran4kb : Bool
  pub longmode : Bool

unfoldable pub entry : ℕ → ℕ → DplLevel → EntryFlags → ℕ
entry base limit priv f =
    bit_or
      (bit_or
        (bit_or
          (bit_or
            (bit_or
              (bit_or
                (bit_or
                  (bit_or
                    (bit_or
                      (bit_or (bit_or (bit_and limit 65535) (bit_and base 16777215 * 2 ^ 16))
                        (of_bool f.rw_flag * 2 ^ 41))
                      (of_bool f.down * 2 ^ 42))
                    (of_bool f.exec * 2 ^ 43))
                  (of_bool f.longmode * 2 ^ 44))
                (level priv * 2 ^ 45))
              (of_bool f.present * 2 ^ 47))
            (bit_and limit 983040 * 2 ^ 32))
          (1 * 2 ^ 53))
        (of_bool f.gran4kb * 2 ^ 55))
      (bit_and base 4278190080 * 2 ^ 32)

abbrev pub is_accessed : ℕ → Bool
is_accessed raw = get_bit 64 raw 40

abbrev pub is_read_write : ℕ → Bool
is_read_write raw = get_bit 64 raw 41

abbrev pub is_growing_down : ℕ → Bool
is_growing_down raw = get_bit 64 raw 42

abbrev pub is_executable : ℕ → Bool
is_executable raw = get_bit 64 raw 43

abbrev pub is_longmode : ℕ → Bool
is_longmode raw = get_bit 64 raw 44

abbrev pub is_present : ℕ → Bool
is_present raw = get_bit 64 raw 47

abbrev pub is_granular_4kb : ℕ → Bool
is_granular_4kb raw = get_bit 64 raw 55

-- The cast to the enumeration keeps the low byte of the masked word, which is not shifted down.
abbrev pub get_privilege_level : ℕ → ℕ
get_privilege_level raw = u8 (get_bits 64 raw 45 2)

abbrev pub get_base_address : ℕ → ℕ
get_base_address raw = u32 (bit_or (get_bits 64 raw 16 24 / 2 ^ 16) (get_bits 64 raw 56 8 / 2 ^ 32))

abbrev pub get_limit : ℕ → ℕ
get_limit raw = u32 (bit_or (get_bits 64 raw 0 16) (get_bits 64 raw 48 4 / 2 ^ 32))

abbrev pub set_longmode : ℕ → Bool → ℕ
set_longmode raw val = set_bit 64 raw 44 val

abbrev pub set_privilege_level : ℕ → DplLevel → ℕ
set_privilege_level raw lvl = set_bits 64 raw 45 2 (level lvl * 2 ^ 45)

-- `selector::get_index` of this build shifts the index up, not down.
abbrev pub get_index : ℕ → ℕ
get_index raw = u16 (bit_and raw 65528 * 2 ^ 3)

unfoldable pub segment : DplLevel → Bool → ℕ
segment priv exec = entry 0 (2 ^ 32 - 1) priv (record {
  present = true;
  rw_flag = true;
  down = false;
  exec = exec;
  gran4kb = true;
  longmode = true;
})

unfoldable pub init : ℕ → (ℕ → ℕ) → Gdt → Option Gdt
init addr words g =
    if g.allocated
    then none
    else let g1 = record g {
      capacity = 5;
      allocated = true;
      entries = words;
      size = 0;
      offset = addr;
    } in
      let g2 = (push_entry 0 g1).0 in
      let g3 = (push_entry (segment ring_0 true) g2).0 in
      let g4 = (push_entry (segment ring_0 false) g3).0 in
      let g5 = (push_entry (segment ring_3 true) g4).0 in
      let g6 = (push_entry (segment ring_3 false) g5).0 in some (load g6)
