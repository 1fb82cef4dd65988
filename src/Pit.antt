-- ===== src/Pit.antt =====
-- `hal::interval_timer` of kernel/src/arch/pc/devices/pit.h and pit.cc: the divisor and frequency
-- that `set_frequency` keeps, and what it writes to the ports.
pub mod Laws
pub mod Command
pub mod Device
use danaos.Prelude.{
  ℕ, ◌+◌, ◌*◌, ◌/◌, ◌%◌, ◌^◌, min, max, Option, none, some, List, [], ◌∷◌, ◌==◌, if◌then◌else◌, u8,
  u16,
}

abbrev pub base_address : ℕ
base_address = 64

abbrev pub base_frequency : ℕ
base_frequency = 1193182

abbrev pub min_divisor : ℕ
min_divisor = 2

abbrev pub max_divisor : ℕ
max_divisor = 65535

-- Mode 2, access low then high byte, channel 0, no BCD.
abbrev pub command : ℕ
command = 0 + 4 + 48 + 0

pub record Timer : Type 0 where
  pub current_divisor : ℕ
  pub current_frequency : ℕ

-- The timer, and the writes as pairs of port and byte. A frequency of 0 is a division by 0.
unfoldable pub set_frequency : ℕ → Option (Timer × List (ℕ × ℕ))
set_frequency freq =
    let divisor = max (u16 (min (base_frequency / freq) max_divisor)) min_divisor in
    if freq == 0
    then none
    else some (
      record { current_divisor = divisor; current_frequency = u16 (base_frequency / divisor) },
      (base_address + 3, command)
          ∷ (base_address, u8 divisor)
          ∷ (base_address, u8 (divisor / 256))
          ∷ [],
    )
