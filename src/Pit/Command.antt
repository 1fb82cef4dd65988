-- ===== src/Pit/Command.antt =====
-- The command byte of the timer, `interval_timer::command` of kernel/src/arch/pc/devices/pit.h.
use danaos.Prelude.{ℕ, ◌+◌, ◌<◌, ◌≡◌, ◌^◌, ◌∙◌, ◌/◌, ◌%◌, refl, arith, Bool, bit_and}
use danaos.Fields.{of_bool, get_bit, set_bit, set_bits}
use danaos.Fields.Sums.{of_bool-lt, of_bool-test, get_bit-div, and_field}

pub data OperatingMode : Type 0 where
  mode_0 mode_1 mode_2 mode_3 mode_4 mode_5 : OperatingMode

pub data AccessMode : Type 0 where
  latch_count_value low_only high_only low_high : AccessMode

pub data Channel : Type 0 where
  channel_0 channel_1 channel_2 : Channel

abbrev pub op_code : OperatingMode → ℕ
op_code mode_0 = 0
op_code mode_1 = 2
op_code mode_2 = 4
op_code mode_3 = 6
op_code mode_4 = 8
op_code mode_5 = 10

abbrev pub access_code : AccessMode → ℕ
access_code latch_count_value = 0
access_code low_only = 16
access_code high_only = 32
access_code low_high = 48

abbrev pub channel_code : Channel → ℕ
channel_code channel_0 = 0
channel_code channel_1 = 64
channel_code channel_2 = 128

unfoldable pub new_command : Bool → OperatingMode → AccessMode → Channel → ℕ
new_command bcd op access channel =
    of_bool bcd + op_code op + access_code access + channel_code channel

abbrev pub is_bcd : ℕ → Bool
is_bcd raw = get_bit 8 raw 0

-- The values of the enumerations that the bits stand for.
abbrev pub get_op_mode : ℕ → ℕ
get_op_mode raw = bit_and raw 14

abbrev pub get_access_mode : ℕ → ℕ
get_access_mode raw = bit_and raw 48

abbrev pub get_channel : ℕ → ℕ
get_channel raw = bit_and raw 192

abbrev pub set_bcd : ℕ → Bool → ℕ
set_bcd raw val = set_bit 8 raw 0 val

unfoldable pub set_op_mode : ℕ → OperatingMode → ℕ
set_op_mode raw val = set_bits 8 raw 1 3 (op_code val)

unfoldable pub set_access_mode : ℕ → AccessMode → ℕ
set_access_mode raw val = set_bits 8 raw 4 2 (access_code val)

unfoldable pub set_channel : ℕ → Channel → ℕ
set_channel raw val = set_bits 8 raw 6 2 (channel_code val)

op_code-field : (m : OperatingMode) → (op_code m < 16) × (op_code m % 2 ≡ 0)
op_code-field mode_0 = (omega arith, refl)
op_code-field mode_1 = (omega arith, refl)
op_code-field mode_2 = (omega arith, refl)
op_code-field mode_3 = (omega arith, refl)
op_code-field mode_4 = (omega arith, refl)
op_code-field mode_5 = (omega arith, refl)

access_code-field : (m : AccessMode) → (access_code m < 64) × (access_code m % 16 ≡ 0)
access_code-field latch_count_value = (omega arith, refl)
access_code-field low_only = (omega arith, refl)
access_code-field high_only = (omega arith, refl)
access_code-field low_high = (omega arith, refl)

channel_code-field : (c : Channel) → (channel_code c < 192) × (channel_code c % 64 ≡ 0)
channel_code-field channel_0 = (omega arith, refl)
channel_code-field channel_1 = (omega arith, refl)
channel_code-field channel_2 = (omega arith, refl)

-- A command reads back every field that it is made of.
pub new_command_lem :
    (bcd : Bool) (op : OperatingMode) (access : AccessMode) (channel : Channel)
    → let word = new_command bcd op access channel in
      (is_bcd word ≡ bcd)
      × (get_op_mode word ≡ op_code op)
      × (get_access_mode word ≡ access_code access)
      × (get_channel word ≡ channel_code channel)
unfolding new_command
new_command_lem bcd op access channel =
    let word : ℕ = of_bool bcd + op_code op + access_code access + channel_code channel in
    let b = of_bool-lt bcd in
    let o = op_code-field op in
    let a = access_code-field access in
    let c = channel_code-field channel in
    let low : word / 2 ^ 0 % 2 ≡ of_bool bcd = omega (arith, b, o.1, a.1, c.1) in
    (
      get_bit-div 8 word 0 (omega arith) ∙ rw low (of_bool-test bcd),
      and_field 1 3 word ∙ omega (arith, b, o.0, o.1, a.1, c.1),
      and_field 4 2 word ∙ omega (arith, b, o.0, a.0, a.1, c.1),
      and_field 6 2 word ∙ omega (arith, b, o.0, a.0, c.0, c.1),
    )
