-- ===== src/Pic.antt =====
-- `hal::irq_controller` of kernel/src/arch/pc/devices/pic.h and pic.cc, the two interrupt
-- controllers: command words, masks, acknowledgement and the handlers of the 16 lines. `H` is the
-- state of the hardware, which the ports read and write.
pub mod Masks
pub mod Spurious
pub mod InitWords
pub mod MaskWord
pub mod EoiWord
pub mod ReadWord
pub mod Lines
use danaos.Prelude.{
  ℕ, ◌+◌, ◌-◌, ◌*◌, ◌%◌, ◌^◌, bit_and, bit_or, Bool, true, false, not, ◌&&◌, ◌||◌, Option, none,
  some, ltb, leb, ◌==◌, if◌then◌else◌, u8, u32,
}
use danaos.Fields.{of_bool, set_bits, get_bit}
use danaos.Dispatch.{Gates, Result, panic, done, new_gates, set_gate, register_isr, deregister_isr}

-- `in_port<uint8_t>::read` and `out_port<uint8_t>::write`, by the address of the port.
pub record Ports (H : Type 0) : Type 0 where
  pub read : H → ℕ → ℕ
  pub write : H → ℕ → ℕ → H

abbrev pub cmd_master : ℕ
cmd_master = 32

abbrev pub data_master : ℕ
data_master = 33

abbrev pub cmd_slave : ℕ
cmd_slave = 160

abbrev pub data_slave : ℕ
data_slave = 161

abbrev pub master_idt_offset : ℕ
master_idt_offset = 32

abbrev pub slave_idt_offset : ℕ
slave_idt_offset = 40

abbrev pub slave_irq : ℕ
slave_irq = 2

-- `init_ctrl_word_1`, `3` and `4`; word 2 is its offset.
abbrev pub init_ctrl_word_1 : Bool → Bool → Bool → Bool → Bool → ℕ → ℕ
init_ctrl_word_1 expect_cw4 single_pic reduced level start iv_addr =
    of_bool expect_cw4
    + 2 * of_bool single_pic
    + 4 * of_bool reduced
    + 8 * of_bool level
    + 16 * of_bool start
    + 32 * (iv_addr % 8)

abbrev pub init_ctrl_word_3 : ℕ → Bool → ℕ
init_ctrl_word_3 irq true = irq
init_ctrl_word_3 irq false = u8 (2 ^ (irq % 8))

abbrev pub init_ctrl_word_4 : Bool → Bool → Bool → Bool → Bool → ℕ
init_ctrl_word_4 x86 auto_eoi buffer_master buffered nested =
    of_bool x86
    + 2 * of_bool auto_eoi
    + 4 * of_bool buffer_master
    + 8 * of_bool buffered
    + 16 * of_bool nested

abbrev pub op_cmd_word_2 : ℕ → Bool → Bool → Bool → ℕ
op_cmd_word_2 irq eoi selection rotation =
    irq % 8 + 32 * of_bool eoi + 64 * of_bool selection + 128 * of_bool rotation

-- Reading the in-service register: `internal_register::ISR`, no poll, no mask action.
abbrev pub op_cmd_word_3 : ℕ
op_cmd_word_3 = 2

pub record Pic (H : Type 0) : Type 0 where
  pub hardware : H
  pub gates : Gates
  pub enabled : Bool

-- How `trigger` ends: undefined, a spurious interrupt, a panic, or a call of the handler.
pub data Outcome : Type 0 where
  undefined spurious no_gate : Outcome
  handled : ℕ → Outcome

module _ {H : Type 0} (ports : Ports H) where
  -- `enable(irq, gate)`.
  unfoldable pub enable : Pic H → ℕ → ℕ → Pic H
  enable d irq gate =
      let gates = set_gate d.gates irq (some gate) in
      if ltb irq 8
      then record d {
        gates = gates;
        hardware =
            ports.write d.hardware data_master
              (bit_and (255 - 2 ^ irq) (ports.read d.hardware data_master));
      }
      else record d {
        gates = gates;
        hardware =
            ports.write d.hardware data_slave
              (bit_and (255 - 2 ^ (irq - 8)) (ports.read d.hardware data_slave));
      }

  -- `disable(irq)`.
  unfoldable pub disable : Pic H → ℕ → Pic H
  disable d irq =
      let gates = set_gate d.gates irq none in
      if irq == slave_irq
      then d
      else (if ltb irq 8
          then record d {
            gates = gates;
            hardware =
                ports.write d.hardware data_master
                  (bit_or (2 ^ irq) (ports.read d.hardware data_master));
          }
          else record d {
            gates = gates;
            hardware =
                ports.write d.hardware data_slave
                  (bit_or (2 ^ (irq - 8)) (ports.read d.hardware data_slave));
          })

  unfoldable pub is_enabled : Pic H → ℕ → Bool
  is_enabled d irq =
      if ltb irq 8
      then bit_and (ports.read d.hardware data_master) (2 ^ irq) == 0
      else bit_and (ports.read d.hardware data_slave) (2 ^ (irq - 8)) == 0

  unfoldable pub acknowledge : Pic H → ℕ → Pic H
  acknowledge d irq =
      let ocw2 = op_cmd_word_2 irq true true false in
      let ocw2_slave = set_bits 8 ocw2 0 3 (irq - 8) in
      if leb 8 irq
      then record d {
        hardware =
            ports.write (ports.write d.hardware cmd_slave ocw2_slave) cmd_master
              (set_bits 8 ocw2_slave 0 3 slave_irq);
      }
      else record d { hardware = ports.write d.hardware cmd_master ocw2 }

  -- A shift of the 32-bit `1` by 32 or more has no value.
  abbrev pub in_service : ℕ → ℕ → Option Bool
  in_service value index =
      if leb 32 index then none else some (not (bit_and value (2 ^ index) == 0))

  unfoldable pub is_serviced : Pic H → ℕ → Option Bool × Pic H
  is_serviced d index =
      let slave = ports.write d.hardware cmd_slave op_cmd_word_3 in
      let master = ports.write d.hardware cmd_master op_cmd_word_3 in
      if leb 8 index
      then (in_service (ports.read slave data_slave) (index - 8), record d { hardware = slave })
      else (in_service (ports.read master data_master) index, record d { hardware = master })

  abbrev pub call_gate : Pic H → Option ℕ → Outcome × Pic H
  call_gate d none = (no_gate, d)
  call_gate d (some gate) = (handled gate, d)

  abbrev pub after_check : Pic H → ℕ → Option Bool × Pic H → Outcome × Pic H
  after_check d irq (none, e) = (undefined, e)
  after_check d irq (some false, e) = (spurious, e)
  after_check d irq (some true, e) = call_gate (acknowledge e irq) (d.gates irq)

  -- `trigger(frame)`, by the number of the interrupt.
  unfoldable pub trigger : Pic H → ℕ → Outcome × Pic H
  trigger d int_num =
      let first = u32 (int_num + (2 ^ 32 - master_idt_offset)) in
      let irq = if leb 8 first then u32 (int_num + (2 ^ 32 - slave_idt_offset) + 8) else first in
      if (irq == 7) || (irq == 15)
      then after_check d irq (is_serviced d (u8 int_num))
      else call_gate (acknowledge d irq) (d.gates irq)

  -- The constructor; `self` is the number of the controller's own `isr`.
  unfoldable pub irq_controller : H → ℕ → Pic H
  irq_controller h0 self =
      let icw1 = init_ctrl_word_1 true false false false true 0 in
      let icw4 = init_ctrl_word_4 true false false false false in
      let h2 = ports.write (ports.write h0 cmd_master icw1) cmd_slave icw1 in
      let h4 =
        ports.write (ports.write h2 data_master master_idt_offset) data_slave
          (master_idt_offset + 8) in
      let h6 =
        ports.write (ports.write h4 data_master (init_ctrl_word_3 slave_irq false)) data_slave
          (init_ctrl_word_3 slave_irq true) in
      let h7 = if get_bit 8 icw1 0 then ports.write h6 data_master icw4 else h6 in
      let h8 = if get_bit 8 icw1 0 then ports.write h7 data_slave icw4 else h7 in
      let h10 = ports.write (ports.write h8 data_master 255) data_slave 255 in
      enable (record { hardware = h10; gates = new_gates; enabled = false }) slave_irq self
