-- ===== src/Pic/Spurious.antt =====
-- The lines 7 and 15, whose interrupts `trigger` first looks up in the in-service register. The
-- look-up is given the number of the interrupt, 39 and 47, in place of the line.
use danaos.Prelude.{
  ℕ, zero, suc, ◌/◌, bit_and-pow, ◌+◌, ◌-◌, ◌*◌, ◌^◌, ◌<◌, ◌≡◌, ◌∙◌, ap, refl, arith, bit, bit_and,
  Bool, true, false, not, ◌||◌, leb, ◌==◌, if◌then◌else◌, u32,
}
use native.Mathlib.Nat.{pow-zero, pow-suc}
use danaos.Pic.{
  Ports, Pic, trigger, is_serviced, acknowledge, spurious, data_slave, cmd_slave, op_cmd_word_3,
  call_gate,
}

high-bit : (k v : ℕ) → v < 2 ^ k → bit v k ≡ 0
high-bit zero v l = omega (arith, pow-zero 2)
high-bit (suc k) v l = high-bit k (v / 2) (omega (arith, pow-suc 2 k))

same : (n : ℕ) (b : Bool) → (if b then n else n) ≡ n
same n true = refl
same n false = refl

dropped : (irq : ℕ) → not ((irq == 7) || (irq == 15)) ≡ true → ((irq == 7) || (irq == 15)) ≡ false
dropped irq n = ground arith

module _ {H : Type 0} (ports : Ports H) (byte : (h : H) (port : ℕ) → ports.read h port < 256) where
  -- Where the ports give bytes, no interrupt of line 7, whose number is 39, reaches its
  -- handler: it counts as spurious, and only the command that asks for the in-service register
  -- was sent, to the slave controller.
  pub trigger_line_7 :
      (d : Pic H)
      → trigger ports d 39
        ≡ (spurious, record d { hardware = ports.write d.hardware cmd_slave op_cmd_word_3 })
  unfolding trigger is_serviced
  trigger_line_7 d =
      let slave : H = ports.write d.hardware cmd_slave op_cmd_word_3 in
      let clear : bit_and (ports.read slave data_slave) (2 ^ 31) ≡ 0 =
        bit_and-pow 31 (ports.read slave data_slave)
        ∙ ap (λ (t : ℕ). t * 2 ^ 31)
            (high-bit 31 (ports.read slave data_slave) (omega (arith, byte slave data_slave))) in
      rw clear refl

module _ {H : Type 0} (ports : Ports H) where
  -- An interrupt of one of the 16 lines other than 7 and 15 is acknowledged, and then the
  -- handler of the line is called; without one the kernel panics.
  pub trigger_other :
      (d : Pic H) (irq : ℕ)
      → irq < 16
      → not ((irq == 7) || (irq == 15)) ≡ true
      → trigger ports d (32 + irq) ≡ call_gate ports (acknowledge ports d irq) (d.gates irq)
  unfolding trigger
  trigger_other d irq l n =
      let first : u32 (32 + irq + (2 ^ 32 - 32)) ≡ irq = omega arith in
      let second : u32 (32 + irq + (2 ^ 32 - 40) + 8) ≡ irq = omega arith in
      rw (first, second, same irq (leb 8 irq)) (rw (dropped irq n) refl)
