-- ===== src/Pic/Masks.antt =====
-- Enabling and disabling one line, as `is_enabled` sees it afterwards.
use danaos.Prelude.{
  ℕ, Bool-cases, inl, inr, zero, suc, ◌-◌, ◌*◌, ◌^◌, ◌<◌, ◌≤◌, ◌≡◌, ◌≢◌, ◌⊎◌, ◌∙◌, ap, refl, sym,
  arith, bit, bit-lt, bit_and, bit_or, false, not, ◌&&◌, ◌||◌, ltb, ◌==◌, if◌then◌else◌, bit-bit_or,
  bit-bit_and, bit-pow, bit_complement, bit_and-pow, bit_or-lt, bit_and-le, pow-lt_pow,
}
use native.Mathlib.Nat.{one-le-pow}
use native.Mathlib.Decide.{ℕ_discrete}
use danaos.Pic.{
  Ports, Pic, enable, disable, is_enabled, cmd_master, cmd_slave, data_master, data_slave,
  slave_irq,
}

abbrev pub IsDataPort : ℕ → Type 0
IsDataPort port = (port ≡ data_master) ⊎ (port ≡ data_slave)

-- The data ports hold the masks of the controllers while these are `Ready`, that is outside of an
-- initialisation, which only a write to a command port starts: what is written to a data port is read
-- back, and a write to a port that is no command port does not change the other data ports. A port gives
-- a byte.
pub record HoldsMasks {H : Type 0} (Ready : H → Type 0) (ports : Ports H) : Type 0 where
  pub stays_ready :
      (h : H) (port v : ℕ)
      → port ≢ cmd_master
      → port ≢ cmd_slave
      → Ready h
      → Ready (ports.write h port v)
  pub read_written :
      (h : H) (port v : ℕ)
      → IsDataPort port
      → v < 256
      → Ready h
      → ports.read (ports.write h port v) port ≡ v
  pub read_other :
      (h : H) (port other v : ℕ)
      → IsDataPort other
      → port ≢ cmd_master
      → port ≢ cmd_slave
      → other ≢ port
      → Ready h
      → ports.read (ports.write h port v) other ≡ ports.read h other
  pub read_byte : (h : H) (port : ℕ) → ports.read h port < 256

line_clear :
    (v k j : ℕ) → k < 8 → j < 8 → bit (bit_and (255 - 2 ^ k) v) j ≡ (if k == j then 0 else bit v j)
line_clear v k j h l =
    rw (bit-bit_and (255 - 2 ^ k) v j, bit_complement 8 (2 ^ k) j (pow-lt_pow k 8 h) l, bit-pow k j)
      (ground (arith, bit-lt v j))

line_set : (v k j : ℕ) → bit (bit_or (2 ^ k) v) j ≡ (if k == j then 1 else bit v j)
line_set v k j = rw (bit-bit_or (2 ^ k) v j, bit-pow k j) (ground (arith, bit-lt v j))

-- The test of `is_enabled`.
line_test : (v k : ℕ) → (bit_and v (2 ^ k) == 0) ≡ (bit v k == 0)
line_test v k =
    rw (bit_and-pow k v) (zero_test (bit v k) (2 ^ k) (bit-lt v k) (one-le-pow k 2 (omega arith)))
  where
    zero_test : (b p : ℕ) → b < 2 → 1 ≤ p → (b * p == 0) ≡ (b == 0)
    zero_test zero p h l = ground arith
    zero_test (suc zero) p h l = ground arith
    zero_test (suc (suc b)) p h l = absurd (omega arith)

-- The data port and the bit of a line.
abbrev port_of : ℕ → ℕ
port_of irq = if ltb irq 8 then data_master else data_slave

abbrev line_of : ℕ → ℕ
line_of irq = if ltb irq 8 then irq else irq - 8

line_injective :
    (irq other : ℕ)
    → irq < 16
    → other < 16
    → port_of irq ≡ port_of other
    → line_of irq ≡ line_of other
    → irq ≡ other
line_injective irq other l m e q = ground arith

port_of-IsDataPort : (irq : ℕ) → IsDataPort (port_of irq)
port_of-IsDataPort irq = elim (Bool-cases (ltb irq 8)) [
  | inl e ↦ rw e (inl refl)
  | inr e ↦ rw e (inr refl)
]

module _ {H : Type 0} (Ready : H → Type 0) (ports : Ports H) (masks : HoldsMasks Ready ports) where
  is_enabled_lem :
      (d : Pic H) (irq : ℕ)
      → is_enabled ports d irq ≡ (bit (ports.read d.hardware (port_of irq)) (line_of irq) == 0)
  unfolding is_enabled
  is_enabled_lem d irq = elim (Bool-cases (ltb irq 8)) [
    | inl p ↦ rw p (line_test (ports.read d.hardware data_master) irq)
    | inr p ↦ rw p (line_test (ports.read d.hardware data_slave) (irq - 8))
  ]

  -- The mask bit of a line after a write to the port of another.
  mask_after :
      (h : H) (irq other v : ℕ)
      → v < 256
      → irq < 16
      → other < 16
      → ((j : ℕ) → j < 8 → line_of irq ≢ j → bit v j ≡ bit (ports.read h (port_of irq)) j)
      → irq ≢ other
      → Ready h
      → bit (ports.read (ports.write h (port_of irq) v) (port_of other)) (line_of other)
        ≡ bit (ports.read h (port_of other)) (line_of other)
  mask_after h irq other v b l m keep n r = elim (ℕ_discrete (port_of other) (port_of irq)) [
    | no q ↦
        ap (λ (t : ℕ). bit t (line_of other))
          (masks.read_other h (port_of irq) (port_of other) v (port_of-IsDataPort other)
            (λ e. ground (arith, e)) (λ e. ground (arith, e)) q r)
    | yes e ↦
        rw (e, masks.read_written h (port_of irq) v (port_of-IsDataPort irq) b r)
          (keep (line_of other) (ground arith) (λ q. n (line_injective irq other l m (sym e) q)))
  ]

  hardware_enable :
      (d : Pic H) (irq gate : ℕ)
      → (enable ports d irq gate).hardware
        ≡ ports.write d.hardware
            (port_of irq)
            (bit_and (255 - 2 ^ line_of irq) (ports.read d.hardware (port_of irq)))
  unfolding enable
  hardware_enable d irq gate = elim (Bool-cases (ltb irq 8)) [
    | inl p ↦ rw p refl
    | inr p ↦ rw p refl
  ]

  -- Where the ready data ports hold the masks, enabling one of the 16 lines
  -- enables it and leaves every other line as it was.
  pub is_enabled-enable :
      (d : Pic H) (irq gate other : ℕ)
      → irq < 16
      → other < 16
      → Ready d.hardware
      → is_enabled ports (enable ports d irq gate) other
        ≡ (irq == other) || is_enabled ports d other
  is_enabled-enable d irq gate other l m r =
      let line : line_of irq < 8 = ground arith in
      let old : ℕ = ports.read d.hardware (port_of irq) in
      let new : ℕ = bit_and (255 - 2 ^ line_of irq) old in
      let small : new < 256 = omega (arith, bit_and-le (255 - 2 ^ line_of irq) old) in
      rw
        (
          is_enabled_lem (enable ports d irq gate) other,
          is_enabled_lem d other,
          hardware_enable d irq gate,
        )
        (elim (ℕ_discrete irq other) [
          | yes e ↦
              rw
                (
                  ← e,
                  masks.read_written d.hardware (port_of irq) new (port_of-IsDataPort irq) small r,
                  line_clear old (line_of irq) (line_of irq) line line,
                )
                (ground arith)
          | no n ↦
              rw
                (mask_after d.hardware irq other new small l m
                  (λ j b q. line_clear old (line_of irq) j line b ∙ ground (arith, q)) n r)
                (ground (arith, n))
        ])

  hardware_disable :
      (d : Pic H) (irq : ℕ)
      → irq ≢ slave_irq
      → (disable ports d irq).hardware
        ≡ ports.write d.hardware
            (port_of irq)
            (bit_or (2 ^ line_of irq) (ports.read d.hardware (port_of irq)))
  unfolding disable
  hardware_disable d irq n = elim (Bool-cases (ltb irq 8)) [
    | inl p ↦ ground arith
    | inr p ↦ ground arith
  ]

  disable_slave : (d : Pic H) (irq : ℕ) → irq ≡ slave_irq → disable ports d irq ≡ d
  unfolding disable
  disable_slave d irq s = ground arith

  -- Where the ready data ports hold the masks, disabling one of the 16 lines
  -- disables it and leaves every other line as it was; but the line of the slave controller
  -- stays as it was.
  pub is_enabled-disable :
      (d : Pic H) (irq other : ℕ)
      → irq < 16
      → other < 16
      → Ready d.hardware
      → is_enabled ports (disable ports d irq) other
        ≡ (if (irq == other) && not (irq == 2) then false else is_enabled ports d other)
  is_enabled-disable d irq other l m r = elim (ℕ_discrete irq slave_irq) [
    | yes s ↦ ap (λ (e : Pic H). is_enabled ports e other) (disable_slave d irq s) ∙ ground arith
    | no s ↦
        let line : line_of irq < 8 = ground arith in
        let old : ℕ = ports.read d.hardware (port_of irq) in
        let new : ℕ = bit_or (2 ^ line_of irq) old in
        let small : new < 256 =
          bit_or-lt 8 (2 ^ line_of irq) old (pow-lt_pow (line_of irq) 8 line)
            (masks.read_byte d.hardware (port_of irq)) in
        rw
          (
            is_enabled_lem (disable ports d irq) other,
            is_enabled_lem d other,
            hardware_disable d irq s,
          )
          (elim (ℕ_discrete irq other) [
            | yes e ↦
                rw
                  (
                    ← e,
                    masks.read_written d.hardware (port_of irq) new (port_of-IsDataPort irq) small
                        r,
                    line_set old (line_of irq) (line_of irq),
                  )
                  (ground arith)
            | no n ↦
                rw
                  (mask_after d.hardware irq other new small l m
                    (λ j b q. line_set old (line_of irq) j ∙ ground (arith, q)) n r)
                  (ground (arith, n))
          ])
  ]
