-- ===== src/Pit/Device.antt =====
-- `interval_timer` of kernel/src/arch/pc/devices/pit.cc as a device: its interrupt at the interrupt
-- controller, and its handler, which calls the scheduler. `self` is the number that stands for the
-- timer.
use danaos.Prelude.{
  ℕ, ◌/◌, ◌≤◌, ◌<◌, ◌≡◌, ◌⊎◌, inl, inr, ◌∙◌, ap, refl, arith, Bool, true, false, ◌||◌, Option, some,
  ◌>>=◌, List, [], ◌∷◌, ◌==◌, u8, max, min, u16,
}
use danaos.Pic
use danaos.Pic.{Ports, Pic, is_enabled, data_master, data_slave}
use danaos.Pic.Masks.{IsDataPort, HoldsMasks, is_enabled-enable}
use danaos.Pit.{Timer, set_frequency, base_frequency, min_divisor, max_divisor}
use danaos.Task.Scheduler
use danaos.Task.Scheduler.{Scheduler, Result}

-- `irq::PIT`.
abbrev pub pit : ℕ
pit = 0

abbrev pub get_frequency : Timer → ℕ
get_frequency t = t.current_frequency

-- The context of the interrupted code and that of the one to go on with.
abbrev pub trigger : {C : Type 0} → ℕ → Scheduler C → C → Result (C × Scheduler C)
trigger fuel d frame = Scheduler.schedule fuel d frame

module _ {H : Type 0} (ports : Ports H) where
  abbrev pub write_all : List (ℕ × ℕ) → H → H
  write_all [] h = h
  write_all ((port, v) ∷ writes) h = write_all writes (ports.write h port v)

  abbrev pub enable : ℕ → Pic H → Pic H
  enable self d = Pic.enable ports d pit self

  abbrev pub disable : Pic H → Pic H
  disable d = Pic.disable ports d pit

  abbrev pub is_active : Pic H → Bool
  is_active d = is_enabled ports d pit

  unfoldable pub init : ℕ → ℕ → Pic H → Option (Timer × Pic H)
  init self freq d = do
    set ← set_frequency freq
    some (set.0, enable self (record d { hardware = write_all set.1 d.hardware }))

module _ {H : Type 0} (Ready : H → Type 0) (ports : Ports H) (masks : HoldsMasks Ready ports) where
  is_enabled_kept :
      (d : Pic H) (h : H) (other : ℕ)
      → ports.read h data_master ≡ ports.read d.hardware data_master
      → ports.read h data_slave ≡ ports.read d.hardware data_slave
      → is_enabled ports (record d { hardware = h }) other ≡ is_enabled ports d other
  unfolding is_enabled
  is_enabled_kept d h other m s = rw (m, s) refl

  -- The ports of the timer are neither those of the masks nor command ports.
  write_timer :
      (h : H) (port v : ℕ) → (port ≡ 67) ⊎ (port ≡ 64) → Ready h → Ready (ports.write h port v)
  write_timer h port v p r =
      masks.stays_ready h port v (λ e. ground (arith, e, p)) (λ e. ground (arith, e, p)) r

  write_timer_other :
      (h : H) (port v other : ℕ)
      → (port ≡ 67) ⊎ (port ≡ 64)
      → IsDataPort other
      → Ready h
      → ports.read (ports.write h port v) other ≡ ports.read h other
  write_timer_other h port v other p q r =
      masks.read_other h port other v q (λ e. ground (arith, e, p)) (λ e. ground (arith, e, p))
        (λ e. ground (arith, e, p, q)) r

  write_all_ready :
      (v1 v2 v3 : ℕ) (h : H)
      → Ready h
      → Ready (write_all ports ((67, v1) ∷ (64, v2) ∷ (64, v3) ∷ []) h)
  write_all_ready v1 v2 v3 h r =
      write_timer (ports.write (ports.write h 67 v1) 64 v2) 64 v3 (inr refl)
        (write_timer (ports.write h 67 v1) 64 v2 (inr refl) (write_timer h 67 v1 (inl refl) r))

  write_all_other :
      (v1 v2 v3 : ℕ) (h : H) (other : ℕ)
      → IsDataPort other
      → Ready h
      → ports.read (write_all ports ((67, v1) ∷ (64, v2) ∷ (64, v3) ∷ []) h) other
        ≡ ports.read h other
  write_all_other v1 v2 v3 h other q r =
      let first : Ready (ports.write h 67 v1) = write_timer h 67 v1 (inl refl) r in
      write_timer_other (ports.write (ports.write h 67 v1) 64 v2) 64 v3 other (inr refl) q
        (write_timer (ports.write h 67 v1) 64 v2 (inr refl) first)
      ∙ write_timer_other (ports.write h 67 v1) 64 v2 other (inr refl) q first
      ∙ write_timer_other h 67 v1 other (inl refl) q r

  -- Where the interrupt controller is ready, that is outside of its initialisation, its data ports give
  -- back the byte last written to them, and a write to a port that is no command port leaves it ready and
  -- the other data ports as they are, `init` with a frequency other than 0 leaves the timer active, with a
  -- divisor in its range; every other line is enabled or not as before.
  pub init-is_active :
      (self freq : ℕ) (d : Pic H)
      → 0 < freq
      → Ready d.hardware
      → (t : Timer) × (e : Pic H) × (init ports self freq d ≡ some (t, e))
        × (is_active ports e ≡ true)
        × ((other : ℕ)
            → 0 < other
            → other < 16
            → is_enabled ports e other ≡ is_enabled ports d other)
        × (min_divisor ≤ t.current_divisor)
        × (t.current_divisor ≤ max_divisor)
  unfolding init set_frequency
  init-is_active self freq d l r =
      let z : (freq == 0) ≡ false = ground arith in
      let divisor : ℕ = max (u16 (min (base_frequency / freq) max_divisor)) min_divisor in
      let writes : List (ℕ × ℕ) = (67, 52) ∷ (64, u8 divisor) ∷ (64, u8 (divisor / 256)) ∷ [] in
      let h : H = write_all ports writes d.hardware in
      let after = λ (other : ℕ) (l : other < 16).
        is_enabled-enable Ready ports masks (record d { hardware = h }) pit self other (omega arith)
          l (write_all_ready 52 (u8 divisor) (u8 (divisor / 256)) d.hardware r)
        ∙ ap (λ b. (pit == other) || b)
            (is_enabled_kept d h other
              (write_all_other 52 (u8 divisor) (u8 (divisor / 256)) d.hardware data_master
                (inl refl) r)
              (write_all_other 52 (u8 divisor) (u8 (divisor / 256)) d.hardware data_slave (inr refl)
                r)) in
      (
        record { current_divisor = divisor; current_frequency = u16 (base_frequency / divisor) },
        enable ports self (record d { hardware = h }),
        rw z refl,
        after pit (omega arith),
        λ other p q. after other q ∙ ground arith,
        omega arith,
        omega arith,
      )
