-- ===== src/Pit/Laws.antt =====
-- The divisor and the frequency that the timer keeps for a requested frequency.
use danaos.Prelude.{
  ℕ, ◌+◌, ◌*◌, ◌/◌, ◌%◌, ◌<◌, ◌≤◌, ◌≡◌, refl, arith, min, max, some, [], ◌∷◌, ◌==◌, u8, u16, false,
}
use native.Mathlib.Nat.{div-lt_iff_lt-mul, div-add-mod'}
use danaos.Pit.{Timer, set_frequency}

-- The divisor that was asked for is in the range of the timer.
divisor_range :
    (freq : ℕ) → 19 ≤ freq → freq ≤ 62799 → (19 ≤ 1193182 / freq) × (1193182 / freq ≤ 62799)
divisor_range freq l h =
    let low : ¬ (1193182 / freq < 19) = λ q.
      (let m : 1193182 < 19 * freq = (div-lt_iff_lt-mul {x = 1193182} {y = 19} (omega arith)).0 q in
        omega arith) in
    let high : 1193182 / freq < 62800 =
      (div-lt_iff_lt-mul {x = 1193182} {y = 62800} (omega arith)).1 (omega arith) in
    (omega (arith, low), omega arith)

-- For a frequency from 19 to 62799 Hz the timer keeps the divisor of the base frequency by it, and
-- its own frequency is the one that this divisor gives, at least the frequency that was asked for.
-- Both bytes of the divisor are written to channel 0, the low one first.
pub set_frequency_lem :
    (freq : ℕ)
    → 19 ≤ freq
    → freq ≤ 62799
    → (t : Timer) × (set_frequency freq
        ≡ some (t, (67, 52) ∷ (64, t.current_divisor % 256) ∷ (64, t.current_divisor / 256) ∷ []))
      × (t.current_divisor ≡ 1193182 / freq)
      × (t.current_frequency ≡ 1193182 / t.current_divisor)
      × (freq ≤ t.current_frequency)
unfolding set_frequency
set_frequency_lem freq l h =
    let r = divisor_range freq l h in
    let d : ℕ = 1193182 / freq in
    let divisor : max (u16 (min d 65535)) 2 ≡ d = omega (arith, r) in
    let sum : d * freq + 1193182 % freq ≡ 1193182 = div-add-mod' 1193182 freq in
    let not_zero : (freq == 0) ≡ false = ground arith in
    let high : u8 (d / 256) ≡ d / 256 = omega (arith, r) in
    let e : 1193182 / d < 65536 =
      (div-lt_iff_lt-mul {x = 1193182} {y = 65536} (omega (arith, r))).1 (omega (arith, r)) in
    let kept : u16 (1193182 / d) ≡ 1193182 / d = omega arith in
    let above : ¬ (1193182 / d < freq) = λ q.
      (let m : 1193182 < freq * d =
          (div-lt_iff_lt-mul {x = 1193182} {y = freq} (omega (arith, r))).0 q in
        absurd (omega (arith))) in
    (
      record { current_divisor = d; current_frequency = 1193182 / d },
      rw (divisor, not_zero, kept, high) refl,
      refl,
      refl,
      omega (arith, above),
    )
