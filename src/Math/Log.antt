-- ===== src/Math/Log.antt =====
-- `powull` is the power where that fits 64 bits, and `logull` the integer logarithm.
use danaos.Prelude.{
  ℕ, zero, suc, ◌+◌, ◌*◌, ◌%◌, ◌^◌, ◌≤◌, ◌<◌, ◌≡◌, refl, some, arith, ◌∙◌, ap, sym,
}
use native.Mathlib.Nat.{
  pow-zero, pow-suc, pow-le-pow_left, one-le-pow, pow-le-pow_right, mod-eq_of_lt,
}
use native.Mathlib.Numerals.{add-one}
use native.Mathlib.Decide.{dec_lt}
use danaos.Math.{pow_loop, powull, log_loop, logull, RadixBase, bin, dec, hex, radix}

pow_loop_lem :
    (base exp res : ℕ)
    → 0 < base
    → res * base ^ exp < 2 ^ 64
    → pow_loop base exp res ≡ res * base ^ exp
unfolding pow_loop
pow_loop_lem base zero res p h = omega (arith, ap (λ (t : ℕ). res * t) (pow-zero base))
pow_loop_lem base (suc exp) res p h =
    let e : res * base * base ^ exp ≡ res * base ^ suc exp = rw pow-suc (omega arith) in
    let l : res * base ≤ res * base * base ^ exp = grind (arith, one-le-pow exp base p) in
    let w : res * base % 2 ^ 64 ≡ res * base = omega arith in
    rw w (pow_loop_lem base exp (res * base) p (omega arith) ∙ e)

-- `powull` is the power, where the power fits 64 bits.
pub powull-eq-pow : (base exp : ℕ) → 0 < base → base ^ exp < 2 ^ 64 → powull base exp ≡ base ^ exp
unfolding powull
powull-eq-pow base exp p h = pow_loop_lem base exp 1 p (omega arith) ∙ omega arith

-- A power that leaves the 64 bits wraps below the power before it, so that the loop sees it.
abbrev pub WrapsBelow : ℕ → Type 0
WrapsBelow base =
    (k : ℕ) → base ^ k < 2 ^ 64 → 2 ^ 64 ≤ base ^ suc k → base ^ suc k % 2 ^ 64 < base ^ k

-- The last power below 2 ^ 64 is the one with exponent `m`.
last_power :
    (base m : ℕ)
    → 0 < base
    → base ^ m < 2 ^ 64
    → 2 ^ 64 ≤ base ^ suc m
    → (k : ℕ) → base ^ k < 2 ^ 64
    → 2 ^ 64 ≤ base ^ suc k
    → k ≡ m
last_power base m p below above k l u = elim (dec_lt k m) [
  | yes q ↦ absurd (omega (arith, pow-le-pow_right {n = base} p {i = suc k} {j = m} q))
  | no q ↦ elim (dec_lt m k) [
    | yes r ↦ absurd (omega (arith, pow-le-pow_right {n = base} p {i = suc m} {j = k} r))
    | no r ↦ omega arith
  ]
]

two-WrapsBelow : WrapsBelow 2
two-WrapsBelow k l u =
    let e : k ≡ 63 = last_power 2 63 (omega arith) (omega arith) (omega arith) k l u in
    rw e (omega arith)

ten-WrapsBelow : WrapsBelow 10
ten-WrapsBelow k l u =
    let e : k ≡ 19 = last_power 10 19 (omega arith) (omega arith) (omega arith) k l u in
    rw e (omega arith)

sixteen-WrapsBelow : WrapsBelow 16
sixteen-WrapsBelow k l u =
    let e : k ≡ 15 = last_power 16 15 (omega arith) (omega arith) (omega arith) k l u in
    rw e (omega arith)

-- `r` is the integer logarithm of `arg`.
abbrev pub IsLog : ℕ → ℕ → ℕ → Type 0
IsLog base arg r = (base ^ r ≤ arg) × (arg < base ^ suc r)

module _ (base arg : ℕ) (two : 2 ≤ base) (wraps : WrapsBelow base) (fits : arg < 2 ^ 64) where
  grows : (k : ℕ) → base ^ k < base ^ suc k
  grows k = grind (arith, pow-suc base k, one-le-pow k base (omega arith))

  -- The exponent stays below 64.
  few_rounds : (res : ℕ) → base ^ res ≤ arg → 64 < res → ⊥
  few_rounds res l h = omega (
    arith,
    pow-le-pow_left two res,
    pow-le-pow_right {n = 2} (omega arith) {i = 64} {j = res} (omega arith),
  )

  -- One round of the loop, by where the next power lies.
  log_loop-wrapped :
      (fuel res : ℕ)
      → base ^ res ≤ arg
      → 2 ^ 64 ≤ base ^ suc res
      → log_loop (suc fuel) base arg res (base ^ res) (base ^ res) ≡ some res
  unfolding log_loop
  log_loop-wrapped fuel res l w =
      let low : base ^ suc res % 2 ^ 64 < base ^ res = wraps res (omega arith) w in
      rw (← pow-suc) (ground arith)

  log_loop-above :
      (fuel res : ℕ)
      → arg < base ^ suc res
      → base ^ suc res < 2 ^ 64
      → log_loop (suc fuel) base arg res (base ^ res) (base ^ res) ≡ some res
  unfolding log_loop
  log_loop-above fuel res a w = rw (← pow-suc, mod-eq_of_lt w) (ground arith)

  log_loop-next :
      (fuel res : ℕ)
      → base ^ suc res ≤ arg
      → log_loop (suc fuel) base arg res (base ^ res) (base ^ res)
        ≡ log_loop fuel base arg (suc res) (base ^ suc res) (base ^ suc res)
  unfolding log_loop
  log_loop-next fuel res l =
      let w : base ^ suc res < 2 ^ 64 = omega arith in
      rw (← pow-suc, mod-eq_of_lt w, add-one) (ground (arith, grows res))

  log_loop-IsLog :
      (fuel res : ℕ)
      → base ^ res ≤ arg
      → 64 < res + fuel
      → (r : ℕ) × (log_loop fuel base arg res (base ^ res) (base ^ res) ≡ some r) × IsLog base arg r
  log_loop-IsLog zero res l f = absurd (few_rounds res l (omega arith))
  log_loop-IsLog (suc fuel) res l f = elim (dec_lt arg (base ^ suc res)) [
    | no q ↦
        (let rest = log_loop-IsLog fuel (suc res) (omega arith) (omega arith) in
          (rest.0, log_loop-next fuel res (omega arith) ∙ rest.1, rest.2))
    | yes q ↦ elim (dec_lt (base ^ suc res) (2 ^ 64)) [
      | yes w ↦ (res, log_loop-above fuel res q w, (l, q))
      | no w ↦ (res, log_loop-wrapped fuel res l (omega arith), (l, q))
    ]
  ]

  logull-IsLog_pos : 0 < arg → (r : ℕ) × (logull base arg ≡ some r) × IsLog base arg r
  unfolding logull
  logull-IsLog_pos p =
      let z : base ^ 0 ≡ 1 = pow-zero base in
      let found = log_loop-IsLog 65 0 (omega arith) (omega arith) in
      (found.0, ap (λ (t : ℕ). log_loop 65 base arg 0 t t) (sym z) ∙ found.1, found.2)

radix-WrapsBelow : (b : RadixBase) → WrapsBelow (radix b)
radix-WrapsBelow bin = two-WrapsBelow
radix-WrapsBelow dec = ten-WrapsBelow
radix-WrapsBelow hex = sixteen-WrapsBelow

pub radix-le : (b : RadixBase) → 2 ≤ radix b
radix-le b = ground arith

-- In the bases 2, 10 and 16, for every positive 64-bit number, `logull` ends and is the integer
-- logarithm: the base to its result is at most the number, and to the next exponent is above it.
pub logull-IsLog :
    (b : RadixBase) (arg : ℕ)
    → 0 < arg
    → arg < 2 ^ 64
    → (r : ℕ) × (logull (radix b) arg ≡ some r) × IsLog (radix b) arg r
logull-IsLog b arg p fits = logull-IsLog_pos (radix b) arg (radix-le b) (radix-WrapsBelow b) fits p

pub logull_zero : (b : RadixBase) → logull (radix b) 0 ≡ some 0
unfolding logull log_loop
logull_zero bin = refl
logull_zero dec = refl
logull_zero hex = refl
