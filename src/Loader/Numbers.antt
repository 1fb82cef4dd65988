-- ===== src/Loader/Numbers.antt =====
-- The numbers on the screen of the boot loader: `powull` and `logull` of bootloader/src/util/math.c,
-- over 32 bits, and `print_uint` and `print_int` of bootloader/src/devices/cga.c.
use danaos.Prelude.{
  ℕ, zero, suc, ◌+◌, ◌-◌, ◌/◌, ◌^◌, ◌≤◌, ◌<◌, ◌≡◌, ◌∙◌, refl, arith, Bool, true, false, not, ◌&&◌,
  Option, none, some, ◌>>=◌, List, [], ◌∷◌, ◌++◌, ltb, leb, ◌==◌, if◌then◌else◌, u8, u32, sub32,
  mul32,
}
use native.Mathlib.Nat.{pow-suc, pow-le-pow_right}
use native.Mathlib.Decide.{dec_lt}
use danaos.Loader.Screen.{Screen, print}
use danaos.Math.Log.{IsLog}

unfoldable pub pow_loop : ℕ → ℕ → ℕ → ℕ
pow_loop base zero res = res
pow_loop base (suc exp) res = pow_loop base exp (mul32 res base)

unfoldable pub powull : ℕ → ℕ → ℕ
powull base exp = pow_loop base exp 1

-- The loop of `logull`, with fuel; `temp` is multiplied in the test.
unfoldable pub log_loop : ℕ → ℕ → ℕ → ℕ → ℕ → ℕ → Option ℕ
log_loop zero base arg res temp old_temp = none
log_loop (suc fuel) base arg res temp old_temp =
    let temp' = mul32 temp base in
    let rest = log_loop fuel base arg (res + 1) temp' temp' in
    if leb temp' arg then (if ltb temp' old_temp then some res else rest) else some res

-- For the base 1 the loop has no end.
unfoldable pub logull : ℕ → ℕ → Option ℕ
logull base arg = log_loop 33 base arg 0 1 1

abbrev pub figure : ℕ → ℕ
figure digit = u8 (digit + 48 + (if ltb 9 digit then 7 else 0))

-- The loop over the figures, with the figures left. A division by 0 is `none`.
unfoldable pub figures : ℕ → ℕ → ℕ → Option (List ℕ)
figures base zero val = some []
figures base (suc i) val =
    let curr_fig = powull base i in
    let curr_digit = val / curr_fig in
    let rest : Option (List ℕ) = (do
      others ← figures base i (sub32 val (mul32 curr_digit curr_fig))
      some (figure curr_digit ∷ others)) in
    if curr_fig == 0 then none else rest

abbrev pub prefix : ℕ → List ℕ
prefix base = if base == 2 then b'0' ∷ b'b' ∷ [] else if base == 16 then b'0' ∷ b'x' ∷ [] else []

unfoldable pub figures_of : ℕ → ℕ → Option (List ℕ)
figures_of val base = do
  log ← logull base val
  chars ← figures base (log + 1) val
  some (prefix base ++ chars)

abbrev pub is_usual : ℕ → Bool
is_usual base = not (not (base == 2) && (not (base == 10) && not (base == 16)))

-- The characters of `print_uint`. The number of an unusual base follows in base 10.
unfoldable pub chars_uint : ℕ → ℕ → Option (List ℕ)
chars_uint val base = do
  chars ← figures_of val base
  suffix ← figures_of base 10
  some (if is_usual base then chars else chars ++ b'_' ∷ suffix)

unfoldable pub print_uint : ℕ → ℕ → Screen → Option Screen
print_uint val base s = do chars ← chars_uint val base; some (print chars s)

-- `val` by its 32 bits; the lowest one stays itself.
unfoldable pub print_int : ℕ → ℕ → Screen → Option Screen
print_int val base s =
    if ltb val (2 ^ 31)
    then print_uint val base s
    else print_uint (u32 (2 ^ 32 - val)) base (print (b'-' ∷ []) s)

-- `2 ^ 32` leaves 10 ^ 10 this remainder, which is above the power before it.
abbrev wrapped : ℕ
wrapped = 1410065408

logull_above : (arg : ℕ) → wrapped ≤ arg → arg < 2 ^ 32 → logull 10 arg ≡ some 10
unfolding logull log_loop
logull_above arg l h = ground arith

log_loop-next :
    (fuel res arg : ℕ)
    → 10 ^ suc res ≤ arg
    → arg < wrapped
    → log_loop (suc fuel) 10 arg res (10 ^ res) (10 ^ res)
      ≡ log_loop fuel 10 arg (res + 1) (10 ^ suc res) (10 ^ suc res)
unfolding log_loop
log_loop-next fuel res arg l w =
    let e : mul32 (10 ^ res) 10 ≡ 10 ^ suc res = omega (arith, pow-suc 10 res) in
    rw e (ground (arith, pow-suc 10 res))

log_loop-stop :
    (fuel res arg : ℕ)
    → arg < 10 ^ suc res
    → 10 ^ suc res < 2 ^ 32
    → log_loop (suc fuel) 10 arg res (10 ^ res) (10 ^ res) ≡ some res
unfolding log_loop
log_loop-stop fuel res arg l w =
    let e : mul32 (10 ^ res) 10 ≡ 10 ^ suc res = omega (arith, pow-suc 10 res) in
    rw e (ground arith)

log_loop-last :
    (fuel arg : ℕ) → arg < wrapped → log_loop (suc fuel) 10 arg 9 (10 ^ 9) (10 ^ 9) ≡ some 9
unfolding log_loop
log_loop-last fuel arg w = ground arith

log_loop-IsLog :
    (fuel res arg : ℕ)
    → 10 ≤ res + fuel
    → res ≤ 9
    → 10 ^ res ≤ arg
    → arg < wrapped
    → (r : ℕ) × (log_loop fuel 10 arg res (10 ^ res) (10 ^ res) ≡ some r) × IsLog 10 arg r
log_loop-IsLog zero res arg f n l w = absurd (omega arith)
log_loop-IsLog (suc fuel) res arg f n l w = elim (dec_lt res 9) [
  | no q ↦
      (let e : res ≡ 9 = omega arith in
        (9, rw e (log_loop-last fuel arg w), (rw e at l, omega arith)))
  | yes q ↦
      (let few : 10 ^ suc res ≤ 10 ^ 9 =
          pow-le-pow_right {n = 10} (omega arith) {i = suc res} {j = 9} q in
        elim (dec_lt arg (10 ^ suc res)) [
          | yes p ↦ (res, log_loop-stop fuel res arg p (omega arith), (l, p))
          | no p ↦
              (let s : suc res ≡ res + 1 = omega arith in
                let rest =
                  log_loop-IsLog fuel (suc res) arg (omega arith) (omega arith) (omega arith) w in
                (rest.0, log_loop-next fuel res arg (omega arith) w ∙ rw (← s) (rest.1), rest.2))
        ])
]

-- In base 10 the logarithm of the boot loader ends for every positive 32-bit number. Below
-- 1410065408, the remainder of 10 ^ 10, it is the integer logarithm; from there on it is 10, one more
-- than the integer logarithm.
pub boot_logull_lem :
    (arg : ℕ)
    → 0 < arg
    → arg < 2 ^ 32
    → (r : ℕ) × (logull 10 arg ≡ some r)
      × (if ltb arg 1410065408 then IsLog 10 arg r else ((r ≡ 10) × IsLog 10 arg 9))
unfolding logull
boot_logull_lem arg p l = elim (dec_lt arg wrapped) [
  | yes q ↦
      (let found = log_loop-IsLog 33 0 arg (omega arith) (omega arith) (omega arith) q in
        let below : ltb arg 1410065408 ≡ true = ground arith in
        (found.0, found.1, rw below (found.2)))
  | no q ↦
      (let above : ltb arg 1410065408 ≡ false = ground arith in
        (10, logull_above arg (omega arith) l, rw above (refl, (omega arith, omega arith))))
]
