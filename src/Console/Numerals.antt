-- ===== src/Console/Numerals.antt =====
-- The numerals that the console prints: their digits, most significant first.
use danaos.Prelude.{
  ℕ, zero, suc, ◌⊎◌, inl, inr, ◌+◌, ◌-◌, ◌*◌, ◌/◌, ◌%◌, ◌^◌, ◌≤◌, ◌<◌, ◌≡◌, refl, sym, List, [],
  ◌∷◌, ◌++◌, leb, if◌then◌else◌, arith, some, length, ap, ◌∙◌,
}
use native.Mathlib.Decide.{dec_lt}
use native.Mathlib.Nat.{pow-zero, pow-suc, one-le-pow, mod-lt, div-add-mod', div-lt_iff_lt-mul}
use danaos.Math.{RadixBase, bin, dec, hex, radix, powull, logull}
use danaos.Math.Log.{powull-eq-pow, logull-IsLog, logull_zero, radix-le}
use danaos.Console.{
  Console, put, print_text, print_figures, print_number, print_count, digit_char, base_prefix,
}

-- The number that a list of digits stands for, read from the left after the value `acc`.
unfoldable pub read_digits : ℕ → List ℕ → ℕ → ℕ
read_digits base [] acc = acc
read_digits base (digit ∷ digits) acc = read_digits base digits (acc * base + digit)

unfoldable pub print_digits : Console → List ℕ → Console
print_digits d [] = d
print_digits d (digit ∷ digits) = print_digits (put d (digit_char digit)) digits

-- The character of a digit: those from 10 on are the capital letters.
abbrev pub numeral : ℕ → ℕ
numeral digit = if leb digit 9 then b'0' + digit else b'A' + (digit - 10)

abbrev pub numerals : List ℕ → List ℕ
numerals [] = []
numerals (digit ∷ digits) = numeral digit ∷ numerals digits

-- What the numbers of a base start with.
abbrev pub notation : RadixBase → List ℕ
notation bin = b'0' ∷ b'b' ∷ []
notation dec = []
notation hex = b'0' ∷ b'x' ∷ []

-- Every one of the digits is below the base.
pub data Digits : ℕ → List ℕ → Type 0 where
  done : {base : ℕ} → Digits base []
  next :
      {base : ℕ} {digit : ℕ} {digits : List ℕ}
      → digit < base
      → Digits base digits
      → Digits base (digit ∷ digits)

digit_char-numeral : (digit : ℕ) → digit < 16 → digit_char digit ≡ numeral digit
digit_char-numeral digit l = ground arith

base_prefix-notation : (b : RadixBase) → base_prefix b ≡ notation b
base_prefix-notation bin = refl
base_prefix-notation dec = refl
base_prefix-notation hex = refl

radix-le_16 : (b : RadixBase) → radix b ≤ 16
radix-le_16 bin = omega arith
radix-le_16 dec = omega arith
radix-le_16 hex = omega arith

print_digits-numerals :
    (base : ℕ) (digits : List ℕ) (d : Console)
    → base ≤ 16
    → Digits base digits
    → print_digits d digits ≡ print_text d (numerals digits)
unfolding print_digits print_text
print_digits-numerals base [] d b done = refl
print_digits-numerals base (digit ∷ digits) d b (next l rest) =
    rw (digit_char-numeral digit (omega arith))
      (print_digits-numerals base digits (put d (numeral digit)) b rest)

print_text-append :
    (d : Console) (xs ys : List ℕ) → print_text d (xs ++ ys) ≡ print_text (print_text d xs) ys
unfolding print_text
print_text-append d [] ys = refl
print_text-append d (x ∷ xs) ys = print_text-append (put d x) xs ys

lt_of_mul-lt : (base p m : ℕ) → p * base < m * base → p < m
lt_of_mul-lt base p m l = elim (dec_lt p m) [
  | yes q ↦ q
  | no n ↦ (let le : m ≤ p = omega arith in absurd (grind arith))
]

figure_step :
    (base p val : ℕ)
    → 0 < p
    → val < p * base
    → (val / p < base) × (val - val / p * p < p) × (val / p * p ≤ val)
figure_step base p val z l =
    let low : val % p < p = mod-lt val z in
    let sum : val / p * p + val % p ≡ val = div-add-mod' val p in
    ((div-lt_iff_lt-mul {x = val} {y = base} z).1 (omega arith), omega arith, omega arith)

module _ (base : ℕ) (two : 2 ≤ base) where
  -- The loop prints `i` digits, which stand for the value.
  DigitRun : Console → ℕ → ℕ → Type 0
  DigitRun d i val =
      (digits : List ℕ) × (print_figures d base i val ≡ print_digits d digits)
      × (length digits ≡ i)
      × Digits base digits
      × ((acc : ℕ) → read_digits base digits acc ≡ acc * base ^ i + val)

  print_figures-DigitRun :
      (i val : ℕ) (d : Console) → val < base ^ i → base ^ i < 2 ^ 64 * base → DigitRun d i val
  unfolding DigitRun print_figures read_digits print_digits
  print_figures-DigitRun zero val d l w = (
    [],
    refl,
    refl,
    done,
    λ (acc : ℕ).
        let e : acc ≡ acc * base ^ 0 + val =
          omega (arith, ap (λ (t : ℕ). acc * t) (pow-zero base), pow-zero base) in
        e,
  )
  print_figures-DigitRun (suc i) val d l w =
      let pos : 1 ≤ base ^ i = one-le-pow i base (omega arith) in
      let e : base ^ suc i ≡ base ^ i * base = pow-suc base i in
      let small : base ^ i < 2 ^ 64 = lt_of_mul-lt base (base ^ i) (2 ^ 64) (omega arith) in
      let fig : powull base i ≡ base ^ i = powull-eq-pow base i (omega arith) small in
      let digit : ℕ = val / base ^ i in
      let step = figure_step base (base ^ i) val pos (omega arith) in
      let rest =
        print_figures-DigitRun i (val - digit * base ^ i) (put d (digit_char digit)) step.1
          (omega arith) in
      (
        digit ∷ rest.0,
        ap (λ (t : ℕ). print_figures (put d (digit_char (val / t))) base i (val - val / t * t)) fig
            ∙ rest.1,
        ap suc rest.2,
        next step.0 rest.3,
        λ (acc : ℕ). rest.4 (acc * base + digit) ∙ grind (arith, e, step.2),
      )

-- What is printed for a number: the text of the base's notation and of digits below the base that
-- stand for the number, one more than `log`.
pub Printed : Console → ℕ → ℕ → Type 0
Printed d val log =
    (digits : List ℕ) × (print_number d val
      ≡ some (print_text d (notation d.base ++ numerals digits)))
    × (length digits ≡ suc log)
    × Digits (radix d.base) digits
    × (read_digits (radix d.base) digits 0 ≡ val)

print_count-Printed :
    (d : Console) (val log : ℕ)
    → logull (radix d.base) val ≡ some log
    → val < radix d.base ^ suc log
    → radix d.base ^ log < 2 ^ 64
    → Printed d val log
unfolding Printed DigitRun print_number
print_count-Printed d val log e l w =
    let plus : log + 1 ≡ suc log = omega arith in
    let scale : radix d.base ^ suc log < 2 ^ 64 * radix d.base =
      grind (arith, pow-suc (radix d.base) log, radix-le d.base) in
    let f =
      print_figures-DigitRun (radix d.base) (radix-le d.base) (suc log) val
        (print_text d (base_prefix d.base)) l scale in
    (
      f.0,
      ap (print_count d val) e
          ∙ ap
              (λ (t : ℕ).
                some (print_figures (print_text d (base_prefix d.base)) (radix d.base) t val))
              plus
          ∙ ap some (
              f.1
              ∙ print_digits-numerals (radix d.base) f.0 (print_text d (base_prefix d.base))
                  (radix-le_16 d.base) f.3
              ∙ ap (λ t. print_text (print_text d t) (numerals f.0)) (base_prefix-notation d.base)
              ∙ sym (print_text-append d (notation d.base) (numerals f.0))),
      f.2,
      f.3,
      f.4 0 ∙ omega arith,
    )

-- In the bases 2, 10 and 16, every 64-bit number is printed: after 0b, nothing or 0x come the
-- characters 0 to 9 and A to F of digits below the base that stand for the number, one more than its
-- integer logarithm, so that no positive number starts with a 0.
pub print_number-Printed :
    (d : Console) (val : ℕ)
    → val < 2 ^ 64
    → (log : ℕ) × Printed d val log × ((val ≡ 0) ⊎ (radix d.base ^ log ≤ val))
print_number-Printed d val fits = elim (dec_lt 0 val) [
  | yes p ↦
      let l = logull-IsLog d.base val p fits in
      (l.0, print_count-Printed d val l.0 l.1 l.2.1 (omega (arith, l.2.0)), inr l.2.0)
  | no n ↦
      let z : val ≡ 0 = omega arith in
      let pos : 1 ≤ radix d.base = omega (arith, radix-le d.base) in
      (
        0,
        print_count-Printed d val 0 (ap (logull (radix d.base)) z ∙ logull_zero d.base)
            (omega (arith, one-le-pow 1 (radix d.base) pos))
            (omega (arith, pow-zero (radix d.base))),
        inl z,
      )
]
