-- ===== src/Strings/Compare.antt =====
-- `strncmp` on strings that agree in all the characters to compare.
use danaos.Prelude.{
  ℕ, ap, sym, refl, not, ◌&&◌, zero, suc, ◌+◌, ◌<◌, ◌≡◌, ◌≢◌, ◌∙◌, arith, ◌==◌, if◌then◌else◌,
}
use danaos.Strings.{Order, less, same, greater, char_lt, strncmp, compare_end}

first_same :
    (mem : ℕ → ℕ) (str1 str2 : ℕ) (rest end : Order)
    → mem str1 ≡ mem str2
    → mem str1 ≢ 0
    → (if not (mem str1 == 0) && not (mem str2 == 0)
        then (if char_lt (mem str1) (mem str2)
            then less
            else (if char_lt (mem str2) (mem str1) then greater else rest))
        else end)
      ≡ rest
first_same mem str1 str2 rest end e n = ground arith

-- Where the first `count` characters of two strings are the same and none of them ends a string,
-- `strncmp` answers by the characters behind them, which are not to be compared.
pub strncmp_past_count :
    (count : ℕ) (mem : ℕ → ℕ) (str1 str2 : ℕ)
    → ((i : ℕ) → i < count → mem (str1 + i) ≡ mem (str2 + i))
    → ((i : ℕ) → i < count → mem (str1 + i) ≢ 0)
    → strncmp mem str1 str2 count ≡ (
        if mem (str1 + count) == mem (str2 + count)
        then same
        else (if mem (str1 + count) == 0 then less else greater))
unfolding strncmp compare_end
strncmp_past_count zero mem str1 str2 e n =
    let one : str1 + 0 ≡ str1 = omega arith in
    let two : str2 + 0 ≡ str2 = omega arith in rw (one, two) (ground arith)
strncmp_past_count (suc count) mem str1 str2 e n =
    let one : (i : ℕ) → str1 + 1 + i ≡ str1 + suc i = λ i. omega arith in
    let two : (i : ℕ) → str2 + 1 + i ≡ str2 + suc i = λ i. omega arith in
    let start : (str1 + 0 ≡ str1) × (str2 + 0 ≡ str2) = (omega arith, omega arith) in
    let e0 : mem str1 ≡ mem str2 = ap mem (sym start.0) ∙ e 0 (omega arith) ∙ ap mem start.1 in
    let n0 : mem str1 ≢ 0 = λ z. n 0 (omega arith) (ap mem start.0 ∙ z) in
    let rest =
      strncmp_past_count count mem (str1 + 1) (str2 + 1)
        (λ i l. ap mem (one i) ∙ e (suc i) (omega arith) ∙ ap mem (sym (two i)))
        (λ i l z. n (suc i) (omega arith) (ap mem (sym (one i)) ∙ z)) in
    first_same mem str1 str2 (strncmp mem (str1 + 1) (str2 + 1) count)
      (compare_end count (mem str1) (mem str2)) e0 n0
    ∙ rest
    ∙ rw (one count, two count) refl
