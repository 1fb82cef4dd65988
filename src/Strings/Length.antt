-- ===== src/Strings/Length.antt =====
-- `strlen` of kernel/src/libk/string.cc.
use danaos.Prelude.{
  ℕ, zero, suc, ◌+◌, ◌<◌, ◌≡◌, ◌≢◌, ◌∙◌, ap, arith, Option, none, some, ◌==◌, if◌then◌else◌,
}

-- The loop, with fuel; a string that is longer gives no answer.
unfoldable pub length_from : ℕ → (ℕ → ℕ) → ℕ → ℕ → Option ℕ
length_from zero mem str len = none
length_from (suc fuel) mem str len =
    let rest = length_from fuel mem (str + 1) (len + 1) in if mem str == 0 then some len else rest

unfoldable pub strlen : ℕ → (ℕ → ℕ) → ℕ → Option ℕ
strlen fuel mem str = length_from fuel mem str 0

length_from_lem :
    (n fuel : ℕ) (mem : ℕ → ℕ) (str len : ℕ)
    → n < fuel
    → mem (str + n) ≡ 0
    → ((i : ℕ) → i < n → mem (str + i) ≢ 0)
    → length_from fuel mem str len ≡ some (len + n)
unfolding length_from
length_from_lem n zero mem str len l z h = absurd (omega arith)
length_from_lem zero (suc fuel) mem str len l z h =
    let e : str + 0 ≡ str = omega arith in let z' : mem str ≡ 0 = rw e at z in ground arith
length_from_lem (suc n) (suc fuel) mem str len l z h =
    let e : str + 0 ≡ str = omega arith in
    let first : mem str ≢ 0 = rw e at (h 0 (omega arith)) in
    let later : (i : ℕ) → str + suc i ≡ str + 1 + i = λ i. omega arith in
    ground (
      arith,
      length_from_lem n fuel mem (str + 1) (len + 1) (omega arith) (rw (later n) at z)
          (λ i q. rw (later i) at (h (suc i) (omega arith))),
    )

-- The length of a string is the place of its first null, with a round for each byte up to it.
pub strlen_lem :
    (n fuel : ℕ) (mem : ℕ → ℕ) (str : ℕ)
    → n < fuel
    → mem (str + n) ≡ 0
    → ((i : ℕ) → i < n → mem (str + i) ≢ 0)
    → strlen fuel mem str ≡ some n
unfolding strlen
strlen_lem n fuel mem str l z h = length_from_lem n fuel mem str 0 l z h ∙ ap some (omega arith)
