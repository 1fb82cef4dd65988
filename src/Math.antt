-- ===== src/Math.antt =====
-- `math::powull` and `math::logull` of kernel/src/libk/math.cc, over `unsigned long long`.
pub mod Log
use danaos.Prelude.{ℕ, zero, suc, ◌+◌, ◌*◌, ◌%◌, ◌^◌, Option, none, some, leb, ltb, if◌then◌else◌}

abbrev pub u64 : ℕ → ℕ
u64 n = n % 2 ^ 64

-- The loop of `powull`, from the value `res` on.
pow_loop : ℕ → ℕ → ℕ → ℕ
pow_loop base zero res = res
pow_loop base (suc exp) res = pow_loop base exp (u64 (res * base))

unfoldable pub powull : ℕ → ℕ → ℕ
unfolding pow_loop
powull base exp = pow_loop base exp 1

-- The loop of `logull`, with fuel; `temp` is multiplied in the test.
unfoldable pub log_loop : ℕ → ℕ → ℕ → ℕ → ℕ → ℕ → Option ℕ
log_loop zero base arg res temp old_temp = none
log_loop (suc fuel) base arg res temp old_temp =
    let temp' = u64 (temp * base) in
    let rest = log_loop fuel base arg (res + 1) temp' temp' in
    if leb temp' arg then (if ltb temp' old_temp then some res else rest) else some res

-- 64 rounds are enough for a base of at least 2.
unfoldable pub logull : ℕ → ℕ → Option ℕ
logull base arg = log_loop 65 base arg 0 1 1

-- `radix_base` of kernel/src/main/console.h, the bases that the console prints in.
pub data RadixBase : Type 0 where
  bin dec hex : RadixBase

abbrev pub radix : RadixBase → ℕ
radix bin = 2
radix dec = 10
radix hex = 16
