-- ===== src/Prelude/Memory.antt =====
-- Memory as a function of the index, and writes to one place.
use Prim.Native.Nat.{ℕ}
use danaos.Prelude.Tests.{◌==◌, if◌then◌else◌}

abbrev pub update {ℓ} : {A : Type ℓ} → (ℕ → A) → ℕ → A → ℕ → A
update m i v j = if i == j then v else m j
