-- ===== src/Prelude/Bytes.antt =====
-- Little-endian words in a memory by bytes. Addresses that wrap are left out.
use Prim.Native.Nat.{ℕ, ◌+◌, ◌*◌, ◌/◌, ◌%◌, ◌^◌, ◌≤◌, ◌<◌}
use mathlib.Core.Path.{◌≡◌, ◌∙◌, ap}
use mathlib.Core.Logic.{◌⊎◌}
use native.Mathlib.Omega.{arith}
use danaos.Prelude.Memory.{update}

abbrev pub read16 : (ℕ → ℕ) → ℕ → ℕ
read16 mem a = mem a + 256 * mem (a + 1)

abbrev pub read32 : (ℕ → ℕ) → ℕ → ℕ
read32 mem a = read16 mem a + 65536 * read16 mem (a + 2)

abbrev pub read64 : (ℕ → ℕ) → ℕ → ℕ
read64 mem a = read32 mem a + 4294967296 * read32 mem (a + 4)

abbrev pub write32 : (ℕ → ℕ) → ℕ → ℕ → ℕ → ℕ
write32 mem a v =
    update
      (update (update (update mem a (v % 256)) (a + 1) (v / 256 % 256)) (a + 2) (v / 65536 % 256))
      (a + 3) (v / 16777216 % 256)

pub read16_agree :
    (m m' : ℕ → ℕ) (a : ℕ) → ((j : ℕ) → a ≤ j → j < a + 2 → m j ≡ m' j) → read16 m a ≡ read16 m' a
read16_agree m m' a h =
    omega (arith, h a (omega arith) (omega arith), h (a + 1) (omega arith) (omega arith))

-- Words of the same four bytes.
pub read32_moved :
    (m m' : ℕ → ℕ) (a b : ℕ) → ((k : ℕ) → k < 4 → m (a + k) ≡ m' (b + k)) → read32 m a ≡ read32 m' b
read32_moved m m' a b h =
    let third : m (a + 2 + 1) ≡ m' (b + 2 + 1) =
      ap m (omega arith) ∙ h 3 (omega arith) ∙ ap m' (omega arith) in
    let zeroth : m a ≡ m' b = ap m (omega arith) ∙ h 0 (omega arith) ∙ ap m' (omega arith) in
    omega (arith, zeroth, h 1 (omega arith), h 2 (omega arith), third)

pub read32_agree :
    (m m' : ℕ → ℕ) (a : ℕ) → ((j : ℕ) → a ≤ j → j < a + 4 → m j ≡ m' j) → read32 m a ≡ read32 m' a
read32_agree m m' a h = read32_moved m m' a a (λ k l. h (a + k) (omega arith) (omega arith))

pub read32-write32 : (mem : ℕ → ℕ) (a v : ℕ) → v < 2 ^ 32 → read32 (write32 mem a v) a ≡ v
read32-write32 mem a v h = ground arith

-- A write changes four bytes.
pub write32_other : (mem : ℕ → ℕ) (a v j : ℕ) → (j < a) ⊎ (a + 4 ≤ j) → write32 mem a v j ≡ mem j
write32_other mem a v j h = ground arith

pub read32-write32_other :
    (mem : ℕ → ℕ) (a v b : ℕ)
    → (b + 4 ≤ a) ⊎ (a + 4 ≤ b)
    → read32 (write32 mem a v) b ≡ read32 mem b
read32-write32_other mem a v b h =
    read32_agree (write32 mem a v) mem b (λ j p q. write32_other mem a v j (ground arith))
