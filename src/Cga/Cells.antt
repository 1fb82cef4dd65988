-- ===== src/Cga/Cells.antt =====
-- The cells of the screen: distinct positions have distinct places in the buffer.
use danaos.Prelude.{ℕ, ◌+◌, ◌*◌, ◌^◌, ◌≤◌, ◌<◌, ◌≡◌, ◌&&◌, ◌==◌, if◌then◌else◌, arith, u32, ap}
use native.Mathlib.Decide.{dec_lt}
use danaos.Cga.{buffer_index, write_cell}

-- The screen has a cell at `x`, `y`.
abbrev pub OnScreen : ℕ → ℕ → ℕ → ℕ → Type 0
OnScreen width height x y = (x < width) × (y < height)

-- The buffer of the screen fits the address space.
abbrev pub Fits : ℕ → ℕ → Type 0
Fits width height = 2 * (width * height) ≤ 2 ^ 32

cell_index-lt : (width height x y : ℕ) → OnScreen width height x y → y * width + x < width * height
cell_index-lt width height x y on = grind arith

pub index_plain :
    (width height x y : ℕ)
    → Fits width height
    → OnScreen width height x y
    → (buffer_index width x y ≡ 2 * (y * width + x))
      × (u32 (2 * (y * width + x) + 1) ≡ 2 * (y * width + x) + 1)
index_plain width height x y f on = omega (arith, cell_index-lt width height x y on)

earlier_row : (width x y x' y' : ℕ) → x < width → y < y' → y * width + x < y' * width + x'
earlier_row width x y x' y' l p = grind arith

cell_index_injective :
    (width x y x' y' : ℕ)
    → x < width
    → x' < width
    → y * width + x ≡ y' * width + x'
    → (x ≡ x') × (y ≡ y')
cell_index_injective width x y x' y' l l' e = elim (dec_lt y y') [
  | yes p ↦ absurd (omega (arith, earlier_row width x y x' y' l p))
  | no p ↦ elim (dec_lt y' y) [
    | yes q ↦ absurd (omega (arith, earlier_row width x' y' x y l' q))
    | no q ↦ (let r : y ≡ y' = omega arith in (omega (arith, ap (λ (t : ℕ). t * width) r), r))
  ]
]

-- The character and the attribute at `x`, `y`.
abbrev pub cell : ℕ → (ℕ → ℕ) → ℕ → ℕ → ℕ × ℕ
cell width screen x y = (screen (buffer_index width x y), screen (u32 (buffer_index width x y + 1)))

-- A write to one cell of the screen changes that cell, and no other one.
pub cell-write_cell :
    (width height : ℕ) (screen : ℕ → ℕ) (x y c attr x' y' : ℕ)
    → Fits width height
    → OnScreen width height x y
    → OnScreen width height x' y'
    → cell width (write_cell width screen x y c attr) x' y'
      ≡ (if (x == x') && (y == y') then (c, attr) else cell width screen x' y')
cell-write_cell width height screen x y c attr x' y' f on on' =
    let i = index_plain width height x y f on in
    let i' = index_plain width height x' y' f on' in
    rw (i.0, i.1, i'.0, i'.1)
      (ground (
        arith,
        λ (e : y * width + x ≡ y' * width + x'). cell_index_injective width x y x' y' on.0 on'.0 e,
      ))
