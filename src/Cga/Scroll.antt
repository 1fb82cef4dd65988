-- ===== src/Cga/Scroll.antt =====
-- Scrolling and clearing, cell by cell. The rows are copied in place, from the top down.
use danaos.Prelude.{
  ℕ, zero, suc, ◌+◌, ◌-◌, ◌≤◌, ◌<◌, ◌≡◌, Bool, ◌&&◌, ltb, leb, ◌==◌, if◌then◌else◌, arith, update,
  u32, ap, ◌∙◌, min,
}
use native.Mathlib.Decide.{dec_lt, ℕ_discrete}
use danaos.Cga.{
  Cga, buffer_index, write_cell, copy_row, copy_rows, clear_row, clear_rows, scroll_down, clear,
}
use danaos.Cga.Cells.{OnScreen, Fits, cell, cell-write_cell}

-- `t` is one of the `count` numbers from `from` on.
abbrev pub within : ℕ → ℕ → ℕ → Bool
within from count t = leb from t && ltb t (from + count)

module _ (width height : ℕ) (f : Fits width height) where
  -- A round of the copying loop is a write of the cell below. The second read is not disturbed by
  -- the first write.
  copy_cell :
      (screen : ℕ → ℕ) (x y steps : ℕ)
      → OnScreen width height x y
      → OnScreen width height x (y + steps)
      → update
          (update screen (buffer_index width x y) (screen (buffer_index width x (y + steps))))
          (u32 (buffer_index width x y + 1))
          (update screen
            (buffer_index width x y)
            (screen (buffer_index width x (y + steps)))
            (u32 (buffer_index width x (y + steps) + 1)))
        ≡ write_cell width screen x y
            (cell width screen x (y + steps)).0
            (cell width screen x (y + steps)).1
  copy_cell screen x y steps on below =
      ap
        (λ (v : ℕ).
          update
            (update screen (buffer_index width x y) (screen (buffer_index width x (y + steps))))
            (u32 (buffer_index width x y + 1)) v)
        read_below
    where
      read_below :
          update screen
            (buffer_index width x y)
            (screen (buffer_index width x (y + steps)))
            (u32 (buffer_index width x (y + steps) + 1))
          ≡ screen (u32 (buffer_index width x (y + steps) + 1))
      read_below = ground arith

  copy_row_lem :
      (left : ℕ) (screen : ℕ → ℕ) (x y steps x' y' : ℕ)
      → x + left ≤ width
      → y + steps < height
      → OnScreen width height x' y'
      → cell width (copy_row width left x y steps screen) x' y' ≡ (
          if (y == y') && within x left x'
          then cell width screen x' (y' + steps)
          else cell width screen x' y')
  unfolding copy_row
  copy_row_lem zero screen x y steps x' y' l h on = ground arith
  copy_row_lem (suc left) screen x y steps x' y' l h on =
      let w : ℕ → ℕ =
        write_cell width screen x y (cell width screen x (y + steps)).0
          (cell width screen x (y + steps)).1 in
      rw (copy_cell screen x y steps (omega arith) (omega arith)) (
        copy_row_lem left w (x + 1) y steps x' y' (omega arith) h on ∙ elim (ℕ_discrete y y') [
          | yes e ↦
              rw
                (
                  cell-write_cell width height screen x y (cell width screen x (y + steps)).0
                      (cell width screen x (y + steps)).1 x' y' f (omega arith) on,
                  cell-write_cell width height screen x y (cell width screen x (y + steps)).0
                      (cell width screen x (y + steps)).1 x' (y' + steps) f (omega arith)
                      (omega arith),
                )
                (ground arith)
          | no n ↦
              rw
                (cell-write_cell width height screen x y (cell width screen x (y + steps)).0
                  (cell width screen x (y + steps)).1 x' y' f (omega arith) on)
                (ground arith)
        ])

  pub clear_row_lem :
      (left : ℕ) (screen : ℕ → ℕ) (x y c attr x' y' : ℕ)
      → x + left ≤ width
      → y < height
      → OnScreen width height x' y'
      → cell width (clear_row width left x y c attr screen) x' y'
        ≡ (if (y == y') && within x left x' then (c, attr) else cell width screen x' y')
  unfolding clear_row
  clear_row_lem zero screen x y c attr x' y' l h on = ground arith
  clear_row_lem (suc left) screen x y c attr x' y' l h on =
      clear_row_lem left (write_cell width screen x y c attr) (x + 1) y c attr x' y' (omega arith) h
        on
      ∙ rw (cell-write_cell width height screen x y c attr x' y' f (omega arith) on) (ground arith)

  -- The rows that are read lie below those already written.
  pub copy_rows_lem :
      (left : ℕ) (screen : ℕ → ℕ) (y steps x' y' : ℕ)
      → y + left + steps ≤ height
      → OnScreen width height x' y'
      → cell width (copy_rows width left y steps screen) x' y'
        ≡ (if within y left y' then cell width screen x' (y' + steps) else cell width screen x' y')
  unfolding copy_rows
  copy_rows_lem zero screen y steps x' y' l on = ground arith
  copy_rows_lem (suc left) screen y steps x' y' l on = elim (dec_lt (y + left) y') [
    | yes p ↦
        copy_rows_lem left (copy_row width width 0 y steps screen) (y + 1) steps x' y' (omega arith)
          on
        ∙ rw (copy_row_lem width screen 0 y steps x' y' (omega arith) (omega arith) on)
            (ground arith)
    | no p ↦
        copy_rows_lem left (copy_row width width 0 y steps screen) (y + 1) steps x' y' (omega arith)
          on
        ∙ rw
            (
              copy_row_lem width screen 0 y steps x' y' (omega arith) (omega arith) on,
              copy_row_lem width screen 0 y steps x' (y' + steps) (omega arith) (omega arith)
                  (omega arith),
            )
            (ground arith)
  ]

  clear_rows_lem :
      (left : ℕ) (screen : ℕ → ℕ) (y c attr x' y' : ℕ)
      → y + left ≤ height
      → OnScreen width height x' y'
      → cell width (clear_rows width left y c attr screen) x' y'
        ≡ (if within y left y' then (c, attr) else cell width screen x' y')
  unfolding clear_rows
  clear_rows_lem zero screen y c attr x' y' l on = ground arith
  clear_rows_lem (suc left) screen y c attr x' y' l on =
      clear_rows_lem left (clear_row width width 0 y c attr screen) (y + 1) c attr x' y'
        (omega arith) on
      ∙ rw (clear_row_lem width screen 0 y c attr x' y' (omega arith) (omega arith) on)
          (ground arith)

-- For a position on a screen whose buffer fits the address space: `scroll_down` moves every row
-- up by the number of steps, at most the height of the screen, and clears the rows that are left
-- at the bottom.
pub cell-scroll_down :
    (d : Cga) (steps c attr x y : ℕ)
    → Fits d.width d.height
    → OnScreen d.width d.height x y
    → cell d.width (scroll_down d steps c attr).screen x y
      ≡ (if ltb (y + steps) d.height then cell d.width d.screen x (y + steps) else (c, attr))
unfolding scroll_down
cell-scroll_down d steps c attr x y f on =
    let s : ℕ = min d.height steps in
    let b : (s ≤ d.height)
        × ((y + steps < d.height) → s ≡ steps)
        × (d.height ≤ y + steps → d.height ≤ y + s) =
      (omega arith, omega arith, omega arith) in
    clear_rows_lem d.width d.height f s (copy_rows d.width (d.height - s) 0 s d.screen)
      (d.height - s) c attr x y (omega arith) on
    ∙ rw (copy_rows_lem d.width d.height f (d.height - s) d.screen 0 s x y (omega arith) on)
        (elim (dec_lt (y + steps) d.height) [
          | yes p ↦ rw (b.1 p) (ground arith)
          | no n ↦ ground arith
        ])

-- `clear` gives every cell of the screen the character and the attribute.
pub cell-clear :
    (d : Cga) (c attr x y : ℕ)
    → Fits d.width d.height
    → OnScreen d.width d.height x y
    → cell d.width (clear d c attr).screen x y ≡ (c, attr)
unfolding clear
cell-clear d c attr x y f on =
    clear_rows_lem d.width d.height f d.height d.screen 0 c attr x y (omega arith) on ∙ ground arith
