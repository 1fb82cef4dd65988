-- ===== src/Loader/Screen.antt =====
-- The screen of the boot loader, bootloader/src/devices/cga.c: 80 columns and 25 rows, in the bytes
-- of `screen`. Its loops over a row are those of the kernel's screen.
use danaos.Prelude.{
  ℕ, zero, suc, ◌+◌, ◌-◌, ◌<◌, ◌≡◌, ◌∙◌, arith, ltb, leb, ◌==◌, if◌then◌else◌, List, [], ◌∷◌, u32,
  update,
}
use danaos.Cga.{buffer_index, write_cell, copy_rows, clear_row}
use danaos.Cga.Cells.{OnScreen, Fits, cell}
use danaos.Cga.Scroll.{copy_rows_lem, clear_row_lem}

abbrev pub cga_width : ℕ
cga_width = 80

abbrev pub cga_height : ℕ
cga_height = 25

abbrev pub cga_attribute : ℕ
cga_attribute = 15

pub record Screen : Type 0 where
  pub screen : ℕ → ℕ
  pub x : ℕ
  pub y : ℕ

unfoldable pub scroll_down : (ℕ → ℕ) → ℕ → ℕ
scroll_down screen =
    clear_row cga_width cga_width 0 (cga_height - 1) b' ' cga_attribute
      (copy_rows cga_width (cga_height - 2) 0 1 screen)

-- The `switch` of `put_next`.
unfoldable pub put_char : ℕ → Screen → Screen
put_char c s =
    if c == b'\t'
    then record s { x = s.x + 8 }
    else if c == b'\n'
    then record s { x = 0; y = s.y + 1 }
    else record s { screen = write_cell cga_width s.screen s.x s.y c cga_attribute; x = s.x + 1 }

unfoldable pub put_next : ℕ → Screen → Screen
put_next c s =
    let put = put_char c s in
    let wrapped = if leb cga_width put.x then record put { x = 0; y = put.y + 1 } else put in
    if leb cga_height wrapped.y
    then record wrapped { screen = scroll_down wrapped.screen; y = wrapped.y - 1 }
    else wrapped

-- `print` of the characters before the final null.
unfoldable pub print : List ℕ → Screen → Screen
print [] s = s
print (c ∷ msg) s = print msg (put_next c s)

-- The loops of `cga_clear`, with the columns and the rows left.
unfoldable pub blank_row : ℕ → ℕ → ℕ → (ℕ → ℕ) → ℕ → ℕ
blank_row zero ix iy screen = screen
blank_row (suc left) ix iy screen =
    let s1 = update screen (buffer_index cga_width ix iy) b' ' in
    let s2 =
      update s1 (u32 (buffer_index cga_width ix iy + 1))
        (s1 (u32 (buffer_index cga_width ix (iy + 1) + 1))) in
    blank_row left (ix + 1) iy s2

unfoldable pub blank_rows : ℕ → ℕ → (ℕ → ℕ) → ℕ → ℕ
blank_rows zero iy screen = screen
blank_rows (suc left) iy screen = blank_rows left (iy + 1) (blank_row cga_width 0 iy screen)

unfoldable pub cga_clear : Screen → Screen
cga_clear s = record { screen = blank_rows (cga_height - 2) 0 s.screen; x = 0; y = 0 }

-- The cursor stands on the screen.
abbrev pub InScreen : Screen → Type 0
InScreen s = (s.x < cga_width) × (s.y < cga_height)

-- `put_next` of any character keeps the cursor on the screen.
pub put_next-InScreen : (c : ℕ) (s : Screen) → InScreen s → InScreen (put_next c s)
unfolding put_next put_char
put_next-InScreen c s p = ground arith

pub print-InScreen : (msg : List ℕ) (s : Screen) → InScreen s → InScreen (print msg s)
unfolding print
print-InScreen [] s p = p
print-InScreen (c ∷ msg) s p = print-InScreen msg (put_next c s) (put_next-InScreen c s p)

fits : Fits cga_width cga_height
fits = omega arith

-- `scroll_down` of the boot loader's screen moves the rows 1 to 23 up by one and clears the last
-- row, whose text is lost: row 23 stays as it was.
pub cell-boot_scroll_down :
    (screen : ℕ → ℕ) (x y : ℕ)
    → OnScreen cga_width cga_height x y
    → cell cga_width (scroll_down screen) x y ≡ (
        if ltb y 23
        then cell cga_width screen x (y + 1)
        else if y == 23
        then cell cga_width screen x 23
        else (b' ', cga_attribute))
unfolding scroll_down
cell-boot_scroll_down screen x y on =
    clear_row_lem cga_width cga_height fits cga_width
      (copy_rows cga_width (cga_height - 2) 0 1 screen) 0 (cga_height - 1) b' ' cga_attribute x y
      (omega arith) (omega arith) on
    ∙ rw (copy_rows_lem cga_width cga_height fits (cga_height - 2) screen 0 1 x y (omega arith) on)
        (ground arith)
