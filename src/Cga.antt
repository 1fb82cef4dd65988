-- ===== src/Cga.antt =====
-- `devices::cga` of kernel/src/devices/cga.h and cga.cc: the text screen. `screen` is the memory
-- from `m_screen` on, by bytes; a cell is a character and its attribute. The spin lock that the
-- functions hold is left out, and so is the mapping of the buffer in `init`.
pub mod Cells
pub mod Scroll
pub mod Setup
use danaos.Prelude.{
  ℕ, zero, suc, ◌+◌, ◌-◌, ◌*◌, ◌%◌, ◌^◌, ◌&&◌, ltb, if◌then◌else◌, u32, update, min,
}

abbrev pub default_attribute : ℕ
default_attribute = 15

abbrev pub clear_char : ℕ
clear_char = b' '

pub record Cga : Type 0 where
  pub screen : ℕ → ℕ
  pub width : ℕ
  pub height : ℕ

abbrev pub buffer_index : ℕ → ℕ → ℕ → ℕ
buffer_index width x y = u32 (2 * (y * width + x))

-- The two writes to the cell at `x`, `y`.
abbrev pub write_cell : ℕ → (ℕ → ℕ) → ℕ → ℕ → ℕ → ℕ → ℕ → ℕ
write_cell width screen x y c attr =
    update (update screen (buffer_index width x y) c) (u32 (buffer_index width x y + 1)) attr

unfoldable pub print : Cga → ℕ → ℕ → ℕ → ℕ → Cga
print d c attr x y =
    if ltb x d.width && ltb y d.height
    then record d { screen = write_cell d.width d.screen x y c attr }
    else d

-- The inner loops over `x`, with the columns left, and the outer ones over `y`, with the rows left.
unfoldable pub copy_row : ℕ → ℕ → ℕ → ℕ → ℕ → (ℕ → ℕ) → ℕ → ℕ
copy_row width zero x y steps screen = screen
copy_row width (suc left) x y steps screen =
    let s1 = update screen (buffer_index width x y) (screen (buffer_index width x (y + steps))) in
    let s2 =
      update s1 (u32 (buffer_index width x y + 1))
        (s1 (u32 (buffer_index width x (y + steps) + 1))) in
    copy_row width left (x + 1) y steps s2

unfoldable pub copy_rows : ℕ → ℕ → ℕ → ℕ → (ℕ → ℕ) → ℕ → ℕ
copy_rows width zero y steps screen = screen
copy_rows width (suc left) y steps screen =
    copy_rows width left (y + 1) steps (copy_row width width 0 y steps screen)

unfoldable pub clear_row : ℕ → ℕ → ℕ → ℕ → ℕ → ℕ → (ℕ → ℕ) → ℕ → ℕ
clear_row width zero x y c attr screen = screen
clear_row width (suc left) x y c attr screen =
    clear_row width left (x + 1) y c attr (write_cell width screen x y c attr)

unfoldable pub clear_rows : ℕ → ℕ → ℕ → ℕ → ℕ → (ℕ → ℕ) → ℕ → ℕ
clear_rows width zero y c attr screen = screen
clear_rows width (suc left) y c attr screen =
    clear_rows width left (y + 1) c attr (clear_row width width 0 y c attr screen)

unfoldable pub scroll_down : Cga → ℕ → ℕ → ℕ → Cga
scroll_down d steps clear_c clear_attr =
    let s = min d.height steps in
    record d {
      screen =
          clear_rows d.width s (d.height - s) clear_c clear_attr
            (copy_rows d.width (d.height - s) 0 s d.screen);
    }

unfoldable pub clear : Cga → ℕ → ℕ → Cga
clear d clear_c clear_attr = record d {
  screen = clear_rows d.width d.height 0 clear_c clear_attr d.screen;
}
