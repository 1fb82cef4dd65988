-- ===== src/Console/Cursor.antt =====
-- The cursor of the console, and what `put` leaves on the screen.
use danaos.Prelude.{ℕ, zero, suc, ◌+◌, ◌-◌, ◌*◌, ◌≤◌, ◌<◌, List, [], ◌∷◌, u8, arith}
use native.Mathlib.Decide.{dec_le}
use danaos.Cga.{clear_char, default_attribute, write_cell}
use danaos.Cga
use danaos.Console.{Console, advance, wrap_columns, wrap_rows, put, print_text}

-- The cursor is on the screen of 80 columns and 25 rows.
abbrev pub InScreen : Console → Type 0
InScreen d = (d.screen_x < 80) × (d.screen_y < 25)

-- The loop over the columns ends with the cursor on the line.
wrap_columns_lem :
    (fuel : ℕ) (d : Console)
    → d.screen_x < 80 * suc fuel
    → d.screen_y + fuel < 256
    → ((wrap_columns fuel d).screen_x < 80) × ((wrap_columns fuel d).screen_y ≤ d.screen_y + fuel)
unfolding wrap_columns
wrap_columns_lem zero d l h = ground arith
wrap_columns_lem (suc fuel) d l h = elim (dec_le 80 d.screen_x) [
  | yes p ↦
      let rest =
        wrap_columns_lem fuel
          (record d { screen_x = d.screen_x - 80; screen_y = u8 (d.screen_y + 1) }) (omega arith)
          (omega arith) in
      ground arith
  | no n ↦ ground arith
]

wrap_rows_lem :
    (fuel : ℕ) (d : Console)
    → d.screen_x < 80
    → d.screen_y < 25 + fuel
    → InScreen (wrap_rows fuel d)
unfolding wrap_rows
wrap_rows_lem zero d l h = ground arith
wrap_rows_lem (suc fuel) d l h = elim (dec_le 25 d.screen_y) [
  | yes p ↦
      let rest =
        wrap_rows_lem fuel
          (record d {
            cga = Cga.scroll_down d.cga 1 clear_char default_attribute;
            screen_y = d.screen_y - 1;
          })
          l (omega arith) in
      ground arith
  | no n ↦ ground arith
]

advance_lem :
    (d : Console) (c : ℕ)
    → InScreen d
    → ((advance d c).screen_x < 400) × ((advance d c).screen_y ≤ 25)
unfolding advance
advance_lem d c on = ground arith

-- From a cursor on the screen, `put` of any character ends with the cursor on the screen.
pub put-InScreen : (d : Console) (c : ℕ) → InScreen d → InScreen (put d c)
unfolding put
put-InScreen d c on =
    let a : ((advance d c).screen_x < 400) × ((advance d c).screen_y ≤ 25) = advance_lem d c on in
    let columns = wrap_columns_lem 4 (advance d c) (omega arith) (omega arith) in
    wrap_rows_lem 256 (wrap_columns 4 (advance d c)) columns.0 (omega arith)

-- So does the printing of a text.
print_text-InScreen : (msg : List ℕ) (d : Console) → InScreen d → InScreen (print_text d msg)
unfolding print_text
print_text-InScreen [] d on = on
print_text-InScreen (c ∷ msg) d on = print_text-InScreen msg (put d c) (put-InScreen d c on)
