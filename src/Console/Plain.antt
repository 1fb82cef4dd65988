-- ===== src/Console/Plain.antt =====
-- What `put` of a plain character leaves on the screen, and where the cursor goes.
use danaos.Prelude.{
  ℕ, suc, ap, ◌∙◌, sym, ◌+◌, ◌-◌, ◌≤◌, ◌<◌, ◌≡◌, ◌≢◌, ◌&&◌, ◌==◌, if◌then◌else◌, u8, arith, min,
}
use native.Mathlib.Decide.{dec_lt}
use danaos.Cga.{clear_char, default_attribute, write_cell}
use danaos.Cga
use danaos.Cga.Cells.{cell, cell-write_cell}
use danaos.Cga.Scroll.{cell-scroll_down}
use danaos.Console.{Console, print_attribute, advance, wrap_columns, wrap_rows, put}
use danaos.Console.Cursor.{InScreen}

wrap_columns_stop : (fuel : ℕ) (d : Console) → d.screen_x < 80 → wrap_columns (suc fuel) d ≡ d
unfolding wrap_columns
wrap_columns_stop fuel d l = ground arith

wrap_rows_stop : (fuel : ℕ) (d : Console) → d.screen_y < 25 → wrap_rows (suc fuel) d ≡ d
unfolding wrap_rows
wrap_rows_stop fuel d l = ground arith

wrap_columns_once :
    (d : Console) (cga : Cga.Cga) (x : ℕ)
    → x ≡ 80
    → d.screen_y < 25
    → wrap_columns 4 (record d { cga = cga; screen_x = x })
      ≡ record d { cga = cga; screen_x = 0; screen_y = d.screen_y + 1 }
unfolding wrap_columns
wrap_columns_once d cga x e h =
    let y : u8 (d.screen_y + 1) ≡ d.screen_y + 1 = omega arith in
    rw e (ap (λ (t : ℕ). record d { cga = cga; screen_x = 0; screen_y = t }) y)

wrap_rows_step :
    (fuel : ℕ) (d : Console)
    → 25 ≤ d.screen_y
    → wrap_rows (suc fuel) d
      ≡ wrap_rows fuel (record d {
        cga = Cga.scroll_down d.cga 1 clear_char default_attribute;
        screen_y = d.screen_y - 1;
      })
unfolding wrap_rows
wrap_rows_step fuel d l = ground arith

wrap_rows_once :
    (d : Console)
    → d.screen_y ≡ 25
    → wrap_rows 256 d
      ≡ record d { cga = Cga.scroll_down d.cga 1 clear_char default_attribute; screen_y = 24 }
wrap_rows_once d e =
    let y : d.screen_y - 1 ≡ 24 = omega arith in
    let up : Cga.Cga = Cga.scroll_down d.cga 1 clear_char default_attribute in
    wrap_rows_step 255 d (omega arith)
    ∙ wrap_rows_stop 254 (record d { cga = up; screen_y = d.screen_y - 1 }) (omega arith)
    ∙ ap (λ (t : ℕ). record d { cga = up; screen_y = t }) y

-- The screen after the character `c`.
printed : Console → ℕ → Cga.Cga
printed d c = Cga.print d.cga c print_attribute d.screen_x d.screen_y

module _ (d : Console) (c : ℕ) (tab : c ≢ b'\t') (line : c ≢ b'\n') where
  advance_plain :
      d.screen_x < 80 → advance d c ≡ record d { cga = printed d c; screen_x = d.screen_x + 1 }
  unfolding advance printed
  advance_plain l = ground arith

  put_middle :
      d.screen_x < 79
      → d.screen_y < 25
      → put d c ≡ record d { cga = printed d c; screen_x = d.screen_x + 1 }
  unfolding put
  put_middle l h =
      rw
        (
          advance_plain (omega arith),
          wrap_columns_stop 3 (record d { cga = printed d c; screen_x = d.screen_x + 1 })
              (omega arith),
        )
        (wrap_rows_stop 255 (record d { cga = printed d c; screen_x = d.screen_x + 1 }) h)

  put_edge :
      d.screen_x ≡ 79
      → d.screen_y < 24
      → put d c ≡ record d { cga = printed d c; screen_x = 0; screen_y = d.screen_y + 1 }
  unfolding put
  put_edge e h =
      rw
        (
          advance_plain (omega arith),
          wrap_columns_once d (printed d c) (d.screen_x + 1) (omega arith) (omega arith),
        )
        (wrap_rows_stop 255
          (record d { cga = printed d c; screen_x = 0; screen_y = d.screen_y + 1 }) (omega arith))

  put_corner :
      d.screen_x ≡ 79
      → d.screen_y ≡ 24
      → put d c ≡ record d {
        cga = Cga.scroll_down (printed d c) 1 clear_char default_attribute;
        screen_x = 0;
        screen_y = 24;
      }
  unfolding put
  put_corner e h =
      rw
        (
          advance_plain (omega arith),
          wrap_columns_once d (printed d c) (d.screen_x + 1) (omega arith) (omega arith),
        )
        (wrap_rows_once (record d { cga = printed d c; screen_x = 0; screen_y = d.screen_y + 1 })
          (omega arith))

scrolled_cell :
    (d : Cga.Cga) (x y : ℕ)
    → d.width ≡ 80
    → d.height ≡ 25
    → x < 80
    → y < 24
    → cell 80 (Cga.scroll_down d 1 clear_char default_attribute).screen x y
      ≡ cell 80 d.screen x (y + 1)
scrolled_cell d x y w h l m =
    ap (λ (t : ℕ). cell t (Cga.scroll_down d 1 clear_char default_attribute).screen x y) (sym w)
    ∙ cell-scroll_down d 1 clear_char default_attribute x y (rw (w, h) (omega arith))
        (omega arith, omega arith)
    ∙ rw (w, h) (ground arith)

module _ (d : Console) (c : ℕ) (wide : d.cga.width ≡ 80) (high : d.cga.height ≡ 25)
    (on : InScreen d) where
  printed_screen :
      (printed d c).screen ≡ write_cell 80 d.cga.screen d.screen_x d.screen_y c print_attribute
  unfolding printed Cga.print
  printed_screen = rw (wide, high) (ground arith)

  cell-printed : cell 80 (printed d c).screen d.screen_x d.screen_y ≡ (c, print_attribute)
  cell-printed = rw printed_screen (
      cell-write_cell 80 25 d.cga.screen d.screen_x d.screen_y c print_attribute d.screen_x
        d.screen_y (omega arith) on on
      ∙ ground arith)

  printed_size : ((printed d c).width ≡ 80) × ((printed d c).height ≡ 25)
  unfolding printed Cga.print
  printed_size = ground arith

  corner_cell :
      d.screen_y ≡ 24
      → cell 80 (Cga.scroll_down (printed d c) 1 clear_char default_attribute).screen d.screen_x 23
        ≡ (c, print_attribute)
  corner_cell e =
      scrolled_cell (printed d c) d.screen_x 23 printed_size.0 printed_size.1 on.0 (omega arith)
      ∙ ap (cell 80 (printed d c).screen d.screen_x) (sym e)
      ∙ cell-printed

-- How many rows the screen scrolls when a plain character is put at the cursor.
abbrev pub scrolled : Console → ℕ
scrolled d = if (d.screen_x == 79) && (d.screen_y == 24) then 1 else 0

-- On a screen of 80 by 25, a character other than tab and newline put at a cursor on the screen
-- stands there with the print attribute: at the cursor, or one row higher where the last cell of
-- the screen made it scroll. The cursor is on the next cell, or at the start of the next row.
pub put-cell :
    (d : Console) (c : ℕ)
    → d.cga.width ≡ 80
    → d.cga.height ≡ 25
    → InScreen d
    → c ≢ b'\t'
    → c ≢ b'\n'
    → (cell 80 (put d c).cga.screen d.screen_x (d.screen_y - scrolled d) ≡ (c, print_attribute))
      × ((put d c).screen_x ≡ (if d.screen_x == 79 then 0 else d.screen_x + 1))
      × ((put d c).screen_y ≡ (if d.screen_x == 79 then min 24 (d.screen_y + 1) else d.screen_y))
put-cell d c w h on t n = elim (dec_lt d.screen_x 79) [
  | yes m ↦ rw (put_middle d c t n m on.1) (
    ap (λ (t : ℕ). cell 80 (printed d c).screen d.screen_x t) (ground arith)
        ∙ cell-printed d c w h on,
    ground arith,
    ground arith,
  )
  | no e ↦ elim (dec_lt d.screen_y 24) [
    | yes r ↦ rw (put_edge d c t n (omega arith) r) (
      ap (λ (t : ℕ). cell 80 (printed d c).screen d.screen_x t) (ground arith)
          ∙ cell-printed d c w h on,
      ground arith,
      ground arith,
    )
    | no q ↦
        let row : d.screen_y - scrolled d ≡ 23 = ground arith in
        rw (put_corner d c t n (omega arith) (omega arith)) (
          ap
                (λ (t : ℕ).
                  cell 80 (Cga.scroll_down (printed d c) 1 clear_char default_attribute).screen
                    d.screen_x t)
                row
              ∙ corner_cell d c w h on (omega arith),
          ground arith,
          ground arith,
        )
  ]
]
