-- ===== src/Console.antt =====
-- The console of kernel/src/main/console.h and console.cc: the cursor, and the printing of
-- characters, numbers and formatted messages. A message is the list of the characters before its
-- terminator.
pub mod Cursor
pub mod Plain
pub mod Numerals
use danaos.Prelude.{
  ℕ, zero, suc, ◌+◌, ◌-◌, ◌*◌, ◌/◌, ◌%◌, ◌^◌, Bool, true, false, ◌&&◌, Option, none, some, List, [],
  ◌∷◌, ltb, leb, ◌==◌, if◌then◌else◌, u8,
}
use danaos.Math.{RadixBase, bin, dec, hex, radix, powull, logull, u64}
use danaos.Cga.{Cga, default_attribute, clear_char}
use danaos.Cga

abbrev pub print_attribute : ℕ
print_attribute = 15

pub record Console : Type 0 where
  pub cga : Cga
  pub screen_x : ℕ
  pub screen_y : ℕ
  pub base : RadixBase

-- The constructor; `cga` is the instance of the driver.
abbrev pub new_console : Cga → Console
new_console cga = record { cga = cga; screen_x = 0; screen_y = 0; base = dec }

-- The switch of `put`.
unfoldable pub advance : Console → ℕ → Console
advance d c =
    if c == b'\t'
    then record d { screen_x = u8 ((d.screen_x / 8 + 1) * 8) }
    else (if c == b'\n'
        then record d { screen_x = 0; screen_y = u8 (d.screen_y + 1) }
        else record d {
          cga = Cga.print d.cga c print_attribute d.screen_x d.screen_y;
          screen_x = u8 (d.screen_x + 1);
        })

-- The two loops of `put`, with fuel.
unfoldable pub wrap_columns : ℕ → Console → Console
wrap_columns zero d = d
wrap_columns (suc fuel) d =
    let rest =
      wrap_columns fuel (record d { screen_x = d.screen_x - 80; screen_y = u8 (d.screen_y + 1) }) in
    if leb 80 d.screen_x then rest else d

unfoldable pub wrap_rows : ℕ → Console → Console
wrap_rows zero d = d
wrap_rows (suc fuel) d =
    let rest = wrap_rows fuel (record d {
      cga = Cga.scroll_down d.cga 1 clear_char default_attribute;
      screen_y = d.screen_y - 1;
    }) in
    if leb 25 d.screen_y then rest else d

-- A byte is at most 3 screen widths, and at most 231 rows below the screen.
unfoldable pub put : Console → ℕ → Console
put d c = wrap_rows 256 (wrap_columns 4 (advance d c))

-- `print(const char *)`.
unfoldable pub print_text : Console → List ℕ → Console
print_text d [] = d
print_text d (c ∷ msg) = print_text (put d c) msg

abbrev pub set_base : Console → RadixBase → Console
set_base d b = record d { base = b }

-- `print(bool)`.
abbrev pub print_bool : Console → Bool → Console
print_bool d true = print_text d (b't' ∷ b'r' ∷ b'u' ∷ b'e' ∷ [])
print_bool d false = print_text d (b'f' ∷ b'a' ∷ b'l' ∷ b's' ∷ b'e' ∷ [])

abbrev pub base_prefix : RadixBase → List ℕ
base_prefix bin = b'0' ∷ b'b' ∷ []
base_prefix dec = []
base_prefix hex = b'0' ∷ b'x' ∷ []

abbrev pub digit_char : ℕ → ℕ
digit_char digit = u8 (digit + 48 + (if ltb 9 digit then 7 else 0))

-- The loop of `print(unsigned long long)`, with the figures left.
unfoldable pub print_figures : Console → ℕ → ℕ → ℕ → Console
print_figures d base zero val = d
print_figures d base (suc i) val =
    let fig = powull base i in
    let digit = val / fig in print_figures (put d (digit_char digit)) base i (val - digit * fig)

abbrev pub print_count : Console → ℕ → Option ℕ → Option Console
print_count d val none = none
print_count d val (some log) =
    some (print_figures (print_text d (base_prefix d.base)) (radix d.base) (log + 1) val)

-- `print(unsigned long long)`; nothing where `logull` does not end.
unfoldable pub print_number : Console → ℕ → Option Console
print_number d val = print_count d val (logull (radix d.base) val)

-- `print(long long)`, by the 64 bits of the number.
unfoldable pub print_signed : Console → ℕ → Option Console
print_signed d val =
    if leb (2 ^ 63) val then print_number (put d b'-') (u64 (2 ^ 64 - val)) else print_number d val

abbrev pub with_base : RadixBase → Option Console → Option Console
with_base b none = none
with_base b (some d) = some (set_base d b)

-- `print(void *)`.
abbrev pub print_pointer : Console → ℕ → Option Console
print_pointer d ptr = with_base d.base (print_number (set_base d hex) ptr)

-- The arguments of `print(msg, val, args...)`, by the overload that prints them.
pub data Arg : Type 0 where
  flag : Bool → Arg
  character : ℕ → Arg
  unsigned : ℕ → Arg
  signed : ℕ → Arg
  pointer : ℕ → Arg
  text : List ℕ → Arg

abbrev pub print_arg : Console → Arg → Option Console
print_arg d (flag v) = some (print_bool d v)
print_arg d (character c) = some (put d c)
print_arg d (unsigned n) = print_number d n
print_arg d (signed n) = print_signed d n
print_arg d (pointer p) = print_pointer d p
print_arg d (text msg) = some (print_text d msg)

abbrev and_then : Option Console → (Console → Option Console) → Option Console
and_then none f = none
and_then (some d) f = f d

-- `print(msg, val, args...)`: the next argument goes where the message has `{}`, or `[]` for base
-- 16, and a message that ends before its arguments do ends the line.
unfoldable pub print_format : Console → List ℕ → List Arg → Option Console
print_format d [] [] = some d
print_format d [] (a ∷ args) = some (put d b'\n')
print_format d (c ∷ msg) [] = some (print_text d (c ∷ msg))
print_format d (c ∷ []) (a ∷ args) = some (put (put d c) b'\n')
print_format d (c ∷ c' ∷ msg) (a ∷ args) =
    let plain = print_format (put d c) (c' ∷ msg) (a ∷ args) in
    let rest = λ (e : Console). print_format e msg args in
    if (c == b'{') && (c' == b'}')
    then and_then (print_arg d a) rest
    else (if (c == b'[') && (c' == b']')
        then and_then (with_base d.base (print_arg (set_base d hex) a)) rest
        else plain)
