-- ===== src/Tests/Devices.antt =====
-- The screen, the console and the devices at concrete states.
use danaos.Prelude.{
  ℕ, ◌+◌, ◌^◌, ◌≤◌, ◌≡◌, ◌⊎◌, arith, true, ◌&&◌, ◌<◌, some, none, ltb, leb, if◌then◌else◌, update,
  u8,
}
use danaos.Math.{dec, hex, logull}
use danaos.Math.Log.{IsLog, logull-IsLog}
use danaos.Cga.{Cga, scroll_down}
use danaos.Cga.Cells.{cell}
use danaos.Cga.Scroll.{cell-scroll_down}
use danaos.Console.{Console, put}
use danaos.Console.Cursor.{InScreen, put-InScreen}
use danaos.Console.Numerals.{Printed, print_number-Printed}
use danaos.Pic.{Ports, Pic, is_enabled, trigger, spurious, cmd_slave, op_cmd_word_3}
use danaos.Pic.Masks.{HoldsMasks}
use danaos.Pic.Spurious.{trigger_line_7}
use danaos.Dispatch
use danaos.Dispatch.{Gates, done}
use danaos.Pic.Lines
use danaos.Pic.Lines.{enable_all, enable_all_lem}
use danaos.Pit.{Timer}
use danaos.Pit.Device
use danaos.Pit.Device.{init-is_active}

abbrev vga : Cga
vga = record { screen = λ i. i; width = 80; height = 25 }

cell-scroll_down_example :
    cell 80 (scroll_down vga 3 32 15).screen 7 4
    ≡ (if ltb (4 + 3) 25 then cell 80 vga.screen 7 (4 + 3) else (32, 15))
cell-scroll_down_example = cell-scroll_down vga 3 32 15 7 4 (omega arith) (omega arith, omega arith)

logull_example : (r : ℕ) × (logull 10 12345 ≡ some r) × IsLog 10 12345 r
logull_example = logull-IsLog dec 12345 (omega arith) (omega arith)

-- The cursor is on the last cell of the screen.
abbrev corner : Console
corner = record { cga = vga; screen_x = 79; screen_y = 24; base = hex }

put-InScreen_example : InScreen (put corner 65)
put-InScreen_example = put-InScreen corner 65 (omega arith, omega arith)

abbrev beef : ℕ
beef = 48879

print_number_example : (log : ℕ) × Printed corner beef log × ((beef ≡ 0) ⊎ (16 ^ log ≤ beef))
print_number_example = print_number-Printed corner beef (omega arith)

-- Ports that are bytes of memory.
abbrev memory_ports : Ports (ℕ → ℕ)
memory_ports = record { read = λ h port. u8 (h port); write = λ h port v. update h port v }

-- They are always ready.
abbrev Always : (ℕ → ℕ) → Type 0
Always h = Unit

memory_ports-HoldsMasks : HoldsMasks Always memory_ports
memory_ports-HoldsMasks = record {
  stays_ready = λ h port v m s r. tt;
  read_written = λ h port v p l r. ground arith;
  read_other = λ h port other v p m s n r. ground (arith, n);
  read_byte = λ h port. omega arith;
}

abbrev controller : Pic (ℕ → ℕ)
controller = record { hardware = λ port. 255; gates = λ irq. some irq; enabled = true }

trigger_line_7_example : trigger memory_ports controller 39 ≡ (
  spurious,
  record controller { hardware = memory_ports.write controller.hardware cmd_slave op_cmd_word_3 },
)
trigger_line_7_example = trigger_line_7 memory_ports (λ h port. omega arith) controller

enable_all_example :
    (e : Pic (ℕ → ℕ)) × (after : Gates) × (enable_all controller 7 (λ index. none)
      ≡ done (e, after))
    × (Lines.is_active e ≡ true)
    × ((n : ℕ)
        → Dispatch.trigger after n
          ≡ (if leb 32 n && ltb n 48 then done 7 else Dispatch.trigger (λ index. none) n))
enable_all_example = enable_all_lem controller 7 (λ index. none)

pit_init_example :
    (t : Timer) × (e : Pic (ℕ → ℕ)) × (Device.init memory_ports 7 1000 controller ≡ some (t, e))
    × (Device.is_active memory_ports e ≡ true)
    × ((other : ℕ)
        → 0 < other
        → other < 16
        → is_enabled memory_ports e other ≡ is_enabled memory_ports controller other)
    × (2 ≤ t.current_divisor)
    × (t.current_divisor ≤ 65535)
pit_init_example =
    init-is_active Always memory_ports memory_ports-HoldsMasks 7 1000 controller (omega arith) tt
