-- ===== src/Cga/Setup.antt =====
-- `cga::init` of kernel/src/devices/cga.cc: the buffer of the screen behind the offset of the
-- kernel's addresses, and its pages.
use danaos.Prelude.{ℕ, Option, some, ◌>>=◌, true, false, add32, mul32}
use danaos.VirtMem.{Translate, VirtMem, map_range}

-- The fields of the device; `screen` is the address of the buffer.
pub record Screen : Type 0 where
  pub screen : ℕ
  pub width : ℕ
  pub height : ℕ

-- A new device, before `init`.
abbrev pub cga : Screen
cga = record { screen = 0xB8000; width = 80; height = 25 }

unfoldable pub init : Translate → ℕ → ℕ → ℕ → ℕ → VirtMem → Option (Screen × VirtMem)
init translate virt_offset framebuffer_addr width height vm =
    let screen = add32 framebuffer_addr virt_offset in
    do
      mapped ←
          map_range translate screen (add32 screen (mul32 (mul32 width height) 2)) framebuffer_addr
            true false false vm
      some (record { screen = screen; width = width; height = height }, mapped.1)
