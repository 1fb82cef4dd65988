-- ===== src/BootInfo.antt =====
-- The boot information that the boot loader hands to the kernel, as `kernelMain` of
-- kernel/src/main/kernel.cc reads it: a total size, 8 bytes from its start the first tag, and each
-- further tag behind the one before, from the next multiple of 8 on. Memory is by bytes; pointers
-- that wrap are left out. A pointer that stays null is `none`.
pub mod Chain
use danaos.Prelude.{
  ℕ, zero, suc, ◌+◌, ◌-◌, ◌%◌, Option, none, some, ltb, ◌==◌, if◌then◌else◌, add32, read32,
}

abbrev pub multiboot2_bootloader_magic : ℕ
multiboot2_bootloader_magic = 0x36d76289

abbrev pub tag_type_mmap : ℕ
tag_type_mmap = 6

abbrev pub tag_type_framebuffer : ℕ
tag_type_framebuffer = 8

abbrev pub tag_type_elf_sections : ℕ
tag_type_elf_sections = 9

-- The pointers to the tags that the kernel uses.
pub record Tags : Type 0 where
  pub memmap : Option ℕ
  pub framebuffer : Option ℕ
  pub elf_sections : Option ℕ

abbrev pub no_tags : Tags
no_tags = record { memmap = none; framebuffer = none; elf_sections = none }

-- The `switch` of the loop, for a tag of the type at the address.
unfoldable pub note_tag : ℕ → ℕ → Tags → Tags
note_tag type tag t =
    if type == tag_type_mmap
    then record t { memmap = some tag }
    else if type == tag_type_framebuffer
    then record t { framebuffer = some tag }
    else if type == tag_type_elf_sections
    then record t { elf_sections = some tag }
    else t

-- Where the loop goes on behind a tag of the size at `byte`.
unfoldable pub next_byte : ℕ → ℕ → ℕ
next_byte byte size =
    let moved = add32 byte size in if moved % 8 == 0 then moved else add32 moved (8 - moved % 8)

-- The loop, with fuel; where that runs out there is no answer.
unfoldable pub find_tags : ℕ → (ℕ → ℕ) → ℕ → ℕ → Tags → Option Tags
find_tags zero mem info byte t = none
find_tags (suc fuel) mem info byte t =
    let type = read32 mem (info + byte) in
    let size = read32 mem (info + byte + 4) in
    let rest = find_tags fuel mem info (next_byte byte size) (note_tag type (info + byte) t) in
    if ltb byte (read32 mem info) then rest else some t

-- A round for each byte is more than enough.
unfoldable pub multiboot_tags : (ℕ → ℕ) → ℕ → Option Tags
multiboot_tags mem info = find_tags (read32 mem info + 1) mem info 8 no_tags
