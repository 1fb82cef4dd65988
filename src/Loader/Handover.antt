-- ===== src/Loader/Handover.antt =====
-- `boot_main` of bootloader/src/main.cc: the boot information at 4 MiB, with the memory map that the
-- BIOS gave and the sections of the image, and the jump to the kernel. The structures are those of
-- bootloader/src/multiboot/multiboot2.h. What a loop's end is computed from is read when the loop
-- starts; addresses that wrap are left out, and so is the output to the screen.
use danaos.Prelude.{
  ℕ, zero, suc, ◌+◌, ◌*◌, ◌/◌, Option, none, some, ◌==◌, if◌then◌else◌, add32, sub32, read16,
  read32, write32,
}
use danaos.BootInfo.{multiboot2_bootloader_magic, tag_type_mmap, tag_type_elf_sections}
use danaos.Loader.{LoadResult, load_elf, e_shoff, e_shnum}
use danaos.Strings.{copy_from}

abbrev pub e_shentsize : (ℕ → ℕ) → ℕ → ℕ
e_shentsize mem h = read16 mem (h + 46)

abbrev pub e_shstrndx : (ℕ → ℕ) → ℕ → ℕ
e_shstrndx mem h = read16 mem (h + 50)

-- Where `m_info` points to.
abbrev pub m_info : ℕ
m_info = 0x400000

-- The processor stops in `_hang`, faults in a division by 0, or jumps to the entry address with
-- the registers `eax` and `ebx`.
pub data BootResult : Type 0 where
  hangs : BootResult
  divides_by_zero : BootResult
  jumps : ℕ → ℕ → ℕ → (ℕ → ℕ) → BootResult

-- Copies of `size` bytes each from `src` to `dst`, from the `i`th on, with the copies left.
unfoldable pub copy_items : ℕ → ℕ → ℕ → ℕ → ℕ → (ℕ → ℕ) → ℕ → ℕ
copy_items size zero i dst src mem = mem
copy_items size (suc left) i dst src mem =
    copy_items size left (i + 1) dst src (copy_from (dst + size * i) (src + size * i) 0 size mem)

-- The entries of the memory map that are copied; the size of an entry is not 0.
abbrev pub mmap_entries : (ℕ → ℕ) → ℕ → ℕ
mmap_entries mem mmap = sub32 (read32 mem (mmap + 4)) 8 / read32 mem (mmap + 8)

-- The tag with the memory map at `mmap`, written to `curr`, where the first 16 bytes are copied.
unfoldable pub put_mmap : ℕ → ℕ → (ℕ → ℕ) → ℕ → ℕ
put_mmap mmap curr copied =
    let filled = copy_items 24 (mmap_entries copied mmap) 0 (curr + 16) (mmap + 16) copied in
    let typed = write32 filled curr tag_type_mmap in
    write32 typed m_info (add32 (read32 typed m_info) (read32 typed (curr + 4)))

-- The tag with the sections of the image at `h`, written to `curr`.
unfoldable pub put_sections : ℕ → ℕ → (ℕ → ℕ) → ℕ → ℕ
put_sections h curr mem =
    let m1 = write32 mem curr tag_type_elf_sections in
    let m2 = write32 m1 (curr + 8) (e_shnum m1 h) in
    let m3 = write32 m2 (curr + 12) (e_shentsize m2 h) in
    let m4 = write32 m3 (curr + 16) (e_shstrndx m3 h) in
    let m5 = write32 m4 (curr + 4) (20 + 40 * e_shnum m4 h) in
    let filled = copy_items 40 (e_shnum m5 h) 0 (curr + 20) (h + e_shoff m5 h) m5 in
    write32 filled m_info (add32 (read32 filled m_info) (read32 filled (curr + 4)))

abbrev jump : ℕ → (ℕ → ℕ) → BootResult
jump entry_addr mem = jumps entry_addr multiboot2_bootloader_magic m_info mem

-- What is done with the entry address and the memory that `load_elf` leaves. The pointer to the
-- memory map is `none` where it is null.
unfoldable pub hand_over : ℕ → Option ℕ → ℕ → (ℕ → ℕ) → BootResult
hand_over h none entry_addr mem =
    jump entry_addr (put_sections h (m_info + 8) (write32 mem m_info 8))
hand_over h (some mmap) entry_addr mem =
    let copied = copy_from (m_info + 8) mmap 0 16 (write32 mem m_info 8) in
    let mapped = put_mmap mmap (m_info + 8) copied in
    if read32 copied (mmap + 8) == 0
    then divides_by_zero
    else jump entry_addr (put_sections h (m_info + 8 + read32 mapped (m_info + 8 + 4)) mapped)

unfoldable pub boot_main_with : ℕ → Option ℕ → LoadResult → BootResult
boot_main_with h mmap result =
    if result.returned == 0 then hangs else hand_over h mmap result.returned result.memory

unfoldable pub boot_main : (ℕ → ℕ) → ℕ → Option ℕ → BootResult
boot_main mem h mmap = boot_main_with h mmap (load_elf mem h)
