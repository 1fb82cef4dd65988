-- ===== src/LongLoader.antt =====
-- The boot loader of the 64-bit build, bootloader/src/arch/x86_64/elf.cc and elf.h: the checks of an
-- ELF64 image at the address `h`, the loading of its segments and sections, and the entry address.
-- The boot loader is 32-bit code in every build, so that its pointers and `uintptr_t` have 32 bits.
-- Memory is by bytes; steps of a pointer that wrap are left out, and so is the output to the screen. The
-- loops over bytes count with an `unsigned int`, so that one over 2 ^ 32 bytes or more never ends: `none`.
pub mod Segments
use danaos.Prelude.{
  ℕ, zero, suc, ◌+◌, ◌-◌, ◌/◌, ◌%◌, ◌^◌, Bool, not, ◌||◌, ◌&&◌, ◌==◌, Option, none, some, ◌>>=◌,
  ltb, leb, if◌then◌else◌, read16, read32, read64, write32, u32, add32,
}
use danaos.Loader.{
  Segment, Loading, LoadError, load_memory, not_elf, byte_order, elf_version, machine, elf_type,
  no_program_header, not_elf32, start_loading,
}
use danaos.Strings.{copy_from}

-- The fields of `header`.
abbrev pub e_entry : (ℕ → ℕ) → ℕ → ℕ
e_entry mem h = read64 mem (h + 24)

abbrev pub e_phoff : (ℕ → ℕ) → ℕ → ℕ
e_phoff mem h = read64 mem (h + 32)

abbrev pub e_shoff : (ℕ → ℕ) → ℕ → ℕ
e_shoff mem h = read64 mem (h + 40)

abbrev pub e_phnum : (ℕ → ℕ) → ℕ → ℕ
e_phnum mem h = read16 mem (h + 56)

abbrev pub e_shnum : (ℕ → ℕ) → ℕ → ℕ
e_shnum mem h = read16 mem (h + 60)

-- A program header at `p`.
abbrev pub program_header : (ℕ → ℕ) → ℕ → Segment
program_header mem p = record {
  loadable = read32 mem p == 1;
  offset = read64 mem (p + 8);
  vaddr = read64 mem (p + 16);
  paddr = read64 mem (p + 24);
  filesz = read64 mem (p + 32);
  memsz = read64 mem (p + 40);
}

abbrev pub write64 : (ℕ → ℕ) → ℕ → ℕ → ℕ → ℕ
write64 mem a v = write32 (write32 mem a (v % 2 ^ 32)) (a + 4) (v / 2 ^ 32)

-- Loops over bytes of the segment that end.
abbrev pub countable : Segment → Bool
countable g = ltb g.filesz (2 ^ 32) && ltb g.memsz (2 ^ 32)

-- The pointers of 32 bits that the loops over bytes use: the place and the part of the image.
abbrev pub in_32_bits : Segment → Segment
in_32_bits g = record g { offset = u32 g.offset; paddr = u32 g.paddr }

abbrev pub with_segment : ℕ → Segment → Loading → Loading
with_segment h g s =
    let upper = add32 g.paddr g.memsz in
    record {
      mem = load_memory h (in_32_bits g) s.mem;
      base_vaddr = if ltb g.vaddr s.base_vaddr then g.vaddr else s.base_vaddr;
      base_paddr = if ltb g.paddr s.base_paddr then g.paddr else s.base_paddr;
      highest_address = if ltb s.highest_address upper then upper else s.highest_address;
    }

unfoldable pub load_segment : ℕ → Segment → Loading → Option Loading
load_segment h g s =
    if g.loadable then (if countable g then some (with_segment h g s) else none) else some s

-- The loop over the program headers from `p` on, with the headers left.
unfoldable pub load_segments : ℕ → ℕ → ℕ → Loading → Option Loading
load_segments zero h p s = some s
load_segments (suc left) h p s = do
  loaded ← load_segment h (program_header s.mem p) s
  load_segments left h (p + 56) loaded

-- A pointer as a 64-bit word: the compiler extends its sign.
abbrev pub address_word : ℕ → ℕ
address_word pointer = if leb (2 ^ 31) pointer then pointer + (2 ^ 64 - 2 ^ 32) else pointer

-- A section with no address goes to the buffer.
unfoldable pub load_section : ℕ → ℕ → (ℕ → ℕ) → ℕ → Option ((ℕ → ℕ) × ℕ)
load_section h p mem buffer =
    let placed = write64 mem (p + 16) (address_word buffer) in
    let size = read64 placed (p + 32) in
    let copied = copy_from buffer (h + u32 (read64 placed (p + 24))) 0 size placed in
    if read64 mem (p + 16) == 0
    then (if ltb size (2 ^ 32) then some (copied, add32 buffer size) else none)
    else some (mem, buffer)

unfoldable pub load_sections : ℕ → ℕ → ℕ → (ℕ → ℕ) → ℕ → Option ((ℕ → ℕ) × ℕ)
load_sections zero h p mem buffer = some (mem, buffer)
load_sections (suc left) h p mem buffer = do
  loaded ← load_section h p mem buffer
  load_sections left h (p + 64) loaded.0 loaded.1

-- The buffer behind the segments.
abbrev pub section_buffer : Loading → ℕ
section_buffer s =
    if ltb s.base_vaddr s.highest_address
    then u32 (s.highest_address + (2 ^ 64 - (s.base_vaddr + (2 ^ 64 - s.base_paddr)) % 2 ^ 64))
    else s.highest_address

-- The 64-bit name of the error `not_elf32` is "not an ELF64 file".
unfoldable pub failed_check : (ℕ → ℕ) → ℕ → Option LoadError
failed_check mem h =
    if not (mem h == 0x7F)
      || not (mem (h + 1) == b'E')
      || not (mem (h + 2) == b'L')
      || not (mem (h + 3) == b'F')
    then some not_elf
    else (if not (mem (h + 4) == 2)
        then some not_elf32
        else (if not (mem (h + 5) == 1)
            then some byte_order
            else (if not (read32 mem (h + 20) == 1)
                then some elf_version
                else (if not (read16 mem (h + 18) == 62)
                    then some machine
                    else (if not (read16 mem (h + 16) == 2)
                        then some elf_type
                        else (if e_phnum mem h == 0 then some no_program_header else none))))))

-- The entry address and the memory; `none` where a loop does not end.
unfoldable pub load_image : (ℕ → ℕ) → ℕ → Option (ℕ × (ℕ → ℕ))
load_image mem h = do
  s ← load_segments (e_phnum mem h) h (h + u32 (e_phoff mem h)) (start_loading mem)
  sections ← load_sections (e_shnum s.mem h) h (h + u32 (e_shoff s.mem h)) s.mem (section_buffer s)
  some (u32 (e_entry sections.0 h), sections.0)

-- A rejected image has the entry 0, and the memory as it is.
abbrev pub load_checked : (ℕ → ℕ) → ℕ → Option LoadError → Option (ℕ × (ℕ → ℕ))
load_checked mem h (some e) = some (0, mem)
load_checked mem h none = load_image mem h

unfoldable pub load_elf : (ℕ → ℕ) → ℕ → Option (ℕ × (ℕ → ℕ))
load_elf mem h = load_checked mem h (failed_check mem h)
