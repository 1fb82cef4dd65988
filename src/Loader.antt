-- ===== src/Loader.antt =====
-- The boot loader of bootloader/src/arch/i386/elf.cc and elf.h: the checks of an ELF image at the
-- address `h`, the loading of its segments and sections, and the entry address. Memory is by bytes;
-- addresses that wrap are left out, and so is the output to the screen. The fields of a header are
-- read when its round of a loop starts.
pub mod Segments
pub mod Entry
pub mod Screen
pub mod Numbers
pub mod Handover
pub mod Delivery
pub mod SectionTag
pub mod Received
pub mod Delivered
use danaos.Prelude.{
  ℕ, zero, suc, ◌+◌, ◌-◌, ◌*◌, ◌/◌, ◌%◌, ◌^◌, Bool, not, ◌||◌, ◌==◌, Option, none, some, ltb,
  if◌then◌else◌, u32, add32, read16, read32, write32,
}
use danaos.Strings.{memset, copy_from}

-- The fields of `header`.
abbrev pub e_entry : (ℕ → ℕ) → ℕ → ℕ
e_entry mem h = read32 mem (h + 24)

abbrev pub e_phoff : (ℕ → ℕ) → ℕ → ℕ
e_phoff mem h = read32 mem (h + 28)

abbrev pub e_shoff : (ℕ → ℕ) → ℕ → ℕ
e_shoff mem h = read32 mem (h + 32)

abbrev pub e_phnum : (ℕ → ℕ) → ℕ → ℕ
e_phnum mem h = read16 mem (h + 44)

abbrev pub e_shnum : (ℕ → ℕ) → ℕ → ℕ
e_shnum mem h = read16 mem (h + 48)

-- A program header at `p`.
pub record Segment : Type 0 where
  pub loadable : Bool
  pub offset : ℕ
  pub vaddr : ℕ
  pub paddr : ℕ
  pub filesz : ℕ
  pub memsz : ℕ

abbrev pub program_header : (ℕ → ℕ) → ℕ → Segment
program_header mem p = record {
  loadable = read32 mem p == 1;
  offset = read32 mem (p + 4);
  vaddr = read32 mem (p + 8);
  paddr = read32 mem (p + 12);
  filesz = read32 mem (p + 16);
  memsz = read32 mem (p + 20);
}

-- The memory and the variables of the loop over the program headers.
pub record Loading : Type 0 where
  pub mem : ℕ → ℕ
  pub base_vaddr : ℕ
  pub base_paddr : ℕ
  pub highest_address : ℕ

abbrev pub start_loading : (ℕ → ℕ) → Loading
start_loading mem = record {
  mem = mem;
  base_vaddr = 2 ^ 64 - 1;
  base_paddr = 2 ^ 64 - 1;
  highest_address = 0;
}

abbrev pub load_memory : ℕ → Segment → (ℕ → ℕ) → ℕ → ℕ
load_memory h g mem =
    memset (g.paddr + g.filesz) 0 (g.memsz - g.filesz)
      (copy_from g.paddr (h + g.offset) 0 g.filesz mem)

unfoldable pub load_segment : ℕ → Segment → Loading → Loading
load_segment h g s =
    let upper = add32 g.vaddr g.memsz in
    if g.loadable
    then record {
      mem = load_memory h g s.mem;
      base_vaddr = if ltb g.vaddr s.base_vaddr then g.vaddr else s.base_vaddr;
      base_paddr = if ltb g.paddr s.base_paddr then g.paddr else s.base_paddr;
      highest_address = if ltb s.highest_address upper then upper else s.highest_address;
    }
    else s

-- The loop over the program headers from `p` on, with the headers left.
unfoldable pub load_segments : ℕ → ℕ → ℕ → Loading → Loading
load_segments zero h p s = s
load_segments (suc left) h p s =
    load_segments left h (p + 32) (load_segment h (program_header s.mem p) s)

-- The loop over the section headers: sections with no address go to the buffer.
unfoldable pub load_sections : ℕ → ℕ → ℕ → (ℕ → ℕ) → ℕ → (ℕ → ℕ) × ℕ
load_sections zero h p mem buffer = (mem, buffer)
load_sections (suc left) h p mem buffer =
    let placed = write32 mem (p + 12) buffer in
    let size = read32 placed (p + 20) in
    let copied = copy_from buffer (h + read32 placed (p + 16)) 0 size placed in
    let free = read32 mem (p + 12) == 0 in
    load_sections left h (p + 40) (if free then copied else mem)
      (if free then add32 buffer size else buffer)

-- The buffer behind the segments, by their physical addresses.
abbrev pub section_buffer : Loading → ℕ
section_buffer s =
    if ltb s.base_vaddr s.highest_address
    then u32 (s.highest_address + (2 ^ 64 - (s.base_vaddr + (2 ^ 64 - s.base_paddr)) % 2 ^ 64))
    else s.highest_address

abbrev pub entry_address : ℕ → Loading → ℕ
entry_address entry s = u32 (entry + (2 ^ 64 - s.base_vaddr) + s.base_paddr)

pub data LoadError : Type 0 where
  not_elf not_elf32 byte_order elf_version machine elf_type no_program_header : LoadError

-- What is returned, the memory then, and the message of a failed check.
pub record LoadResult : Type 0 where
  pub returned : ℕ
  pub memory : ℕ → ℕ
  pub message : Option LoadError

abbrev pub entered : ℕ → (ℕ → ℕ) → LoadResult
entered entry mem = record { returned = entry; memory = mem; message = none }

abbrev pub rejected : (ℕ → ℕ) → LoadError → LoadResult
rejected mem e = record { returned = 0; memory = mem; message = some e }

unfoldable pub load_image : (ℕ → ℕ) → ℕ → LoadResult
load_image mem h =
    let s = load_segments (e_phnum mem h) h (h + e_phoff mem h) (start_loading mem) in
    let sections =
      load_sections (e_shnum s.mem h) h (h + e_shoff s.mem h) s.mem (section_buffer s) in
    entered (entry_address (e_entry sections.0 h) s) sections.0

-- The checks in front of the loading, in order.
unfoldable pub failed_check : (ℕ → ℕ) → ℕ → Option LoadError
failed_check mem h =
    if not (mem h == 0x7F)
      || not (mem (h + 1) == b'E')
      || not (mem (h + 2) == b'L')
      || not (mem (h + 3) == b'F')
    then some not_elf
    else (if not (mem (h + 4) == 1)
        then some not_elf32
        else (if not (mem (h + 5) == 1)
            then some byte_order
            else (if not (read32 mem (h + 20) == 1)
                then some elf_version
                else (if not (read16 mem (h + 18) == 3)
                    then some machine
                    else (if not (read16 mem (h + 16) == 2)
                        then some elf_type
                        else (if e_phnum mem h == 0 then some no_program_header else none))))))

abbrev pub load_checked : (ℕ → ℕ) → ℕ → Option LoadError → LoadResult
load_checked mem h (some e) = rejected mem e
load_checked mem h none = load_image mem h

unfoldable pub load_elf : (ℕ → ℕ) → ℕ → LoadResult
load_elf mem h = load_checked mem h (failed_check mem h)
