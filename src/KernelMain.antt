-- ===== src/KernelMain.antt =====
-- `kernelMain` of kernel/src/main/kernel.cc in the i386 build: what it takes from the boot
-- information and which memory it claims, before the paging. The memory is by bytes; addresses that
-- wrap are left out. A division by 0 and a loop without end are `none`.
pub mod Remap
pub mod Claims
pub mod Start
use danaos.Prelude.{ℕ, ◌+◌, ◌*◌, Option, none, some, ◌>>=◌, List, u32, read32, read64}
use danaos.Bitmap.{Bitmap}
use danaos.BootInfo.{Tags, multiboot_tags}
use danaos.MemMap.{visited}
use danaos.PhysMem.Frames.{alloc_range}
use danaos.PhysMem.Init
use danaos.Symbols.{SectionHeader, find_table}
use danaos.Symbols.Headers.{header_at, headers_at, sizeof_header}

-- What the linker sets: the memory of the bitmap by its words, its physical address, the physical
-- end of the kernel, and the addresses of the strings ".strtab" and ".symtab".
pub record Links : Type 0 where
  pub phys_bitmap : ℕ → ℕ
  pub phys_bitmap_address : ℕ
  pub kernel_phys_end : ℕ
  pub strtab : ℕ
  pub symtab : ℕ

pub record Framebuffer : Type 0 where
  pub fb_addr : ℕ
  pub fb_width : ℕ
  pub fb_height : ℕ

abbrev pub framebuffer_of : (ℕ → ℕ) → Option ℕ → Framebuffer
framebuffer_of mem none = record { fb_addr = 0xB8000; fb_width = 80; fb_height = 25 }
framebuffer_of mem (some tag) = record {
  fb_addr = u32 (read64 mem (tag + 8));
  fb_width = read32 mem (tag + 20);
  fb_height = read32 mem (tag + 24);
}

-- The fields of the tag with the sections.
abbrev pub sections : ℕ → ℕ
sections tag = tag + 20

abbrev pub section_headers : (ℕ → ℕ) → ℕ → List SectionHeader
section_headers mem tag = headers_at mem (read32 mem (tag + 8)) (sections tag)

-- `sectionHeaders[elf_sections->shndx]`.
abbrev pub names_header : (ℕ → ℕ) → ℕ → SectionHeader
names_header mem tag = header_at mem (sections tag + sizeof_header * read32 mem (tag + 16))

-- No memory map leaves the physical memory manager as it is.
unfoldable pub init_memory : (ℕ → ℕ) → Links → Option ℕ → Bitmap → Option Bitmap
init_memory mem links none b = some b
init_memory mem links (some map) b = do
  areas ← visited mem map
  some (Init.init links.phys_bitmap links.phys_bitmap_address links.kernel_phys_end areas).bitmap

abbrev pub claim : ℕ → ℕ → Bitmap → Bitmap
claim address bytes b = (alloc_range b address bytes).1

abbrev pub claim_table : Option SectionHeader → Bitmap → Bitmap
claim_table none b = b
claim_table (some header) b = claim header.sh_addr header.sh_size b

-- The memory of the tag, of the names of the sections and of the two tables.
unfoldable pub claim_sections : (ℕ → ℕ) → Links → Option ℕ → Bitmap → Bitmap
claim_sections mem links none b = b
claim_sections mem links (some tag) b =
    let names = names_header mem tag in
    let headers = section_headers mem tag in
    let b1 = claim tag (read32 mem (tag + 4)) b in
    let b2 = claim names.sh_addr names.sh_size b1 in
    let b3 = claim_table (find_table mem links.strtab names.sh_addr headers) b2 in
    claim_table (find_table mem links.symtab names.sh_addr headers) b3

-- What is known when the paging starts.
pub record Prepared : Type 0 where
  pub frames : Bitmap
  pub framebuffer : Framebuffer
  pub elf_sections : Option ℕ

unfoldable pub prepare : (ℕ → ℕ) → Links → ℕ → Bitmap → Option Prepared
prepare mem links info b = do
  tags ← multiboot_tags mem info
  frames ← init_memory mem links tags.memmap b
  some (record {
    frames = claim_sections mem links tags.elf_sections frames;
    framebuffer = framebuffer_of mem tags.framebuffer;
    elf_sections = tags.elf_sections;
  })
