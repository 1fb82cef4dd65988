-- ===== src/KernelMain/Claims.antt =====
-- The page frames that are taken when the paging starts.
use danaos.Prelude.{
  ℕ, ◌+◌, ◌^◌, ◌<◌, ◌≡◌, ◌∙◌, refl, Option, none, some, Bool, false, ◌||◌, List, arith, read32,
}
use danaos.Bitmap
use danaos.Bitmap.{Bitmap}
use danaos.BootInfo.{Tags, multiboot_tags}
use danaos.KernelMain.{
  Links, framebuffer_of, section_headers, names_header, init_memory, claim, claim_table,
  claim_sections, Prepared, prepare,
}
use danaos.MemMap.{visited}
use danaos.PhysMem.FrameLaws.{page_meets, get-alloc_range}
use danaos.PhysMem.Init
use danaos.PhysMem.Init.{MmapEntry}
use danaos.PhysMem.InitLaws.{AllBelow4Gib, reserved_by, init_lem}
use danaos.Symbols.{SectionHeader, find_table}

-- At least one byte, below 4 GiB.
abbrev pub IsRange : ℕ → ℕ → Type 0
IsRange address bytes = (0 < bytes) × (address + bytes < 2 ^ 32)

abbrev pub IsTable : Option SectionHeader → Type 0
IsTable none = Unit
IsTable (some header) = IsRange header.sh_addr header.sh_size

abbrev pub table_meets : Option SectionHeader → ℕ → Bool
table_meets none f = false
table_meets (some header) f = page_meets header.sh_addr header.sh_size f

-- The sections with the names of the symbols and with the symbols.
abbrev pub string_header : (ℕ → ℕ) → Links → ℕ → Option SectionHeader
string_header mem links tag =
    find_table mem links.strtab (names_header mem tag).sh_addr (section_headers mem tag)

abbrev pub symbol_header : (ℕ → ℕ) → Links → ℕ → Option SectionHeader
symbol_header mem links tag =
    find_table mem links.symtab (names_header mem tag).sh_addr (section_headers mem tag)

-- The tag, the names of the sections and the two tables have bytes and lie below 4 GiB.
abbrev pub AreRanges : (ℕ → ℕ) → Links → Option ℕ → Type 0
AreRanges mem links none = Unit
AreRanges mem links (some tag) =
    IsRange tag (read32 mem (tag + 4))
    × IsRange (names_header mem tag).sh_addr (names_header mem tag).sh_size
    × IsTable (string_header mem links tag)
    × IsTable (symbol_header mem links tag)

-- One of them has a byte in the page of frame `f`.
abbrev pub sections_meet : (ℕ → ℕ) → Links → Option ℕ → ℕ → Bool
sections_meet mem links none f = false
sections_meet mem links (some tag) f =
    page_meets tag (read32 mem (tag + 4)) f
    || page_meets (names_header mem tag).sh_addr (names_header mem tag).sh_size f
    || table_meets (string_header mem links tag) f
    || table_meets (symbol_header mem links tag) f

get-claim :
    (address bytes : ℕ) (b : Bitmap) (f : ℕ)
    → IsRange address bytes
    → Bitmap.get (claim address bytes b) f ≡ Bitmap.get b f || page_meets address bytes f
get-claim address bytes b f r = get-alloc_range b address bytes f r.0 r.1 ∙ ground arith

get-claim_table :
    (t : Option SectionHeader) (b : Bitmap) (f : ℕ)
    → IsTable t
    → Bitmap.get (claim_table t b) f ≡ Bitmap.get b f || table_meets t f
get-claim_table none b f r = ground arith
get-claim_table (some header) b f r = get-claim header.sh_addr header.sh_size b f r

get-claim_sections :
    (mem : ℕ → ℕ) (links : Links) (tag : Option ℕ) (b : Bitmap) (f : ℕ)
    → AreRanges mem links tag
    → Bitmap.get (claim_sections mem links tag b) f
      ≡ Bitmap.get b f || sections_meet mem links tag f
unfolding claim_sections
get-claim_sections mem links none b f r = ground arith
get-claim_sections mem links (some tag) b f r =
    let names : SectionHeader = names_header mem tag in
    let b1 : Bitmap = claim tag (read32 mem (tag + 4)) b in
    let b2 : Bitmap = claim names.sh_addr names.sh_size b1 in
    let b3 : Bitmap = claim_table (string_header mem links tag) b2 in
    get-claim_table (symbol_header mem links tag) b3 f r.3
    ∙ rw
        (
          get-claim_table (string_header mem links tag) b2 f r.2,
          get-claim names.sh_addr names.sh_size b1 f r.1,
          get-claim tag (read32 mem (tag + 4)) b f r.0,
        )
        (ground arith)

-- Where the loop over the tags finds a memory map, and its areas, the memory of the bitmap, the end
-- of the kernel and the tables of the image are ranges below 4 GiB, the preparation for the paging
-- ends; a frame of the bitmap is then taken exactly where its page meets the bitmap's own memory, an
-- area that is not available, the memory below the end of the kernel, or, where there is a tag with
-- the sections, that tag, the names of the sections, the names of the symbols or the symbols.
pub prepare_lem :
    (mem : ℕ → ℕ) (links : Links) (info : ℕ) (b : Bitmap) (tags : Tags) (map : ℕ)
    (areas : List MmapEntry)
    → multiboot_tags mem info ≡ some tags
    → tags.memmap ≡ some map
    → visited mem map ≡ some areas
    → AllBelow4Gib areas
    → links.phys_bitmap_address + 16384 < 2 ^ 32
    → IsRange 0 links.kernel_phys_end
    → AreRanges mem links tags.elf_sections
    → (ready : Prepared) × (prepare mem links info b ≡ some ready)
      × (ready.elf_sections ≡ tags.elf_sections)
      × (ready.framebuffer ≡ framebuffer_of mem tags.framebuffer)
      × ((f : ℕ)
          → f < 0x20000
          → Bitmap.get ready.frames f
            ≡ page_meets links.phys_bitmap_address 16384 f
              || reserved_by areas f
              || page_meets 0 links.kernel_phys_end f
              || sections_meet mem links tags.elf_sections f)
unfolding prepare init_memory
prepare_lem mem links info b tags map areas t m v below bitmap kernel tables =
    let own : Bitmap =
      (Init.init links.phys_bitmap links.phys_bitmap_address links.kernel_phys_end areas).bitmap in
    let below_4gib : links.kernel_phys_end < 2 ^ 32 = omega (arith, kernel.1) in
    (
      record {
        frames = claim_sections mem links tags.elf_sections own;
        framebuffer = framebuffer_of mem tags.framebuffer;
        elf_sections = tags.elf_sections;
      },
      rw (t, m, v) refl,
      refl,
      refl,
      λ f l.
          get-claim_sections mem links tags.elf_sections own f tables
          ∙ rw
              ((init_lem links.phys_bitmap links.phys_bitmap_address links.kernel_phys_end areas f
                below bitmap kernel.0 below_4gib l).0)
              (ground arith),
    )
