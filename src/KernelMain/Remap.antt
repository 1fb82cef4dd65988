-- ===== src/KernelMain/Remap.antt =====
-- The rest of `kernelMain` of kernel/src/main/kernel.cc: the managers of the virtual memory and of
-- the heap, the screen, and the tables of the symbols at their new addresses. `translate` is the
-- processor's translation of addresses, and `load` the byte that it reads at a virtual address; both
-- are parameters. A header is read when it is looked for. A page fault, a panic and a loop without end are `none`. The output is left out,
-- and so are `init_hal`, `run_kernel` and what they start.
use danaos.Prelude.{
  ℕ, ◌+◌, ◌*◌, ◌/◌, ◌%◌, ◌^◌, Option, none, some, ◌>>=◌, ◌==◌, if◌then◌else◌, read32,
}
use danaos.BootInfo.{multiboot2_bootloader_magic}
use danaos.Cga.Setup
use danaos.Cga.Setup.{Screen}
use danaos.Heap
use danaos.Heap.{Heap, kernel_alloc_pages}
use danaos.KernelMain.{Links, section_headers, names_header, prepare}
use danaos.Symbols
use danaos.Symbols.{SectionHeader, Symbol, SymbolLookup, find_table}
use danaos.Symbols.Headers.{symbol_at, sizeof_symbol}
use danaos.VirtMem.{Translate, VirtMem}
use danaos.VirtMem.Boot
use danaos.VirtMem.Boot.{KernelImage}

abbrev pub Load : Type 0
Load = VirtMem → ℕ → ℕ

-- A byte of a memory that is kept by its 32-bit words.
abbrev pub byte_of : (ℕ → ℕ) → ℕ → ℕ
byte_of words a = words (a / 4) / 256 ^ (a % 4) % 256

-- A null pointer is `none`.
abbrev pub pointer : ℕ → Option ℕ
pointer p = if p == 0 then none else some p

-- The pages of a table, at a virtual address; a section that is not there has none.
unfoldable pub map_table : Translate → Option SectionHeader → Heap → Option (Option ℕ × Heap)
map_table translate none h = some (none, h)
map_table translate (some header) h = do
  mapped ← kernel_alloc_pages translate header.sh_addr header.sh_size h
  some (pointer mapped.0, mapped.1)

abbrev pub table_size : Option SectionHeader → ℕ
table_size none = 0
table_size (some header) = header.sh_size

-- The symbols at an address, in the memory as `load` reads it.
abbrev pub symbols_at : (ℕ → ℕ) → Option ℕ → Option (ℕ → Symbol)
symbols_at mem none = none
symbols_at mem (some p) = some (λ i. symbol_at mem (p + sizeof_symbol * i))

unfoldable pub map_sections :
    Translate → Load → Links → ℕ → ℕ → Heap → SymbolLookup → Option (Heap × SymbolLookup)
map_sections translate load links phys size h lookup = do
  tag ← kernel_alloc_pages translate phys size h
  let names = names_header (load tag.1.vm) tag.0
  str_header_tbl ← kernel_alloc_pages translate names.sh_addr names.sh_size tag.1
  let mem = load str_header_tbl.1.vm
  let string_header = find_table mem links.strtab str_header_tbl.0 (section_headers mem tag.0)
  let symbol_header = find_table mem links.symtab str_header_tbl.0 (section_headers mem tag.0)
  strings ← map_table translate string_header str_header_tbl.1
  symbols ← map_table translate symbol_header strings.1
  some (
    symbols.1,
    Symbols.init strings.0 (table_size string_header) (symbols_at (load symbols.1.vm) symbols.0)
        (table_size symbol_header / sizeof_symbol) lookup,
  )

-- Everything that is set up.
pub record Kernel : Type 0 where
  pub heap : Heap
  pub screen : Screen
  pub lookup : SymbolLookup

unfoldable pub map_elf : Translate → Load → Links → Option ℕ → ℕ → Kernel → Option Kernel
map_elf translate load links none size k = some k
map_elf translate load links (some phys) size k = do
  mapped ← map_sections translate load links phys size k.heap k.lookup
  some (record k { heap = mapped.0; lookup = mapped.1 })

-- The size of the tag, which is saved before the paging.
abbrev pub section_size : (ℕ → ℕ) → Option ℕ → ℕ
section_size mem none = 0
section_size mem (some tag) = read32 mem (tag + 4)

-- Everything behind the test of the magic number.
unfoldable pub set_up : Translate → Load → KernelImage → Links → ℕ → Kernel → Option Kernel
set_up translate load image links info k = do
  ready ← prepare (byte_of k.heap.vm.memory) links info k.heap.vm.frames
  vm ← Boot.init image (record k.heap.vm { frames = ready.frames })
  let heap = Heap.init (record k.heap { vm = vm })
  shown ←
      Setup.init translate image.virt_offset ready.framebuffer.fb_addr ready.framebuffer.fb_width
        ready.framebuffer.fb_height heap.vm
  map_elf translate load links ready.elf_sections
      (section_size (byte_of k.heap.vm.memory) ready.elf_sections)
      (record k { heap = record heap { vm = shown.1 }; screen = shown.0 })

-- `k` is what the constructors of the global objects leave, and `k.heap.vm` the machine. Without the
-- number of the boot loader the kernel stops in a loop.
unfoldable pub kernel_main : Translate → Load → KernelImage → Links → ℕ → ℕ → Kernel → Option Kernel
kernel_main translate load image links magic info k =
    let ready = set_up translate load image links info k in
    if magic == multiboot2_bootloader_magic then ready else none
