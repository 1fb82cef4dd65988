-- ===== src/Symbols/Headers.antt =====
-- The section headers and symbols of kernel/src/arch/i386/elf/elf.h, as they stand in a memory by
-- bytes. Addresses that wrap are left out.
use danaos.Prelude.{ℕ, zero, suc, ◌+◌, ◌%◌, List, [], ◌∷◌, ◌==◌, if◌then◌else◌, read32}
use danaos.Symbols.{
  SectionHeader, Symbol, SymbolType, notype, object, func, section, file, loproc, hiproc,
}

abbrev pub sizeof_header : ℕ
sizeof_header = 40

abbrev pub sizeof_symbol : ℕ
sizeof_symbol = 16

abbrev pub header_at : (ℕ → ℕ) → ℕ → SectionHeader
header_at mem p = record {
  sh_name = read32 mem p;
  sh_addr = read32 mem (p + 12);
  sh_offset = read32 mem (p + 16);
  sh_size = read32 mem (p + 20);
}

-- The headers from `p` on, with their number.
abbrev pub headers_at : (ℕ → ℕ) → ℕ → ℕ → List SectionHeader
headers_at mem zero p = []
headers_at mem (suc left) p = header_at mem p ∷ headers_at mem left (p + sizeof_header)

-- The type is in the low four bits; a value that is no enumerator is not `FUNC`, which is all that
-- the kernel asks for, and stands as `notype`.
abbrev pub symbol_type : ℕ → SymbolType
symbol_type n =
    if n == 1
    then object
    else if n == 2
    then func
    else if n == 3
    then section
    else if n == 4
    then file
    else if n == 13
    then loproc
    else if n == 15
    then hiproc
    else notype

abbrev pub symbol_at : (ℕ → ℕ) → ℕ → Symbol
symbol_at mem p = record {
  st_name = read32 mem p;
  st_value = read32 mem (p + 4);
  st_size = read32 mem (p + 8);
  st_type = symbol_type (mem (p + 12) % 16);
}
