-- ===== src/LongSymbols.antt =====
-- The symbols of the 64-bit build, kernel/src/arch/x86_64/elf/elf.h and elf.cc: the section headers
-- and symbols as they stand in a memory by bytes, and the lookup of a symbol, whose sums have 64 bits.
-- The search for the tables is written as in the i386 build. Addresses in memory that wrap are left
-- out.
use danaos.Prelude.{
  ℕ, zero, suc, ◌+◌, ◌%◌, ◌^◌, ◌<◌, ◌≡◌, refl, arith, Option, none, some, Bool, ◌&&◌, ltb, leb,
  if◌then◌else◌, List, [], ◌∷◌, read32, read64,
}
use danaos.Symbols
use danaos.Symbols.{SectionHeader, Symbol, SymbolLookup, is_func}
use danaos.Symbols.Headers.{symbol_type}

abbrev pub sizeof_header : ℕ
sizeof_header = 64

abbrev pub header_at : (ℕ → ℕ) → ℕ → SectionHeader
header_at mem p = record {
  sh_name = read32 mem p;
  sh_addr = read64 mem (p + 16);
  sh_offset = read64 mem (p + 24);
  sh_size = read64 mem (p + 32);
}

-- The headers from `p` on, with their number.
abbrev pub headers_at : (ℕ → ℕ) → ℕ → ℕ → List SectionHeader
headers_at mem zero p = []
headers_at mem (suc left) p = header_at mem p ∷ headers_at mem left (p + sizeof_header)

abbrev pub symbol_at : (ℕ → ℕ) → ℕ → Symbol
symbol_at mem p = record {
  st_name = read32 mem p;
  st_value = read64 mem (p + 8);
  st_size = read64 mem (p + 16);
  st_type = symbol_type (mem (p + 4) % 16);
}

-- The test of a symbol in `lookup`.
abbrev pub covers : Symbol → ℕ → Bool
covers s address =
    is_func s.st_type && (leb s.st_value address && ltb address ((s.st_value + s.st_size) % 2 ^ 64))

-- The loop of `lookup`, from the symbol `i` on, with the symbols left.
unfoldable pub lookup_from : SymbolLookup → ℕ → ℕ → ℕ → Option ℕ
lookup_from l zero i address = none
lookup_from l (suc left) i address =
    let rest = lookup_from l left (i + 1) address in
    if covers (l.symbol_table i) address
    then some (l.string_table + (l.symbol_table i).st_name)
    else rest

unfoldable pub lookup : SymbolLookup → ℕ → Option ℕ
lookup l address = lookup_from l l.symbols 0 address

covers-covers :
    (s : Symbol) (address : ℕ)
    → s.st_value + s.st_size < 2 ^ 32
    → covers s address ≡ Symbols.covers s address
covers-covers s address h =
    let wide : (s.st_value + s.st_size) % 2 ^ 64 ≡ s.st_value + s.st_size = omega arith in
    let narrow : (s.st_value + s.st_size) % 2 ^ 32 ≡ s.st_value + s.st_size = omega arith in
    rw (wide, narrow) refl

lookup_from-lookup_from :
    (l : SymbolLookup) (left i address : ℕ)
    → ((j : ℕ) → (l.symbol_table j).st_value + (l.symbol_table j).st_size < 2 ^ 32)
    → lookup_from l left i address ≡ Symbols.lookup_from l left i address
unfolding lookup_from Symbols.lookup_from
lookup_from-lookup_from l zero i address h = refl
lookup_from-lookup_from l (suc left) i address h =
    rw
      (
        lookup_from-lookup_from l left (i + 1) address h,
        covers-covers (l.symbol_table i) address (h i),
      )
      refl

-- On symbols that end below 2 ^ 32, both builds find the same names.
long_lookup-lookup :
    (l : SymbolLookup) (address : ℕ)
    → ((j : ℕ) → (l.symbol_table j).st_value + (l.symbol_table j).st_size < 2 ^ 32)
    → lookup l address ≡ Symbols.lookup l address
unfolding lookup Symbols.lookup
long_lookup-lookup l address h = lookup_from-lookup_from l l.symbols 0 address h
