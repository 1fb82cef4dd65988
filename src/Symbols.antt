-- ===== src/Symbols.antt =====
-- `elf::symbol_lookup` and the search for the tables, kernel/src/arch/i386/elf/elf.h and elf.cc.
-- Strings and names are addresses in the memory `mem`; the null pointer is `none`. A result of
-- `lookup` is the address of the name, or `none` for the empty string. The output of all the names
-- is left out.
pub mod Lookup
pub mod Headers
use danaos.Prelude.{
  ℕ, zero, suc, ◌+◌, ◌*◌, ◌%◌, ◌^◌, Option, none, some, Bool, true, false, ◌&&◌, ltb, leb, ◌==◌,
  if◌then◌else◌, List, [], ◌∷◌, add32,
}
use danaos.Strings.{Order, less, same, greater, strncmp}

-- The section header, as far as it is used here.
pub record SectionHeader : Type 0 where
  pub sh_name : ℕ
  pub sh_addr : ℕ
  pub sh_offset : ℕ
  pub sh_size : ℕ

pub data SymbolType : Type 0 where
  notype object func section file loproc hiproc : SymbolType

abbrev pub is_func : SymbolType → Bool
is_func func = true
is_func other = false

pub record Symbol : Type 0 where
  pub st_name : ℕ
  pub st_value : ℕ
  pub st_size : ℕ
  pub st_type : SymbolType

-- The null table of a new lookup has no symbols.
pub record SymbolLookup : Type 0 where
  pub symbol_table : ℕ → Symbol
  pub string_table : ℕ
  pub symbols : ℕ
  pub strings : ℕ

abbrev pub is_same : Order → Bool
is_same less = false
is_same same = true
is_same greater = false

-- `find_string_table` and `find_symbol_table` differ in the name that they look for, of which the
-- first seven characters are to be compared. It stands at `name` in the memory.
unfoldable pub find_table : (ℕ → ℕ) → ℕ → ℕ → List SectionHeader → Option SectionHeader
find_table mem name str_header_tbl [] = none
find_table mem name str_header_tbl (h ∷ headers) =
    let rest = find_table mem name str_header_tbl headers in
    if is_same (strncmp mem (str_header_tbl + h.sh_name) name 7) then some h else rest

abbrev pub set_strings : Option ℕ → ℕ → SymbolLookup → SymbolLookup
set_strings none strings l = l
set_strings (some table) strings l = record l { string_table = table; strings = strings }

abbrev pub set_symbols : Option (ℕ → Symbol) → ℕ → SymbolLookup → SymbolLookup
set_symbols none symbols l = l
set_symbols (some table) symbols l = record l { symbol_table = table; symbols = symbols }

-- A null pointer for one of the tables leaves that table.
unfoldable pub init : Option ℕ → ℕ → Option (ℕ → Symbol) → ℕ → SymbolLookup → SymbolLookup
init string_table strings symbol_table symbols l =
    let l1 = set_strings string_table strings l in set_symbols symbol_table symbols l1

-- The test of a symbol in `lookup`.
abbrev pub covers : Symbol → ℕ → Bool
covers s address =
    is_func s.st_type && (leb s.st_value address && ltb address (add32 s.st_value s.st_size))

-- The loop of `lookup`, from the symbol `i` on, with the symbols left.
unfoldable pub lookup_from : SymbolLookup → ℕ → ℕ → ℕ → Option ℕ
lookup_from l zero i address = none
lookup_from l (suc left) i address =
    let rest = lookup_from l left (i + 1) address in
    if covers (l.symbol_table i) address
    then some (l.string_table + (l.symbol_table i).st_name)
    else rest

unfoldable pub lookup : SymbolLookup → ℕ → Option ℕ
lookup l address = lookup_from l l.symbols 0 address
