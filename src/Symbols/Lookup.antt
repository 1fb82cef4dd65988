-- ===== src/Symbols/Lookup.antt =====
-- What the searches find.
use danaos.Prelude.{
  ℕ, zero, suc, ◌%◌, ◌^◌, ◌+◌, ◌≤◌, ◌<◌, ◌≡◌, refl, ◌⊎◌, inl, inr, arith, Option, none, some, true,
  false, Bool-cases,
}
use native.Mathlib.Decide.{dec_lt}
use danaos.Symbols.{
  SymbolLookup, Symbol, SymbolType, notype, object, func, section, file, loproc, hiproc, is_func,
  covers, lookup_from, lookup,
}

-- A function whose bytes, from its value on, hold the address; the end of it is a 32-bit address.
pub record Covers (s : Symbol) (address : ℕ) : Type 0 where
  pub function : s.st_type ≡ func
  pub from_value : s.st_value ≤ address
  pub below_end : address < (s.st_value + s.st_size) % 2 ^ 32

is_func-func : (t : SymbolType) → is_func t ≡ true → t ≡ func
is_func-func notype e = absurd (ground arith)
is_func-func object e = absurd (ground arith)
is_func-func func e = refl
is_func-func section e = absurd (ground arith)
is_func-func file e = absurd (ground arith)
is_func-func loproc e = absurd (ground arith)
is_func-func hiproc e = absurd (ground arith)

covers-Covers : (s : Symbol) (address : ℕ) → covers s address ≡ true → Covers s address
covers-Covers s address e = record {
  function = is_func-func s.st_type (ground arith);
  from_value = ground arith;
  below_end = ground arith;
}

Covers-covers : (s : Symbol) (address : ℕ) → covers s address ≡ false → ¬ Covers s address
Covers-covers s address e c =
    let f : is_func s.st_type ≡ true = rw (c.function) refl in
    absurd (ground (arith, c.from_value, c.below_end))

-- What `lookup` may answer for the symbols from `from` up to `to`: the name of the first function
-- that covers the address, or nothing where there is none.
abbrev pub FirstCovering : SymbolLookup → ℕ → ℕ → ℕ → Option ℕ → Type 0
FirstCovering l from to address r =
    ((r ≡ none) × ((j : ℕ) → from ≤ j → j < to → ¬ Covers (l.symbol_table j) address))
    ⊎ ((i : ℕ) × (from ≤ i)
        × (i < to)
        × Covers (l.symbol_table i) address
        × ((j : ℕ) → from ≤ j → j < i → ¬ Covers (l.symbol_table j) address)
        × (r ≡ some (l.string_table + (l.symbol_table i).st_name)))

lookup_from-FirstCovering :
    (l : SymbolLookup) (left i address : ℕ)
    → FirstCovering l i (i + left) address (lookup_from l left i address)
unfolding lookup_from
lookup_from-FirstCovering l zero i address = inl (refl, λ j p q. absurd (omega arith))
lookup_from-FirstCovering l (suc left) i address =
    elim (Bool-cases (covers (l.symbol_table i) address)) [
      | inl e ↦ rw e (
          inr (
            i,
            omega arith,
            omega arith,
            covers-Covers (l.symbol_table i) address e,
            λ j p q. absurd (omega arith),
            refl,
          ))
      | inr e ↦ rw e (
          later (lookup_from-FirstCovering l left (i + 1) address)
            (Covers-covers (l.symbol_table i) address e))
    ]
  where
    here :
        (j : ℕ)
        → ¬ Covers (l.symbol_table i) address
        → i ≤ j
        → (i + 1 ≤ j → ¬ Covers (l.symbol_table j) address)
        → ¬ Covers (l.symbol_table j) address
    here j e p h = elim (dec_lt i j) [
      | yes q ↦ h (omega arith)
      | no q ↦ (let z : j ≡ i = omega arith in rw z e)
    ]

    later :
        {r : Option ℕ}
        → FirstCovering l (i + 1) (i + 1 + left) address r
        → ¬ Covers (l.symbol_table i) address
        → FirstCovering l i (i + suc left) address r
    later (inl (n, h)) e = inl (n, λ j p q. here j e p (λ m. h j m (omega arith)))
    later (inr (k, lo, hi, c, h, r)) e =
        inr (k, omega arith, omega arith, c, λ j p q. here j e p (λ m. h j m q), r)

-- `lookup` returns the name of the first function whose bytes hold the address, or nothing where no
-- function of the table does.
pub lookup-FirstCovering :
    (l : SymbolLookup) (address : ℕ) → FirstCovering l 0 l.symbols address (lookup l address)
unfolding lookup
lookup-FirstCovering l address =
    let all : 0 + l.symbols ≡ l.symbols = omega arith in
    rw all at (lookup_from-FirstCovering l l.symbols 0 address)
