-- ===== src/MemMap/Iterator.antt =====
-- The class `memmap_iterator` of kernel/src/hal/memory/memmap_iterator.h, over entries of 24 bytes.
-- An iterator is the pointer that it holds, a 32-bit word; an entry is its address.
use danaos.Prelude.{ℕ, zero, suc, ◌^◌, ◌<◌, ◌≡◌, ◌∙◌, arith, Bool, not, ◌==◌, add32, sub32, mul32}
use danaos.MemMap.{sizeof_entry}

abbrev pub deref : ℕ → ℕ
deref it = it

abbrev pub index : ℕ → ℕ → ℕ
index it i = add32 it (mul32 sizeof_entry i)

abbrev pub equal : ℕ → ℕ → Bool
equal it other = other == it

abbrev pub differs : ℕ → ℕ → Bool
differs it other = not (other == it)

-- `++it` and `--it`: the iterator behind it.
abbrev pub increment : ℕ → ℕ
increment it = add32 it sizeof_entry

abbrev pub decrement : ℕ → ℕ
decrement it = sub32 it sizeof_entry

-- `it++` and `it--`: the old iterator and the one behind it.
abbrev pub post_increment : ℕ → ℕ × ℕ
post_increment it = (it, add32 it sizeof_entry)

abbrev pub post_decrement : ℕ → ℕ × ℕ
post_decrement it = (it, sub32 it sizeof_entry)

abbrev pub advance : ℕ → ℕ → ℕ
advance it i = add32 it (mul32 sizeof_entry i)

abbrev pub retreat : ℕ → ℕ → ℕ
retreat it i = sub32 it (mul32 sizeof_entry i)

-- `++it`, `n` times.
unfoldable pub steps : ℕ → ℕ → ℕ
steps zero it = it
steps (suc n) it = steps n (increment it)

-- `it -= n` takes `it += n` back, whatever wraps.
pub retreat-advance : (it n : ℕ) → it < 2 ^ 32 → retreat (advance it n) n ≡ it
retreat-advance it n l = omega arith

-- `it += n` is `++it` `n` times.
pub advance-steps : (n it : ℕ) → it < 2 ^ 32 → advance it n ≡ steps n it
unfolding steps
advance-steps zero it l = omega arith
advance-steps (suc n) it l =
    let next : increment it < 2 ^ 32 = omega arith in
    let same : advance it (suc n) ≡ advance (increment it) n = omega arith in
    same ∙ advance-steps n (increment it) next
