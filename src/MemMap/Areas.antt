-- ===== src/MemMap/Areas.antt =====
-- The loop over the memory map.
use danaos.Prelude.{
  ℕ, zero, suc, ◌+◌, ◌*◌, ◌/◌, ◌%◌, ◌-◌, ◌^◌, ◌≤◌, ◌<◌, ◌≡◌, ◌∙◌, ap, refl, List, [], ◌∷◌, some,
  ◌==◌, false, arith, read32, read64, read32_moved,
}
use danaos.PhysMem.Init.{MmapEntry}
use danaos.MemMap.{area_type, entry_at, get, entries, end, visited_from, visited}

-- The entries from the `i`th on, with the number of them.
abbrev pub areas_from : (ℕ → ℕ) → ℕ → ℕ → ℕ → List MmapEntry
areas_from mem map i zero = []
areas_from mem map i (suc left) = get mem map i ∷ areas_from mem map (i + 1) left

visited_from-areas_from :
    (fuel : ℕ) (mem : ℕ → ℕ) (map i left last : ℕ)
    → left < fuel
    → last ≡ map + 16 + 24 * (i + left)
    → visited_from fuel mem (map + 16 + 24 * i) last ≡ some (areas_from mem map i left)
unfolding visited_from
visited_from-areas_from zero mem map i left last h e = absurd (omega arith)
visited_from-areas_from (suc fuel) mem map i zero last h e = ground arith
visited_from-areas_from (suc fuel) mem map i (suc left) last h e =
    let p : map + 16 + 24 * i + 24 ≡ map + 16 + 24 * (i + 1) = omega arith in
    let d : (map + 16 + 24 * i == last) ≡ false = ground arith in
    rw (d, p, visited_from-areas_from fuel mem map (i + 1) left last (omega arith) (omega arith))
      refl

-- Where the size of an entry is not 0 and the tag has its head, the loop over the memory map ends,
-- and visits as many entries of 24 bytes, one behind the other, as entries of the size in the tag
-- fit behind the head.
pub visited-areas_from :
    (mem : ℕ → ℕ) (map size entry_size : ℕ)
    → read32 mem (map + 4) ≡ size
    → read32 mem (map + 8) ≡ entry_size
    → 0 < entry_size
    → 16 ≤ size
    → size < 2 ^ 32
    → visited mem map ≡ some (areas_from mem map 0 ((size - 16) / entry_size))
unfolding visited end entries
visited-areas_from mem map size entry_size s e p l w =
    let count : ℕ = (size - 16) / entry_size in
    let sub : (size + 2 ^ 32 - 16) % 2 ^ 32 ≡ size - 16 = omega arith in
    let z : (entry_size == 0) ≡ false = ground arith in
    let at : map + 16 ≡ map + 16 + 24 * 0 = omega arith in
    let last : map + 16 + 24 * count ≡ map + 16 + 24 * (0 + count) = omega arith in
    rw (s, e, z, sub)
      (ap (λ a. visited_from (map + 16 + 24 * count - (map + 16) + 1) mem a (map + 16 + 24 * count))
          at
        ∙ visited_from-areas_from _ mem map 0 count (map + 16 + 24 * count) (omega arith) last)

entry_at_moved :
    (m m' : ℕ → ℕ) (p p' : ℕ)
    → ((k : ℕ) → k < 24 → m (p + k) ≡ m' (p' + k))
    → entry_at m p ≡ entry_at m' p'
entry_at_moved m m' p p' h =
    let word : (a a' k : ℕ) → k ≤ 20 → a ≡ p + k → a' ≡ p' + k → read32 m a ≡ read32 m' a' =
      λ a a' k q e e'.
        read32_moved m m' a a'
          (λ b r. ap m (omega arith) ∙ h (k + b) (omega arith) ∙ ap m' (omega arith)) in
    let addr : read64 m p ≡ read64 m' p' = omega (
      arith,
      word p p' 0 (omega arith) (omega arith) (omega arith),
      word (p + 4) (p' + 4) 4 (omega arith) refl refl,
    ) in
    let len : read64 m (p + 8) ≡ read64 m' (p' + 8) = omega (
      arith,
      word (p + 8) (p' + 8) 8 (omega arith) refl refl,
      word (p + 8 + 4) (p' + 8 + 4) 12 (omega arith) (omega arith) (omega arith),
    ) in
    let type : read32 m (p + 16) ≡ read32 m' (p' + 16) =
      word (p + 16) (p' + 16) 16 (omega arith) refl refl in
    λ i. record { addr = addr i; len = len i; type = area_type (type i) }

-- A memory map of the same bytes has the same areas.
pub areas_from_moved :
    (m m' : ℕ → ℕ) (map map' n i left : ℕ)
    → i + left ≤ n
    → ((j : ℕ) → j < 24 * n → m (map + 16 + j) ≡ m' (map' + 16 + j))
    → areas_from m map i left ≡ areas_from m' map' i left
areas_from_moved m m' map map' n i zero l h = refl
areas_from_moved m m' map map' n i (suc left) l h =
    let e : get m map i ≡ get m' map' i =
      entry_at_moved m m' (map + 16 + 24 * i) (map' + 16 + 24 * i)
        (λ k q. ap m (omega arith) ∙ h (24 * i + k) (omega arith) ∙ ap m' (omega arith)) in
    rw (e, areas_from_moved m m' map map' n (i + 1) left (omega arith) h) refl
