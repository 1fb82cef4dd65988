-- ===== src/Loader/Delivery.antt =====
-- The bytes that `boot_main` writes for the memory map.
use danaos.Prelude.{
  ℕ, zero, suc, ◌+◌, ◌*◌, ◌-◌, ◌^◌, ◌≤◌, ◌<◌, ◌≡◌, ◌∙◌, ap, inl, inr, ltb, leb, ◌&&◌, if◌then◌else◌,
  arith, add32, read32, write32, read32_agree, read32-write32, write32_other, read32-write32_other,
}
use danaos.BootInfo.{tag_type_mmap}
use danaos.Loader.Handover.{m_info, copy_items, mmap_entries, put_mmap}
use danaos.Strings.{copy_from}
use danaos.Strings.Copies.{copy_from_lem}

-- Items that lie below the place for them are copied one behind the other.
copy_items_lem :
    (size left i dst src : ℕ) (mem : ℕ → ℕ) (j : ℕ)
    → src + size * (i + left) ≤ dst
    → copy_items size left i dst src mem j ≡ (
        if leb (dst + size * i) j && ltb j (dst + size * (i + left))
        then mem (src + (j - dst))
        else mem j)
unfolding copy_items
copy_items_lem size zero i dst src mem j apart = ground arith
copy_items_lem size (suc left) i dst src mem j apart =
    let e : size * (i + 1 + left) ≡ size * (i + suc left) = ap (λ k. size * k) (omega arith) in
    let s : size * (i + 1) ≡ size * i + size = grind arith in
    let l : size * i + size ≤ size * (i + suc left) = grind arith in
    copy_items_lem size left (i + 1) dst src
      (copy_from (dst + size * i) (src + size * i) 0 size mem) j (omega arith)
    ∙ ground (
      arith,
      copy_from_lem size (dst + size * i) (src + size * i) 0 mem j (inr (omega arith)),
      copy_from_lem size (dst + size * i) (src + size * i) 0 mem (src + (j - dst))
          (inr (omega arith)),
    )

pub copy_items_all :
    (size n dst src : ℕ) (mem : ℕ → ℕ) (j : ℕ)
    → src + size * n ≤ dst
    → copy_items size n 0 dst src mem j
      ≡ (if leb dst j && ltb j (dst + size * n) then mem (src + (j - dst)) else mem j)
copy_items_all size n dst src mem j apart =
    let e : size * (0 + n) ≡ size * n = ap (λ k. size * k) (omega arith) in
    copy_items_lem size n 0 dst src mem j (omega arith) ∙ ground arith

-- The tag with a memory map of `n` entries, and the total size behind it.
pub put_mmap_lem :
    (mmap n : ℕ) (copied : ℕ → ℕ)
    → mmap + 16 + 24 * n ≤ m_info
    → n < 2 ^ 20
    → read32 copied (mmap + 4) ≡ 16 + 24 * n
    → read32 copied (mmap + 8) ≡ 24
    → read32 copied m_info ≡ 8
    → read32 copied (m_info + 8 + 4) ≡ 16 + 24 * n
    → let mem = put_mmap mmap (m_info + 8) copied in
      (read32 mem m_info ≡ 24 + 24 * n)
      × (read32 mem (m_info + 8) ≡ tag_type_mmap)
      × (read32 mem (m_info + 8 + 4) ≡ 16 + 24 * n)
      × (read32 mem (m_info + 8 + 8) ≡ read32 copied (m_info + 8 + 8))
      × ((j : ℕ) → j < 24 * n → mem (m_info + 24 + j) ≡ copied (mmap + 16 + j))
      × ((j : ℕ) → j < m_info → mem j ≡ copied j)
unfolding put_mmap
put_mmap_lem mmap n copied apart small size entry_size info tag =
    let count : mmap_entries copied mmap ≡ n = rw (size, entry_size) (omega arith) in
    let filled = copy_items 24 (mmap_entries copied mmap) 0 (m_info + 8 + 16) (mmap + 16) copied in
    let typed = write32 filled (m_info + 8) tag_type_mmap in
    let copies : (j : ℕ)
        → filled j ≡ (
            if leb (m_info + 24) j && ltb j (m_info + 24 + 24 * n)
            then copied (mmap + 16 + (j - (m_info + 24)))
            else copied j) =
      λ j. rw count (copy_items_all 24 n (m_info + 24) (mmap + 16) copied j (omega arith)) in
    let total : read32 typed m_info ≡ 8 =
      read32_agree typed copied m_info (λ j p q. ground (arith, copies j)) ∙ info in
    let size' : read32 typed (m_info + 8 + 4) ≡ 16 + 24 * n =
      read32_agree typed copied (m_info + 8 + 4) (λ j p q. ground (arith, copies j)) ∙ tag in
    let total' : ℕ = add32 (read32 typed m_info) (read32 typed (m_info + 8 + 4)) in
    let mem = write32 typed m_info total' in
    let sum : total' ≡ 24 + 24 * n = rw (total, size') (omega arith) in
    (
      read32-write32 typed m_info total' (omega arith) ∙ sum,
      read32-write32_other typed m_info total' (m_info + 8) (inr (omega arith))
          ∙ read32-write32 filled (m_info + 8) tag_type_mmap (omega arith),
      read32-write32_other typed m_info total' (m_info + 8 + 4) (inr (omega arith)) ∙ size',
      read32_agree mem copied (m_info + 8 + 8) (λ j p q.
          write32_other typed m_info total' j (inr (omega arith)) ∙ ground (arith, copies j)),
      λ j l.
          write32_other typed m_info total' (m_info + 24 + j) (inr (omega arith))
          ∙ ground (arith, copies (m_info + 24 + j)),
      λ j l. write32_other typed m_info total' j (inl l) ∙ ground (arith, copies j),
    )
