-- ===== src/Strings/Copies.antt =====
-- Every byte of the memory after `memset` and `memcpy`.
use danaos.Prelude.{
  ℕ, zero, suc, ◌+◌, ◌-◌, ◌≤◌, ◌≡◌, ◌∙◌, ◌⊎◌, ◌&&◌, ltb, leb, if◌then◌else◌, update, arith,
}
use danaos.Strings.{memset, copy_from, memcpy}

pub memset_lem :
    (len dst c : ℕ) (mem : ℕ → ℕ) (j : ℕ)
    → memset dst c len mem j ≡ (if leb dst j && ltb j (dst + len) then c else mem j)
unfolding memset
memset_lem zero dst c mem j = ground arith
memset_lem (suc len) dst c mem j = memset_lem len (dst + 1) c (update mem dst c) j ∙ ground arith

pub copy_from_lem :
    (left dst src i : ℕ) (mem : ℕ → ℕ) (j : ℕ)
    → (dst + i + left ≤ src + i) ⊎ (src + i + left ≤ dst + i)
    → copy_from dst src i left mem j
      ≡ (if leb (dst + i) j && ltb j (dst + i + left) then mem (src + (j - dst)) else mem j)
unfolding copy_from
copy_from_lem zero dst src i mem j apart = ground arith
copy_from_lem (suc left) dst src i mem j apart =
    copy_from_lem left dst src (i + 1) (update mem (dst + i) (mem (src + i))) j (ground arith)
    ∙ ground arith

-- Where the two ranges do not overlap, `memcpy` gives every byte of the destination the byte of the
-- source at the same place, and leaves every other byte as it was.
pub memcpy_lem :
    (dst src bytes : ℕ) (mem : ℕ → ℕ) (j : ℕ)
    → (dst + bytes ≤ src) ⊎ (src + bytes ≤ dst)
    → memcpy dst src bytes mem j
      ≡ (if leb dst j && ltb j (dst + bytes) then mem (src + (j - dst)) else mem j)
unfolding memcpy
memcpy_lem dst src bytes mem j apart =
    copy_from_lem bytes dst src 0 mem j (ground arith) ∙ ground arith
