-- ===== src/LongPaging/Places.antt =====
-- The indices of a 64-bit virtual address, of kernel/src/arch/x86_64/hal/memory/virt_mem.h, and the
-- places of its entries in the recursive mapping.
use danaos.Prelude.{ℕ, ◌+◌, ◌-◌, ◌*◌, ◌/◌, ◌%◌, ◌^◌, ◌<◌, ◌≡◌, refl, arith, bit_and, bit_or}
use danaos.Fields.Sums.{and_low}
use danaos.LongPaging.{page_map_place, page_dir_ptr_place, page_dir_place, page_table_place}

-- Bit 47 of the kernel's addresses is 1.
abbrev pub sign_extend : ℕ → ℕ
sign_extend address = bit_or address 18446462598732840960

abbrev pub recur_map_index : ℕ
recur_map_index = 510

abbrev pub page_tbl_rec : ℕ
page_tbl_rec = sign_extend (recur_map_index * 2 ^ 39)

abbrev pub page_dir_rec : ℕ
page_dir_rec = sign_extend (page_tbl_rec + recur_map_index * 2 ^ 30)

abbrev pub page_dir_ptr_rec : ℕ
page_dir_ptr_rec = sign_extend (page_dir_rec + recur_map_index * 2 ^ 21)

abbrev pub page_map_rec : ℕ
page_map_rec = sign_extend (page_dir_ptr_rec + recur_map_index * 2 ^ 12)

unfoldable pub map_index : ℕ → ℕ
map_index address = bit_and (address / 2 ^ 39) 511

unfoldable pub dir_ptr_index : ℕ → ℕ
dir_ptr_index address = bit_and (address / 2 ^ 30) 511

unfoldable pub dir_index : ℕ → ℕ
dir_index address = bit_and (address / 2 ^ 21) 511

unfoldable pub table_index : ℕ → ℕ
table_index address = bit_and (address / 2 ^ 12) 511

unfoldable pub address : ℕ → ℕ → ℕ → ℕ → ℕ
address pml4e pdpe pde pte = (((pml4e * 512 + pdpe) * 512 + pde) * 512 + pte) * 4096 % 2 ^ 64

-- The places of the entries of a 48-bit address are the numbers of the units of 4 KB, 2 MB, 1 GB and
-- 512 GB that it lies in, and `address` gives the start of its page.
pub places :
    (a : ℕ)
    → a < 2 ^ 48
    → (page_table_place (map_index a) (dir_ptr_index a) (dir_index a) (table_index a) ≡ a / 2 ^ 12)
      × (page_dir_place (map_index a) (dir_ptr_index a) (dir_index a) ≡ a / 2 ^ 21)
      × (page_dir_ptr_place (map_index a) (dir_ptr_index a) ≡ a / 2 ^ 30)
      × (page_map_place (map_index a) ≡ a / 2 ^ 39)
      × (address (map_index a) (dir_ptr_index a) (dir_index a) (table_index a) ≡ a / 4096 * 4096)
unfolding page_table_place page_dir_place page_dir_ptr_place map_index dir_ptr_index dir_index
    table_index address
places a l =
    rw
      (
        and_low 9 (a / 2 ^ 39),
        and_low 9 (a / 2 ^ 30),
        and_low 9 (a / 2 ^ 21),
        and_low 9 (a / 2 ^ 12),
      )
      (omega arith, omega arith, omega arith, omega arith, omega arith)

-- The windows of the levels start where the recursive index stands at each further level.
windows :
    (page_tbl_rec ≡ 2 ^ 64 - 2 ^ 40)
    × (page_dir_rec ≡ page_tbl_rec + 510 * 2 ^ 30)
    × (page_dir_ptr_rec ≡ page_dir_rec + 510 * 2 ^ 21)
    × (page_map_rec ≡ page_dir_ptr_rec + 510 * 2 ^ 12)
windows = (refl, refl, refl, refl)
