-- ===== src/Paging/Addresses.antt =====
-- The parts of an address: its page directory index, its page table index and its offset.
use danaos.Prelude.{ℕ, ◌+◌, ◌-◌, ◌*◌, ◌/◌, ◌%◌, ◌^◌, ◌<◌, ◌≤◌, ◌≡◌, arith, low_ten}
use danaos.Paging.{page_count, align_down, align_up, dir_index, table_index, address}

-- The indices of an address name its page.
pub address-dir_index : (a : ℕ) → a < 2 ^ 32 → address (dir_index a) (table_index a) ≡ align_down a
unfolding address dir_index table_index align_down
address-dir_index a l = rw (low_ten (a / 4194304), low_ten (a / 4096)) (omega arith)

-- The indices of a page are read back from its address.
pub dir_index-address :
    (dir table : ℕ)
    → dir < 1024
    → table < 1024
    → (dir_index (address dir table) ≡ dir) × (table_index (address dir table) ≡ table)
unfolding address dir_index table_index
dir_index-address dir table l m =
    let plain : (dir * 1024 + table) * 4096 % 2 ^ 32 ≡ (dir * 1024 + table) * 4096 = omega arith in
    rw (plain, low_ten, low_ten) (omega arith, omega arith)

-- Aligning up gives the first page boundary at or above an address, up to the last page.
pub align_up_lem :
    (a : ℕ)
    → 0 < a
    → a ≤ 2 ^ 32 - 4096
    → (a ≤ align_up a) × (align_up a < a + 4096) × (align_up a % 4096 ≡ 0)
unfolding align_up page_count
align_up_lem a p l = omega arith
