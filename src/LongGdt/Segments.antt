-- ===== src/LongGdt/Segments.antt =====
-- The entries that `init` of the x86_64 table sets, by their words.
use danaos.Prelude.{ℕ, ◌≡◌, refl, true, false, some, update}
use danaos.Gdt.{ring_0, ring_3}
use danaos.Gdt.Table.{Gdt, push_entry, load}
use danaos.LongGdt.{entry, segment, init}

kernel_code : segment ring_0 true ≡ 0x00AF9A000000FFFF
unfolding segment entry
kernel_code = refl

kernel_data : segment ring_0 false ≡ 0x00AF92000000FFFF
unfolding segment entry
kernel_data = refl

user_code : segment ring_3 true ≡ 0x00AFFA000000FFFF
unfolding segment entry
user_code = refl

user_data : segment ring_3 false ≡ 0x00AFF2000000FFFF
unfolding segment entry
user_data = refl

-- The first `init` of an empty table leaves the null descriptor and the four segments that the
-- processor knows as long-mode code and as data, of the levels 0 and 3, and a descriptor of the size
-- of the entries, less one.
pub long_table_init_lem :
    (addr : ℕ) (words : ℕ → ℕ) (g : Gdt)
    → g.allocated ≡ false
    → g.index ≡ 0
    → init addr words g
      ≡ some (record {
        capacity = 5;
        index = 5;
        allocated = true;
        entries =
            update
              (update
                (update (update (update words 0 0) 1 0x00AF9A000000FFFF) 2 0x00AF92000000FFFF)
                3
                0x00AFFA000000FFFF)
              4
              0x00AFF2000000FFFF;
        size = 39;
        offset = addr;
      })
unfolding init push_entry load
long_table_init_lem addr words g a z =
    rw (a, z, kernel_code, kernel_data, user_code, user_data) refl
