-- ===== src/Gdt/Table.antt =====
-- `glob_desc_table`: the table of the entries. A panic, which does not return, is `none`.
-- `init` is given what the heap gives it: the address of the table and the words that it holds
-- there. The load of the descriptor into the processor and the console messages are left out.
use danaos.Prelude.{
  ℕ, ◌+◌, ◌-◌, ◌*◌, ◌^◌, ◌≤◌, ◌<◌, ◌≡◌, ◌≢◌, refl, arith, Bool, true, false, ◌&&◌, not, ltb, leb,
  ◌==◌, if◌then◌else◌, Option, none, some, update, u16, sub32, mul32,
}
use danaos.Gdt.{DplLevel, ring_0, ring_3, entry, get_privilege_level}
use danaos.Gdt.Entries.{get_privilege_level_lem}
use danaos.Gdt.Selectors.{selector, selector-sum}

abbrev pub invalid_index : ℕ
invalid_index = 65535

abbrev pub kernel_code_index : ℕ
kernel_code_index = 1

abbrev pub entry_size : ℕ
entry_size = 8

-- `size` and `offset` are the descriptor.
pub record Gdt : Type 0 where
  pub capacity : ℕ
  pub index : ℕ
  pub allocated : Bool
  pub entries : ℕ → ℕ
  pub size : ℕ
  pub offset : ℕ

unfoldable pub push_entry : ℕ → Gdt → Gdt × ℕ
push_entry e g =
    if ltb g.index g.capacity
    then (record g { entries = update g.entries g.index e; index = u16 (g.index + 1) }, g.index)
    else (g, invalid_index)

unfoldable pub set_entry : ℕ → ℕ → Gdt → Option Gdt
set_entry e i g =
    if ltb i g.index && not (i == 0)
    then some (record g { entries = update g.entries i e })
    else none

unfoldable pub get_entry : Gdt → ℕ → Option ℕ
get_entry g i = if leb g.capacity i then none else some (g.entries i)

unfoldable pub get_selector : Gdt → ℕ → Option ℕ
get_selector g i =
    if leb g.capacity i then none else some (selector (get_privilege_level (g.entries i)) false i)

unfoldable pub get_kernel_selector : Gdt → ℕ
get_kernel_selector g =
    selector (get_privilege_level (g.entries kernel_code_index)) false kernel_code_index

unfoldable pub load : Gdt → Gdt
load g = record g { size = u16 (sub32 (mul32 entry_size g.index) 1) }

abbrev segment : DplLevel → Bool → ℕ
segment priv exec = entry 0 (2 ^ 32 - 1) priv (record {
  present = true;
  rw_flag = true;
  down = false;
  exec = exec;
  size32 = true;
  gran4kb = true;
})

abbrev pub kernel_code : ℕ
kernel_code = segment ring_0 true

abbrev pub kernel_data : ℕ
kernel_data = segment ring_0 false

abbrev pub user_code : ℕ
user_code = segment ring_3 true

abbrev pub user_data : ℕ
user_data = segment ring_3 false

unfoldable pub init : ℕ → (ℕ → ℕ) → Gdt → Option Gdt
init addr words g =
    if g.allocated
    then none
    else let g1 = record g {
      capacity = 5;
      allocated = true;
      entries = words;
      size = 0;
      offset = addr;
    } in
      let g2 = (push_entry 0 g1).0 in
      let g3 = (push_entry kernel_code g2).0 in
      let g4 = (push_entry kernel_data g3).0 in
      let g5 = (push_entry user_code g4).0 in let g6 = (push_entry user_data g5).0 in some (load g6)

-- The next entry stands within the capacity, a 16-bit number.
abbrev pub IsValid : Gdt → Type 0
IsValid g = (g.index ≤ g.capacity) × (g.capacity < 2 ^ 16)

pub push_entry-IsValid : (e : ℕ) (g : Gdt) → IsValid g → IsValid (push_entry e g).0
unfolding push_entry
push_entry-IsValid e g v = ground arith

-- In a valid table that has room, the entry that is pushed is found at the index that is returned,
-- and the others are as before.
pub get_entry-push_entry :
    (e i : ℕ) (g : Gdt)
    → IsValid g
    → g.index < g.capacity
    → get_entry (push_entry e g).0 i ≡ (if i == (push_entry e g).1 then some e else get_entry g i)
unfolding push_entry get_entry
get_entry-push_entry e i g v l = ground arith

-- `set_entry` panics for the null descriptor and for an index that was not pushed, and otherwise
-- replaces that entry only; in a valid table.
pub get_entry-set_entry :
    (e i j : ℕ) (g g' : Gdt)
    → IsValid g
    → set_entry e i g ≡ some g'
    → (i ≢ 0) × (i < g.index) × (get_entry g' j ≡ (if j == i then some e else get_entry g j))
unfolding set_entry get_entry
get_entry-set_entry e i j g g' v h = ground arith

-- The selector of an index below a capacity of at most 2 ^ 13 is eight times the index, whatever
-- level the entry has: `get_selector` gives the user segments the level 0.
pub get_selector_lem :
    (g : Gdt) (i : ℕ)
    → g.capacity ≤ 2 ^ 13
    → get_selector g i ≡ (if ltb i g.capacity then some (8 * i) else none)
unfolding get_selector
get_selector_lem g i c =
    rw (get_privilege_level_lem (g.entries i), selector-sum 0 i false (omega arith)) (ground arith)

-- The table that `init` leaves.
abbrev filled : ℕ → (ℕ → ℕ) → Gdt
filled addr words = record {
  capacity = 5;
  index = 5;
  allocated = true;
  entries =
      update (update (update (update (update words 0 0) 1 kernel_code) 2 kernel_data) 3 user_code) 4
        user_data;
  size = 39;
  offset = addr;
}

init-filled :
    (addr : ℕ) (words : ℕ → ℕ) (g : Gdt)
    → g.allocated ≡ false
    → g.index ≡ 0
    → init addr words g ≡ some (filled addr words)
unfolding init push_entry load
init-filled addr words g a z = rw (a, z) refl

-- The first `init` of an empty table fills its five entries: the null descriptor, and the code and
-- data segments of the kernel and of the user. The descriptor has the size of the entries, less
-- one, and the address of the table; the kernel's selector is 8.
pub glob_desc_table_init_lem :
    (addr : ℕ) (words : ℕ → ℕ) (g : Gdt)
    → g.allocated ≡ false
    → g.index ≡ 0
    → (g' : Gdt) × (init addr words g ≡ some g')
      × (g'.index ≡ 5)
      × (g'.size ≡ 39)
      × (g'.offset ≡ addr)
      × (get_entry g' 0 ≡ some 0)
      × (get_entry g' 1 ≡ some kernel_code)
      × (get_entry g' 2 ≡ some kernel_data)
      × (get_entry g' 3 ≡ some user_code)
      × (get_entry g' 4 ≡ some user_data)
      × (get_kernel_selector g' ≡ 8)
unfolding get_entry get_kernel_selector
glob_desc_table_init_lem addr words g a z = (
  filled addr words,
  init-filled addr words g a z,
  refl,
  refl,
  refl,
  refl,
  refl,
  refl,
  refl,
  refl,
  kernel_selector,
)
  where
    kernel_selector : get_kernel_selector (filled addr words) ≡ 8
    kernel_selector =
        rw
          (
            get_privilege_level_lem kernel_code,
            selector-sum 0 kernel_code_index false (omega arith),
          )
          refl
