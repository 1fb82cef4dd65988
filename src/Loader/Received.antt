-- ===== src/Loader/Received.antt =====
-- The way of the boot information from `boot_main` to the loop of `kernelMain` that reads it.
use danaos.Prelude.{
  ℕ, ◌+◌, ◌-◌, ◌*◌, ◌/◌, ◌^◌, ◌≤◌, ◌<◌, ◌≡◌, ◌≢◌, ◌∙◌, refl, inl, inr, [], ◌∷◌, Option, none, some,
  ltb, leb, ◌&&◌, if◌then◌else◌, arith, read16, read16_agree, read32_moved, read32, read32_agree,
  read32-write32, write32, write32_other,
}
use danaos.BootInfo.{multiboot_tags, tag_type_mmap, tag_type_elf_sections}
use danaos.BootInfo.Chain.{IsTagList, ended, followed, multiboot_tags-last_tags}
use danaos.Loader.{entered, load_elf}
use danaos.Loader.Handover.{m_info, hand_over, boot_main_with, boot_main}
use danaos.Strings.{copy_from}
use danaos.Strings.Copies.{copy_from_lem}

-- The memory behind the copy of the first 16 bytes of the memory map.
unfoldable pub started : ℕ → (ℕ → ℕ) → ℕ → ℕ
started mmap mem = copy_from (m_info + 8) mmap 0 16 (write32 mem m_info 8)

pub started_lem :
    (mmap : ℕ) (mem : ℕ → ℕ) (j : ℕ)
    → mmap + 16 ≤ m_info
    → started mmap mem j ≡ (
        if leb (m_info + 8) j && ltb j (m_info + 24)
        then write32 mem m_info 8 (mmap + (j - (m_info + 8)))
        else write32 mem m_info 8 j)
unfolding started
started_lem mmap mem j l =
    copy_from_lem 16 (m_info + 8) mmap 0 (write32 mem m_info 8) j (inr (omega arith)) ∙ ground arith

-- Two tags, of the memory map and of the sections.
pub tags_of_both :
    (mem : ℕ → ℕ) (n num : ℕ)
    → n < 2 ^ 20
    → num < 2 ^ 16
    → read32 mem m_info ≡ 24 + 24 * n + 20 + 40 * num
    → read32 mem (m_info + 8) ≡ tag_type_mmap
    → read32 mem (m_info + 8 + 4) ≡ 16 + 24 * n
    → read32 mem (m_info + (24 + 24 * n)) ≡ tag_type_elf_sections
    → read32 mem (m_info + (24 + 24 * n) + 4) ≡ 20 + 40 * num
    → multiboot_tags mem m_info
      ≡ some (record {
        memmap = some (m_info + 8);
        framebuffer = none;
        elf_sections = some (m_info + (24 + 24 * n));
      })
tags_of_both mem n num l l' total t1 s1 t2 s2 =
    let b : ℕ = 24 + 24 * n in
    let e : (8 + read32 mem (m_info + 8 + 4) + 7) / 8 * 8 ≡ b = rw s1 (omega arith) in
    let last : IsTagList mem m_info b ((read32 mem (m_info + b), m_info + b) ∷ []) =
      followed (rw total (omega arith)) (rw s2 (omega arith)) (rw s2 (omega arith))
        (ended (rw (total, s2) (omega arith))) in
    let chain : IsTagList mem m_info 8
        ((read32 mem (m_info + 8), m_info + 8) ∷ (read32 mem (m_info + b), m_info + b) ∷ []) =
      followed (rw total (omega arith)) (rw s1 (omega arith)) (rw s1 (omega arith)) (rw e last) in
    multiboot_tags-last_tags mem m_info _ chain ∙ rw (t1, t2) refl

-- One tag, of the sections.
pub tags_of_sections :
    (mem : ℕ → ℕ) (num : ℕ)
    → num < 2 ^ 16
    → read32 mem m_info ≡ 28 + 40 * num
    → read32 mem (m_info + 8) ≡ tag_type_elf_sections
    → read32 mem (m_info + 8 + 4) ≡ 20 + 40 * num
    → multiboot_tags mem m_info
      ≡ some (record { memmap = none; framebuffer = none; elf_sections = some (m_info + 8) })
tags_of_sections mem num l' total t s =
    let chain : IsTagList mem m_info 8 ((read32 mem (m_info + 8), m_info + 8) ∷ []) =
      followed (rw total (omega arith)) (rw s (omega arith)) (rw s (omega arith))
        (ended (rw (total, s) (omega arith))) in
    multiboot_tags-last_tags mem m_info _ chain ∙ rw t refl

pub boot_main-hand_over :
    (mem : ℕ → ℕ) (h : ℕ) (mmap : Option ℕ) (entry : ℕ) (loaded : ℕ → ℕ)
    → load_elf mem h ≡ entered entry loaded
    → entry ≢ 0
    → boot_main mem h mmap ≡ hand_over h mmap entry loaded
unfolding boot_main boot_main_with
boot_main-hand_over mem h mmap entry loaded e z = rw e (ground arith)

pub started_low :
    (mmap : ℕ) (mem : ℕ → ℕ) (j : ℕ) → mmap + 16 ≤ m_info → j < m_info → started mmap mem j ≡ mem j
started_low mmap mem j l p =
    started_lem mmap mem j l ∙ ground (arith, write32_other mem m_info 8 j (inl p))

pub started_info :
    (mmap : ℕ) (mem : ℕ → ℕ) → mmap + 16 ≤ m_info → read32 (started mmap mem) m_info ≡ 8
started_info mmap mem l =
    read32_agree (started mmap mem) (write32 mem m_info 8) m_info
      (λ j p q. started_lem mmap mem j l ∙ ground arith)
    ∙ read32-write32 mem m_info 8 (omega arith)

-- The copied bytes of the memory map.
pub started_field :
    (mmap f : ℕ) (mem : ℕ → ℕ)
    → mmap + 16 ≤ m_info
    → f + 4 ≤ 16
    → read32 (started mmap mem) (m_info + 8 + f) ≡ read32 mem (mmap + f)
started_field mmap f mem l b =
    read32_moved (started mmap mem) mem (m_info + 8 + f) (mmap + f) (λ k q.
      started_lem mmap mem (m_info + 8 + f + k) l
      ∙ ground (arith, write32_other mem m_info 8 (mmap + f + k) (inl (omega arith))))

-- The image's header is the same behind the copy.
pub started_half :
    (mmap : ℕ) (mem : ℕ → ℕ) (a : ℕ)
    → mmap + 16 ≤ m_info
    → a + 2 ≤ m_info
    → read16 (started mmap mem) a ≡ read16 mem a
started_half mmap mem a l k =
    read16_agree (started mmap mem) mem a (λ j p q. started_low mmap mem j l (omega arith))

pub started_word :
    (mmap : ℕ) (mem : ℕ → ℕ) (a : ℕ)
    → mmap + 16 ≤ m_info
    → a + 4 ≤ m_info
    → read32 (started mmap mem) a ≡ read32 mem a
started_word mmap mem a l k =
    read32_agree (started mmap mem) mem a (λ j p q. started_low mmap mem j l (omega arith))
