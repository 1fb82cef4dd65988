-- ===== src/Loader/Delivered.antt =====
-- What `kernelMain` is given: the tags that `boot_main` writes, as the loop of the kernel finds them.
use danaos.Prelude.{
  ap, sym, ℕ, ◌+◌, ◌-◌, ◌*◌, ◌/◌, ◌^◌, ◌≤◌, ◌<◌, ◌≡◌, ◌≢◌, ◌∙◌, refl, inl, none, some, arith,
  read16, read16_agree, read32, read32_agree, read32-write32, write32, write32_other,
}
use danaos.BootInfo.{multiboot_tags, multiboot2_bootloader_magic}
use danaos.Loader.{entered, load_elf, e_shoff, e_shnum}
use danaos.Loader.Delivery.{put_mmap_lem}
use danaos.Loader.Handover.{m_info, put_mmap, put_sections, e_shstrndx, jumps, hand_over, boot_main}
use danaos.Loader.SectionTag.{put_sections_lem}
use danaos.MemMap.{visited}
use danaos.MemMap.Areas.{visited-areas_from, areas_from_moved}
use danaos.Loader.Received.{
  started, started_low, started_info, started_field, started_half, started_word, tags_of_both,
  tags_of_sections, boot_main-hand_over,
}

-- What stands in the memory `final` of the memory map with `n` entries at `mmap`, and of the
-- sections of the image at `h`, both in the memory `mem`.
pub record IsDelivered (mem : ℕ → ℕ) (h mmap n : ℕ) (final : ℕ → ℕ) : Type 0 where
  tags :
      multiboot_tags final m_info
      ≡ some (record {
        memmap = some (m_info + 8);
        framebuffer = none;
        elf_sections = some (m_info + (24 + 24 * n));
      })
  size : read32 final (m_info + 8 + 4) ≡ 16 + 24 * n
  entry_size : read32 final (m_info + 8 + 8) ≡ 24
  entries : (j : ℕ) → j < 24 * n → final (m_info + 24 + j) ≡ mem (mmap + 16 + j)
  sections :
      (j : ℕ)
      → j < 40 * e_shnum mem h
      → final (m_info + (24 + 24 * n) + 20 + j) ≡ mem (h + e_shoff mem h + j)
  num : read32 final (m_info + (24 + 24 * n) + 8) ≡ e_shnum mem h
  shndx : read32 final (m_info + (24 + 24 * n) + 16) ≡ e_shstrndx mem h

-- The two tags, where the first 16 bytes of the memory map are copied.
put_sections-IsDelivered :
    (h mmap n : ℕ) (copied : ℕ → ℕ)
    → mmap + 16 + 24 * n ≤ m_info
    → n < 2 ^ 18
    → read32 copied (mmap + 4) ≡ 16 + 24 * n
    → read32 copied (mmap + 8) ≡ 24
    → read32 copied m_info ≡ 8
    → read32 copied (m_info + 8 + 4) ≡ 16 + 24 * n
    → read32 copied (m_info + 8 + 8) ≡ 24
    → h + 52 ≤ m_info
    → h + e_shoff copied h + 40 * e_shnum copied h ≤ m_info
    → e_shnum copied h < 2 ^ 16
    → e_shstrndx copied h < 2 ^ 16
    → let mapped = put_mmap mmap (m_info + 8) copied in
      IsDelivered copied h mmap n
        (put_sections h (m_info + 8 + read32 mapped (m_info + 8 + 4)) mapped)
put_sections-IsDelivered h mmap n copied place small size entry_size info tag stride image table few
      index =
    let mapped : ℕ → ℕ = put_mmap mmap (m_info + 8) copied in
    let m = put_mmap_lem mmap n copied place (omega arith) size entry_size info tag in
    let at : m_info + 8 + read32 mapped (m_info + 8 + 4) ≡ m_info + (24 + 24 * n) =
      rw (m.2) (omega arith) in
    let half : (k : ℕ) → k ≤ 50 → read16 mapped (h + k) ≡ read16 copied (h + k) =
      λ k q. read16_agree mapped copied (h + k) (λ j p r. m.5 j (omega arith)) in
    let off : e_shoff mapped h ≡ e_shoff copied h =
      read32_agree mapped copied (h + 32) (λ j p r. m.5 j (omega arith)) in
    let num = half 48 (omega arith) in
    let names = half 50 (omega arith) in
    let s =
      put_sections_lem h (m_info + (24 + 24 * n)) (24 + 24 * n) mapped (omega arith) image
        (rw (off, num) table) (rw num few) (rw names index) m.0 (omega arith) in
    let final : ℕ → ℕ = put_sections h (m_info + (24 + 24 * n)) mapped in
    let kept : (b : ℕ) → m_info + 4 ≤ b → b + 4 ≤ m_info + 24 → read32 final b ≡ read32 mapped b =
      λ b p q. read32_agree final mapped b (λ j p' q'. s.6 j (omega arith) (omega arith)) in
    rw at (record {
      tags =
          tags_of_both final n (e_shnum mapped h) (omega arith) (rw num few) s.0
            (kept (m_info + 8) (omega arith) (omega arith) ∙ m.1)
            (kept (m_info + 8 + 4) (omega arith) (omega arith) ∙ m.2) s.1 s.2;
      size = kept (m_info + 8 + 4) (omega arith) (omega arith) ∙ m.2;
      entry_size = kept (m_info + 8 + 8) (omega arith) (omega arith) ∙ m.3 ∙ stride;
      entries = λ j l. s.6 (m_info + 24 + j) (omega arith) (omega arith) ∙ m.4 j l;
      sections = λ j l.
          s.5 j (rw num l) ∙ m.5 (h + e_shoff mapped h + j) (rw off (omega arith)) ∙ rw off refl;
      num = s.3 ∙ num;
      shndx = s.4 ∙ names;
    })

IsDelivered-started :
    (h mmap n : ℕ) (mem final : ℕ → ℕ)
    → mmap + 16 + 24 * n ≤ m_info
    → h + 52 ≤ m_info
    → h + e_shoff mem h + 40 * e_shnum mem h ≤ m_info
    → IsDelivered (started mmap mem) h mmap n final
    → IsDelivered mem h mmap n final
IsDelivered-started h mmap n mem final place image table d =
    let num = started_half mmap mem (h + 48) (omega arith) (omega arith) in
    let names = started_half mmap mem (h + 50) (omega arith) (omega arith) in
    let off = started_word mmap mem (h + 32) (omega arith) (omega arith) in
    let low : (j : ℕ) → j < m_info → started mmap mem j ≡ mem j =
      λ j l. started_low mmap mem j (omega arith) l in
    record {
      tags = d.tags;
      size = d.size;
      entry_size = d.entry_size;
      entries = λ j l. d.entries j l ∙ low (mmap + 16 + j) (omega arith);
      sections =
          λ j l. d.sections j (rw num l) ∙ rw off (low (h + e_shoff mem h + j) (omega arith));
      num = d.num ∙ num;
      shndx = d.shndx ∙ names;
    }

-- The memory that the kernel is given.
abbrev delivered : ℕ → ℕ → (ℕ → ℕ) → ℕ → ℕ
delivered h mmap mem =
    let mapped = put_mmap mmap (m_info + 8) (started mmap mem) in
    put_sections h (m_info + 8 + read32 mapped (m_info + 8 + 4)) mapped

hand_over-put_sections :
    (h mmap entry : ℕ) (mem : ℕ → ℕ)
    → read32 (started mmap mem) (mmap + 8) ≡ 24
    → hand_over h (some mmap) entry mem
      ≡ jumps entry multiboot2_bootloader_magic m_info (delivered h mmap mem)
unfolding hand_over started
hand_over-put_sections h mmap entry mem e = rw e refl

-- With no memory map, and otherwise the same, the loop of `kernelMain` finds the sections only.
pub boot_main_without_mmap :
    (mem : ℕ → ℕ) (h entry : ℕ) (loaded : ℕ → ℕ)
    → load_elf mem h ≡ entered entry loaded
    → entry ≢ 0
    → h + 52 ≤ m_info
    → h + e_shoff loaded h + 40 * e_shnum loaded h ≤ m_info
    → e_shnum loaded h < 2 ^ 16
    → e_shstrndx loaded h < 2 ^ 16
    → (final : ℕ → ℕ) × (boot_main mem h none
        ≡ jumps entry multiboot2_bootloader_magic m_info final)
      × (multiboot_tags final m_info
          ≡ some (record { memmap = none; framebuffer = none; elf_sections = some (m_info + 8) }))
unfolding hand_over
boot_main_without_mmap mem h entry loaded e z image table few index =
    let begun : ℕ → ℕ = write32 loaded m_info 8 in
    let low : (j : ℕ) → j < m_info → begun j ≡ loaded j =
      λ j l. write32_other loaded m_info 8 j (inl l) in
    let half : (k : ℕ) → k ≤ 50 → read16 begun (h + k) ≡ read16 loaded (h + k) =
      λ k q. read16_agree begun loaded (h + k) (λ j p r. low j (omega arith)) in
    let off : e_shoff begun h ≡ e_shoff loaded h =
      read32_agree begun loaded (h + 32) (λ j p r. low j (omega arith)) in
    let num = half 48 (omega arith) in
    let names = half 50 (omega arith) in
    let s =
      put_sections_lem h (m_info + 8) 8 begun (omega arith) image (rw (off, num) table) (rw num few)
        (rw names index) (read32-write32 loaded m_info 8 (omega arith)) (omega arith) in
    (
      put_sections h (m_info + 8) begun,
      boot_main-hand_over mem h none entry loaded e z,
      tags_of_sections _ (e_shnum begun h) (rw num few) (s.0 ∙ omega arith) s.1 s.2,
    )

visited-IsDelivered :
    (h mmap n : ℕ) (mem final : ℕ → ℕ)
    → n < 2 ^ 18
    → read32 mem (mmap + 4) ≡ 16 + 24 * n
    → read32 mem (mmap + 8) ≡ 24
    → IsDelivered mem h mmap n final
    → visited final (m_info + 8) ≡ visited mem mmap
visited-IsDelivered h mmap n mem final small size entry_size d =
    let count : (16 + 24 * n - 16) / 24 ≡ n = omega arith in
    visited-areas_from final (m_info + 8) (16 + 24 * n) 24 d.size d.entry_size (omega arith)
      (omega arith) (omega arith)
    ∙ rw count
        (ap some (areas_from_moved final mem (m_info + 8) mmap n 0 n (omega arith) d.entries))
    ∙ sym (
        rw count at (
          visited-areas_from mem mmap (16 + 24 * n) 24 size entry_size (omega arith) (omega arith)
            (omega arith)))

-- Where `load_elf` gives an entry address other than 0, and the image, its section headers and a
-- memory map of `n` entries of 24 bytes lie below 4 MiB, `boot_main` jumps to that address with the
-- boot information at 4 MiB. The loop of `kernelMain` finds in it the memory map and the sections
-- and no frame buffer; behind the head of each tag are the bytes of the entries and of the section
-- headers, and the tag of the sections has their number and the index of the one with the names.
-- The loop of the kernel over the memory map visits the same areas as it would in the map itself.
pub boot_main-IsDelivered :
    (mem : ℕ → ℕ) (h mmap n entry : ℕ) (loaded : ℕ → ℕ)
    → load_elf mem h ≡ entered entry loaded
    → entry ≢ 0
    → mmap + 16 + 24 * n ≤ m_info
    → n < 2 ^ 18
    → read32 loaded (mmap + 4) ≡ 16 + 24 * n
    → read32 loaded (mmap + 8) ≡ 24
    → h + 52 ≤ m_info
    → h + e_shoff loaded h + 40 * e_shnum loaded h ≤ m_info
    → e_shnum loaded h < 2 ^ 16
    → e_shstrndx loaded h < 2 ^ 16
    → (final : ℕ → ℕ) × (boot_main mem h (some mmap)
        ≡ jumps entry multiboot2_bootloader_magic m_info final)
      × IsDelivered loaded h mmap n final
      × (visited final (m_info + 8) ≡ visited loaded mmap)
boot_main-IsDelivered mem h mmap n entry loaded e z place small size entry_size image table few
      index =
    let off = started_word mmap loaded (h + 32) (omega arith) (omega arith) in
    let num = started_half mmap loaded (h + 48) (omega arith) (omega arith) in
    let names = started_half mmap loaded (h + 50) (omega arith) (omega arith) in
    let step = started_word mmap loaded (mmap + 8) (omega arith) (omega arith) ∙ entry_size in
    let d : IsDelivered loaded h mmap n (delivered h mmap loaded) =
      IsDelivered-started h mmap n loaded _ place image table (
        put_sections-IsDelivered h mmap n (started mmap loaded) place small
          (started_word mmap loaded (mmap + 4) (omega arith) (omega arith) ∙ size) step
          (started_info mmap loaded (omega arith))
          (started_field mmap 4 loaded (omega arith) (omega arith) ∙ size)
          (started_field mmap 8 loaded (omega arith) (omega arith) ∙ entry_size) image
          (rw (off, num) table) (rw num few) (rw names index)) in
    (
      _,
      boot_main-hand_over mem h (some mmap) entry loaded e z
          ∙ hand_over-put_sections h mmap entry loaded step,
      d,
      visited-IsDelivered h mmap n loaded _ small size entry_size d,
    )
