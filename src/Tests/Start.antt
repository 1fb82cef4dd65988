-- ===== src/Tests/Start.antt =====
-- The boot information from the boot loader to the kernel, at concrete memories.
use danaos.Prelude.{ℕ, ◌+◌, ◌≡◌, ◌<◌, refl, arith, none, some, [], ◌∷◌, ◌==◌, if◌then◌else◌, ◌||◌}
use danaos.Bitmap
use danaos.BootInfo.{multiboot_tags, find_tags, no_tags, multiboot2_bootloader_magic}
use danaos.BootInfo.Chain.{ended, followed, last_or, multiboot_tags-last_tags, find_tags_stuck}
use danaos.KernelMain.{Links, Prepared, prepare, framebuffer_of, section_headers}
use danaos.KernelMain.Claims.{sections_meet, prepare_lem}
use danaos.Loader.{
  load_elf, entered, failed_check, load_image, load_segments, load_segment, load_sections,
  start_loading,
}
use danaos.Loader.Delivered.{IsDelivered, boot_main-IsDelivered}
use danaos.Loader.Handover.{boot_main, jumps, m_info}
use danaos.MemMap.{visited, entry_at}
use danaos.MemMap.Areas.{areas_from, visited-areas_from}
use danaos.PhysMem.FrameLaws.{page_meets}
use danaos.PhysMem.InitLaws.{reserved_by}
use danaos.Strings.{copy_from, memset, strncmp, compare_end}
use danaos.Symbols.{find_table}

-- At 0 the boot information with a memory map of one area, of 4096 bytes, and one section, of 16
-- bytes at 0x5000, which is named by the empty string.
abbrev info_memory : ℕ → ℕ
info_memory j =
    if j == 0
    then 108
    else if j == 8
    then 6
    else if j == 12
    then 40
    else if j == 16
    then 24
    else if j == 33
    then 16
    else if j == 40
    then 1
    else if j == 48
    then 9
    else if j == 52
    then 60
    else if j == 56
    then 1
    else if j == 81
    then 0x50
    else if j == 88
    then 16
    else if j == 0x6000
    then b'.'
    else 0

info_tags_example :
    multiboot_tags info_memory 0
    ≡ some (record {
      memmap = last_or none 6 ((6, 8) ∷ (9, 48) ∷ []);
      framebuffer = last_or none 8 ((6, 8) ∷ (9, 48) ∷ []);
      elf_sections = last_or none 9 ((6, 8) ∷ (9, 48) ∷ []);
    })
info_tags_example = multiboot_tags-last_tags info_memory 0 ((6, 8) ∷ (9, 48) ∷ []) (
    followed {byte = 8} (omega arith) (omega arith) (omega arith) (
      followed {byte = 48} (omega arith) (omega arith) (omega arith)
        (ended {byte = 112} (omega arith))))

-- A tag of size 0 at 8.
find_tags_stuck_example : find_tags 100 (λ j. if j == 0 then 16 else 0) 0 8 no_tags ≡ none
find_tags_stuck_example =
    find_tags_stuck 100 (λ j. if j == 0 then 16 else 0) 0 8 no_tags (omega arith) (omega arith) refl
      refl

visited_example : visited info_memory 8 ≡ some (areas_from info_memory 8 0 1)
visited_example =
    visited-areas_from info_memory 8 40 24 refl refl (omega arith) (omega arith) (omega arith)

abbrev links : Links
links = record {
  phys_bitmap = λ i. 0;
  phys_bitmap_address = 0x200000;
  kernel_phys_end = 0x300000;
  strtab = 0x6000;
  symtab = 0x6000;
}

-- No section has the name that is looked for.
no_strings : find_table info_memory 0x6000 0x5000 (section_headers info_memory 48) ≡ none
unfolding find_table strncmp compare_end
no_strings = refl

prepare_example :
    (ready : Prepared) × (prepare info_memory links 0
        (record { bits = 0; blocks = 0; mem = λ i. 0 })
      ≡ some ready)
    × (ready.elf_sections ≡ some 48)
    × (ready.framebuffer ≡ framebuffer_of info_memory none)
    × ((f : ℕ)
        → f < 0x20000
        → Bitmap.get ready.frames f
          ≡ page_meets 0x200000 16384 f
            || reserved_by (entry_at info_memory 24 ∷ []) f
            || page_meets 0 0x300000 f
            || sections_meet info_memory links (some 48) f)
prepare_example =
    prepare_lem info_memory links 0 (record { bits = 0; blocks = 0; mem = λ i. 0 })
      (record { memmap = some 8; framebuffer = none; elf_sections = some 48 }) 8
      (entry_at info_memory 24 ∷ []) info_tags_example refl visited_example
      ((omega arith, omega arith), tt) (omega arith) (omega arith, omega arith)
      ((omega arith, omega arith), (omega arith, omega arith), rw no_strings tt, rw no_strings tt)

-- An image at 4096 with one program header, for four bytes at 65536, and no sections. Its memory
-- map stands at 8192.
abbrev whole_image : ℕ → ℕ
whole_image j =
    if j == 4096
    then 0x7F
    else if j == 4097
    then b'E'
    else if j == 4098
    then b'L'
    else if j == 4099
    then b'F'
    else if j == 4100
    then 1
    else if j == 4101
    then 1
    else if j == 4112
    then 2
    else if j == 4114
    then 3
    else if j == 4116
    then 1
    else if j == 4122
    then 1
    else if j == 4124
    then 52
    else if j == 4140
    then 1
    else if j == 4148
    then 1
    else if j == 4152
    then 100
    else if j == 4158
    then 1
    else if j == 4162
    then 1
    else if j == 4164
    then 4
    else if j == 4168
    then 8
    else if j == 8196
    then 40
    else if j == 8200
    then 24
    else 0

abbrev loaded_image : ℕ → ℕ
loaded_image = (load_segments 1 4096 4148 (start_loading whole_image)).mem

load_whole_image : load_elf whole_image 4096 ≡ entered 65536 loaded_image
unfolding load_elf failed_check load_image load_segments load_segment load_sections memset copy_from
load_whole_image = refl

boot_main_example :
    (final : ℕ → ℕ) × (boot_main whole_image 4096 (some 8192)
      ≡ jumps 65536 multiboot2_bootloader_magic m_info final)
    × IsDelivered loaded_image 4096 8192 1 final
    × (visited final (m_info + 8) ≡ visited loaded_image 8192)
unfolding load_segments load_segment copy_from memset
boot_main_example =
    boot_main-IsDelivered whole_image 4096 8192 1 65536 loaded_image load_whole_image (omega arith)
      (omega arith) (omega arith) refl refl (omega arith) (omega arith) (omega arith) (omega arith)
