-- ===== src/BootInfo/Chain.antt =====
-- What the loop over the tags finds.
use danaos.Prelude.{
  ℕ, zero, suc, ◌+◌, ◌*◌, ◌/◌, ◌%◌, ◌^◌, ◌≤◌, ◌<◌, ◌≡◌, ◌∙◌, refl, ap, List, [], ◌∷◌, Option, none,
  some, ◌==◌, if◌then◌else◌, arith, read32,
}
use danaos.BootInfo.{
  Tags, no_tags, note_tag, next_byte, find_tags, multiboot_tags, tag_type_mmap,
  tag_type_framebuffer, tag_type_elf_sections,
}

abbrev tag_size : (ℕ → ℕ) → ℕ → ℕ → ℕ
tag_size mem info byte = read32 mem (info + byte + 4)

abbrev round_up_8 : ℕ → ℕ
round_up_8 n = (n + 7) / 8 * 8

-- From `byte` on the information holds the tags of the list, each with its type and address: every
-- tag has a size, and the next one starts at the next multiple of 8 behind it, up to the total size.
pub data IsTagList (mem : ℕ → ℕ) (info : ℕ) : ℕ → List (ℕ × ℕ) → Type 0 where
  ended : {byte : ℕ} → read32 mem info ≤ byte → IsTagList mem info byte []
  followed :
      {byte : ℕ} {tags : List (ℕ × ℕ)}
      → byte < read32 mem info
      → 0 < tag_size mem info byte
      → byte + tag_size mem info byte + 7 < 2 ^ 32
      → IsTagList mem info (round_up_8 (byte + tag_size mem info byte)) tags
      → IsTagList mem info byte ((read32 mem (info + byte), info + byte) ∷ tags)

-- The address of the last tag of the type, or the other one.
abbrev pub last_or : Option ℕ → ℕ → List (ℕ × ℕ) → Option ℕ
last_or before type [] = before
last_or before type ((t, tag) ∷ tags) = last_or (if t == type then some tag else before) type tags

abbrev last_tags : Tags → List (ℕ × ℕ) → Tags
last_tags t tags = record {
  memmap = last_or t.memmap tag_type_mmap tags;
  framebuffer = last_or t.framebuffer tag_type_framebuffer tags;
  elf_sections = last_or t.elf_sections tag_type_elf_sections tags;
}

next_byte-round_up :
    (byte size : ℕ) → byte + size + 7 < 2 ^ 32 → next_byte byte size ≡ round_up_8 (byte + size)
unfolding next_byte
next_byte-round_up byte size h = ground arith

last_tags-note_tag :
    (type tag : ℕ) (t : Tags) (tags : List (ℕ × ℕ))
    → last_tags (note_tag type tag t) tags ≡ last_tags t ((type, tag) ∷ tags)
unfolding note_tag
last_tags-note_tag type tag t tags = ground arith

find_tags-last_tags :
    (fuel : ℕ) (mem : ℕ → ℕ) (info byte : ℕ) (t : Tags) (tags : List (ℕ × ℕ))
    → IsTagList mem info byte tags
    → read32 mem info < byte + fuel
    → 0 < fuel
    → find_tags fuel mem info byte t ≡ some (last_tags t tags)
unfolding find_tags
find_tags-last_tags zero mem info byte t tags chain h p = absurd (omega arith)
find_tags-last_tags (suc fuel) mem info byte t _ (ended e) h p = ground arith
find_tags-last_tags (suc fuel) mem info byte t _ (followed {tags = tags} l s w chain) h p =
    let size : ℕ = tag_size mem info byte in
    ground (
      arith,
      next_byte-round_up byte size w,
      find_tags-last_tags fuel mem info (round_up_8 (byte + size))
          (note_tag (read32 mem (info + byte)) (info + byte) t) tags chain (omega arith)
          (omega arith),
      last_tags-note_tag (read32 mem (info + byte)) (info + byte) t tags,
    )

-- Where the boot information is a list of tags that have a size, the loop over them ends, and it
-- finds the last tag with the memory map, the last one with the frame buffer and the last one with
-- the sections, each null where there is none.
pub multiboot_tags-last_tags :
    (mem : ℕ → ℕ) (info : ℕ) (tags : List (ℕ × ℕ))
    → IsTagList mem info 8 tags
    → multiboot_tags mem info
      ≡ some (record {
        memmap = last_or none tag_type_mmap tags;
        framebuffer = last_or none tag_type_framebuffer tags;
        elf_sections = last_or none tag_type_elf_sections tags;
      })
unfolding multiboot_tags
multiboot_tags-last_tags mem info tags chain =
    find_tags-last_tags (read32 mem info + 1) mem info 8 no_tags tags chain (omega arith)
      (omega arith)

next_byte_zero : (byte : ℕ) → byte < 2 ^ 32 → byte % 8 ≡ 0 → next_byte byte 0 ≡ byte
unfolding next_byte
next_byte_zero byte w a = ground arith

-- A tag of size 0 at a multiple of 8 inside the boot information is visited for ever: the loop
-- gives no answer for any number of rounds. The tag that ends the list by its type is no exception.
pub find_tags_stuck :
    (fuel : ℕ) (mem : ℕ → ℕ) (info byte : ℕ) (t : Tags)
    → byte < read32 mem info
    → byte < 2 ^ 32
    → byte % 8 ≡ 0
    → tag_size mem info byte ≡ 0
    → find_tags fuel mem info byte t ≡ none
unfolding find_tags
find_tags_stuck zero mem info byte t l w a z = refl
find_tags_stuck (suc fuel) mem info byte t l w a z =
    let e : next_byte byte (tag_size mem info byte) ≡ byte =
      ap (next_byte byte) z ∙ next_byte_zero byte w a in
    ground (
      arith,
      e,
      find_tags_stuck fuel mem info byte (note_tag (read32 mem (info + byte)) (info + byte) t) l w a
          z,
    )
