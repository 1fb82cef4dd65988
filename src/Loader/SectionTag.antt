-- ===== src/Loader/SectionTag.antt =====
-- The bytes that `boot_main` writes for the sections of the image.
use danaos.Prelude.{
  ℕ, ◌+◌, ◌*◌, ◌-◌, ◌^◌, ◌≤◌, ◌<◌, ◌≡◌, ◌∙◌, refl, inl, inr, ltb, leb, ◌&&◌, if◌then◌else◌, arith,
  add32, read16, read32, write32, read16_agree, read32_agree, read32-write32, write32_other,
  read32-write32_other,
}
use danaos.BootInfo.{tag_type_elf_sections}
use danaos.Loader.{e_shoff, e_shnum}
use danaos.Loader.Handover.{m_info, copy_items, put_sections, e_shentsize, e_shstrndx}
use danaos.Loader.Delivery.{copy_items_all}

-- The fields of the tag with the sections, and what is written for the sections themselves.
module _ (h curr : ℕ) (mem : ℕ → ℕ) where
  headed_1 : ℕ → ℕ
  headed_1 = write32 mem curr tag_type_elf_sections

  headed_2 : ℕ → ℕ
  headed_2 = write32 headed_1 (curr + 8) (e_shnum mem h)

  headed_3 : ℕ → ℕ
  headed_3 = write32 headed_2 (curr + 12) (e_shentsize mem h)

  headed_4 : ℕ → ℕ
  headed_4 = write32 headed_3 (curr + 16) (e_shstrndx mem h)

  headed : ℕ → ℕ
  headed = write32 headed_4 (curr + 4) (20 + 40 * e_shnum mem h)

  sectioned : ℕ → ℕ
  sectioned = copy_items 40 (e_shnum mem h) 0 (curr + 20) (h + e_shoff mem h) headed

  below_1 : (j : ℕ) → j < curr → headed_1 j ≡ mem j
  unfolding headed_1
  below_1 j l = write32_other mem curr tag_type_elf_sections j (inl l)

  below_2 : (j : ℕ) → j < curr → headed_2 j ≡ mem j
  unfolding headed_2
  below_2 j l =
      write32_other headed_1 (curr + 8) (e_shnum mem h) j (inl (omega arith)) ∙ below_1 j l

  below_3 : (j : ℕ) → j < curr → headed_3 j ≡ mem j
  unfolding headed_3
  below_3 j l =
      write32_other headed_2 (curr + 12) (e_shentsize mem h) j (inl (omega arith)) ∙ below_2 j l

  below_4 : (j : ℕ) → j < curr → headed_4 j ≡ mem j
  unfolding headed_4
  below_4 j l =
      write32_other headed_3 (curr + 16) (e_shstrndx mem h) j (inl (omega arith)) ∙ below_3 j l

  below_5 : (j : ℕ) → j < curr → headed j ≡ mem j
  unfolding headed
  below_5 j l =
      write32_other headed_4 (curr + 4) (20 + 40 * e_shnum mem h) j (inl (omega arith))
      ∙ below_4 j l

  put_sections-sectioned :
      h + 52 ≤ curr
      → put_sections h curr mem
        ≡ write32 sectioned m_info (add32 (read32 sectioned m_info) (read32 sectioned (curr + 4)))
  unfolding put_sections sectioned headed headed_4 headed_3 headed_2 headed_1
  put_sections-sectioned l =
      let field16 : (m : ℕ → ℕ) (k : ℕ)
          → ((j : ℕ) → j < curr → m j ≡ mem j)
          → k ≤ 50
          → read16 m (h + k) ≡ read16 mem (h + k) =
        λ m k b q. read16_agree m mem (h + k) (λ j p r. b j (omega arith)) in
      rw
        (
          field16 headed_1 48 below_1 (omega arith),
          field16 headed_2 46 below_2 (omega arith),
          field16 headed_3 50 below_3 (omega arith),
          field16 headed_4 48 below_4 (omega arith),
          field16 headed 48 below_5 (omega arith),
          read32_agree headed mem (h + 32) (λ j p r. below_5 j (omega arith)),
        )
        refl

  sectioned_lem :
      (j : ℕ)
      → h + e_shoff mem h + 40 * e_shnum mem h ≤ curr
      → sectioned j ≡ (
          if leb (curr + 20) j && ltb j (curr + 20 + 40 * e_shnum mem h)
          then mem (h + e_shoff mem h + (j - (curr + 20)))
          else headed j)
  unfolding sectioned
  sectioned_lem j l = ground (
    arith,
    copy_items_all 40 (e_shnum mem h) (curr + 20) (h + e_shoff mem h) headed j (omega arith),
    below_5 (h + e_shoff mem h + (j - (curr + 20))),
  )

  -- The fields stay under the writes of the others and the copies.
  field_num : e_shnum mem h < 2 ^ 32 → read32 headed (curr + 8) ≡ e_shnum mem h
  unfolding headed headed_4 headed_3 headed_2
  field_num l =
      read32-write32_other headed_4 (curr + 4) (20 + 40 * e_shnum mem h) (curr + 8)
        (inr (omega arith))
      ∙ read32-write32_other headed_3 (curr + 16) (e_shstrndx mem h) (curr + 8) (inl (omega arith))
      ∙ read32-write32_other headed_2 (curr + 12) (e_shentsize mem h) (curr + 8) (inl (omega arith))
      ∙ read32-write32 headed_1 (curr + 8) (e_shnum mem h) l

  field_shndx : e_shstrndx mem h < 2 ^ 32 → read32 headed (curr + 16) ≡ e_shstrndx mem h
  unfolding headed headed_4
  field_shndx l =
      read32-write32_other headed_4 (curr + 4) (20 + 40 * e_shnum mem h) (curr + 16)
        (inr (omega arith))
      ∙ read32-write32 headed_3 (curr + 16) (e_shstrndx mem h) l

  field_type : read32 headed curr ≡ tag_type_elf_sections
  unfolding headed headed_4 headed_3 headed_2 headed_1
  field_type =
      read32-write32_other headed_4 (curr + 4) (20 + 40 * e_shnum mem h) curr (inl (omega arith))
      ∙ read32-write32_other headed_3 (curr + 16) (e_shstrndx mem h) curr (inl (omega arith))
      ∙ read32-write32_other headed_2 (curr + 12) (e_shentsize mem h) curr (inl (omega arith))
      ∙ read32-write32_other headed_1 (curr + 8) (e_shnum mem h) curr (inl (omega arith))
      ∙ read32-write32 mem curr tag_type_elf_sections (omega arith)

-- The tag with the sections, and the total size behind it.
pub put_sections_lem :
    (h curr total : ℕ) (mem : ℕ → ℕ)
    → m_info + 8 ≤ curr
    → h + 52 ≤ m_info
    → h + e_shoff mem h + 40 * e_shnum mem h ≤ m_info
    → e_shnum mem h < 2 ^ 16
    → e_shstrndx mem h < 2 ^ 16
    → read32 mem m_info ≡ total
    → total < 2 ^ 31
    → let final = put_sections h curr mem in
      (read32 final m_info ≡ total + 20 + 40 * e_shnum mem h)
      × (read32 final curr ≡ tag_type_elf_sections)
      × (read32 final (curr + 4) ≡ 20 + 40 * e_shnum mem h)
      × (read32 final (curr + 8) ≡ e_shnum mem h)
      × (read32 final (curr + 16) ≡ e_shstrndx mem h)
      × ((j : ℕ) → j < 40 * e_shnum mem h → final (curr + 20 + j) ≡ mem (h + e_shoff mem h + j))
      × ((j : ℕ) → m_info + 4 ≤ j → j < curr → final j ≡ mem j)
unfolding headed
put_sections_lem h curr total mem place image table few index info small =
    let before = sectioned h curr mem in
    let copies = λ (j : ℕ). sectioned_lem h curr mem j (omega arith) in
    let word : (b : ℕ) → b + 4 ≤ curr + 20 → read32 before b ≡ read32 (headed h curr mem) b =
      λ b q. read32_agree before (headed h curr mem) b (λ j p r. ground (arith, copies j)) in
    let old : read32 before m_info ≡ total =
      word m_info (omega arith)
      ∙ read32_agree (headed h curr mem) mem m_info (λ j p r. below_5 h curr mem j (omega arith))
      ∙ info in
    let size : read32 before (curr + 4) ≡ 20 + 40 * e_shnum mem h =
      word (curr + 4) (omega arith)
      ∙ read32-write32 (headed_4 h curr mem) (curr + 4) (20 + 40 * e_shnum mem h) (omega arith) in
    let v : ℕ = add32 (read32 before m_info) (read32 before (curr + 4)) in
    let sum : v ≡ total + 20 + 40 * e_shnum mem h = rw (old, size) (omega arith) in
    let field : (b : ℕ) → curr ≤ b → read32 (write32 before m_info v) b ≡ read32 before b =
      λ b q. read32-write32_other before m_info v b (inr (omega arith)) in
    rw (put_sections-sectioned h curr mem (omega arith)) (
      read32-write32 before m_info v (omega arith) ∙ sum,
      field curr (omega arith) ∙ word curr (omega arith) ∙ field_type h curr mem,
      field (curr + 4) (omega arith) ∙ size,
      field (curr + 8) (omega arith)
          ∙ word (curr + 8) (omega arith)
          ∙ field_num h curr mem (omega arith),
      field (curr + 16) (omega arith)
          ∙ word (curr + 16) (omega arith)
          ∙ field_shndx h curr mem (omega arith),
      λ j l.
          write32_other before m_info v (curr + 20 + j) (inr (omega arith))
          ∙ ground (arith, copies (curr + 20 + j)),
      λ j p q.
          write32_other before m_info v j (inr p)
          ∙ ground (arith, copies j, below_5 h curr mem j q),
    )
