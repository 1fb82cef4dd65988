-- ===== src/Tests/LongTables.antt =====
-- The descriptor tables of the 64-bit build at concrete states.
use danaos.Prelude.{◌≡◌, refl, true, false}
use danaos.Gdt.{ring_0}
use danaos.Gdt.Selectors.{selector}
use danaos.Idt.{interrupt}
use danaos.LongGdt.{get_index}
use danaos.LongIdt.{Idt, new_idt, gate, get_offset}

abbrev empty_idt : Idt
empty_idt = new_idt (λ i. gate 0 0 interrupt ring_0 0 false) 4096

-- Bit 31 of the offset is carried into the upper half.
offset_wrong : get_offset (gate 0x80000000 8 interrupt ring_0 0 true) ≡ 0xFFFFFFFF80000000
unfolding gate get_offset
offset_wrong = refl

-- The index of the selector of the first segment.
index_wrong : get_index (selector 0 false 1) ≡ 64
unfolding selector
index_wrong = refl
