-- ===== src/PhysMem.antt =====
-- `hal::phys_mem_manager` of kernel/src/hal/memory/phys_mem.h and phys_mem.cc: the page frames of
-- the machine, one bit for each, set where the frame is taken. `m_phys_bitmap` is the only field,
-- so the bitmap is the state. An overloaded function that takes a count of frames ends in `_count`.
pub mod Loops
pub mod Frames
pub mod Any
pub mod Ranges
pub mod FrameLaws
pub mod Search
pub mod AnyLaws
pub mod Hint
pub mod Init
pub mod InitLaws
use danaos.Prelude.{ℕ, ◌/◌, add32, sub32}
use danaos.Bitmap.{Bitmap}

abbrev pub page_frame_size : ℕ
page_frame_size = 4096

abbrev pub page_count : ℕ → ℕ
page_count bytes = add32 (sub32 bytes 1 / page_frame_size) 1

abbrev pub get_page_frame : ℕ → ℕ
get_page_frame address = address / page_frame_size

abbrev pub round_page_up : ℕ → ℕ
round_page_up address = add32 1 (sub32 address 1 / page_frame_size)

abbrev pub page_frame_count : Bitmap → ℕ
page_frame_count b = b.bits
