-- ===== src/Tests/Boot.antt =====
-- The boot loader at a concrete image.
use danaos.Prelude.{
  ltb, some, [], ◌∷◌, ℕ, inr, ◌+◌, ◌-◌, ◌^◌, ◌≡◌, refl, arith, true, ◌==◌, if◌then◌else◌,
}
use danaos.Loader.{program_header, load_segments, start_loading, entry_address}
use danaos.Loader.Segments.{
  AllApart, none_left, and_then, AllBelow, ends_below, no_more, program_headers, place_segments,
  load_segments-place_segments,
}
use danaos.Loader.Entry
use danaos.Loader.Entry.{AllShifted, shifted, entry_address-load_segments}
use danaos.Loader.Numbers.{
  chars_uint, figures_of, figures, logull, log_loop, powull, pow_loop, boot_logull_lem,
}
use danaos.Math.Log.{IsLog}

-- An image at 4096 with one program header: four bytes for 65536, and four zeros behind them.
abbrev image : ℕ → ℕ
image j =
    if j == 4148
    then 1
    else if j == 4152
    then 100
    else if j == 4158
    then 1
    else if j == 4159
    then 1
    else if j == 4162
    then 1
    else if j == 4164
    then 4
    else if j == 4168
    then 8
    else if j == 4196
    then 9
    else 0

image-AllApart : AllApart 4096 200 (program_headers 1 4148 image)
unfolding program_headers
image-AllApart =
    and_then (record { inside = omega arith; below_or_above = inr (omega arith) }) none_left

image-AllBelow : AllBelow (2 ^ 32) (program_headers 1 4148 image)
unfolding program_headers
image-AllBelow = ends_below (omega arith) no_more

image-AllShifted : AllShifted (2 ^ 24) (program_headers 1 4148 image)
unfolding program_headers
image-AllShifted = shifted {g = program_header image 4148} refl refl (omega arith) Entry.none_left

image_loadable : Entry.some_loadable (program_headers 1 4148 image) ≡ true
unfolding program_headers
image_loadable = refl

load_segments_example :
    (load_segments 1 4096 4148 (start_loading image)).mem
    ≡ place_segments image 4096 (program_headers 1 4148 image) image
load_segments_example =
    load_segments-place_segments 1 4096 200 4148 (start_loading image) image (λ j p q. refl)
      (omega arith) (omega arith) (omega arith) image-AllApart image-AllBelow

entry_address_example :
    entry_address (2 ^ 24 + 65536) (load_segments 1 4096 4148 (start_loading image))
    ≡ 2 ^ 24 + 65536 - 2 ^ 24
entry_address_example =
    entry_address-load_segments 1 4096 200 4148 (2 ^ 24) (2 ^ 24 + 65536) image (omega arith)
      (omega arith) image-AllApart image-AllShifted image_loadable (omega arith) (omega arith)

boot_logull_example :
    (r : ℕ) × (logull 10 4000000000 ≡ some r)
    × (if ltb 4000000000 1410065408
        then IsLog 10 4000000000 r
        else ((r ≡ 10) × IsLog 10 4000000000 9))
boot_logull_example = boot_logull_lem 4000000000 (omega arith) (omega arith)

-- Every figure of the number is wrong from the first on.
print_wrong :
    chars_uint 4000000000 10
    ≡ some (b'2' ∷ b'1' ∷ b'1' ∷ b'7' ∷ b'9' ∷ b'8' ∷ b'6' ∷ b'9' ∷ b'1' ∷ b'8' ∷ b'4' ∷ [])
unfolding chars_uint figures_of figures logull log_loop powull pow_loop
print_wrong = refl
