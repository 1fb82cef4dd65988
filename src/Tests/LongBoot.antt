-- ===== src/Tests/LongBoot.antt =====
-- The boot loader of the 64-bit build at a concrete image.
use danaos.Prelude.{ℕ, ◌≡◌, refl, arith, some, inr, ◌==◌, if◌then◌else◌}
use danaos.Loader.{Loading, start_loading}
use danaos.Loader.Segments.{AllApart, none_left, and_then, place_segments}
use danaos.LongLoader.{load_segments, load_elf, failed_check}
use danaos.LongLoader.Segments.{
  AllCounted, no_more, counted, program_headers, long_load_segments_lem,
}

-- An image at 4096 with one program header: four bytes for 65536, and four zeros behind them.
abbrev long_image : ℕ → ℕ
long_image j =
    if j == 4160
    then 1
    else if j == 4168
    then 120
    else if j == 4186
    then 1
    else if j == 4192
    then 4
    else if j == 4200
    then 8
    else if j == 4216
    then 9
    else 0

long_image-AllApart : AllApart 4096 200 (program_headers 1 4160 long_image)
unfolding program_headers
long_image-AllApart =
    and_then (record { inside = omega arith; below_or_above = inr (omega arith) }) none_left

long_image-AllCounted : AllCounted (program_headers 1 4160 long_image)
unfolding program_headers
long_image-AllCounted = counted (omega arith) no_more

long_load_segments_example :
    (r : Loading) × (load_segments 1 4096 4160 (start_loading long_image) ≡ some r)
    × (r.mem ≡ place_segments long_image 4096 (program_headers 1 4160 long_image) long_image)
long_load_segments_example =
    long_load_segments_lem 1 4096 200 4160 (start_loading long_image) long_image (λ j p q. refl)
      (omega arith) (omega arith) (omega arith) long_image-AllApart long_image-AllCounted

-- Without the magic number it is rejected.
long_rejected : load_elf long_image 4096 ≡ some (0, long_image)
unfolding load_elf failed_check
long_rejected = refl
