-- ===== src/Bitmap/Scan.antt =====
-- `get_first_clear` and `get_first_set` return the lowest bit of the wanted value, or `npos`.
use danaos.Prelude.{
  ℕ, zero, suc, ◌+◌, ◌*◌, ◌/◌, ◌%◌, ◌^◌, ◌≤◌, ◌<◌, ◌≡◌, ◌≢◌, ◌⊎◌, inl, inr, refl, Bool, true, false,
  not, arith, ◌==◌, if◌then◌else◌, bit, bit-lt, bit_and, bit_and-pow, bit_complement, eq_of_bits,
  zero-bit, max32, Option, none, some, Bool-cases, ==_iff,
}
use native.Mathlib.Nat.{one-le-pow}
use native.Mathlib.Decide.{dec_lt, ℕ_discrete}
use danaos.Bitmap.{
  Bitmap, get, npos, scan_word, scan_blocks, in_block, get_first_clear, get_first_set,
}
use danaos.Bitmap.Laws.{get-eq-bit, IsValid}

-- The digit that the loop looks for.
abbrev digit : Bool → ℕ
digit true = 1
digit false = 0

-- What the inner loop returns, started at digit `j` of `w` with `rounds` to go.
abbrev Scanned : Bool → ℕ → ℕ → ℕ → Option ℕ → Type 0
Scanned wanted w j end none = (k : ℕ) → j ≤ k → k < end → bit w k ≢ digit wanted
Scanned wanted w j end (some r) =
    (j ≤ r)
    × (r < end)
    × (bit w r ≡ digit wanted)
    × ((k : ℕ) → j ≤ k → k < r → bit w k ≢ digit wanted)

test_digit :
    (wanted : Bool) (w j : ℕ)
    → (if wanted then not (bit_and w (2 ^ j) == 0) else not (not (bit_and w (2 ^ j) == 0)))
      ≡ (bit w j == digit wanted)
test_digit true w j = ground (arith, bit_and-pow j w, bit-lt w j, one-le-pow j 2)
test_digit false w j = ground (arith, bit_and-pow j w, bit-lt w j, one-le-pow j 2)

-- One round: a hit ends the search, and a miss adds a digit to what is passed over.
Scanned-step :
    (wanted : Bool) (w j end : ℕ) (hit : Bool) (rest : Option ℕ)
    → (bit w j == digit wanted) ≡ hit
    → j < end
    → Scanned wanted w (j + 1) end rest
    → Scanned wanted w j end (if hit then some j else rest)
Scanned-step wanted w j end true rest e l s =
    (omega arith, l, ground arith, λ k p q. absurd (omega arith))
Scanned-step wanted w j end false none e l s = λ k p q. ground (arith, s k)
Scanned-step wanted w j end false (some r) e l s =
    (omega arith, s.1, s.2, λ k p q. ground (arith, s.3 k))

scan_word-Scanned :
    (wanted : Bool) (rounds j end w : ℕ)
    → j + rounds ≡ end
    → Scanned wanted w j end (scan_word wanted rounds j w)
unfolding scan_word
scan_word-Scanned wanted zero j end w e = λ k p q. absurd (omega arith)
scan_word-Scanned wanted (suc rounds) j end w e = rw (test_digit wanted w j) (
    Scanned-step wanted w j end (bit w j == digit wanted) (scan_word wanted rounds (j + 1) w) refl
      (omega arith) (scan_word-Scanned wanted rounds (j + 1) end w (omega arith)))

-- The word that the outer loop passes over: no digit of it is the wanted one.
abbrev skipped : Bool → ℕ
skipped true = 0
skipped false = max32

skipped-bit : (wanted : Bool) (k : ℕ) → k < 32 → bit (skipped wanted) k ≢ digit wanted
skipped-bit true k h e = omega (arith, zero-bit k)
skipped-bit false k h e = omega (arith, bit_complement 32 0 k (omega arith) h, zero-bit k)

-- A word without the wanted digit is the one passed over.
eq_skipped :
    (wanted : Bool) (w : ℕ)
    → w < 2 ^ 32
    → ((k : ℕ) → k < 32 → bit w k ≢ digit wanted)
    → w ≡ skipped wanted
eq_skipped true w h none_wanted =
    eq_of_bits 32 w 0 h (omega arith)
      (λ k l. ground (arith, none_wanted k l, bit-lt w k, zero-bit k))
eq_skipped false w h none_wanted = eq_of_bits 32 w max32 h (omega arith) (λ k l.
    ground (arith, none_wanted k l, bit-lt w k, bit_complement 32 0 k (omega arith) l, zero-bit k))

-- The digit in the block that `in_block` returns.
abbrev chosen : Option ℕ → ℕ
chosen (some r) = r
chosen none = 31

abbrev Chosen : Bool → ℕ → Option ℕ → Type 0
Chosen wanted w o =
    (chosen o < 32)
    × (bit w (chosen o) ≡ digit wanted)
    × ((k : ℕ) → k < chosen o → bit w k ≢ digit wanted)

-- In a block that is not passed over, the chosen digit is the lowest wanted one.
chosen_lem :
    (wanted : Bool) (w : ℕ) (o : Option ℕ)
    → w < 2 ^ 32
    → w ≢ skipped wanted
    → Scanned wanted w 0 31 o
    → Chosen wanted w o
chosen_lem wanted w (some r) h ne s = (omega arith, s.2, λ k l. s.3 k (omega arith) l)
chosen_lem wanted w none h ne s = (omega arith, last, λ k l. s k (omega arith) l)
  where
    none_wanted : bit w 31 ≢ digit wanted → (k : ℕ) → k < 32 → bit w k ≢ digit wanted
    none_wanted n k l = elim (dec_lt k 31) [
      | yes p ↦ s k (omega arith) p
      | no p ↦ (let e : k ≡ 31 = omega arith in rw e n)
    ]

    last : bit w 31 ≡ digit wanted
    last = elim (ℕ_discrete (bit w 31) (digit wanted)) [
      | yes e ↦ e
      | no n ↦ absurd (ne (eq_skipped wanted w h (none_wanted n)))
    ]

-- The bit of the memory that bit number `j` of the bitmap is.
abbrev at_bit : (ℕ → ℕ) → ℕ → ℕ
at_bit mem j = bit (mem (j / 32)) (j % 32)

-- `r` is the lowest bit of the wanted value among the blocks from `i` on, or `npos`.
abbrev FirstFrom : Bool → (ℕ → ℕ) → ℕ → ℕ → ℕ → Type 0
FirstFrom wanted mem i blocks r =
    ((r ≡ npos) × ((j : ℕ) → i * 32 ≤ j → j < blocks * 32 → at_bit mem j ≢ digit wanted))
    ⊎ ((i * 32 ≤ r)
        × (r < blocks * 32)
        × (at_bit mem r ≡ digit wanted)
        × ((j : ℕ) → i * 32 ≤ j → j < r → at_bit mem j ≢ digit wanted))

in_block-chosen :
    (i : ℕ) (o : Option ℕ) → i < 2 ^ 27 → chosen o < 32 → in_block i o ≡ i * 32 + chosen o
in_block-chosen i (some r) h l = omega arith
in_block-chosen i none h l = omega arith

module _ (wanted : Bool) (mem : ℕ → ℕ) (words : (i : ℕ) → mem i < 2 ^ 32) (blocks : ℕ) where
  -- A block that is passed over holds no wanted bit.
  pass_block :
      (i j : ℕ)
      → mem i ≡ skipped wanted
      → i * 32 ≤ j
      → ((i + 1) * 32 ≤ j → at_bit mem j ≢ digit wanted)
      → at_bit mem j ≢ digit wanted
  pass_block i j e p later = elim (dec_lt j ((i + 1) * 32)) [
    | yes l ↦
        (let k : j / 32 ≡ i = omega arith in rw (k, e) (skipped-bit wanted (j % 32) (omega arith)))
    | no n ↦ later (omega arith)
  ]

  FirstFrom-skip :
      (i r : ℕ)
      → mem i ≡ skipped wanted
      → FirstFrom wanted mem (i + 1) blocks r
      → FirstFrom wanted mem i blocks r
  FirstFrom-skip i r e (inl (none_left, h)) =
      inl (none_left, λ j p q. pass_block i j e p (λ l. h j l q))
  FirstFrom-skip i r e (inr (a, b, c, h)) =
      inr (omega arith, b, c, λ j p q. pass_block i j e p (λ l. h j l q))

  -- The chosen bit of a block that is not passed over ends the search.
  FirstFrom-chosen :
      (i c : ℕ)
      → i < blocks
      → c < 32
      → bit (mem i) c ≡ digit wanted
      → ((k : ℕ) → k < c → bit (mem i) k ≢ digit wanted)
      → FirstFrom wanted mem i blocks (i * 32 + c)
  FirstFrom-chosen i c l lc e h =
      let d : (i * 32 + c) / 32 ≡ i = omega arith in
      let m : (i * 32 + c) % 32 ≡ c = omega arith in
      inr (omega arith, omega arith, rw (d, m) e, λ j p q. below j p q)
    where
      below : (j : ℕ) → i * 32 ≤ j → j < i * 32 + c → at_bit mem j ≢ digit wanted
      below j p q = let k : j / 32 ≡ i = omega arith in rw k (h (j % 32) (omega arith))

  FirstFrom-in_block :
      (i : ℕ) (o : Option ℕ)
      → i < blocks
      → blocks < 2 ^ 27
      → Chosen wanted (mem i) o
      → FirstFrom wanted mem i blocks (in_block i o)
  FirstFrom-in_block i o l few c =
      rw (in_block-chosen i o (omega arith) c.0) (FirstFrom-chosen i (chosen o) l c.0 c.1 c.2)

  scan_blocks-FirstFrom :
      (rounds i : ℕ)
      → i + rounds ≡ blocks
      → blocks < 2 ^ 27
      → FirstFrom wanted mem i blocks (scan_blocks wanted (skipped wanted) rounds i mem)
  unfolding scan_blocks
  scan_blocks-FirstFrom zero i e few = inl (refl, λ j p q. absurd (omega arith))
  scan_blocks-FirstFrom (suc rounds) i e few = elim (Bool-cases (mem i == skipped wanted)) [
    | inl same ↦ rw same (
        FirstFrom-skip i _ ((==_iff _ _).0 same)
          (scan_blocks-FirstFrom rounds (i + 1) (omega arith) few))
    | inr other ↦ rw other (
        FirstFrom-in_block i _ (omega arith) few (
          chosen_lem wanted (mem i) _ (words i) (λ e. ground arith)
            (scan_word-Scanned wanted 31 0 31 (mem i) (omega arith))))
  ]

digit_clear : (b : Bitmap) (j : ℕ) → at_bit b.mem j ≢ digit false → get b j ≡ true
digit_clear b j h = ground (arith, get-eq-bit b j, bit-lt (b.mem (j / 32)) (j % 32))

digit_set : (b : Bitmap) (j : ℕ) → at_bit b.mem j ≢ digit true → get b j ≡ false
digit_set b j h = ground (arith, get-eq-bit b j, bit-lt (b.mem (j / 32)) (j % 32))

-- `r` is the lowest bit whose value is `wanted`; where `r` is `npos`, no bit has it.
abbrev pub FirstBit : Bool → Bitmap → ℕ → Type 0
FirstBit wanted b r =
    ((r ≡ npos) × ((j : ℕ) → j < b.blocks * 32 → get b j ≡ not wanted))
    ⊎ ((r < b.blocks * 32) × (get b r ≡ wanted) × ((j : ℕ) → j < r → get b j ≡ not wanted))

FirstBit-of_clear : (b : Bitmap) (r : ℕ) → FirstFrom false b.mem 0 b.blocks r → FirstBit false b r
FirstBit-of_clear b r (inl (e, h)) = inl (e, λ j l. digit_clear b j (h j (omega arith) l))
FirstBit-of_clear b r (inr (_, l, e, h)) =
    inr (l, rw (get-eq-bit b r, e), λ j l. digit_clear b j (h j (omega arith) l))

FirstBit-of_set : (b : Bitmap) (r : ℕ) → FirstFrom true b.mem 0 b.blocks r → FirstBit true b r
FirstBit-of_set b r (inl (e, h)) = inl (e, λ j l. digit_set b j (h j (omega arith) l))
FirstBit-of_set b r (inr (_, l, e, h)) =
    inr (l, rw (get-eq-bit b r, e), λ j l. digit_set b j (h j (omega arith) l))

-- On a valid bitmap, one of fewer than 2 ^ 27 blocks of 32 bits, `get_first_clear` returns the
-- lowest clear bit of the blocks, or `npos` where all are set.
pub get_first_clear-FirstBit : (b : Bitmap) → IsValid b → FirstBit false b (get_first_clear b)
unfolding get_first_clear
get_first_clear-FirstBit b v =
    FirstBit-of_clear b _
      (scan_blocks-FirstFrom false b.mem v.words b.blocks b.blocks 0 (omega arith) v.few)

-- On a valid bitmap, one of fewer than 2 ^ 27 blocks of 32 bits, `get_first_set` returns the
-- lowest set bit of the blocks, or `npos` where all are clear.
pub get_first_set-FirstBit : (b : Bitmap) → IsValid b → FirstBit true b (get_first_set b)
unfolding get_first_set
get_first_set-FirstBit b v =
    FirstBit-of_set b _
      (scan_blocks-FirstFrom true b.mem v.words b.blocks b.blocks 0 (omega arith) v.few)
