-- ===== src/PhysMem/Ranges.antt =====
-- What the loops over frames do to each frame.
use danaos.Prelude.{
  ℕ, zero, suc, ◌+◌, ◌-◌, ◌≤◌, ◌<◌, ◌≡◌, ◌↔◌, ◌⊎◌, inl, inr, refl, Bool, true, false, not, ◌&&◌,
  ◌||◌, arith, ltb, leb, if◌then◌else◌, Bool-cases,
}
use native.Mathlib.Decide.{ℕ_discrete}
use danaos.Bitmap
use danaos.Bitmap.{Bitmap}
use danaos.Bitmap.Laws.{get-set, get-clear, IsValid, set-IsValid}
use danaos.PhysMem.Loops.{
  frames_available, set_frames, clear_frames, test_and_set_frames, test_and_clear_frames, run_end,
  skip_taken,
}

-- Frame `j` lies in the range that starts at `frame` and has `rounds` frames.
abbrev pub in_frames : ℕ → ℕ → ℕ → Bool
in_frames rounds frame j = leb frame j && ltb j (frame + rounds)

pub get-set_frames :
    (rounds frame : ℕ) (b : Bitmap) (j : ℕ)
    → Bitmap.get (set_frames rounds frame b) j
      ≡ (if in_frames rounds frame j then true else Bitmap.get b j)
unfolding set_frames
get-set_frames zero frame b j = ground arith
get-set_frames (suc rounds) frame b j =
    ground (arith, get-set_frames rounds (frame + 1) (Bitmap.set b frame) j, get-set b frame j)

pub get-clear_frames :
    (rounds frame : ℕ) (b : Bitmap) (j : ℕ)
    → Bitmap.get (clear_frames rounds frame b) j
      ≡ (if in_frames rounds frame j then false else Bitmap.get b j)
unfolding clear_frames
get-clear_frames zero frame b j = ground arith
get-clear_frames (suc rounds) frame b j =
    ground
      (arith, get-clear_frames rounds (frame + 1) (Bitmap.clear b frame) j, get-clear b frame j)

-- Every frame of the range has the value `v`.
abbrev pub AllFrames : Bool → ℕ → ℕ → Bitmap → Type 0
AllFrames v rounds frame b = (j : ℕ) → frame ≤ j → j < frame + rounds → Bitmap.get b j ≡ v

AllFrames-cons :
    (v : Bool) (rounds frame : ℕ) (b : Bitmap)
    → Bitmap.get b frame ≡ v
    → AllFrames v rounds (frame + 1) b
    → AllFrames v (suc rounds) frame b
AllFrames-cons v rounds frame b e h j p q = elim (ℕ_discrete frame j) [
  | yes same ↦ rw (← same) e
  | no other ↦ h j (omega arith) (omega arith)
]

pub frames_available_iff :
    (rounds frame : ℕ) (b : Bitmap)
    → (frames_available rounds frame b ≡ true) ↔ AllFrames false rounds frame b
unfolding frames_available
frames_available_iff zero frame b = (λ _ j p q. absurd (omega arith), λ _. refl)
frames_available_iff (suc rounds) frame b = elim (Bool-cases (Bitmap.get b frame)) [
  | inl e ↦ (λ a. ground arith, λ h. ground (arith, h frame))
  | inr e ↦ (
    λ a.
        AllFrames-cons false rounds frame b e
          ((frames_available_iff rounds (frame + 1) b).0 (ground arith)),
    λ h.
        rw e (
          (frames_available_iff rounds (frame + 1) b).1 (λ j p q. h j (omega arith) (omega arith))),
  )
]

-- A write in front of the range does not change what the loop finds.
frames_available-set :
    (rounds frame i : ℕ) (b : Bitmap)
    → i < frame
    → frames_available rounds frame (Bitmap.set b i) ≡ frames_available rounds frame b
unfolding frames_available
frames_available-set zero frame i b h = refl
frames_available-set (suc rounds) frame i b h =
    ground (arith, get-set b i frame, frames_available-set rounds (frame + 1) i b)

-- `test_and_set` over a range tells whether a frame of it was taken, and takes them all.
pub test_and_set_frames_lem :
    (rounds frame : ℕ) (val : Bool) (b : Bitmap)
    → test_and_set_frames rounds frame val b
      ≡ (val || not (frames_available rounds frame b), set_frames rounds frame b)
unfolding test_and_set_frames frames_available set_frames Bitmap.test_and_set
test_and_set_frames_lem zero frame val b = ground arith
test_and_set_frames_lem (suc rounds) frame val b = ground (
  arith,
  test_and_set_frames_lem rounds (frame + 1) (val || Bitmap.get b frame) (Bitmap.set b frame),
  frames_available-set rounds (frame + 1) frame b,
)

-- Whether every frame of the range is taken.
abbrev pub frames_taken : ℕ → ℕ → Bitmap → Bool
frames_taken zero frame b = true
frames_taken (suc rounds) frame b = Bitmap.get b frame && frames_taken rounds (frame + 1) b

frames_taken-clear :
    (rounds frame i : ℕ) (b : Bitmap)
    → i < frame
    → frames_taken rounds frame (Bitmap.clear b i) ≡ frames_taken rounds frame b
frames_taken-clear zero frame i b h = refl
frames_taken-clear (suc rounds) frame i b h =
    ground (arith, get-clear b i frame, frames_taken-clear rounds (frame + 1) i b)

pub frames_taken_iff :
    (rounds frame : ℕ) (b : Bitmap)
    → (frames_taken rounds frame b ≡ true) ↔ AllFrames true rounds frame b
frames_taken_iff zero frame b = (λ _ j p q. absurd (omega arith), λ _. refl)
frames_taken_iff (suc rounds) frame b = (
  λ a.
      AllFrames-cons true rounds frame b (ground arith)
        ((frames_taken_iff rounds (frame + 1) b).0 (ground arith)),
  λ h. ground (
    arith,
    h frame,
    (frames_taken_iff rounds (frame + 1) b).1 (λ j p q. h j (omega arith) (omega arith)),
  ),
)

-- `test_and_clear` over a range tells whether all its frames were taken, and frees them all.
pub test_and_clear_frames_lem :
    (rounds frame : ℕ) (val : Bool) (b : Bitmap)
    → test_and_clear_frames rounds frame val b
      ≡ (val && frames_taken rounds frame b, clear_frames rounds frame b)
unfolding test_and_clear_frames clear_frames Bitmap.test_and_clear
test_and_clear_frames_lem zero frame val b = ground arith
test_and_clear_frames_lem (suc rounds) frame val b = ground (
  arith,
  test_and_clear_frames_lem rounds (frame + 1) (val && Bitmap.get b frame) (Bitmap.clear b frame),
  frames_taken-clear rounds (frame + 1) frame b,
)

pub set_frames-IsValid :
    (rounds frame : ℕ) (b : Bitmap) → IsValid b → IsValid (set_frames rounds frame b)
unfolding set_frames
set_frames-IsValid zero frame b v = v
set_frames-IsValid (suc rounds) frame b v =
    set_frames-IsValid rounds (frame + 1) (Bitmap.set b frame) (set-IsValid b frame v)

-- `r` is where a loop stops that passes over frames of value `v`: at the first other frame, or
-- after `rounds` of them.
pub record Stops (v : Bool) (rounds from : ℕ) (b : Bitmap) (r : ℕ) : Type 0 where
  pub low : from ≤ r
  pub high : r ≤ from + rounds
  pub passed : (j : ℕ) → from ≤ j → j < r → Bitmap.get b j ≡ v
  pub stop : (r ≡ from + rounds) ⊎ (Bitmap.get b r ≡ not v)

Stops-zero : (v : Bool) (from : ℕ) (b : Bitmap) → Stops v zero from b from
Stops-zero v from b = record {
  low = omega arith;
  high = omega arith;
  passed = λ j p q. absurd (omega arith);
  stop = inl (omega arith);
}

Stops-here :
    (v : Bool) (rounds from : ℕ) (b : Bitmap)
    → Bitmap.get b from ≡ not v
    → Stops v rounds from b from
Stops-here v rounds from b e = record {
  low = omega arith;
  high = omega arith;
  passed = λ j p q. absurd (omega arith);
  stop = inr e;
}

Stops-pass :
    (v : Bool) (rounds from : ℕ) (b : Bitmap) (r : ℕ)
    → Bitmap.get b from ≡ v
    → Stops v rounds (from + 1) b r
    → Stops v (suc rounds) from b r
Stops-pass v rounds from b r e s = record {
  low = omega arith;
  high = omega arith;
  passed = λ j p q.
      AllFrames-cons v (r - (from + 1)) from b e (λ k l m. s.passed k l (omega arith)) j p
        (omega arith);
  stop = elim s.stop [ inl h ↦ inl (omega arith) | inr h ↦ inr h ];
}

-- The inner loop stops at the first taken frame, or at its end.
pub run_end-Stops :
    (rounds from : ℕ) (b : Bitmap) → Stops false rounds from b (run_end rounds from b)
unfolding run_end
run_end-Stops zero from b = Stops-zero false from b
run_end-Stops (suc rounds) from b = elim (Bool-cases (Bitmap.get b from)) [
  | inl e ↦ rw e (Stops-here false (suc rounds) from b e)
  | inr e ↦ rw e (Stops-pass false rounds from b _ e (run_end-Stops rounds (from + 1) b))
]

-- The loop passes over taken frames and stops at a free one, or at its end.
pub skip_taken-Stops :
    (left from : ℕ) (b : Bitmap) → Stops true left from b (skip_taken left from b)
unfolding skip_taken
skip_taken-Stops zero from b = Stops-zero true from b
skip_taken-Stops (suc left) from b = elim (Bool-cases (Bitmap.get b from)) [
  | inl e ↦ rw e (Stops-pass true left from b _ e (skip_taken-Stops left (from + 1) b))
  | inr e ↦ rw e (Stops-here true (suc left) from b e)
]
