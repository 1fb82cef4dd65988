-- ===== src/Exceptions/Installed.antt =====
-- What `install_exceptions` leaves in the dispatcher.
use danaos.Prelude.{
  ℕ, ◌≡◌, ◌∙◌, refl, arith, Bool, true, false, not, ◌&&◌, ◌||◌, List, [], ◌∷◌, some, ltb, leb, ◌==◌,
  if◌then◌else◌, update,
}
use danaos.Dispatch
use danaos.Dispatch.{Gates, set_gate, register_isr, done}
use danaos.Exceptions.{Exceptions, enable, enable_each, indices, install_exceptions, is_active}

abbrev listed : ℕ → List ℕ → Bool
listed n [] = false
listed n (x ∷ xs) = n == x || listed n xs

abbrev all_vectors : List ℕ → Bool
all_vectors [] = true
all_vectors (x ∷ xs) = ltb x 256 && all_vectors xs

enable_each_lem :
    (isr_of : ℕ → ℕ) (xs : List ℕ) (s : Exceptions)
    → all_vectors xs ≡ true
    → (after : Exceptions) × (enable_each isr_of xs s ≡ done after)
      × ((n : ℕ) → after.isrs n ≡ (if listed n xs then some (isr_of n) else s.isrs n))
      × ((n : ℕ) → after.enabled n ≡ (listed n xs || s.enabled n))
unfolding enable_each enable register_isr
enable_each_lem isr_of [] s v = (s, refl, λ n. refl, λ n. refl)
enable_each_lem isr_of (x ∷ xs) s v =
    let next : Exceptions = record {
      isrs = set_gate s.isrs x (some (isr_of x));
      enabled = update s.enabled x true;
    } in
    let rest : all_vectors xs ≡ true = ground arith in
    let below : leb 256 x ≡ false = ground arith in
    let (after, e, h, k) = enable_each_lem isr_of xs next rest in
    (after, rw below e, λ n. h n ∙ ground arith, λ n. k n ∙ ground arith)

-- The exceptions that the processor has, of the vectors below 32.
abbrev pub defined : ℕ → Bool
defined n = (ltb n 21 && not (n == 15)) || n == 30

listed-indices : (n : ℕ) → listed n indices ≡ defined n
listed-indices n = ground arith

-- `install_exceptions` succeeds. The dispatcher then calls the handler of the exception for the
-- vectors 0 to 14, 16 to 20 and 30, which are active, and for every other one what it called before.
pub install_exceptions_lem :
    (isr_of : ℕ → ℕ) (s : Exceptions)
    → (after : Exceptions) × (install_exceptions isr_of s ≡ done after)
      × ((n : ℕ)
          → Dispatch.trigger after.isrs n
            ≡ (if defined n then done (isr_of n) else Dispatch.trigger s.isrs n))
      × ((n : ℕ) → is_active after n ≡ (defined n || is_active s n))
unfolding Dispatch.trigger
install_exceptions_lem isr_of s =
    let (after, e, h, k) = enable_each_lem isr_of indices s refl in
    (
      after,
      e,
      λ n. rw (h n, listed-indices n) (ground arith),
      λ n. k n ∙ rw (listed-indices n) refl,
    )
