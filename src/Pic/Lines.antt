-- ===== src/Pic/Lines.antt =====
-- `enable()`, `disable()` and `is_active` of `irq_controller`, kernel/src/arch/pc/devices/pic.cc: the
-- controller as the handler of its 16 interrupts in the dispatcher. `self` is the number that stands
-- for the controller.
use danaos.Prelude.{
  ℕ, zero, suc, ◌+◌, ◌≤◌, ◌≡◌, ◌∙◌, refl, arith, Bool, true, false, ◌&&◌, ◌||◌, none, some, ltb,
  leb, if◌then◌else◌,
}
use danaos.Dispatch
use danaos.Dispatch.{Gates, Result, panic, done, then_do, set_gate, register_isr, deregister_isr}
use danaos.Pic.{Pic, master_idt_offset, slave_idt_offset}

-- The loops, from `i` on, with the rounds left.
unfoldable pub register_lines : ℕ → ℕ → ℕ → Gates → Result Gates
register_lines zero i self isrs = done isrs
register_lines (suc left) i self isrs =
    then_do (register_isr isrs (master_idt_offset + i) self) (λ m.
      then_do (register_isr m (slave_idt_offset + i) self)
        (λ s. register_lines left (i + 1) self s))

unfoldable pub deregister_lines : ℕ → ℕ → Gates → Result Gates
deregister_lines zero i isrs = done isrs
deregister_lines (suc left) i isrs =
    then_do (deregister_isr isrs (master_idt_offset + i)) (λ m.
      then_do (deregister_isr m (slave_idt_offset + i)) (λ s. deregister_lines left (i + 1) s))

abbrev with_enabled : {H : Type 0} → Bool → Pic H → Gates → Result (Pic H × Gates)
with_enabled enabled d isrs = done (record d { enabled = enabled }, isrs)

unfoldable pub enable_all : {H : Type 0} → Pic H → ℕ → Gates → Result (Pic H × Gates)
enable_all d self isrs = then_do (register_lines 8 0 self isrs) (with_enabled true d)

unfoldable pub disable_all : {H : Type 0} → Pic H → Gates → Result (Pic H × Gates)
disable_all d isrs = then_do (deregister_lines 8 0 isrs) (with_enabled false d)

abbrev pub is_active : {H : Type 0} → Pic H → Bool
is_active d = d.enabled

-- The interrupts of the lines from `i` on.
abbrev of_lines : ℕ → ℕ → ℕ → Bool
of_lines i left n =
    (leb (32 + i) n && ltb n (32 + i + left)) || (leb (40 + i) n && ltb n (40 + i + left))

register_lines_lem :
    (left i self : ℕ) (isrs : Gates)
    → i + left ≤ 8
    → (after : Gates) × (register_lines left i self isrs ≡ done after)
      × ((n : ℕ) → after n ≡ (if of_lines i left n then some self else isrs n))
unfolding register_lines register_isr
register_lines_lem zero i self isrs l = (isrs, refl, λ n. ground arith)
register_lines_lem (suc left) i self isrs l =
    let next : Gates = set_gate (set_gate isrs (32 + i) (some self)) (40 + i) (some self) in
    let (after, e, h) = register_lines_lem left (i + 1) self next (omega arith) in
    let m : leb 256 (32 + i) ≡ false = ground arith in
    let s : leb 256 (40 + i) ≡ false = ground arith in (after, rw (m, s) e, λ n. h n ∙ ground arith)

deregister_lines_lem :
    (left i : ℕ) (isrs : Gates)
    → i + left ≤ 8
    → (after : Gates) × (deregister_lines left i isrs ≡ done after)
      × ((n : ℕ) → after n ≡ (if of_lines i left n then none else isrs n))
unfolding deregister_lines deregister_isr
deregister_lines_lem zero i isrs l = (isrs, refl, λ n. ground arith)
deregister_lines_lem (suc left) i isrs l =
    let next : Gates = set_gate (set_gate isrs (32 + i) none) (40 + i) none in
    let (after, e, h) = deregister_lines_lem left (i + 1) next (omega arith) in
    let m : leb 256 (32 + i) ≡ false = ground arith in
    let s : leb 256 (40 + i) ≡ false = ground arith in (after, rw (m, s) e, λ n. h n ∙ ground arith)

-- `enable()` succeeds and makes the controller active; the dispatcher then calls the controller for
-- the 16 interrupts from 32 on, and for every other interrupt what it called before.
pub enable_all_lem :
    {H : Type 0} (d : Pic H) (self : ℕ) (isrs : Gates)
    → (e : Pic H) × (after : Gates) × (enable_all d self isrs ≡ done (e, after))
      × (is_active e ≡ true)
      × ((n : ℕ)
          → Dispatch.trigger after n
            ≡ (if leb 32 n && ltb n 48 then done self else Dispatch.trigger isrs n))
unfolding enable_all Dispatch.trigger
enable_all_lem d self isrs =
    let (after, e, h) = register_lines_lem 8 0 self isrs (omega arith) in
    (record d { enabled = true }, after, rw e refl, refl, λ n. ground (arith, h n))

-- `disable()` succeeds and makes the controller inactive; the 16 interrupts from 32 on then panic,
-- and for every other interrupt the dispatcher calls what it called before.
pub disable_all_lem :
    {H : Type 0} (d : Pic H) (isrs : Gates)
    → (e : Pic H) × (after : Gates) × (disable_all d isrs ≡ done (e, after))
      × (is_active e ≡ false)
      × ((n : ℕ)
          → Dispatch.trigger after n
            ≡ (if leb 32 n && ltb n 48 then panic else Dispatch.trigger isrs n))
unfolding disable_all Dispatch.trigger
disable_all_lem d isrs =
    let (after, e, h) = deregister_lines_lem 8 0 isrs (omega arith) in
    (record d { enabled = false }, after, rw e refl, refl, λ n. ground (arith, h n))
