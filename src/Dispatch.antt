-- ===== src/Dispatch.antt =====
-- `hal::isr_dispatcher` of kernel/src/hal/interrupts/interrupts.h and interrupts.cc. A handler is
-- known by a number, which stands for the address of its `isr` object; a call that ends in
-- `kernel::panic` gives `panic`.
pub mod Laws
use danaos.Prelude.{ℕ, zero, suc, ◌+◌, Option, none, some, leb, ◌==◌, if◌then◌else◌}

abbrev pub isr_count : ℕ
isr_count = 256

abbrev pub Gates : Type 0
Gates = ℕ → Option ℕ

abbrev pub new_gates : Gates
new_gates index = none

abbrev pub set_gate : Gates → ℕ → Option ℕ → Gates
set_gate gates index gate i = if i == index then gate else gates i

pub data Result (A : Type 0) : Type 0 where
  panic : Result A
  done : A → Result A

abbrev pub then_do : {A B : Type 0} → Result A → (A → Result B) → Result B
then_do panic f = panic
then_do (done a) f = f a

unfoldable pub register_isr : Gates → ℕ → ℕ → Result Gates
register_isr gates index isr =
    if leb isr_count index then panic else done (set_gate gates index (some isr))

unfoldable pub deregister_isr : Gates → ℕ → Result Gates
deregister_isr gates index = if leb isr_count index then panic else done (set_gate gates index none)

abbrev found : Option ℕ → Result ℕ
found none = panic
found (some isr) = done isr

-- The handler that `trigger` calls for the number of the interrupt.
unfoldable pub trigger : Gates → ℕ → Result ℕ
trigger gates int_num = if leb isr_count int_num then panic else found (gates int_num)

-- `isr_handler`, by the number of the interrupt.
abbrev pub isr_handler : Gates → ℕ → Result ℕ
isr_handler gates int_num = trigger gates int_num

abbrev pub disable_gate : {S : Type 0} → (ℕ → S → S) → Option ℕ → S → S
disable_gate disable none s = s
disable_gate disable (some isr) s = disable isr s

-- The loop of the destructor, from `i` on, with the gates left. `disable` is that function of a
-- handler, which may change the gates too.
unfoldable pub disable_from : {S : Type 0} → (S → Gates) → (ℕ → S → S) → ℕ → ℕ → S → S
disable_from gates disable zero i s = s
disable_from gates disable (suc left) i s =
    disable_from gates disable left (i + 1) (disable_gate disable (gates s i) s)

abbrev pub destroy : {S : Type 0} → (S → Gates) → (ℕ → S → S) → S → S
destroy gates disable s = disable_from gates disable isr_count 0 s
