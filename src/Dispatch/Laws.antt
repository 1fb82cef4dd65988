-- ===== src/Dispatch/Laws.antt =====
-- What the dispatcher calls after handlers are registered and removed.
use danaos.Prelude.{ℕ, leb, ◌==◌, if◌then◌else◌, ◌≡◌, arith}
use danaos.Dispatch.{Gates, Result, panic, done, register_isr, deregister_isr, trigger}

abbrev then_trigger : Result Gates → ℕ → Result ℕ
then_trigger panic i = panic
then_trigger (done gates) i = trigger gates i

-- After a handler is registered, an interrupt of its number calls it and any other interrupt what
-- it called before; the index 256 and above make the registration panic.
pub trigger-register_isr :
    (gates : Gates) (index isr i : ℕ)
    → then_trigger (register_isr gates index isr) i
      ≡ (if leb 256 index then panic else (if i == index then done isr else trigger gates i))
unfolding register_isr trigger
trigger-register_isr gates index isr i = ground arith

-- After a handler is removed, an interrupt of its number panics and any other one calls what it
-- called before.
pub trigger-deregister_isr :
    (gates : Gates) (index i : ℕ)
    → then_trigger (deregister_isr gates index) i
      ≡ (if leb 256 index then panic else (if i == index then panic else trigger gates i))
unfolding deregister_isr trigger
trigger-deregister_isr gates index i = ground arith
