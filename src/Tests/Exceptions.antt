-- ===== src/Tests/Exceptions.antt =====
-- The exceptions' handlers at concrete states.
use danaos.Prelude.{ℕ, ◌+◌, ◌≡◌, refl, false, if◌then◌else◌, ◌||◌}
use danaos.Dispatch
use danaos.Dispatch.{new_gates, done}
use danaos.Exceptions.{Exceptions, install_exceptions, is_active, trigger, protection_fault_in}
use danaos.Exceptions.Installed.{defined, install_exceptions_lem}

abbrev none_enabled : Exceptions
none_enabled = record { isrs = new_gates; enabled = λ i. false }

install_exceptions_example :
    (after : Exceptions) × (install_exceptions (λ i. 1000 + i) none_enabled ≡ done after)
    × ((n : ℕ)
        → Dispatch.trigger after.isrs n
          ≡ (if defined n then done (1000 + n) else Dispatch.trigger none_enabled.isrs n))
    × ((n : ℕ) → is_active after n ≡ (defined n || is_active none_enabled n))
install_exceptions_example = install_exceptions_lem (λ i. 1000 + i) none_enabled

-- The parts of the selector are reported for the error code that names none.
protection_report_wrong : trigger 13 0 0 ≡ protection_fault_in 0 0 0
unfolding trigger
protection_report_wrong = refl
