-- ===== src/Exceptions.antt =====
-- The exceptions of the processor, kernel/src/arch/i386/hal/interrupts/exceptions.h and
-- exceptions.cc: the handlers, which are known to the dispatcher, and what they report. A handler
-- then panics; `isr_of` gives the number that stands for the object of an exception. The state is the
-- dispatcher's table and the flags `m_enabled`.
pub mod Installed
use danaos.Prelude.{ℕ, ◌/◌, ◌%◌, ◌^◌, List, [], ◌∷◌, Bool, true, false, ◌==◌, if◌then◌else◌, update}
use danaos.Dispatch.{Gates, Result, done, register_isr, deregister_isr, then_do}

pub record Exceptions : Type 0 where
  pub isrs : Gates
  pub enabled : ℕ → Bool

unfoldable pub enable : ℕ → ℕ → Exceptions → Result Exceptions
enable index isr s =
    then_do (register_isr s.isrs index isr)
      (λ isrs. done (record { isrs = isrs; enabled = update s.enabled index true }))

unfoldable pub disable : ℕ → Exceptions → Result Exceptions
disable index s =
    then_do (deregister_isr s.isrs index)
      (λ isrs. done (record { isrs = isrs; enabled = update s.enabled index false }))

abbrev pub is_active : Exceptions → ℕ → Bool
is_active s index = s.enabled index

-- The indices of the static objects.
abbrev pub indices : List ℕ
indices =
    0 ∷ 1 ∷ 2 ∷ 3 ∷ 4 ∷ 5 ∷ 6 ∷ 7 ∷ 8 ∷ 9 ∷ 10 ∷ 11 ∷ 12 ∷ 13 ∷ 14 ∷ 16 ∷ 17 ∷ 18 ∷ 19 ∷ 20 ∷ 30
    ∷ []

unfoldable pub enable_each : (ℕ → ℕ) → List ℕ → Exceptions → Result Exceptions
enable_each isr_of [] s = done s
enable_each isr_of (index ∷ rest) s =
    then_do (enable index (isr_of index) s) (λ next. enable_each isr_of rest next)

abbrev pub install_exceptions : (ℕ → ℕ) → Exceptions → Result Exceptions
install_exceptions isr_of s = enable_each isr_of indices s

-- What `trigger` prints of the error code in front of the frame.
pub data Report : Type 0 where
  exception : Report
  missing_segment : ℕ → Report
  protection_fault : ℕ → Report
  protection_fault_in : ℕ → ℕ → ℕ → Report
  page_fault_at : ℕ → ℕ → ℕ → ℕ → ℕ → ℕ → Report

abbrev field : ℕ → ℕ → ℕ → ℕ
field code pos length = code / 2 ^ pos % 2 ^ length

-- The flag of an external event, the table and the index in it.
abbrev pub selector_report : ℕ → Report
selector_report code = protection_fault_in (field code 0 1) (field code 1 2) (field code 3 13)

abbrev pub protection_report : ℕ → Report
protection_report code = if code == 0 then selector_report code else protection_fault code

abbrev pub page_report : ℕ → ℕ → Report
page_report code cr2 =
    page_fault_at (field code 0 1) (field code 1 1) (field code 2 1) (field code 3 1)
      (field code 4 1) cr2

-- By the index of the exception.
unfoldable pub trigger : ℕ → ℕ → ℕ → Report
trigger index code cr2 =
    if index == 11
    then missing_segment code
    else if index == 13
    then protection_report code
    else if index == 14
    then page_report code cr2
    else exception
