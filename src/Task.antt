-- ===== src/Task.antt =====
-- The tasks of kernel/src/main/task: their states, the scheduler and the semaphore. A task is known
-- by a number, which stands for its address; the tasks live in a store.
pub mod Scheduler
pub mod Find
pub mod Schedule
pub mod Block
pub mod Semaphore
use danaos.Prelude.{ℕ, Bool, true, false, ◌||◌, ◌==◌, if◌then◌else◌, update}

pub data State : Type 0 where
  created ready running waiting blocked finished : State

-- `C` is `hal::task_context`, the saved registers. The stack and the function of a task are not
-- read by the scheduler.
pub record Task (C : Type 0) : Type 0 where
  pub state : State
  pub context : C

abbrev pub Store : Type 0 → Type 0
Store C = ℕ → Task C

abbrev pub is_ready_state : State → Bool
is_ready_state ready = true
is_ready_state waiting = true
is_ready_state _ = false

abbrev pub is_finished_state : State → Bool
is_finished_state finished = true
is_finished_state _ = false

abbrev pub is_running_state : State → Bool
is_running_state running = true
is_running_state _ = false

module _ {C : Type 0} where
  abbrev pub is_ready : Store C → ℕ → Bool
  is_ready s t = is_ready_state (s t).state

  abbrev pub is_finished : Store C → ℕ → Bool
  is_finished s t = is_finished_state (s t).state

  abbrev pub set_state : Store C → ℕ → State → Store C
  set_state s t st = update s t (record (s t) { state = st })

  unfoldable pub block_task : Store C → ℕ → Store C
  block_task s t = set_state s t blocked

  unfoldable pub ready_task : Store C → ℕ → Store C
  ready_task s t = set_state s t ready

  -- `task_switch(next)`: the states; `switch_context` then saves the registers of `curr` in its
  -- context, here `live`, and goes on with the context of `next`.
  unfoldable pub task_switch : Store C → ℕ → ℕ → C → C × Store C
  task_switch s curr next live =
      let s1 = set_state s curr waiting in
      let s2 = set_state s1 next running in
      let s3 = update s2 curr (record (s2 curr) { context = live }) in ((s3 next).context, s3)

  -- `task_switch(context, next)`: a task that runs is set to wait, any other keeps its state.
  unfoldable pub task_switch_from : Store C → ℕ → C → ℕ → C × Store C
  task_switch_from s curr context next =
      let s1 = if is_running_state (s curr).state then set_state s curr waiting else s in
      let s2 = set_state s1 next running in
      let s3 = update s2 curr (record (s2 curr) { context = context }) in ((s3 next).context, s3)
