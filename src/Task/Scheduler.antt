-- ===== src/Task/Scheduler.antt =====
-- `task::scheduler` of kernel/src/main/task/scheduler.cc and the end of `task::start` in task.cc.
use danaos.Prelude.{ℕ, zero, suc, not, ◌&&◌, ◌==◌, if◌then◌else◌, Option, none, some}
use danaos.Queue
use danaos.Queue.{Queue}
use danaos.Task.{
  Store, is_ready, is_finished, set_state, block_task, ready_task, task_switch, task_switch_from,
  finished,
}

pub record Scheduler (C : Type 0) : Type 0 where
  pub tasks : Queue ℕ
  pub idle : ℕ
  pub active : ℕ
  pub store : Store C

-- `null_deref` is a call through a null pointer, `out_of_array` a read behind the array of the
-- queue, and `no_fuel` a loop that has not ended in the rounds given.
pub data Result (A : Type 0) : Type 0 where
  ok : A → Result A
  null_deref out_of_array no_fuel : Result A

infixl 5 ◌>>=◌
abbrev pub ◌>>=◌ : {A B : Type 0} → Result A → (A → Result B) → Result B
ok a >>= f = f a
null_deref >>= f = null_deref
out_of_array >>= f = out_of_array
no_fuel >>= f = no_fuel

module _ {C : Type 0} where
  -- A task that is not ready goes back to the queue, unless it is finished.
  abbrev pub requeue : Store C → Queue ℕ → ℕ → Queue ℕ
  requeue s q t = if not (is_finished s t) then Queue.enqueue q t else q

  -- `while(!next->is_ready()) { … next = m_tasks.dequeue(); }` with fuel.
  unfoldable pub find_ready : ℕ → Store C → Option ℕ → Queue ℕ → Result (ℕ × Queue ℕ)
  find_ready zero s next q = no_fuel
  find_ready (suc fuel) s none q = null_deref
  find_ready (suc fuel) s (some t) q =
      let (next, q') = Queue.dequeue (requeue s q t) in
      let rest = find_ready fuel s next q' in if is_ready s t then ok (t, q) else rest

  -- The loop with the `dequeue` in front of it.
  unfoldable pub find_from : ℕ → Store C → Queue ℕ → Result (ℕ × Queue ℕ)
  find_from fuel s q = let (next, q') = Queue.dequeue q in find_ready fuel s next q'

  -- `next` becomes the active task, and the current one is queued again unless it is finished or
  -- the idle task.
  unfoldable pub make_active : Scheduler C → ℕ → Queue ℕ → Scheduler C
  make_active d next q = record d {
    tasks =
        if not (is_finished d.store d.active) && not (d.active == d.idle)
        then Queue.enqueue q d.active
        else q;
    active = next;
  }

  unfoldable pub yield_task : ℕ → Scheduler C → C → Result (C × Scheduler C)
  unfolding find_from make_active
  yield_task fuel d live =
      if Queue.is_empty d.tasks
      then (if is_finished d.store d.active
          then (let (c, s) = task_switch d.store d.active d.idle live in
              ok (c, record d { active = d.idle; store = s }))
          else ok (live, d))
      else (find_from fuel d.store d.tasks >>= λ found.
          let (next, q) = found in
          let (c, s) = task_switch d.store d.active next live in
          ok (c, record (make_active d next q) { store = s }))

  unfoldable pub schedule : ℕ → Scheduler C → C → Result (C × Scheduler C)
  unfolding find_from make_active
  schedule fuel d context =
      if Queue.is_empty d.tasks
      then (if is_finished d.store d.active
          then (let (c, s) = task_switch_from d.store d.active context d.idle in
              ok (c, record d { active = d.idle; store = s }))
          else ok (context, d))
      else (find_from fuel d.store d.tasks >>= λ found.
          let (next, q) = found in
          let (c, s) = task_switch_from d.store d.active context next in
          ok (c, record (make_active d next q) { store = s }))

  unfoldable pub ready : Scheduler C → ℕ → Scheduler C
  ready d t = record d { tasks = Queue.enqueue d.tasks t; store = ready_task d.store t }

  -- The task at the front of the queue is blocked, and then the active one yields.
  unfoldable pub block_front : Option (Option ℕ) → ℕ → Scheduler C → C → Result (C × Scheduler C)
  block_front none fuel d live = out_of_array
  block_front (some none) fuel d live = null_deref
  block_front (some (some t)) fuel d live =
      yield_task fuel (record d { store = block_task d.store t }) live

  unfoldable pub block : ℕ → Scheduler C → C → Result (C × Scheduler C)
  unfolding block_front
  block fuel d live = block_front (Queue.front d.tasks) fuel d live

  -- `start()` up to the call of `task::start` on the active task.
  unfoldable pub start : Scheduler C → Result (Scheduler C)
  start d =
      let (next, q) = Queue.dequeue d.tasks in
      if not (Queue.is_empty d.tasks)
      then (elim next [
        | none ↦ null_deref
        | some t ↦ ok (record d { tasks = q; active = t; store = ready_task d.store t })
      ])
      else ok (record d { store = ready_task d.store d.active })

  -- What `task::start` does when the function of the task has returned.
  unfoldable pub exit_task : ℕ → Scheduler C → ℕ → C → Result (C × Scheduler C)
  unfolding yield_task
  exit_task fuel d t live = yield_task fuel (record d { store = set_state d.store t finished }) live
