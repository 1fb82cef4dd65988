-- ===== src/Tests/Tasks.antt =====
-- The queue, the scheduler and the semaphore at concrete states.
use danaos.Prelude.{ℕ, ◌≡◌, ◌⊎◌, refl, arith, true, some, List, [], ◌∷◌, ◌++◌, ◌==◌, if◌then◌else◌}
use danaos.Queue.{Queue}
use danaos.Queue.Fifo.{Op, put, take, look, answers}
use danaos.Queue.Refine.{Holds, ring_answers, ring_answers-eq-answers}
use danaos.Task.{is_ready, Store, blocked, running, waiting, ready_task, block_task}
use danaos.Task.Scheduler.{Scheduler, ok, no_fuel, schedule, block, ◌>>=◌}
use danaos.Task.Find.{survivors}
use danaos.Task.Schedule.{Switched, preempted, requeued, schedule-Switched}
use danaos.Task.Block.{block_suspends_front, block_stuck}
use danaos.Task.Semaphore.{Semaphore, IsValid, wait, signal, wait-IsValid, signal-IsValid}

-- The tasks 1 and 2 are queued; task 1 is blocked and task 2 waits. Task 0 runs, and 9 is idle.
abbrev two_tasks : Queue ℕ
two_tasks = record { slots = λ i. if i == 0 then some 1 else some 2; head = 0; tail = 2 }

two_tasks-Holds : Holds two_tasks (1 ∷ 2 ∷ [])
two_tasks-Holds = record {
  window = (refl, (refl, tt));
  tail_at = omega arith;
  room = omega arith;
  no_wrap = omega arith;
}

abbrev tasks : Store ℕ
tasks t = record {
  state = if t == 0 then running else (if t == 1 then blocked else waiting);
  context = t;
}

abbrev state : Scheduler ℕ
state = record { tasks = two_tasks; idle = 9; active = 0; store = tasks }

abbrev calls : List (Op ℕ)
calls = look ∷ put 5 ∷ take ∷ look ∷ take ∷ take ∷ take ∷ []

ring_answers_example : ring_answers two_tasks calls ≡ answers 0 (1 ∷ 2 ∷ []) calls
ring_answers_example =
    ring_answers-eq-answers calls two_tasks (1 ∷ 2 ∷ []) two_tasks-Holds (omega arith)

schedule_example :
    Switched state 2 77
      (preempted running)
      (([] ++ survivors tasks (1 ∷ [])) ++ requeued state)
      (schedule 5 state 77)
schedule_example =
    schedule-Switched state (1 ∷ []) 2 [] 5 (refl, tt) refl two_tasks-Holds (omega arith)
      (omega arith) (omega arith) 77

next_ready : is_ready (block_task tasks 1) 2 ≡ true
unfolding block_task
next_ready = refl

block_example :
    (after : Scheduler ℕ) × (block 5 state 77 ≡ ok (2, after))
    × (after.active ≡ 2)
    × ((after.store 1).state ≡ blocked)
    × ((after.store 0).state ≡ waiting)
    × Holds after.tasks (([] ++ (1 ∷ survivors (block_task tasks 1) [])) ++ (0 ∷ []))
block_example =
    block_suspends_front state 1 [] 2 [] 5 77 two_tasks-Holds tt next_ready (omega arith)
      (omega arith) (omega arith) (omega arith) (omega arith) refl (omega arith)

-- Task 1 is alone in the queue.
abbrev one_task : Queue ℕ
one_task = record { slots = λ i. some 1; head = 0; tail = 1 }

one_task-Holds : Holds one_task (1 ∷ [])
one_task-Holds = record {
  window = (refl, tt);
  tail_at = omega arith;
  room = omega arith;
  no_wrap = omega arith;
}

block_stuck_example : block 9 (record state { tasks = one_task }) 77 ≡ no_fuel
block_stuck_example =
    block_stuck (record state { tasks = one_task }) 1 [] 9 77 one_task-Holds tt (omega arith)
      (omega arith)

abbrev closed_semaphore : Semaphore
closed_semaphore = record { count = 0; queue = one_task }

closed-IsValid : IsValid closed_semaphore (1 ∷ [])
closed-IsValid = record { holds = one_task-Holds; binary = omega arith; closed = λ _. refl }

wait_example :
    ((closed_semaphore.count ≡ 1)
      × (wait 5 closed_semaphore state 77 ≡ ok (77, record closed_semaphore { count = 0 }, state))
      × IsValid (record closed_semaphore { count = 0 }) (1 ∷ []))
    ⊎ ((closed_semaphore.count ≡ 0)
        × (m' : Semaphore) × (wait 5 closed_semaphore state 77
            ≡ (block 5 state 77 >>= λ out. ok (out.0, m', out.1)))
        × IsValid m' ((1 ∷ []) ++ (0 ∷ [])))
wait_example =
    wait-IsValid 5 closed_semaphore state 77 (1 ∷ []) closed-IsValid (omega arith) (omega arith)

abbrev one_waiter : List ℕ
one_waiter = 1 ∷ []

signal_example :
    ((one_waiter ≡ [])
      × (signal closed_semaphore state ≡ ok (record closed_semaphore { count = 1 }, state))
      × IsValid (record closed_semaphore { count = 1 }) [])
    ⊎ ((t : ℕ) × (rest : List ℕ) × (one_waiter ≡ t ∷ rest)
        × (m' : Semaphore) × (signal closed_semaphore state
            ≡ ok (m', record state { store = ready_task tasks t }))
        × (m'.count ≡ 0)
        × IsValid m' rest)
signal_example = signal-IsValid closed_semaphore state one_waiter closed-IsValid
