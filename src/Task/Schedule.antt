-- ===== src/Task/Schedule.antt =====
-- What a scheduling step does: the choice of the next task, the queue, the states and the contexts.
use danaos.Prelude.{
  ℕ, ◌+◌, ◌^◌, ◌≤◌, ◌<◌, ◌≡◌, ◌≢◌, refl, true, false, not, ◌&&◌, ◌==◌, if◌then◌else◌, List, [], ◌∷◌,
  ◌++◌, length, length-append, arith, Bool-cases, inl, inr, ap, ◌∙◌,
}
use mathlib.Core.List.{append-nil}
use danaos.Queue
use danaos.Queue.{Queue}
use danaos.Queue.Refine.{Holds, enqueue-Holds, is_empty-Holds}
use danaos.Task.{
  is_finished_state, State, running, waiting, finished, Store, is_ready, is_finished,
  is_running_state, task_switch, task_switch_from,
}
use danaos.Task.Scheduler.{Scheduler, Result, ok, find_from, make_active, schedule, yield_task}
use danaos.Task.Find.{AllReady, survivors, Found, find_from-first}

-- The state in which `schedule` leaves the active task.
abbrev pub preempted : State → State
preempted s = if is_running_state s then waiting else s

preempted_finished : (s : State) → is_finished_state s ≡ true → preempted s ≡ finished
preempted_finished s h = ground arith

module _ {C : Type 0} where
  -- The active task, where it is queued again.
  abbrev pub requeued : Scheduler C → List ℕ
  requeued d =
      if not (is_finished d.store d.active) && not (d.active == d.idle) then d.active ∷ [] else []

  make_active-Holds :
      (d : Scheduler C) (t : ℕ) (q : Queue ℕ) (ts : List ℕ)
      → Holds q ts
      → length ts < 50
      → q.tail + 1 < 2 ^ 32
      → Holds (make_active d t q).tasks (ts ++ requeued d)
  unfolding make_active
  make_active-Holds d t q ts h l n =
      elim (Bool-cases (not (is_finished d.store d.active) && not (d.active == d.idle))) [
        | inl e ↦ rw e (enqueue-Holds q ts d.active h l n)
        | inr e ↦ rw (e, append-nil) h
      ]

  module _ (s : Store C) (curr t : ℕ) (context : C) (apart : t ≢ curr) where
    task_switch_from-context : (task_switch_from s curr context t).0 ≡ (s t).context
    unfolding task_switch_from
    task_switch_from-context = ground arith

    task_switch_from-next : ((task_switch_from s curr context t).1 t).state ≡ running
    unfolding task_switch_from
    task_switch_from-next = ground arith

    task_switch_from-curr :
        (((task_switch_from s curr context t).1 curr).state ≡ preempted (s curr).state)
        × (((task_switch_from s curr context t).1 curr).context ≡ context)
    unfolding task_switch_from
    task_switch_from-curr = (ground arith, ground arith)

  task_switch_from-others :
      (s : Store C) (curr t : ℕ) (context : C) (j : ℕ)
      → j ≢ t
      → j ≢ curr
      → (task_switch_from s curr context t).1 j ≡ s j
  unfolding task_switch_from
  task_switch_from-others s curr t context j p q = ground arith

  -- A step from `d` to the task `t`, which leaves the tasks `queue` in the queue and the registers
  -- `context` in the context of the task that was active, and that task in state `left`.
  pub record Switched (d : Scheduler C) (t : ℕ) (context : C) (left : State) (queue : List ℕ)
      (r : Result (C × Scheduler C)) : Type 0 where
    pub after : Scheduler C
    pub returns : r ≡ ok ((d.store t).context, after)
    pub active : after.active ≡ t
    pub idle : after.idle ≡ d.idle
    pub queued : Holds after.tasks queue
    pub runs : (after.store t).state ≡ running
    pub left_state : (after.store d.active).state ≡ left
    pub saved : (after.store d.active).context ≡ context
    pub others : (j : ℕ) → j ≢ t → j ≢ d.active → after.store j ≡ d.store j

  -- The number of tasks in a list from which some may have been dropped.
  survivors-le : (s : Store C) (ts : List ℕ) → length (survivors s ts) ≤ length ts
  survivors-le s [] = omega arith
  survivors-le s (t ∷ ts) = ground (arith, survivors-le s ts)

  module _ (d : Scheduler C) (xs : List ℕ) (t : ℕ) (ys : List ℕ) (fuel : ℕ)
      (unready : AllReady false d.store xs) (next_ready : is_ready d.store t ≡ true)
      (holds : Holds d.tasks (xs ++ (t ∷ ys))) (enough : length xs < fuel)
      (counter : d.tasks.tail + length xs + 1 < 2 ^ 32) (apart : t ≢ d.active) where
    not_empty : Queue.is_empty d.tasks ≡ false
    not_empty =
        ground (arith, is_empty-Holds d.tasks (xs ++ (t ∷ ys)) holds, length-append xs (t ∷ ys))

    found :
        Found
          (find_from fuel d.store d.tasks)
          t
          (ys ++ survivors d.store xs)
          (d.tasks.tail + length xs)
    found =
        find_from-first xs fuel d.store d.tasks t ys unready next_ready holds enough (omega arith)

    queue_after :
        Holds (make_active d t found.queue).tasks ((ys ++ survivors d.store xs) ++ requeued d)
    queue_after =
        make_active-Holds d t found.queue (ys ++ survivors d.store xs) found.holds
          (omega (
            arith,
            holds.room,
            length-append ys (survivors d.store xs),
            length-append xs (t ∷ ys),
            survivors-le d.store xs,
          ))
          (omega (arith, found.tail_le))

    -- Where the queue holds tasks `xs` that are not ready, then a ready task `t` other than
    -- the active one, then `ys`, with more fuel than tasks in `xs` and a counter of the
    -- queue that does not wrap: `schedule` goes on with `t` and returns the registers that
    -- it had saved. The queue is then `ys`, the tasks of `xs` less the finished ones, and
    -- the active task, unless that is finished or the idle task. The registers given are
    -- saved in the active task, which waits if it was running; no other task is touched.
    pub schedule-Switched :
        (context : C)
        → Switched d t context
            (preempted (d.store d.active).state)
            ((ys ++ survivors d.store xs) ++ requeued d)
            (schedule fuel d context)
    unfolding schedule task_switch_from make_active
    schedule-Switched context = record {
      after = record (make_active d t found.queue) {
        store = (task_switch_from d.store d.active context t).1;
      };
      returns =
          rw (not_empty, found.returns)
            (ap
              (λ c. ok (
                c,
                record (make_active d t found.queue) {
                  store = (task_switch_from d.store d.active context t).1;
                },
              ))
              (task_switch_from-context d.store d.active t context apart));
      active = refl;
      idle = refl;
      queued = queue_after;
      runs = task_switch_from-next d.store d.active t context apart;
      left_state = (task_switch_from-curr d.store d.active t context apart).0;
      saved = (task_switch_from-curr d.store d.active t context apart).1;
      others = λ j p q. task_switch_from-others d.store d.active t context j p q;
    }

    -- Where the queue holds tasks `xs` that are not ready, then a ready task `t` other than
    -- the active one, then `ys`, with more fuel than tasks in `xs` and a counter of the
    -- queue that does not wrap: `yield` goes on with `t`. The queue is then `ys`, the tasks
    -- of `xs` less the finished ones, and the active task, unless that is finished or the
    -- idle task. The live registers are saved in the active task, which waits whatever its
    -- state was; no other task is touched.
    pub yield_task-Switched :
        (live : C)
        → Switched d t live waiting
            ((ys ++ survivors d.store xs) ++ requeued d)
            (yield_task fuel d live)
    unfolding yield_task task_switch make_active
    yield_task-Switched live = record {
      after = record (make_active d t found.queue) {
        store = (task_switch d.store d.active t live).1;
      };
      returns =
          rw (not_empty, found.returns)
            (ap
              (λ c. ok (
                c,
                record (make_active d t found.queue) {
                  store = (task_switch d.store d.active t live).1;
                },
              ))
              (ground arith));
      active = refl;
      idle = refl;
      queued = queue_after;
      runs = ground arith;
      left_state = ground arith;
      saved = ground arith;
      others = λ j p q. ground arith;
    }

-- With an empty queue `schedule` changes nothing and returns the registers that it was given, unless
-- the active task is finished; then it goes on with the idle task.
pub schedule_alone :
    {C : Type 0} (d : Scheduler C) (fuel : ℕ) (context : C)
    → Holds d.tasks []
    → d.idle ≢ d.active
    → (is_finished d.store d.active ≡ false → schedule fuel d context ≡ ok (context, d))
      × (is_finished d.store d.active ≡ true
          → (after : Scheduler C) × (schedule fuel d context ≡ ok ((d.store d.idle).context, after))
            × (after.active ≡ d.idle)
            × ((after.store d.idle).state ≡ running)
            × ((after.store d.active).state ≡ finished))
unfolding schedule
schedule_alone d fuel context h ne = (
  λ f. rw (is_empty-Holds d.tasks [] h, f),
  λ f. (
    record d { active = d.idle; store = (task_switch_from d.store d.active context d.idle).1 },
    rw (is_empty-Holds d.tasks [] h, f)
        (ap
          (λ c. ok (
            c,
            record d {
              active = d.idle;
              store = (task_switch_from d.store d.active context d.idle).1;
            },
          ))
          (task_switch_from-context d.store d.active d.idle context ne)),
    refl,
    task_switch_from-next d.store d.active d.idle context ne,
    (task_switch_from-curr d.store d.active d.idle context ne).0
        ∙ preempted_finished (d.store d.active).state f,
  ),
)
