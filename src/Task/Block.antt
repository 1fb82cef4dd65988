-- ===== src/Task/Block.antt =====
-- Blocking: which task `block` blocks, and where it never returns.
use danaos.Prelude.{
  ℕ, ◌+◌, ◌^◌, ◌<◌, ◌≡◌, ◌≢◌, true, false, List, [], ◌∷◌, ◌++◌, length, arith, ap, ◌∙◌, lt→ltb,
}
use danaos.Queue.Refine.{Holds, is_empty-Holds_cons, front-Holds}
use danaos.Task.{waiting, blocked, Store, Task, is_ready, is_finished, block_task}
use danaos.Task.Scheduler.{Scheduler, ok, no_fuel, yield_task, block}
use danaos.Task.Find.{AllReady, AllStuck, survivors, find_from-stuck}
use danaos.Task.Schedule.{requeued, yield_task-Switched}

block_front_lem :
    {C : Type 0} (d : Scheduler C) (t : ℕ) (xs : List ℕ) (fuel : ℕ) (live : C)
    → Holds d.tasks (t ∷ xs)
    → d.tasks.head < 50
    → block fuel d live ≡ yield_task fuel (record d { store = block_task d.store t }) live
unfolding block
block_front_lem d t xs fuel live h l = rw (front-Holds d.tasks t xs h, lt→ltb d.tasks.head 50 l)

state-block_task : {C : Type 0} (s : Store C) (t : ℕ) → (block_task s t t).state ≡ blocked
unfolding block_task
state-block_task s t = ground arith

unready_block_task : {C : Type 0} (s : Store C) (t : ℕ) → is_ready (block_task s t) t ≡ false
unfolding block_task
unready_block_task s t = ground arith

context-block_task :
    {C : Type 0} (s : Store C) (t u : ℕ) → (block_task s t u).context ≡ (s u).context
unfolding block_task
context-block_task s t u = ground arith

survivors-block_task :
    {C : Type 0} (s : Store C) (t : ℕ) (xs : List ℕ)
    → survivors (block_task s t) (t ∷ xs) ≡ t ∷ survivors (block_task s t) xs
survivors-block_task s t xs =
    let e : is_finished (block_task s t) t ≡ false = unfold block_task in ground arith in rw e

requeued-block_task :
    {C : Type 0} (d : Scheduler C) (t : ℕ)
    → t ≢ d.active
    → is_finished d.store d.active ≡ false
    → d.active ≢ d.idle
    → requeued (record d { store = block_task d.store t }) ≡ d.active ∷ []
unfolding block_task
requeued-block_task d t ta fin idl = ground arith

unready_ne :
    {C : Type 0} (s : Store C) (t u : ℕ) → is_ready s t ≡ false → is_ready s u ≡ true → t ≢ u
unready_ne s t u p q e = let p' : is_ready s u ≡ false = rw e at p in cc

-- `block` blocks the front task `t` of the queue and lets the active task yield to the first
-- task that is ready, `u`, behind tasks `xs` that are not ready. The active task, which called
-- it, is not blocked: it waits at the end of the queue, ready to run. (The active task is
-- neither `t` nor `u` nor finished nor the idle task, the queue has given out fewer than 50
-- tasks and its counter does not wrap, and the fuel is more than the tasks passed over.)
pub block_suspends_front :
    {C : Type 0} (d : Scheduler C) (t : ℕ) (xs : List ℕ) (u : ℕ) (ys : List ℕ) (fuel : ℕ) (live : C)
    → Holds d.tasks (t ∷ (xs ++ (u ∷ ys)))
    → AllReady false (block_task d.store t) xs
    → is_ready (block_task d.store t) u ≡ true
    → length xs + 1 < fuel
    → d.tasks.head < 50
    → d.tasks.tail + length xs + 2 < 2 ^ 32
    → t ≢ d.active
    → u ≢ d.active
    → is_finished d.store d.active ≡ false
    → d.active ≢ d.idle
    → (after : Scheduler C) × (block fuel d live ≡ ok ((d.store u).context, after))
      × (after.active ≡ u)
      × ((after.store t).state ≡ blocked)
      × ((after.store d.active).state ≡ waiting)
      × Holds after.tasks ((ys ++ (t ∷ survivors (block_task d.store t) xs)) ++ (d.active ∷ []))
block_suspends_front d t xs u ys fuel live h unready r f l n ta ua fin idl =
    let front_blocked : Scheduler _ = record d { store = block_task d.store t } in
    let s =
      yield_task-Switched front_blocked (t ∷ xs) u ys fuel (unready_block_task d.store t, unready) r
        h (omega arith) (omega arith) ua live in
    (
      s.after,
      block_front_lem d t (xs ++ (u ∷ ys)) fuel live h l
          ∙ s.returns
          ∙ ap (λ c. ok (c, s.after)) (context-block_task d.store t u),
      s.active,
      ap (λ (k : Task _). k.state)
            (s.others t (unready_ne (block_task d.store t) t u (unready_block_task d.store t) r) ta)
          ∙ state-block_task d.store t,
      s.left_state,
      rw (survivors-block_task d.store t xs, requeued-block_task d t ta fin idl) at s.queued,
    )

-- Where a task waits in the queue and the others are neither ready nor finished once it is
-- blocked, and the queue has given out fewer than 50 tasks, `block` does not return within any
-- number of rounds before the queue's counter wraps.
pub block_stuck :
    {C : Type 0} (d : Scheduler C) (t : ℕ) (xs : List ℕ) (fuel : ℕ) (live : C)
    → Holds d.tasks (t ∷ xs)
    → AllStuck (block_task d.store t) xs
    → d.tasks.head < 50
    → d.tasks.tail + fuel < 2 ^ 32
    → block fuel d live ≡ no_fuel
unfolding yield_task block_task
block_stuck d t xs fuel live h stuck l n =
    block_front_lem d t xs fuel live h l
    ∙ rw (
      is_empty-Holds_cons d.tasks t xs h,
      find_from-stuck fuel (block_task d.store t) d.tasks t xs (ground arith, ground arith, stuck) h
          n,
    )
