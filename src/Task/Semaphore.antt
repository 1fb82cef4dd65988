-- ===== src/Task/Semaphore.antt =====
-- `sync::semaphore` of kernel/src/main/task/sync/semaphore.cc. (The output of `wait` to the console
-- is left out.)
use danaos.Prelude.{
  ℕ, ◌≤◌, ◌<◌, ◌≡◌, ◌+◌, ◌^◌, ◌≢◌, refl, Option, none, some, List, [], ◌∷◌, ◌++◌, length, arith,
  ltb, ◌⊎◌, inl, inr, Bool-cases, if◌then◌else◌,
}
use danaos.Queue
use danaos.Queue.{Queue}
use danaos.Queue.Refine.{Holds, enqueue-Holds, dequeue-Holds, is_empty-Holds, is_empty-Holds_cons}
use danaos.Task.{ready_task}
use danaos.Task.Scheduler.{Scheduler, Result, ok, null_deref, ◌>>=◌, block}

pub record Semaphore : Type 0 where
  pub count : ℕ
  pub queue : Queue ℕ

unfoldable pub new_semaphore : Semaphore
new_semaphore = record { count = 1; queue = Queue.empty_queue ℕ }

module _ {C : Type 0} where
  -- The answer has the registers that go on, the semaphore and the scheduler.
  unfoldable pub wait : ℕ → Semaphore → Scheduler C → C → Result (C × Semaphore × Scheduler C)
  wait fuel m d live =
      if ltb 0 m.count
      then ok (live, record m { count = 0 }, d)
      else (let queue = Queue.enqueue m.queue d.active in
          block fuel d live >>= λ out. let (c, d') = out in ok (c, record m { queue = queue }, d'))

  -- A task taken from the queue is set ready; it is not queued with the scheduler.
  unfoldable pub signal_next :
      Option ℕ → Queue ℕ → Semaphore → Scheduler C → Result (Semaphore × Scheduler C)
  signal_next none q m d = null_deref
  signal_next (some t) q m d =
      ok (record m { queue = q }, record d { store = ready_task d.store t })

  unfoldable pub signal : Semaphore → Scheduler C → Result (Semaphore × Scheduler C)
  unfolding signal_next
  signal m d =
      let (next, q) = Queue.dequeue m.queue in
      if Queue.is_empty m.queue then ok (record m { count = 1 }, d) else signal_next next q m d

-- The count is 0 or 1, and 0 while tasks wait.
pub record IsValid (m : Semaphore) (waiters : List ℕ) : Type 0 where
  pub holds : Holds m.queue waiters
  pub binary : m.count ≤ 1
  pub closed : waiters ≢ [] → m.count ≡ 0

-- `signal` on a valid semaphore never fails and keeps it valid. With no waiter it sets the count to
-- 1 and leaves the scheduler alone. Otherwise it takes the first waiter and sets that task ready:
-- the count stays 0, no other task changes, and the scheduler's own queue stays as it was.
pub signal-IsValid :
    {C : Type 0} (m : Semaphore) (d : Scheduler C) (waiters : List ℕ)
    → IsValid m waiters
    → ((waiters ≡ [])
        × (signal m d ≡ ok (record m { count = 1 }, d))
        × IsValid (record m { count = 1 }) [])
      ⊎ ((t : ℕ) × (rest : List ℕ) × (waiters ≡ t ∷ rest)
          × (m' : Semaphore) × (signal m d ≡ ok (m', record d { store = ready_task d.store t }))
          × (m'.count ≡ 0)
          × IsValid m' rest)
unfolding signal
signal-IsValid m d [] v = inl (
  refl,
  rw (is_empty-Holds m.queue [] v.holds),
  record { holds = v.holds; binary = omega arith; closed = λ n. absurd (n refl) },
)
signal-IsValid m d (t ∷ rest) v =
    let e = dequeue-Holds m.queue t rest v.holds in
    let zero_count : m.count ≡ 0 = v.closed (λ p. cc) in
    inr (
      t,
      rest,
      refl,
      record m { queue = (Queue.dequeue m.queue).1 },
      rw (is_empty-Holds_cons m.queue t rest v.holds, e.0),
      zero_count,
      record { holds = e.1; binary = omega arith; closed = λ n. zero_count },
    )

-- `wait` on a valid semaphore with count 1 sets the count to 0 and goes on. With count 0 it puts
-- the active task behind the other waiters, and answers what the scheduler's `block` does with
-- that semaphore. The semaphore is valid either way. (Fewer than 50 tasks wait, and the queue's
-- counter does not wrap.)
pub wait-IsValid :
    {C : Type 0} (fuel : ℕ) (m : Semaphore) (d : Scheduler C) (live : C) (waiters : List ℕ)
    → IsValid m waiters
    → length waiters < 50
    → m.queue.tail + 1 < 2 ^ 32
    → ((m.count ≡ 1)
        × (wait fuel m d live ≡ ok (live, record m { count = 0 }, d))
        × IsValid (record m { count = 0 }) waiters)
      ⊎ ((m.count ≡ 0)
          × (m' : Semaphore) × (wait fuel m d live
              ≡ (block fuel d live >>= λ out. ok (out.0, m', out.1)))
          × IsValid m' (waiters ++ (d.active ∷ [])))
unfolding wait
wait-IsValid fuel m d live waiters v l n = elim (Bool-cases (ltb 0 m.count)) [
  | inl e ↦ inl (
    ground (arith, v.binary),
    rw e,
    record { holds = v.holds; binary = omega arith; closed = λ p. refl },
  )
  | inr e ↦ inr (
    ground arith,
    record m { queue = Queue.enqueue m.queue d.active },
    rw e,
    record {
      holds = enqueue-Holds m.queue waiters d.active v.holds l n;
      binary = v.binary;
      closed = λ p. ground arith;
    },
  )
]
