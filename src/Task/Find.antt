-- ===== src/Task/Find.antt =====
-- The loop that looks for a task that is ready.
use danaos.Prelude.{
  ℕ, zero, suc, ◌+◌, ◌^◌, ◌≤◌, ◌<◌, ◌≡◌, refl, Bool, true, false, if◌then◌else◌, List, [], ◌∷◌,
  ◌++◌, length, arith, Bool-cases, inl, inr, ap, ◌∙◌,
}
use mathlib.Core.List.{append_assoc, append-nil}
use danaos.Queue
use danaos.Queue.{Queue}
use danaos.Queue.Refine.{Holds, enqueue-Holds, dequeue-Holds, tail-enqueue-le, tail-dequeue}
use danaos.Task.{Store, is_ready, is_finished}
use danaos.Task.Scheduler.{Result, ok, no_fuel, requeue, find_ready, find_from}

-- What the loop leaves: it finds `t`, and the queue holds what is given.
pub record Found (r : Result (ℕ × Queue ℕ)) (t : ℕ) (rest : List ℕ) (bound : ℕ) : Type 0 where
  pub queue : Queue ℕ
  pub returns : r ≡ ok (t, queue)
  pub holds : Holds queue rest
  pub tail_le : queue.tail ≤ bound

module _ {C : Type 0} where
  -- Every task of the list has the readiness `v`.
  abbrev pub AllReady : Bool → Store C → List ℕ → Type 0
  AllReady v s [] = Unit
  AllReady v s (t ∷ ts) = (is_ready s t ≡ v) × AllReady v s ts

  -- The tasks of the list that are not finished.
  abbrev pub survivors : Store C → List ℕ → List ℕ
  survivors s [] = []
  survivors s (t ∷ ts) = if is_finished s t then survivors s ts else t ∷ survivors s ts

  find_from-ready :
      (fuel : ℕ) (s : Store C) (q : Queue ℕ) (t : ℕ) (ts : List ℕ)
      → Holds q (t ∷ ts)
      → is_ready s t ≡ true
      → find_from (suc fuel) s q ≡ ok (t, (Queue.dequeue q).1)
  unfolding find_from find_ready
  find_from-ready fuel s q t ts h r = rw ((dequeue-Holds q t ts h).0, r)

  find_from-unready :
      (fuel : ℕ) (s : Store C) (q : Queue ℕ) (t : ℕ) (ts : List ℕ)
      → Holds q (t ∷ ts)
      → is_ready s t ≡ false
      → find_from (suc fuel) s q ≡ find_from fuel s (requeue s (Queue.dequeue q).1 t)
  unfolding find_from find_ready
  find_from-unready fuel s q t ts h r = rw ((dequeue-Holds q t ts h).0, r)

  -- The queue after a task has been passed over.
  requeue-Holds :
      (s : Store C) (q : Queue ℕ) (t : ℕ) (ts : List ℕ)
      → Holds q (t ∷ ts)
      → q.tail + 1 < 2 ^ 32
      → Holds (requeue s (Queue.dequeue q).1 t) (ts ++ survivors s (t ∷ []))
  requeue-Holds s q t ts h n = elim (Bool-cases (is_finished s t)) [
    | inl e ↦ rw (e, append-nil) (dequeue-Holds q t ts h).1
    | inr e ↦ rw e (
        enqueue-Holds (Queue.dequeue q).1 ts t (dequeue-Holds q t ts h).1 (omega (arith, h.room))
          (omega (arith, tail-dequeue q)))
  ]

  tail-requeue-le :
      (s : Store C) (q : Queue ℕ) (t : ℕ) → (requeue s (Queue.dequeue q).1 t).tail ≤ q.tail + 1
  tail-requeue-le s q t = ground (arith, tail-enqueue-le (Queue.dequeue q).1 t, tail-dequeue q)

  survivors-cons :
      (s : Store C) (t : ℕ) (ts : List ℕ)
      → survivors s (t ∷ []) ++ survivors s ts ≡ survivors s (t ∷ ts)
  survivors-cons s t ts = elim (Bool-cases (is_finished s t)) [ inl e ↦ rw e | inr e ↦ rw e ]

  -- With enough fuel the loop finds the first task that is ready. The tasks in front of it are
  -- queued again behind the others, in order, less those that are finished.
  pub find_from-first :
      (xs : List ℕ) (fuel : ℕ) (s : Store C) (q : Queue ℕ) (t : ℕ) (ys : List ℕ)
      → AllReady false s xs
      → is_ready s t ≡ true
      → Holds q (xs ++ (t ∷ ys))
      → length xs < fuel
      → q.tail + length xs < 2 ^ 32
      → Found (find_from fuel s q) t (ys ++ survivors s xs) (q.tail + length xs)
  find_from-first [] zero s q t ys a r h f n = absurd (omega arith)
  find_from-first [] (suc fuel) s q t ys a r h f n = record {
    queue = (Queue.dequeue q).1;
    returns = find_from-ready fuel s q t ys h r;
    holds = rw append-nil (dequeue-Holds q t ys h).1;
    tail_le = omega (arith, tail-dequeue q);
  }
  find_from-first (x ∷ xs) zero s q t ys a r h f n = absurd (omega arith)
  find_from-first (x ∷ xs) (suc fuel) s q t ys a r h f n =
      let kept = survivors s (x ∷ []) in
      let q1 : Queue ℕ = requeue s (Queue.dequeue q).1 x in
      let shape : (xs ++ (t ∷ ys)) ++ kept ≡ xs ++ (t ∷ (ys ++ kept)) =
        append_assoc xs (t ∷ ys) kept in
      let h1 : Holds q1 (xs ++ (t ∷ (ys ++ kept))) =
        rw shape at (requeue-Holds s q x (xs ++ (t ∷ ys)) h (omega arith)) in
      let rest =
        find_from-first xs fuel s q1 t (ys ++ kept) a.1 r h1 (omega arith)
          (omega (arith, tail-requeue-le s q x)) in
      let regroup : (ys ++ kept) ++ survivors s xs ≡ ys ++ survivors s (x ∷ xs) =
        append_assoc ys kept (survivors s xs) ∙ ap (λ t. ys ++ t) (survivors-cons s x xs) in
      record {
        queue = rest.queue;
        returns = find_from-unready fuel s q x (xs ++ (t ∷ ys)) h a.0 ∙ rest.returns;
        holds = rw regroup at rest.holds;
        tail_le = omega (arith, rest.tail_le, tail-requeue-le s q x);
      }

  -- Every task of the list is neither ready nor finished.
  abbrev pub AllStuck : Store C → List ℕ → Type 0
  AllStuck s [] = Unit
  AllStuck s (t ∷ ts) = (is_ready s t ≡ false) × (is_finished s t ≡ false) × AllStuck s ts

  AllStuck-append :
      (s : Store C) (t : ℕ) (ts : List ℕ)
      → is_ready s t ≡ false
      → is_finished s t ≡ false
      → AllStuck s ts
      → AllStuck s (ts ++ (t ∷ []))
  AllStuck-append s t [] r f a = (r, f, tt)
  AllStuck-append s t (u ∷ us) r f a = (a.0, a.1, AllStuck-append s t us r f a.2)

  -- A stuck task goes back to the queue.
  requeue-Holds_stuck :
      (s : Store C) (q : Queue ℕ) (t : ℕ) (ts : List ℕ)
      → is_finished s t ≡ false
      → Holds q (t ∷ ts)
      → q.tail + 1 < 2 ^ 32
      → Holds (requeue s (Queue.dequeue q).1 t) (ts ++ (t ∷ []))
  requeue-Holds_stuck s q t ts f h n =
      let kept : survivors s (t ∷ []) ≡ t ∷ [] = rw f in rw kept at (requeue-Holds s q t ts h n)

  -- Where every queued task is neither ready nor finished, the loop does not end: no number of
  -- rounds up to the wrap of the queue's counter gives an answer.
  pub find_from-stuck :
      (fuel : ℕ) (s : Store C) (q : Queue ℕ) (x : ℕ) (xs : List ℕ)
      → AllStuck s (x ∷ xs)
      → Holds q (x ∷ xs)
      → q.tail + fuel < 2 ^ 32
      → find_from fuel s q ≡ no_fuel
  find_from-stuck zero s q x xs a h n = unfold find_from find_ready in refl
  find_from-stuck (suc fuel) s q x [] a h n =
      find_from-unready fuel s q x [] h a.0
      ∙ find_from-stuck fuel s (requeue s (Queue.dequeue q).1 x) x [] a
          (requeue-Holds_stuck s q x [] a.1 h (omega arith)) (omega (arith, tail-requeue-le s q x))
  find_from-stuck (suc fuel) s q x (u ∷ us) a h n =
      find_from-unready fuel s q x (u ∷ us) h a.0
      ∙ find_from-stuck fuel s (requeue s (Queue.dequeue q).1 x) u (us ++ (x ∷ []))
          (AllStuck-append s x (u ∷ us) a.0 a.1 a.2)
          (requeue-Holds_stuck s q x (u ∷ us) a.1 h (omega arith))
          (omega (arith, tail-requeue-le s q x))
