-- ===== src/Queue.antt =====
-- `util::queue<T>` of kernel/src/libk/queue.h, for a pointer type `T`: `none` is the null pointer.
-- `head` and `tail` count the dequeued and enqueued items as `size_t`, and index the slots modulo
-- `max_size`.
pub mod Fifo
pub mod Refine
use danaos.Prelude.{
  ℕ, ◌+◌, ◌%◌, Bool, Option, none, some, ◌==◌, ltb, if◌then◌else◌, add32, sub32, update,
}

abbrev pub max_size : ℕ
max_size = 50

pub record Queue {ℓ} (A : Type ℓ) : Type ℓ where
  pub slots : ℕ → Option A
  pub head : ℕ
  pub tail : ℕ

module _ {ℓ} {A : Type ℓ} where
  unfoldable pub size : Queue A → ℕ
  size q = sub32 q.tail q.head

  unfoldable pub is_empty : Queue A → Bool
  unfolding size
  is_empty q = size q == 0

  -- A full queue drops the item.
  unfoldable pub enqueue : Queue A → A → Queue A
  unfolding size
  enqueue q item =
      if ltb (size q) max_size
      then record q {
        slots = update q.slots (q.tail % max_size) (some item);
        tail = add32 q.tail 1;
      }
      else q

  -- The slot is read at `head` itself: `none` on the outside is a read behind the array.
  unfoldable pub front : Queue A → Option (Option A)
  unfolding is_empty
  front q =
      if is_empty q
      then some none
      else (if ltb q.head max_size then some (q.slots q.head) else none)

  unfoldable pub dequeue : Queue A → Option A × Queue A
  unfolding is_empty
  dequeue q =
      if is_empty q
      then (none, q)
      else (q.slots (q.head % max_size), record q { head = add32 q.head 1 })

unfoldable pub empty_queue {ℓ} : (A : Type ℓ) → Queue A
empty_queue A = record { slots = λ _. none; head = 0; tail = 0 }
