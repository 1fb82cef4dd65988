-- ===== src/Queue/Refine.antt =====
-- The ring of slots holds a list of items, and its operations are those of the list.
use danaos.Prelude.{
  ℕ, ◌+◌, ◌%◌, ◌^◌, ◌≤◌, ◌<◌, ◌≡◌, refl, false, Option, none, some, List, [], ◌∷◌, ◌++◌, length,
  length-append, ltb, ◌==◌, if◌then◌else◌, update, arith, lt→ltb, le→ltb_false, ◌≢◌, ◌∙◌, ap,
}
use native.Mathlib.Decide.{dec_lt}
use danaos.Queue.{Queue, size, is_empty, enqueue, dequeue, front}
use danaos.Queue.Fifo
use danaos.Queue.Fifo.{Op, put, take, look}

module _ {ℓ} {A : Type ℓ} where
  -- The slots from absolute position `i` on hold the items.
  abbrev pub Window : (ℕ → Option A) → ℕ → List A → Type ℓ
  Window slots i [] = Unit
  Window slots i (x ∷ xs) = (slots (i % 50) ≡ some x) × Window slots (i + 1) xs

  pub record Holds (q : Queue A) (xs : List A) : Type ℓ where
    pub window : Window q.slots q.head xs
    pub tail_at : q.tail ≡ q.head + length xs
    pub room : length xs ≤ 50
    pub no_wrap : q.tail < 2 ^ 32

  -- A write behind the window, at most once round, extends it.
  Window-update :
      (slots : ℕ → Option A) (i k : ℕ) (xs : List A) (x : A)
      → i + length xs ≡ k
      → length xs < 50
      → Window slots i xs
      → Window (update slots (k % 50) (some x)) i (xs ++ (x ∷ []))
  Window-update slots i k [] x e l w = let same : i ≡ k = omega arith in (ground arith, tt)
  Window-update slots i k (y ∷ ys) x e l w =
      let other : i % 50 ≢ k % 50 = omega arith in
      (ground (arith, w.0), Window-update slots (i + 1) k ys x (omega arith) (omega arith) w.1)

  pub size-Holds : (q : Queue A) (xs : List A) → Holds q xs → size q ≡ length xs
  unfolding size
  size-Holds q xs h = omega (arith, h.tail_at, h.room, h.no_wrap)

  pub is_empty-Holds : (q : Queue A) (xs : List A) → Holds q xs → is_empty q ≡ (length xs == 0)
  unfolding is_empty
  is_empty-Holds q xs h = rw (size-Holds q xs h)

  pub is_empty-Holds_cons :
      (q : Queue A) (x : A) (xs : List A) → Holds q (x ∷ xs) → is_empty q ≡ false
  is_empty-Holds_cons q x xs h = ground (arith, is_empty-Holds q (x ∷ xs) h)

  pub tail-enqueue-le : (q : Queue A) (x : A) → (enqueue q x).tail ≤ q.tail + 1
  unfolding enqueue
  tail-enqueue-le q x = ground arith

  pub tail-dequeue : (q : Queue A) → (dequeue q).1.tail ≡ q.tail
  unfolding dequeue
  tail-dequeue q = ground arith

  -- On a queue with room, `enqueue` puts the item behind the others.
  pub enqueue-Holds :
      (q : Queue A) (xs : List A) (x : A)
      → Holds q xs
      → length xs < 50
      → q.tail + 1 < 2 ^ 32
      → Holds (enqueue q x) (xs ++ (x ∷ []))
  unfolding enqueue
  enqueue-Holds q xs x h l n =
      rw (size-Holds q xs h, lt→ltb (length xs) 50 l)
        (record {
          window = Window-update q.slots q.head q.tail xs x (omega (arith, h.tail_at)) l h.window;
          tail_at = omega (arith, h.tail_at, length-append xs (x ∷ []));
          room = omega (arith, length-append xs (x ∷ []));
          no_wrap = omega arith;
        })

  -- On a full queue, `enqueue` changes nothing.
  pub enqueue_full :
      (q : Queue A) (xs : List A) (x : A) → Holds q xs → 50 ≤ length xs → enqueue q x ≡ q
  unfolding enqueue
  enqueue_full q xs x h l = rw (size-Holds q xs h, le→ltb_false (length xs) 50 l)

  pub dequeue-Holds_nil : (q : Queue A) → Holds q [] → dequeue q ≡ (none, q)
  unfolding dequeue
  dequeue-Holds_nil q h = rw (is_empty-Holds q [] h)

  -- `dequeue` takes the first item.
  pub dequeue-Holds :
      (q : Queue A) (x : A) (xs : List A)
      → Holds q (x ∷ xs)
      → ((dequeue q).0 ≡ some x) × Holds (dequeue q).1 xs
  unfolding dequeue
  dequeue-Holds q x xs h =
      let n : (q.head + 1) % 2 ^ 32 ≡ q.head + 1 = omega (arith, h.tail_at, h.no_wrap) in
      rw (is_empty-Holds_cons q x xs h, n)
        (
          h.window.0,
          record {
            window = h.window.1;
            tail_at = omega (arith, h.tail_at);
            room = omega (arith, h.room);
            no_wrap = h.no_wrap;
          },
        )

  -- `front` gives the first item while fewer than 50 items have been dequeued, and from then on
  -- reads behind the array.
  pub front-Holds :
      (q : Queue A) (x : A) (xs : List A)
      → Holds q (x ∷ xs)
      → front q ≡ (if ltb q.head 50 then some (some x) else none)
  unfolding front
  front-Holds q x xs h = rw (is_empty-Holds_cons q x xs h) (elim (dec_lt q.head 50) [
    | yes l ↦ rw (lt→ltb q.head 50 l) (ap some (in_array l))
    | no n ↦ rw (le→ltb_false q.head 50 (omega arith))
  ])
    where
      in_array : q.head < 50 → q.slots q.head ≡ some x
      in_array l = let e : q.head % 50 ≡ q.head = omega arith in rw e at h.window.0

  front-Holds_nil : (q : Queue A) → Holds q [] → front q ≡ some none
  unfolding front
  front-Holds_nil q h = rw (is_empty-Holds q [] h)

  head-enqueue : (q : Queue A) (x : A) → (enqueue q x).head ≡ q.head
  unfolding enqueue
  head-enqueue q x = ground arith

  -- The head does not wrap where it is behind the tail.
  head-dequeue :
      (q : Queue A) (x : A) (xs : List A) → Holds q (x ∷ xs) → (dequeue q).1.head ≡ q.head + 1
  unfolding dequeue
  head-dequeue q x xs h =
      let n : (q.head + 1) % 2 ^ 32 ≡ q.head + 1 = omega (arith, h.tail_at, h.no_wrap) in
      rw (is_empty-Holds_cons q x xs h) n

  -- The answers of the ring to a sequence of calls.
  pub ring_answers : Queue A → List (Op A) → List (Option (Option A))
  ring_answers q [] = []
  ring_answers q (put x ∷ ops) = ring_answers (enqueue q x) ops
  ring_answers q (take ∷ ops) = let (o, q') = dequeue q in some o ∷ ring_answers q' ops
  ring_answers q (look ∷ ops) = front q ∷ ring_answers q ops

  -- From a ring that holds a list, every sequence of calls of `enqueue`, `dequeue` and `front` answers
  -- as the bounded list does, of which as many items have been taken as the ring's head counts, as long
  -- as the counter of enqueued items does not wrap.
  pub ring_answers-eq-answers :
      (ops : List (Op A)) (q : Queue A) (xs : List A)
      → Holds q xs
      → q.tail + length ops < 2 ^ 32
      → ring_answers q ops ≡ Fifo.answers q.head xs ops
  unfolding ring_answers Fifo.answers Fifo.taken_after Fifo.peek
  ring_answers-eq-answers [] q xs h n = refl
  ring_answers-eq-answers (put x ∷ ops) q xs h n = elim (dec_lt (length xs) 50) [
    | yes l ↦ rw (lt→ltb (length xs) 50 l) (
        ring_answers-eq-answers ops (enqueue q x) (xs ++ (x ∷ []))
          (enqueue-Holds q xs x h l (omega arith)) (omega (arith, tail-enqueue-le q x))
        ∙ ap (λ k. Fifo.answers k (xs ++ (x ∷ [])) ops) (head-enqueue q x))
    | no f ↦
        rw (le→ltb_false (length xs) 50 (omega arith), enqueue_full q xs x h (omega arith))
          (ring_answers-eq-answers ops q xs h (omega arith))
  ]
  ring_answers-eq-answers (take ∷ ops) q [] h n =
      rw (dequeue-Holds_nil q h)
        (ap (λ t. some none ∷ t) (ring_answers-eq-answers ops q [] h (omega arith)))
  ring_answers-eq-answers (take ∷ ops) q (x ∷ xs) h n =
      let d = dequeue-Holds q x xs h in
      rw d.0 (
        ap (λ t. some (some x) ∷ t)
          (ring_answers-eq-answers ops (dequeue q).1 xs d.1 (omega (arith, tail-dequeue q))
            ∙ ap (λ k. Fifo.answers k xs ops) (head-dequeue q x xs h)))
  ring_answers-eq-answers (look ∷ ops) q [] h n =
      rw (front-Holds_nil q h)
        (ap (λ t. some none ∷ t) (ring_answers-eq-answers ops q [] h (omega arith)))
  ring_answers-eq-answers (look ∷ ops) q (x ∷ xs) h n = rw (front-Holds q x xs h) (
      ap (λ t. (if ltb q.head 50 then some (some x) else none) ∷ t)
        (ring_answers-eq-answers ops q (x ∷ xs) h (omega arith)))
