-- ===== src/Queue/Fifo.antt =====
-- What the queue does: a first-in first-out list of at most 50 items, whose front is given while fewer
-- than 50 items have been taken. From then on a look at the front of a list with items gives `none`: it
-- reads behind the array.
use danaos.Prelude.{ℕ, ◌+◌, Option, none, some, List, [], ◌∷◌, ◌++◌, length, ltb, if◌then◌else◌}

pub data Op {ℓ} (A : Type ℓ) : Type ℓ where
  put : A → Op A
  take : Op A
  look : Op A

module _ {ℓ} {A : Type ℓ} where
  unfoldable pub push : List A → A → List A
  push xs x = if ltb (length xs) 50 then xs ++ (x ∷ []) else xs

  unfoldable pub pop : List A → Option A × List A
  pop [] = (none, [])
  pop (x ∷ xs) = (some x, xs)

  unfoldable pub peek : ℕ → List A → Option (Option A)
  peek taken [] = some none
  peek taken (x ∷ xs) = if ltb taken 50 then some (some x) else none

  -- The items that have been taken after one more call of `take`.
  unfoldable pub taken_after : ℕ → List A → ℕ
  taken_after taken [] = taken
  taken_after taken (x ∷ xs) = taken + 1

  -- The answers to a sequence of calls.
  unfoldable pub answers : ℕ → List A → List (Op A) → List (Option (Option A))
  unfolding push pop
  answers taken xs [] = []
  answers taken xs (put x ∷ ops) = answers taken (push xs x) ops
  answers taken xs (take ∷ ops) =
      let (o, xs') = pop xs in some o ∷ answers (taken_after taken xs) xs' ops
  answers taken xs (look ∷ ops) = peek taken xs ∷ answers taken xs ops
