-- ===== src/Common/LockQueue.antt =====
-- `LockQueue` of src/common/include/util.hpp. Each call holds the queue's mutex from its first
-- access to its last, so a call is one step; the list is the queue, its front first.
use kvstorage.Base.{List, [], ◌∷◌, ◌++◌, Option, none, some}

module _ {ℓ} {A : Type ℓ} where
  unfoldable pub push : List A → A → List A
  push q a = q ++ a ∷ []

  -- `none`: the queue is empty, and the caller waits.
  unfoldable pub pop : List A → Option (A × List A)
  pop [] = none
  pop (a ∷ q) = some (a, q)

  -- The queue is what stands in it when the wait ends; `none` is the timeout on an empty queue.
  unfoldable pub time_out_pop : List A → Option A × List A
  time_out_pop [] = (none, [])
  time_out_pop (a ∷ q) = (some a, q)
