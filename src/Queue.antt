-- ===== src/Queue.antt =====
-- The queue of telemetry samples between the collector and the scaler (control-plane/util/queue.go):
-- a linked list, oldest first, that drops its oldest entry when it is full. The mutex makes each call
-- one step.
pub mod Laws
mod Tests
use sky_flow.Base.{
  ℕ, ◌≡◌, Bool, List, [], ◌∷◌, ◌++◌, Option, none, some, reverse, length, leb, if◌then◌else◌, map,
  ◌==◌,
}

pub record FixedQueue {ℓ} (A : Type ℓ) : Type ℓ where
  pub list : List A
  pub size : ℕ

module _ {ℓ} {A : Type ℓ} where
  -- `list.Remove(list.Front())`
  unfoldable pub remove_front : List A → List A
  remove_front [] = []
  remove_front (x ∷ xs) = xs

  unfoldable pub front : List A → Option A
  front [] = none
  front (x ∷ xs) = some x

  unfoldable pub back : List A → Option A
  back [] = none
  back (x ∷ []) = some x
  back (x ∷ (y ∷ ys)) = back (y ∷ ys)

  -- `none` is the panic on a size that is not positive.
  unfoldable pub new : ℕ → Option (FixedQueue A)
  new size = if leb size 0 then none else some (record { list = []; size = size })

  unfoldable pub push : FixedQueue A → A → FixedQueue A
  unfolding remove_front
  push q value =
      let kept = if leb q.size (length q.list) then remove_front q.list else q.list in
      record q { list = kept ++ value ∷ [] }

  unfoldable pub pop : FixedQueue A → Option A × FixedQueue A
  unfolding remove_front front
  pop q =
      if length q.list == 0
      then (none, q)
      else (front q.list, record q { list = remove_front q.list })

  unfoldable pub latest : FixedQueue A → Option A
  unfolding back
  latest q = if length q.list == 0 then none else back q.list

  unfoldable pub len : FixedQueue A → ℕ
  len q = length q.list

  unfoldable pub snapshot_latest_first : FixedQueue A → List A
  snapshot_latest_first q = reverse q.list

  -- A run of pushes.
  unfoldable pub push_all : FixedQueue A → List A → FixedQueue A
  push_all q [] = q
  push_all q (x ∷ xs) = push_all (push q x) xs
