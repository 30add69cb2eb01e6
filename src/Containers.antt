-- ===== src/Containers.antt =====
-- common/containers.hpp: the queue that the threads share, and the locked set. A method runs under
-- the mutex, so a run of several threads is a sequence of whole methods.
mod Examples
pub mod Fifo
pub mod LockedSet
use binance_monitor.Base.{
  if◌then◌else◌, ◌*◌, Bool, false, ◌||◌, Option, none, some, List, [], ◌∷◌, ◌++◌,
}

module _ {ℓ} {T : Type ℓ} where
  -- `waitable_container_t::get`: `none` while the container is empty, which is where the caller waits.
  pub get : List T → Option (T × List T)
  get [] = none
  get (front ∷ rest) = some (front, rest)

  unfoldable pub append : T → List T → List T
  append item container = container ++ item ∷ []

  unfoldable pub append_list : List T → List T → List T
  append_list new_list container = container ++ new_list

-- `locked_set_t`, over the equality of its items.
module _ {ℓ} {T : Type ℓ} (equal : T → T → Bool) where
  unfoldable pub contains : T → List T → Bool
  contains item [] = false
  contains item (x ∷ set') = equal x item || contains item set'

  pub insert : T → List T → List T
  insert item set' = if contains item set' then set' else set' ++ item ∷ []

  pub insert_list : List T → List T → List T
  insert_list [] set' = set'
  insert_list (item ∷ items) set' = insert_list items (insert item set')

module _ {ℓ} {T : Type ℓ} where
  pub all_items_matching : (T → Bool) → List T → List T
  all_items_matching filter [] = []
  all_items_matching filter (item ∷ set') =
      let rest = all_items_matching filter set' in if filter item then item ∷ rest else rest
