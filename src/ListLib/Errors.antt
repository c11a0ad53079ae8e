-- ===== src/ListLib/Errors.antt =====
-- The calls that the library refuses, and those that leave the pools.
use listlib_and_system_calls.Common.{ℕ, ◌<◌, ◌≡◌, refl, ◌≢◌, none, some, ne→==}
use listlib_and_system_calls.ListLib.Pool.{Item, ListPtr, Pool, max_lists}
use listlib_and_system_calls.ListLib.Steps.{steps}
use listlib_and_system_calls.ListLib.Adders.{list_append, list_prepend, list_add, list_insert}
use listlib_and_system_calls.ListLib.Movers.{
  list_count, list_first, list_last, list_next, list_prev, list_curr,
}
use listlib_and_system_calls.ListLib.Removers.{list_concat}

-- Every function of the library refuses a NULL list: it returns -1 (or NULL, or nothing) and
-- leaves the pools alone. The functions that add an item refuse a NULL item in the same way.
pub null_arguments :
    (p : Pool) (l : ListPtr) (x : Item)
    → (list_append none x p ≡ some (none, p))
      × (list_append l 0 p ≡ some (none, p))
      × (list_prepend none x p ≡ some (none, p))
      × (list_prepend l 0 p ≡ some (none, p))
      × (list_add none x p ≡ some (none, p))
      × (list_add l 0 p ≡ some (none, p))
      × (list_insert none x p ≡ some (none, p))
      × (list_insert l 0 p ≡ some (none, p))
      × (list_count none p ≡ some (none, p))
      × (list_first none p ≡ some (0, p))
      × (list_last none p ≡ some (0, p))
      × (list_next none p ≡ some (0, p))
      × (list_prev none p ≡ some (0, p))
      × (list_curr none p ≡ some (0, p))
      × (list_concat none l p ≡ some (tt, p))
      × (list_concat l none p ≡ some (tt, p))
unfolding list_append list_prepend list_add list_insert list_count list_first list_last list_next
    list_prev list_curr list_concat
null_arguments p none x =
    (refl, refl, refl, refl, refl, refl, refl, refl, refl, refl, refl, refl, refl, refl, refl, refl)
null_arguments p (some l) x =
    (refl, refl, refl, refl, refl, refl, refl, refl, refl, refl, refl, refl, refl, refl, refl, refl)

-- `ListNext` with the cursor at -1 and the flag `after` not set reads `pool_nodes[-1]`. A list is in this
-- state when `ListCreate` returns it, and again when `ListPrev` has moved before its first item.
pub list_next-faults :
    (p : Pool) (l : ℕ)
    → l < max_lists
    → (p.lists l).curr ≡ none
    → (p.lists l).after ≢ 1
    → list_next (some l) p ≡ none
unfolding list_next
list_next-faults p l here c a = simp (steps, here, c, ne→== (p.lists l).after 1 a)

-- `ListPrev` with the cursor at -1 and the flag `before` not set reads `pool_nodes[-1]`.
pub list_prev-faults :
    (p : Pool) (l : ℕ)
    → l < max_lists
    → (p.lists l).curr ≡ none
    → (p.lists l).before ≢ 1
    → list_prev (some l) p ≡ none
unfolding list_prev
list_prev-faults p l here c a = simp (steps, here, c, ne→== (p.lists l).before 1 a)
