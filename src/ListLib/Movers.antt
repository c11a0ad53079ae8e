-- ===== src/ListLib/Movers.antt =====
-- list_movers.c: the cursor of a list. A function returns the current item, 0 for NULL. The
-- calls of `printf` are left out.
use listlib_and_system_calls.Common.{Bool, none, some, ◌==◌, if◌then◌else◌}
use listlib_and_system_calls.ListLib.Pool.{
  Idx, Item, CInt, ListPtr, Cmd, pure, ◌>>=◌, ◌>>◌, get_node, get_list, put_list,
}
use listlib_and_system_calls.ListLib.Adders.{is_none}

unfoldable pub list_count : ListPtr → Cmd CInt
list_count none = pure none
list_count (some l) = do h ← get_list l; pure (some h.count)

-- `ListSearch` returns NULL whatever it is given.
unfoldable pub list_search : ListPtr → Bool → Item → Cmd Item
list_search list comparator arg = pure 0

abbrev pub item_at : Idx → Cmd Item
item_at i = do n ← get_node i; pure n.item

unfoldable pub list_first : ListPtr → Cmd Item
list_first none = pure 0
list_first (some l) = do
  h ← get_list l
  if h.count == 0
      then pure 0
      else do put_list l (record h { curr = h.head; before = 0; after = 0 }); item_at h.head

unfoldable pub list_last : ListPtr → Cmd Item
list_last none = pure 0
list_last (some l) = do
  h ← get_list l
  if h.count == 0
      then pure 0
      else do put_list l (record h { curr = h.tail; before = 0 }); item_at h.tail

unfoldable pub list_next : ListPtr → Cmd Item
list_next none = pure 0
list_next (some l) = do
  h ← get_list l
  if h.after == 1 then pure 0 else do
    n ← get_node h.curr
    if is_none n.next
        then (do put_list l (record h { curr = n.next; after = 1; before = 0 }); pure 0)
        else (do put_list l (record h { curr = n.next }); item_at n.next)

unfoldable pub list_prev : ListPtr → Cmd Item
list_prev none = pure 0
list_prev (some l) = do
  h ← get_list l
  if h.before == 1 then pure 0 else do
    n ← get_node h.curr
    if is_none n.prev
        then (do put_list l (record h { curr = n.prev; before = 1; after = 0 }); pure 0)
        else (do put_list l (record h { curr = n.prev }); item_at n.prev)

unfoldable pub list_curr : ListPtr → Cmd Item
list_curr none = pure 0
list_curr (some l) = do h ← get_list l; if is_none h.curr then pure 0 else item_at h.curr
