-- ===== src/ListLib/Adders.antt =====
-- list_adders.c: the node allocator and the four functions that add an item. The calls of
-- `printf` are left out.
use mathlib.Core.Bool.{◌||◌}
use listlib_and_system_calls.Common.{ℕ, ◌+◌, Bool, true, false, none, some, ◌==◌, if◌then◌else◌}
use listlib_and_system_calls.ListLib.Pool.{
  Idx, Item, CInt, ListPtr, Cmd, pure, ◌>>=◌, ◌>>◌, get_node, get_list, put_list, set_item,
  set_next, set_prev, set_link, get_pool, set_free_node_head,
}

-- Equality of two indices, `list->head == list->curr`.
abbrev pub idx_eq : Idx → Idx → Bool
idx_eq none none = true
idx_eq none (some j) = false
idx_eq (some i) none = false
idx_eq (some i) (some j) = i == j

abbrev pub is_none : Idx → Bool
is_none none = true
is_none (some i) = false

-- What `nodeAllocator` does once the free list is known to have a node.
abbrev pub take_node : Idx → Cmd Idx
take_node i = do
  n ← get_node i
  set_free_node_head n.link
  set_link i none
  set_next i none
  set_prev i none
  pure i

unfoldable pub node_allocator : Cmd Idx
node_allocator = do
  p ← get_pool
  if is_none p.free_node_head then pure none else take_node p.free_node_head

-- The lines of `ListAppend` and `ListPrepend` that set up an empty list.
unfoldable pub start_list : ℕ → Idx → Cmd (Unit {0})
start_list l new = do
  h ← get_list l
  if h.count == 0
      then put_list l (record h { head = new; tail = new; curr = new; before = 0; after = 0 })
      else pure tt

-- `ListAppend` behind the allocation.
unfoldable pub append_node : ℕ → Idx → Item → Cmd CInt
append_node l new item = do
  set_item new item
  start_list l new
  h ← get_list l
  set_prev new h.curr
  set_next h.tail new
  put_list l (record h { tail = new; count = h.count + 1; curr = new; before = 0; after = 0 })
  pure (some 0)

unfoldable pub list_append : ListPtr → Item → Cmd CInt
list_append none item = pure none
list_append (some l) item =
    if item == 0
    then pure none
    else do new ← node_allocator; if is_none new then pure none else append_node l new item

-- `ListPrepend` behind the allocation.
unfoldable pub prepend_node : ℕ → Idx → Item → Cmd CInt
prepend_node l new item = do
  set_item new item
  start_list l new
  set_item new item
  h ← get_list l
  set_next new h.head
  set_prev new none
  set_prev h.head new
  put_list l (record h { head = new; curr = new; count = h.count + 1 })
  pure (some 0)

unfoldable pub list_prepend : ListPtr → Item → Cmd CInt
list_prepend none item = pure none
list_prepend (some l) item =
    if item == 0
    then pure none
    else do new ← node_allocator; if is_none new then pure none else prepend_node l new item

-- `ListAdd` behind the allocation, for a current node.
unfoldable pub add_node : ℕ → Idx → Item → Cmd CInt
add_node l new item = do
  h ← get_list l
  set_prev new h.curr
  set_item new item
  c ← get_node h.curr
  set_next new c.next
  d ← get_node h.curr
  (if is_none d.next then pure tt else set_prev d.next new)
  set_next h.curr new
  put_list l (record h { count = h.count + 1 })
  pure (some 0)

unfoldable pub list_add : ListPtr → Item → Cmd CInt
list_add none item = pure none
list_add (some l) item = if item == 0 then pure none else do
  h ← get_list l
  if h.count == 0 || h.after == 1 || is_none h.curr
      then list_append (some l) item
      else if h.before == 1
      then list_prepend (some l) item
      else do new ← node_allocator; if is_none new then pure none else add_node l new item

-- `ListInsert` behind the allocation.
unfoldable pub insert_node : ℕ → Idx → Item → Cmd CInt
insert_node l new item = do
  h ← get_list l
  set_item new item
  set_next new h.curr
  c ← get_node h.curr
  set_prev new c.prev
  d ← get_node h.curr
  (if is_none d.prev then pure tt else set_next d.prev new)
  set_prev h.curr new
  put_list l (record h {
    head = if idx_eq h.head h.curr then new else h.head;
    curr = new;
    count = h.count + 1;
  })
  pure (some 0)

unfoldable pub list_insert : ListPtr → Item → Cmd CInt
list_insert none item = pure none
list_insert (some l) item = if item == 0 then pure none else do
  h ← get_list l
  if h.count == 0
      then list_append (some l) item
      else if h.before == 1
      then list_prepend (some l) item
      else if h.after == 1
      then list_append (some l) item
      else do new ← node_allocator; if is_none new then pure none else insert_node l new item
