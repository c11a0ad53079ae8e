-- ===== src/ListLib/Removers.antt =====
-- list_removers.c: the pools are set up, a list is taken from its pool, two lists are joined.
-- `ListRemove`, `ListFree` and `ListTrim` are stubs in this phase of the library. The calls of
-- `printf` are left out.
use listlib_and_system_calls.Common.{ℕ, zero, suc, ◌+◌, none, some, ◌==◌, if◌then◌else◌}
use listlib_and_system_calls.ListLib.Pool.{
  Item, ListPtr, Cmd, pure, ◌>>=◌, ◌>>◌, max_lists, max_nodes, put_node, get_list, put_list,
  set_link, set_next, set_prev, get_pool, set_free_list_head, set_initialized,
}

-- The loop `for (i = 0; i < MAX_NODES; i++)`, with the rounds that are left.
unfoldable pub init_nodes : ℕ → ℕ → Cmd (Unit {0})
init_nodes zero i = pure tt
init_nodes (suc rounds) i = do
  put_node (some i) (record { item = 0; next = none; prev = none; link = some (i + 1) })
  init_nodes rounds (i + 1)

-- The loop `for (i = 0; i < MAX_LISTS; i++)`.
unfoldable pub init_lists : ℕ → ℕ → Cmd (Unit {0})
init_lists zero i = pure tt
init_lists (suc rounds) i = do
  put_list i (record {
    head = none;
    tail = none;
    curr = none;
    count = 0;
    before = 1;
    after = 0;
    link = some (i + 1);
  })
  init_lists rounds (i + 1)

-- The block of `ListCreate` that runs once.
unfoldable pub init_pools : Cmd (Unit {0})
init_pools = do
  init_nodes max_nodes 0
  set_link (some 9) none
  init_lists max_lists 0
  h ← get_list 1
  put_list 1 (record h { link = none })
  set_initialized 1

-- A list off the free list.
unfoldable pub take_list : Cmd ListPtr
take_list = do
  p ← get_pool
  elim p.free_list_head [
    | none ↦ pure none
    | some l ↦ do
      h ← get_list l
      set_free_list_head h.link
      put_list l (record h { link = none })
      pure (some l)
  ]

unfoldable pub list_create : Cmd ListPtr
list_create = do p ← get_pool; (if p.initialized == 0 then init_pools else pure tt); take_list

unfoldable pub list_remove : ListPtr → Cmd Item
list_remove list = pure 0

unfoldable pub list_concat : ListPtr → ListPtr → Cmd (Unit {0})
list_concat none list2 = pure tt
list_concat (some l) none = pure tt
list_concat (some l) (some m) = do
  h2 ← get_list m
  if h2.count == 0 then pure tt else do
    h1 ← get_list l
    set_next h1.tail h2.head
    set_prev h2.head h1.tail
    put_list l (record h1 { tail = h2.tail; count = h1.count + h2.count })
    g2 ← get_list m
    put_list m
        (record g2 { head = none; tail = none; curr = none; count = 0; before = 1; after = 0 })

unfoldable pub list_free : ListPtr → Cmd (Unit {0})
list_free list = pure tt

unfoldable pub list_trim : ListPtr → Cmd Item
list_trim list = pure 0
