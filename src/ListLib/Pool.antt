-- ===== src/ListLib/Pool.antt =====
-- list.h: the two static pools, their nodes and lists, and the reads and writes of the C code.
unfoldable pub use listlib_and_system_calls.Common.{update}
use listlib_and_system_calls.Common.{ℕ, Option, none, some, ltb, if◌then◌else◌}

-- An `int` index into a pool. The library stores -1 and indices only: `none` is -1.
abbrev pub Idx : Type 0
Idx = Option ℕ

-- A `void *` item; 0 is NULL. The library moves items and never looks into them, but for logging.
abbrev pub Item : Type 0
Item = ℕ

abbrev pub max_lists : ℕ
max_lists = 2

abbrev pub max_nodes : ℕ
max_nodes = 10

-- `struct Node`
pub record Node : Type 0 where
  pub item : Item
  pub next : Idx
  pub prev : Idx
  pub link : Idx

-- `struct LIST`; `before` and `after` are `int` flags.
pub record ListHead : Type 0 where
  pub head : Idx
  pub tail : Idx
  pub curr : Idx
  pub count : ℕ
  pub before : ℕ
  pub after : ℕ
  pub link : Idx

-- The global variables.
pub record Pool : Type 0 where
  pub nodes : ℕ → Node
  pub lists : ℕ → ListHead
  pub free_node_head : Idx
  pub free_list_head : Idx
  pub initialized : ℕ

-- `none` is an access outside of a pool, such as `pool_nodes[-1]`.
abbrev pub Cmd : Type 0 → Type 0
Cmd A = Pool → Option (A × Pool)

abbrev pub pure : {A : Type 0} → A → Cmd A
pure a p = some (a, p)

module _ {A B : Type 0} where
  abbrev pub and_then : Option (A × Pool) → (A → Cmd B) → Option (B × Pool)
  and_then none k = none
  and_then (some (a, p)) k = k a p

  infixl 5 ◌>>=◌ ◌>>◌
  abbrev pub ◌>>=◌ : Cmd A → (A → Cmd B) → Cmd B
  (m >>= k) p = and_then (m p) k

  abbrev pub ◌>>◌ : Cmd A → Cmd B → Cmd B
  m >> n = m >>= λ _. n

-- `pool_nodes[i]` as a value.
unfoldable pub get_node : Idx → Cmd Node
get_node none p = none
get_node (some i) p = if ltb i max_nodes then some (p.nodes i, p) else none

-- `pool_nodes[i] = n`
unfoldable pub put_node : Idx → Node → Cmd (Unit {0})
unfolding update
put_node none n p = none
put_node (some i) n p =
    if ltb i max_nodes then some (tt, record p { nodes = update p.nodes i n }) else none

-- `*list`, for a pointer into `pool_lists`
unfoldable pub get_list : ℕ → Cmd ListHead
get_list l p = if ltb l max_lists then some (p.lists l, p) else none

unfoldable pub put_list : ℕ → ListHead → Cmd (Unit {0})
unfolding update
put_list l v p =
    if ltb l max_lists then some (tt, record p { lists = update p.lists l v }) else none

-- `pool_nodes[i].item = x`, and so for the other fields.
unfoldable pub set_item : Idx → Item → Cmd (Unit {0})
unfolding get_node put_node
set_item i x = do n ← get_node i; put_node i (record n { item = x })

unfoldable pub set_next : Idx → Idx → Cmd (Unit {0})
unfolding get_node put_node
set_next i x = do n ← get_node i; put_node i (record n { next = x })

unfoldable pub set_prev : Idx → Idx → Cmd (Unit {0})
unfolding get_node put_node
set_prev i x = do n ← get_node i; put_node i (record n { prev = x })

unfoldable pub set_link : Idx → Idx → Cmd (Unit {0})
unfolding get_node put_node
set_link i x = do n ← get_node i; put_node i (record n { link = x })

-- The globals `free_node_head`, `free_list_head` and `initialized`.
abbrev pub get_pool : Cmd Pool
get_pool p = some (p, p)

abbrev pub set_free_node_head : Idx → Cmd (Unit {0})
set_free_node_head i p = some (tt, record p { free_node_head = i })

abbrev pub set_free_list_head : Idx → Cmd (Unit {0})
set_free_list_head i p = some (tt, record p { free_list_head = i })

abbrev pub set_initialized : ℕ → Cmd (Unit {0})
set_initialized b p = some (tt, record p { initialized = b })

-- An `int` that is -1 (`none`) or not negative: a status or a count.
abbrev pub CInt : Type 0
CInt = Option ℕ

-- A `LIST *`: NULL, or a pointer to an entry of `pool_lists`.
abbrev pub ListPtr : Type 0
ListPtr = Option ℕ
