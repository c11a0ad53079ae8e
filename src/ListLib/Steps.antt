-- ===== src/ListLib/Steps.antt =====
-- One equation for each read and write of a pool, at an index in range.
pub use listlib_and_system_calls.Common.{
  update_self, update-update, update_ne, update_comm, update-if,
}
use listlib_and_system_calls.Common.{
  ℕ, ◌<◌, ◌≡◌, refl, none, some, arith, ◌==◌, fun_ext, lt→ltb, ==-refl, ◌≢◌, if◌then◌else◌,
}
use listlib_and_system_calls.ListLib.Pool.{
  Idx, Item, Node, ListHead, Pool, max_lists, max_nodes, update, get_node, put_node, get_list,
  put_list, set_item, set_next, set_prev, set_link,
}

abbrev pub with_nodes : Pool → (ℕ → Node) → Pool
with_nodes p ns = record p { nodes = ns }

abbrev pub with_list : Pool → ℕ → ListHead → Pool
with_list p l h = record p { lists = update p.lists l h }

module _ (p : Pool) (i : ℕ) (small : i < max_nodes) where
  pub get_node-eq : get_node (some i) p ≡ some (p.nodes i, p)
  unfolding get_node
  get_node-eq = rw (lt→ltb i 10 small)

  pub put_node-eq :
      (n : Node) → put_node (some i) n p ≡ some (tt, with_nodes p (update p.nodes i n))
  unfolding put_node
  put_node-eq n = rw (lt→ltb i 10 small)

  pub set_item-eq :
      (x : Item)
      → set_item (some i) x p
        ≡ some (tt, with_nodes p (update p.nodes i (record (p.nodes i) { item = x })))
  unfolding set_item get_node put_node
  set_item-eq x = rw (lt→ltb i 10 small) (rw (lt→ltb i 10 small))

  pub set_next-eq :
      (x : Idx)
      → set_next (some i) x p
        ≡ some (tt, with_nodes p (update p.nodes i (record (p.nodes i) { next = x })))
  unfolding set_next get_node put_node
  set_next-eq x = rw (lt→ltb i 10 small) (rw (lt→ltb i 10 small))

  pub set_prev-eq :
      (x : Idx)
      → set_prev (some i) x p
        ≡ some (tt, with_nodes p (update p.nodes i (record (p.nodes i) { prev = x })))
  unfolding set_prev get_node put_node
  set_prev-eq x = rw (lt→ltb i 10 small) (rw (lt→ltb i 10 small))

  pub set_link-eq :
      (x : Idx)
      → set_link (some i) x p
        ≡ some (tt, with_nodes p (update p.nodes i (record (p.nodes i) { link = x })))
  unfolding set_link get_node put_node
  set_link-eq x = rw (lt→ltb i 10 small) (rw (lt→ltb i 10 small))

module _ (p : Pool) (l : ℕ) (small : l < max_lists) where
  pub get_list-eq : get_list l p ≡ some (p.lists l, p)
  unfolding get_list
  get_list-eq = rw (lt→ltb l 2 small)

  pub put_list-eq : (h : ListHead) → put_list l h p ≡ some (tt, with_list p l h)
  unfolding put_list
  put_list-eq h = rw (lt→ltb l 2 small)

-- At index -1.
pub get_node-none : (p : Pool) → get_node none p ≡ none
unfolding get_node
get_node-none p = refl

pub set_next-none : (x : Idx) (p : Pool) → set_next none x p ≡ none
unfolding set_next get_node
set_next-none x p = refl

pub set_prev-none : (x : Idx) (p : Pool) → set_prev none x p ≡ none
unfolding set_prev get_node
set_prev-none x p = refl

pub ruleset steps = (
  get_node-eq, put_node-eq, set_item-eq, set_next-eq, set_prev-eq, set_link-eq, get_list-eq,
  put_list-eq, update_self, update-update, get_node-none, set_next-none, set_prev-none,
)
