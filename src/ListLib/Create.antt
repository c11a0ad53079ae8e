-- ===== src/ListLib/Create.antt =====
-- `ListCreate` sets up the pools once, and hands out the two lists.
use listlib_and_system_calls.Common.{ℕ, zero, suc, ◌<◌, ◌≡◌, refl, none, some, List, [], ◌∷◌, arith}
use listlib_and_system_calls.ListLib.Pool.{
  ListHead, Pool, ListPtr, max_lists, update, Cmd, pure, ◌>>=◌, put_node, put_list, get_list,
  set_link, get_node, put_node,
}
use listlib_and_system_calls.ListLib.Chain.{FreeChain, items}
use listlib_and_system_calls.ListLib.Spec.{Ensures, Ensures-mono, Holds}
use listlib_and_system_calls.ListLib.Removers.{
  init_nodes, init_lists, init_pools, take_list, list_create,
}

-- Every node, in the order of the free list that `ListCreate` makes.
abbrev pub all_nodes : List ℕ
all_nodes = 0 ∷ 1 ∷ 2 ∷ 3 ∷ 4 ∷ 5 ∷ 6 ∷ 7 ∷ 8 ∷ 9 ∷ []

abbrev pub empty_list : ListPtr → ListHead
empty_list k = record {
  head = none;
  tail = none;
  curr = none;
  count = 0;
  before = 1;
  after = 0;
  link = k;
}

-- Pools with two empty lists and all nodes free.
pub record IsFresh (p : Pool) : Type 0 where
  pub chain : FreeChain p.nodes p.free_node_head all_nodes
  pub heads : (p.lists 0 ≡ empty_list none) × (p.lists 1 ≡ empty_list none)

two_heads :
    (p : Pool)
    → (p.lists 0 ≡ empty_list none) × (p.lists 1 ≡ empty_list none)
    → (l : ℕ) → l < max_lists
    → p.lists l ≡ empty_list none
two_heads p h zero small = h.0
two_heads p h (suc zero) small = h.1
two_heads p h (suc (suc l)) small = absurd (omega arith)

pub IsFresh-Holds : (p : Pool) → IsFresh p → Holds (λ _. []) p
unfolding items
IsFresh-Holds p f = record {
  own = λ _. max_lists;
  chains = λ _. [];
  free = all_nodes;
  shape = record {
    list = λ l small. rw (two_heads p f.heads l small) (record {
      linked = (refl, refl);
      owned = tt;
      counted = refl;
      cursor = tt;
      inner = λ a h. cc;
    });
    free = f.chain;
    free_owned = ground arith;
    total = refl;
  };
  values = λ l small. refl;
}

-- The first three calls of a program.
abbrev pub create_thrice : Cmd (ListPtr × ListPtr × ListPtr)
create_thrice = do a ← list_create; b ← list_create; c ← list_create; pure (a, b, c)

thrice-IsFresh :
    (p : Pool)
    → p.initialized ≡ 0
    → p.free_list_head ≡ some 0
    → p.free_node_head ≡ some 0
    → Ensures (λ r q. (r ≡ (some 0, some 1, none)) × IsFresh q) (create_thrice p)
unfolding list_create init_pools init_nodes init_lists take_list put_node put_list get_list get_node
    set_link update
thrice-IsFresh p e1 e2 e3 =
    rw (e1, e2)
      (
        refl,
        record {
          chain =
              (e3, (refl, (refl, (refl, (refl, (refl, (refl, (refl, (refl, (refl, refl))))))))));
          heads = (refl, refl);
        },
      )

-- At the start of a program, with the static variables as they are declared, three calls of
-- `ListCreate` return the first list, the second list and NULL, and make no access out of bounds. Then both lists
-- are empty and all ten nodes are free.
pub list_create-thrice :
    (p : Pool)
    → p.initialized ≡ 0
    → p.free_list_head ≡ some 0
    → p.free_node_head ≡ some 0
    → Ensures (λ r q. (r ≡ (some 0, some 1, none)) × Holds (λ _. []) q) (create_thrice p)
list_create-thrice p e1 e2 e3 =
    Ensures-mono (create_thrice p) (thrice-IsFresh p e1 e2 e3) λ r q h. (h.0, IsFresh-Holds q h.1)
