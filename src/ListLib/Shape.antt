-- ===== src/ListLib/Shape.antt =====
-- What the pools hold between two calls: each list is a chain of its own nodes, the other
-- nodes are free, and the cursor and the links of the nodes stay inside of their list.
use listlib_and_system_calls.Common.{ℕ, ◌+◌, ◌<◌, ◌≡◌, true, List, arith, has, length}
use listlib_and_system_calls.ListLib.Pool.{Node, ListHead, Pool, max_lists, max_nodes}
use listlib_and_system_calls.ListLib.Chain.{
  Linked, FreeChain, Owned, Within, own_of_has, Linked-frame, Owned-frame,
}

-- One list, with its nodes in order.
pub record IsList (ns : ℕ → Node) (own : ℕ → ℕ) (o : ℕ) (h : ListHead) (xs : List ℕ) : Type 0 where
  pub linked : Linked ns h.head xs h.tail
  pub owned : Owned own o xs
  pub counted : h.count ≡ length xs
  pub cursor : Within xs h.curr
  pub inner : (a : ℕ) → has a xs ≡ true → Within xs (ns a).next × Within xs (ns a).prev

-- The owner of the free nodes is `max_lists`.
pub record IsPool (own : ℕ → ℕ) (xs : ℕ → List ℕ) (fs : List ℕ) (p : Pool) : Type 0 where
  pub list : (l : ℕ) → l < max_lists → IsList p.nodes own l (p.lists l) (xs l)
  pub free : FreeChain p.nodes p.free_node_head fs
  pub free_owned : Owned own max_lists fs
  pub total : length (xs 0) + length (xs 1) + length fs ≡ max_nodes

-- A list survives what spares its nodes and its head.
pub IsList-frame :
    (ns ms : ℕ → Node) (own own' : ℕ → ℕ) (o : ℕ) (h : ListHead) (xs : List ℕ)
    → IsList ns own o h xs
    → ((a : ℕ) → own a ≡ o → (ms a ≡ ns a) × (own' a ≡ own a))
    → IsList ms own' o h xs
IsList-frame ns ms own own' o h xs v same = record {
  linked =
      Linked-frame ns ms h.head h.tail xs v.linked
        (λ a i. ground (arith, same a, own_of_has own o a xs));
  owned = Owned-frame own own' o xs v.owned (λ a i. ground (arith, same a, own_of_has own o a xs));
  counted = v.counted;
  cursor = v.cursor;
  inner = λ a i. let e = (same a (own_of_has own o a xs v.owned i)).0 in rw e (v.inner a i);
}
