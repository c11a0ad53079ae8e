-- ===== src/ListLib/Loop.antt =====
-- The first node of a list that `ListAppend` starts is its own neighbour.
use listlib_and_system_calls.Common.{
  ℕ, zero, suc, ◌<◌, ◌≡◌, refl, ◌≢◌, true, some, [], inl, inr, List-cases, replicate, subst,
}
use listlib_and_system_calls.ListLib.Pool.{Item, Pool, ◌>>=◌, max_lists, max_nodes}
use listlib_and_system_calls.ListLib.Steps.{update_self, with_list}
use listlib_and_system_calls.ListLib.Shape.{IsPool}
use listlib_and_system_calls.ListLib.Adders.{list_append}
use listlib_and_system_calls.ListLib.Append.{list_append-first, appended_first}
use listlib_and_system_calls.ListLib.Cursor.Walk.{next-eq, next_items}
use listlib_and_system_calls.ListLib.Refine.{room-full}
use listlib_and_system_calls.ListLib.Views.{nil_head}
use listlib_and_system_calls.ListLib.Spec.{Contents, Holds, Ensures, Ensures-bind, room}

-- The cursor stands on a node that is its own `next`.
record Loops (l i : ℕ) (x : Item) (p : Pool) : Type 0 where
  curr : (p.lists l).curr ≡ some i
  after : (p.lists l).after ≡ 0
  next : (p.nodes i).next ≡ some i
  item : (p.nodes i).item ≡ x

Loops-next :
    (n : ℕ) (p : Pool) (l i : ℕ) (x : Item)
    → l < max_lists
    → i < max_nodes
    → Loops l i x p
    → Ensures (λ ws q. ws ≡ replicate n x) (next_items n (some l) p)
Loops-next zero p l i x here small s = refl
Loops-next (suc n) p l i x here small s =
    rw (next-eq p l i i here small small s.curr s.after s.next) (
      Ensures-bind (λ ws q. ws ≡ replicate n x) (λ ws q. ws ≡ replicate (suc n) x) _ _
        (Loops-next n (with_list p l (record (p.lists l) { curr = some i })) l i x here small
          record {
            curr = rw (update_self p.lists l);
            after = rw (update_self p.lists l) s.after;
            next = s.next;
            item = s.item;
          })
        λ ws q e. rw (e, s.item))

-- On pools of the right shape with a free node, after `ListAppend` to an empty list every further call of `ListNext`
-- returns the same item again, however often it is called: the walk never reaches the end of the list.
pub append_then_next :
    (p : Pool) (vs : Contents) (l : ℕ) (x : Item) (n : ℕ)
    → Holds vs p
    → l < max_lists
    → x ≢ 0
    → vs l ≡ []
    → room vs ≡ true
    → Ensures
        (λ ws q. ws ≡ replicate n x)
        ((list_append (some l) x >>= λ _. next_items n (some l)) p)
append_then_next p vs l x n h here real e some_room = elim (List-cases h.free) [
  | inl none_free ↦
      let full =
        room-full h.own h.chains [] p vs
          (subst (λ fs. IsPool h.own h.chains fs p) none_free h.shape) h.values refl in
      cc
  | inr (i, fs, f) ↦
      let v = subst (λ fs. IsPool h.own h.chains fs p) f h.shape in
      let at = update_self p.lists l in
      rw (list_append-first p l i x here v.free_owned.1 real v.free.0 (nil_head p vs h l here e).0)
        (Loops-next n (appended_first p l i x) l i x here v.free_owned.1 record {
          curr = rw at;
          after = rw at;
          next = rw (update_self p.nodes i);
          item = rw (update_self p.nodes i);
        })
]
