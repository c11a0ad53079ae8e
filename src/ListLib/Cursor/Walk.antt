-- ===== src/ListLib/Cursor/Walk.antt =====
-- `ListFirst` and repeated calls of `ListNext` go through the items of a list in order.
use listlib_and_system_calls.Common.{
  ℕ, zero, suc, ◌+◌, ◌-◌, ◌<◌, ◌≡◌, refl, ◌≢◌, sym, ◌∙◌, ap, true, false, some, List, [], ◌∷◌,
  arith, ◌==◌, has, length, get_elem?, drop, drop-get_elem?, drop-length,
}
use listlib_and_system_calls.ListLib.Pool.{
  Idx, Node, Item, ListPtr, Pool, Cmd, pure, ◌>>=◌, max_lists, max_nodes,
}
use listlib_and_system_calls.ListLib.Steps.{steps, with_list, update_self}
use listlib_and_system_calls.ListLib.Chain.{Linked, Linked-head, lt_of_has, length-items}
use listlib_and_system_calls.ListLib.Movers.{list_first, list_curr, list_next}
use listlib_and_system_calls.ListLib.Views.{cons_count}
use listlib_and_system_calls.ListLib.Cursor.{
  At, Holds-moved, get_elem?-items, get_elem?_lt, Linked-next,
}
use listlib_and_system_calls.ListLib.Spec.{Contents, Holds, Ensures, Ensures-bind}

Linked-first :
    (ns : ℕ → Node) (h t : Idx) (xs : List ℕ) (a : ℕ)
    → Linked ns h xs t
    → get_elem? xs 0 ≡ some a
    → h ≡ some a
Linked-first ns h t [] a l e = cc
Linked-first ns h t (x ∷ r) a l e = ground (arith, Linked-head ns h t x r l)

first-eq :
    (p : Pool) (l a : ℕ)
    → l < max_lists
    → a < max_nodes
    → ((p.lists l).count == 0) ≡ false
    → (p.lists l).head ≡ some a
    → list_first (some l) p
      ≡ some (
        (p.nodes a).item,
        with_list p l (record (p.lists l) { curr = (p.lists l).head; before = 0; after = 0 }),
      )
unfolding list_first
first-eq p l a here small c hd = simp (steps, here, small, c, hd)

pub next-eq :
    (p : Pool) (l a b : ℕ)
    → l < max_lists
    → a < max_nodes
    → b < max_nodes
    → (p.lists l).curr ≡ some a
    → (p.lists l).after ≡ 0
    → (p.nodes a).next ≡ some b
    → list_next (some l) p
      ≡ some ((p.nodes b).item, with_list p l (record (p.lists l) { curr = some b }))
unfolding list_next
next-eq p l a b here small small' c e nx = simp (steps, here, small, small', c, e, nx)

module _ (p : Pool) (vs : Contents) (h : Holds vs p) (l : ℕ) (here : l < max_lists) where
  -- The node and the item at a position.
  pub at_position :
      (k : ℕ)
      → k < length (vs l)
      → (a : ℕ) × (get_elem? (h.chains l) k ≡ some a)
        × (has a (h.chains l) ≡ true)
        × (a < max_nodes)
        × (get_elem? (vs l) k ≡ some (p.nodes a).item)
  at_position k small =
      let e : length (vs l) ≡ length (h.chains l) =
        rw (← h.values l here) (length-items p.nodes (h.chains l)) in
      let (a, g, m) = get_elem?_lt (h.chains l) k (omega arith) in
      (
        a,
        g,
        m,
        lt_of_has h.own l a (h.chains l) (h.shape.list l here).owned m,
        rw (← h.values l here) (get_elem?-items p.nodes (h.chains l) k a g),
      )

  nonempty : 0 < length (vs l) → vs l ≢ []
  nonempty small e = absurd (omega (arith, ap length e))

  -- `ListFirst` of a list with items returns the first and puts the cursor there.
  pub list_first_lem :
      0 < length (vs l)
      → Ensures
          (λ v q. (get_elem? (vs l) 0 ≡ some v) × (g : Holds vs q) × At q vs g l 0)
          (list_first (some l) p)
  unfolding Holds-moved
  list_first_lem some_item =
      let (a, e, m, small, it) = at_position 0 some_item in
      let hd : (p.lists l).head ≡ some a =
        Linked-first p.nodes (p.lists l).head (p.lists l).tail (h.chains l) a
          (h.shape.list l here).linked e in
      rw (first-eq p l a here small (cons_count p vs h l here (nonempty some_item)) hd) (
        it,
        Holds-moved p vs h l here _ (record { head = refl; tail = refl; count = refl }) (rw hd m),
        (rw (update_self p.lists l) (hd ∙ sym e), some_item, rw (update_self p.lists l)),
      )

  -- In the middle of a list `ListNext` returns the next item and moves the cursor by one.
  pub list_next_lem :
      (k : ℕ)
      → At p vs h l k
      → suc k < length (vs l)
      → Ensures
          (λ v q. (get_elem? (vs l) (suc k) ≡ some v) × (g : Holds vs q) × At q vs g l (suc k))
          (list_next (some l) p)
  unfolding Holds-moved
  list_next_lem k at more =
      let (a, e, m, small, it) = at_position k at.1 in
      let (b, e', m', small', it') = at_position (suc k) more in
      let nx : (p.nodes a).next ≡ some b =
        Linked-next p.nodes (p.lists l).head (p.lists l).tail (h.chains l) k a b
          (h.shape.list l here).linked e e' in
      rw (next-eq p l a b here small small' (at.0 ∙ e) at.2 nx) (
        it',
        Holds-moved p vs h l here _ (record { head = refl; tail = refl; count = refl }) m',
        (rw (update_self p.lists l) (sym e'), more, rw (update_self p.lists l) at.2),
      )

  -- At a position `ListCurr` returns its item and changes nothing.
  pub list_curr_lem :
      (k : ℕ)
      → At p vs h l k
      → (v : Item) × (get_elem? (vs l) k ≡ some v) × (list_curr (some l) p ≡ some (v, p))
  unfolding list_curr
  list_curr_lem k at =
      let (a, e, m, small, it) = at_position k at.1 in
      let c : (p.lists l).curr ≡ some a = at.0 ∙ e in
      ((p.nodes a).item, it, simp (steps, here, small, c))

-- `ListNext`, a number of times.
abbrev pub next_items : ℕ → ListPtr → Cmd (List Item)
next_items zero l = pure []
next_items (suc n) l = do v ← list_next l; r ← next_items n l; pure (v ∷ r)

-- A loop of a client over a list: `ListFirst`, then `ListNext` as often as there are further items.
abbrev pub all_items : ℕ → ListPtr → Cmd (List Item)
all_items n l = do v ← list_first l; r ← next_items n l; pure (v ∷ r)

-- What the rest of a walk from position `k` gives.
abbrev Walked : Contents → ℕ → ℕ → List Item → Pool → Type 0
Walked vs l k ws q = (ws ≡ drop (suc k) (vs l)) × Holds vs q

next_items_lem :
    (n k : ℕ) (p : Pool) (vs : Contents) (l : ℕ) (h : Holds vs p)
    → l < max_lists
    → At p vs h l k
    → length (vs l) ≡ suc (k + n)
    → Ensures (Walked vs l k) (next_items n (some l) p)
next_items_lem zero k p vs l h here at len = (sym (drop-length (suc k) (vs l) (omega arith)), h)
next_items_lem (suc n) k p vs l h here at len =
    Ensures-bind
      (λ v q. (get_elem? (vs l) (suc k) ≡ some v) × (g : Holds vs q) × At q vs g l (suc k))
      (Walked vs l k) (list_next (some l) p) _ (list_next_lem p vs h l here k at (omega arith))
      λ v q (e, g, at').
        Ensures-bind (Walked vs l (suc k)) (Walked vs l k) (next_items n (some l) q) _
          (next_items_lem n (suc k) q vs l g here at' (omega arith))
          λ ws q' (f, g'). (rw f (sym (drop-get_elem? (suc k) v (vs l) e)), g')

-- On pools of the right shape and for a list with items, `ListFirst` and then `ListNext` as often as there are further items
-- return the items of the list in order, make no access out of bounds, and keep both sequences.
pub all_items_lem :
    (p : Pool) (vs : Contents) (l : ℕ)
    → Holds vs p
    → l < max_lists
    → 0 < length (vs l)
    → Ensures (λ ws q. (ws ≡ vs l) × Holds vs q) (all_items (length (vs l) - 1) (some l) p)
all_items_lem p vs l h here some_item =
    Ensures-bind (λ v q. (get_elem? (vs l) 0 ≡ some v) × (g : Holds vs q) × At q vs g l 0)
      (λ ws q. (ws ≡ vs l) × Holds vs q) (list_first (some l) p) _
      (list_first_lem p vs h l here some_item)
      λ v q (e, g, at).
        Ensures-bind (Walked vs l 0) (λ ws q. (ws ≡ vs l) × Holds vs q)
          (next_items (length (vs l) - 1) (some l) q) _
          (next_items_lem (length (vs l) - 1) 0 q vs l g here at (omega arith))
          λ ws q' (f, g'). (rw f (sym (drop-get_elem? 0 v (vs l) e)), g')
