-- ===== src/ListLib/Cursor.antt =====
-- The cursor of a list: `ListCount`, `ListFirst`, `ListLast`, `ListCurr` and `ListNext`.
pub mod Walk
use native.Mathlib.Decide.{ℕ_discrete}
use listlib_and_system_calls.Common.{
  ℕ, zero, suc, ◌+◌, ◌<◌, ◌≡◌, refl, ◌≢◌, sym, ◌∙◌, subst, ap, true, false, Option, none, some,
  List, [], ◌∷◌, ◌++◌, arith, ◌==◌, has, length, get_elem?, ne→==, inl, inr, ltb, List-cases,
  Option-cases,
}
use listlib_and_system_calls.ListLib.Pool.{
  Idx, Item, Node, ListHead, Pool, Cmd, pure, ◌>>=◌, max_lists, max_nodes, update,
}
use listlib_and_system_calls.ListLib.Steps.{steps, with_list, update_ne, update_self}
use listlib_and_system_calls.ListLib.Chain.{
  items, Linked, Linked-head, Linked-last, Within, lt_of_has, length-items,
}
use listlib_and_system_calls.ListLib.Shape.{IsList, IsPool}
use listlib_and_system_calls.ListLib.Movers.{
  list_count, list_first, list_last, list_curr, list_next,
}
use listlib_and_system_calls.ListLib.Views.{nil_head, cons_view, cons_count}
use listlib_and_system_calls.ListLib.Spec.{Contents, Holds, Ensures}

-- A head that differs in the cursor only.
record SameList (g h : ListHead) : Type 0 where
  head : g.head ≡ h.head
  tail : g.tail ≡ h.tail
  count : g.count ≡ h.count

IsList-moved :
    (ns : ℕ → Node) (own : ℕ → ℕ) (o : ℕ) (h g : ListHead) (xs : List ℕ)
    → IsList ns own o h xs
    → SameList g h
    → Within xs g.curr
    → IsList ns own o g xs
IsList-moved ns own o h g xs v same c = record {
  linked = rw (same.head, same.tail) v.linked;
  owned = v.owned;
  counted = same.count ∙ v.counted;
  cursor = c;
  inner = v.inner;
}

module _ (p : Pool) (vs : Contents) (h : Holds vs p) (l : ℕ) (here : l < max_lists) where
  Holds-moved :
      (g : ListHead)
      → SameList g (p.lists l)
      → Within (h.chains l) g.curr
      → Holds vs (with_list p l g)
  Holds-moved g same c = record {
    own = h.own;
    chains = h.chains;
    free = h.free;
    shape = record {
      list = λ k small. elim (ℕ_discrete l k) [
        | yes e ↦
            subst (λ j. IsList p.nodes h.own j (update p.lists l g j) (h.chains j)) e
              (rw (update_self p.lists l) (
                IsList-moved p.nodes h.own l (p.lists l) g (h.chains l) (h.shape.list l here) same
                  c))
        | no ne ↦ rw (update_ne p.lists l k g ne) (h.shape.list k small)
      ];
      free = h.shape.free;
      free_owned = h.shape.free_owned;
      total = h.shape.total;
    };
    values = h.values;
  }

  -- `ListCount` returns the length of the sequence, and changes nothing.
  pub list_count_lem : list_count (some l) p ≡ some (some (length (vs l)), p)
  unfolding list_count
  list_count_lem =
      let e : (p.lists l).count ≡ length (vs l) =
        rw ((h.shape.list l here).counted, ← h.values l here)
          (sym (length-items p.nodes (h.chains l))) in
      simp (steps, here, e)

-- The cursor of list `l` stands at position `k`, and the list is not behind its last item.
abbrev pub At : (p : Pool) (vs : Contents) → Holds vs p → ℕ → ℕ → Type 0
At p vs h l k =
    ((p.lists l).curr ≡ get_elem? (h.chains l) k) × (k < length (vs l)) × ((p.lists l).after ≡ 0)

get_elem?-items :
    (ns : ℕ → Node) (xs : List ℕ) (k a : ℕ)
    → get_elem? xs k ≡ some a
    → get_elem? (items ns xs) k ≡ some (ns a).item
unfolding items
get_elem?-items ns [] k a e = cc
get_elem?-items ns (x ∷ r) zero a e = ground arith
get_elem?-items ns (x ∷ r) (suc k) a e = get_elem?-items ns r k a e

get_elem?_lt :
    (xs : List ℕ) (k : ℕ) → k < length xs → (a : ℕ) × (get_elem? xs k ≡ some a) × (has a xs ≡ true)
get_elem?_lt [] k h = absurd (omega arith)
get_elem?_lt (x ∷ r) zero h = (x, refl, ground arith)
get_elem?_lt (x ∷ r) (suc k) h =
    let (a, e, m) = get_elem?_lt r k (omega arith) in (a, e, ground arith)

-- Along a chain, `next` is the next node.
pub Linked-next :
    (ns : ℕ → Node) (h t : Idx) (xs : List ℕ) (k a b : ℕ)
    → Linked ns h xs t
    → get_elem? xs k ≡ some a
    → get_elem? xs (suc k) ≡ some b
    → (ns a).next ≡ some b
Linked-next ns h t [] k a b l e f = cc
Linked-next ns h t (x ∷ []) k a b l e f = cc
Linked-next ns h t (x ∷ y ∷ r) zero a b l e f = ground (arith, Linked-head ns (ns x).next t y r l.1)
Linked-next ns h t (x ∷ y ∷ r) (suc k) a b l e f =
    Linked-next ns (ns x).next t (y ∷ r) k a b l.1 e f
