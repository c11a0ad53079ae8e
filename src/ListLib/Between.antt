-- ===== src/ListLib/Between.antt =====
-- A node put between two neighbours of a list, as `ListAdd` and `ListInsert` do.
mod Calls
pub mod Refines
use native.Mathlib.Decide.{ℕ_discrete}
use listlib_and_system_calls.Common.{
  inl, inr, ◌∙◌, subst, Bool-cases, ℕ, zero, suc, ◌+◌, ◌<◌, ◌≤◌, ◌≡◌, refl, ◌≢◌, true, false, none,
  some, List, [], ◌∷◌, arith, ◌==◌, has, has-insert, length, length-insert, insert, get_elem?, ap,
  sym,
}
use listlib_and_system_calls.ListLib.Pool.{
  Idx, Item, Node, ListHead, Pool, max_lists, max_nodes, update,
}
use listlib_and_system_calls.ListLib.Steps.{update_ne, update_self}
use listlib_and_system_calls.ListLib.Chain.{
  Linked, Linked-frame, Linked-head, Owned, Owned-frame, items, Within, Within-mono, own_of_has,
  lt_of_has, not-has_of_own,
}
use listlib_and_system_calls.ListLib.Shape.{IsList, IsPool}

pub has-get_elem? : (xs : List ℕ) (k a : ℕ) → get_elem? xs k ≡ some a → has a xs ≡ true
has-get_elem? [] k a e = cc
has-get_elem? (x ∷ r) zero a e = ground arith
has-get_elem? (x ∷ r) (suc k) a e = ground (arith, has-get_elem? r k a)

-- Neighbours are distinct.
pub neighbours_ne :
    (own : ℕ → ℕ) (o : ℕ) (xs : List ℕ) (k a b : ℕ)
    → Owned own o xs
    → get_elem? xs k ≡ some a
    → get_elem? xs (suc k) ≡ some b
    → a ≢ b
neighbours_ne own o [] k a b w e f = cc
neighbours_ne own o (x ∷ []) k a b w e f = cc
neighbours_ne own o (x ∷ y ∷ r) zero a b w e f = ground arith
neighbours_ne own o (x ∷ y ∷ r) (suc k) a b w e f = neighbours_ne own o (y ∷ r) k a b w.3 e f

pub items-insert :
    (ns : ℕ → Node) (k i : ℕ) (xs : List ℕ)
    → items ns (insert k i xs) ≡ insert k (ns i).item (items ns xs)
unfolding items
items-insert ns zero i xs = refl
items-insert ns (suc k) i [] = refl
items-insert ns (suc k) i (x ∷ r) = rw (items-insert ns k i r)

Owned-insert :
    (own : ℕ → ℕ) (o k i : ℕ) (xs : List ℕ)
    → Owned own o xs
    → own i ≡ o
    → i < max_nodes
    → has i xs ≡ false
    → k ≤ length xs
    → Owned own o (insert k i xs)
Owned-insert own o zero i xs w e small out h = (e, small, out, w)
Owned-insert own o (suc k) i [] w e small out h = absurd (omega arith)
Owned-insert own o (suc k) i (x ∷ r) w e small out h =
    ground
      (arith, has-insert x k i r, Owned-insert own o k i r w.3 e small (ground arith) (omega arith))

-- The chain leads through the new node.
Linked-insert :
    (ns ms : ℕ → Node) (own : ℕ → ℕ) (o : ℕ) (h t : Idx) (xs : List ℕ) (k i c d : ℕ)
    → Owned own o xs
    → Linked ns h xs t
    → get_elem? xs k ≡ some c
    → get_elem? xs (suc k) ≡ some d
    → (ms c).next ≡ some i
    → (ms i).next ≡ some d
    → ((a : ℕ) → has a xs ≡ true → a ≢ c → (ms a).next ≡ (ns a).next)
    → Linked ms h (insert (suc k) i xs) t
Linked-insert ns ms own o h t [] k i c d w l e f hc hi same = cc
Linked-insert ns ms own o h t (x ∷ []) k i c d w l e f hc hi same = cc
Linked-insert ns ms own o h t (x ∷ y ∷ r) zero i c d w l e f hc hi same =
    let back = Linked-head ns (ns x).next t y r l.1 in
    let rest : Linked ms (ns x).next (y ∷ r) t =
      Linked-frame ns ms (ns x).next t (y ∷ r) l.1 (λ a m. ground (arith, same a)) in
    let tied : (ms i).next ≡ (ns x).next = ground (arith, back) in
    (l.0, (ground arith, rw tied rest))
Linked-insert ns ms own o h t (x ∷ y ∷ r) (suc k) i c d w l e f hc hi same =
    let inn : has c (y ∷ r) ≡ true = has-get_elem? (y ∷ r) k c e in
    let ne : x ≢ c = ground arith in
    let rest =
      Linked-insert ns ms own o (ns x).next t (y ∷ r) k i c d w.3 l.1 e f hc hi
        (λ a m. ground (arith, same a)) in
    (l.0, rw (same x (ground arith) ne) rest)

module _ (ns ms : ℕ → Node) (own : ℕ → ℕ) (l k i c d : ℕ) (h : ListHead) (xs : List ℕ)
    (v : IsList ns own l h xs) (stranger : own i ≢ l) (small : i < max_nodes)
    (at_c : get_elem? xs k ≡ some c) (at_d : get_elem? xs (suc k) ≡ some d)
    (room : suc k ≤ length xs) (fresh : ((ms i).next ≡ some d) × ((ms i).prev ≡ some c))
    (left : ((ms c).next ≡ some i) × ((ms c).prev ≡ (ns c).prev))
    (right : ((ms d).next ≡ (ns d).next) × ((ms d).prev ≡ some i))
    (spared : (a : ℕ) → own a ≡ l → a ≢ c → a ≢ d → ms a ≡ ns a) where
  longer : List ℕ
  longer = insert (suc k) i xs

  in_c : has c xs ≡ true
  in_c = has-get_elem? xs k c at_c

  in_d : has d xs ≡ true
  in_d = has-get_elem? xs (suc k) d at_d

  old_own : (a : ℕ) → has a xs ≡ true → own a ≡ l
  old_own a m = own_of_has own l a xs v.owned m

  still_in : (a : ℕ) → has a xs ≡ true → has a longer ≡ true
  unfolding longer
  still_in a m = ground (arith, has-insert a (suc k) i xs room)

  new_in : has i longer ≡ true
  unfolding longer
  new_in = ground (arith, has-insert i (suc k) i xs room)

  wider : (e : Idx) → Within xs e → Within longer e
  wider e w = Within-mono xs longer e w still_in

  Inner : ℕ → Type 0
  Inner a = Within longer (ms a).next × Within longer (ms a).prev

  old-Inner : (a : ℕ) → has a xs ≡ true → Inner a
  unfolding Inner
  old-Inner a m = elim (ℕ_discrete c a) [
    | yes e ↦ subst Inner e (rw left.0 new_in, rw left.1 (wider (ns c).prev (v.inner c in_c).1))
    | no nc ↦ elim (ℕ_discrete d a) [
      | yes e ↦ subst Inner e (rw right.0 (wider (ns d).next (v.inner d in_d).0), rw right.1 new_in)
      | no nd ↦
          rw (spared a (old_own a m) (λ e. nc (sym e)) (λ e. nd (sym e)))
            (wider (ns a).next (v.inner a m).0, wider (ns a).prev (v.inner a m).1)
    ]
  ]

  longer-Inner : (a : ℕ) → has a longer ≡ true → Inner a
  unfolding Inner longer
  longer-Inner a m = elim (Bool-cases (has a xs)) [
    | inl old ↦ old-Inner a old
    | inr new ↦
        let e : i ≡ a = ground (arith, has-insert a (suc k) i xs room) in
        subst Inner e (rw fresh.0 (still_in d in_d), rw fresh.1 (still_in c in_c))
  ]

  same_next : (a : ℕ) → has a xs ≡ true → a ≢ c → (ms a).next ≡ (ns a).next
  same_next a m nc = elim (ℕ_discrete d a) [
    | yes e ↦ subst (λ b. (ms b).next ≡ (ns b).next) e right.0
    | no nd ↦ ap (λ (n : Node). n.next) (spared a (old_own a m) nc (λ e. nd (sym e)))
  ]

  -- The list with the new node, and a cursor inside of it.
  pub between-IsList :
      (g : ListHead)
      → g.head ≡ h.head
      → g.tail ≡ h.tail
      → g.count ≡ h.count + 1
      → Within (insert (suc k) i xs) g.curr
      → IsList ms (update own i l) l g (insert (suc k) i xs)
  unfolding Inner longer
  between-IsList g eh et ec w = record {
    linked =
        rw (eh, et)
          (Linked-insert ns ms own l h.head h.tail xs k i c d v.owned v.linked at_c at_d left.0
            fresh.0 same_next);
    owned =
        Owned-insert (update own i l) l (suc k) i xs
          (Owned-frame own (update own i l) l xs v.owned
            λ a m. update_ne own i a l (λ e. stranger (rw e (old_own a m))))
          (update_self own i l) small (not-has_of_own own l i xs v.owned stranger) room;
    counted = ground (arith, ec, v.counted, length-insert (suc k) i xs room);
    cursor = w;
    inner = longer-Inner;
  }
