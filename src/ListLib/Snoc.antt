-- ===== src/ListLib/Snoc.antt =====
-- A chain that takes one more node behind its last keeps the shape of a list.
use native.Mathlib.Decide.{ℕ_discrete}
use listlib_and_system_calls.Common.{
  inl, inr, subst, Bool-cases, ℕ, ◌+◌, ◌<◌, ◌≡◌, refl, ◌≢◌, true, none, some, List, [], ◌∷◌, ◌++◌,
  arith, has, has-append, ap, sym, length-append,
}
use listlib_and_system_calls.ListLib.Pool.{Idx, Node, ListHead, max_nodes, update}
use listlib_and_system_calls.ListLib.Steps.{update_ne, update_self}
use listlib_and_system_calls.ListLib.Chain.{
  Linked-append, Linked-last, Owned, Owned-append, Owned-frame, Within, own_of_has, Within-mono,
  has-append_left, has-append_right,
}
use listlib_and_system_calls.ListLib.Shape.{IsList}

-- A node hung behind the last node `t` of a list.
module _ (ns ms : ℕ → Node) (own : ℕ → ℕ) (l i t : ℕ) (h : ListHead) (y : ℕ) (ys : List ℕ)
    (v : IsList ns own l h (y ∷ ys)) (stranger : own i ≢ l) (small : i < max_nodes)
    (last : h.tail ≡ some t) (fresh : ((ms i).next ≡ none) × ((ms i).prev ≡ h.curr))
    (hung : ((ms t).next ≡ some i) × ((ms t).prev ≡ (ns t).prev))
    (spared : (a : ℕ) → own a ≡ l → a ≢ t → ms a ≡ ns a) where
  last_in : has t (y ∷ ys) ≡ true
  last_in = let (a, e, m) = Linked-last ns h.head h.tail y ys v.linked in ground (arith, e, last)

  old_own : (a : ℕ) → has a (y ∷ ys) ≡ true → own a ≡ l
  old_own a m = own_of_has own l a (y ∷ ys) v.owned m

  wider : (c : Idx) → Within (y ∷ ys) c → Within ((y ∷ ys) ++ (i ∷ [])) c
  wider c w =
      Within-mono (y ∷ ys) ((y ∷ ys) ++ (i ∷ [])) c w λ a m. has-append_left a (y ∷ ys) (i ∷ []) m

  new_in : has i ((y ∷ ys) ++ (i ∷ [])) ≡ true
  new_in = has-append_right i (y ∷ ys) (i ∷ []) (ground arith)

  old-Inner :
      (a : ℕ)
      → has a (y ∷ ys) ≡ true
      → Within ((y ∷ ys) ++ (i ∷ [])) (ms a).next × Within ((y ∷ ys) ++ (i ∷ [])) (ms a).prev
  old-Inner a m = elim (ℕ_discrete t a) [
    | yes e ↦
        subst
          (λ b.
            Within ((y ∷ ys) ++ (i ∷ [])) (ms b).next × Within ((y ∷ ys) ++ (i ∷ [])) (ms b).prev)
          e (rw hung.0 new_in, rw hung.1 (wider (ns t).prev (v.inner t last_in).1))
    | no ne ↦
        rw (spared a (old_own a m) (λ e. ne (sym e)))
          (wider (ns a).next (v.inner a m).0, wider (ns a).prev (v.inner a m).1)
  ]

  snoc_inner :
      (a : ℕ)
      → has a ((y ∷ ys) ++ (i ∷ [])) ≡ true
      → Within ((y ∷ ys) ++ (i ∷ [])) (ms a).next × Within ((y ∷ ys) ++ (i ∷ [])) (ms a).prev
  snoc_inner a m = elim (Bool-cases (has a (y ∷ ys))) [
    | inl old ↦ old-Inner a old
    | inr new ↦
        let e : i ≡ a = ground (arith, has-append a (y ∷ ys) (i ∷ [])) in
        subst
          (λ b.
            Within ((y ∷ ys) ++ (i ∷ [])) (ms b).next × Within ((y ∷ ys) ++ (i ∷ [])) (ms b).prev)
          e (rw fresh.0 tt, rw fresh.1 (wider h.curr v.cursor))
  ]

  snoc-Owned : Owned (update own i l) l ((y ∷ ys) ++ (i ∷ []))
  snoc-Owned =
      Owned-append (update own i l) l (y ∷ ys) (i ∷ [])
        (Owned-frame own (update own i l) l (y ∷ ys) v.owned
          λ a m. update_ne own i a l (λ e. stranger (rw e (old_own a m))))
        (update_self own i l, small, refl, tt)
        λ a m. let ne : a ≢ i = λ e. stranger (rw (← e) (old_own a m)) in ground arith

  pub snoc-IsList :
      IsList ms
        (update own i l)
        l
        (record h { tail = some i; curr = some i; count = h.count + 1; before = 0; after = 0 })
        ((y ∷ ys) ++ (i ∷ []))
  snoc-IsList = record {
    linked =
        Linked-append own l ns ms h.head h.tail (some i) (some i) y i ys [] v.owned v.linked
          (λ a m ne. ap (λ (n : Node). n.next) (spared a (old_own a m) (λ e. ne (rw (e, last)))))
          (λ a e. ground (arith, hung.0, last)) (refl, refl);
    owned = snoc-Owned;
    counted = ground (arith, v.counted, length-append (y ∷ ys) (i ∷ []));
    cursor = new_in;
    inner = snoc_inner;
  }
