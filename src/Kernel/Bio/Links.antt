-- ===== src/Kernel/Bio/Links.antt =====
-- Nodes that are linked in both directions, and the pointer writes of bio.c on them.
use listlib_and_system_calls.Common.{
  ℕ, ◌≡◌, ◌≢◌, refl, true, false, has, has-append, List, [], ◌∷◌, ◌++◌, update, update_self,
  update_ne, arith, ◌∙◌, sym, ==→ne, subst,
}

-- From one node through others to a third, along `next` and back along `prev`.
abbrev pub Links : (ℕ → ℕ) → (ℕ → ℕ) → ℕ → List ℕ → ℕ → Type 0
Links next prev a [] z = (next a ≡ z) × (prev z ≡ a)
Links next prev a (x ∷ xs) z = (next a ≡ x) × (prev x ≡ a) × Links next prev x xs z

-- No node twice.
abbrev pub AllDistinct : List ℕ → Type 0
AllDistinct [] = Unit {0}
AllDistinct (x ∷ xs) = (has x xs ≡ false) × AllDistinct xs

-- Links do not see a write to `next` off their nodes and to `prev` off their targets.
Links-frame :
    (next prev : ℕ → ℕ) (i v j w a : ℕ) (xs : List ℕ) (z : ℕ)
    → i ≢ a
    → has i xs ≡ false
    → j ≢ z
    → has j xs ≡ false
    → Links next prev a xs z
    → Links (update next i v) (update prev j w) a xs z
Links-frame next prev i v j w a [] z off_a off_xs off_z off_js (e, e') =
    (update_ne next i a v off_a ∙ e, update_ne prev j z w off_z ∙ e')
Links-frame next prev i v j w a (x ∷ xs) z off_a off_xs off_z off_js (e, e', rest) = (
  update_ne next i a v off_a ∙ e,
  update_ne prev j x w (==→ne j x (ground (arith, off_js))) ∙ e',
  Links-frame next prev i v j w x xs z (==→ne i x (ground (arith, off_xs))) (ground (arith, off_xs))
      off_z (ground (arith, off_js)) rest,
)

pub Links-split :
    (next prev : ℕ → ℕ) (a : ℕ) (pre : List ℕ) (b : ℕ) (post : List ℕ) (z : ℕ)
    → Links next prev a (pre ++ b ∷ post) z
    → Links next prev a pre b × Links next prev b post z
Links-split next prev a [] b post z (e, e', rest) = ((e, e'), rest)
Links-split next prev a (x ∷ pre) b post z (e, e', rest) =
    let (front, back) = Links-split next prev x pre b post z rest in ((e, e', front), back)

-- The node in front of the target is one of those on the way.
before_target :
    (next prev : ℕ → ℕ) (a x : ℕ) (xs : List ℕ) (b l : ℕ)
    → Links next prev a (x ∷ xs) b
    → prev b ≡ l
    → has l (x ∷ xs) ≡ true
before_target next prev a x [] b l (e, e', (f, f')) p = ground (arith, f', p)
before_target next prev a x (y ∷ xs) b l (e, e', rest) p =
    ground (arith, before_target next prev x y xs b l rest p)

-- The node behind the start is one on the way, or the target.
pub behind_start :
    (next prev : ℕ → ℕ) (b : ℕ) (post : List ℕ) (z r x : ℕ)
    → Links next prev b post z
    → next b ≡ r
    → x ≢ z
    → has x post ≡ false
    → r ≢ x
behind_start next prev b [] z r x (e, e') p off_z off same = off_z (sym same ∙ sym p ∙ e)
behind_start next prev b (y ∷ post) z r x (e, e', rest) p off_z off same =
    absurd (==→ne y x (ground (arith, off)) (sym e ∙ p ∙ same))

-- A node that is taken out.
pub unlink-Links :
    (next prev : ℕ → ℕ) (a : ℕ) (pre : List ℕ) (b : ℕ) (post : List ℕ) (z l r : ℕ)
    → Links next prev a pre b
    → Links next prev b post z
    → prev b ≡ l
    → next b ≡ r
    → AllDistinct (pre ++ b ∷ post)
    → has a (pre ++ b ∷ post) ≡ false
    → has z (pre ++ b ∷ post) ≡ false
    → Links (update next l r) (update prev r l) a (pre ++ post) z
unlink-Links next prev a [] b [] z l r (e, e') (f, f') p q distinct off_a off_z = (
  subst (λ (i : ℕ). update next l r i ≡ z) (sym p ∙ e') (update_self next l r ∙ sym q ∙ f),
  subst (λ (i : ℕ). update prev r l i ≡ a) (sym q ∙ f) (update_self prev r l ∙ sym p ∙ e'),
)
unlink-Links next prev a [] b (y ∷ ys) z l r (e, e') (f, f', rest) p q distinct off_a off_z =
    let la : l ≡ a = sym p ∙ e' in
    let ry : r ≡ y = sym q ∙ f in
    (
      subst (λ (i : ℕ). update next l r i ≡ y) la (update_self next l r ∙ ry),
      subst (λ (i : ℕ). update prev r l i ≡ a) ry (update_self prev r l ∙ la),
      Links-frame next prev l r r l y ys z
          (λ s. ==→ne y a (ground (arith, off_a)) (sym (sym la ∙ s)))
          (subst (λ (i : ℕ). has i ys ≡ false) (sym la) (ground (arith, off_a)))
          (λ s. ==→ne y z (ground (arith, off_z)) (sym ry ∙ s))
          (subst (λ (i : ℕ). has i ys ≡ false) (sym ry) distinct.1.0) rest,
    )
unlink-Links next prev a (x ∷ pre) b post z l r (e, e', front) back p q distinct off_a off_z = (
  update_ne next l a r (λ s. absurd (
        cc (
          before_target next prev a x pre b l (e, e', front) p,
          subst (λ (i : ℕ). has i (x ∷ pre) ≡ false) (sym s)
              (ground (arith, off_a, has-append a (x ∷ pre) (b ∷ post))),
        )))
      ∙ e,
  update_ne prev r x l (
        behind_start next prev b post z r x back q (λ s. ==→ne x z (ground (arith, off_z)) s)
          (ground (arith, distinct, has-append x pre (b ∷ post))))
      ∙ e',
  unlink-Links next prev x pre b post z l r front back p q distinct.1 distinct.0
      (ground (arith, off_z)),
)

-- A node that is put behind the head.
pub push_front-Links :
    (next prev : ℕ → ℕ) (h b : ℕ) (xs : List ℕ)
    → Links next prev h xs h
    → AllDistinct xs
    → has h xs ≡ false
    → has b xs ≡ false
    → b ≢ h
    → Links (update (update next b (next h)) h b) (update (update prev b h) (next h) b) h (b ∷ xs) h
push_front-Links next prev h b xs links distinct off_h off_b ne = (
  update_self (update next b (next h)) h b,
  update_ne (update prev b h) (next h) b b
        (behind_start next prev h xs h (next h) b links refl ne off_b)
      ∙ update_self prev b h,
  rest xs links distinct off_h off_b,
)
  where
    rest :
        (xs : List ℕ)
        → Links next prev h xs h
        → AllDistinct xs
        → has h xs ≡ false
        → has b xs ≡ false
        → Links (update (update next b (next h)) h b) (update (update prev b h) (next h) b) b xs h
    rest [] (e, e') distinct off_h off_b = (
      update_ne (update next b (next h)) h b b (λ s. ne (sym s)) ∙ update_self next b (next h) ∙ e,
      subst (λ (i : ℕ). update (update prev b h) (next h) b i ≡ b) e
          (update_self (update prev b h) (next h) b),
    )
    rest (y ∷ ys) (e, e', links) distinct off_h off_b = (
      update_ne (update next b (next h)) h b b (λ s. ne (sym s)) ∙ update_self next b (next h) ∙ e,
      subst (λ (i : ℕ). update (update prev b h) (next h) b i ≡ b) e
          (update_self (update prev b h) (next h) b),
      subst
          (λ (i : ℕ).
            Links (update (update next b (next h)) h b) (update (update prev b h) i b) y ys h)
          (sym e)
          (Links-frame (update next b (next h)) (update prev b h) h b y b y ys h
            (λ s. ==→ne y h (ground (arith, off_h)) (sym s)) (ground (arith, off_h))
            (==→ne y h (ground (arith, off_h))) distinct.0
            (Links-frame next prev b (next h) b h y ys h
              (λ s. ==→ne y b (ground (arith, off_b)) (sym s)) (ground (arith, off_b)) ne
              (ground (arith, off_b)) links)),
    )
