-- ===== src/Common/Lists.antt =====
-- Lists measured and indexed by the native numbers.
use Prim.Native.Nat.{ℕ, zero, suc, ◌+◌, ◌-◌, ◌≤◌, ◌<◌}
use mathlib.Core.Path.{◌≡◌, refl, ap}
use mathlib.Core.Logic.{◌⊎◌, inl, inr}
use mathlib.Core.Bool.{Bool, false, ◌||◌}
use mathlib.Core.List.{List, [], ◌∷◌, ◌++◌, map}
use mathlib.Core.Option.{Option, none, some}
use native.Mathlib.Omega.{arith}
use listlib_and_system_calls.Common.Tests.{◌==◌}

module _ {ℓ} {A : Type ℓ} where
  abbrev pub length : List A → ℕ
  length [] = 0
  length (_ ∷ xs) = suc (length xs)

  pub length-append : (xs ys : List A) → length (xs ++ ys) ≡ length xs + length ys
  length-append [] ys = omega arith
  length-append (x ∷ xs) ys = omega (arith, length-append xs ys)

pub length-map {ℓ ℓ'} :
    {A : Type ℓ} {B : Type ℓ'} (f : A → B) (xs : List A) → length (map f xs) ≡ length xs
length-map f [] = refl
length-map f (x ∷ xs) = omega (arith, length-map f xs)

-- Membership of a number, as a test.
abbrev pub has : ℕ → List ℕ → Bool
has a [] = false
has a (x ∷ xs) = (a == x) || has a xs

pub has-append : (a : ℕ) (xs ys : List ℕ) → has a (xs ++ ys) ≡ (has a xs || has a ys)
has-append a [] ys = refl
has-append a (x ∷ xs) ys = ground (arith, has-append a xs ys)

module _ {ℓ} {A : Type ℓ} where
  abbrev pub get_elem? : List A → ℕ → Option A
  get_elem? [] i = none
  get_elem? (x ∷ xs) zero = some x
  get_elem? (x ∷ xs) (suc i) = get_elem? xs i

  abbrev pub drop : ℕ → List A → List A
  drop zero xs = xs
  drop (suc n) [] = []
  drop (suc n) (x ∷ xs) = drop n xs

  abbrev pub take : ℕ → List A → List A
  take zero xs = []
  take (suc n) [] = []
  take (suc n) (x ∷ xs) = x ∷ take n xs

  pub take_all : (n : ℕ) (xs : List A) → length xs ≤ n → take n xs ≡ xs
  take_all zero [] h = refl
  take_all zero (x ∷ xs) h = absurd (omega arith)
  take_all (suc n) [] h = refl
  take_all (suc n) (x ∷ xs) h = ap (λ ys. x ∷ ys) (take_all n xs (omega arith))

  pub length-take : (n : ℕ) (xs : List A) → length (take n xs) ≤ n
  length-take zero xs = omega arith
  length-take (suc n) [] = omega arith
  length-take (suc n) (x ∷ xs) = omega (arith, length-take n xs)

  pub take-append-drop : (n : ℕ) (xs : List A) → take n xs ++ drop n xs ≡ xs
  take-append-drop zero xs = refl
  take-append-drop (suc n) [] = refl
  take-append-drop (suc n) (x ∷ xs) = ap (λ ys. x ∷ ys) (take-append-drop n xs)

  pub take-append : (xs ys : List A) → take (length xs) (xs ++ ys) ≡ xs
  take-append [] ys = refl
  take-append (x ∷ xs) ys = ap (λ zs. x ∷ zs) (take-append xs ys)

  pub drop-append : (xs ys : List A) → drop (length xs) (xs ++ ys) ≡ ys
  drop-append [] ys = refl
  drop-append (x ∷ xs) ys = drop-append xs ys

  pub length-drop : (n : ℕ) (xs : List A) → length (drop n xs) ≡ length xs - n
  length-drop zero xs = omega arith
  length-drop (suc n) [] = omega arith
  length-drop (suc n) (x ∷ xs) = omega (arith, length-drop n xs)

  pub drop-get_elem? :
      (k : ℕ) (v : A) (xs : List A) → get_elem? xs k ≡ some v → drop k xs ≡ v ∷ drop (suc k) xs
  drop-get_elem? k v [] e = cc
  drop-get_elem? zero v (x ∷ xs) e = ground arith
  drop-get_elem? (suc k) v (x ∷ xs) e = drop-get_elem? k v xs e

  pub drop-length : (k : ℕ) (xs : List A) → length xs ≡ k → drop k xs ≡ []
  drop-length zero [] e = refl
  drop-length zero (x ∷ xs) e = absurd (omega arith)
  drop-length (suc k) [] e = refl
  drop-length (suc k) (x ∷ xs) e = drop-length k xs (omega arith)

  abbrev pub replicate : ℕ → A → List A
  replicate zero a = []
  replicate (suc n) a = a ∷ replicate n a

  -- A value put at a position; behind the end nothing is put.
  abbrev pub insert : ℕ → A → List A → List A
  insert zero v xs = v ∷ xs
  insert (suc k) v [] = []
  insert (suc k) v (x ∷ xs) = x ∷ insert k v xs

  pub length-insert :
      (k : ℕ) (v : A) (xs : List A) → k ≤ length xs → length (insert k v xs) ≡ suc (length xs)
  length-insert zero v xs h = refl
  length-insert (suc k) v [] h = absurd (omega arith)
  length-insert (suc k) v (x ∷ xs) h = omega (arith, length-insert k v xs)

pub has-insert :
    (a k v : ℕ) (xs : List ℕ) → k ≤ length xs → has a (insert k v xs) ≡ ((a == v) || has a xs)
has-insert a zero v xs h = refl
has-insert a (suc k) v [] h = absurd (omega arith)
has-insert a (suc k) v (x ∷ xs) h = ground (arith, has-insert a k v xs)

-- Bytes in front of the last one, and the last one.
pub get_elem?-snoc :
    (bytes : List ℕ) (c j ch : ℕ)
    → get_elem? (bytes ++ c ∷ []) j ≡ some ch
    → ((j < length bytes) × (get_elem? bytes j ≡ some ch)) ⊎ ((j ≡ length bytes) × (c ≡ ch))
get_elem?-snoc [] c zero ch e = inr (refl, ground arith)
get_elem?-snoc [] c (suc j) ch e = ground arith
get_elem?-snoc (b ∷ bytes) c zero ch e = inl (omega arith, e)
get_elem?-snoc (b ∷ bytes) c (suc j) ch e = elim (get_elem?-snoc bytes c j ch e) [
  | inl (h, old) ↦ inl (omega arith, old)
  | inr (h, last) ↦ inr (omega arith, last)
]
