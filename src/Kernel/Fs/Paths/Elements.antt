-- ===== src/Kernel/Fs/Paths/Elements.antt =====
-- The names of a path, and how skipelem takes them off one by one.
use mathlib.Core.List.{append_assoc, append-nil}
use listlib_and_system_calls.Common.{
  ℕ, ◌<◌, ◌≤◌, ◌≡◌, inl, inr, refl, Bool, true, false, leb, ◌==◌, if◌then◌else◌, List, [], ◌∷◌,
  ◌++◌, Option, none, some, length, take, take_all, arith, ap, ◌∙◌, sym, Bool-cases,
}
use listlib_and_system_calls.Kernel.Fs.Paths.{
  dirsiz, ended, skip_slashes, split_element, first_element, skipelem,
}

-- A name that is complete, cut to 14 bytes; an empty one does not count.
abbrev pub add_name : List ℕ → List (List ℕ) → List (List ℕ)
add_name [] rest = rest
add_name (c ∷ element) rest = take dirsiz (c ∷ element) ∷ rest

-- The names between the slashes of a path, with what the first one has so far.
unfoldable pub names_from : List ℕ → List ℕ → List (List ℕ)
names_from element [] = add_name element []
names_from element (c ∷ path) =
    let rest = names_from [] path in
    if c == b'/' then add_name element rest else names_from (element ++ c ∷ []) path

abbrev pub names : List ℕ → List (List ℕ)
names path = names_from [] path

-- No slash in front.
abbrev pub IsStripped : List ℕ → Type 0
IsStripped [] = Unit {0}
IsStripped (c ∷ path) = (c == b'/') ≡ false

skip_slashes_lem :
    (path : List ℕ)
    → IsStripped (skip_slashes path)
      × (names (skip_slashes path) ≡ names path)
      × (length (skip_slashes path) ≤ length path)
unfolding skip_slashes names_from
skip_slashes_lem [] = (tt, refl, omega arith)
skip_slashes_lem (c ∷ path) = elim (Bool-cases (c == b'/')) [
  | inl slash ↦ let (s, e, l) = skip_slashes_lem path in rw (slash) (s, e, omega arith)
  | inr other ↦ rw (other) (other, rw other refl, omega arith)
]

names-slash : (c : ℕ) (path : List ℕ) → (c == b'/') ≡ true → names (c ∷ path) ≡ names path
unfolding names_from
names-slash c path e = rw e refl

split_element_lem :
    (element path : List ℕ)
    → (names_from element path
        ≡ add_name (element ++ (split_element path).0) (names (split_element path).1))
      × (length (split_element path).1 ≤ length path)
unfolding names_from split_element
split_element_lem element [] = (ap (λ e. add_name e []) (sym (append-nil element)), omega arith)
split_element_lem element (c ∷ path) = elim (Bool-cases (c == b'/')) [
  | inl slash ↦ rw slash (
    ap (λ e. add_name e (names path)) (sym (append-nil element))
        ∙ ap (add_name (element ++ [])) (sym (names-slash c path slash)),
    omega arith,
  )
  | inr other ↦
      let (e, l) = split_element_lem (element ++ c ∷ []) path in
      rw other (
        e
            ∙ ap (λ n. add_name n (names (split_element path).1))
                (append_assoc element (c ∷ []) (split_element path).0),
        omega arith,
      )
]

names_from_some :
    (c : ℕ) (element path : List ℕ)
    → (n : List ℕ) × (rest : List (List ℕ)) × (names_from (c ∷ element) path ≡ n ∷ rest)
unfolding names_from
names_from_some c element [] = (take dirsiz (c ∷ element), [], refl)
names_from_some c element (d ∷ path) = elim (Bool-cases (d == b'/')) [
  | inl slash ↦ (take dirsiz (c ∷ element), names path, rw slash refl)
  | inr other ↦
      let (n, rest, e) = names_from_some c (element ++ d ∷ []) path in (n, rest, rw other e)
]

abbrev pub none_left : List (List ℕ) → Bool
none_left [] = true
none_left (_ ∷ _) = false

ended_names : (path : List ℕ) → IsStripped path → ended path ≡ none_left (names path)
unfolding names_from
ended_names [] s = refl
ended_names (c ∷ path) s = let (n, rest, e) = names_from_some c [] path in rw (s, e) refl

cut_name :
    (c : ℕ) (element : List ℕ) (rest : List (List ℕ))
    → add_name (c ∷ element) rest
      ≡ (if leb dirsiz (length (c ∷ element)) then take dirsiz (c ∷ element) else c ∷ element)
        ∷ rest
cut_name c element rest = elim (Bool-cases (leb dirsiz (length (c ∷ element)))) [
  | inl long ↦ rw long refl
  | inr short ↦
      rw short (ap (λ n. n ∷ rest) (take_all dirsiz (c ∷ element) (ground (arith, short))))
]

split_element-char :
    (c : ℕ) (path : List ℕ)
    → (c == b'/') ≡ false
    → split_element (c ∷ path) ≡ (c ∷ (split_element path).0, (split_element path).1)
unfolding split_element
split_element-char c path e = rw e refl

names_from-char :
    (c : ℕ) (path : List ℕ) → (c == b'/') ≡ false → names (c ∷ path) ≡ names_from (c ∷ []) path
unfolding names_from
names_from-char c path e = rw e refl

-- What `skipelem` answers for a path without slashes in front.
abbrev pub Skips : List ℕ → Option (List ℕ × List ℕ) → Type 0
Skips path none = names path ≡ []
Skips path (some (name, rest)) =
    (names path ≡ name ∷ names rest)
    × (length rest < length path)
    × (ended rest ≡ none_left (names rest))

first_element-Skips : (path : List ℕ) → IsStripped path → Skips path (first_element path)
first_element-Skips [] s = unfold names_from in refl
first_element-Skips (c ∷ path) s =
    let element = (split_element path).0 in
    let rest = (split_element path).1 in
    let (e, shorter) = split_element_lem (c ∷ []) path in
    let (stripped, same, shorter') = skip_slashes_lem rest in
    rw (split_element-char c path s) (
      names_from-char c path s
          ∙ e
          ∙ cut_name c element (names rest)
          ∙ ap
              (λ n.
                (if leb dirsiz (length (c ∷ element))
                  then take dirsiz (c ∷ element)
                  else c ∷ element)
                ∷ n)
              (sym same),
      omega arith,
      ended_names (skip_slashes rest) stripped,
    )

-- For every path: `skipelem` fails exactly when no name is left; else it gives the first name, cut
-- to 14 bytes, and a shorter path that holds the others, which is empty exactly when no other is left.
pub skipelem-Skips : (path : List ℕ) → Skips path (skipelem path)
unfolding skipelem
skipelem-Skips path =
    let (stripped, same, shorter) = skip_slashes_lem path in
    same_Skips (first_element (skip_slashes path)) same shorter
      (first_element-Skips (skip_slashes path) stripped)
  where
    same_Skips :
        (o : Option (List ℕ × List ℕ))
        → names (skip_slashes path) ≡ names path
        → length (skip_slashes path) ≤ length path
        → Skips (skip_slashes path) o
        → Skips path o
    same_Skips none e l s = sym e ∙ s
    same_Skips (some (name, rest)) e l (a, b, c) = (sym e ∙ a, omega arith, c)
