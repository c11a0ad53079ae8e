-- ===== src/User/Grep/Matcher.antt =====
-- The matcher of grep decides what the expression means.
use listlib_and_system_calls.Common.{
  ℕ, Bool, true, ◌==◌, if◌then◌else◌, List, [], ◌∷◌, ◌++◌, ◌≡◌, refl, inl, inr, Bool-cases, arith,
  ap, subst,
}
use mathlib.Core.Logic.{◌↔◌}
use listlib_and_system_calls.User.Grep.{ended, matchstar, match_one, matchhere, match_from, match}
use listlib_and_system_calls.User.Grep.Items.{
  one, many, end_of_text, Fits, AllFit, items, StandFor, StandIn, Means,
}

module _ (c : ℕ) (here : List ℕ → Bool) (P : List ℕ → Type 0) where
  -- Texts that fit a repeated character, and then what the rest stands for.
  abbrev pub Repeats : List ℕ → Type 0
  Repeats text = (xs : List ℕ) × (rest : List ℕ) × (text ≡ xs ++ rest) × AllFit c xs × P rest

  pub matchstar-Repeats :
      ((t : List ℕ) → here t ≡ true → P t)
      → (text : List ℕ) → matchstar c here text ≡ true
      → Repeats text
  unfolding matchstar
  matchstar-Repeats sound [] h = ([], [], refl, tt, sound [] h)
  matchstar-Repeats sound (x ∷ text) h = elim (Bool-cases (here (x ∷ text))) [
    | inl now ↦ ([], x ∷ text, refl, tt, sound (x ∷ text) now)
    | inr later ↦
        let fits : Fits c x = ground (arith, later) in
        let more : matchstar c here text ≡ true = ground (arith, later) in
        let (xs, rest, e, all, p) = matchstar-Repeats sound text more in
        (x ∷ xs, rest, ap (λ t. x ∷ t) e, (fits, all), p)
  ]

  pub Repeats-matchstar :
      ((t : List ℕ) → P t → here t ≡ true)
      → (xs rest : List ℕ) → AllFit c xs
      → P rest
      → matchstar c here (xs ++ rest) ≡ true
  unfolding matchstar
  Repeats-matchstar complete [] [] all p = complete [] p
  Repeats-matchstar complete [] (x ∷ rest) all p = rw (complete (x ∷ rest) p)
  Repeats-matchstar complete (x ∷ xs) rest all p =
      ground (arith, all.0, Repeats-matchstar complete xs rest all.1 p)

-- One character in front of what a test decides.
match_one_sound :
    (r : ℕ) (here : List ℕ → Bool) (P : List ℕ → Type 0)
    → ((t : List ℕ) → here t ≡ true → P t)
    → (text : List ℕ) → match_one r here text ≡ true
    → (x : ℕ) × (rest : List ℕ) × (text ≡ x ∷ rest) × Fits r x × P rest
unfolding match_one
match_one_sound r here P sound [] h = absurd (cc h)
match_one_sound r here P sound (x ∷ text) h =
    (x, text, refl, ground (arith, h), sound text (ground (arith, h)))

match_one_complete :
    (r x : ℕ) (here : List ℕ → Bool) (rest : List ℕ)
    → Fits r x
    → here rest ≡ true
    → match_one r here (x ∷ rest) ≡ true
unfolding match_one
match_one_complete r x here rest fits h = rw fits h

ended_sound : (text : List ℕ) → ended text ≡ true → text ≡ []
ended_sound [] h = refl
ended_sound (x ∷ text) h = absurd (cc h)

matchhere-StandFor : (re text : List ℕ) → matchhere re text ≡ true → StandFor (items re) text
unfolding matchhere items
matchhere-StandFor [] text h = tt
matchhere-StandFor (r ∷ []) text h = elim (Bool-cases (r == b'$')) [
  | inl dollar ↦ rw dollar (ended_sound text (rw dollar at h), tt)
  | inr char ↦
      rw char (match_one_sound r (matchhere []) (StandFor []) (λ t e. tt) text (rw char at h))
]
matchhere-StandFor (r ∷ s ∷ re) text h = elim (Bool-cases (s == b'*')) [
  | inl star ↦ rw star (
      matchstar-Repeats r (matchhere re) (StandFor (items re)) (matchhere-StandFor re) text
        (rw star at h))
  | inr char ↦ rw char (
      match_one_sound r (matchhere (s ∷ re)) (StandFor (items (s ∷ re)))
        (matchhere-StandFor (s ∷ re)) text (rw char at h))
]

StandFor-matchhere : (re text : List ℕ) → StandFor (items re) text → matchhere re text ≡ true
unfolding matchhere items
StandFor-matchhere [] text h = refl
StandFor-matchhere (r ∷ []) text h = elim (Bool-cases (r == b'$')) [
  | inl dollar ↦
      let (e, _) =
        subst (λ b. StandFor (if b then end_of_text ∷ [] else one r ∷ []) text) dollar h in
      rw (dollar, e) refl
  | inr char ↦
      let (x, rest, e, fits, _) =
        subst (λ b. StandFor (if b then end_of_text ∷ [] else one r ∷ []) text) char h in
      rw (char, e) (match_one_complete r x (matchhere []) rest fits refl)
]
StandFor-matchhere (r ∷ s ∷ re) text h = elim (Bool-cases (s == b'*')) [
  | inl star ↦
      let (xs, rest, e, all, p) =
        subst (λ b. StandFor (if b then many r ∷ items re else one r ∷ items (s ∷ re)) text) star
          h in
      rw (star, e)
        (Repeats-matchstar r (matchhere re) (StandFor (items re)) (StandFor-matchhere re) xs rest
          all p)
  | inr char ↦
      let (x, rest, e, fits, p) =
        subst (λ b. StandFor (if b then many r ∷ items re else one r ∷ items (s ∷ re)) text) char
          h in
      rw (char, e)
        (match_one_complete r x (matchhere (s ∷ re)) rest fits (StandFor-matchhere (s ∷ re) rest p))
]

match_from_sound : (re text : List ℕ) → match_from re text ≡ true → StandIn (items re) text
unfolding match_from
match_from_sound re [] h = ([], [], refl, matchhere-StandFor re [] h)
match_from_sound re (x ∷ text) h = elim (Bool-cases (matchhere re (x ∷ text))) [
  | inl now ↦ ([], x ∷ text, refl, matchhere-StandFor re (x ∷ text) now)
  | inr later ↦
      let (before, rest, e, p) = match_from_sound re text (rw later at h) in
      (x ∷ before, rest, ap (λ t. x ∷ t) e, p)
]

match_from_complete :
    (re before rest : List ℕ) → StandFor (items re) rest → match_from re (before ++ rest) ≡ true
unfolding match_from
match_from_complete re [] [] p = StandFor-matchhere re [] p
match_from_complete re [] (x ∷ rest) p = rw (StandFor-matchhere re (x ∷ rest) p)
match_from_complete re (x ∷ before) rest p = ground (arith, match_from_complete re before rest p)

-- For every expression and text: `match` answers that the text matches exactly when the items of
-- the expression stand for some part of the text, for a start of it if a `^` stands in front.
pub match_lem : (re text : List ℕ) → (match re text ≡ true) ↔ Means re text
unfolding match items
match_lem [] text =
    (match_from_sound [] text, λ (before, rest, e, p). rw e (match_from_complete [] before rest p))
match_lem (r ∷ re) text = elim (Bool-cases (r == b'^')) [
  | inl anchor ↦ rw anchor (matchhere-StandFor re text, StandFor-matchhere re text)
  | inr free ↦ rw free (
    match_from_sound (r ∷ re) text,
    λ (before, rest, e, p). rw e (match_from_complete (r ∷ re) before rest p),
  )
]
