-- ===== src/Kernel/Fs/Paths/Walks.antt =====
-- What namex finds, and the references that it holds behind its return.
use listlib_and_system_calls.Common.{
  ◌⊎◌, ℕ, zero, suc, ◌+◌, ◌<◌, ◌≡◌, refl, Bool, true, false, ◌&&◌, not, if◌then◌else◌, List, [],
  ◌∷◌, Option, none, some, length, arith, ap, ◌∙◌, sym, Bool-cases, Option-cases, inl, inr, update,
  fun_ext, subst,
}
use listlib_and_system_calls.Kernel.Fs.Paths.{
  Refs, Found, ref_inode, unref_inode, ended, skipelem, namex_from, namex, start_inode,
}
use listlib_and_system_calls.Kernel.Fs.Paths.Elements.{names, none_left, Skips, skipelem-Skips}

unref-ref : (ip : ℕ) (refs : Refs) → unref_inode ip (ref_inode ip refs) ≡ refs
unfolding unref_inode ref_inode update
unref-ref ip refs = fun_ext λ a. ground arith

unref-ref_next :
    (ip next : ℕ) (refs : Refs)
    → unref_inode ip (ref_inode next (ref_inode ip refs)) ≡ ref_inode next refs
unfolding unref_inode ref_inode update
unref-ref_next ip next refs = fun_ext λ a. ground arith

-- One reference for the inode that is returned, if any.
abbrev pub held : Option ℕ → Refs → Refs
held none refs = refs
held (some ip) refs = ref_inode ip refs

abbrev pub last_or : List ℕ → List (List ℕ) → List ℕ
last_or name [] = name
last_or name (n ∷ ns) = last_or n ns

module _ (is_dir : ℕ → Bool) (dirlookup : ℕ → List ℕ → Option ℕ) where
  -- Down the tree by names, each in a directory; the parent stops in front of the last name.
  unfoldable pub walk : Bool → List (List ℕ) → ℕ → Option ℕ
  walk parent [] ip = if parent then none else some ip
  walk parent (n ∷ ns) ip =
      let deeper : Option ℕ = elim (dirlookup ip n) [
        | none ↦ none
        | some next ↦ walk parent ns next
      ] in
      if not (is_dir ip) then none else if parent && none_left ns then some ip else deeper

  module _ (parent : Bool) (n : List ℕ) (ns : List (List ℕ)) (ip : ℕ) where
    walk-file : not (is_dir ip) ≡ true → walk parent (n ∷ ns) ip ≡ none
    unfolding walk
    walk-file file = rw file refl

    walk-stops :
        not (is_dir ip) ≡ false
        → (parent && none_left ns) ≡ true
        → walk parent (n ∷ ns) ip ≡ some ip
    unfolding walk
    walk-stops dir stop = rw (dir, stop) refl

    walk-misses :
        not (is_dir ip) ≡ false
        → (parent && none_left ns) ≡ false
        → dirlookup ip n ≡ none
        → walk parent (n ∷ ns) ip ≡ none
    unfolding walk
    walk-misses dir on missing = rw (dir, on, missing) refl

    walk-goes :
        (child : ℕ)
        → not (is_dir ip) ≡ false
        → (parent && none_left ns) ≡ false
        → dirlookup ip n ≡ some child
        → walk parent (n ∷ ns) ip ≡ walk parent ns child
    unfolding walk
    walk-goes child dir on there = rw (dir, on, there) refl

  -- What a run from a directory finds: the inode of the walk, the last name, and one reference for
  -- the inode.
  abbrev pub Finds : Bool → List (List ℕ) → ℕ → List ℕ → Refs → Option Found → Type 0
  Finds parent ns ip name refs none = ⊥
  Finds parent ns ip name refs (some found) =
      (found.inode ≡ walk parent ns ip)
      × (found.refs ≡ held found.inode refs)
      × ((found.inode ≡ none) ⊎ (found.name ≡ last_or name ns))

  module _ (rounds : ℕ) (parent : Bool) (ip : ℕ) (path name : List ℕ) (refs : Refs) where
    namex_from-last :
        skipelem path ≡ none
        → namex_from is_dir dirlookup (suc rounds) parent ip path name refs ≡ (
            if parent
            then some (record { inode = none; name = name; refs = unref_inode ip refs })
            else some (record { inode = some ip; name = name; refs = refs }))
    unfolding namex_from
    namex_from-last e = rw (e, namex_from) refl

    namex_from-next :
        (name' path' : List ℕ)
        → skipelem path ≡ some (name', path')
        → namex_from is_dir dirlookup (suc rounds) parent ip path name refs ≡ (
            let deeper : Option Found = elim (dirlookup ip name') [
              | none ↦ some (record { inode = none; name = name'; refs = unref_inode ip refs })
              | some next ↦
                  namex_from is_dir dirlookup rounds parent next path' name'
                    (unref_inode ip (ref_inode next refs))
            ] in
            if not (is_dir ip)
            then some (record { inode = none; name = name'; refs = unref_inode ip refs })
            else if parent && ended path'
            then some (record { inode = some ip; name = name'; refs = refs })
            else deeper)
    unfolding namex_from
    namex_from-next name' path' e = rw (e, namex_from) refl

  namex_from-Finds :
      (rounds : ℕ) (parent : Bool) (ip : ℕ) (path name : List ℕ) (refs : Refs)
      → length path < rounds
      → Finds parent
          (names path)
          ip
          name
          refs
          (namex_from is_dir dirlookup rounds parent ip path name (ref_inode ip refs))
  unfolding walk
  namex_from-Finds zero parent ip path name refs enough = absurd (omega arith)
  namex_from-Finds (suc rounds) parent ip path name refs enough =
      elim (Option-cases (skipelem path)) [
        | inl e ↦ last parent e (subst (Skips path) e (skipelem-Skips path))
        | inr ((name', path'), e) ↦
            next name' path' e (subst (Skips path) e (skipelem-Skips path))
              (λ child h. namex_from-Finds rounds parent child path' name' refs h)
      ]
    where
      nil : (ns : List (List ℕ)) → (parent && none_left ns) ≡ true → ns ≡ []
      nil [] h = refl
      nil (n ∷ ns) h = absurd (ground (arith, h))

      last :
          (parent : Bool)
          → skipelem path ≡ none
          → names path ≡ []
          → Finds parent
              (names path)
              ip
              name
              refs
              (namex_from is_dir dirlookup (suc rounds) parent ip path name (ref_inode ip refs))
      last true e s =
          rw (namex_from-last rounds true ip path name (ref_inode ip refs) e, s)
            (refl, unref-ref ip refs, inl refl)
      last false e s =
          rw (namex_from-last rounds false ip path name (ref_inode ip refs) e, s)
            (refl, refl, inr refl)

      same_Finds :
          (name' path' : List ℕ) (child : ℕ)
          → walk parent (names path') child ≡ walk parent (name' ∷ names path') ip
          → (o : Option Found) → Finds parent (names path') child name' refs o
          → Finds parent (name' ∷ names path') ip name refs o
      same_Finds name' path' child e none h = h
      same_Finds name' path' child e (some found) (a, b, c) = (a ∙ e, b, c)

      next :
          (name' path' : List ℕ)
          → skipelem path ≡ some (name', path')
          → Skips path (some (name', path'))
          → ((child : ℕ)
              → length path' < rounds
              → Finds parent (names path') child name' refs (
                  namex_from is_dir dirlookup rounds parent child path' name'
                    (ref_inode child refs)))
          → Finds parent
              (names path)
              ip
              name
              refs
              (namex_from is_dir dirlookup (suc rounds) parent ip path name (ref_inode ip refs))
      next name' path' e (split, shorter, same) rec =
          rw (namex_from-next rounds parent ip path name (ref_inode ip refs) name' path' e, split)
            (elim (Bool-cases (not (is_dir ip))) [
              | inl file ↦
                  rw file (
                    sym (walk-file parent name' (names path') ip file),
                    unref-ref ip refs,
                    inl refl,
                  )
              | inr dir ↦ elim (Bool-cases (parent && none_left (names path'))) [
                | inl stop ↦
                    let none_after : names path' ≡ [] = nil (names path') stop in
                    rw (dir, same, stop)
                      (
                        sym (walk-stops parent name' (names path') ip dir stop),
                        refl,
                        inr (ap (last_or name') (sym none_after)),
                      )
                | inr on ↦ elim (Option-cases (dirlookup ip name')) [
                  | inl missing ↦
                      rw (dir, same, on, missing)
                        (
                          sym (walk-misses parent name' (names path') ip dir on missing),
                          unref-ref ip refs,
                          inl refl,
                        )
                  | inr (child, there) ↦
                      rw (dir, same, on, there, unref-ref_next ip child refs)
                        (same_Finds name' path' child
                          (sym (walk-goes parent name' (names path') ip child dir on there)) _
                          (rec child (omega arith)))
                ]
              ]
            ])

  -- For every path: `namex` ends, finds the inode of the walk by the names of the path from the root
  -- or from the directory of the process (with `parent` set, the directory in front of the last
  -- name, and that name), and holds one reference more than before for the inode that it returns,
  -- and no other.
  pub namex-Finds :
      (parent : Bool) (cwd : ℕ) (path : List ℕ) (refs : Refs)
      → Finds parent
          (names path)
          (start_inode path cwd)
          []
          refs
          (namex is_dir dirlookup parent cwd path refs)
  unfolding namex
  namex-Finds parent cwd path refs =
      namex_from-Finds (length path + 1) parent (start_inode path cwd) path [] refs (omega arith)
