-- ===== src/Kernel/Files/Counts.antt =====
-- The count of a file and what its closes give up.
use native.Mathlib.Decide.{ℕ_discrete}
use mathlib.Core.Option
use listlib_and_system_calls.Common.{
  update-update, refl, sym, zero, suc, List, [], ◌∷◌, Option, ◌%◌, ◌^◌, ℕ, ◌+◌, ◌-◌, ◌<◌, ◌≡◌, ◌⊎◌,
  inl, inr, ◌∙◌, ap, arith, false, none, some, ltb, ◌==◌, ◌&&◌, update, update_self, update_ne,
  fun_ext, find_from-cases, Bool-cases, ltb→lt, ==→eq, ge→ltb, lt→ltb, subst,
}
use listlib_and_system_calls.Kernel.Files.{
  give_up, Given, FileType, fd_pipe, fd_inode, fd_device, pipe_end, inode, nfile, File, fd_none,
  nothing, Ftable, filealloc, filedup, fileclose, give_up,
}

-- Either no entry is free, and `filealloc` returns NULL and changes nothing; or it returns a free entry, which then has one reference, and no other
-- entry changes.
pub filealloc_lem :
    (t : Ftable) (a : ℕ)
    → ((filealloc t ≡ (none, t)) × ((ltb a nfile && ((t a).ref == 0)) ≡ false))
      ⊎ ((i : ℕ) × ((filealloc t).0 ≡ some i)
          × (i < nfile)
          × ((t i).ref ≡ 0)
          × (((filealloc t).1 i).ref ≡ 1)
          × ((i ≡ a) ⊎ ((filealloc t).1 a ≡ t a)))
unfolding filealloc
filealloc_lem t a = elim (find_from-cases (λ i. (t i).ref == 0) nfile 0) [
  | inr (e, all) ↦ inl (
    rw (filealloc, e),
    elim (Bool-cases (ltb a nfile)) [
      | inl within ↦ rw within (all a (omega arith) (ltb→lt a 100 within))
      | inr off ↦ rw off
    ],
  )
  | inl (i, e, from, to, free, before) ↦ inr (
    i,
    rw (filealloc, e),
    omega arith,
    ==→eq (t i).ref 0 free,
    rw (filealloc, e) (ap (λ (f : File). f.ref) (update_self t i (record (t i) { ref = 1 }))),
    elim (ℕ_discrete i a) [
      | yes same ↦ inl same
      | no ne ↦ inr (rw (filealloc, e) (update_ne t i a (record (t i) { ref = 1 }) ne))
    ],
  )
]

-- As many calls of `filedup`, and of `fileclose` with what they give up.
unfoldable pub dups : ℕ → ℕ → Ftable → Option Ftable
dups zero f t = some t
dups (suc k) f t = elim (filedup f t) [ none ↦ none | some n ↦ dups k f n ]

unfoldable pub closes : ℕ → ℕ → Ftable → Option (List Given × Ftable)
closes zero f t = some ([], t)
closes (suc k) f t = elim (fileclose f t) [
  | none ↦ none
  | some (g, n) ↦ Option.map (λ (r : List Given × Ftable). (g ∷ r.0, r.1)) (closes k f n)
]

-- What an open file holds by its type: its end of a pipe, or its inode.
unfoldable pub owed : FileType → File → Given
owed fd_pipe ff = pipe_end ff.pipe ff.writable
owed fd_inode ff = inode ff.ip
owed fd_device ff = inode ff.ip
owed fd_none ff = nothing

-- Nothing from each close but the last.
unfoldable pub given_last : ℕ → File → List Given
given_last zero ff = owed ff.type ff ∷ []
given_last (suc k) ff = nothing ∷ given_last k ff

abbrev with_ref : ℕ → ℕ → Ftable → Ftable
with_ref r f t = update t f (record (t f) { ref = r })

same_ref : (f : ℕ) (t : Ftable) → with_ref (t f).ref f t ≡ t
same_ref f t = fun_ext λ a. elim (ℕ_discrete f a) [
  | yes e ↦ subst (λ b. update t f (t f) b ≡ t b) e (update_self t f (t f))
  | no ne ↦ update_ne t f a (t f) ne
]

filedup-adds :
    (f : ℕ) (t : Ftable)
    → 0 < (t f).ref
    → (t f).ref + 1 < 2 ^ 31
    → filedup f t ≡ some (with_ref ((t f).ref + 1) f t)
unfolding filedup
filedup-adds f t held small =
    let whole : ((t f).ref + 1) % 2 ^ 32 ≡ (t f).ref + 1 = omega (arith, small) in
    rw (ge→ltb (t f).ref 1 (λ h. absurd (omega arith)), whole) refl

-- The table with a file changed twice is the one with the second change.
with_ref-twice :
    (r : ℕ) (f : ℕ) (q : File) (t : Ftable)
    → with_ref r f (update t f q) ≡ update t f (record q { ref = r })
with_ref-twice r f q t =
    ap (λ (g : File). update (update t f q) f (record g { ref = r })) (update_self t f q)
    ∙ update-update t f q (record q { ref = r })

dups-suc : (k f : ℕ) (t n : Ftable) → filedup f t ≡ some n → dups (suc k) f t ≡ dups k f n
unfolding dups
dups-suc k f t n e = rw (e, dups) refl

dups_lem :
    (k f : ℕ) (t : Ftable)
    → 0 < (t f).ref
    → (t f).ref + k < 2 ^ 31
    → dups k f t ≡ some (with_ref ((t f).ref + k) f t)
unfolding dups
dups_lem zero f t held small =
    let same : (t f).ref + 0 ≡ (t f).ref = omega arith in
    ap some (sym (ap (λ r. with_ref r f t) same ∙ same_ref f t))
dups_lem (suc k) f t held small =
    let more : File = record (t f) { ref = (t f).ref + 1 } in
    let at : (update t f more f).ref ≡ (t f).ref + 1 =
      ap (λ (g : File). g.ref) (update_self t f more) in
    let count : (update t f more f).ref + k ≡ (t f).ref + suc k = omega (arith, at) in
    dups-suc k f t (update t f more) (filedup-adds f t held (omega arith))
    ∙ dups_lem k f (update t f more) (omega (arith, at)) (omega (arith, at, small))
    ∙ ap some (
        ap (λ r. with_ref r f (update t f more)) count
        ∙ with_ref-twice ((t f).ref + suc k) f more t)

give_up-by_type :
    (s : FileType) (ff : File)
    → elim s [
      | fd_none ↦ nothing
      | fd_pipe ↦ pipe_end ff.pipe ff.writable
      | fd_inode ↦ inode ff.ip
      | fd_device ↦ inode ff.ip
    ]
      ≡ owed s ff
unfolding owed
give_up-by_type fd_none ff = refl
give_up-by_type fd_pipe ff = refl
give_up-by_type fd_inode ff = refl
give_up-by_type fd_device ff = refl

give_up-owed : (ff : File) → give_up ff ≡ owed ff.type ff
unfolding give_up
give_up-owed ff = give_up-by_type ff.type ff

fileclose-last :
    (f : ℕ) (t : Ftable)
    → (t f).ref ≡ 1
    → fileclose f t
      ≡ some (owed (t f).type (t f), update t f (record (t f) { ref = 0; type = fd_none }))
unfolding fileclose
fileclose-last f t one =
    rw
      (
        ge→ltb (t f).ref 1 (λ h. absurd (omega (arith, one))),
        ge→ltb 0 ((t f).ref - 1) (λ h. absurd (omega (arith, one))),
      )
      (ap (λ g. some (g, update t f (record (t f) { ref = 0; type = fd_none })))
        (give_up-owed (t f)))

fileclose-more :
    (k f : ℕ) (t : Ftable)
    → (t f).ref ≡ suc (suc k)
    → fileclose f t ≡ some (nothing, with_ref (suc k) f t)
unfolding fileclose
fileclose-more k f t e =
    let less : (t f).ref - 1 ≡ suc k = omega (arith, e) in
    rw (ge→ltb (t f).ref 1 (λ h. absurd (omega (arith, e))), less, lt→ltb 0 (suc k) (omega arith))
      refl

owed-ref : (s : FileType) (r : ℕ) (ff : File) → owed s (record ff { ref = r }) ≡ owed s ff
unfolding owed
owed-ref fd_none r ff = refl
owed-ref fd_pipe r ff = refl
owed-ref fd_inode r ff = refl
owed-ref fd_device r ff = refl

given_last-ref : (k r : ℕ) (ff : File) → given_last k (record ff { ref = r }) ≡ given_last k ff
unfolding given_last
given_last-ref zero r ff = ap (λ g. g ∷ []) (owed-ref ff.type r ff)
given_last-ref (suc k) r ff = ap (λ gs. nothing ∷ gs) (given_last-ref k r ff)

closes-suc :
    (k f : ℕ) (t n m : Ftable) (g : Given) (gs : List Given)
    → fileclose f t ≡ some (g, n)
    → closes k f n ≡ some (gs, m)
    → closes (suc k) f t ≡ some (g ∷ gs, m)
unfolding closes
closes-suc k f t n m g gs e later = rw (e, closes) (rw later refl)

-- The entry of a file behind its last close.
abbrev closed : ℕ → Ftable → Ftable
closed f t = update t f (record (t f) { ref = 0; type = fd_none })

closed-with_ref : (r f : ℕ) (t : Ftable) → closed f (with_ref r f t) ≡ closed f t
closed-with_ref r f t =
    let q : File = record (t f) { ref = r } in
    ap (λ (g : File). update (update t f q) f (record g { ref = 0; type = fd_none }))
      (update_self t f q)
    ∙ update-update t f q (record q { ref = 0; type = fd_none })

given_last-with_ref :
    (k r f : ℕ) (t : Ftable) → given_last k (with_ref r f t f) ≡ given_last k (t f)
given_last-with_ref k r f t =
    ap (given_last k) (update_self t f (record (t f) { ref = r })) ∙ given_last-ref k r (t f)

closes_lem :
    (k f : ℕ) (t : Ftable)
    → (t f).ref ≡ suc k
    → closes (suc k) f t ≡ some (given_last k (t f), closed f t)
unfolding closes given_last
closes_lem zero f t e =
    closes-suc 0 f t (closed f t) (closed f t) (owed (t f).type (t f)) [] (fileclose-last f t e)
      refl
closes_lem (suc k) f t e =
    let less = with_ref (suc k) f t in
    let at : (less f).ref ≡ suc k =
      ap (λ (g : File). g.ref) (update_self t f (record (t f) { ref = suc k })) in
    closes-suc (suc k) f t less (closed f t) nothing (given_last k (t f)) (fileclose-more k f t e) (
      closes_lem k f less at
      ∙ ap some (
          ap (λ gs. (gs, closed f less)) (given_last-with_ref k (suc k) f t)
          ∙ ap (λ n. (given_last k (t f), n)) (closed-with_ref (suc k) f t)))

-- A file with one reference that is duplicated `k` times, fewer than 2 ^ 31 - 1, and closed `k + 1`
-- times: no call panics; no close but the last gives up anything, and the last one gives up the
-- pipe end of a pipe, and the inode of a file or a device; the entry is free then, and no other
-- entry is changed.
pub fileclose-shared :
    (k f : ℕ) (t : Ftable)
    → (t f).ref ≡ 1
    → k + 1 < 2 ^ 31
    → (n : Ftable) × (dups k f t ≡ some n)
      × (closes (k + 1) f n
          ≡ some (given_last k (t f), update t f (record (t f) { ref = 0; type = fd_none })))
fileclose-shared k f t one small =
    let n = with_ref ((t f).ref + k) f t in
    let at : (n f).ref ≡ suc k =
      ap (λ (g : File). g.ref) (update_self t f (record (t f) { ref = (t f).ref + k }))
      ∙ omega (arith, one) in
    let rounds : suc k ≡ k + 1 = omega arith in
    (
      n,
      dups_lem k f t (omega (arith, one)) (omega (arith, one, small)),
      subst (λ m. closes m f n ≡ some (given_last k (t f), closed f t)) rounds
          (closes_lem k f n at
            ∙ ap some (
                ap (λ gs. (gs, closed f n)) (given_last-with_ref k ((t f).ref + k) f t)
                ∙ ap (λ m. (given_last k (t f), m)) (closed-with_ref ((t f).ref + k) f t))),
    )
