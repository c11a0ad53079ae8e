-- ===== src/Kernel/Strings/Moves.antt =====
-- `memmove` and `memset`: every byte of the target, and nothing else.
use native.Mathlib.Decide.{ℕ_discrete}
use listlib_and_system_calls.Common.{
  ◌-◌, for_loop-from_0, leb, if◌then◌else◌, sym, ap, false, ℕ, zero, suc, ◌+◌, ◌%◌, ◌≤◌, ◌<◌, ◌≡◌,
  ◌≢◌, ◌⊎◌, inl, inr, refl, ◌∙◌, arith, update, update_self, update_ne, ltb, ◌&&◌, Bool-cases, ◌==◌,
  subst,
}
use listlib_and_system_calls.Kernel.Strings.{memset, Memory, copy_down, copy_up, memmove}

-- The memory `after` is `mem` with `n` bytes from `s` copied to `d`.
pub record Moved (n s d : ℕ) (mem after : Memory) : Type 0 where
  pub inside : (j : ℕ) → j < n → after (d + j) ≡ mem (s + j)
  pub outside : (a : ℕ) → (a < d) ⊎ (d + n ≤ a) → after a ≡ mem a

pub copy_down-Moved : (n s d : ℕ) (mem : Memory) → s ≤ d → Moved n s d mem (copy_down n s d mem)
unfolding copy_down
copy_down-Moved zero s d mem before = record {
  inside = λ j h. absurd (omega arith);
  outside = λ a h. refl;
}
copy_down-Moved (suc n) s d mem before =
    let new = update mem (d + n) (mem (s + n)) in
    let rest = copy_down-Moved n s d new before in
    record {
      inside = λ j h. elim (ℕ_discrete j n) [
        | yes e ↦
            subst (λ i. copy_down n s d new (d + i) ≡ mem (s + i)) (sym e)
              (rest.outside (d + n) (inr (omega arith)) ∙ update_self mem (d + n) (mem (s + n)))
        | no ne ↦
            rest.inside j (omega (arith, ne))
            ∙ update_ne mem (d + n) (s + j) (mem (s + n)) (λ e. absurd (omega (arith, e)))
      ];
      outside =
          λ a h. rest.outside a (below a h) ∙ update_ne mem (d + n) a (mem (s + n)) (apart a h);
    }
  where
    below : (a : ℕ) → (a < d) ⊎ (d + suc n ≤ a) → (a < d) ⊎ (d + n ≤ a)
    below a (inl h) = inl h
    below a (inr h) = inr (omega arith)

    apart : (a : ℕ) → (a < d) ⊎ (d + suc n ≤ a) → d + n ≢ a
    apart a (inl h) = λ e. absurd (omega arith)
    apart a (inr h) = λ e. absurd (omega arith)

pub copy_up-Moved :
    (n s d : ℕ) (mem : Memory) → (d ≤ s) ⊎ (s + n ≤ d) → Moved n s d mem (copy_up n s d mem)
unfolding copy_up
copy_up-Moved zero s d mem clear = record {
  inside = λ j h. absurd (omega arith);
  outside = λ a h. refl;
}
copy_up-Moved (suc n) s d mem clear =
    let new = update mem d (mem s) in
    let rest = copy_up-Moved n (s + 1) (d + 1) new (still clear) in
    record {
      inside = first rest.inside (rest.outside d (inl (omega arith)));
      outside = λ a h. rest.outside a (below a h) ∙ update_ne mem d a (mem s) (apart a h);
    }
  where
    still : (d ≤ s) ⊎ (s + suc n ≤ d) → (d + 1 ≤ s + 1) ⊎ (s + 1 + n ≤ d + 1)
    still (inl h) = inl (omega arith)
    still (inr h) = inr (omega arith)

    below : (a : ℕ) → (a < d) ⊎ (d + suc n ≤ a) → (a < d + 1) ⊎ (d + 1 + n ≤ a)
    below a (inl h) = inl (omega arith)
    below a (inr h) = inr (omega arith)

    apart : (a : ℕ) → (a < d) ⊎ (d + suc n ≤ a) → d ≢ a
    apart a (inl h) = λ e. absurd (omega arith)
    apart a (inr h) = λ e. absurd (omega arith)

    after : Memory
    after = copy_up n (s + 1) (d + 1) (update mem d (mem s))

    away : (j : ℕ) → suc j < suc n → d ≢ s + suc j
    away j h e = elim clear [ inl c ↦ absurd (omega arith) | inr c ↦ absurd (omega arith) ]

    first :
        ((j : ℕ) → j < n → after (d + 1 + j) ≡ update mem d (mem s) (s + 1 + j))
        → after d ≡ update mem d (mem s) d
        → (j : ℕ) → j < suc n
        → after (d + j) ≡ mem (s + j)
    first later start zero h =
        let at : d ≡ d + 0 = omega arith in
        let from : s ≡ s + 0 = omega arith in
        subst (λ i. after i ≡ mem (s + 0)) at (start ∙ update_self mem d (mem s) ∙ ap mem from)
    first later start (suc j) h =
        let at : d + 1 + j ≡ d + suc j = omega arith in
        let from : s + 1 + j ≡ s + suc j = omega arith in
        subst (λ i. after i ≡ mem (s + suc j)) at
          (later j (omega arith)
            ∙ ap (update mem d (mem s)) from
            ∙ update_ne mem d (s + suc j) (mem s) (away j h))

pub memmove-Moved : (dst src n : ℕ) (mem : Memory) → Moved n src dst mem (memmove dst src n mem)
unfolding memmove
memmove-Moved dst src n mem = elim (Bool-cases (n == 0)) [
  | inl none_left ↦
      rw none_left
        record { inside = λ j h. absurd (ground (arith, none_left)); outside = λ a h. refl }
  | inr some_left ↦ elim (Bool-cases (ltb src dst && ltb dst (src + n))) [
    | inl overlap ↦
        rw (some_left, overlap) (copy_down-Moved n src dst mem (ground (arith, overlap)))
    | inr clear ↦ rw (some_left, clear) (copy_up-Moved n src dst mem (order clear))
  ]
]
  where
    order : (ltb src dst && ltb dst (src + n)) ≡ false → (dst ≤ src) ⊎ (src + n ≤ dst)
    order e = ground arith

-- However the two ranges overlap, behind `memmove` each byte of the target is the byte that stood at its place in the source
-- before the call, and every other byte of the memory is as it was.
pub memmove_lem :
    (dst src n a : ℕ) (mem : Memory)
    → memmove dst src n mem a
      ≡ (if leb dst a && ltb a (dst + n) then mem (src + (a - dst)) else mem a)
memmove_lem dst src n a mem =
    let moved = memmove-Moved dst src n mem in
    elim (Bool-cases (leb dst a && ltb a (dst + n))) [
      | inl within ↦
          let at : dst + (a - dst) ≡ a = ground (arith, within) in
          rw within (
            subst (λ i. memmove dst src n mem i ≡ mem (src + (a - dst))) at
              (moved.inside (a - dst) (ground (arith, within))))
      | inr off ↦ rw off (moved.outside a (beside off))
    ]
  where
    beside : (leb dst a && ltb a (dst + n)) ≡ false → (a < dst) ⊎ (dst + n ≤ a)
    beside e = ground arith

memset-each :
    (dst c n a : ℕ) (mem : Memory) (j : ℕ) (m : Memory)
    → m a ≡ (if leb dst a && ltb a (dst + j) then c % 256 else mem a)
    → update m (dst + j) (c % 256) a
      ≡ (if leb dst a && ltb a (dst + (j + 1)) then c % 256 else mem a)
unfolding update
memset-each dst c n a mem j m e = ground (arith, e)

-- Behind `memset` each byte of the target is the low byte of `c`, and every other byte of the memory is as it was.
pub memset_lem :
    (dst c n a : ℕ) (mem : Memory)
    → memset dst c n mem a ≡ (if leb dst a && ltb a (dst + n) then c % 256 else mem a)
unfolding memset
memset_lem dst c n a mem =
    for_loop-from_0 (λ j m. m a ≡ (if leb dst a && ltb a (dst + j) then c % 256 else mem a)) n
      (λ i m. update m (dst + i) (c % 256)) mem (λ j m to e. memset-each dst c n a mem j m e)
      (ground arith)
