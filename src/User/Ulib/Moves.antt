-- ===== src/User/Ulib/Moves.antt =====
-- The two versions of memmove.
use listlib_and_system_calls.Common.{
  ℕ, ◌+◌, ◌-◌, ◌<◌, ◌≤◌, ◌≡◌, inl, inr, ltb, fun_ext, sym, ◌∙◌, arith, Bool-cases, subst, ltb→lt,
}
use listlib_and_system_calls.Kernel.Strings as Kernel
use listlib_and_system_calls.Kernel.Strings.{Memory, copy_up, copy_down}
use listlib_and_system_calls.Kernel.Strings.Moves.{
  Moved, copy_up-Moved, copy_down-Moved, memmove-Moved as kernel_memmove-Moved,
}
use listlib_and_system_calls.User.Ulib.{memmove}

-- Where a block moves to settles the memory.
Moved-unique :
    (n s d : ℕ) (mem after after' : Memory)
    → Moved n s d mem after
    → Moved n s d mem after'
    → after ≡ after'
Moved-unique n s d mem after after' m m' = fun_ext λ a. elim (Bool-cases (ltb a d)) [
  | inl before ↦
      m.outside a (inl (ltb→lt a d before)) ∙ sym (m'.outside a (inl (ltb→lt a d before)))
  | inr from ↦ elim (Bool-cases (ltb a (d + n))) [
    | inl in_block ↦
        let e : d + (a - d) ≡ a = ground (arith, from) in
        let small : a - d < n = ground (arith, from, in_block) in
        subst (λ b. after b ≡ after' b) e (m.inside (a - d) small ∙ sym (m'.inside (a - d) small))
    | inr behind ↦
        let far : d + n ≤ a = ground (arith, behind) in
        m.outside a (inr far) ∙ sym (m'.outside a (inr far))
  ]
]

memmove-Moved : (n s d : ℕ) (mem : Memory) → Moved n s d mem (memmove d s n mem)
unfolding memmove
memmove-Moved n s d mem = elim (Bool-cases (ltb d s)) [
  | inl up ↦ rw up (copy_up-Moved n s d mem (inl (ground (arith, up))))
  | inr down ↦ rw down (copy_down-Moved n s d mem (ground (arith, down)))
]

-- However the ranges overlap, and also if they are the same: memmove of the user library, which
-- chooses its direction by one test, leaves the same memory as that of the kernel, which does so by
-- three.
pub memmove-same :
    (dst src n : ℕ) (mem : Memory) → memmove dst src n mem ≡ Kernel.memmove dst src n mem
memmove-same dst src n mem =
    Moved-unique n src dst mem (memmove dst src n mem) (Kernel.memmove dst src n mem)
      (memmove-Moved n src dst mem) (kernel_memmove-Moved dst src n mem)
