-- ===== src/Kernel/Syscall/Traces.antt =====
-- What a system call returns and prints, and how the trace mask travels.
use listlib_and_system_calls.Common.{
  zero, suc, arith, ◌≤◌, ltb, length, refl, ◌<◌, Option-cases, ◌/◌, ◌⊎◌, suc, List, ◌==◌, get_elem?,
  update, ◌%◌, ◌-◌, ℕ, ◌^◌, ◌≡◌, ◌≢◌, inl, inr, ◌∙◌, ap, none, some, if◌then◌else◌, [], ◌∷◌, ℤ, pos,
  negsuc, update_self, Bool-cases, find_from,
}
use listlib_and_system_calls.Kernel.Proc.{Proc, Table, nproc, is_unused}
use listlib_and_system_calls.Kernel.Proc.Calls.{kfork}
use listlib_and_system_calls.Kernel.Proc.Forks.{kfork_lem, enough_memory}
use listlib_and_system_calls.Kernel.Syscall.{
  Message, Call, syscalls, entry, to_int, to_word, registers, set_a0, called, unknown, traces,
  finish, refuse, syscall,
}
use listlib_and_system_calls.Kernel.Syscall.Calls.{run_trace}

-- The table with a word in the first register of a process, a0, and all else as it was.
abbrev pub returned : ℕ → ℕ → Table → Table
returned me v t = record t {
  proc = λ a.
      if me == a
      then record (t.proc me) {
        trapframe = elim (t.proc me).trapframe [
          | none ↦ none
          | some regs ↦ some (λ r. if 0 == r then v else regs r)
        ];
      }
      else t.proc a;
}

set_a0-returned : (me v : ℕ) (t : Table) → set_a0 me v t ≡ returned me v t
unfolding set_a0 update
set_a0-returned me v t = refl

set_a0-proc :
    (me v : ℕ) (t : Table)
    → (((set_a0 me v t).proc me).trace_mask ≡ (t.proc me).trace_mask)
      × (((set_a0 me v t).proc me).pid ≡ (t.proc me).pid)
unfolding set_a0
set_a0-proc me v t = (
  ap (λ (q : Proc). q.trace_mask) (update_self t.proc me _),
  ap (λ (q : Proc). q.pid) (update_self t.proc me _),
)

-- The line of a traced call.
abbrev pub line : ℕ → ℕ → Call → ℕ → Table → List Message
line me num call ret t =
    if ((t.proc me).trace_mask / 2 ^ num) % 2 == 1
    then called (t.proc me).pid call (to_int ret) ∷ []
    else []

finish_lem :
    (me num ret : ℕ) (call : Call) (t : Table)
    → get_elem? syscalls num ≡ some call
    → finish me (suc num) ret t ≡ (line me (suc num) call ret t, returned me ret t)
unfolding finish traces entry
finish_lem me num ret call t e =
    let (mask, pid) = set_a0-proc me ret t in
    rw (finish, mask)
      elim (Bool-cases (((t.proc me).trace_mask / 2 ^ suc num) % 2 == 1)) [
        | inl on ↦
            rw (on, e, pid)
              (ap (λ n. (called (t.proc me).pid call (to_int ret) ∷ [], n))
                (set_a0-returned me ret t))
        | inr off ↦ rw off (ap (λ n. ([], n)) (set_a0-returned me ret t))
      ]

-- The ends of `syscall` for the 32 bits of a7: a call of the table, or the refusal.
abbrev pub Dispatches : ℕ → (Call → Table → ℕ × Table) → Table → ℕ → List Message × Table → Type 0
Dispatches me handle t a7 end =
    ((num : ℕ) × (call : Call) × (a7 % 2 ^ 32 ≡ suc num)
      × (get_elem? syscalls num ≡ some call)
      × (end ≡ (
        line me (suc num) call (handle call t).0 (handle call t).1,
        returned me (handle call t).0 (handle call t).1,
      )))
    ⊎ (((a7 % 2 ^ 32 ≡ 0) ⊎ (22 < a7 % 2 ^ 32))
        × (end ≡ (unknown (t.proc me).pid (to_int a7) ∷ [], returned me (2 ^ 64 - 1) t)))

get_elem?-none : (xs : List Call) (i : ℕ) → get_elem? xs i ≡ none → length xs ≤ i
get_elem?-none [] i e = omega arith
get_elem?-none (x ∷ xs) zero e = absurd (cc e)
get_elem?-none (x ∷ xs) (suc i) e = omega (arith, get_elem?-none xs i e)

-- The two ranges of an `int`.
to_int_cases :
    (w : ℕ)
    → (to_int w ≡ pos (w % 2 ^ 32))
      ⊎ ((to_int w ≡ negsuc (2 ^ 32 - 1 - w % 2 ^ 32)) × (2 ^ 31 ≤ w % 2 ^ 32))
unfolding to_int
to_int_cases w = elim (Bool-cases (ltb (w % 2 ^ 32) (2 ^ 31))) [
  | inl small ↦ inl (rw small refl)
  | inr large ↦ inr (rw large refl, ground (arith, large))
]

module _ (me : ℕ) (handle : Call → Table → ℕ × Table) (t : Table) (regs : ℕ → ℕ)
    (frame : (t.proc me).trapframe ≡ some regs) where
  a7-read : registers me t 7 ≡ regs 7
  unfolding registers
  a7-read = rw (frame, registers) refl

  refused :
      (num : ℤ) → refuse me num t ≡ (unknown (t.proc me).pid num ∷ [], returned me (2 ^ 64 - 1) t)
  unfolding refuse
  refused num = ap (λ n. (unknown (t.proc me).pid num ∷ [], n)) (set_a0-returned me (2 ^ 64 - 1) t)

  pos_number :
      (low : ℕ)
      → regs 7 % 2 ^ 32 ≡ low
      → to_int (regs 7) ≡ pos low
      → Dispatches me handle t (regs 7) (syscall me handle t)
  unfolding syscall entry
  pos_number zero e at = inr (inl e, rw (a7-read, at, syscall, entry) (refused (pos 0)))
  pos_number (suc num) e at = elim (Option-cases (get_elem? syscalls num)) [
    | inl beyond ↦ inr (
      inr (omega (arith, e, get_elem?-none syscalls num beyond)),
      rw (a7-read, at, syscall, entry, beyond) (refused (pos (suc num))),
    )
    | inr (call, found) ↦ inl (
      num,
      call,
      e,
      found,
      rw (a7-read, at, syscall, entry, found)
          (finish_lem me num (handle call t).0 call (handle call t).1 found),
    )
  ]

  -- `syscall` of a process with registers, for every number in the low 32 bits of a7. For 1 to 22,
  -- the call of this number is made, its result stands in a0 and nothing else is changed behind it,
  -- and exactly when the bit of the number is set in the trace mask behind the call, one line with
  -- the pid, the name of this call and the result is printed. For any other number no call is made,
  -- a0 gets -1, and the line that is printed names the number.
  pub syscall-Dispatches : Dispatches me handle t (regs 7) (syscall me handle t)
  unfolding syscall
  syscall-Dispatches = elim (to_int_cases (regs 7)) [
    | inl at ↦ pos_number (regs 7 % 2 ^ 32) refl at
    | inr (at, large) ↦ inr (
      inr (omega (arith, large)),
      rw (a7-read, at, syscall) (refused (negsuc (2 ^ 32 - 1 - regs 7 % 2 ^ 32))),
    )
  ]

-- With enough memory and a first unused entry `i` that is not the caller's, a child forked behind the call trace(mask) has the mask of the
-- call, as has the caller.
pub trace-inherits :
    (me root i : ℕ) (t : Table)
    → find_from (λ j. is_unused ((run_trace me t).1.proc j).state) nproc 0 ≡ some i
    → i ≢ me
    → let r = kfork me (enough_memory root) (run_trace me t).1 in
      ((r.1.proc i).trace_mask ≡ to_word (to_int (registers me t 0)))
      × ((r.1.proc me).trace_mask ≡ to_word (to_int (registers me t 0)))
unfolding run_trace
trace-inherits me root i t free apart =
    let marked = (run_trace me t).1 in
    let own : (marked.proc me).trace_mask ≡ to_word (to_int (registers me t 0)) =
      ap (λ (q : Proc). q.trace_mask) (update_self t.proc me _) in
    let f = kfork_lem me root i me marked free apart apart in
    (f.7 ∙ own, ap (λ (q : Proc). q.trace_mask) f.9 ∙ own)
