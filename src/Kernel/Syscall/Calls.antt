-- ===== src/Kernel/Syscall/Calls.antt =====
-- sysproc.c: the system calls about processes.
use listlib_and_system_calls.Common.{
  ℕ, ◌+◌, ◌-◌, ◌%◌, ◌^◌, Bool, true, false, Option, none, some, ltb, ◌==◌, ◌||◌, not, if◌then◌else◌,
  ℤ, pos, negsuc,
}
use listlib_and_system_calls.Kernel.Proc.{Table, Memory, set_proc, kkill}
use listlib_and_system_calls.Kernel.Proc.Calls.{kfork, kexit, kwait, growproc, reaps, fails, waits}
use listlib_and_system_calls.Kernel.Syscall.{registers, to_int, to_word}

abbrev pub minus_one : ℕ
minus_one = 2 ^ 64 - 1

-- A result that is -1 when there is none.
abbrev pub result : Option ℕ → ℕ
result none = minus_one
result (some n) = n

unfoldable pub run_trace : ℕ → Table → ℕ × Table
run_trace me t =
    (0, set_proc me (record (t.proc me) { trace_mask = to_word (to_int (registers me t 0)) }) t)

unfoldable pub run_exit : ℕ → Table → Option Table
run_exit me t = kexit me (to_int (registers me t 0)) t

unfoldable pub run_getpid : ℕ → Table → ℕ × Table
run_getpid me t = ((t.proc me).pid, t)

unfoldable pub run_fork : ℕ → Memory → Table → ℕ × Table
run_fork me mem t = let (r, t1) = kfork me mem t in (result r, t1)

-- A round of the wait: `none` when it sleeps.
unfoldable pub run_wait : ℕ → Bool → Table → Option ℕ × Table
run_wait me writable t =
    let (outcome, t1) = kwait me (registers me t 0) writable t in
    (elim outcome [ reaps pid status ↦ some pid | fails ↦ some minus_one | waits ↦ none ], t1)

abbrev is_negative : ℤ → Bool
is_negative (pos n) = false
is_negative (negsuc n) = true

abbrev magnitude : ℤ → ℕ
magnitude (pos n) = n
magnitude (negsuc n) = 0

-- `t == SBRK_EAGER`
abbrev is_eager : ℤ → Bool
is_eager (pos n) = n == 1
is_eager (negsuc n) = false

-- The result of `growproc`: -1, or the old size.
abbrev grow_result : ℕ → Option ℕ × Table → ℕ × Table
grow_result addr r = (elim r.0 [ none ↦ minus_one | some z ↦ addr ], r.1)

unfoldable pub run_sbrk : ℕ → Bool → Table → ℕ × Table
run_sbrk me grown t =
    let n = to_int (registers me t 0) in
    let addr = (t.proc me).sz in
    let new = (addr + magnitude n) % 2 ^ 64 in
    if is_eager (to_int (registers me t 1)) || is_negative n
    then grow_result addr (growproc me n grown t)
    else if ltb new addr
    then (minus_one, t)
    else (addr, set_proc me (record (t.proc me) { sz = new }) t)

-- A round of the loop of `sys_pause`: its result, or `none` when it sleeps. `ticks` counts modulo 2 ^ 32.
unfoldable pub run_pause : ℕ → ℕ → ℕ → Table → Option ℕ
run_pause me ticks0 ticks t =
    let n = magnitude (to_int (registers me t 0)) in
    if not (ltb ((ticks + 2 ^ 32 - ticks0) % 2 ^ 32) n)
    then some 0
    else if not ((t.proc me).killed == 0)
    then some minus_one
    else none

-- Process ids are not negative.
unfoldable pub run_kill : ℕ → Table → ℕ × Table
run_kill me t = elim (to_int (registers me t 0)) [
  | negsuc n ↦ (minus_one, t)
  | pos pid ↦ let (r, t1) = kkill pid t in (result r, t1)
]

-- `ticks` is an unsigned int.
unfoldable pub run_uptime : ℕ → Table → ℕ × Table
run_uptime ticks t = (ticks, t)
