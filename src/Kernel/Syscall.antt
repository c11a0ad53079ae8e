-- ===== src/Kernel/Syscall.antt =====
-- syscall.c: the arguments of a system call, its dispatch, and the trace of the assignment.
use listlib_and_system_calls.Common.{
  ℕ, zero, suc, ◌+◌, ◌-◌, ◌%◌, ◌/◌, ◌^◌, Bool, true, false, Option, none, some, ltb, ◌==◌, ◌&&◌,
  if◌then◌else◌, update, ℤ, pos, negsuc, List, [], ◌∷◌, get_elem?,
}
use listlib_and_system_calls.Kernel.Proc.{Proc, Table, set_proc}
pub mod Calls
pub mod Traces
pub mod Tests

-- The system calls of syscall.h.
pub data Call : Type 0 where
  sys_fork : Call
  sys_exit : Call
  sys_wait : Call
  sys_pipe : Call
  sys_read : Call
  sys_kill : Call
  sys_exec : Call
  sys_fstat : Call
  sys_chdir : Call
  sys_dup : Call
  sys_getpid : Call
  sys_sbrk : Call
  sys_pause : Call
  sys_uptime : Call
  sys_open : Call
  sys_write : Call
  sys_mknod : Call
  sys_unlink : Call
  sys_link : Call
  sys_mkdir : Call
  sys_close : Call
  sys_trace : Call

-- The array `syscalls` from index 1; index 0 is NULL.
abbrev pub syscalls : List Call
syscalls =
    sys_fork ∷ sys_exit ∷ sys_wait ∷ sys_pipe ∷ sys_read ∷ sys_kill ∷ sys_exec ∷ sys_fstat
    ∷ sys_chdir ∷ sys_dup ∷ sys_getpid ∷ sys_sbrk ∷ sys_pause ∷ sys_uptime ∷ sys_open ∷ sys_write
    ∷ sys_mknod ∷ sys_unlink ∷ sys_link ∷ sys_mkdir ∷ sys_close ∷ sys_trace ∷ []

-- The array `syscall_names`; a name is written as the call that it names.
abbrev pub syscall_names : List Call
syscall_names =
    sys_fork ∷ sys_exit ∷ sys_wait ∷ sys_pipe ∷ sys_read ∷ sys_kill ∷ sys_exec ∷ sys_fstat
    ∷ sys_chdir ∷ sys_dup ∷ sys_getpid ∷ sys_sbrk ∷ sys_pause ∷ sys_uptime ∷ sys_open ∷ sys_write
    ∷ sys_mknod ∷ sys_unlink ∷ sys_link ∷ sys_mkdir ∷ sys_close ∷ sys_trace ∷ []

-- The entry of an array that starts at index 1.
unfoldable pub entry : List Call → ℕ → Option Call
entry calls zero = none
entry calls (suc i) = get_elem? calls i

-- A 64-bit word cut to an `int`, and an `int` as a 64-bit word.
unfoldable pub to_int : ℕ → ℤ
to_int w = let low = w % 2 ^ 32 in if ltb low (2 ^ 31) then pos low else negsuc (2 ^ 32 - 1 - low)

unfoldable pub to_word : ℤ → ℕ
to_word (pos n) = n
to_word (negsuc n) = 2 ^ 64 - 1 - n

-- The registers of a process in the kernel, a0 to a7 by number; it has a trapframe.
unfoldable pub registers : ℕ → Table → ℕ → ℕ
registers me t r = elim (t.proc me).trapframe [ none ↦ 0 | some regs ↦ regs r ]

unfoldable pub set_a0 : ℕ → ℕ → Table → Table
set_a0 me v t =
    set_proc me
      (record (t.proc me) {
        trapframe = elim (t.proc me).trapframe [ none ↦ none | some regs ↦ some (update regs 0 v) ];
      })
      t

-- `none` is the panic.
unfoldable pub argraw : ℕ → ℕ → Table → Option ℕ
argraw me n t = if ltb n 6 then some (registers me t n) else none

-- `argint` and `argaddr` for the numbers of arguments that the calls use.
unfoldable pub argint : ℕ → ℕ → Table → Option ℤ
argint me n t = elim (argraw me n t) [ none ↦ none | some w ↦ some (to_int w) ]

unfoldable pub argaddr : ℕ → ℕ → Table → Option ℕ
argaddr me n t = argraw me n t

-- What `syscall` prints.
pub data Message : Type 0 where
  called : ℕ → Call → ℤ → Message
  numbered : ℕ → ℕ → ℤ → Message
  unknown : ℕ → ℤ → Message

-- `mask & (1 << num)` is not 0.
unfoldable pub traces : ℕ → ℕ → Bool
traces mask num = (mask / 2 ^ num) % 2 == 1

-- `syscall` behind the call of the handler.
unfoldable pub finish : ℕ → ℕ → ℕ → Table → List Message × Table
finish me num ret t =
    let t1 = set_a0 me ret t in
    if traces (t1.proc me).trace_mask num
    then (
      elim (entry syscall_names num) [
        | some name ↦ called (t1.proc me).pid name (to_int ret) ∷ []
        | none ↦ numbered (t1.proc me).pid num (to_int ret) ∷ []
      ],
      t1,
    )
    else ([], t1)

unfoldable pub refuse : ℕ → ℤ → Table → List Message × Table
refuse me num t = (unknown (t.proc me).pid num ∷ [], set_a0 me (2 ^ 64 - 1) t)

-- `handle` runs the function of a call: its result and the new table.
unfoldable pub syscall : ℕ → (Call → Table → ℕ × Table) → Table → List Message × Table
syscall me handle t = elim (to_int (registers me t 7)) [
  | negsuc n ↦ refuse me (negsuc n) t
  | pos num ↦ elim (entry syscalls num) [
    | none ↦ refuse me (pos num) t
    | some call ↦ let (ret, t1) = handle call t in finish me num ret t1
  ]
]
