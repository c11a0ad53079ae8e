-- ===== src/Kernel/Syscall/Tests.antt =====
-- The theorems on system calls at a concrete table.
use listlib_and_system_calls.Common.{
  update, ℕ, ◌≡◌, refl, arith, some, if◌then◌else◌, find_from, ◌==◌,
}
use listlib_and_system_calls.Kernel.Proc.{Table, is_unused, nproc}
use listlib_and_system_calls.Kernel.Proc.Calls.{kfork}
use listlib_and_system_calls.Kernel.Proc.Forks.{enough_memory}
use listlib_and_system_calls.Kernel.Proc.Tests.{empty_proc, first_proc}
use listlib_and_system_calls.Kernel.Syscall.{Call, to_int, to_word, registers, syscall}
use listlib_and_system_calls.Kernel.Syscall.Calls.{run_trace}
use listlib_and_system_calls.Kernel.Syscall.Traces.{Dispatches, syscall-Dispatches, trace-inherits}

-- One process, with `a7` in that register and 2048 in the others.
abbrev calling : ℕ → Table
calling a7 = record {
  proc = λ i.
      if i == 0
      then record first_proc { trapframe = some (λ r. if r == 7 then a7 else 2048) }
      else empty_proc;
  nextpid = 2;
  initproc = 0;
  file_ref = λ f. 0;
  inode_ref = λ i. 1;
}

abbrev answer : Call → Table → ℕ × Table
answer call t = (5, t)

syscall-Dispatches_example : Dispatches 0 answer (calling 11) 11 (syscall 0 answer (calling 11))
syscall-Dispatches_example =
    syscall-Dispatches 0 answer (calling 11) (λ r. if r == 7 then 11 else 2048) refl

second_free :
    find_from (λ j. is_unused ((run_trace 0 (calling 22)).1.proc j).state) nproc 0 ≡ some 1
unfolding find_from run_trace update
second_free = refl

trace-inherits_example :
    let r = kfork 0 (enough_memory 8192) (run_trace 0 (calling 22)).1 in
    ((r.1.proc 1).trace_mask ≡ to_word (to_int (registers 0 (calling 22) 0)))
    × ((r.1.proc 0).trace_mask ≡ to_word (to_int (registers 0 (calling 22) 0)))
trace-inherits_example =
    trace-inherits 0 8192 1 (calling 22) second_free (λ e. absurd (omega arith))

mask_read : to_word (to_int (registers 0 (calling 22) 0)) ≡ 2048
unfolding to_word to_int registers
mask_read = refl
