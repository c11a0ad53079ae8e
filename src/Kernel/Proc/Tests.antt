-- ===== src/Kernel/Proc/Tests.antt =====
-- Runs of the process table, and its theorems at a concrete one.
use listlib_and_system_calls.Common.{
  ◌<◌, ◌≡◌, ◌≢◌, refl, arith, some, none, ◌==◌, if◌then◌else◌, find_from, pos,
}
use listlib_and_system_calls.Kernel.Proc.{
  nproc, Proc, Table, is_unused, running, runnable, unused, no_chan, kkill,
}
use listlib_and_system_calls.Kernel.Proc.Calls.{kfork}
use listlib_and_system_calls.Kernel.Proc.Pids.{Pids}
use listlib_and_system_calls.Kernel.Proc.Forks.{child_registers, kfork_lem, enough_memory}
use listlib_and_system_calls.Kernel.Proc.Reach.{Reachable, boots, pids_distinct, kkill_zero}

-- Only the first entry is in use.
abbrev pub empty_proc : Proc
empty_proc = record {
  state = unused;
  chan = no_chan;
  killed = 0;
  xstate = pos 0;
  pid = 0;
  parent = none;
  sz = 0;
  pagetable = none;
  trapframe = none;
  ofile = λ fd. none;
  cwd = none;
  name = λ i. 0;
  trace_mask = 0;
}

abbrev pub first_proc : Proc
first_proc = record empty_proc {
  state = running;
  pid = 1;
  sz = 4096;
  trapframe = some (λ r. r);
  cwd = some 1;
  trace_mask = 32;
}

abbrev pub one_proc : Table
one_proc = record {
  proc = λ i. if i == 0 then first_proc else empty_proc;
  nextpid = 2;
  initproc = 0;
  file_ref = λ f. 0;
  inode_ref = λ i. 1;
}

one_proc-Pids : Pids 2 one_proc
one_proc-Pids = record {
  fresh = omega arith;
  reached = omega arith;
  free = λ i u. ground arith;
  held = λ i u. (ground arith, ground arith);
  once = λ i j u e. ground arith;
}

second_free : find_from (λ j. is_unused (one_proc.proc j).state) nproc 0 ≡ some 1
unfolding find_from
second_free = refl

kfork_lem_example :
    let r = kfork 0 (enough_memory 8192) one_proc in
    let c = r.1.proc 1 in
    (r.0 ≡ some 2)
    × (c.pid ≡ 2)
    × (c.state ≡ runnable)
    × (c.parent ≡ some 0)
    × (c.sz ≡ 4096)
    × (c.trapframe ≡ child_registers (some (λ r. r)))
    × (c.cwd ≡ some 1)
    × (c.trace_mask ≡ 32)
    × (c.killed ≡ 0)
    × (r.1.proc 5 ≡ empty_proc)
kfork_lem_example =
    kfork_lem 0 8192 1 5 one_proc second_free (λ e. absurd (omega arith))
      (λ e. absurd (omega arith))

one_proc-Reachable : Reachable 2 one_proc
one_proc-Reachable = boots 2 one_proc one_proc-Pids

pids_distinct_example :
    ((one_proc.proc 0).pid ≢ 0)
    × ((one_proc.proc 0).pid < one_proc.nextpid)
    × ((one_proc.proc 0).pid ≢ (one_proc.proc 3).pid)
pids_distinct_example =
    pids_distinct 2 one_proc 0 3 one_proc-Reachable (omega arith) refl (λ e. absurd (omega arith))

kkill_zero_example :
    ((kkill 0 one_proc).0 ≡ some 0)
    × ((kfork 0 (enough_memory 8192) (kkill 0 one_proc).1).0 ≡ some 2)
    × (((kfork 0 (enough_memory 8192) (kkill 0 one_proc).1).1.proc 1).killed ≡ 1)
kkill_zero_example =
    kkill_zero 2 0 8192 1 one_proc one_proc-Reachable (omega arith) second_free
      (λ e. absurd (omega arith))
