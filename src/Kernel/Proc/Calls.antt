-- ===== src/Kernel/Proc/Calls.antt =====
-- proc.c: fork, exit, wait and the growth of a process.
use listlib_and_system_calls.Common.{
  ℕ, ◌+◌, ◌-◌, ◌%◌, ◌^◌, Bool, true, Option, none, some, ltb, leb, ◌==◌, ◌&&◌, not, if◌then◌else◌,
  update, find_from, for_loop, ℤ, pos, negsuc,
}
use listlib_and_system_calls.Kernel.Strings.{safestrcpy}
use listlib_and_system_calls.Kernel.Proc.{
  nproc, nofile, runnable, zombie, Chan, no_chan, on_proc, Table, Memory, set_proc, allocproc,
  freeproc, wakeup, sleep, is_parent, is_zombie,
}

-- `filedup`, `fileclose`, `idup` and `iput` as they count; the panics and the work of a last close are
-- those of file.c and fs.c.
abbrev pub filedup : ℕ → Table → Table
filedup f t = record t { file_ref = update t.file_ref f (t.file_ref f + 1) }

abbrev pub fileclose : ℕ → Table → Table
fileclose f t = record t { file_ref = update t.file_ref f (t.file_ref f - 1) }

abbrev pub inode_up : Option ℕ → (ℕ → ℕ) → ℕ → ℕ
inode_up none refs = refs
inode_up (some i) refs = update refs i (refs i + 1)

abbrev pub inode_down : Option ℕ → (ℕ → ℕ) → ℕ → ℕ
inode_down none refs = refs
inode_down (some i) refs = update refs i (refs i - 1)

abbrev pub idup : Option ℕ → Table → Table
idup cwd t = record t { inode_ref = inode_up cwd t.inode_ref }

abbrev pub iput : Option ℕ → Table → Table
iput cwd t = record t { inode_ref = inode_down cwd t.inode_ref }

-- `safestrcpy` between two arrays of 16 bytes.
unfoldable pub copy_name : (ℕ → ℕ) → (ℕ → ℕ) → ℕ → ℕ
copy_name dst src i = safestrcpy 16 0 16 (λ a. if ltb a 16 then src a else dst (a - 16)) (16 + i)

-- The parent's registers, with 0 for the child's result. A process that runs has a trapframe.
unfoldable pub child_frame : Option (ℕ → ℕ) → Option (ℕ → ℕ)
child_frame none = none
child_frame (some regs) = some (update regs 0 0)

-- One round of the loop of `kfork` over the open files.
unfoldable pub dup_file : ℕ → ℕ → ℕ → Table → Table
dup_file me np fd t = elim ((t.proc me).ofile fd) [
  | none ↦ t
  | some f ↦
      filedup f
        (set_proc np (record (t.proc np) { ofile = update (t.proc np).ofile fd (some f) }) t)
]

-- What `kfork` fills in, when the child `np` has its memory.
unfoldable pub fill_child : ℕ → ℕ → Table → Table
fill_child me np t =
    let t1 =
      set_proc np
        (record (t.proc np) { sz = (t.proc me).sz; trapframe = child_frame (t.proc me).trapframe })
        t in
    let t2 = for_loop nofile 0 (dup_file me np) t1 in
    let t3 =
      idup (t2.proc me).cwd (set_proc np (record (t2.proc np) { cwd = (t2.proc me).cwd }) t2) in
    let t4 =
      set_proc np
        (record (t3.proc np) {
          name = copy_name (t3.proc np).name (t3.proc me).name;
          trace_mask = (t3.proc me).trace_mask;
        })
        t3 in
    let t5 = set_proc np (record (t4.proc np) { parent = some me }) t4 in
    set_proc np (record (t5.proc np) { state = runnable }) t5

-- `kfork` with an entry `np` for the child.
unfoldable pub fork_child : ℕ → Bool → ℕ → Table → Option ℕ × Table
fork_child me copied np t =
    if not copied
    then (none, freeproc np t)
    else let filled = fill_child me np t in (some (filled.proc np).pid, filled)

-- The child's pid, or -1 as `none`.
unfoldable pub kfork : ℕ → Memory → Table → Option ℕ × Table
kfork me mem t =
    let (found, t1) = allocproc mem t in
    elim found [ none ↦ (none, t1) | some np ↦ fork_child me mem.copied np t1 ]

-- `none` stands for the write through the NULL that `allocproc` may return.
unfoldable pub userinit : ℕ → Memory → Table → Option Table
userinit root mem t =
    let (found, t1) = allocproc mem t in
    elim found [
      | none ↦ none
      | some p ↦
          let t2 = record t1 { initproc = p } in
          some (set_proc p (record (t2.proc p) { cwd = some root; state = runnable }) t2)
    ]

-- One round of the loop of `reparent`.
unfoldable pub adopt : ℕ → ℕ → Table → Table
adopt me i t =
    if is_parent (t.proc i).parent me
    then wakeup me (on_proc t.initproc)
        (set_proc i (record (t.proc i) { parent = some t.initproc }) t)
    else t

unfoldable pub reparent : ℕ → Table → Table
reparent me t = for_loop nproc 0 (adopt me) t

-- One round of the loop of `kexit` over the open files.
unfoldable pub close_file : ℕ → ℕ → Table → Table
close_file me fd t = elim ((t.proc me).ofile fd) [
  | none ↦ t
  | some f ↦
      let t1 = fileclose f t in
      set_proc me (record (t1.proc me) { ofile = update (t1.proc me).ofile fd none }) t1
]

-- The parent as a channel.
abbrev pub parent_chan : Option ℕ → Chan
parent_chan none = no_chan
parent_chan (some q) = on_proc q

-- `kexit` behind its test, up to the call of `sched`.
unfoldable pub exit_proc : ℕ → ℤ → Table → Table
exit_proc me status t =
    let t1 = for_loop nofile 0 (close_file me) t in
    let t2 = iput (t1.proc me).cwd t1 in
    let t3 = set_proc me (record (t2.proc me) { cwd = none }) t2 in
    let t4 = reparent me t3 in
    let t5 = wakeup me (parent_chan (t4.proc me).parent) t4 in
    set_proc me (record (t5.proc me) { xstate = status; state = zombie }) t5

-- `none` is the panic of the first process.
unfoldable pub kexit : ℕ → ℤ → Table → Option Table
kexit me status t = if me == t.initproc then none else some (exit_proc me status t)

-- A round of `kwait`: it returns a pid with the status that it copies out, returns -1, or sleeps.
pub data WaitOutcome : Type 0 where
  reaps : ℕ → ℤ → WaitOutcome
  fails : WaitOutcome
  waits : WaitOutcome

-- `writable` says whether `copyout` of the status succeeds.
unfoldable pub kwait : ℕ → ℕ → Bool → Table → WaitOutcome × Table
kwait me addr writable t =
    let child : ℕ → Bool = λ i. is_parent (t.proc i).parent me in
    elim (find_from (λ i. child i && is_zombie (t.proc i).state) nproc 0) [
      | some i ↦
          if not (addr == 0) && not writable
          then (fails, t)
          else (reaps (t.proc i).pid (t.proc i).xstate, freeproc i t)
      | none ↦
          if elim (find_from child nproc 0) [ none ↦ true | some i ↦ not ((t.proc me).killed == 0) ]
          then (fails, t)
          else (waits, sleep me (on_proc me) t)
    ]

-- `grown` says whether `uvmalloc` has the pages, when the sum does not wrap around; 0, or -1 as `none`. Sizes are 64 bits wide: a shrink below 0
-- wraps around, and `uvmdealloc` then keeps the size.
unfoldable pub growproc : ℕ → ℤ → Bool → Table → Option ℕ × Table
growproc me (pos n) grown t =
    if n == 0
    then (some 0, t)
    else let sz = (t.proc me).sz in
      let new = (sz + n) % 2 ^ 64 in
      if ltb new sz
      then (some 0, t)
      else if not grown
      then (none, t)
      else (some 0, set_proc me (record (t.proc me) { sz = new }) t)
growproc me (negsuc n) grown t =
    let sz = (t.proc me).sz in
    let new = (sz + 2 ^ 64 - (n + 1)) % 2 ^ 64 in
    (some 0, set_proc me (record (t.proc me) { sz = if leb sz new then sz else new }) t)
