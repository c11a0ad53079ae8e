-- ===== src/Kernel/Proc.antt =====
-- proc.c: the table of processes.
use listlib_and_system_calls.Common.{
  ◌^◌, ◌%◌, ℕ, zero, suc, ◌+◌, Bool, true, false, Option, none, some, ltb, ◌==◌, ◌&&◌, not,
  if◌then◌else◌, update, find_from, for_loop, ℤ, pos,
}
use listlib_and_system_calls.Kernel.Strings.{safestrcpy}
pub mod Calls
pub mod Wakes
pub mod Pids
pub mod Forks
pub mod Steps
pub mod Reach
pub mod Tests

abbrev pub nproc : ℕ
nproc = 64

abbrev pub nofile : ℕ
nofile = 16

-- `enum procstate`
pub data ProcState : Type 0 where
  unused : ProcState
  used : ProcState
  sleeping : ProcState
  runnable : ProcState
  running : ProcState
  zombie : ProcState

-- What a process sleeps on: no channel, the `struct proc` of an index, or another address.
pub data Chan : Type 0 where
  no_chan : Chan
  on_proc : ℕ → Chan
  on_addr : ℕ → Chan

-- `struct proc`: pages and files by number; registers by number, `a0` the first. A `parent` of `none` is
-- NULL. The lock, the kernel stack and the saved context are left out.
pub record Proc : Type 0 where
  pub state : ProcState
  pub chan : Chan
  pub killed : ℕ
  pub xstate : ℤ
  pub pid : ℕ
  pub parent : Option ℕ
  pub sz : ℕ
  pub pagetable : Option ℕ
  pub trapframe : Option (ℕ → ℕ)
  pub ofile : ℕ → Option ℕ
  pub cwd : Option ℕ
  pub name : ℕ → ℕ
  pub trace_mask : ℕ

-- The globals, with the reference counts that `filedup`, `fileclose`, `idup` and `iput` change.
pub record Table : Type 0 where
  pub proc : ℕ → Proc
  pub nextpid : ℕ
  pub initproc : ℕ
  pub file_ref : ℕ → ℕ
  pub inode_ref : ℕ → ℕ

-- What the memory gives: whether `kalloc` has a page for the trapframe, the root page of
-- `proc_pagetable`, and whether `uvmcopy` succeeds.
pub record Memory : Type 0 where
  pub has_page : Bool
  pub root : Option ℕ
  pub copied : Bool

abbrev pub is_unused : ProcState → Bool
is_unused s = elim s [ unused ↦ true | _ ↦ false ]

abbrev pub is_sleeping : ProcState → Bool
is_sleeping s = elim s [ sleeping ↦ true | _ ↦ false ]

abbrev pub is_zombie : ProcState → Bool
is_zombie s = elim s [ zombie ↦ true | _ ↦ false ]

abbrev pub is_runnable : ProcState → Bool
is_runnable s = elim s [ runnable ↦ true | _ ↦ false ]

-- `p->chan == chan`
unfoldable pub same_chan : Chan → Chan → Bool
same_chan no_chan no_chan = true
same_chan (on_proc i) (on_proc j) = i == j
same_chan (on_addr a) (on_addr b) = a == b
same_chan _ _ = false

abbrev pub is_parent : Option ℕ → ℕ → Bool
is_parent none p = false
is_parent (some q) p = q == p

abbrev pub set_proc : ℕ → Proc → Table → Table
set_proc i q t = record t { proc = update t.proc i q }

-- `nextpid` and the pids are `int`s, kept by their bits; C leaves open what is behind 2 ^ 31 - 1.
unfoldable pub allocpid : Table → ℕ × Table
allocpid t = (t.nextpid, record t { nextpid = (t.nextpid + 1) % 2 ^ 32 })

unfoldable pub freeproc : ℕ → Table → Table
freeproc i t =
    set_proc i
      (record (t.proc i) {
        trapframe = none;
        pagetable = none;
        sz = 0;
        pid = 0;
        parent = none;
        name = update (t.proc i).name 0 0;
        chan = no_chan;
        killed = 0;
        xstate = pos 0;
        state = unused;
      })
      t

-- A page from `kalloc` holds fives.
abbrev pub new_trapframe : ℕ → ℕ
new_trapframe r = 361700864190383365

-- `allocproc` from the label `found`.
unfoldable pub found_proc : Memory → ℕ → Table → Option ℕ × Table
found_proc mem i t =
    let (pid, t1) = allocpid t in
    let t2 = set_proc i (record (t1.proc i) { pid = pid; state = used }) t1 in
    if not mem.has_page
    then (none, freeproc i (set_proc i (record (t2.proc i) { trapframe = none }) t2))
    else let t3 = set_proc i (record (t2.proc i) { trapframe = some new_trapframe }) t2 in
      let t4 = set_proc i (record (t3.proc i) { pagetable = mem.root }) t3 in
      elim mem.root [ none ↦ (none, freeproc i t4) | some root ↦ (some i, t4) ]

unfoldable pub allocproc : Memory → Table → Option ℕ × Table
allocproc mem t = elim (find_from (λ i. is_unused (t.proc i).state) nproc 0) [
  | none ↦ (none, t)
  | some i ↦ found_proc mem i t
]

-- One round of the loop of `wakeup`.
unfoldable pub wake : ℕ → Chan → ℕ → Proc → Proc
wake me chan i q =
    if not (i == me) && (is_sleeping q.state && same_chan q.chan chan)
    then record q { state = runnable }
    else q

-- `me` is `myproc()`.
unfoldable pub wakeup : ℕ → Chan → Table → Table
wakeup me chan t = record t {
  proc = for_loop nproc 0 (λ i ps. update ps i (wake me chan i (ps i))) t.proc;
}

-- The two halves of `sleep`, in front of `sched` and behind it.
unfoldable pub sleep : ℕ → Chan → Table → Table
sleep me chan t = set_proc me (record (t.proc me) { chan = chan; state = sleeping }) t

unfoldable pub tidy_up : ℕ → Table → Table
tidy_up me t = set_proc me (record (t.proc me) { chan = no_chan }) t

unfoldable pub yield : ℕ → Table → Table
yield me t = set_proc me (record (t.proc me) { state = runnable }) t

-- One round of the loop of `scheduler`: whether it switches to process `i`.
unfoldable pub schedule : ℕ → Table → Bool × Table
schedule i t =
    if is_runnable (t.proc i).state
    then (true, set_proc i (record (t.proc i) { state = running }) t)
    else (false, t)

-- What `kkill` does to the process it finds.
unfoldable pub kill_proc : ℕ → Table → Table
kill_proc i t =
    let t1 = set_proc i (record (t.proc i) { killed = 1 }) t in
    if is_sleeping (t1.proc i).state
    then set_proc i (record (t1.proc i) { state = runnable }) t1
    else t1

-- 0 or -1, which is `none`.
unfoldable pub kkill : ℕ → Table → Option ℕ × Table
kkill pid t = elim (find_from (λ i. (t.proc i).pid == pid) nproc 0) [
  | none ↦ (none, t)
  | some i ↦ (some 0, kill_proc i t)
]

unfoldable pub setkilled : ℕ → Table → Table
setkilled i t = set_proc i (record (t.proc i) { killed = 1 }) t

unfoldable pub killed : ℕ → Table → ℕ
killed i t = (t.proc i).killed
