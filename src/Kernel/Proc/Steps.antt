-- ===== src/Kernel/Proc/Steps.antt =====
-- The calls keep the entries and the pids of other processes.
use listlib_and_system_calls.Common.{
  ℕ, ◌≡◌, inl, inr, refl, sym, ◌∙◌, ap, arith, Bool, true, false, subst, not, ◌&&◌, none, some,
  update, for_loop, for_loop-from_0, Bool-cases, Option-cases, if◌then◌else◌, ltb, ◌==◌, ℤ,
}
use listlib_and_system_calls.Kernel.Proc.{
  on_proc, is_parent, is_parent, nproc, nofile, ProcState, Proc, Table, Chan, is_unused,
  is_sleeping, is_runnable, set_proc, same_chan, kill_proc, wakeup, schedule, runnable, running,
  sleeping, unused, used, zombie,
}
use listlib_and_system_calls.Kernel.Proc.Wakes.{wakeup_lem}
use listlib_and_system_calls.Kernel.Proc.Calls.{
  exit_proc, adopt, reparent, close_file, kexit, iput, parent_chan,
}
use listlib_and_system_calls.Kernel.Proc.Pids.{Same, Same-refl, Same-trans, Same-set}

asleep-used : (s : ProcState) → is_sleeping s ≡ true → is_unused s ≡ false
asleep-used unused e = ground (arith, e)
asleep-used used e = refl
asleep-used sleeping e = refl
asleep-used runnable e = refl
asleep-used running e = refl
asleep-used zombie e = refl

runnable-used : (s : ProcState) → is_runnable s ≡ true → is_unused s ≡ false
runnable-used unused e = ground (arith, e)
runnable-used used e = refl
runnable-used sleeping e = refl
runnable-used runnable e = refl
runnable-used running e = refl
runnable-used zombie e = refl

wakeup-nextpid : (me : ℕ) (chan : Chan) (t : Table) → (wakeup me chan t).nextpid ≡ t.nextpid
unfolding wakeup
wakeup-nextpid me chan t = refl

pub wakeup-Same : (me : ℕ) (chan : Chan) (t : Table) → Same t (wakeup me chan t)
wakeup-Same me chan t = record {
  nextpid = nextpid;
  pid = λ i. ap (λ (q : Proc). q.pid) (wakeup_lem me i chan t) ∙ pid i (test i) refl;
  in_use =
      λ i. ap (λ (q : Proc). is_unused q.state) (wakeup_lem me i chan t) ∙ in_use i (test i) refl;
}
  where
    test : ℕ → Bool
    test i =
        ltb i nproc
        && (not (i == me) && (is_sleeping (t.proc i).state && same_chan (t.proc i).chan chan))

    nextpid : (wakeup me chan t).nextpid ≡ t.nextpid
    nextpid = wakeup-nextpid me chan t

    pid :
        (i : ℕ) (b : Bool)
        → test i ≡ b
        → (if b then record (t.proc i) { state = runnable } else t.proc i).pid ≡ (t.proc i).pid
    pid i true e = refl
    pid i false e = refl

    in_use :
        (i : ℕ) (b : Bool)
        → test i ≡ b
        → is_unused (if b then record (t.proc i) { state = runnable } else t.proc i).state
          ≡ is_unused (t.proc i).state
    in_use i true e = sym (asleep-used (t.proc i).state (ground (arith, e)))
    in_use i false e = refl

pub kill_proc-Same : (i : ℕ) (t : Table) → Same t (kill_proc i t)
unfolding kill_proc
kill_proc-Same i t =
    let killed : Proc = record (t.proc i) { killed = 1 } in
    let marked = set_proc i killed t in
    let first = Same-set i killed t refl refl in
    elim (Bool-cases (is_sleeping (marked.proc i).state)) [
      | inl asleep ↦
          rw (kill_proc, asleep)
            (Same-trans t marked _ first (
              Same-set i (record (marked.proc i) { state = runnable }) marked refl
                (sym (asleep-used (marked.proc i).state asleep))))
      | inr awake ↦ rw (kill_proc, awake) first
    ]

pub schedule-Same : (i : ℕ) (t : Table) → Same t (schedule i t).1
unfolding schedule
schedule-Same i t = elim (Bool-cases (is_runnable (t.proc i).state)) [
  | inl ready ↦
      rw (schedule, ready)
        (Same-set i (record (t.proc i) { state = running }) t refl
          (sym (runnable-used (t.proc i).state ready)))
  | inr other ↦ rw (schedule, other) (Same-refl t)
]

adopt-Same : (me i : ℕ) (t : Table) → Same t (adopt me i t)
unfolding adopt
adopt-Same me i t =
    let given = set_proc i (record (t.proc i) { parent = some t.initproc }) t in
    elim (Bool-cases (is_parent (t.proc i).parent me)) [
      | inl child ↦
          rw (adopt, child)
            (Same-trans t given (wakeup me (on_proc t.initproc) given)
              (Same-set i (record (t.proc i) { parent = some t.initproc }) t refl refl)
              (wakeup-Same me (on_proc t.initproc) given))
      | inr other ↦ rw (adopt, other) (Same-refl t)
    ]

reparent-Same : (me : ℕ) (t : Table) → Same t (reparent me t)
unfolding reparent
reparent-Same me t =
    for_loop-from_0 (λ j n. Same t n) nproc (adopt me) t
      (λ j n to s. Same-trans t n _ s (adopt-Same me j n)) (Same-refl t)

close_file-Same : (me fd : ℕ) (t : Table) → Same t (close_file me fd t)
unfolding close_file
close_file-Same me fd t = elim (Option-cases ((t.proc me).ofile fd)) [
  | inl closed ↦ rw (close_file, closed) (Same-refl t)
  | inr (f, e) ↦
      let s =
        Same-set me (record (t.proc me) { ofile = update (t.proc me).ofile fd none }) t refl refl in
      rw (close_file, e) record { nextpid = s.nextpid; pid = s.pid; in_use = s.in_use }
]

-- The process that exits stays in its entry.
exit_proc-Same :
    (me : ℕ) (status : ℤ) (t : Table)
    → is_unused (t.proc me).state ≡ false
    → Same t (exit_proc me status t)
unfolding exit_proc
exit_proc-Same me status t busy =
    let t1 = for_loop nofile 0 (close_file me) t in
    let s1 : Same t t1 =
      for_loop-from_0 (λ j n. Same t n) nofile (close_file me) t
        (λ j n to s. Same-trans t n _ s (close_file-Same me j n)) (Same-refl t) in
    let t2 = iput (t1.proc me).cwd t1 in
    let s2 : Same t t2 = record { nextpid = s1.nextpid; pid = s1.pid; in_use = s1.in_use } in
    let left : Proc = record (t2.proc me) { cwd = none } in
    let t3 = set_proc me left t2 in
    let s3 : Same t t3 = Same-trans t t2 t3 s2 (Same-set me left t2 refl refl) in
    let t4 = reparent me t3 in
    let s4 : Same t t4 = Same-trans t t3 t4 s3 (reparent-Same me t3) in
    let t5 = wakeup me (parent_chan (t4.proc me).parent) t4 in
    let s5 : Same t t5 = Same-trans t t4 t5 s4 (wakeup-Same me _ t4) in
    let dead : Proc = record (t5.proc me) { xstate = status; state = zombie } in
    Same-trans t t5 _ s5 (Same-set me dead t5 refl (sym (s5.in_use me ∙ busy)))

pub kexit-Same :
    (me : ℕ) (status : ℤ) (t n : Table)
    → is_unused (t.proc me).state ≡ false
    → kexit me status t ≡ some n
    → Same t n
unfolding kexit
kexit-Same me status t n busy e = elim (Bool-cases (me == t.initproc)) [
  | inl first ↦ absurd (ground (arith, first, e))
  | inr other ↦
      let same : exit_proc me status t ≡ n = ground (arith, other, e) in
      subst (Same t) same (exit_proc-Same me status t busy)
]
