-- ===== src/Kernel/Proc/Reach.antt =====
-- The states of the table that the calls reach, and the pids in them.
use native.Mathlib.Decide.{ℕ_discrete}
use listlib_and_system_calls.Common.{
  ◌^◌, fun_ext, ne→==, eq→==, ℕ, suc, ◌<◌, ◌≡◌, ◌≢◌, inl, inr, refl, sym, ◌∙◌, ap, arith, Bool,
  true, false, subst, not, ◌&&◌, some, update_self, update_ne, find_from, find_from-cases,
  Bool-cases, Option-cases, ◌==◌, ℤ,
}
use listlib_and_system_calls.Kernel.Proc.{
  nproc, Proc, Table, Chan, no_chan, on_proc, Memory, is_unused, is_zombie, is_parent, freeproc,
  found_proc, kill_proc, kkill, wakeup, schedule, runnable, sleeping, sleep, tidy_up, yield,
  setkilled,
}
use listlib_and_system_calls.Kernel.Proc.Wakes.{kill_proc_lem, kkill-some}
use listlib_and_system_calls.Kernel.Proc.Calls.{fork_child, fill_child, kfork, kexit, kwait}
use listlib_and_system_calls.Kernel.Proc.Forks.{
  kfork_lem, enough_memory, allocproc-found, allocproc-none, fill_child-others, fill_child-nextpid,
  fill_child-child, found_proc-cases, found_proc-Pids,
}
use listlib_and_system_calls.Kernel.Proc.Steps.{
  wakeup-Same, kill_proc-Same, schedule-Same, kexit-Same,
}
use listlib_and_system_calls.Kernel.Proc.Pids.{Pids, Same-set, Same-Pids, Pids-frees}

-- The process that makes a call has an entry; so has one that the scheduler or a device acts on.
-- The number is a bound of the next pid at the start, with the forks since.
pub data Reachable : ℕ → Table → Type 0 where
  boots : (k : ℕ) (t : Table) → Pids k t → Reachable k t
  forks :
      (k me : ℕ) (mem : Memory) (t : Table)
      → Reachable k t
      → is_unused (t.proc me).state ≡ false
      → Reachable (suc k) (kfork me mem t).1
  exits :
      (k me : ℕ) (status : ℤ) (t n : Table)
      → Reachable k t
      → is_unused (t.proc me).state ≡ false
      → kexit me status t ≡ some n
      → Reachable k n
  awaits :
      (k me addr : ℕ) (writable : Bool) (t : Table)
      → Reachable k t
      → is_unused (t.proc me).state ≡ false
      → Reachable k (kwait me addr writable t).1
  kills : (k pid : ℕ) (t : Table) → Reachable k t → Reachable k (kkill pid t).1
  wakes : (k me : ℕ) (chan : Chan) (t : Table) → Reachable k t → Reachable k (wakeup me chan t)
  sleeps :
      (k me : ℕ) (chan : Chan) (t : Table)
      → Reachable k t
      → is_unused (t.proc me).state ≡ false
      → Reachable k (sleep me chan t)
  tidies : (k me : ℕ) (t : Table) → Reachable k t → Reachable k (tidy_up me t)
  yields :
      (k me : ℕ) (t : Table)
      → Reachable k t
      → is_unused (t.proc me).state ≡ false
      → Reachable k (yield me t)
  schedules : (k i : ℕ) (t : Table) → Reachable k t → Reachable k (schedule i t).1
  marks : (k i : ℕ) (t : Table) → Reachable k t → Reachable k (setkilled i t)

freeproc-Pids : {k : ℕ} (i : ℕ) (t : Table) → Pids k t → Pids k (freeproc i t)
unfolding freeproc
freeproc-Pids i t p =
    Pids-frees i t (freeproc i t) (λ j ne. update_ne t.proc i j _ ne) p (omega arith) p.reached
      (ap (λ (q : Proc). q.pid) (update_self t.proc i _))
      (ap (λ (q : Proc). is_unused q.state) (update_self t.proc i _))

-- The child of a fork keeps the pid that its entry got.
fill_child-Pids :
    {k : ℕ} (me np : ℕ) (t : Table)
    → np ≢ me
    → is_unused (t.proc np).state ≡ false
    → Pids k t
    → Pids k (fill_child me np t)
fill_child-Pids me np t apart busy p =
    let c = fill_child-child me np t apart in
    Same-Pids t (fill_child me np t)
      record {
        nextpid = fill_child-nextpid me np t apart;
        pid = λ i. elim (ℕ_discrete np i) [
          | yes e ↦ subst (λ a. ((fill_child me np t).proc a).pid ≡ (t.proc a).pid) e c.0
          | no ne ↦ ap (λ (q : Proc). q.pid) (fill_child-others me np t apart i ne)
        ];
        in_use = λ i. elim (ℕ_discrete np i) [
          | yes e ↦
              subst
                (λ a. is_unused ((fill_child me np t).proc a).state ≡ is_unused (t.proc a).state) e
                (ap is_unused c.1 ∙ sym busy)
          | no ne ↦ ap (λ (q : Proc). is_unused q.state) (fill_child-others me np t apart i ne)
        ];
      }
      p

fork_child-Pids :
    {k : ℕ} (me np : ℕ) (copied : Bool) (t : Table)
    → np ≢ me
    → is_unused (t.proc np).state ≡ false
    → Pids k t
    → Pids k (fork_child me copied np t).1
unfolding fork_child
fork_child-Pids me np true t apart busy p = fill_child-Pids me np t apart busy p
fork_child-Pids me np false t apart busy p = freeproc-Pids np t p

kfork-Pids :
    {k : ℕ} (me : ℕ) (mem : Memory) (t : Table)
    → is_unused (t.proc me).state ≡ false
    → suc k < 2 ^ 31
    → Pids k t
    → Pids (suc k) (kfork me mem t).1
unfolding kfork
kfork-Pids {k} me mem t busy small p =
    elim (find_from-cases (λ i. is_unused (t.proc i).state) nproc 0) [
      | inl (i, e, _, _, free, _) ↦
          let a = allocproc-found mem i t e in
          let new = found_proc-Pids mem i t small p in
          let apart : i ≢ me = λ same.
            let f : is_unused (t.proc me).state ≡ true =
              subst (λ j. is_unused (t.proc j).state ≡ true) same free in
            ground (arith, f, busy) in
          elim (found_proc-cases mem i t) [
            | inl (failed, _, _) ↦ rw (kfork, a, failed, a) new
            | inr (done, _, used, _) ↦
                rw (kfork, a, done, a)
                  (fork_child-Pids me i mem.copied (found_proc mem i t).1 apart used new)
          ]
      | inr (e, _) ↦ let a = allocproc-none mem t e in rw (kfork, a, a) (later p)
    ]
  where
    later : Pids k t → Pids (suc k) t
    later p = record {
      fresh = p.fresh;
      reached = omega (arith, p.reached);
      free = p.free;
      held = p.held;
      once = p.once;
    }

kwait-Pids :
    {k : ℕ} (me addr : ℕ) (writable : Bool) (t : Table)
    → is_unused (t.proc me).state ≡ false
    → Pids k t
    → Pids k (kwait me addr writable t).1
unfolding kwait sleep
kwait-Pids me addr writable t busy p =
    elim (find_from-cases (λ i. is_parent (t.proc i).parent me && is_zombie (t.proc i).state) nproc
      0) [
        | inl (i, e, _, _, _, _) ↦ elim (Bool-cases (not (addr == 0) && not writable)) [
          | inl bad ↦ rw (kwait, e, bad) p
          | inr good ↦ rw (kwait, e, good) (freeproc-Pids i t p)
        ]
        | inr (e, _) ↦
            let asleep =
              Same-Pids t _
                (Same-set me (record (t.proc me) { chan = on_proc me; state = sleeping }) t refl
                  (sym busy))
                p in
            elim (Option-cases (find_from (λ i. is_parent (t.proc i).parent me) nproc 0)) [
              | inl alone ↦ rw (kwait, e, alone) p
              | inr (j, child) ↦ elim (Bool-cases (not ((t.proc me).killed == 0))) [
                | inl dead ↦ rw (kwait, e, child, dead) p
                | inr alive ↦ rw (kwait, e, child, alive) asleep
              ]
            ]
      ]

kkill-Pids : {k : ℕ} (pid : ℕ) (t : Table) → Pids k t → Pids k (kkill pid t).1
unfolding kkill
kkill-Pids pid t p = elim (find_from-cases (λ i. (t.proc i).pid == pid) nproc 0) [
  | inl (i, e, _, _, _, _) ↦
      rw (kkill-some pid i t e) (Same-Pids t (kill_proc i t) (kill_proc-Same i t) p)
  | inr (e, _) ↦ rw (kkill, e) p
]

pub Reachable-Pids : (k : ℕ) (t : Table) → Reachable k t → k < 2 ^ 31 → Pids k t
unfolding sleep tidy_up yield setkilled
Reachable-Pids _ _ (boots k t p) small = p
Reachable-Pids _ _ (forks k me mem t r busy) small =
    kfork-Pids me mem t busy small (Reachable-Pids k t r (omega arith))
Reachable-Pids _ _ (exits k me status t n r busy e) small =
    Same-Pids t n (kexit-Same me status t n busy e) (Reachable-Pids k t r small)
Reachable-Pids _ _ (awaits k me addr writable t r busy) small =
    kwait-Pids me addr writable t busy (Reachable-Pids k t r small)
Reachable-Pids _ _ (kills k pid t r) small = kkill-Pids pid t (Reachable-Pids k t r small)
Reachable-Pids _ _ (wakes k me chan t r) small =
    Same-Pids t (wakeup me chan t) (wakeup-Same me chan t) (Reachable-Pids k t r small)
Reachable-Pids _ _ (sleeps k me chan t r busy) small =
    Same-Pids t _
      (Same-set me (record (t.proc me) { chan = chan; state = sleeping }) t refl (sym busy))
      (Reachable-Pids k t r small)
Reachable-Pids _ _ (tidies k me t r) small =
    Same-Pids t _ (Same-set me (record (t.proc me) { chan = no_chan }) t refl refl)
      (Reachable-Pids k t r small)
Reachable-Pids _ _ (yields k me t r busy) small =
    Same-Pids t _ (Same-set me (record (t.proc me) { state = runnable }) t refl (sym busy))
      (Reachable-Pids k t r small)
Reachable-Pids _ _ (schedules k i t r) small =
    Same-Pids t (schedule i t).1 (schedule-Same i t) (Reachable-Pids k t r small)
Reachable-Pids _ _ (marks k i t r) small =
    Same-Pids t _ (Same-set i (record (t.proc i) { killed = 1 }) t refl refl)
      (Reachable-Pids k t r small)

-- In every state that forks, exits, waits, kills, sleeps and wake-ups of processes in the table reach from one with distinct pids, in any
-- order, and in which fewer than 2 ^ 31 pids are given out (`k` bounds the next pid at the start and the forks): an entry in use has a pid that is not 0, is below the next one, and is that of no other entry.
pub pids_distinct :
    (k : ℕ) (t : Table) (i j : ℕ)
    → Reachable k t
    → k < 2 ^ 31
    → is_unused (t.proc i).state ≡ false
    → i ≢ j
    → ((t.proc i).pid ≢ 0) × ((t.proc i).pid < t.nextpid) × ((t.proc i).pid ≢ (t.proc j).pid)
pids_distinct k t i j r small busy ne =
    let p = Reachable-Pids k t r small in
    let h = p.held i busy in ((λ e. absurd (omega (arith, h.0))), h.1, λ e. ne (p.once i j busy e))

-- An entry with pid 0 is one that is not in use.
pid-unused :
    {k : ℕ} (t : Table) (i : ℕ) → Pids k t → ((t.proc i).pid == 0) ≡ is_unused (t.proc i).state
pid-unused t i p = elim (Bool-cases (is_unused (t.proc i).state)) [
  | inl u ↦ eq→== (t.proc i).pid 0 (p.free i u) ∙ sym u
  | inr u ↦ ne→== (t.proc i).pid 0 (λ e. absurd (omega (arith, (p.held i u).0))) ∙ sym u
]

-- In a reachable state, with fewer than 2 ^ 31 pids given out and a first unused entry `i` and enough memory for a fork of another entry's process, `kkill` of pid 0 returns 0,
-- and the next child of `kfork` is killed from its start.
pub kkill_zero :
    (k me root i : ℕ) (t : Table)
    → Reachable k t
    → k < 2 ^ 31
    → find_from (λ j. is_unused (t.proc j).state) nproc 0 ≡ some i
    → i ≢ me
    → ((kkill 0 t).0 ≡ some 0)
      × ((kfork me (enough_memory root) (kkill 0 t).1).0 ≡ some t.nextpid)
      × (((kfork me (enough_memory root) (kkill 0 t).1).1.proc i).killed ≡ 1)
kkill_zero k me root i t r small free apart =
    let p = Reachable-Pids k t r small in
    let tests : (λ j. (t.proc j).pid == 0) ≡ (λ j. is_unused (t.proc j).state) =
      fun_ext λ j. pid-unused t j p in
    let e : find_from (λ j. (t.proc j).pid == 0) nproc 0 ≡ some i =
      ap (λ test. find_from test nproc 0) tests ∙ free in
    let s = kill_proc-Same i t in
    let still : (λ j. is_unused ((kill_proc i t).proc j).state)
        ≡ (λ j. is_unused (t.proc j).state) =
      fun_ext s.in_use in
    let f =
      kfork_lem me root i (suc i) (kill_proc i t) (ap (λ test. find_from test nproc 0) still ∙ free)
        apart (λ h. absurd (omega arith)) in
    rw (kkill-some 0 i t e) (refl, f.0 ∙ ap some s.nextpid, f.8 ∙ (kill_proc_lem i t).0)
