-- ===== src/Kernel/Sleeplock/Exclusion.antt =====
-- A sleep lock has one holder, and a release hands it on.
use listlib_and_system_calls.Common.{
  suc, sym, ℕ, ◌<◌, ◌≡◌, ◌≢◌, refl, arith, true, false, ne→==, ==-refl, ap, ◌∙◌, update_self,
}
use listlib_and_system_calls.Kernel.Proc.{
  Proc, Table, sleep, wakeup, nproc, on_addr, sleeping, runnable,
}
use listlib_and_system_calls.Kernel.Proc.Tests.{one_proc, first_proc}
use listlib_and_system_calls.Kernel.Proc.Steps.{wakeup-Same}
use listlib_and_system_calls.Kernel.Proc.Wakes.{sleep-wakeup}
use listlib_and_system_calls.Kernel.Sleeplock.{
  SleepLock, try_lock, acquiresleep, free_lock, releasesleep, holdingsleep,
}

acquiresleep-busy :
    (a addr : ℕ) (lk : SleepLock) (t : Table)
    → lk.locked ≢ 0
    → acquiresleep a addr lk t ≡ (false, lk, sleep a (on_addr addr) t)
unfolding acquiresleep try_lock
acquiresleep-busy a addr lk t busy = rw (ne→== lk.locked 0 busy, acquiresleep, try_lock) refl

acquiresleep-free :
    (a addr : ℕ) (lk : SleepLock) (t : Table)
    → lk.locked ≡ 0
    → acquiresleep a addr lk t ≡ (true, record { locked = 1; pid = (t.proc a).pid }, t)
unfolding acquiresleep try_lock
acquiresleep-free a addr lk t free = rw (free, acquiresleep, try_lock) refl

sleep-at :
    (a addr : ℕ) (t : Table)
    → (sleep a (on_addr addr) t).proc a
      ≡ record (t.proc a) { chan = on_addr addr; state = sleeping }
unfolding sleep
sleep-at a addr t = update_self t.proc a _

-- The pid of the sleeper stays.
wakened_pid :
    (me a addr : ℕ) (t : Table)
    → ((wakeup me (on_addr addr) (sleep a (on_addr addr) t)).proc a).pid ≡ (t.proc a).pid
wakened_pid me a addr t =
    let s = wakeup-Same me (on_addr addr) (sleep a (on_addr addr) t) in
    s.pid a ∙ ap (λ (p : Proc). p.pid) (sleep-at a addr t)

-- A process `a` of the table that asks for a lock that is held sleeps on it and leaves it alone.
-- The release by another process `me` makes `a` runnable, and the next round of `a` gets the lock:
-- its pid holds it, another pid `q` does not, and any process `b` that asks then does not get it.
pub releasesleep-hands :
    (me a b q addr : ℕ) (lk : SleepLock) (t : Table)
    → lk.locked ≢ 0
    → a < nproc
    → a ≢ me
    → q ≢ (t.proc a).pid
    → let (got, kept, asleep) = acquiresleep a addr lk t in
      let (free, woken) = releasesleep me addr kept asleep in
      let (got', held, done) = acquiresleep a addr free woken in
      (got ≡ false)
      × (kept ≡ lk)
      × ((asleep.proc a).state ≡ sleeping)
      × ((asleep.proc a).chan ≡ on_addr addr)
      × ((woken.proc a).state ≡ runnable)
      × (got' ≡ true)
      × (done ≡ woken)
      × (holdingsleep (t.proc a).pid held ≡ true)
      × (holdingsleep q held ≡ false)
      × ((acquiresleep b addr held done).0 ≡ false)
unfolding releasesleep free_lock holdingsleep
releasesleep-hands me a b q addr lk t busy here other ne =
    let asleep = sleep a (on_addr addr) t in
    let woken = wakeup me (on_addr addr) asleep in
    let pid = wakened_pid me a addr t in
    rw
      (
        acquiresleep-busy a addr lk t busy,
        acquiresleep-free a addr (free_lock lk) woken refl,
        pid,
        acquiresleep-busy b addr (record { locked = 1; pid = (t.proc a).pid }) woken
            (λ e. absurd (omega arith)),
      )
      (
        refl,
        refl,
        ap (λ (p : Proc). p.state) (sleep-at a addr t),
        ap (λ (p : Proc). p.chan) (sleep-at a addr t),
        sleep-wakeup me a (on_addr addr) t here other,
        refl,
        refl,
        ==-refl (t.proc a).pid,
        ne→== (t.proc a).pid q (λ e. ne (sym e)),
        refl,
      )

-- Process i has pid i + 1; process 0 has the lock, and process 1 asks for it.
abbrev all_running : Table
all_running = record one_proc { proc = λ i. record first_proc { pid = suc i } }

abbrev busy_lock : SleepLock
busy_lock = record { locked = 1; pid = 1 }

releasesleep-hands_example :
    let (got, kept, asleep) = acquiresleep 1 4096 busy_lock all_running in
    let (free, woken) = releasesleep 0 4096 kept asleep in
    let (got', held, done) = acquiresleep 1 4096 free woken in
    (got ≡ false)
    × (kept ≡ busy_lock)
    × ((asleep.proc 1).state ≡ sleeping)
    × ((asleep.proc 1).chan ≡ on_addr 4096)
    × ((woken.proc 1).state ≡ runnable)
    × (got' ≡ true)
    × (done ≡ woken)
    × (holdingsleep 2 held ≡ true)
    × (holdingsleep 1 held ≡ false)
    × ((acquiresleep 2 4096 held done).0 ≡ false)
releasesleep-hands_example =
    releasesleep-hands 0 1 2 1 4096 busy_lock all_running (λ e. absurd (omega arith)) (omega arith)
      (λ e. absurd (omega arith)) (λ e. absurd (omega arith))
