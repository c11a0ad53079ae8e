-- ===== src/Kernel/Sleeplock.antt =====
-- sleeplock.c: locks that are held across sleeps, over the table of processes. The channel of a lock
-- is its address.
use listlib_and_system_calls.Common.{
  ℕ, Bool, true, false, Option, none, some, ◌==◌, ◌&&◌, not, if◌then◌else◌,
}
use listlib_and_system_calls.Kernel.Proc.{Table, on_addr, sleep, wakeup}
pub mod Exclusion

-- `struct sleeplock` without its spinlock and its name
pub record SleepLock : Type 0 where
  pub locked : ℕ
  pub pid : ℕ

unfoldable pub initsleeplock : SleepLock
initsleeplock = record { locked = 0; pid = 0 }

-- The lock for the process with this pid, if it is free.
unfoldable pub try_lock : ℕ → SleepLock → Option SleepLock
try_lock pid lk = if not (lk.locked == 0) then none else some record { locked = 1; pid = pid }

-- A round of the loop for the process `me`: it has the lock, which is `true`, or it sleeps.
unfoldable pub acquiresleep : ℕ → ℕ → SleepLock → Table → Bool × SleepLock × Table
acquiresleep me addr lk t = elim (try_lock (t.proc me).pid lk) [
  | some held ↦ (true, held, t)
  | none ↦ (false, lk, sleep me (on_addr addr) t)
]

unfoldable pub free_lock : SleepLock → SleepLock
free_lock lk = record { locked = 0; pid = 0 }

unfoldable pub releasesleep : ℕ → ℕ → SleepLock → Table → SleepLock × Table
releasesleep me addr lk t = (free_lock lk, wakeup me (on_addr addr) t)

unfoldable pub holdingsleep : ℕ → SleepLock → Bool
holdingsleep pid lk = not (lk.locked == 0) && (lk.pid == pid)
