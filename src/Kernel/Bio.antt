-- ===== src/Kernel/Bio.antt =====
-- kernel/bio.c: the buffer cache, a ring of buffers through `next` and `prev`, ordered by use. A
-- buffer is its index, and the head of the ring is the index behind the last one. A call runs up to
-- the wait for the sleep lock of a buffer, or with it; what the disk holds is an argument. Whom the
-- release of a lock wakes stands in Kernel.Sleeplock.
use listlib_and_system_calls.Kernel.Sleeplock.{
  SleepLock, initsleeplock, try_lock, free_lock, holdingsleep,
}
use listlib_and_system_calls.Common.{
  ◌^◌, ◌%◌, ℕ, zero, suc, ◌+◌, ◌-◌, Bool, true, false, ◌==◌, ◌&&◌, not, if◌then◌else◌, Option, none,
  some, update, for_loop,
}
pub mod Links
pub mod Ring
pub mod Searches
pub mod Unique
pub mod Contents
pub mod Start
pub mod Tests

abbrev pub nbuf : ℕ
nbuf = 30

-- `&bcache.head`
abbrev pub head : ℕ
head = nbuf

pub record Bcache : Type 0 where
  pub next : ℕ → ℕ
  pub prev : ℕ → ℕ
  pub dev : ℕ → ℕ
  pub blockno : ℕ → ℕ
  pub refcnt : ℕ → ℕ
  pub valid : ℕ → Bool
  pub lock : ℕ → SleepLock
  pub content : ℕ → ℕ → ℕ

-- `b` is put behind the head.
unfoldable pub push_front : ℕ → Bcache → Bcache
push_front b c =
    let next' = update c.next b (c.next head) in
    let prev' = update c.prev b head in
    record c { next = update next' head b; prev = update prev' (c.next head) b }

-- `b` is taken out: `b->next->prev = b->prev; b->prev->next = b->next;`
unfoldable pub unlink : ℕ → Bcache → Bcache
unlink b c =
    let prev' = update c.prev (c.next b) (c.prev b) in
    record c { next = update c.next (prev' b) (c.next b); prev = prev' }

-- A round of `binit`.
abbrev pub link_buf : ℕ → Bcache → Bcache
link_buf b c = push_front b (record c { lock = update c.lock b initsleeplock })

unfoldable pub binit : Bcache → Bcache
binit c =
    for_loop nbuf 0 link_buf
      (record c { next = update c.next head head; prev = update c.prev head head })

-- The loop over the ring along `step` to the first buffer that passes a test.
unfoldable pub search : (ℕ → ℕ) → (ℕ → Bool) → ℕ → ℕ → Option ℕ
search step test zero b = none
search step test (suc rounds) b =
    let rest = search step test rounds (step b) in
    if b == head then none else if test b then some b else rest

abbrev pub holds : ℕ → ℕ → Bcache → ℕ → Bool
holds dev blockno c b = (c.dev b == dev) && (c.blockno b == blockno)

abbrev pub is_unused : Bcache → ℕ → Bool
is_unused c b = c.refcnt b == 0

-- `refcnt` is an `unsigned`, which wraps.
unfoldable pub count_up : ℕ → ℕ
count_up n = (n + 1) % 2 ^ 32

unfoldable pub count_down : ℕ → ℕ
count_down n = (n + (2 ^ 32 - 1)) % 2 ^ 32

abbrev pub take_ref : ℕ → Bcache → Bcache
take_ref b c = record c { refcnt = update c.refcnt b (count_up (c.refcnt b)) }

abbrev pub recycle : ℕ → ℕ → ℕ → Bcache → Bcache
recycle dev blockno b c = record c {
  dev = update c.dev b dev;
  blockno = update c.blockno b blockno;
  valid = update c.valid b false;
  refcnt = update c.refcnt b 1;
}

-- `panicked` is "bget: no buffers"; `asleep` waits for the lock of the buffer.
pub data Got : Type 0 where
  panicked : Got
  asleep : Bcache → ℕ → Got
  got : Bcache → ℕ → Got

unfoldable pub take_lock : ℕ → ℕ → Bcache → Got
take_lock pid b c = elim (try_lock pid (c.lock b)) [
  | some lk ↦ got (record c { lock = update c.lock b lk }) b
  | none ↦ asleep c b
]

unfoldable pub bget : ℕ → ℕ → ℕ → Bcache → Got
bget pid dev blockno c = elim (search c.next (holds dev blockno c) (nbuf + 1) (c.next head)) [
  | some b ↦ take_lock pid b (take_ref b c)
  | none ↦ elim (search c.prev (is_unused c) (nbuf + 1) (c.prev head)) [
    | some b ↦ take_lock pid b (recycle dev blockno b c)
    | none ↦ panicked
  ]
]

-- What the disk holds in the block of a buffer is read into it.
abbrev pub fill : (ℕ → ℕ → ℕ → ℕ) → ℕ → Bcache → Bcache
fill disk b c =
    if not (c.valid b)
    then record c {
      content = update c.content b (disk (c.dev b) (c.blockno b));
      valid = update c.valid b true;
    }
    else c

unfoldable pub bread : ℕ → (ℕ → ℕ → ℕ → ℕ) → ℕ → ℕ → Bcache → Got
bread pid disk dev blockno c = elim (bget pid dev blockno c) [
  | panicked ↦ panicked
  | asleep c' b ↦ asleep c' b
  | got c' b ↦ got (fill disk b c') b
]

abbrev pub drop_ref : ℕ → Bcache → Bcache
drop_ref b c = record c { refcnt = update c.refcnt b (count_down (c.refcnt b)) }

-- The last release moves the buffer to the front of the ring.
unfoldable pub unref_buf : ℕ → Bcache → Bcache
unref_buf b c =
    if count_down (c.refcnt b) == 0 then push_front b (unlink b (drop_ref b c)) else drop_ref b c

-- `none` is the panic of a process that does not hold the lock of the buffer.
unfoldable pub brelse : ℕ → ℕ → Bcache → Option Bcache
brelse pid b c =
    if not (holdingsleep pid (c.lock b))
    then none
    else some (unref_buf b (record c { lock = update c.lock b (free_lock (c.lock b)) }))
