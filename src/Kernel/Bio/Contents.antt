-- ===== src/Kernel/Bio/Contents.antt =====
-- What `bread` hands out: the contents of a block.
use listlib_and_system_calls.Common.{
  ne→==, ==-refl, update, update_off, update_at, ◌==◌, refl, false, sym, update_self, inr, ap, ◌∙◌,
  ◌⊎◌, inl, none, Bool-cases, ==→eq, true, ◌<◌, List, ℕ, ◌≡◌,
}
use listlib_and_system_calls.Kernel.Sleeplock.{try_lock, holdingsleep}
use listlib_and_system_calls.Kernel.Bio.{
  take_lock, panicked, asleep, got, Bcache, nbuf, recycle, bget, fill, bread,
}
use listlib_and_system_calls.Kernel.Bio.Unique.{Locks, referenced, reused, IsCache, bget-Gets}

-- A valid buffer holds what the disk has in its block.
abbrev pub IsSynced : (ℕ → ℕ → ℕ → ℕ) → Bcache → Type 0
IsSynced disk c = (b : ℕ) → b < nbuf → c.valid b ≡ true → c.content b ≡ disk (c.dev b) (c.blockno b)

-- Buffer b holds this block of the disk.
pub record BlockIn (disk : ℕ → ℕ → ℕ → ℕ) (dev blockno b : ℕ) (c : Bcache) : Type 0 where
  pub dev_is : c.dev b ≡ dev
  pub blockno_is : c.blockno b ≡ blockno
  pub loaded : c.valid b ≡ true
  pub content_is : c.content b ≡ disk dev blockno

fill-BlockIn :
    (disk : ℕ → ℕ → ℕ → ℕ) (dev blockno b : ℕ) (c : Bcache)
    → c.dev b ≡ dev
    → c.blockno b ≡ blockno
    → (c.valid b ≡ true → c.content b ≡ disk (c.dev b) (c.blockno b))
    → BlockIn disk dev blockno b (fill disk b c)
fill-BlockIn disk dev blockno b c d n synced = elim (Bool-cases (c.valid b)) [
  | inl valid ↦ rw valid (record {
    dev_is = d;
    blockno_is = n;
    loaded = valid;
    content_is = synced valid ∙ ap (λ (i : ℕ). disk i (c.blockno b)) d ∙ ap (disk dev) n;
  })
  | inr fresh ↦ rw fresh (record {
    dev_is = d;
    blockno_is = n;
    loaded = update_self c.valid b true;
    content_is =
        update_self c.content b (disk (c.dev b) (c.blockno b))
        ∙ ap (λ (i : ℕ). disk i (c.blockno b)) d
        ∙ ap (disk dev) n;
  })
]

fill-IsCache :
    (disk : ℕ → ℕ → ℕ → ℕ) (b : ℕ) (c : Bcache) (xs : List ℕ)
    → IsCache c xs
    → IsCache (fill disk b c) xs
fill-IsCache disk b c xs v = elim (Bool-cases (c.valid b)) [
  | inl valid ↦ rw valid v
  | inr fresh ↦ rw fresh (record {
    ordered = record {
      links = v.ordered.links;
      distinct = v.ordered.distinct;
      off = v.ordered.off;
    };
    size = v.size;
    present = v.present;
    real = v.real;
    unique = v.unique;
  })
]

fill-IsSynced :
    (disk : ℕ → ℕ → ℕ → ℕ) (b : ℕ) (c : Bcache) → IsSynced disk c → IsSynced disk (fill disk b c)
fill-IsSynced disk b c synced = elim (Bool-cases (c.valid b)) [
  | inl valid ↦ rw valid synced
  | inr fresh ↦ rw fresh (λ a small. elim (Bool-cases (b == a)) [
    | inl here ↦ λ _.
        update_at c.content b (disk (c.dev b) (c.blockno b)) a here
        ∙ ap (λ (i : ℕ). disk (c.dev i) (c.blockno i)) (==→eq b a here)
    | inr other ↦ λ l.
        update_off c.content b (disk (c.dev b) (c.blockno b)) a other
        ∙ synced a small (sym (update_off c.valid b true a other) ∙ l)
  ])
]

recycle-IsSynced :
    (disk : ℕ → ℕ → ℕ → ℕ) (dev blockno b : ℕ) (c : Bcache)
    → IsSynced disk c
    → IsSynced disk (recycle dev blockno b c)
recycle-IsSynced disk dev blockno b c synced a small = elim (Bool-cases (b == a)) [
  | inl here ↦ λ l. absurd (cc (l, update_at c.valid b false a here))
  | inr other ↦ λ l.
      synced a small (sym (update_off c.valid b false a other) ∙ l)
      ∙ ap (λ (i : ℕ). disk i (c.blockno a)) (sym (update_off c.dev b dev a other))
      ∙ ap (disk (update c.dev b dev a)) (sym (update_off c.blockno b blockno a other))
]

-- The ends of `bread`: asleep for the lock of a buffer that another call holds, or with it.
abbrev pub Fetched : ℕ → (ℕ → ℕ → ℕ → ℕ) → ℕ → ℕ → Bcache → List ℕ → Type 0
Fetched pid disk dev blockno c xs =
    ((b : ℕ) × (c' : Bcache) × (bread pid disk dev blockno c ≡ asleep c' b)
      × (try_lock pid (c'.lock b) ≡ none)
      × IsCache c' xs
      × IsSynced disk c')
    ⊎ ((b : ℕ) × (c' : Bcache) × (bread pid disk dev blockno c ≡ got c' b)
        × BlockIn disk dev blockno b c'
        × (holdingsleep pid (c'.lock b) ≡ true)
        × IsCache c' xs
        × IsSynced disk c')

abbrev pub Reads : ℕ → (ℕ → ℕ → ℕ → ℕ) → ℕ → ℕ → Bcache → List ℕ → Type 0
Reads pid disk dev blockno c xs =
    ((bget pid dev blockno c ≡ panicked) × (bread pid disk dev blockno c ≡ panicked))
    ⊎ Fetched pid disk dev blockno c xs

fill_lock : (disk : ℕ → ℕ → ℕ → ℕ) (b : ℕ) (c : Bcache) → (fill disk b c).lock ≡ c.lock
fill_lock disk b c = elim (Bool-cases (c.valid b)) [
  | inl valid ↦ rw valid refl
  | inr fresh ↦ rw fresh refl
]

held :
    (pid : ℕ) (disk : ℕ → ℕ → ℕ → ℕ) (b : ℕ) (l : Bcache)
    → l.lock b ≡ record { locked = 1; pid = pid }
    → holdingsleep pid ((fill disk b l).lock b) ≡ true
unfolding holdingsleep
held pid disk b l e = rw (fill_lock disk b l, e) (==-refl pid)

-- The lock, the read and what they leave, for the buffer that `bget` chose.
fetch :
    (pid : ℕ) (disk : ℕ → ℕ → ℕ → ℕ) (dev blockno b : ℕ) (c c' : Bcache) (xs : List ℕ)
    → b < nbuf
    → Locks pid b c' (bget pid dev blockno c)
    → c'.dev b ≡ dev
    → c'.blockno b ≡ blockno
    → IsCache c' xs
    → IsSynced disk c'
    → Fetched pid disk dev blockno c xs
unfolding bread take_lock try_lock
fetch pid disk dev blockno b c c' xs small end d n v synced = elim end [
  | inl (free, taken) ↦
      let locked = record c' { lock = update c'.lock b (record { locked = 1; pid = pid }) } in
      let v' : IsCache locked xs = record {
        ordered = record {
          links = v.ordered.links;
          distinct = v.ordered.distinct;
          off = v.ordered.off;
        };
        size = v.size;
        present = v.present;
        real = v.real;
        unique = v.unique;
      } in
      inr (
        b,
        fill disk b locked,
        rw (taken, bread) refl,
        fill-BlockIn disk dev blockno b locked d n (synced b small),
        held pid disk b locked (update_self c'.lock b (record { locked = 1; pid = pid })),
        fill-IsCache disk b locked xs v',
        fill-IsSynced disk b locked synced,
      )
  | inr (busy, wait) ↦
      inl (
        b,
        c',
        rw (wait, bread) refl,
        rw (ne→== (c'.lock b).locked 0 busy, try_lock) refl,
        v,
        synced,
      )
]

-- `bread` of a proper and synced cache panics when `bget` does; else it waits for the lock of the
-- buffer that `bget` chose, or it hands this out with the lock, and it holds the block as the disk
-- has it. The cache that it leaves is proper and synced, in the same order.
pub bread-Reads :
    (pid : ℕ) (disk : ℕ → ℕ → ℕ → ℕ) (dev blockno : ℕ) (c : Bcache) (xs : List ℕ)
    → IsCache c xs
    → IsSynced disk c
    → Reads pid disk dev blockno c xs
unfolding bread
bread-Reads pid disk dev blockno c xs v synced = elim (bget-Gets pid dev blockno c xs v) [
  | inl (b, small, d, n, end, v') ↦
      inr (fetch pid disk dev blockno b c (referenced b c) xs small end d n v' synced)
  | inr (_, inl (b, small, _, end, v')) ↦ inr (
      fetch pid disk dev blockno b c (reused dev blockno b c) xs small end (update_self c.dev b dev)
        (update_self c.blockno b blockno) v' (recycle-IsSynced disk dev blockno b c synced))
  | inr (_, inr (_, e)) ↦ inl (e, rw (e, bread) refl)
]
