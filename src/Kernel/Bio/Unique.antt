-- ===== src/Kernel/Bio/Unique.antt =====
-- A block stands in one buffer at most.
use listlib_and_system_calls.Common.{
  ==→ne, subst, ◌^◌, ◌%◌, update_at, update_off, ℕ, ◌+◌, ◌<◌, ◌≡◌, ◌≢◌, ◌⊎◌, inl, inr, refl, Bool,
  true, false, ◌==◌, has, List, length, some, arith, ◌∙◌, sym, Bool-cases, ==→eq, update,
}
use listlib_and_system_calls.Kernel.Sleeplock.{try_lock}
use listlib_and_system_calls.Kernel.Bio.{
  asleep, got, Got, count_up, try_lock, take_lock, panicked, Bcache, nbuf, head, search, holds,
  is_unused, take_ref, recycle, bget,
}
use listlib_and_system_calls.Kernel.Bio.Ring.{Ordered}
use listlib_and_system_calls.Kernel.Bio.Searches.{
  first_of, first_of_cases, search-first_of, reversed, Links-reversed, has-reversed,
  length-reversed,
}

-- The ring holds the thirty buffers, and two of them do not hold the same block of a device; the
-- device 0 is that of buffers that were never used.
pub record IsCache (c : Bcache) (xs : List ℕ) : Type 0 where
  pub ordered : Ordered c xs
  pub size : length xs ≡ nbuf
  pub present : (b : ℕ) → b < nbuf → has b xs ≡ true
  pub real : (b : ℕ) → has b xs ≡ true → b < nbuf
  pub unique :
      (a b : ℕ)
      → a < nbuf
      → b < nbuf
      → a ≢ b
      → c.dev a ≢ 0
      → c.dev a ≡ c.dev b
      → c.blockno a ≢ c.blockno b

module _ (c : Bcache) (xs : List ℕ) (v : IsCache c xs) where
  search_along : (test : ℕ → Bool) → search c.next test (nbuf + 1) (c.next head) ≡ first_of test xs
  search_along test =
      search-first_of c.next c.prev test (nbuf + 1) head xs v.ordered.links v.ordered.off
        (omega (arith, v.size))

  search_back :
      (test : ℕ → Bool) → search c.prev test (nbuf + 1) (c.prev head) ≡ first_of test (reversed xs)
  search_back test =
      search-first_of c.prev c.next test (nbuf + 1) head (reversed xs)
        (Links-reversed c.next c.prev head xs head v.ordered.links)
        (has-reversed head xs ∙ v.ordered.off) (omega (arith, v.size, length-reversed xs))

  take_ref-IsCache : (b : ℕ) → IsCache (take_ref b c) xs
  take_ref-IsCache b = record {
    ordered = record {
      links = v.ordered.links;
      distinct = v.ordered.distinct;
      off = v.ordered.off;
    };
    size = v.size;
    present = v.present;
    real = v.real;
    unique = v.unique;
  }

  unique_behind :
      (dev blockno b : ℕ)
      → ((a : ℕ) → a < nbuf → holds dev blockno c a ≡ false)
      → (a a' : ℕ) → a < nbuf
      → a' < nbuf
      → a ≢ a'
      → update c.dev b dev a ≢ 0
      → update c.dev b dev a ≡ update c.dev b dev a'
      → update c.blockno b blockno a ≢ update c.blockno b blockno a'
  unique_behind dev blockno b absent a a' la la' ne used same = elim (Bool-cases (b == a)) [
    | inl here ↦ elim (Bool-cases (b == a')) [
      | inl here' ↦ λ _. ne (sym (==→eq b a here) ∙ ==→eq b a' here')
      | inr other ↦ λ same'.
          not_both dev blockno a' (absent a' la')
            (sym (update_off c.dev b dev a' other) ∙ sym same ∙ update_at c.dev b dev a here)
            (sym (update_off c.blockno b blockno a' other)
              ∙ sym same'
              ∙ update_at c.blockno b blockno a here)
    ]
    | inr other ↦ elim (Bool-cases (b == a')) [
      | inl here' ↦ λ same'.
          not_both dev blockno a (absent a la)
            (sym (update_off c.dev b dev a other) ∙ same ∙ update_at c.dev b dev a' here')
            (sym (update_off c.blockno b blockno a other)
              ∙ same'
              ∙ update_at c.blockno b blockno a' here')
      | inr other' ↦ λ same'.
          v.unique a a' la la' ne (λ z. used (update_off c.dev b dev a other ∙ z))
            (sym (update_off c.dev b dev a other) ∙ same ∙ update_off c.dev b dev a' other')
            (sym (update_off c.blockno b blockno a other)
              ∙ same'
              ∙ update_off c.blockno b blockno a' other')
    ]
  ]
    where
      not_both :
          (dev blockno a : ℕ)
          → holds dev blockno c a ≡ false
          → c.dev a ≡ dev
          → c.blockno a ≡ blockno
          → ⊥
      not_both dev blockno a h e f = ground (arith, h, e, f)

  recycle-IsCache :
      (dev blockno b : ℕ)
      → ((a : ℕ) → a < nbuf → holds dev blockno c a ≡ false)
      → IsCache (recycle dev blockno b c) xs
  recycle-IsCache dev blockno b absent = record {
    ordered = record {
      links = v.ordered.links;
      distinct = v.ordered.distinct;
      off = v.ordered.off;
    };
    size = v.size;
    present = v.present;
    real = v.real;
    unique = unique_behind dev blockno b absent;
  }

-- Buffer b with one more reference, whose count wraps, and buffer b taken for a block.
abbrev pub referenced : ℕ → Bcache → Bcache
referenced b c = record c { refcnt = update c.refcnt b ((c.refcnt b + 1) % 2 ^ 32) }

abbrev pub reused : ℕ → ℕ → ℕ → Bcache → Bcache
reused dev blockno b c = record c {
  refcnt = update c.refcnt b 1;
  valid = update c.valid b false;
  dev = update c.dev b dev;
  blockno = update c.blockno b blockno;
}

-- The end of a call that asks for the lock of a buffer: it has the lock, or it sleeps.
abbrev pub Locks : ℕ → ℕ → Bcache → Got → Type 0
Locks pid b c end =
    (((c.lock b).locked ≡ 0)
      × (end ≡ got (record c { lock = update c.lock b (record { locked = 1; pid = pid }) }) b))
    ⊎ (((c.lock b).locked ≢ 0) × (end ≡ asleep c b))

take_lock-Locks : (pid b : ℕ) (c : Bcache) → Locks pid b c (take_lock pid b c)
unfolding take_lock try_lock
take_lock-Locks pid b c = elim (Bool-cases ((c.lock b).locked == 0)) [
  | inl free ↦ inl (==→eq (c.lock b).locked 0 free, rw (free, take_lock, try_lock) refl)
  | inr busy ↦ inr (==→ne (c.lock b).locked 0 busy, rw (busy, take_lock, try_lock) refl)
]

-- The cases of `bget`.
abbrev pub Gets : ℕ → ℕ → ℕ → Bcache → List ℕ → Type 0
Gets pid dev blockno c xs =
    ((b : ℕ) × (b < nbuf)
      × (c.dev b ≡ dev)
      × (c.blockno b ≡ blockno)
      × Locks pid b (referenced b c) (bget pid dev blockno c)
      × IsCache (referenced b c) xs)
    ⊎ (((a : ℕ) → a < nbuf → c.dev a ≡ dev → c.blockno a ≢ blockno)
        × (((b : ℕ) × (b < nbuf)
              × (first_of (λ a. c.refcnt a == 0) (reversed xs) ≡ some b)
              × Locks pid b (reused dev blockno b c) (bget pid dev blockno c)
              × IsCache (reused dev blockno b c) xs)
            ⊎ (((a : ℕ) → a < nbuf → c.refcnt a ≢ 0) × (bget pid dev blockno c ≡ panicked))))

-- `bget` in a proper cache, in all its cases. A buffer that holds the block gets one more
-- reference. Else, if a buffer is unused, the last such one of the order is taken for the block,
-- not valid and with one reference. Else it panics, and then no buffer holds the block and none is
-- unused. The cache, in which the call gets the lock of the buffer or sleeps for it, is a proper
-- one in the same order.
pub bget-Gets :
    (pid dev blockno : ℕ) (c : Bcache) (xs : List ℕ) → IsCache c xs → Gets pid dev blockno c xs
unfolding bget count_up
bget-Gets pid dev blockno c xs v = elim (first_of_cases (holds dev blockno c) xs) [
  | inl (b, e, m, t) ↦
      let chosen : bget pid dev blockno c ≡ take_lock pid b (take_ref b c) =
        rw (search_along c xs v (holds dev blockno c) ∙ e, bget) refl in
      inl (
        b,
        v.real b m,
        ==→eq (c.dev b) dev (ground (arith, t)),
        ==→eq (c.blockno b) blockno (ground (arith, t)),
        subst (Locks pid b (take_ref b c)) (sym chosen) (take_lock-Locks pid b (take_ref b c)),
        take_ref-IsCache c xs v b,
      )
  | inr (e, all) ↦
      let absent : (a : ℕ) → a < nbuf → holds dev blockno c a ≡ false =
        λ a small. all a (v.present a small) in
      inr (
        λ a small d n. absurd (ground (arith, absent a small, d, n)),
        elim (first_of_cases (is_unused c) (reversed xs)) [
          | inl (b, f, m, t) ↦
              let chosen : bget pid dev blockno c ≡ take_lock pid b (recycle dev blockno b c) =
                rw
                  (
                    search_along c xs v (holds dev blockno c) ∙ e,
                    search_back c xs v (is_unused c) ∙ f,
                    bget,
                  )
                  refl in
              inl (
                b,
                v.real b (sym (has-reversed b xs) ∙ m),
                f,
                subst (Locks pid b (recycle dev blockno b c)) (sym chosen)
                    (take_lock-Locks pid b (recycle dev blockno b c)),
                recycle-IsCache c xs v dev blockno b absent,
              )
          | inr (f, used) ↦ inr (
            λ a small. ==→ne (c.refcnt a) 0 (used a (has-reversed a xs ∙ v.present a small)),
            rw
                (
                  search_along c xs v (holds dev blockno c) ∙ e,
                  search_back c xs v (is_unused c) ∙ f,
                  bget,
                )
                refl,
          )
        ],
      )
]
