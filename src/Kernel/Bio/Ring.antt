-- ===== src/Kernel/Bio/Ring.antt =====
-- The ring of the buffer cache as a sequence.
use listlib_and_system_calls.Common.{
  update_ne, sym, some, true, inr, inl, Bool-cases, if◌then◌else◌, for_loop-from_0, ◌≤◌, ne→==, ℕ,
  zero, suc, ◌+◌, ◌≡◌, ◌≢◌, refl, false, ◌==◌, has, has-append, List, [], ◌∷◌, ◌++◌, update,
  update_self, arith, ==→ne, subst,
}
use listlib_and_system_calls.Kernel.Bio.{
  link_buf, unref_buf, count_down, drop_ref, nbuf, binit, brelse, Bcache, head, push_front, unlink,
}
use listlib_and_system_calls.Kernel.Sleeplock.{holdingsleep, free_lock, initsleeplock}
use listlib_and_system_calls.Kernel.Bio.Links.{
  behind_start, Links, AllDistinct, Links-split, unlink-Links, push_front-Links,
}

-- The buffers in the order of the ring, the one that was released last in front.
pub record Ordered (c : Bcache) (xs : List ℕ) : Type 0 where
  pub links : Links c.next c.prev head xs head
  pub distinct : AllDistinct xs
  pub off : has head xs ≡ false

pub push_front-Ordered :
    (b : ℕ) (c : Bcache) (xs : List ℕ)
    → has b xs ≡ false
    → b ≢ head
    → Ordered c xs
    → Ordered (push_front b c) (b ∷ xs)
unfolding push_front
push_front-Ordered b c xs off ne o = record {
  links = push_front-Links c.next c.prev head b xs o.links o.distinct o.off off ne;
  distinct = (off, o.distinct);
  off = ground (arith, o.off, ne→== b head ne);
}

AllDistinct-without :
    (pre : List ℕ) (b : ℕ) (post : List ℕ)
    → AllDistinct (pre ++ b ∷ post)
    → AllDistinct (pre ++ post) × (has b (pre ++ post) ≡ false)
AllDistinct-without [] b post (off, d) = (d, off)
AllDistinct-without (x ∷ pre) b post (off, d) =
    let (d', off') = AllDistinct-without pre b post d in
    (
      (ground (arith, off, has-append x pre (b ∷ post), has-append x pre post), d'),
      ground (arith, off, off', has-append x pre (b ∷ post)),
    )

pub unlink-Ordered :
    (c : Bcache) (pre : List ℕ) (b : ℕ) (post : List ℕ)
    → Ordered c (pre ++ b ∷ post)
    → Ordered (unlink b c) (pre ++ post) × (has b (pre ++ post) ≡ false) × (b ≢ head)
unfolding unlink
unlink-Ordered c pre b post o =
    let (front, back) = Links-split c.next c.prev head pre b post head o.links in
    let (d, off) = AllDistinct-without pre b post o.distinct in
    let ne : b ≢ head = ==→ne b head (ground (arith, o.off, has-append head pre (b ∷ post))) in
    let other : c.next b ≢ b =
      behind_start c.next c.prev b post head (c.next b) b back refl ne
        (ground (arith, off, has-append b pre post)) in
    (
      record {
        links =
            subst
              (λ (i : ℕ).
                Links (update c.next i (c.next b)) (update c.prev (c.next b) (c.prev b)) head
                  (pre ++ post) head)
              (sym (update_ne c.prev (c.next b) b (c.prev b) other))
              (unlink-Links c.next c.prev head pre b post head (c.prev b) (c.next b) front back refl
                refl o.distinct o.off o.off);
        distinct = d;
        off = ground (arith, o.off, has-append head pre (b ∷ post), has-append head pre post);
      },
      off,
      ne,
    )

unref_buf-Ordered :
    (c : Bcache) (pre : List ℕ) (b : ℕ) (post : List ℕ)
    → Ordered c (pre ++ b ∷ post)
    → Ordered
        (unref_buf b c)
        (if count_down (c.refcnt b) == 0 then b ∷ (pre ++ post) else pre ++ b ∷ post)
      × ((unref_buf b c).refcnt ≡ update c.refcnt b (count_down (c.refcnt b)))
      × ((unref_buf b c).lock ≡ c.lock)
unfolding unref_buf push_front unlink
unref_buf-Ordered c pre b post o = elim (Bool-cases (count_down (c.refcnt b) == 0)) [
  | inl last ↦
      let dropped : Ordered (drop_ref b c) (pre ++ b ∷ post) = record {
        links = o.links;
        distinct = o.distinct;
        off = o.off;
      } in
      let (u, off, ne) = unlink-Ordered (drop_ref b c) pre b post dropped in
      rw last (push_front-Ordered b (unlink b (drop_ref b c)) (pre ++ post) off ne u, refl, refl)
  | inr more ↦ rw more (record { links = o.links; distinct = o.distinct; off = o.off }, refl, refl)
]

-- `brelse` of a buffer of the ring, by a process that holds its lock, does not panic: the last
-- release moves the buffer to the front of the order, and another one leaves the order alone; both
-- drop one reference and the lock of this buffer.
pub brelse-Ordered :
    (pid : ℕ) (c : Bcache) (pre : List ℕ) (b : ℕ) (post : List ℕ)
    → Ordered c (pre ++ b ∷ post)
    → holdingsleep pid (c.lock b) ≡ true
    → (c' : Bcache) × (brelse pid b c ≡ some c')
      × Ordered c' (if count_down (c.refcnt b) == 0 then b ∷ (pre ++ post) else pre ++ b ∷ post)
      × (c'.refcnt ≡ update c.refcnt b (count_down (c.refcnt b)))
      × (c'.lock ≡ update c.lock b initsleeplock)
unfolding brelse free_lock initsleeplock
brelse-Ordered pid c pre b post o held =
    let unlocked = record c { lock = update c.lock b (free_lock (c.lock b)) } in
    let (o', refs, locks) =
      unref_buf-Ordered unlocked pre b post
        record { links = o.links; distinct = o.distinct; off = o.off } in
    (unref_buf b unlocked, rw held refl, o', refs, locks)

-- The order behind the start: the last buffer in front.
abbrev pub downward : ℕ → List ℕ
downward zero = []
downward (suc i) = i ∷ downward i

downward_off : (b i : ℕ) → i ≤ b → has b (downward i) ≡ false
downward_off b zero h = refl
downward_off b (suc i) h = ground (arith, downward_off b i (omega arith))

-- Behind `binit` every buffer stands in the ring.
pub binit-Ordered : (c : Bcache) → Ordered (binit c) (downward nbuf)
unfolding binit
binit-Ordered c =
    for_loop-from_0 (λ i d. Ordered d (downward i)) nbuf link_buf
      (record c { next = update c.next head head; prev = update c.prev head head })
      (λ i d small o.
        let e : suc i ≡ i + 1 = omega arith in
        subst (λ (j : ℕ). Ordered (link_buf i d) (downward j)) e
          (push_front-Ordered i (record d { lock = update d.lock i initsleeplock }) (downward i)
            (downward_off i i (omega arith)) (λ s. absurd (omega arith))
            record { links = o.links; distinct = o.distinct; off = o.off }))
      record {
        links = (update_self c.next head head, update_self c.prev head head);
        distinct = tt;
        off = refl;
      }
