-- ===== src/Kernel/Pipe/Refines.antt =====
-- The ring carries the queue.
use listlib_and_system_calls.Common.{
  ◌||◌, ap, ◌&&◌, not, ==→ne, ne→==, ℕ, zero, suc, ◌+◌, ◌%◌, ◌^◌, ◌≡◌, ◌≢◌, ◌⊎◌, inl, inr, refl,
  sym, ◌∙◌, arith, Bool, true, false, Option, List, [], ◌∷◌, ◌++◌, length, length-append, ◌==◌,
  if◌then◌else◌, get_elem?-snoc, update, update_self, update_ne, subst, Bool-cases, Option-cases,
}
use listlib_and_system_calls.Kernel.Pipe.{
  writers, readers, no_one, Pipe, returns, fails, sleeps, pipe_size, uint_max, put_byte, take_byte,
  write_from, pipewrite, read_from, piperead,
}
use listlib_and_system_calls.Kernel.Pipe.Queue.{Carries, enqueue, dequeue}

module _ (p : Pipe) (bytes : List ℕ) (s : Carries p bytes) where
  full_lem : (p.nwrite == (p.nread + pipe_size) % uint_max) ≡ (length bytes == pipe_size)
  full_lem = ground (arith, s.counter, s.fits, s.bound)

  empty_lem : (p.nread == p.nwrite) ≡ (length bytes == 0)
  empty_lem = ground (arith, s.counter, s.fits, s.bound)

  same_slot : (j : ℕ) → j ≡ length bytes → p.nwrite % 512 ≡ (p.nread + j) % 512
  same_slot j h = omega (arith, s.counter, h)

  put_byte-Carries : (c : ℕ) → length bytes ≢ pipe_size → Carries (put_byte c p) (bytes ++ c ∷ [])
  unfolding put_byte
  put_byte-Carries c room = record {
    bound = s.bound;
    fits = omega (arith, s.fits, room, length-append bytes (c ∷ []));
    counter = omega (arith, s.counter, length-append bytes (c ∷ []));
    ring = λ j ch e. elim (get_elem?-snoc bytes c j ch e) [
      | inl (h, old) ↦
          update_ne p.data_ring (p.nwrite % 512) ((p.nread + j) % 512) c
            (λ same. absurd (omega (arith, s.counter, s.fits, room, same)))
          ∙ s.ring j ch old
      | inr (h, last) ↦
          subst (λ i. update p.data_ring (p.nwrite % 512) c i ≡ ch) (same_slot j h)
            (update_self p.data_ring (p.nwrite % 512) c ∙ last)
    ];
  }

module _ (p : Pipe) (c : ℕ) (bytes : List ℕ) (s : Carries p (c ∷ bytes)) where
  take_byte-first : (take_byte p).0 ≡ c
  unfolding take_byte
  take_byte-first =
      let same : p.nread % 512 ≡ (p.nread + 0) % 512 = omega arith in
      subst (λ i. p.data_ring i ≡ c) (sym same) (s.ring 0 c refl)

  take_byte-Carries : Carries (take_byte p).1 bytes
  unfolding take_byte
  take_byte-Carries = record {
    bound = omega arith;
    fits = omega (arith, s.fits);
    counter = omega (arith, s.counter);
    ring = λ j ch e.
        let same : ((p.nread + 1) % 2 ^ 32 + j) % 512 ≡ (p.nread + suc j) % 512 = omega arith in
        subst (λ i. p.data_ring i ≡ ch) (sym same) (s.ring (suc j) ch e);
  }

put_byte-readopen : (ch : ℕ) (p : Pipe) → (put_byte ch p).readopen ≡ p.readopen
unfolding put_byte
put_byte-readopen ch p = refl

-- The writer's loop puts what the queue takes, and ends as the queue does.
write_from-Carries :
    (copyin : ℕ → Option ℕ) (addr k i : ℕ) (p : Pipe) (bytes : List ℕ)
    → p.readopen ≢ 0
    → Carries p bytes
    → ((write_from copyin false addr k i p).0 ≡ (enqueue copyin addr k i bytes).0)
      × Carries (write_from copyin false addr k i p).1 (enqueue copyin addr k i bytes).1
      × ((write_from copyin false addr k i p).2 ≡ readers)
unfolding write_from enqueue
write_from-Carries copyin addr zero i p bytes reading s = (refl, s, refl)
write_from-Carries copyin addr (suc k) i p bytes reading s =
    rw (ne→== p.readopen 0 reading, full_lem p bytes s)
      elim (Bool-cases (length bytes == 512)) [
        | inl full ↦ rw full (refl, s, refl)
        | inr room ↦ rw room elim (Option-cases (copyin ((addr + i) % 2 ^ 64))) [
          | inl bad ↦ rw bad (refl, s, refl)
          | inr (ch, good) ↦ rw good (
              write_from-Carries copyin addr k (i + 1) (put_byte ch p) (bytes ++ ch ∷ [])
                (rw (put_byte-readopen ch p) reading)
                (put_byte-Carries p bytes s ch (==→ne (length bytes) 512 room)))
        ]
      ]

-- The reader's loop.
read_from-Carries :
    {M : Type 0} (copyout : ℕ → ℕ → M → Option M) (addr k i : ℕ) (p : Pipe) (bytes : List ℕ)
    (mem : M)
    → Carries p bytes
    → ((read_from copyout addr k i p mem).0 ≡ (dequeue copyout addr k i bytes mem).0)
      × Carries (read_from copyout addr k i p mem).1 (dequeue copyout addr k i bytes mem).1
      × ((read_from copyout addr k i p mem).2 ≡ (dequeue copyout addr k i bytes mem).2)
unfolding read_from dequeue
read_from-Carries copyout addr zero i p bytes mem s = (refl, s, refl)
read_from-Carries copyout addr (suc k) i p [] mem s = rw (empty_lem p [] s) (refl, s, refl)
read_from-Carries {M} copyout addr (suc k) i p (c ∷ bytes) mem s =
    rw
      (
        empty_lem p (c ∷ bytes) s,
        ne→== (length (c ∷ bytes)) 0 (λ e. absurd (omega arith)),
        take_byte-first p c bytes s,
      )
      elim (Option-cases (copyout ((addr + i) % 2 ^ 64) c mem)) [
        | inl bad ↦ rw (bad, dequeue) (refl, take_byte-Carries p c bytes s, refl)
        | inr (new, good) ↦
            rw (good, dequeue)
              (read_from-Carries copyout addr k (i + 1) (take_byte p).1 bytes new
                (take_byte-Carries p c bytes s))
      ]

pub pipewrite-open :
    (copyin : ℕ → Option ℕ) (addr n : ℕ) (p : Pipe) (bytes : List ℕ)
    → p.readopen ≢ 0
    → Carries p bytes
    → ((pipewrite copyin false addr n p).0 ≡ (enqueue copyin addr n 0 bytes).0)
      × Carries (pipewrite copyin false addr n p).1 (enqueue copyin addr n 0 bytes).1
      × ((pipewrite copyin false addr n p).2 ≡ readers)
unfolding pipewrite
pipewrite-open copyin addr n p bytes reading s =
    write_from-Carries copyin addr n 0 p bytes reading s

pipewrite-closed :
    (copyin : ℕ → Option ℕ) (killed : Bool) (addr n : ℕ) (p : Pipe)
    → (p.readopen == 0) || killed ≡ true
    → pipewrite copyin killed addr n p
      ≡ (if n == 0 then (returns 0, p, readers) else (fails, p, no_one))
unfolding pipewrite write_from
pipewrite-closed copyin killed addr zero p e = refl
pipewrite-closed copyin killed addr (suc n) p e =
    let some_bytes : (suc n == 0) ≡ false = ne→== (suc n) 0 (λ z. absurd (omega arith)) in
    rw (e, some_bytes) refl

-- With a ring that carries a queue of bytes: if the reading end is closed or the writer is killed,
-- `pipewrite` of one byte or more fails, changes nothing and wakes no one. Else it ends as the
-- bounded queue does, with the same count or asleep, the ring carries the queue with its bytes
-- behind, and the readers are woken.
pub pipewrite-refines :
    (copyin : ℕ → Option ℕ) (killed : Bool) (addr n : ℕ) (p : Pipe) (bytes : List ℕ)
    → Carries p bytes
    → (((p.readopen == 0) || killed ≡ true)
        × (pipewrite copyin killed addr n p
            ≡ (if n == 0 then (returns 0, p, readers) else (fails, p, no_one))))
      ⊎ (((p.readopen == 0) || killed ≡ false)
          × ((pipewrite copyin killed addr n p).0 ≡ (enqueue copyin addr n 0 bytes).0)
          × Carries (pipewrite copyin killed addr n p).1 (enqueue copyin addr n 0 bytes).1
          × ((pipewrite copyin killed addr n p).2 ≡ readers))
pipewrite-refines copyin true addr n p bytes s =
    let e : (p.readopen == 0) || true ≡ true = ground arith in
    inl (e, pipewrite-closed copyin true addr n p e)
pipewrite-refines copyin false addr n p bytes s = elim (Bool-cases (p.readopen == 0)) [
  | inl shut ↦
      let e : (p.readopen == 0) || false ≡ true = ground (arith, shut) in
      inl (e, pipewrite-closed copyin false addr n p e)
  | inr reading ↦
      let (ends, carried, woken) =
        pipewrite-open copyin addr n p bytes (==→ne p.readopen 0 reading) s in
      inr (ground (arith, reading), ends, carried, woken)
]

-- With a ring that carries a queue of bytes, `piperead` sleeps, or fails in a killed process, when the queue is empty
-- and the writing end is not closed; else it takes bytes off the front of the queue as the bounded queue does, and wakes the writers.
pub piperead-refines :
    {M : Type 0} (copyout : ℕ → ℕ → M → Option M) (killed : Bool) (addr n : ℕ) (p : Pipe)
    (bytes : List ℕ) (mem : M)
    → Carries p bytes
    → (((length bytes == 0) && not (p.writeopen == 0) ≡ true)
        × (piperead copyout addr killed n p mem
            ≡ (if killed then fails else sleeps 0, p, mem, no_one)))
      ⊎ (((length bytes == 0) && not (p.writeopen == 0) ≡ false)
          × ((piperead copyout addr killed n p mem).0
              ≡ returns (dequeue copyout addr n 0 bytes mem).0)
          × Carries (piperead copyout addr killed n p mem).1 (dequeue copyout addr n 0 bytes mem).1
          × ((piperead copyout addr killed n p mem).2 ≡ (dequeue copyout addr n 0 bytes mem).2)
          × ((piperead copyout addr killed n p mem).3 ≡ writers))
unfolding piperead
piperead-refines copyout killed addr n p bytes mem s =
    rw (empty_lem p bytes s) elim (Bool-cases ((length bytes == 0) && not (p.writeopen == 0))) [
      | inl waits ↦ inl (waits, rw waits)
      | inr goes ↦
          let (count, carried, stored) = read_from-Carries copyout addr n 0 p bytes mem s in
          inr (goes, rw goes (ap returns count), rw goes carried, rw goes stored, rw goes refl)
    ]
