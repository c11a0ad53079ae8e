-- ===== src/Kernel/Pipe/Transfer.antt =====
-- What is written to a pipe comes out of it, in order.
use listlib_and_system_calls.Common.{
  not, ne→==, subst, ℕ, zero, suc, ◌+◌, ◌%◌, ◌^◌, ◌≤◌, ◌<◌, ◌≡◌, ◌≢◌, inl, inr, refl, ap, ◌∙◌,
  arith, Bool, true, false, Option, some, List, [], ◌∷◌, ◌++◌, length, length-append, ◌==◌,
  if◌then◌else◌,
}
use listlib_and_system_calls.Kernel.Pipe.{
  Pipe, returns, pipe_size, pipe_init, pipeclose, pipewrite, piperead,
}
use listlib_and_system_calls.Kernel.Pipe.Queue.{Carries, enqueue, dequeue}
use listlib_and_system_calls.Kernel.Pipe.Refines.{pipewrite-open, piperead-refines}

-- `k` bytes of a memory, from `addr + i`.
abbrev pub loaded : (ℕ → ℕ) → ℕ → ℕ → ℕ → List ℕ
loaded f addr zero i = []
loaded f addr (suc k) i = f ((addr + i) % 2 ^ 64) ∷ loaded f addr k (i + 1)

-- A memory with bytes put from `addr + i`.
abbrev pub stored : {M : Type 0} → (ℕ → ℕ → M → M) → ℕ → ℕ → List ℕ → M → M
stored store addr i [] mem = mem
stored store addr i (c ∷ bytes) mem =
    stored store addr (i + 1) bytes (store ((addr + i) % 2 ^ 64) c mem)

length-loaded : (f : ℕ → ℕ) (addr k i : ℕ) → length (loaded f addr k i) ≡ k
length-loaded f addr zero i = refl
length-loaded f addr (suc k) i = omega (arith, length-loaded f addr k (i + 1))

append_assoc : (xs : List ℕ) (c : ℕ) (ys : List ℕ) → (xs ++ c ∷ []) ++ ys ≡ xs ++ c ∷ ys
append_assoc [] c ys = refl
append_assoc (x ∷ xs) c ys = ap (λ zs. x ∷ zs) (append_assoc xs c ys)

append_nil : (xs : List ℕ) → xs ++ [] ≡ xs
append_nil [] = refl
append_nil (x ∷ xs) = ap (λ zs. x ∷ zs) (append_nil xs)

enqueue-loaded :
    (f : ℕ → ℕ) (addr k i : ℕ) (bytes : List ℕ)
    → length bytes + k ≤ pipe_size
    → enqueue (λ a. some (f a)) addr k i bytes ≡ (returns (i + k), bytes ++ loaded f addr k i)
unfolding enqueue
enqueue-loaded f addr zero i bytes room =
    let same : i + 0 ≡ i = omega arith in rw (same, append_nil bytes)
enqueue-loaded f addr (suc k) i bytes room =
    let c = f ((addr + i) % 2 ^ 64) in
    let same : i + 1 + k ≡ i + suc k = omega arith in
    rw (ne→== (length bytes) 512 (λ e. absurd (omega arith))) (
      enqueue-loaded f addr k (i + 1) (bytes ++ c ∷ [])
        (omega (arith, length-append bytes (c ∷ [])))
      ∙ rw (same, append_assoc bytes c (loaded f addr k (i + 1))))

dequeue-stored :
    {M : Type 0} (store : ℕ → ℕ → M → M) (addr i : ℕ) (bytes : List ℕ) (mem : M)
    → dequeue (λ a c m. some (store a c m)) addr (length bytes) i bytes mem
      ≡ (i + length bytes, [], stored store addr i bytes mem)
unfolding dequeue
dequeue-stored store addr i [] mem = let same : i + 0 ≡ i = omega arith in rw same
dequeue-stored store addr i (c ∷ bytes) mem =
    let same : i + 1 + length bytes ≡ i + suc (length bytes) = omega arith in
    dequeue-stored store addr (i + 1) bytes (store ((addr + i) % 2 ^ 64) c mem) ∙ rw same

-- A reader with good memory empties the queue.
piperead-all :
    {M : Type 0} (store : ℕ → ℕ → M → M) (to n : ℕ) (p : Pipe) (bytes : List ℕ) (mem : M)
    → Carries p bytes
    → length bytes ≡ n
    → 0 < n
    → ((piperead (λ a c m. some (store a c m)) to false n p mem).0 ≡ returns n)
      × Carries (piperead (λ a c m. some (store a c m)) to false n p mem).1 []
      × ((piperead (λ a c m. some (store a c m)) to false n p mem).2 ≡ stored store to 0 bytes mem)
piperead-all {M} store to n p bytes mem s count some_bytes =
    let sink : ℕ → ℕ → M → Option M = λ a c m. some (store a c m) in
    let same : 0 + length bytes ≡ length bytes = omega arith in
    let took : dequeue sink to n 0 bytes mem ≡ (n, [], stored store to 0 bytes mem) =
      subst (λ k. dequeue sink to k 0 bytes mem ≡ (k, [], stored store to 0 bytes mem)) count
        (dequeue-stored store to 0 bytes mem ∙ rw same) in
    elim (piperead-refines sink false to n p bytes mem s) [
      | inl (empty, _) ↦ absurd (ground (arith, empty, count, some_bytes))
      | inr (_, returned, left, got, _) ↦ (
        returned ∙ ap (λ r. returns r.0) took,
        subst (Carries _) (ap (λ r. r.1) took) left,
        got ∙ ap (λ r. r.2) took,
      )
    ]

-- At any counters of an empty ring, wrapped around or not, and for 1 to 512 bytes of good memory: `pipewrite` returns their
-- number, then `piperead` of that many returns it too, the reader's memory holds the writer's bytes in order, and the ring is empty.
pub pipe_transfer :
    {M : Type 0} (f : ℕ → ℕ) (store : ℕ → ℕ → M → M) (from to n : ℕ) (p : Pipe) (mem : M)
    → p.readopen ≢ 0
    → Carries p []
    → 0 < n
    → n ≤ pipe_size
    → ((pipewrite (λ a. some (f a)) false from n p).0 ≡ returns n)
      × ((piperead
            (λ a c m. some (store a c m))
            to
            false
            n
            (pipewrite (λ a. some (f a)) false from n p).1
            mem).0
          ≡ returns n)
      × Carries
          (piperead
            (λ a c m. some (store a c m))
            to
            false
            n
            (pipewrite (λ a. some (f a)) false from n p).1
            mem).1
          []
      × ((piperead
            (λ a c m. some (store a c m))
            to
            false
            n
            (pipewrite (λ a. some (f a)) false from n p).1
            mem).2
          ≡ stored store to 0 (loaded f from n 0) mem)
pipe_transfer f store from to n p mem reading s some_bytes room =
    let put = enqueue-loaded f from n 0 [] (omega arith) in
    let written = pipewrite-open (λ a. some (f a)) from n p [] reading s in
    let same : 0 + n ≡ n = omega arith in
    let out =
      piperead-all store to n (pipewrite (λ a. some (f a)) false from n p).1 (loaded f from n 0) mem
        (subst (Carries _) (ap (λ r. r.1) put) written.1) (length-loaded f from n 0) some_bytes in
    (written.0 ∙ ap (λ r. r.0) put ∙ ap returns same, out.0, out.1, out.2)

pub pipe_init-Carries : (page : ℕ → ℕ) → Carries (pipe_init page) []
unfolding pipe_init
pipe_init-Carries page = record {
  bound = omega arith;
  fits = omega arith;
  counter = refl;
  ring = λ j ch e. ground arith;
}

-- The page of a pipe is freed by the close that finds the other end closed, whichever end that is, and by no other.
pub pipeclose-both :
    (writable : Bool) (p : Pipe)
    → ((pipeclose (not writable) (pipeclose writable p).0).1 ≡ true)
      × ((pipeclose writable p).1 ≡ ((if writable then p.readopen else p.writeopen) == 0))
      × ((pipeclose writable p).0.nread ≡ p.nread)
      × ((pipeclose writable p).0.nwrite ≡ p.nwrite)
unfolding pipeclose
pipeclose-both true p = (refl, ground arith, refl, refl)
pipeclose-both false p = (refl, ground arith, refl, refl)
