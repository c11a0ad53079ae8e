-- ===== src/Kernel/Pipe/Queue.antt =====
-- What a pipe promises: a bounded queue of bytes.
use listlib_and_system_calls.Common.{
  ℕ, zero, suc, ◌+◌, ◌%◌, ◌^◌, ◌≤◌, ◌<◌, ◌≡◌, Option, none, some, List, [], ◌∷◌, ◌++◌, length, ◌==◌,
  if◌then◌else◌, get_elem?,
}
use listlib_and_system_calls.Kernel.Pipe.{Pipe, Outcome, returns, sleeps, pipe_size, uint_max}

-- The bytes between the two counters, which run modulo 2 ^ 32.
pub record Carries (p : Pipe) (bytes : List ℕ) : Type 0 where
  pub bound : p.nread < uint_max
  pub fits : length bytes ≤ pipe_size
  pub counter : p.nwrite ≡ (p.nread + length bytes) % uint_max
  pub ring : (j ch : ℕ) → get_elem? bytes j ≡ some ch → p.data_ring ((p.nread + j) % pipe_size) ≡ ch

-- A writer puts bytes behind the queue until it is full or the writer's memory ends.
unfoldable pub enqueue : (ℕ → Option ℕ) → ℕ → ℕ → ℕ → List ℕ → Outcome × List ℕ
enqueue source addr zero i bytes = (returns i, bytes)
enqueue source addr (suc k) i bytes =
    if length bytes == pipe_size then (sleeps i, bytes) else elim (source ((addr + i) % 2 ^ 64)) [
      | none ↦ (returns i, bytes)
      | some ch ↦ enqueue source addr k (i + 1) (bytes ++ ch ∷ [])
    ]

-- A reader takes bytes off its front until it is empty or the reader's memory ends; the byte that the
-- reader's memory refuses is gone.
unfoldable pub dequeue :
    {M : Type 0} → (ℕ → ℕ → M → Option M) → ℕ → ℕ → ℕ → List ℕ → M → ℕ × List ℕ × M
dequeue sink addr zero i bytes mem = (i, bytes, mem)
dequeue sink addr (suc k) i [] mem = (i, [], mem)
dequeue sink addr (suc k) i (ch ∷ bytes) mem = elim (sink ((addr + i) % 2 ^ 64) ch mem) [
  | none ↦ (i, bytes, mem)
  | some new ↦ dequeue sink addr k (i + 1) bytes new
]
