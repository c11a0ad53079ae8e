-- ===== src/Kernel/Pipe/Tests.antt =====
-- Runs of a pipe, and its theorems at concrete pipes.
use listlib_and_system_calls.Common.{
  ◌⊎◌, not, ◌&&◌, ◌^◌, ◌==◌, ◌<◌, length, ℕ, ◌≡◌, refl, some, List, [], ◌∷◌, arith, true, false,
}
use listlib_and_system_calls.Kernel.Pipe.{
  writers, readers, no_one, fails, Pipe, returns, sleeps, pipewrite, piperead,
}
use listlib_and_system_calls.Kernel.Pipe.Queue.{Carries, enqueue, dequeue}
use listlib_and_system_calls.Kernel.Pipe.Refines.{pipewrite-refines, piperead-refines}
use listlib_and_system_calls.Kernel.Pipe.Transfer.{pipe_transfer, loaded, stored}

-- A new pipe, and one whose counters are about to wrap around.
abbrev new_pipe : Pipe
new_pipe = record { data_ring = λ i. 0; nread = 0; nwrite = 0; readopen = 1; writeopen = 1 }

abbrev old_pipe : Pipe
old_pipe = record {
  data_ring = λ i. 0;
  nread = 4294967295;
  nwrite = 4294967295;
  readopen = 1;
  writeopen = 1;
}

empty-Carries : (p : Pipe) → p.nread < 2 ^ 32 → p.nwrite ≡ p.nread → Carries p []
empty-Carries p small same = record {
  bound = small;
  fits = omega arith;
  counter = omega arith;
  ring = λ j ch e. ground arith;
}

-- The memory of the reader: what was stored, the last first.
abbrev note : ℕ → ℕ → List ℕ → List ℕ
note a c m = c ∷ m

pipewrite-refines_example :
    ((false ≡ true) × (pipewrite (λ a. some a) false 65 3 old_pipe ≡ (fails, old_pipe, no_one)))
    ⊎ ((false ≡ false)
        × ((pipewrite (λ a. some a) false 65 3 old_pipe).0 ≡ (enqueue (λ a. some a) 65 3 0 []).0)
        × Carries
            (pipewrite (λ a. some a) false 65 3 old_pipe).1
            (enqueue (λ a. some a) 65 3 0 []).1
        × ((pipewrite (λ a. some a) false 65 3 old_pipe).2 ≡ readers))
pipewrite-refines_example =
    pipewrite-refines (λ a. some a) false 65 3 old_pipe []
      (empty-Carries old_pipe (omega arith) refl)

piperead-refines_example :
    (((length {A = ℕ} [] == 0) && not (new_pipe.writeopen == 0) ≡ true)
      × (piperead (λ a c m. some (note a c m)) 0 false 3 new_pipe []
          ≡ (sleeps 0, new_pipe, [], no_one)))
    ⊎ (((length {A = ℕ} [] == 0) && not (new_pipe.writeopen == 0) ≡ false)
        × ((piperead (λ a c m. some (note a c m)) 0 false 3 new_pipe []).0
            ≡ returns (dequeue (λ a c m. some (note a c m)) 0 3 0 [] []).0)
        × Carries
            (piperead (λ a c m. some (note a c m)) 0 false 3 new_pipe []).1
            (dequeue (λ a c m. some (note a c m)) 0 3 0 [] []).1
        × ((piperead (λ a c m. some (note a c m)) 0 false 3 new_pipe []).2
            ≡ (dequeue (λ a c m. some (note a c m)) 0 3 0 [] []).2)
        × ((piperead (λ a c m. some (note a c m)) 0 false 3 new_pipe []).3 ≡ writers))
piperead-refines_example =
    piperead-refines (λ a c m. some (note a c m)) false 0 3 new_pipe [] []
      (empty-Carries new_pipe (omega arith) refl)

pipe_transfer_example :
    ((pipewrite (λ a. some a) false 65 3 old_pipe).0 ≡ returns 3)
    × ((piperead
          (λ a c m. some (note a c m))
          0
          false
          3
          (pipewrite (λ a. some a) false 65 3 old_pipe).1
          []).0
        ≡ returns 3)
    × Carries
        (piperead
          (λ a c m. some (note a c m))
          0
          false
          3
          (pipewrite (λ a. some a) false 65 3 old_pipe).1
          []).1
        []
    × ((piperead
          (λ a c m. some (note a c m))
          0
          false
          3
          (pipewrite (λ a. some a) false 65 3 old_pipe).1
          []).2
        ≡ stored note 0 0 (loaded (λ a. a) 65 3 0) [])
pipe_transfer_example =
    pipe_transfer (λ a. a) note 65 0 3 old_pipe [] (omega arith)
      (empty-Carries old_pipe (omega arith) refl) (omega arith) (omega arith)

transferred : stored note 0 0 (loaded (λ a. a) 65 3 0) [] ≡ 67 ∷ 66 ∷ 65 ∷ []
transferred = refl
