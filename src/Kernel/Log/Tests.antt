-- ===== src/Kernel/Log/Tests.antt =====
-- Runs of the log on a small disk, and its theorems at concrete machines.
use native.Mathlib.Decide.{ℕ_discrete}
use listlib_and_system_calls.Common.{
  for_loop, ℕ, ◌<◌, ◌≡◌, ◌≢◌, ◌⊎◌, inl, inr, refl, sym, arith, update, update_ne, none, some, [],
  ◌∷◌,
}
use listlib_and_system_calls.Kernel.Log.{
  Block, Machine, log_blocks, bwrite, commit, write_log, write_block, write_head, install_trans,
  install_block, store_blocks, log_write, end_op, begin_op, set_data,
}
use listlib_and_system_calls.Kernel.Log.Restart.{recovered}
use listlib_and_system_calls.Kernel.Log.Commits.{IsReady}
use listlib_and_system_calls.Kernel.Log.Atomic.{outside, commit_atomic, commit_durable}
use listlib_and_system_calls.Kernel.Log.Writes.{log_write-IsReady}
use listlib_and_system_calls.Kernel.Log.Space.{Reachable, log_never_full, boots, begins}

-- The log starts at block 2; block 50 is to get sevens.
abbrev zeros : Block
zeros w = 0

abbrev sevens : Block
sevens w = 7

abbrev pub dirty : ℕ → Machine
dirty power = record {
  disk = λ b. zeros;
  cache = update (λ b. zeros) 50 sevens;
  pins = λ b. 0;
  power = power;
  log = record {
    start = 2;
    outstanding = 1;
    committing = 0;
    lh = record { n = 1; block = λ i. 50 };
  };
}

dirty-IsReady : (power : ℕ) → IsReady (dirty power)
dirty-IsReady power = record {
  empty = refl;
  small = omega arith;
  homes = λ i h. inr (omega arith);
  clean = λ b home. elim (ℕ_discrete 50 b) [
    | yes e ↦ inr (0, omega arith, e)
    | no ne ↦ inl (sym (update_ne (λ b. zeros) 50 b sevens ne))
  ];
}

committed_block : (commit (dirty 4)).disk 50 3 ≡ 7
unfolding commit for_loop write_log write_block write_head install_trans install_block store_blocks
    bwrite update
committed_block = refl

cut_short : (commit (dirty 2)).disk 50 3 ≡ 0
unfolding commit for_loop write_log write_block write_head install_trans install_block store_blocks
    bwrite update
cut_short = refl

commit_atomic_example :
    (outside 2 (recovered 2 (commit (dirty 2)).disk (1 ∷ 0 ∷ []) 31) ≡ outside 2 (dirty 2).disk)
    ⊎ (outside 2 (recovered 2 (commit (dirty 2)).disk (1 ∷ 0 ∷ []) 31) ≡ outside 2 (dirty 2).cache)
commit_atomic_example = commit_atomic (dirty 2) (1 ∷ 0 ∷ []) 31 (dirty-IsReady 2) (omega arith)

commit_durable_example :
    ((commit (dirty 62)).disk 2 0 ≡ 0)
    × (outside 2 (commit (dirty 62)).disk ≡ outside 2 (dirty 62).cache)
    × (outside 2 (recovered 2 (commit (dirty 62)).disk [] 31) ≡ outside 2 (dirty 62).cache)
commit_durable_example =
    commit_durable (dirty 62) [] 31 (dirty-IsReady 62) (omega arith) (omega arith)

log_write-IsReady_example :
    (n : Machine) × (log_write 60 (set_data 60 sevens (dirty 9)) ≡ some n)
    × IsReady n
    × (n.cache ≡ update (dirty 9).cache 60 sevens)
    × (n.disk ≡ (dirty 9).disk)
log_write-IsReady_example =
    log_write-IsReady (dirty 9) 60 sevens (dirty-IsReady 9) (inr (omega arith)) (omega arith)
      (omega arith)

-- A machine without operations, and with one that has just begun.
abbrev idle : ℕ → Machine
idle outstanding = record {
  disk = λ b. zeros;
  cache = λ b. zeros;
  pins = λ b. 0;
  power = 9;
  log = record {
    start = 2;
    outstanding = outstanding;
    committing = 0;
    lh = record { n = 0; block = λ i. 0 };
  };
}

idle-Reachable : Reachable (idle 0) []
idle-Reachable = boots (idle 0) refl refl refl

begun-Reachable : Reachable (idle 1) (10 ∷ [])
unfolding begin_op
begun-Reachable = begins (idle 0) (idle 1).log [] idle-Reachable refl

log_never_full_example :
    (log_write 50 (idle 1) ≢ none) × (end_op (idle 1).log ≢ none) × ((idle 1).log.lh.n < log_blocks)
log_never_full_example = log_never_full (idle 1) 50 9 [] [] begun-Reachable
