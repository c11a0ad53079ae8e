-- ===== src/Kernel/Log/Commits.antt =====
-- The first half of `commit`: `write_log` copies the listed blocks to their slots.
use native.Mathlib.Decide.{ℕ_discrete}
use listlib_and_system_calls.Common.{
  ℕ, ◌+◌, ◌≤◌, ◌<◌, ◌≡◌, ◌≢◌, ◌⊎◌, inl, inr, refl, sym, ◌∙◌, arith, subst, update, update_self,
  update_ne, for_loop-from_0,
}
use listlib_and_system_calls.Kernel.Log.{
  Block, Log, Machine, log_blocks, bwrite, set_data, write_block, write_log,
}
use listlib_and_system_calls.Kernel.Log.Images.{Home, Home-ne, bwrite-off, bwrite-on}
use listlib_and_system_calls.Kernel.Log.Installs.{power-cases}

-- In front of a commit: the log on disk is empty, the header in memory lists blocks outside of the
-- log, and the cache agrees with the disk on the blocks that it does not list.
pub record IsReady (m : Machine) : Type 0 where
  pub empty : m.disk m.log.start 0 ≡ 0
  pub small : m.log.lh.n ≤ log_blocks
  pub homes : (i : ℕ) → i < m.log.lh.n → Home m.log.start (m.log.lh.block i)
  pub clean :
      (b : ℕ)
      → Home m.log.start b
      → (m.disk b ≡ m.cache b) ⊎ ((i : ℕ) × (i < m.log.lh.n) × (m.log.lh.block i ≡ b))

module _ (m : Machine) (ready : IsReady m) where
  abbrev start : ℕ
  start = m.log.start

  abbrev n : ℕ
  n = m.log.lh.n

  abbrev block : ℕ → ℕ
  block = m.log.lh.block

  -- In front of round `j` of `write_log`.
  pub record Writing (j : ℕ) (t : Machine) : Type 0 where
    pub log : t.log ≡ m.log
    pub header : t.disk start ≡ m.disk start
    pub home : (b : ℕ) → Home start b → t.disk b ≡ m.disk b
    pub cache : (b : ℕ) → Home start b → t.cache b ≡ m.cache b
    pub cached : (i : ℕ) → i < j → t.cache (start + i + 1) ≡ m.cache (block i)
    pub power : m.power ≤ t.power + j
    pub slots : (t.power ≡ 0) ⊎ ((i : ℕ) → i < j → t.disk (start + i + 1) ≡ m.cache (block i))

  module _ (j : ℕ) (t : Machine) (s : Writing j t) (here : j < n) where
    abbrev slot : ℕ
    slot = start + j + 1

    slot-ne : (b : ℕ) → Home start b → slot ≢ b
    slot-ne b home e = Home-ne start b (j + 1) home (omega (arith, ready.small)) (omega (arith, e))

    -- The slots in front of `j + 1`, once `v` stands in that of `j`.
    all_slots :
        (f : ℕ → Block) (v : Block)
        → v ≡ m.cache (block j)
        → ((i : ℕ) → i < j → f (start + i + 1) ≡ m.cache (block i))
        → (i : ℕ) → i < j + 1
        → update f slot v (start + i + 1) ≡ m.cache (block i)
    all_slots f v e old i inside = elim (ℕ_discrete j i) [
      | yes same ↦
          subst (λ a. update f slot v (start + a + 1) ≡ m.cache (block a)) same
            (update_self f slot v ∙ e)
      | no ne ↦
          update_ne f slot (start + i + 1) v (λ same. ne (omega (arith, same)))
          ∙ old i (omega (arith, ne))
    ]

    fresh : t.cache (block j) ≡ m.cache (block j)
    fresh = s.cache (block j) (ready.homes j here)

    cache_next : (b : ℕ) → Home start b → update t.cache slot (t.cache (block j)) b ≡ m.cache b
    cache_next b home =
        update_ne t.cache slot b (t.cache (block j)) (slot-ne b home) ∙ s.cache b home

    Writing-write : Writing (j + 1) (bwrite slot (set_data slot (t.cache (block j)) t))
    Writing-write = elim (power-cases t.power) [
      | inl gone ↦ rw (bwrite-off slot (set_data slot (t.cache (block j)) t) gone) record {
        log = s.log;
        header = s.header;
        home = s.home;
        cache = cache_next;
        cached = all_slots t.cache (t.cache (block j)) fresh s.cached;
        power = omega (arith, s.power);
        slots = inl gone;
      }
      | inr (k, left) ↦
          rw
            (
              bwrite-on slot k (set_data slot (t.cache (block j)) t) left,
              update_self t.cache slot (t.cache (block j)),
            )
            record {
              log = s.log;
              header =
                  update_ne t.disk slot start (t.cache (block j)) (λ e. absurd (omega (arith, e)))
                  ∙ s.header;
              home = λ b home.
                  update_ne t.disk slot b (t.cache (block j)) (slot-ne b home) ∙ s.home b home;
              cache = cache_next;
              cached = all_slots t.cache (t.cache (block j)) fresh s.cached;
              power = omega (arith, s.power);
              slots = elim s.slots [
                | inl gone ↦ absurd (omega arith)
                | inr old ↦ inr (all_slots t.disk (t.cache (block j)) fresh old)
              ];
            }
    ]

    Writing-block : Writing (j + 1) (write_block j t)
    unfolding write_block
    Writing-block =
        subst
          (λ (g : Log).
            Writing (j + 1)
              (bwrite (g.start + j + 1) (set_data (g.start + j + 1) (t.cache (g.lh.block j)) t)))
          (sym s.log) Writing-write

  pub Writing-log : Writing n (write_log m)
  unfolding write_log
  Writing-log =
      for_loop-from_0 Writing n write_block m (λ j t to s. Writing-block j t s to)
        record {
          log = refl;
          header = refl;
          home = λ b home. refl;
          cache = λ b home. refl;
          cached = λ i none_yet. absurd (omega arith);
          power = omega arith;
          slots = inr λ i none_yet. absurd (omega arith);
        }
