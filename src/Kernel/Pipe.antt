-- ===== src/Kernel/Pipe.antt =====
-- pipe.c: a pipe as a ring of bytes between its two ends.
use listlib_and_system_calls.Common.{
  ℕ, zero, suc, ◌+◌, ◌%◌, ◌^◌, Bool, true, false, Option, none, some, ◌==◌, ◌||◌, ◌&&◌, not,
  if◌then◌else◌, update,
}
pub mod Queue
pub mod Refines
pub mod Transfer
pub mod Tests

abbrev pub pipe_size : ℕ
pipe_size = 512

abbrev pub uint_max : ℕ
uint_max = 2 ^ 32

-- `struct pipe` without its lock
pub record Pipe : Type 0 where
  pub data_ring : ℕ → ℕ
  pub nread : ℕ
  pub nwrite : ℕ
  pub readopen : ℕ
  pub writeopen : ℕ

-- The pipe that `pipealloc` sets up in a new page.
unfoldable pub pipe_init : (ℕ → ℕ) → Pipe
pipe_init page = record { data_ring = page; readopen = 1; writeopen = 1; nwrite = 0; nread = 0 }

-- Whom a run under the lock wakes: the sleepers on `&pi->nread` or on `&pi->nwrite`.
pub data Wake : Type 0 where
  no_one : Wake
  readers : Wake
  writers : Wake

-- The pipe, whether its page is freed, and who is woken.
unfoldable pub pipeclose : Bool → Pipe → Pipe × Bool × Wake
pipeclose writable p =
    let q = if writable then record p { writeopen = 0 } else record p { readopen = 0 } in
    (q, (q.readopen == 0) && (q.writeopen == 0), if writable then readers else writers)

-- How a run under the lock ends: the function returns a count or -1, or it sleeps at the loop's head
-- with `i` bytes moved.
pub data Outcome : Type 0 where
  returns : ℕ → Outcome
  fails : Outcome
  sleeps : ℕ → Outcome

-- `pi->data[pi->nwrite++ % PIPESIZE] = ch`
unfoldable pub put_byte : ℕ → Pipe → Pipe
put_byte ch p = record p {
  data_ring = update p.data_ring (p.nwrite % pipe_size) ch;
  nwrite = (p.nwrite + 1) % uint_max;
}

-- `ch = pi->data[pi->nread++ % PIPESIZE]`
unfoldable pub take_byte : Pipe → ℕ × Pipe
take_byte p = (p.data_ring (p.nread % pipe_size), record p { nread = (p.nread + 1) % uint_max })

-- The writer: `copyin` reads a byte of its memory, unless the address is bad.
module _ (copyin : ℕ → Option ℕ) (killed : Bool) (addr : ℕ) where
  -- The loop of `pipewrite` from `i`, with `k` bytes to go.
  unfoldable pub write_from : ℕ → ℕ → Pipe → Outcome × Pipe × Wake
  write_from zero i p = (returns i, p, readers)
  write_from (suc k) i p =
      if (p.readopen == 0) || killed
      then (fails, p, no_one)
      else if p.nwrite == (p.nread + pipe_size) % uint_max
      then (sleeps i, p, readers)
      else elim (copyin ((addr + i) % 2 ^ 64)) [
        | none ↦ (returns i, p, readers)
        | some ch ↦ write_from k (i + 1) (put_byte ch p)
      ]

  unfoldable pub pipewrite : ℕ → Pipe → Outcome × Pipe × Wake
  pipewrite n p = write_from n 0 p

-- The reader: `copyout` writes a byte of its memory, unless the address is bad.
module _ {M : Type 0} (copyout : ℕ → ℕ → M → Option M) (addr : ℕ) where
  -- The loop that copies, from `i`, with `k` bytes to go.
  unfoldable pub read_from : ℕ → ℕ → Pipe → M → ℕ × Pipe × M
  read_from zero i p mem = (i, p, mem)
  read_from (suc k) i p mem =
      if p.nread == p.nwrite
      then (i, p, mem)
      else let (ch, q) = take_byte p in
        elim (copyout ((addr + i) % 2 ^ 64) ch mem) [
          | none ↦ (i, q, mem)
          | some new ↦ read_from k (i + 1) q new
        ]

  unfoldable pub piperead : Bool → ℕ → Pipe → M → Outcome × Pipe × M × Wake
  piperead killed n p mem =
      if (p.nread == p.nwrite) && not (p.writeopen == 0)
      then (if killed then fails else sleeps 0, p, mem, no_one)
      else let (i, q, new) = read_from n 0 p mem in (returns i, q, new, writers)
