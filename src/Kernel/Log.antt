-- ===== src/Kernel/Log.antt =====
-- log.c: the redo log of the file system.
use listlib_and_system_calls.Common.{
  ℕ, zero, suc, ◌+◌, ◌*◌, ◌-◌, Bool, true, false, Option, none, some, ltb, leb, ◌==◌, not,
  if◌then◌else◌, for_loop, update,
}
pub mod Images
pub mod Installs
pub mod Commits
pub mod Atomic
pub mod Restart
pub mod Effects
pub mod Writes
pub mod Space
pub mod Tests

-- A block of the disk as its BSIZE / 4 words, which `struct logheader` reads as `int`s.
abbrev pub Block : Type 0
Block = ℕ → ℕ

abbrev pub log_blocks : ℕ
log_blocks = 30

abbrev pub max_op_blocks : ℕ
max_op_blocks = 10

-- `struct logheader`
pub record LogHeader : Type 0 where
  pub n : ℕ
  pub block : ℕ → ℕ

-- `struct log`; the one device and the lock are left out.
pub record Log : Type 0 where
  pub start : ℕ
  pub outstanding : ℕ
  pub committing : ℕ
  pub lh : LogHeader

-- The log with what it works on: `cache b` is the content that bread finds for block b, `pins b` the
-- references that bpin holds on its buffer, and `power` the number of blocks that are still written
-- before the machine stops.
pub record Machine : Type 0 where
  pub disk : ℕ → Block
  pub cache : ℕ → Block
  pub pins : ℕ → ℕ
  pub power : ℕ
  pub log : Log

-- bwrite of the buffer of block `b`
unfoldable pub bwrite : ℕ → Machine → Machine
bwrite b m = elim m.power [
  | zero ↦ m
  | suc k ↦ record m { disk = update m.disk b (m.cache b); power = k }
]

-- A change of the data of a buffer.
abbrev pub set_data : ℕ → Block → Machine → Machine
set_data b v m = record m { cache = update m.cache b v }

abbrev pub set_header : LogHeader → Machine → Machine
set_header lh m = record m { log = record m.log { lh = lh } }

abbrev pub bpin : ℕ → Machine → Machine
bpin b m = record m { pins = update m.pins b (m.pins b + 1) }

abbrev pub bunpin : ℕ → Machine → Machine
bunpin b m = record m { pins = update m.pins b (m.pins b - 1) }

-- One round of the loop of `install_trans`.
unfoldable pub install_block : Bool → ℕ → Machine → Machine
install_block recovering tail m =
    let lbuf = m.log.start + tail + 1 in
    let dbuf = m.log.lh.block tail in
    let copied = bwrite dbuf (set_data dbuf (m.cache lbuf) m) in
    if recovering then copied else bunpin dbuf copied

unfoldable pub install_trans : Bool → Machine → Machine
install_trans recovering m = for_loop m.log.lh.n 0 (install_block recovering) m

-- The copy of the block numbers between a header and its block.
unfoldable pub load_blocks : Block → LogHeader → LogHeader
load_blocks buf lh =
    for_loop lh.n 0 (λ i (h : LogHeader). record h { block = update h.block i (buf (i + 1)) }) lh

unfoldable pub store_blocks : LogHeader → Block → Block
store_blocks lh buf = for_loop lh.n 0 (λ i b. update b (i + 1) (lh.block i)) buf

unfoldable pub read_head : Machine → Machine
read_head m =
    let buf = m.cache m.log.start in set_header (load_blocks buf (record m.log.lh { n = buf 0 })) m

unfoldable pub write_head : Machine → Machine
write_head m =
    let buf = m.cache m.log.start in
    bwrite m.log.start (set_data m.log.start (store_blocks m.log.lh (update buf 0 m.log.lh.n)) m)

unfoldable pub recover_from_log : Machine → Machine
recover_from_log m =
    let installed = install_trans true (read_head m) in
    write_head (set_header (record installed.log.lh { n = 0 }) installed)

-- The superblock gives the start of the log.
unfoldable pub initlog : ℕ → Machine → Machine
initlog start m = recover_from_log (record m { log = record m.log { start = start } })

-- One round of the loop of `begin_op`: `none` when it sleeps.
unfoldable pub begin_op : Log → Option Log
begin_op l =
    if not (l.committing == 0)
    then none
    else if not (leb (l.lh.n + (l.outstanding + 1) * max_op_blocks) log_blocks)
    then none
    else some (record l { outstanding = l.outstanding + 1 })

-- The first critical section of `end_op`: the new state and `do_commit`, or `none` for the panic.
-- Without a matching `begin_op` the count would be -1, which is `none` too.
unfoldable pub end_op : Log → Option (Log × Bool)
end_op l = elim l.outstanding [
  | zero ↦ none
  | suc left ↦
      if not (l.committing == 0)
      then none
      else if left == 0
      then some (record l { outstanding = left; committing = 1 }, true)
      else some (record l { outstanding = left }, false)
]

-- The second one, behind `commit`.
unfoldable pub end_commit : Log → Log
end_commit l = record l { committing = 0 }

-- One round of the loop of `write_log`.
unfoldable pub write_block : ℕ → Machine → Machine
write_block tail m =
    let slot = m.log.start + tail + 1 in
    bwrite slot (set_data slot (m.cache (m.log.lh.block tail)) m)

unfoldable pub write_log : Machine → Machine
write_log m = for_loop m.log.lh.n 0 write_block m

unfoldable pub commit : Machine → Machine
commit m =
    if m.log.lh.n == 0
    then m
    else let installed = install_trans false (write_head (write_log m)) in
      write_head (set_header (record installed.log.lh { n = 0 }) installed)

-- The loop of `log_write`: the first index from `i` that holds block `b`, or the end.
unfoldable pub find_block : ℕ → ℕ → ℕ → (ℕ → ℕ) → ℕ
find_block zero i b block = i
find_block (suc k) i b block =
    let rest = find_block k (i + 1) b block in if block i == b then i else rest

-- `none` is a panic.
unfoldable pub log_write : ℕ → Machine → Option Machine
log_write b m =
    let lh = m.log.lh in
    if leb log_blocks lh.n
    then none
    else if ltb m.log.outstanding 1
    then none
    else let i = find_block lh.n 0 b lh.block in
      let named = record lh { block = update lh.block i b } in
      if i == lh.n
      then some (set_header (record named { n = lh.n + 1 }) (bpin b m))
      else some (set_header named m)
