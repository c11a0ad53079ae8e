-- ===== src/Kernel/Fs.antt =====
-- kernel/fs.c: blocks, inodes, directories and paths. A block is its bytes; the blocks are those of
-- the buffer cache, as `bread` gives them. `log_write` and `brelse` change no byte; what becomes of
-- a changed buffer is in Kernel.Log.
use listlib_and_system_calls.Common.{ℕ, ◌+◌, ◌/◌, update}
pub mod Bits
pub mod Bitmap
pub mod Paths
pub mod Dinodes
pub mod Maps

abbrev pub bsize : ℕ
bsize = 1024

abbrev pub Block : Type 0
Block = ℕ → ℕ

-- The blocks by number, of the one device there is.
abbrev pub Disk : Type 0
Disk = ℕ → Block

pub record SuperBlock : Type 0 where
  pub size : ℕ
  pub ninodes : ℕ
  pub inodestart : ℕ
  pub bmapstart : ℕ

-- `BPB` and `BBLOCK`
abbrev pub bpb : ℕ
bpb = 8192

abbrev pub bblock : ℕ → SuperBlock → ℕ
bblock b sb = b / bpb + sb.bmapstart
