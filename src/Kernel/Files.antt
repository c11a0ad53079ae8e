-- ===== src/Kernel/Files.antt =====
-- file.c: the table of open files and its reference counts.
use listlib_and_system_calls.Common.{
  ◌^◌, ◌%◌, ℕ, ◌+◌, ◌-◌, Bool, Option, none, some, ltb, ◌==◌, if◌then◌else◌, update, find_from,
}
pub mod Counts
pub mod Tests

abbrev pub nfile : ℕ
nfile = 100

pub data FileType : Type 0 where
  fd_none : FileType
  fd_pipe : FileType
  fd_inode : FileType
  fd_device : FileType

-- `struct file`: pipe and inode by number. The offset and the device are left out.
pub record File : Type 0 where
  pub type : FileType
  pub ref : ℕ
  pub readable : ℕ
  pub writable : ℕ
  pub pipe : ℕ
  pub ip : ℕ

-- What the last `fileclose` of a file gives up.
pub data Given : Type 0 where
  nothing : Given
  pipe_end : ℕ → ℕ → Given
  inode : ℕ → Given

abbrev pub Ftable : Type 0
Ftable = ℕ → File

unfoldable pub filealloc : Ftable → Option ℕ × Ftable
filealloc t = elim (find_from (λ i. (t i).ref == 0) nfile 0) [
  | none ↦ (none, t)
  | some i ↦ (some i, update t i (record (t i) { ref = 1 }))
]

-- `none` is a panic. `ref` is an `int`, kept by its bits.
unfoldable pub filedup : ℕ → Ftable → Option Ftable
filedup f t =
    if ltb (t f).ref 1
    then none
    else some (update t f (record (t f) { ref = ((t f).ref + 1) % 2 ^ 32 }))

-- The branches of `fileclose` on the type of the copy `ff`.
unfoldable pub give_up : File → Given
give_up ff = elim ff.type [
  | fd_none ↦ nothing
  | fd_pipe ↦ pipe_end ff.pipe ff.writable
  | fd_inode ↦ inode ff.ip
  | fd_device ↦ inode ff.ip
]

unfoldable pub fileclose : ℕ → Ftable → Option (Given × Ftable)
fileclose f t =
    if ltb (t f).ref 1
    then none
    else if ltb 0 ((t f).ref - 1)
    then some (nothing, update t f (record (t f) { ref = (t f).ref - 1 }))
    else some (give_up (t f), update t f (record (t f) { ref = 0; type = fd_none }))
