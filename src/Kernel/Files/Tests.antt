-- ===== src/Kernel/Files/Tests.antt =====
-- The theorems on the file table at a concrete table.
use listlib_and_system_calls.Common.{refl, [], ◌∷◌, ◌≡◌, arith, some, ◌==◌, if◌then◌else◌, update}
use listlib_and_system_calls.Kernel.Files.{inode, fd_none, fd_inode, nothing, Ftable}
use listlib_and_system_calls.Kernel.Files.Counts.{fileclose-shared, dups, closes, given_last, owed}

-- Only the first entry is open.
abbrev one_open : Ftable
one_open i = record {
  type = fd_inode;
  ref = if i == 0 then 1 else 0;
  readable = 1;
  writable = 0;
  pipe = 0;
  ip = 7;
}

fileclose-shared_example :
    (n : Ftable) × (dups 2 0 one_open ≡ some n)
    × (closes 3 0 n
        ≡ some (
          nothing ∷ nothing ∷ inode 7 ∷ [],
          update one_open 0 (record (one_open 0) { ref = 0; type = fd_none }),
        ))
unfolding given_last owed
fileclose-shared_example = fileclose-shared 2 0 one_open refl (omega arith)
