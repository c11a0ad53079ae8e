-- ===== src/Kernel/Fs/Paths.antt =====
-- kernel/fs.c: `skipelem` and `namex`. A path and a name are their bytes in front of the 0; a name
-- has 14 at most. The type of an inode and what `dirlookup` finds in a directory are arguments; the
-- inodes are their numbers, and each has a count of references.
use listlib_and_system_calls.Common.{
  ℕ, zero, suc, ◌+◌, ◌-◌, Bool, true, false, leb, ◌==◌, ◌&&◌, not, if◌then◌else◌, List, [], ◌∷◌,
  Option, none, some, length, take, update,
}
pub mod Elements
pub mod Walks
pub mod Tests

abbrev pub dirsiz : ℕ
dirsiz = 14

-- `while(*path == '/') path++;`
unfoldable pub skip_slashes : List ℕ → List ℕ
skip_slashes [] = []
skip_slashes (c ∷ path) = let rest = skip_slashes path in if c == b'/' then rest else c ∷ path

-- `while(*path != '/' && *path != 0) path++;`: what is passed over, and what comes behind it.
unfoldable pub split_element : List ℕ → List ℕ × List ℕ
split_element [] = ([], [])
split_element (c ∷ path) =
    let (element, rest) = split_element path in
    if c == b'/' then ([], c ∷ path) else (c ∷ element, rest)

-- The name that is copied, with the path behind it.
abbrev pub copy_element : List ℕ × List ℕ → List ℕ × List ℕ
copy_element (element, rest) =
    (if leb dirsiz (length element) then take dirsiz element else element, skip_slashes rest)

abbrev pub first_element : List ℕ → Option (List ℕ × List ℕ)
first_element [] = none
first_element (c ∷ path) = some (copy_element (split_element (c ∷ path)))

unfoldable pub skipelem : List ℕ → Option (List ℕ × List ℕ)
skipelem path = first_element (skip_slashes path)

-- The counts of references.
abbrev pub Refs : Type 0
Refs = ℕ → ℕ

unfoldable pub ref_inode : ℕ → Refs → Refs
ref_inode ip refs = update refs ip (refs ip + 1)

unfoldable pub unref_inode : ℕ → Refs → Refs
unref_inode ip refs = update refs ip (refs ip - 1)

-- The inode that is found, if any, the last name, and the counts.
pub record Found : Type 0 where
  pub inode : Option ℕ
  pub name : List ℕ
  pub refs : Refs

abbrev pub ended : List ℕ → Bool
ended [] = true
ended (_ ∷ _) = false

-- The root directory, or that of the process.
abbrev pub start_inode : List ℕ → ℕ → ℕ
start_inode [] cwd = cwd
start_inode (c ∷ path) cwd = if c == b'/' then 1 else cwd

module _ (is_dir : ℕ → Bool) (dirlookup : ℕ → List ℕ → Option ℕ) where
  -- The loop of `namex`, for some rounds at most; `none` when they run out.
  unfoldable pub namex_from : ℕ → Bool → ℕ → List ℕ → List ℕ → Refs → Option Found
  namex_from zero parent ip path name refs = none
  namex_from (suc rounds) parent ip path name refs = elim (skipelem path) [
    | none ↦
        if parent
        then some (record { inode = none; name = name; refs = unref_inode ip refs })
        else some (record { inode = some ip; name = name; refs = refs })
    | some (name', path') ↦
        let deeper : Option Found = elim (dirlookup ip name') [
          | none ↦ some (record { inode = none; name = name'; refs = unref_inode ip refs })
          | some next ↦
              namex_from rounds parent next path' name' (unref_inode ip (ref_inode next refs))
        ] in
        if not (is_dir ip)
        then some (record { inode = none; name = name'; refs = unref_inode ip refs })
        else if parent && ended path'
        then some (record { inode = some ip; name = name'; refs = refs })
        else deeper
  ]

  -- From the root, inode 1, or the directory of the process.
  unfoldable pub namex : Bool → ℕ → List ℕ → Refs → Option Found
  namex parent cwd path refs =
      let ip = start_inode path cwd in
      namex_from (length path + 1) parent ip path [] (ref_inode ip refs)
