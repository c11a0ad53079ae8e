-- ===== src/Kernel/Fs/Maps.antt =====
-- kernel/fs.c: `bmap` and `itrunc`, the blocks of a file. The fields of the inode in memory are
-- those of the inode on the disk.
use listlib_and_system_calls.Common.{
  ℕ, zero, suc, ◌+◌, ◌-◌, ◌*◌, Bool, ltb, leb, ◌==◌, ◌&&◌, if◌then◌else◌, Option, none, some,
  update,
}
use listlib_and_system_calls.Kernel.Fs.{Block, Disk, SuperBlock}
use listlib_and_system_calls.Kernel.Fs.Bitmap.{balloc, bfree}
use listlib_and_system_calls.Kernel.Fs.Dinodes.{Dinode, byte_of, get32, write_dinode}
pub mod Slots
pub mod Grows
pub mod Entries
pub mod Blocks
pub mod Frees
pub mod Truncates
pub mod Tests

abbrev pub ndirect : ℕ
ndirect = 12

abbrev pub nindirect : ℕ
nindirect = 256

-- `a[j] = v` in a block of numbers.
unfoldable pub store32 : ℕ → ℕ → Block → Block
store32 off v block k = if leb off k && ltb k (off + 4) then byte_of v (k - off) else block k

abbrev pub set_addr : ℕ → ℕ → Dinode → Dinode
set_addr i addr ip = record ip { addrs = update ip.addrs i addr }

-- The disk and the inode, and the block that was asked for, or 0.
pub record Mapped : Type 0 where
  pub disk : Disk
  pub ip : Dinode
  pub addr : ℕ

module _ (sb : SuperBlock) where
  -- `ip->addrs[i]`, with a new block if there is none.
  unfoldable pub map_addr : ℕ → Dinode → Disk → Mapped
  map_addr i ip disk =
      let (disk', addr) = balloc sb disk in
      if ip.addrs i == 0
      then (if addr == 0
          then record { disk = disk'; ip = ip; addr = 0 }
          else record { disk = disk'; ip = set_addr i addr ip; addr = addr })
      else record { disk = disk; ip = ip; addr = ip.addrs i }

  -- `a[bn]` in the indirect block, with a new block if there is none.
  unfoldable pub map_entry : ℕ → Mapped → Mapped
  map_entry bn m =
      let (disk', addr) = balloc sb m.disk in
      if get32 (m.disk m.addr) (4 * bn) == 0
      then (if addr == 0 then record { disk = disk'; ip = m.ip; addr = 0 } else record {
        disk = update disk' m.addr (store32 (4 * bn) addr (disk' m.addr));
        ip = m.ip;
        addr = addr;
      })
      else record { disk = m.disk; ip = m.ip; addr = get32 (m.disk m.addr) (4 * bn) }

  -- `none` is the panic "bmap: out of range".
  unfoldable pub bmap : ℕ → Dinode → Disk → Option Mapped
  bmap bn ip disk =
      let indirect = map_addr ndirect ip disk in
      if ltb bn ndirect
      then some (map_addr bn ip disk)
      else if ltb (bn - ndirect) nindirect
      then some (if indirect.addr == 0 then indirect else map_entry (bn - ndirect) indirect)
      else none

  -- `if(a[j]) bfree(dev, a[j]);` for the entries from `j` on, and for the direct blocks.
  unfoldable pub free_entries : ℕ → ℕ → Block → Disk → Option Disk
  free_entries zero j a disk = some disk
  free_entries (suc k) j a disk =
      let rest = free_entries k (j + 1) a disk in
      if get32 a (4 * j) == 0 then rest else elim (bfree sb (get32 a (4 * j)) disk) [
        | none ↦ none
        | some disk' ↦ free_entries k (j + 1) a disk'
      ]

  unfoldable pub free_direct : ℕ → ℕ → Dinode → Disk → Option (Disk × Dinode)
  free_direct zero i ip disk = some (disk, ip)
  free_direct (suc k) i ip disk =
      if ip.addrs i == 0 then free_direct k (i + 1) ip disk else elim (bfree sb (ip.addrs i) disk) [
        | none ↦ none
        | some disk' ↦ free_direct k (i + 1) (set_addr i 0 ip) disk'
      ]

  unfoldable pub free_indirect : Dinode → Disk → Option (Disk × Dinode)
  free_indirect ip disk =
      if ip.addrs ndirect == 0
      then some (disk, ip)
      else elim (free_entries nindirect 0 (disk (ip.addrs ndirect)) disk) [
        | none ↦ none
        | some disk' ↦ elim (bfree sb (ip.addrs ndirect) disk') [
          | none ↦ none
          | some disk'' ↦ some (disk'', set_addr ndirect 0 ip)
        ]
      ]

  -- `none` is a panic of `bfree`.
  unfoldable pub itrunc : ℕ → Dinode → Disk → Option (Disk × Dinode)
  itrunc inum ip disk = elim (free_direct ndirect 0 ip disk) [
    | none ↦ none
    | some (disk', ip') ↦ elim (free_indirect ip' disk') [
      | none ↦ none
      | some (disk'', ip'') ↦
          let emptied = record ip'' { size = 0 } in
          some (write_dinode sb inum emptied disk'', emptied)
    ]
  ]
