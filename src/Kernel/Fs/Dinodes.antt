-- ===== src/Kernel/Fs/Dinodes.antt =====
-- The inodes on the disk: `struct dinode` of kernel/fs.h, sixteen to a block, as ilock and iupdate
-- of kernel/fs.c read and write them. Numbers are stored with the low byte first.
use listlib_and_system_calls.Common.{
  ℕ, ◌+◌, ◌-◌, ◌*◌, ◌/◌, ◌%◌, ◌^◌, ◌<◌, ◌≤◌, ltb, leb, ◌==◌, ◌&&◌, if◌then◌else◌, update,
}
use listlib_and_system_calls.Kernel.Fs.{Block, Disk, SuperBlock}
pub mod RoundTrip
pub mod Tests

pub record Dinode : Type 0 where
  pub type : ℕ
  pub major : ℕ
  pub minor : ℕ
  pub nlink : ℕ
  pub size : ℕ
  pub addrs : ℕ → ℕ

abbrev pub ipb : ℕ
ipb = 16

abbrev pub iblock : ℕ → SuperBlock → ℕ
iblock inum sb = inum / ipb + sb.inodestart

-- Byte `k` of a number.
abbrev pub byte_of : ℕ → ℕ → ℕ
byte_of v k =
    if k == 0
    then v % 256
    else if k == 1
    then v / 256 % 256
    else if k == 2
    then v / 65536 % 256
    else v / 16777216 % 256

-- Byte `k` of a `struct dinode`.
unfoldable pub dinode_byte : Dinode → ℕ → ℕ
dinode_byte d k =
    if ltb k 2
    then byte_of d.type k
    else if ltb k 4
    then byte_of d.major (k - 2)
    else if ltb k 6
    then byte_of d.minor (k - 4)
    else if ltb k 8
    then byte_of d.nlink (k - 6)
    else if ltb k 12
    then byte_of d.size (k - 8)
    else byte_of (d.addrs ((k - 12) / 4)) (k % 4)

abbrev pub get16 : Block → ℕ → ℕ
get16 block off = block off + 256 * block (off + 1)

abbrev pub get32 : Block → ℕ → ℕ
get32 block off =
    block off + 256 * block (off + 1) + 65536 * block (off + 2) + 16777216 * block (off + 3)

-- The fields of `(struct dinode*)bp->data + inum%IPB`.
unfoldable pub load_dinode : Block → ℕ → Dinode
load_dinode block off = record {
  type = get16 block off;
  major = get16 block (off + 2);
  minor = get16 block (off + 4);
  nlink = get16 block (off + 6);
  size = get32 block (off + 8);
  addrs = λ i. get32 block (off + 12 + 4 * i);
}

unfoldable pub store_dinode : Dinode → ℕ → Block → Block
store_dinode d off block j =
    if leb off j && ltb j (off + 64) then dinode_byte d (j - off) else block j

-- What `ilock` reads.
unfoldable pub read_dinode : SuperBlock → ℕ → Disk → Dinode
read_dinode sb inum disk = load_dinode (disk (iblock inum sb)) (inum % ipb * 64)

-- What `iupdate` writes.
unfoldable pub write_dinode : SuperBlock → ℕ → Dinode → Disk → Disk
write_dinode sb inum d disk =
    update disk (iblock inum sb) (store_dinode d (inum % ipb * 64) (disk (iblock inum sb)))
