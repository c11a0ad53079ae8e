-- ===== src/Kernel/Fs/Dinodes/Tests.antt =====
-- An inode on the disk.
use listlib_and_system_calls.Common.{◌+◌, arith}
use listlib_and_system_calls.Kernel.Fs.{Disk, SuperBlock}
use listlib_and_system_calls.Kernel.Fs.Dinodes.{Dinode, read_dinode, write_dinode}
use listlib_and_system_calls.Kernel.Fs.Dinodes.RoundTrip.{Fits, SameFields, read-write_dinode}

abbrev layout : SuperBlock
layout = record { size = 100; ninodes = 32; inodestart = 5; bmapstart = 9 }

abbrev sample_inode : Dinode
sample_inode = record {
  type = 2;
  major = 0;
  minor = 0;
  nlink = 1;
  size = 70_000;
  addrs = λ i. 40 + i;
}

sample_inode-Fits : Fits sample_inode
sample_inode-Fits = record {
  type_fits = omega arith;
  major_fits = omega arith;
  minor_fits = omega arith;
  nlink_fits = omega arith;
  size_fits = omega arith;
  addr_fits = λ i h. omega arith;
}

abbrev blank_disk : Disk
blank_disk blk i = 0

read-write_dinode_example :
    SameFields (read_dinode layout 17 (write_dinode layout 17 sample_inode blank_disk)) sample_inode
    × SameFields
        (read_dinode layout 18 (write_dinode layout 17 sample_inode blank_disk))
        (read_dinode layout 18 blank_disk)
read-write_dinode_example =
    read-write_dinode layout 17 18 sample_inode blank_disk sample_inode-Fits
      (λ e. absurd (omega (arith, e)))
