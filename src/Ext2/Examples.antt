-- ===== src/Ext2/Examples.antt =====
-- The ext2 reader on small file systems.
use klos.Base.{◌+◌, ◌*◌, ◌≡◌, refl, arith}
use klos.Ext2.Layout.{superblock_at, blockgroup_at, inode_at}
use klos.Ext2.{Extended2, Extended2File, ok, read_inode_info, read}
use klos.Ext2.Inodes.{HasInodes, read_inode_info-place}
use klos.Ext2.Bytes.{byte_of, file_byte, read-file_byte}

-- Blocks of 1 KB with 8 inodes of 128 bytes, 16 inodes to a group, two groups; each byte of the device
-- is its own offset.
abbrev small_disk : Extended2
small_disk = record {
  device = λ p. p;
  block_size = 1024;
  superblock = record (superblock_at (λ j. 0) 0) { s_inodes_per_group = 16; s_inode_size = 128 };
  blockgroups = λ g. record (blockgroup_at (λ j. 0) 0) { bg_inode_table = 5 };
  num_blockgroups = 2;
}

small_disk-HasInodes : HasInodes small_disk 128 8
small_disk-HasInodes = record {
  inode_size = refl;
  large = grind arith;
  block_size = refl;
  full = grind arith;
  some_inodes = grind arith;
  table_fits = λ g. grind arith;
}

read_inode_info-place_example :
    read_inode_info small_disk 12 ≡ ok (inode_at (λ p. p) (5 * 1024 + 11 * 128))
read_inode_info-place_example =
    read_inode_info-place small_disk 128 8 11 small_disk-HasInodes (grind arith)

-- A file whose i-th block is block i + 20, read at offset 2000.
abbrev small_file : Extended2File
small_file = record {
  filesystem = small_disk;
  inode = record (inode_at (λ j. 0) 0) { i_block = λ i. i + 20 };
  index = 2000;
}

read-file_byte_example : byte_of (read 40 small_file) 7 ≡ ok (21 * 1024 + 983)
unfolding file_byte
read-file_byte_example =
    read-file_byte small_file 40 7 (grind arith) (grind arith) (grind arith) (grind arith)
