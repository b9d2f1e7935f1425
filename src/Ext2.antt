-- ===== src/Ext2.antt =====
-- The reader of the ext2 file system in src/experimental/filesystems/src: ext2.h and
-- FileSystemExt2.cpp. A device is a parameter, the bytes that `ReadData` gives by their offset; the
-- buffers that are filled are functions from offsets.
pub mod Layout
pub mod Inodes
pub mod Bytes
pub mod Listing
mod Examples
use klos.Base.{
  ℕ, ◌+◌, ◌-◌, ◌*◌, ◌/◌, ◌%◌, ◌^◌, ◌||◌, ltb, leb, ◌==◌, if◌then◌else◌, u32, sub32, ◌<<<◌,
}
use klos.Ext2.Layout.{Superblock, BlockGroup, Inode, superblock_at, blockgroup_at, inode_at}

-- How a call ends: with a value, with `exit(1)`, with the exception for a wrong superblock, or with a
-- division by zero or an access outside an array.
pub data Result {ℓ} (A : Type ℓ) : Type ℓ where
  ok : A → Result A
  exited : Result A
  invalid_superblock : Result A
  fault : Result A

-- `class Extended2`
pub record Extended2 : Type 0 where
  pub device : ℕ → ℕ
  pub block_size : ℕ
  pub superblock : Superblock
  pub blockgroups : ℕ → BlockGroup
  pub num_blockgroups : ℕ

-- `class Extended2File`
pub record Extended2File : Type 0 where
  pub filesystem : Extended2
  pub inode : Inode
  pub index : ℕ

-- `a / b + (a % b > 0 ? 1 : 0)`
unfoldable pub rounded_up : ℕ → ℕ → ℕ
rounded_up a b = u32 (a / b + (if ltb 0 (a % b) then 1 else 0))

-- The buffer of `ReadBlocks(block, count, buffer)`.
unfoldable pub read_blocks : Extended2 → (block j : ℕ) → ℕ
read_blocks fs block j = fs.device (u32 (block * fs.block_size) + j)

-- The constructor of `Extended2`; the printing and the failure of `new` are left out. From 2^27 groups
-- on the size of their array wraps, which counts as a fault, as does a block size of 0.
unfoldable pub mount : (ℕ → ℕ) → Result Extended2
unfolding read_blocks
mount device =
    let superblock = superblock_at device 1024 in
    let block_size = u32 (1024 <<< superblock.s_log_block_size) in
    let groups = rounded_up superblock.s_blocks_count superblock.s_blocks_per_group in
    let unread : Extended2 = record {
      device = device;
      block_size = block_size;
      superblock = superblock;
      blockgroups = λ g. blockgroup_at (λ j. 0) 0;
      num_blockgroups = groups;
    } in
    let buffer = read_blocks unread (u32 (superblock.s_first_data_block + 1)) in
    if superblock.s_magic == 0xEF53
    then if (superblock.s_blocks_per_group == 0)
      then fault
      else if block_size == 0 || leb (2 ^ 27) groups
      then fault
      else ok (record unread { blockgroups = λ g. blockgroup_at buffer (32 * g) })
    else invalid_superblock

-- `ReadInodeInfo`
unfoldable pub read_inode_info : Extended2 → (id : ℕ) → Result Inode
unfolding read_blocks
read_inode_info fs id =
    let per_group = fs.superblock.s_inodes_per_group in
    let group = sub32 id 1 / per_group in
    let index = sub32 id 1 % per_group in
    let place = u32 (index * fs.superblock.s_inode_size) in
    let block = place / fs.block_size in
    let block_index = place % fs.block_size in
    let buffer = read_blocks fs (u32 ((fs.blockgroups group).bg_inode_table + block)) in
    if per_group == 0
    then fault
    else if leb fs.num_blockgroups group
    then exited
    else if ltb fs.block_size (block_index + 128)
    then fault
    else ok (inode_at buffer block_index)

-- The constructor of `Extended2File`, which leaves `index` as it is.
unfoldable pub open_file : Extended2 → (id index : ℕ) → Result Extended2File
unfolding read_inode_info
open_file fs id index = elim (read_inode_info fs id) [
  | ok inode ↦ ok (record { filesystem = fs; inode = inode; index = index })
  | exited ↦ exited
  | invalid_superblock ↦ invalid_superblock
  | fault ↦ fault
]

unfoldable pub seek : ℕ → Extended2File → Extended2File
seek index file = record file { index = index }

-- `Read(count, buffer)`: the buffer, by its offset.
unfoldable pub read : (count : ℕ) → Extended2File → Result (ℕ → ℕ)
unfolding read_blocks
read count file =
    let block_size = file.filesystem.block_size in
    let blidx = file.index / block_size in
    let btidx = file.index % block_size in
    if leb 15 blidx
    then fault
    else if ltb block_size (u32 (btidx + count))
    then exited
    else ok (λ j. read_blocks file.filesystem (file.inode.i_block blidx) (btidx + j))

unfoldable pub get_size : Extended2File → ℕ
get_size file = file.inode.i_size
