-- ===== src/Ext2/Layout.antt =====
-- The structures of src/experimental/filesystems/src/ext2.h, read from little-endian bytes.
use klos.Base.{ℕ, ◌+◌, ◌*◌, ◌^◌}

-- The 16-bit and the 32-bit number at an offset.
abbrev pub word_at : (ℕ → ℕ) → ℕ → ℕ
word_at bytes p = bytes p + bytes (p + 1) * 2 ^ 8

abbrev pub dword_at : (ℕ → ℕ) → ℕ → ℕ
dword_at bytes p = word_at bytes p + word_at bytes (p + 2) * 2 ^ 16

-- `struct superblock_t`, up to the size of an inode.
pub record Superblock : Type 0 where
  pub s_inodes_count : ℕ
  pub s_blocks_count : ℕ
  pub s_r_blocks_count : ℕ
  pub s_free_blocks_count : ℕ
  pub s_free_inodes_count : ℕ
  pub s_first_data_block : ℕ
  pub s_log_block_size : ℕ
  pub s_log_frag_size : ℕ
  pub s_blocks_per_group : ℕ
  pub s_frags_per_group : ℕ
  pub s_inodes_per_group : ℕ
  pub s_mtime : ℕ
  pub s_wtime : ℕ
  pub s_mnt_count : ℕ
  pub s_max_mnt_count : ℕ
  pub s_magic : ℕ
  pub s_state : ℕ
  pub s_errors : ℕ
  pub s_minor_rev_level : ℕ
  pub s_lastcheck : ℕ
  pub s_checkinterval : ℕ
  pub s_creator_os : ℕ
  pub s_rev_level : ℕ
  pub s_def_resuid : ℕ
  pub s_def_resgid : ℕ
  pub s_first_ino : ℕ
  pub s_inode_size : ℕ

pub superblock_at : (ℕ → ℕ) → ℕ → Superblock
superblock_at bytes p = record {
  s_inodes_count = dword_at bytes (p + 0);
  s_blocks_count = dword_at bytes (p + 4);
  s_r_blocks_count = dword_at bytes (p + 8);
  s_free_blocks_count = dword_at bytes (p + 12);
  s_free_inodes_count = dword_at bytes (p + 16);
  s_first_data_block = dword_at bytes (p + 20);
  s_log_block_size = dword_at bytes (p + 24);
  s_log_frag_size = dword_at bytes (p + 28);
  s_blocks_per_group = dword_at bytes (p + 32);
  s_frags_per_group = dword_at bytes (p + 36);
  s_inodes_per_group = dword_at bytes (p + 40);
  s_mtime = dword_at bytes (p + 44);
  s_wtime = dword_at bytes (p + 48);
  s_mnt_count = word_at bytes (p + 52);
  s_max_mnt_count = word_at bytes (p + 54);
  s_magic = word_at bytes (p + 56);
  s_state = word_at bytes (p + 58);
  s_errors = word_at bytes (p + 60);
  s_minor_rev_level = word_at bytes (p + 62);
  s_lastcheck = dword_at bytes (p + 64);
  s_checkinterval = dword_at bytes (p + 68);
  s_creator_os = dword_at bytes (p + 72);
  s_rev_level = dword_at bytes (p + 76);
  s_def_resuid = word_at bytes (p + 80);
  s_def_resgid = word_at bytes (p + 82);
  s_first_ino = dword_at bytes (p + 84);
  s_inode_size = word_at bytes (p + 88);
}

-- `struct blockgroup_t`, of 32 bytes.
pub record BlockGroup : Type 0 where
  pub bg_block_bitmap : ℕ
  pub bg_inode_bitmap : ℕ
  pub bg_inode_table : ℕ
  pub bg_free_blocks_count : ℕ
  pub bg_free_inodes_count : ℕ
  pub bg_used_dirs_count : ℕ

pub blockgroup_at : (ℕ → ℕ) → ℕ → BlockGroup
blockgroup_at bytes p = record {
  bg_block_bitmap = dword_at bytes (p + 0);
  bg_inode_bitmap = dword_at bytes (p + 4);
  bg_inode_table = dword_at bytes (p + 8);
  bg_free_blocks_count = word_at bytes (p + 12);
  bg_free_inodes_count = word_at bytes (p + 14);
  bg_used_dirs_count = word_at bytes (p + 16);
}

-- `struct inode_t`, of 128 bytes.
pub record Inode : Type 0 where
  pub i_mode : ℕ
  pub i_uid : ℕ
  pub i_size : ℕ
  pub i_atime : ℕ
  pub i_ctime : ℕ
  pub i_mtime : ℕ
  pub i_dtime : ℕ
  pub i_gid : ℕ
  pub i_links_count : ℕ
  pub i_blocks : ℕ
  pub i_flags : ℕ
  pub i_osd1 : ℕ
  pub i_block : ℕ → ℕ
  pub i_generation : ℕ
  pub i_file_acl : ℕ
  pub i_dir_acl : ℕ
  pub i_faddr : ℕ

unfoldable pub inode_at : (ℕ → ℕ) → ℕ → Inode
inode_at bytes p = record {
  i_mode = word_at bytes (p + 0);
  i_uid = word_at bytes (p + 2);
  i_size = dword_at bytes (p + 4);
  i_atime = dword_at bytes (p + 8);
  i_ctime = dword_at bytes (p + 12);
  i_mtime = dword_at bytes (p + 16);
  i_dtime = dword_at bytes (p + 20);
  i_gid = word_at bytes (p + 24);
  i_links_count = word_at bytes (p + 26);
  i_blocks = dword_at bytes (p + 28);
  i_flags = dword_at bytes (p + 32);
  i_osd1 = dword_at bytes (p + 36);
  i_block = λ i. dword_at bytes (p + 40 + 4 * i);
  i_generation = dword_at bytes (p + 100);
  i_file_acl = dword_at bytes (p + 104);
  i_dir_acl = dword_at bytes (p + 108);
  i_faddr = dword_at bytes (p + 112);
}
