-- ===== src/Ext2/Listing/Examples.antt =====
-- A directory of two entries in one block.
use klos.Base.{ℕ, ◌%◌, ◌<◌, ◌≡◌, refl, some, [], ◌∷◌, map, ◌==◌, if◌then◌else◌, arith}
use klos.Ext2.Layout.{superblock_at, blockgroup_at, inode_at}
use klos.Ext2.{Extended2File, ok, get_size}
use klos.Ext2.Bytes.{file_byte}
use klos.Ext2.Listing.{dirent_at, shown, characters, list_loop}
use klos.Ext2.Listing.Entries.{Laid, list_loop-entries}

-- Each half of a block is an entry of 512 bytes for the inode 11, with the name A.
abbrev halves : ℕ → ℕ
halves q =
    let k = q % 512 in
    if k == 0 then 11 else if k == 5 then 2 else if k == 6 then 1 else if k == 8 then 65 else 0

abbrev directory : Extended2File
directory = record {
  filesystem = record {
    device = halves;
    block_size = 1024;
    superblock = superblock_at (λ j. 0) 0;
    blockgroups = λ g. blockgroup_at (λ j. 0) 0;
    num_blockgroups = 1;
  };
  inode = record (inode_at (λ j. 0) 0) { i_size = 1024; i_block = λ i. 20 };
  index = 0;
}

directory-bytes : (k : ℕ) → file_byte directory k < 256
unfolding file_byte
directory-bytes k = ground arith

directory-Laid : Laid (file_byte directory) (get_size directory) 1024 0 (0 ∷ 512 ∷ [])
unfolding file_byte dirent_at get_size
directory-Laid = (
  refl,
  omega arith,
  omega arith,
  omega arith,
  omega arith,
  (refl, omega arith, omega arith, omega arith, omega arith, omega arith),
)

list_loop-entries_example :
    list_loop 3 0 directory
    ≡ some (ok (map (λ p. shown (dirent_at (file_byte directory) p)) (0 ∷ 512 ∷ [])))
list_loop-entries_example =
    list_loop-entries 3 0 (0 ∷ 512 ∷ []) directory directory-Laid (omega arith) (omega arith)
      (omega arith) directory-bytes

first_entry : shown (dirent_at (file_byte directory) 0) ≡ (11, 65 ∷ [])
unfolding shown dirent_at file_byte characters
first_entry = refl
