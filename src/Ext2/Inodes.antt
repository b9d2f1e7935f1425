-- ===== src/Ext2/Inodes.antt =====
-- Where `ReadInodeInfo` and `Read` of src/experimental/filesystems/src/FileSystemExt2.cpp read.
use native.Mathlib.Nat.{add_assoc, div-add-mod', mod-lt, mod-eq_of_lt, mul-add-mod_self_right}
use klos.Base.{
  ℕ, suc, ◌+◌, ◌*◌, ◌/◌, ◌%◌, ◌^◌, ◌<◌, ◌≤◌, ◌≡◌, refl, sym, ap, ◌∙◌, ltb, leb_flip, inl, inr,
  Bool-cases, ==_false, le→not-ltb, if◌then◌else◌, u32, sub32, arith,
}
use klos.Ext2.Layout.{inode_at}
use klos.Ext2.{Extended2, ok, exited, read_blocks, read_inode_info}

inode_at_shift :
    (bytes : ℕ → ℕ) (b p : ℕ) → inode_at (λ j. bytes (b + j)) p ≡ inode_at bytes (b + p)
unfolding inode_at
inode_at_shift bytes b p = simp (add_assoc)

spread : (q n c r : ℕ) → (q * n + c) * r ≡ q * (n * r) + c * r
spread q n c r = grind arith

regroup : (i n r : ℕ) → i * r ≡ i / n * (n * r) + i % n * r
regroup i n r = sym (ap (λ m. m * r) (div-add-mod' i n)) ∙ spread (i / n) n (i % n) r

-- Records of size r in blocks of n records each lie inside one block.
record_in_block : (i n r : ℕ) → 0 < n → 0 < r → i * r % (n * r) + r ≤ n * r
record_in_block i n r hn hr =
    let c = i % n in
    let inside : suc c * r ≤ n * r = grind (arith, mod-lt i hn) in
    let parts : i * r ≡ i / n * (n * r) + c * r = regroup i n r in
    let small : c * r < n * r = grind arith in
    let rest : i * r % (n * r) ≡ c * r =
      ap (λ m. m % (n * r)) parts
      ∙ mul-add-mod_self_right (i / n) (n * r) (c * r)
      ∙ mod-eq_of_lt small in
    grind arith

-- A superblock whose inodes fill the blocks: inodes of r bytes, at least 128, n to a block, the table
-- of every group of the file system within 4 GB.
pub record HasInodes (fs : Extended2) (r n : ℕ) : Type 0 where
  pub inode_size : fs.superblock.s_inode_size ≡ r
  pub large : 128 ≤ r
  pub block_size : fs.block_size ≡ n * r
  pub full : 0 < n
  pub some_inodes : 0 < fs.superblock.s_inodes_per_group
  pub table_fits :
      (g : ℕ)
      → g < fs.num_blockgroups
      → (fs.blockgroups g).bg_inode_table * (n * r) + fs.superblock.s_inodes_per_group * r + n * r
        ≤ 2 ^ 32

-- A byte of a table of blocks, from the number of its block and its place in it.
pub block_place :
    (t x b : ℕ) → 0 < b → t * b + x < 2 ^ 32 → u32 (u32 (t + x / b) * b) + x % b ≡ t * b + x
block_place t x b hb h =
    let parts : x / b * b + x % b ≡ x = div-add-mod' x b in
    let flat : (t + x / b) * b ≡ t * b + x / b * b = grind arith in
    let small : (t + x / b) * b < 2 ^ 32 = grind arith in
    let few : t + x / b < 2 ^ 32 = grind arith in
    rw (mod-eq_of_lt few, mod-eq_of_lt small) (grind arith)

module _ (fs : Extended2) (r n : ℕ) (v : HasInodes fs r n) (i : ℕ)
    (known : i / fs.superblock.s_inodes_per_group < fs.num_blockgroups) where
  abbrev per_group : ℕ
  per_group = fs.superblock.s_inodes_per_group

  abbrev table : ℕ
  table = (fs.blockgroups (i / per_group)).bg_inode_table

  table_room : table * (n * r) + i % per_group * r + n * r ≤ 2 ^ 32
  table_room =
      let inside : suc (i % per_group) * r ≤ per_group * r =
        grind (arith, mod-lt i v.some_inodes) in
      let room = v.table_fits (i / per_group) known in grind arith

  block_pos : 0 < n * r
  block_pos = grind (arith, v.full, v.large)

  index_fits : u32 (i % per_group * r) ≡ i % per_group * r
  index_fits = mod-eq_of_lt (grind (arith, table_room, block_pos))

  -- The place of the inode with index i % per_group of its group.
  inode_place :
      u32 (u32 (table + u32 (i % per_group * r) / (n * r)) * (n * r))
        + u32 (i % per_group * r) % (n * r)
      ≡ table * (n * r) + i % per_group * r
  inode_place = rw index_fits (
      block_place table (i % per_group * r) (n * r) block_pos
        (grind (arith, table_room, block_pos)))

  inode_inside : u32 (i % per_group * r) % (n * r) + 128 ≤ n * r
  inode_inside =
      rw index_fits (
        grind (arith, record_in_block (i % per_group) n r v.full (grind (arith, v.large)), v.large))

-- On a file system whose inodes, of at least 128 bytes, fill its blocks, with the tables of inodes
-- of its groups below 4 GB, `ReadInodeInfo` of the inode i + 1 below 2^32 gives the inode at its place in the
-- table of its group if there is such a group, and otherwise exits.
pub read_inode_info-place :
    (fs : Extended2) (r n i : ℕ)
    → HasInodes fs r n
    → suc i < 2 ^ 32
    → read_inode_info fs (suc i) ≡ (
        if ltb (i / fs.superblock.s_inodes_per_group) fs.num_blockgroups
        then ok (
            inode_at fs.device (
              (fs.blockgroups (i / fs.superblock.s_inodes_per_group)).bg_inode_table * fs.block_size
              + i % fs.superblock.s_inodes_per_group * fs.superblock.s_inode_size))
        else exited)
unfolding read_inode_info read_blocks
read_inode_info-place fs r n i v h =
    let index : sub32 (suc i) 1 ≡ i = ground arith in
    let group = i / fs.superblock.s_inodes_per_group in
    let some_inodes = ==_false fs.superblock.s_inodes_per_group 0 (ground (arith, v.some_inodes)) in
    elim (Bool-cases (ltb group fs.num_blockgroups)) [
      | inl e ↦
          let known : group < fs.num_blockgroups = ground arith in
          rw
            (
              index,
              v.inode_size,
              v.block_size,
              some_inodes,
              leb_flip fs.num_blockgroups group,
              e,
              le→not-ltb (n * r) (u32 (i % fs.superblock.s_inodes_per_group * r) % (n * r) + 128)
                  (inode_inside fs r n v i known),
              inode_at_shift fs.device
                  (u32 (
                    u32 (
                      (fs.blockgroups group).bg_inode_table
                      + u32 (i % fs.superblock.s_inodes_per_group * r) / (n * r))
                    * (n * r)))
                  (u32 (i % fs.superblock.s_inodes_per_group * r) % (n * r)),
              inode_place fs r n v i known,
            )
            refl
      | inr e ↦ rw (index, some_inodes, leb_flip fs.num_blockgroups group, e) refl
    ]
