-- ===== src/Ext2/Bytes.antt =====
-- The bytes that `Extended2File::Read` of src/experimental/filesystems/src/FileSystemExt2.cpp gives.
use native.Mathlib.Nat.{
  mul-add-div_right, div-eq_of_lt, div-add-mod', mod-lt, mod-eq_of_lt, mul-add-mod_self_right,
}
use klos.Base.{
  ℕ, ◌+◌, ◌*◌, ◌/◌, ◌%◌, ◌^◌, ◌<◌, ◌≡◌, refl, ap, ◌∙◌, inl, inr, ltb, leb, if◌then◌else◌, u32,
  lt→ltb, le→not-ltb, ◌≤◌, Bool-cases, leb_flip, arith,
}
use klos.Ext2.{Extended2File, Result, ok, exited, invalid_superblock, fault, read_blocks, read}

-- The byte of a file at an offset in its first 12 blocks, whose numbers are the first 12 block pointers;
-- the pointers after those are numbers of blocks of pointers.
unfoldable pub file_byte : Extended2File → ℕ → ℕ
file_byte file k =
    let b = file.filesystem.block_size in
    file.filesystem.device (u32 (file.inode.i_block (k / b) * b) + k % b)

-- The byte at an offset of a buffer.
unfoldable pub byte_of : Result (ℕ → ℕ) → ℕ → Result ℕ
byte_of (ok buffer) j = ok (buffer j)
byte_of exited j = exited
byte_of invalid_superblock j = invalid_superblock
byte_of fault j = fault

same_block : (k j b : ℕ) → 0 < b → k % b + j < b → ((k + j) / b ≡ k / b) × ((k + j) % b ≡ k % b + j)
same_block k j b hb h =
    let parts : k + j ≡ k / b * b + (k % b + j) = grind (arith, div-add-mod' k b) in
    let whole : (k / b * b + (k % b + j)) / b ≡ k / b =
      rw (mul-add-div_right hb (k / b) (k % b + j), div-eq_of_lt h) (grind arith) in
    let rest : (k / b * b + (k % b + j)) % b ≡ k % b + j =
      rw (mul-add-mod_self_right (k / b) b (k % b + j)) (mod-eq_of_lt h) in
    (ap (λ m. m / b) parts ∙ whole, ap (λ m. m % b) parts ∙ rest)

-- At an offset in one of the first 12 blocks of a file, those with direct pointers, with a block size and a count whose sum is below 2^32,
-- `Read(count, buffer)` fills the buffer with the bytes of the file from there on if they lie in
-- one block, and otherwise exits.
pub read-file_byte :
    (file : Extended2File) (count j : ℕ)
    → file.index / file.filesystem.block_size < 12
    → 0 < file.filesystem.block_size
    → file.filesystem.block_size + count < 2 ^ 32
    → j < count
    → byte_of (read count file) j ≡ (
        if leb (file.index % file.filesystem.block_size + count) file.filesystem.block_size
        then ok (file_byte file (file.index + j))
        else exited)
unfolding byte_of read read_blocks file_byte
read-file_byte file count j inside hb small h =
    let b = file.filesystem.block_size in
    let rest = mod-lt file.index hb in
    let whole : u32 (file.index % b + count) ≡ file.index % b + count =
      mod-eq_of_lt (grind (arith, small)) in
    rw
      (
        leb_flip 15 (file.index / b),
        lt→ltb (file.index / b) 15 (grind (arith, inside)),
        whole,
        leb_flip (file.index % b + count) b,
      )
      (elim (Bool-cases (ltb b (file.index % b + count))) [
        | inl e ↦ rw e refl
        | inr e ↦
            let fits : file.index % b + j < b = ground (arith, e, h) in
            let same = same_block file.index j b hb fits in rw (e, file_byte, same.0, same.1) refl
      ])

-- Inside one of those blocks the whole buffer is known.
pub read-buffer :
    (file : Extended2File) (count : ℕ)
    → file.index / file.filesystem.block_size < 12
    → 0 < file.filesystem.block_size
    → file.filesystem.block_size + count < 2 ^ 32
    → file.index % file.filesystem.block_size + count ≤ file.filesystem.block_size
    → (buffer : ℕ → ℕ) × (read count file ≡ ok buffer)
      × ((j : ℕ) → j < count → buffer j ≡ file_byte file (file.index + j))
unfolding read read_blocks file_byte
read-buffer file count inside hb small fits =
    let b = file.filesystem.block_size in
    let whole : u32 (file.index % b + count) ≡ file.index % b + count =
      mod-eq_of_lt (grind (arith, small, mod-lt file.index hb)) in
    (
      λ j. read_blocks file.filesystem (file.inode.i_block (file.index / b)) (file.index % b + j),
      rw
          (
            leb_flip 15 (file.index / b),
            lt→ltb (file.index / b) 15 (grind (arith, inside)),
            whole,
            le→not-ltb b (file.index % b + count) fits,
          )
          refl,
      λ j h.
          let same = same_block file.index j b hb (omega (arith, fits)) in
          rw (file_byte, same.0, same.1) refl,
    )
