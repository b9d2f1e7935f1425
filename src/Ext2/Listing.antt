-- ===== src/Ext2/Listing.antt =====
-- The listing of a directory in src/experimental/filesystems/src/main.cpp.
pub mod Entries
mod Examples
use klos.Base.{
  ℕ, zero, suc, ◌+◌, ◌*◌, ◌^◌, Option, none, some, List, [], ◌∷◌, ltb, if◌then◌else◌, u32,
}
use klos.Ext2.Layout.{word_at, dword_at}
use klos.Ext2.{Extended2File, Result, ok, exited, invalid_superblock, fault, seek, read, get_size}

-- `struct dirent_t`, of 263 bytes.
pub record Dirent : Type 0 where
  pub inode : ℕ
  pub rec_len : ℕ
  pub name_len : ℕ
  pub file_type : ℕ
  pub name : ℕ → ℕ

abbrev pub sizeof_dirent : ℕ
sizeof_dirent = 263

unfoldable pub dirent_at : (ℕ → ℕ) → ℕ → Dirent
dirent_at bytes p = record {
  inode = dword_at bytes (p + 0);
  rec_len = word_at bytes (p + 4);
  name_len = bytes (p + 6);
  file_type = bytes (p + 7);
  name = λ i. bytes (p + 8 + i);
}

-- The first n characters of a name, after those from k on.
unfoldable pub characters : (n : ℕ) → (ℕ → ℕ) → List ℕ → List ℕ
characters zero name rest = rest
characters (suc n) name rest = characters n name (name n ∷ rest)

-- What is printed of an entry: its inode and its name.
unfoldable pub shown : Dirent → ℕ × List ℕ
unfolding characters
shown de = (de.inode, characters de.name_len de.name [])

abbrev pub Listed : Type 0
Listed = Option (Result (List (ℕ × List ℕ)))

-- An entry before those of the rest.
unfoldable pub before : ℕ × List ℕ → Listed → Listed
before e none = none
before e (some (ok es)) = some (ok (e ∷ es))
before e (some exited) = some exited
before e (some invalid_superblock) = some invalid_superblock
before e (some fault) = some fault

-- The `while` loop; `none` means that the fuel ran out.
unfoldable pub list_loop : (fuel offset : ℕ) → Extended2File → Listed
list_loop zero offset file = none
list_loop (suc fuel) offset file =
    let there = seek offset file in
    let entries : Listed = elim (read sizeof_dirent there) [
      | ok buffer ↦
          let de = dirent_at buffer 0 in
          before (shown de) (list_loop fuel (u32 (offset + de.rec_len)) there)
      | exited ↦ some exited
      | invalid_superblock ↦ some invalid_superblock
      | fault ↦ some fault
    ] in
    if ltb offset (get_size file) then entries else some (ok [])
