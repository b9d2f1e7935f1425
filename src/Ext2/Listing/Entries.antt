-- ===== src/Ext2/Listing/Entries.antt =====
-- The entries that the listing of src/experimental/filesystems/src/main.cpp finds in a directory.
use native.Mathlib.Nat.{mod-eq_of_lt}
use klos.Base.{
  ℕ, zero, suc, ◌+◌, ◌/◌, ◌%◌, ◌^◌, ◌<◌, ◌≤◌, ◌≡◌, refl, sym, ap, ◌∙◌, some, List, [], ◌∷◌, map,
  length, lt→ltb, le→not-ltb, u32, arith,
}
use klos.Ext2.Layout.{word_at, dword_at}
use klos.Ext2.{Extended2File, ok, seek, get_size}
use klos.Ext2.Bytes.{file_byte, read-buffer}
use klos.Ext2.Listing.{sizeof_dirent, dirent_at, characters, shown, before, list_loop}

-- From an offset on, the entries at the offsets ps follow each other to the end of the directory; each
-- begins in one of the first 12 blocks and has 263 bytes left in it.
abbrev pub Laid : (bytes : ℕ → ℕ) → (size b offset : ℕ) → List ℕ → Type 0
Laid bytes size b offset [] = size ≤ offset
Laid bytes size b offset (p ∷ ps) =
    (offset ≡ p)
    × (p < size)
    × (p / b < 12)
    × (p % b + sizeof_dirent ≤ b)
    × (p + (dirent_at bytes p).rec_len < 2 ^ 32)
    × Laid bytes size b (p + (dirent_at bytes p).rec_len) ps

characters-same :
    (n : ℕ) (f g : ℕ → ℕ) (rest : List ℕ)
    → ((i : ℕ) → i < n → f i ≡ g i)
    → characters n f rest ≡ characters n g rest
unfolding characters
characters-same zero f g rest h = refl
characters-same (suc n) f g rest h =
    characters-same n f g (f n ∷ rest) (λ i l. h i (omega arith))
    ∙ ap (λ c. characters n g (c ∷ rest)) (h n (omega arith))

module _ (f g : ℕ → ℕ) (p : ℕ) (same : (j : ℕ) → j < sizeof_dirent → f j ≡ g (p + j))
    (byte : (q : ℕ) → g q < 256) where
  byte-same : (k q : ℕ) → k < sizeof_dirent → q ≡ p + k → f k ≡ g q
  byte-same k q h e = same k h ∙ ap g (sym e)

  word-same : (k q : ℕ) → k + 1 < sizeof_dirent → q ≡ p + k → word_at f k ≡ word_at g q
  word-same k q h e =
      rw (byte-same k q (omega arith) e, byte-same (k + 1) (q + 1) h (omega arith)) refl

  dword-same : (k q : ℕ) → k + 3 < sizeof_dirent → q ≡ p + k → dword_at f k ≡ dword_at g q
  dword-same k q h e =
      rw (word-same k q (omega arith) e, word-same (k + 2) (q + 2) (omega arith) (omega arith)) refl

  name_len-same : (dirent_at f 0).name_len ≡ (dirent_at g p).name_len
  unfolding dirent_at
  name_len-same = byte-same 6 (p + 6) (omega arith) refl

  rec_len-same : (dirent_at f 0).rec_len ≡ (dirent_at g p).rec_len
  unfolding dirent_at
  rec_len-same = word-same 4 (p + 4) (omega arith) refl

  shown-same : shown (dirent_at f 0) ≡ shown (dirent_at g p)
  unfolding shown dirent_at
  shown-same =
      let tail : characters (f 6) (λ i. f (8 + i)) []
          ≡ characters (g (p + 6)) (λ i. g (p + 8 + i)) [] =
        ap (λ n. characters n (λ i. f (8 + i)) []) (byte-same 6 (p + 6) (omega arith) refl)
        ∙ characters-same (g (p + 6)) (λ i. f (8 + i)) (λ i. g (p + 8 + i)) []
            (λ i l. byte-same (8 + i) (p + 8 + i) (omega (arith, byte (p + 6))) (omega arith)) in
      ap (λ a. (a, characters (f 6) (λ i. f (8 + i)) [])) (dword-same 0 (p + 0) (omega arith) refl)
      ∙ ap (λ t. (dword_at g (p + 0), t)) tail

-- For a directory whose entries follow each other from the offset on to its end, each beginning in
-- one of the first 12 blocks, those with direct pointers, with 263 bytes left in its block, and ending below 4 GB, the loop ends within
-- one round more than there are entries, and shows the inode and the name of each in turn.
pub list_loop-entries :
    (fuel offset : ℕ) (ps : List ℕ) (file : Extended2File)
    → Laid (file_byte file) (get_size file) file.filesystem.block_size offset ps
    → length ps < fuel
    → 0 < file.filesystem.block_size
    → file.filesystem.block_size + sizeof_dirent < 2 ^ 32
    → ((k : ℕ) → file_byte file k < 256)
    → list_loop fuel offset file ≡ some (ok (map (λ p. shown (dirent_at (file_byte file) p)) ps))
unfolding list_loop seek file_byte get_size before
list_loop-entries zero offset ps file l h hb small bytes = absurd (omega arith)
list_loop-entries (suc fuel) offset [] file l h hb small bytes =
    rw (le→not-ltb offset (get_size file) l) refl
list_loop-entries (suc fuel) offset (p ∷ ps) file l h hb small bytes =
    let there = seek p file in
    let next = p + (dirent_at (file_byte file) p).rec_len in
    let (buffer, run, same) = read-buffer there sizeof_dirent l.2 hb small l.3 in
    let step : u32 (p + (dirent_at buffer 0).rec_len) ≡ next =
      ap (λ r. u32 (p + r)) (rec_len-same buffer (file_byte file) p same bytes)
      ∙ mod-eq_of_lt l.4 in
    let rest = list_loop-entries fuel next ps there l.5 (omega arith) hb small bytes in
    ap (λ o. list_loop (suc fuel) o file) l.0
    ∙ rw
        (
          lt→ltb p (get_size file) l.1,
          run,
          step,
          rest,
          shown-same buffer (file_byte file) p same bytes,
        )
        refl
