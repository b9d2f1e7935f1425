-- ===== src/Paging/Spaces.antt =====
-- What the loops of `pg_copy_user_page_directory` and `pg_create_user_page_directory` of
-- src/kernel/paging.cpp leave in the pages of the two address spaces.
use klos.Base.{
  upto, ℕ, ◌<◌, ◌≡◌, ◌≢◌, refl, inl, inr, Bool, ◌&&◌, ◌||◌, ltb, zero, suc, ◌==◌, if◌then◌else◌,
  bit_and, bit_or, Bool-cases, update, arith,
}
use klos.Paging.Flags.{shared, is_user}
use klos.Paging.{
  Paging, PageHeap, Table, present, user, pde_copyonwrite, copy_entry, mark_shared, store,
  new_table, pg_copy_user_page_directory,
}

-- The pages of two address spaces are four pages.
pub record Apart (a b : Table) : Type 0 where
  pub ad_at : a.directory ≢ a.tables
  pub ad_bd : a.directory ≢ b.directory
  pub ad_bt : a.directory ≢ b.tables
  pub at_bd : a.tables ≢ b.directory
  pub at_bt : a.tables ≢ b.tables
  pub bd_bt : b.directory ≢ b.tables

-- What both directories get at index i for an entry d.
pub copied : ℕ → ℕ → ℕ
unfolding shared is_user
copied i d = if is_user i d then shared d else d

-- The first n entries are copied.
record Copied (from copy : Table) (n : ℕ) (m r : Paging) : Type 0 where
  from_directory :
      (i : ℕ)
      → r.word from.directory i
        ≡ (if ltb i n then copied i (m.word from.directory i) else m.word from.directory i)
  from_tables : (i : ℕ) → r.word from.tables i ≡ m.word from.tables i
  copy_directory :
      (i : ℕ)
      → r.word copy.directory i
        ≡ (if ltb i n then copied i (m.word from.directory i) else m.word copy.directory i)
  copy_tables :
      (i : ℕ)
      → r.word copy.tables i ≡ (if ltb i n then m.word from.tables i else m.word copy.tables i)

pub word-store :
    (page i x q j : ℕ) (m : Paging)
    → (store page i x m).word q j ≡ (if (q == page) && (j == i) then x else m.word q j)
unfolding store update
word-store page i x q j m = ground arith

word-mark_shared :
    (from : Table) (i q j : ℕ) (m : Paging)
    → (mark_shared from i m).word q j ≡ (
        if (q == from.directory) && (j == i)
        then copied i (m.word from.directory i)
        else m.word q j)
unfolding mark_shared copied shared is_user
word-mark_shared from i q j m =
    let d = m.word from.directory i in
    elim (Bool-cases (ltb i 0x300 && (bit_and d user == user && bit_and d present == present))) [
      | inl e ↦
          rw e (word-store from.directory i (bit_or (bit_and d 0xFFFFFFFD) pde_copyonwrite) q j m)
      | inr e ↦ rw e (ground arith)
    ]

word-copy_entry :
    (from copy : Table) (i q j : ℕ) (m : Paging)
    → Apart from copy
    → (copy_entry from copy i m).word q j ≡ (
        if (q == copy.tables) && (j == i)
        then m.word from.tables i
        else (if (q == copy.directory) && (j == i) || (q == from.directory) && (j == i)
            then copied i (m.word from.directory i)
            else m.word q j))
unfolding copy_entry
word-copy_entry from copy i q j m a =
    let k = mark_shared from i m in
    let p = store copy.directory i (k.word from.directory i) k in
    ground (
      arith,
      a.ad_at,
      a.ad_bd,
      a.ad_bt,
      a.at_bd,
      a.at_bt,
      a.bd_bt,
      word-store copy.tables i (p.word from.tables i) q j p,
      word-store copy.directory i (k.word from.directory i) q j k,
      word-store copy.directory i (k.word from.directory i) from.tables i k,
      word-mark_shared from i q j m,
      word-mark_shared from i from.tables i m,
      word-mark_shared from i from.directory i m,
    )

copy_step :
    (from copy : Table) (n : ℕ) (m r : Paging)
    → Apart from copy
    → Copied from copy n m r
    → Copied from copy (suc n) m (copy_entry from copy n r)
copy_step from copy n m r a c = record {
  from_directory = λ i. ground (
    arith,
    a.ad_at,
    a.ad_bd,
    a.ad_bt,
    c.from_directory i,
    c.from_directory n,
    word-copy_entry from copy n from.directory i r a,
  );
  from_tables = λ i. ground (
    arith,
    a.ad_at,
    a.at_bd,
    a.at_bt,
    c.from_tables i,
    word-copy_entry from copy n from.tables i r a,
  );
  copy_directory = λ i. ground (
    arith,
    a.bd_bt,
    a.ad_bd,
    c.copy_directory i,
    c.from_directory n,
    word-copy_entry from copy n copy.directory i r a,
  );
  copy_tables = λ i. ground (
    arith,
    c.copy_tables i,
    c.from_tables n,
    word-copy_entry from copy n copy.tables i r a,
    a.ad_bt,
    a.bd_bt,
  );
}

copy_upto :
    (from copy : Table) (n : ℕ) (m : Paging)
    → Apart from copy
    → Copied from copy n m (upto n (copy_entry from copy) m)
unfolding upto
copy_upto from copy zero m a = record {
  from_directory = λ i. ground arith;
  from_tables = λ i. refl;
  copy_directory = λ i. ground arith;
  copy_tables = λ i. ground arith;
}
copy_upto from copy (suc n) m a =
    copy_step from copy n m (upto n (copy_entry from copy) m) a (copy_upto from copy n m a)

-- What the copy r of the state n has at index i, for the source and the copied structure.
pub record Shares (from copy : Table) (i : ℕ) (n r : Paging) : Type 0 where
  pub directory_entry : r.word copy.directory i ≡ copied i (n.word from.directory i)
  pub same_entry : r.word from.directory i ≡ r.word copy.directory i
  pub same_table : r.word copy.tables i ≡ n.word from.tables i
  pub table_kept : r.word from.tables i ≡ n.word from.tables i

Copied-Shares :
    (from copy : Table) (i k : ℕ) (n r : Paging) (b : Bool)
    → i < k
    → Copied from copy k n r
    → Shares from copy i n (record r { interrupts = b })
Copied-Shares from copy i k n r b h c = record {
  directory_entry = ground (arith, c.copy_directory i);
  same_entry = ground (arith, c.copy_directory i, c.from_directory i);
  same_table = ground (arith, c.copy_tables i);
  table_kept = c.from_tables i;
}

-- `pg_copy_user_page_directory`, from the state n in which its structure t and the two pages have
-- been allocated and are apart from the pages of the source: the two directories get the same
-- entries and the two arrays the same tables; a user table that is present becomes shared in both,
-- every other entry is the one of the source; the result is t, and the interrupt flag is restored.
pub pg_copy_user_page_directory-Shares :
    (heap : PageHeap) (src t i : ℕ) (m n : Paging)
    → new_table heap m ≡ (t, n)
    → Apart (n.table src) (n.table t)
    → i < 0x400
    → Shares (n.table src) (n.table t) i n ((pg_copy_user_page_directory heap src m).1)
      × (((pg_copy_user_page_directory heap src m).0 ≡ t)
          × ((pg_copy_user_page_directory heap src m).1.interrupts ≡ m.interrupts))
unfolding pg_copy_user_page_directory
pg_copy_user_page_directory-Shares heap src t i m n e a h =
    let c = copy_upto (n.table src) (n.table t) 0x400 n a in
    rw e (
      Copied-Shares (n.table src) (n.table t) i 0x400 n
          (upto 0x400 (copy_entry (n.table src) (n.table t)) n) m.interrupts h c,
      (refl, refl),
    )
