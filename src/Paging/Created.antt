-- ===== src/Paging/Created.antt =====
-- What the loops of `pg_create_user_page_directory` of src/kernel/paging.cpp leave in the new pages.
use klos.Base.{upto, ℕ, ◌<◌, ◌≡◌, ◌≢◌, refl, Bool, ◌&&◌, ltb, zero, suc, ◌==◌, if◌then◌else◌, arith}
use klos.Paging.{
  Paging, PageHeap, Table, create_entry, store, null, new_table, pg_create_user_page_directory,
}
use klos.Paging.Spaces.{Apart, word-store}

-- The first n entries are made.
record Made (kernel copy : Table) (n : ℕ) (m r : Paging) : Type 0 where
  directory :
      (i : ℕ)
      → r.word copy.directory i ≡ (
          if ltb i n
          then (if ltb i 0x300 then 0 else m.word kernel.directory i)
          else m.word copy.directory i)
  tables :
      (i : ℕ)
      → r.word copy.tables i ≡ (
          if ltb i n
          then (if ltb i 0x300 then null else m.word kernel.tables i)
          else m.word copy.tables i)
  others : (q i : ℕ) → q ≢ copy.directory → q ≢ copy.tables → r.word q i ≡ m.word q i

word-create_entry :
    (kernel copy : Table) (i q j : ℕ) (m : Paging)
    → Apart kernel copy
    → (create_entry kernel copy i m).word q j ≡ (
        if (q == copy.tables) && (j == i)
        then (if ltb i 0x300 then null else m.word kernel.tables i)
        else (if (q == copy.directory) && (j == i)
            then (if ltb i 0x300 then 0 else m.word kernel.directory i)
            else m.word q j))
unfolding create_entry
word-create_entry kernel copy i q j m a =
    let placed = store copy.directory i (m.word kernel.directory i) m in
    let zeroed = store copy.directory i 0 m in
    ground (
      arith,
      a.ad_at,
      a.ad_bd,
      a.ad_bt,
      a.at_bd,
      a.at_bt,
      a.bd_bt,
      word-store copy.tables i (placed.word kernel.tables i) q j placed,
      word-store copy.directory i (m.word kernel.directory i) q j m,
      word-store copy.directory i (m.word kernel.directory i) kernel.tables i m,
      word-store copy.tables i null q j zeroed,
      word-store copy.directory i 0 q j m,
    )

make_step :
    (kernel copy : Table) (n : ℕ) (m r : Paging)
    → Apart kernel copy
    → Made kernel copy n m r
    → Made kernel copy (suc n) m (create_entry kernel copy n r)
make_step kernel copy n m r a c = record {
  directory = λ i. ground (
    arith,
    a.bd_bt,
    c.directory i,
    c.others kernel.directory n a.ad_bd a.ad_bt,
    word-create_entry kernel copy n copy.directory i r a,
  );
  tables = λ i. ground (
    arith,
    a.bd_bt,
    c.tables i,
    c.others kernel.tables n a.at_bd a.at_bt,
    word-create_entry kernel copy n copy.tables i r a,
  );
  others = λ q i hd ht. ground (arith, c.others q i hd ht, word-create_entry kernel copy n q i r a);
}

make_upto :
    (kernel copy : Table) (n : ℕ) (m : Paging)
    → Apart kernel copy
    → Made kernel copy n m (upto n (create_entry kernel copy) m)
unfolding upto
make_upto kernel copy zero m a = record {
  directory = λ i. ground arith;
  tables = λ i. ground arith;
  others = λ q i hd ht. refl;
}
make_upto kernel copy (suc n) m a =
    make_step kernel copy n m (upto n (create_entry kernel copy) m) a (make_upto kernel copy n m a)

-- What the new address space r has at index i: the kernel's tables from 0xC0000000 on.
pub record IsFresh (kernel copy : Table) (i : ℕ) (n r : Paging) : Type 0 where
  pub entry : r.word copy.directory i ≡ (if ltb i 0x300 then 0 else n.word kernel.directory i)
  pub table : r.word copy.tables i ≡ (if ltb i 0x300 then null else n.word kernel.tables i)
  pub kernel_entry : r.word kernel.directory i ≡ n.word kernel.directory i
  pub kernel_table : r.word kernel.tables i ≡ n.word kernel.tables i

Made-IsFresh :
    (kernel copy : Table) (i k : ℕ) (n r : Paging) (b : Bool)
    → i < k
    → Apart kernel copy
    → Made kernel copy k n r
    → IsFresh kernel copy i n (record r { interrupts = b })
Made-IsFresh kernel copy i k n r b h a c = record {
  entry = ground (arith, c.directory i);
  table = ground (arith, c.tables i);
  kernel_entry = c.others kernel.directory i a.ad_bd a.ad_bt;
  kernel_table = c.others kernel.tables i a.at_bd a.at_bt;
}

-- `pg_create_user_page_directory`, from the state n in which its structure t and the two pages
-- have been allocated and are apart from the kernel's pages: below index 0x300 the new directory
-- has no entry and no table, from there on it has the entries and the tables of the kernel; the
-- kernel's are unchanged, the result is t, and the interrupt flag is restored.
pub pg_create_user_page_directory-IsFresh :
    (heap : PageHeap) (t i : ℕ) (m n : Paging)
    → new_table heap m ≡ (t, n)
    → Apart (n.table n.kernel) (n.table t)
    → i < 0x400
    → IsFresh (n.table n.kernel) (n.table t) i n ((pg_create_user_page_directory heap m).1)
      × (((pg_create_user_page_directory heap m).0 ≡ t)
          × ((pg_create_user_page_directory heap m).1.interrupts ≡ m.interrupts))
unfolding pg_create_user_page_directory
pg_create_user_page_directory-IsFresh heap t i m n e a h =
    let c = make_upto (n.table n.kernel) (n.table t) 0x400 n a in
    rw e (
      Made-IsFresh (n.table n.kernel) (n.table t) i 0x400 n
          (upto 0x400 (create_entry (n.table n.kernel) (n.table t)) n) m.interrupts h a c,
      (refl, refl),
    )
