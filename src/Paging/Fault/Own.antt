-- ===== src/Paging/Fault/Own.antt =====
-- What `pg_resolve_fault` of src/kernel/paging.cpp does to the page tables of two processes that share one.
use klos.Base.{
  ℕ, zero, suc, ◌^◌, ◌<◌, ◌≡◌, ◌≢◌, refl, sym, ap, ◌∙◌, inl, inr, true, false, some, ◌&&◌, ◌==◌,
  ==_false, if◌then◌else◌, Bool-cases, List, length, upto, bit_and, arith,
}
use klos.Process.{null}
use klos.Process.Chain.{IsList}
use klos.Paging.{
  Paging, PageHeap, user, pde_copyonwrite, directory_entry, table_of, pg_pde_index, store,
  clear_page, pg_setup_pagetable,
}
use klos.Paging.Extend.{
  Gives, linked, extended, made_word, clear_page-word, clear_page-table, linked-table, word-linked,
  pde_lt, table_of-extended, pg_setup_pagetable-extended,
}
use klos.Paging.Fault.{Spaces, is_shared, unshared, share_word, own_table}
use klos.Paging.Fault.Copies.{count, last_of, shares, copies_loop-count}
use klos.Paging.Fault.Tables.{Two, rounds-Two, rounds-word, protected, marked-protected}

-- The sharer's entry becomes writable where it is the only one.
abbrev released : (n other virt : ℕ) → Paging → Paging
released n other virt m =
    let c = directory_entry m other virt in
    if n == 1 && bit_and c pde_copyonwrite == pde_copyonwrite
    then store (m.table other).directory (pg_pde_index virt) (unshared pde_copyonwrite c) m
    else m

-- And the active tables lose theirs.
abbrev pub emptied : (n other virt : ℕ) → Paging → Paging
emptied n other virt m =
    let k = released n other virt m in
    store (k.table k.active).directory (pg_pde_index virt) 0x0
      (store (k.table k.active).tables (pg_pde_index virt) null k)

emptied-active :
    (n other virt : ℕ) (m : Paging)
    → ((emptied n other virt m).active ≡ m.active)
      × ((emptied n other virt m).interrupts ≡ m.interrupts)
unfolding store
emptied-active n other virt m =
    let c = directory_entry m other virt in
    elim (Bool-cases (n == 1 && bit_and c pde_copyonwrite == pde_copyonwrite)) [
      | inl e ↦ rw e (refl, refl)
      | inr e ↦ rw e (refl, refl)
    ]

clear_upto-active : (n page : ℕ) (m : Paging) → (upto n (λ j. store page j 0) m).active ≡ m.active
unfolding upto store
clear_upto-active zero page m = refl
clear_upto-active (suc n) page m = clear_upto-active n page m

clear_page-active : (page : ℕ) (m : Paging) → (clear_page page m).active ≡ m.active
unfolding clear_page
clear_page-active page m = clear_upto-active 1024 page m

module _ (virt : ℕ) (xs : List ℕ) (s : Spaces) where
  -- The entry of the active process, the number of the others with the same table, and the tables of the last of them.
  abbrev pub entry_of : ℕ
  entry_of = directory_entry s.paging s.paging.active virt

  abbrev pub sharers : ℕ
  sharers = count (shares (λ t. directory_entry s.paging t virt) entry_of s.processes) xs

  abbrev pub other : ℕ
  other =
      (s.processes.at (
        last_of (shares (λ t. directory_entry s.paging t virt) entry_of s.processes) null
          xs)).page_table

  -- A fault where the active process shares a page table with others. The heap gives a page that the tables
  -- of the two do not use, and does not touch the page table that they share; interrupts are off.
  pub record TableShared (heap : PageHeap) (page : ℕ) (got : Paging) : Type 0 where
    pub processes : IsList s.processes xs
    pub shared_table : is_shared pde_copyonwrite entry_of ≡ true
    pub some_sharer : sharers ≢ 0
    pub off : s.paging.interrupts ≡ false
    pub gives : Gives heap s.paging.active virt page (emptied sharers other virt s.paging) got
    pub active : got.active ≡ s.paging.active
    pub kept :
        (i : ℕ)
        → got.word (table_of s.paging other virt) i ≡ s.paging.word (table_of s.paging other virt) i
    pub other_table : table_of got other virt ≡ table_of s.paging other virt
    pub not_page : table_of s.paging other virt ≢ page
    pub not_directory : table_of s.paging other virt ≢ (got.table s.paging.active).directory
    pub not_pointers : table_of s.paging other virt ≢ (got.table s.paging.active).tables
    pub other_not_table : (got.table other).tables ≢ table_of s.paging other virt
    pub other_not_page : (got.table other).tables ≢ page
    pub other_not_directory : (got.table other).tables ≢ (got.table s.paging.active).directory
    pub other_not_pointers : (got.table other).tables ≢ (got.table s.paging.active).tables

  module _ (heap : PageHeap) (fuel page : ℕ) (got : Paging) (enough : length xs < fuel)
      (h : TableShared heap page got) where
    abbrev a : ℕ
    a = s.paging.active

    abbrev shared : ℕ
    shared = table_of s.paging other virt

    abbrev supervisor : ℕ
    supervisor = if bit_and entry_of user == 0 then 1 else 0

    abbrev made : Paging
    made = extended a virt page (made_word a virt supervisor page got) got

    made_here :
        let e = emptied sharers other virt s.paging in
        pg_setup_pagetable heap e.active virt supervisor e ≡ made
    made_here =
        let e = emptied sharers other virt s.paging in
        let kept = emptied-active sharers other virt s.paging in
        ap (λ t. pg_setup_pagetable heap t virt supervisor e) kept.0
        ∙ ap (λ i. pg_setup_pagetable heap a virt supervisor (record e { interrupts = i }))
            (kept.1 ∙ h.off)
        ∙ pg_setup_pagetable-extended heap a virt supervisor page e got h.gives

    made-active : made.active ≡ a
    unfolding linked store
    made-active =
        clear_page-active page (linked a virt page (made_word a virt supervisor page got) got)
        ∙ h.active

    own_table-run :
        own_table heap fuel virt s
        ≡ some (record s { paging = upto 1024 (share_word other a virt) made })
    unfolding own_table
    own_table-run =
        rw
          (
            h.shared_table,
            copies_loop-count fuel (λ t. directory_entry s.paging t virt) entry_of null s.processes
                xs h.processes enough,
            ==_false sharers 0 h.some_sharer,
          )
          (ap (λ m. some (record s { paging = upto 1024 (share_word other m.active virt) m }))
              made_here
            ∙ ap (λ t. some (record s { paging = upto 1024 (share_word other t virt) made }))
                made-active)

    made-word :
        (q i : ℕ)
        → i < 1024
        → q ≢ page
        → q ≢ (got.table a).directory
        → q ≢ (got.table a).tables
        → made.word q i ≡ got.word q i
    made-word q i l np nd nt =
        let w = made_word a virt supervisor page got in
        clear_page-word page q i (linked a virt page w got) l
        ∙ ap (λ b. if b then 0 else (linked a virt page w got).word q i) (==_false q page np)
        ∙ word-linked a virt page w q i got nd nt

    made-Two : Two other a virt shared page h.not_page made
    made-Two =
        let w = made_word a virt supervisor page got in
        let same : made.table ≡ got.table =
          clear_page-table page (linked a virt page w got) ∙ linked-table a virt page w got in
        record {
          from =
              ap (λ f. made.word (f other).tables (pg_pde_index virt)) same
              ∙ made-word (got.table other).tables (pg_pde_index virt) (pde_lt virt)
                  h.other_not_page h.other_not_directory h.other_not_pointers
              ∙ h.other_table;
          to = ground (
            arith,
            table_of-extended heap a virt page w virt (emptied sharers other virt s.paging) got
                h.gives,
          );
          other_shared = λ e. h.other_not_table (ap (λ f. (f other).tables) (sym same) ∙ e);
          other_page = λ e. h.other_not_page (ap (λ f. (f other).tables) (sym same) ∙ e);
          active_shared = λ e. h.not_pointers (sym e ∙ ap (λ f. (f a).tables) same);
          active_page = λ e. h.gives.not_pointers (sym e ∙ ap (λ f. (f a).tables) same);
        }

-- Where the active process shares the page table of virt with others, interrupts are off, the heap
-- gives a page that the tables of the active process and of the last sharer do not use, and in doing
-- so keeps the page table that they share and the pages of pointers to it, and with more rounds than
-- there are processes, the first half of `pg_resolve_fault` returns. The active process then has the
-- page as its page table for virt and the last sharer keeps the old one. In both tables a word of 32
-- bits that was writable has that bit cleared and the copy-on-write bit set, and any other is as before.
pub own_table-shares :
    (heap : PageHeap) (fuel page virt i : ℕ) (xs : List ℕ) (s : Spaces) (got : Paging)
    → length xs < fuel
    → i < 1024
    → s.paging.word (table_of s.paging (other virt xs s) virt) i < 2 ^ 32
    → TableShared virt xs s heap page got
    → (k : Paging) × (own_table heap fuel virt s ≡ some (record s { paging = k }))
      × (table_of k s.paging.active virt ≡ page)
      × (table_of k (other virt xs s) virt ≡ table_of s.paging (other virt xs s) virt)
      × (k.word page i ≡ protected (s.paging.word (table_of s.paging (other virt xs s) virt) i))
      × (k.word (table_of s.paging (other virt xs s) virt) i
          ≡ protected (s.paging.word (table_of s.paging (other virt xs s) virt) i))
own_table-shares heap fuel page virt i xs s got enough l small h =
    let from = other virt xs s in
    let to = s.paging.active in
    let old = table_of s.paging from virt in
    let m = made virt xs s heap fuel page got enough h in
    let two = made-Two virt xs s heap fuel page got enough h in
    let after = rounds-Two from to virt old page h.not_page 1024 m two in
    let word =
      made-word virt xs s heap fuel page got enough h old i l h.not_page h.not_directory
        h.not_pointers
      ∙ h.kept i in
    let plain = marked-protected (s.paging.word old i) small in
    (
      upto 1024 (share_word from to virt) m,
      own_table-run virt xs s heap fuel page got enough h,
      after.to,
      after.from,
      rounds-word from to virt old page h.not_page 1024 page i m two
          ∙ ground (arith, l, word)
          ∙ plain,
      rounds-word from to virt old page h.not_page 1024 old i m two
          ∙ ground (arith, l, word)
          ∙ plain,
    )
