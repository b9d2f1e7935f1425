-- ===== src/Paging/Extend.antt =====
-- What `pg_map` of src/kernel/paging.cpp does to the translation of every address when it has to make
-- the page table first.
use klos.Base.{
  upto, ℕ, ◌+◌, ◌*◌, ◌/◌, ◌^◌, ◌<◌, ◌≡◌, ◌≢◌, refl, ap, ◌∙◌, false, ◌&&◌, ltb, zero, suc, ◌==◌,
  if◌then◌else◌, bit_and, update, arith,
}
use klos.Base.Bits.{bit_and_low}
use klos.Paging.{
  Paging, PageHeap, table_of, directory_entry, pg_pde_index, pg_pte_index, pg_get_physical, pg_map,
  pg_setup_pagetable, clear_page, directory_word, page_word, store, null, addressmask,
}
use klos.Paging.Entry.{pg_pte_index-mod, page_flags, page_word-fields}
use klos.Paging.Map.{entry, Owns, entry-put}

clear_upto :
    (n page q i : ℕ) (m : Paging)
    → (upto n (λ j. store page j 0) m).word q i ≡ (if q == page && ltb i n then 0 else m.word q i)
unfolding upto store update
clear_upto zero page q i m = ground arith
clear_upto (suc n) page q i m = ground (arith, clear_upto n page q i m, clear_upto n page page i m)

clear_upto-table : (n page : ℕ) (m : Paging) → (upto n (λ j. store page j 0) m).table ≡ m.table
unfolding upto store
clear_upto-table zero page m = refl
clear_upto-table (suc n) page m = clear_upto-table n page m

cleared_upto :
    (n page q i : ℕ) (m : Paging)
    → i < n
    → (upto n (λ j. store page j 0) m).word q i ≡ (if q == page then 0 else m.word q i)
cleared_upto n page q i m h = ground (arith, clear_upto n page q i m)

pub clear_page-word :
    (page q i : ℕ) (m : Paging)
    → i < 1024
    → (clear_page page m).word q i ≡ (if q == page then 0 else m.word q i)
unfolding clear_page
clear_page-word page q i m h = cleared_upto 1024 page q i m h

pub clear_page-table : (page : ℕ) (m : Paging) → (clear_page page m).table ≡ m.table
unfolding clear_page
clear_page-table page m = clear_upto-table 1024 page m

-- The page that the heap gives for the table of virt is none of the pages that t uses, and the
-- pages of t are apart.
pub record Gives (heap : PageHeap) (t virt page : ℕ) (m got : Paging) : Type 0 where
  pub given : heap.kalloc_page (record m { interrupts = false }) ≡ (page, got)
  pub absent : bit_and (directory_entry m t virt) addressmask ≡ 0
  pub no_table : table_of m t virt ≡ null
  pub unused : (v : ℕ) → table_of got t v ≢ page
  pub not_directory : page ≢ (got.table t).directory
  pub not_pointers : page ≢ (got.table t).tables
  pub apart : (got.table t).directory ≢ (got.table t).tables
  pub tables_not_directory : (v : ℕ) → table_of got t v ≢ (got.table t).directory
  pub tables_not_pointers : (v : ℕ) → table_of got t v ≢ (got.table t).tables

-- The table for virt is at page, empty, with w in the directory.
unfoldable pub linked : (t virt page w : ℕ) → Paging → Paging
unfolding store
linked t virt page w m =
    store (m.table t).directory (pg_pde_index virt) w
      (store (m.table t).tables (pg_pde_index virt) page m)

table_of-linked :
    (heap : PageHeap) (t virt page w v : ℕ) (m got : Paging)
    → Gives heap t virt page m got
    → table_of (linked t virt page w got) t v
      ≡ (if pg_pde_index v == pg_pde_index virt then page else table_of got t v)
unfolding linked store update
table_of-linked heap t virt page w v m got g = ground (arith, g.apart)

table_of_virt-linked :
    (heap : PageHeap) (t virt page w : ℕ) (m got : Paging)
    → Gives heap t virt page m got
    → table_of (linked t virt page w got) t virt ≡ page
table_of_virt-linked heap t virt page w m got g =
    ground (arith, table_of-linked heap t virt page w virt m got g)

pte_lt : (v : ℕ) → pg_pte_index v < 1024
pte_lt v = omega (arith, pg_pte_index-mod v)

pub pde_lt : (v : ℕ) → pg_pde_index v < 1024
unfolding pg_pde_index
pde_lt v = omega (arith, bit_and_low 10 (v / 2 ^ 22))

-- The table for virt is at page, empty, with w in the directory.
abbrev pub extended : (t virt page w : ℕ) → Paging → Paging
extended t virt page w m = clear_page page (linked t virt page w m)

pub linked-table : (t virt page w : ℕ) (m : Paging) → (linked t virt page w m).table ≡ m.table
unfolding linked store
linked-table t virt page w m = refl

pub table_of-extended :
    (heap : PageHeap) (t virt page w v : ℕ) (m got : Paging)
    → Gives heap t virt page m got
    → table_of (extended t virt page w got) t v
      ≡ (if pg_pde_index v == pg_pde_index virt then page else table_of got t v)
table_of-extended heap t virt page w v m got g = ground (
  arith,
  g.not_pointers,
  clear_page-table page (linked t virt page w got),
  linked-table t virt page w got,
  pde_lt v,
  table_of-linked heap t virt page w v m got g,
  clear_page-word page (got.table t).tables (pg_pde_index v) (linked t virt page w got),
)

pub word-linked :
    (t virt page w q i : ℕ) (m : Paging)
    → q ≢ (m.table t).directory
    → q ≢ (m.table t).tables
    → (linked t virt page w m).word q i ≡ m.word q i
unfolding linked store update
word-linked t virt page w q i m hd ht = ground arith

word-extended :
    (heap : PageHeap) (t virt page w v : ℕ) (m got : Paging)
    → Gives heap t virt page m got
    → (extended t virt page w got).word
        (if pg_pde_index v == pg_pde_index virt then page else table_of got t v)
        (pg_pte_index v)
      ≡ (if pg_pde_index v == pg_pde_index virt then 0 else entry t v got)
unfolding entry
word-extended heap t virt page w v m got g = ground (
  arith,
  pte_lt v,
  g.unused v,
  word-linked t virt page w (table_of got t v) (pg_pte_index v) got (g.tables_not_directory v)
      (g.tables_not_pointers v),
  clear_page-word page page (pg_pte_index v) (linked t virt page w got),
  clear_page-word page (table_of got t v) (pg_pte_index v) (linked t virt page w got),
)

entry-extended :
    (heap : PageHeap) (t virt page w v : ℕ) (m got : Paging)
    → Gives heap t virt page m got
    → entry t v (extended t virt page w got)
      ≡ (if pg_pde_index v == pg_pde_index virt then 0 else entry t v got)
unfolding entry
entry-extended heap t virt page w v m got g =
    ap (λ q. (extended t virt page w got).word q (pg_pte_index v))
      (table_of-extended heap t virt page w v m got g)
    ∙ word-extended heap t virt page w v m got g

extended-Owns :
    (heap : PageHeap) (t virt page w : ℕ) (m got : Paging)
    → Gives heap t virt page m got
    → Owns t virt (extended t virt page w got)
extended-Owns heap t virt page w m got g = record {
  other_parts = λ v e. ground (
    arith,
    g.unused v,
    table_of-extended heap t virt page w v m got g,
    table_of-extended heap t virt page w virt m got g,
  );
  not_pointers = ground (
    arith,
    g.not_pointers,
    table_of-extended heap t virt page w virt m got g,
    clear_page-table page (linked t virt page w got),
    linked-table t virt page w got,
  );
}

-- The word that the new table gets in the directory.
pub made_word : (t virt supervisor page : ℕ) → Paging → ℕ
unfolding store pg_get_physical
made_word t virt supervisor page got =
    let filled = store (got.table t).tables (pg_pde_index virt) page got in
    directory_word supervisor (pg_get_physical filled.active (table_of filled t virt) filled)

pub pg_setup_pagetable-extended :
    (heap : PageHeap) (t virt supervisor page : ℕ) (m got : Paging)
    → Gives heap t virt page m got
    → pg_setup_pagetable heap t virt supervisor (record m { interrupts = false })
      ≡ extended t virt page (made_word t virt supervisor page got) got
unfolding pg_setup_pagetable linked made_word
pg_setup_pagetable-extended heap t virt supervisor page m got g =
    rw (g.given, g.no_table)
      (ap (λ q. clear_page q (linked t virt page (made_word t virt supervisor page got) got))
        (table_of_virt-linked heap t virt page (made_word t virt supervisor page got) m got g))

-- The heap leaves the tables of t as they are while it gives a page.
pub record Keeps (t : ℕ) (m got : Paging) : Type 0 where
  pub tables : (v : ℕ) → table_of got t v ≡ table_of m t v
  pub words : (v i : ℕ) → got.word (table_of m t v) i ≡ m.word (table_of m t v) i

entry-kept : (t v : ℕ) (m got : Paging) → Keeps t m got → entry t v got ≡ entry t v m
unfolding entry
entry-kept t v m got k =
    ap (λ q. got.word q (pg_pte_index v)) (k.tables v) ∙ k.words v (pg_pte_index v)

-- When the directory has no address of a table for virt, and the heap gives a page that t does not use
-- and leaves the page tables of t as they are, `pg_map` puts the address of the physical page and the
-- flags for present and writable, and for a user's page where it is one, into the word of virt's page,
-- the other pages of virt's table are not mapped, and every other page has the word that it had before
-- the call.
pub entry-pg_map_new :
    (heap : PageHeap) (t virt physical supervisor page : ℕ) (m got : Paging) (v : ℕ)
    → virt < 2 ^ 32
    → v < 2 ^ 32
    → physical < 2 ^ 32
    → Gives heap t virt page m got
    → Keeps t m got
    → entry t v (pg_map heap t virt physical supervisor m) ≡ (
        if v / 4096 == virt / 4096
        then physical / 4096 * 4096 + page_flags supervisor
        else (if pg_pde_index v == pg_pde_index virt then 0 else entry t v m))
unfolding pg_map entry
entry-pg_map_new heap t virt physical supervisor page m got v hvirt hv hp g kept =
    let w = made_word t virt supervisor page got in
    let n = extended t virt page w got in
    let written =
      entry-put t virt (page_word physical supervisor) n v hvirt hv
        (extended-Owns heap t virt page w m got g) in
    rw (g.absent, pg_setup_pagetable-extended heap t virt supervisor page m got g)
      (written
        ∙ ap (λ x. if v / 4096 == virt / 4096 then page_word physical supervisor else x)
            (entry-extended heap t virt page w v m got g)
        ∙ ap
            (λ x.
              if v / 4096 == virt / 4096
              then page_word physical supervisor
              else (if pg_pde_index v == pg_pde_index virt then 0 else x))
            (entry-kept t v m got kept)
        ∙ ap
            (λ x.
              if v / 4096 == virt / 4096
              then x
              else (if pg_pde_index v == pg_pde_index virt then 0 else entry t v m))
            (page_word-fields physical supervisor hp))
