-- ===== src/Paging/Fault/Places.antt =====
-- Page tables of src/kernel/paging.cpp that exist and serve one part of the address space, where
-- `pg_map` and `pg_unmap` are a write of one word.
use klos.Base.{
  ℕ, ◌/◌, ◌^◌, ◌<◌, ◌≡◌, ◌≢◌, refl, sym, ap, subst, arith, ◌∙◌, ◌==◌, if◌then◌else◌, bit_and,
  ==_false,
}
use klos.Paging.{
  Paging, PageHeap, table_of, directory_entry, pg_pde_index, pg_pte_index, pg_map, pg_unmap,
  page_word, store, addressmask,
}
use klos.Paging.Map.{
  entry, Owns, IsPresent, put, table_of-put, store_page_ne, entry-put, entry-pg_map,
}

-- The page table for virt exists, serves no other part of the address space, and is neither the
-- directory nor the page of pointers to tables.
pub record IsPlace (t virt : ℕ) (m : Paging) : Type 0 where
  pub owns : Owns t virt m
  pub is_present : IsPresent t virt m
  pub not_directory : table_of m t virt ≢ (m.table t).directory

-- A page that is none of those that the tables at t are made of.
pub record IsApart (t page : ℕ) (m : Paging) : Type 0 where
  pub not_directory : (m.table t).directory ≢ page
  pub not_pointers : (m.table t).tables ≢ page
  pub not_table : (v : ℕ) → table_of m t v ≢ page

pub pg_map-put :
    (heap : PageHeap) (t virt physical supervisor : ℕ) (m : Paging)
    → IsPresent t virt m
    → pg_map heap t virt physical supervisor m ≡ put t virt (page_word physical supervisor) m
unfolding pg_map store
pg_map-put heap t virt physical supervisor m h =
    rw (==_false (bit_and (directory_entry m t virt) addressmask) 0 h) refl

pub pg_unmap-put :
    (t virt : ℕ) (m : Paging) → IsPresent t virt m → pg_unmap t virt m ≡ put t virt 0 m
unfolding pg_unmap
pg_unmap-put t virt m h = rw (==_false (bit_and (directory_entry m t virt) addressmask) 0 h) refl

-- A write that keeps the directory and the pointers keeps every place.
keep_place :
    (t virt : ℕ) (m : Paging) (n : Paging)
    → (n.table t ≡ m.table t)
    → ((v : ℕ) → table_of n t v ≡ table_of m t v)
    → (directory_entry n t virt ≡ directory_entry m t virt)
    → IsPlace t virt m
    → IsPlace t virt n
keep_place t virt m n et ep ed p = record {
  owns = record {
    other_parts = λ v e. p.owns.other_parts v (sym (ep v) ∙ e ∙ ep virt);
    not_pointers = λ e. p.owns.not_pointers (sym (ep virt) ∙ e ∙ ap (λ x. x.tables) et);
  };
  is_present = λ e. p.is_present (sym (ap (λ x. bit_and x addressmask) ed) ∙ e);
  not_directory = λ e. p.not_directory (sym (ep virt) ∙ e ∙ ap (λ x. x.directory) et);
}

pub put-IsPlace :
    (t w x virt : ℕ) (m : Paging) → IsPlace t w m → IsPlace t virt m → IsPlace t virt (put t w x m)
unfolding store
put-IsPlace t w x virt m a p =
    keep_place t virt m (put t w x m) refl (λ v. table_of-put t w x m v a.owns)
      (store_page_ne (table_of m t w) (pg_pte_index w) x (m.table t).directory (pg_pde_index virt) m
        (λ e. a.not_directory (sym e)))
      p

pub store-IsPlace :
    (t page i x virt : ℕ) (m : Paging)
    → IsApart t page m
    → IsPlace t virt m
    → IsPlace t virt (store page i x m)
unfolding store
store-IsPlace t page i x virt m a p =
    keep_place t virt m (store page i x m) refl
      (λ v. store_page_ne page i x (m.table t).tables (pg_pde_index v) m a.not_pointers)
      (store_page_ne page i x (m.table t).directory (pg_pde_index virt) m a.not_directory) p

pub entry-store :
    (t page i x v : ℕ) (m : Paging) → IsApart t page m → entry t v (store page i x m) ≡ entry t v m
unfolding entry store
entry-store t page i x v m a =
    ap (λ q. (store page i x m).word q (pg_pte_index v))
      (store_page_ne page i x (m.table t).tables (pg_pde_index v) m a.not_pointers)
    ∙ store_page_ne page i x (table_of m t v) (pg_pte_index v) m (a.not_table v)

module _ (heap : PageHeap) (t w : ℕ) (m : Paging) (a : IsPlace t w m) where
  pub pg_map-IsPlace : (p s virt : ℕ) → IsPlace t virt m → IsPlace t virt (pg_map heap t w p s m)
  pg_map-IsPlace p s virt b =
      subst (IsPlace t virt) (sym (pg_map-put heap t w p s m a.is_present))
        (put-IsPlace t w (page_word p s) virt m a b)

  pub pg_unmap-IsPlace : (virt : ℕ) → IsPlace t virt m → IsPlace t virt (pg_unmap t w m)
  pg_unmap-IsPlace virt b =
      subst (IsPlace t virt) (sym (pg_unmap-put t w m a.is_present)) (put-IsPlace t w 0 virt m a b)

  pub pg_map-active : (p s : ℕ) → (pg_map heap t w p s m).active ≡ m.active
  unfolding store
  pg_map-active p s = ap (λ n. n.active) (pg_map-put heap t w p s m a.is_present)

  pub pg_unmap-active : (pg_unmap t w m).active ≡ m.active
  unfolding store
  pg_unmap-active = ap (λ n. n.active) (pg_unmap-put t w m a.is_present)

  pub pg_unmap-entry :
      (v : ℕ)
      → w < 2 ^ 32
      → v < 2 ^ 32
      → entry t v (pg_unmap t w m) ≡ (if v / 4096 == w / 4096 then 0 else entry t v m)
  pg_unmap-entry v hw hv =
      ap (entry t v) (pg_unmap-put t w m a.is_present) ∙ entry-put t w 0 m v hw hv a.owns

-- A page is mapped through the pager's window, the window and the page of virt are unmapped, and
-- virt gets the page.
abbrev pub remap : (heap : PageHeap) → (t window virt p s : ℕ) → Paging → Paging
remap heap t window virt p s m =
    pg_map heap t virt p s (pg_unmap t virt (pg_unmap t window (pg_map heap t window p 1 m)))

module _ (heap : PageHeap) (t window virt p s : ℕ) (m : Paging) (a : IsPlace t window m)
    (b : IsPlace t virt m) where
  remap_1 : IsPlace t virt (pg_map heap t window p 1 m)
  remap_1 = pg_map-IsPlace heap t window m a p 1 virt b

  abbrev unmapped_1 : Paging
  unmapped_1 = pg_unmap t window (pg_map heap t window p 1 m)

  window_1 : IsPlace t window (pg_map heap t window p 1 m)
  window_1 = pg_map-IsPlace heap t window m a p 1 window a

  remap_2 : IsPlace t virt unmapped_1
  remap_2 = pg_unmap-IsPlace heap t window (pg_map heap t window p 1 m) window_1 virt remap_1

  remap_3 : IsPlace t virt (pg_unmap t virt unmapped_1)
  remap_3 = pg_unmap-IsPlace heap t virt unmapped_1 remap_2 virt remap_2

  pub unmapped-active : (pg_unmap t virt unmapped_1).active ≡ m.active
  unmapped-active =
      pg_unmap-active heap t virt unmapped_1 remap_2
      ∙ pg_unmap-active heap t window (pg_map heap t window p 1 m) window_1
      ∙ pg_map-active heap t window m a p 1

  pub entry-remap :
      (v : ℕ)
      → window < 2 ^ 32
      → virt < 2 ^ 32
      → v < 2 ^ 32
      → entry t v (remap heap t window virt p s m) ≡ (
          if v / 4096 == virt / 4096
          then page_word p s
          else if v / 4096 == window / 4096
          then 0
          else entry t v m)
  entry-remap v hw hvirt hv = ground (
    arith,
    entry-pg_map heap t virt p s (pg_unmap t virt unmapped_1) v hvirt hv remap_3.is_present
        remap_3.owns,
    pg_unmap-entry heap t virt unmapped_1 remap_2 v hvirt hv,
    pg_unmap-entry heap t window (pg_map heap t window p 1 m) window_1 v hw hv,
    entry-pg_map heap t window p 1 m v hw hv a.is_present a.owns,
  )
