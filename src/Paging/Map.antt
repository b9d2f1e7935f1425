-- ===== src/Paging/Map.antt =====
-- What `pg_map` and `pg_unmap` of src/kernel/paging.cpp do to the translation of every address.
use klos.Base.{
  ℕ, ◌*◌, ◌/◌, ◌^◌, ◌<◌, ◌≡◌, ◌≢◌, refl, ap, ◌∙◌, inl, inr, Bool, false, true, not, ◌&&◌, ◌==◌,
  if◌then◌else◌, bit_and, Bool-cases, ==_false, ==_iff, ==_self, update, update_ne, arith,
}
use klos.Paging.{
  Paging, PageHeap, table_of, directory_entry, pg_pde_index, pg_pte_index, pg_get_physical, pg_map,
  pg_unmap, page_word, store, addressmask,
}
use klos.Paging.Entry.{page_word-address, page_of_indices, indices_of_page}

-- The word that the tables at t hold for the page of virt.
unfoldable pub entry : ℕ → ℕ → Paging → ℕ
entry t virt m = m.word (table_of m t virt) (pg_pte_index virt)

-- The page table for virt serves no other part of the address space, and it is not the page that
-- holds the pointers to the tables.
pub record Owns (t virt : ℕ) (m : Paging) : Type 0 where
  pub other_parts :
      (v : ℕ) → table_of m t v ≡ table_of m t virt → pg_pde_index v ≡ pg_pde_index virt
  pub not_pointers : table_of m t virt ≢ (m.table t).tables

-- A write to the word of one page.
abbrev pub put : (t virt x : ℕ) → Paging → Paging
put t virt x m = store (table_of m t virt) (pg_pte_index virt) x m

pub table_of-put :
    (t virt x : ℕ) (m : Paging) (v : ℕ)
    → Owns t virt m
    → table_of (put t virt x m) t v ≡ table_of m t v
unfolding store
table_of-put t virt x m v o = ground (
  arith,
  o.not_pointers,
  update_ne m.word (table_of m t virt) (m.table t).tables
      (update (m.word (table_of m t virt)) (pg_pte_index virt) x),
)

pub store_here : (page i x : ℕ) (m : Paging) → (store page i x m).word page i ≡ x
unfolding store update
store_here page i x m = rw (==_self page, ==_self i) refl

pub store_page_ne :
    (page i x q j : ℕ) (m : Paging) → q ≢ page → (store page i x m).word q j ≡ m.word q j
unfolding store update
store_page_ne page i x q j m h = rw (==_false q page h) refl

store_index_ne : (page i x q j : ℕ) (m : Paging) → j ≢ i → (store page i x m).word q j ≡ m.word q j
unfolding store update
store_index_ne page i x q j m h = elim (Bool-cases (q == page)) [
  | inl e ↦ rw (e, ==_false j i h) (ground (arith, ==_iff q page))
  | inr e ↦ rw e refl
]

word-put :
    (t virt x : ℕ) (m : Paging) (v : ℕ)
    → virt < 2 ^ 32
    → v < 2 ^ 32
    → Owns t virt m
    → (put t virt x m).word (table_of m t v) (pg_pte_index v)
      ≡ (if v / 4096 == virt / 4096 then x else m.word (table_of m t v) (pg_pte_index v))
word-put t virt x m v hvirt hv o =
    let page = table_of m t virt in
    let i = pg_pte_index virt in
    elim (Bool-cases (v / 4096 == virt / 4096)) [
      | inl e ↦
          let near : v / 4096 ≡ virt / 4096 = ground arith in
          let same = indices_of_page v virt hv hvirt near in
          rw e (
            ap (λ d. (store page i x m).word (m.word (m.table t).tables d) (pg_pte_index v)) same.0
            ∙ ap (λ j. (store page i x m).word page j) same.1
            ∙ store_here page i x m)
      | inr e ↦ rw e (elim (Bool-cases (pg_pte_index v == i)) [
        | inl ei ↦
            store_page_ne page i x (table_of m t v) (pg_pte_index v) m
              (λ et. ground (arith, o.other_parts v et, page_of_indices v virt hv hvirt))
        | inr ei ↦ store_index_ne page i x (table_of m t v) (pg_pte_index v) m (λ et. ground arith)
      ])
    ]

-- After a write, an address of that page has the new word and no other address is changed.
pub entry-put :
    (t virt x : ℕ) (m : Paging) (v : ℕ)
    → virt < 2 ^ 32
    → v < 2 ^ 32
    → Owns t virt m
    → entry t v (put t virt x m) ≡ (if v / 4096 == virt / 4096 then x else entry t v m)
unfolding entry
entry-put t virt x m v hvirt hv o =
    ap (λ q. (put t virt x m).word q (pg_pte_index v)) (table_of-put t virt x m v o)
    ∙ word-put t virt x m v hvirt hv o

abbrev pub IsPresent : ℕ → ℕ → Paging → Type 0
IsPresent t virt m = bit_and (directory_entry m t virt) addressmask ≢ 0

-- When the page table of virt exists and serves no other part of the address space, `pg_map` puts
-- the address and the flags that it was given into the word of virt's page, and the word of every
-- other page is unchanged.
pub entry-pg_map :
    (heap : PageHeap) (t virt physical supervisor : ℕ) (m : Paging) (v : ℕ)
    → virt < 2 ^ 32
    → v < 2 ^ 32
    → IsPresent t virt m
    → Owns t virt m
    → entry t v (pg_map heap t virt physical supervisor m)
      ≡ (if v / 4096 == virt / 4096 then page_word physical supervisor else entry t v m)
unfolding pg_map entry
entry-pg_map heap t virt physical supervisor m v hvirt hv h o =
    rw (==_false (bit_and (directory_entry m t virt) addressmask) 0 h)
      (entry-put t virt (page_word physical supervisor) m v hvirt hv o)

pub is_absent : ℕ → ℕ → Paging → Bool
is_absent t virt m = bit_and (directory_entry m t virt) addressmask == 0

-- Where the page table for virt serves no other part of the address space, `pg_unmap` clears the
-- word of virt's page and no other, and restores the interrupt flag. Where the directory has no
-- table for virt, every word is unchanged and the interrupts stay disabled.
pub entry-pg_unmap :
    (t virt : ℕ) (m : Paging) (v : ℕ)
    → virt < 2 ^ 32
    → v < 2 ^ 32
    → Owns t virt m
    → (entry t v (pg_unmap t virt m)
        ≡ (if not (is_absent t virt m) && (v / 4096 == virt / 4096) then 0 else entry t v m))
      × ((pg_unmap t virt m).interrupts ≡ (if is_absent t virt m then false else m.interrupts))
unfolding pg_unmap entry is_absent
entry-pg_unmap t virt m v hvirt hv o =
    elim (Bool-cases (bit_and (directory_entry m t virt) addressmask == 0)) [
      | inl e ↦ rw e (refl, refl)
      | inr e ↦ rw e (entry-put t virt 0 m v hvirt hv o, refl)
    ]

-- After `pg_map` into a page table that exists and serves no other part of the address space,
-- `pg_get_physical` gives the address of the physical page, for the page's every address.
pub pg_get_physical-pg_map :
    (heap : PageHeap) (t virt physical supervisor : ℕ) (m : Paging) (v : ℕ)
    → virt < 2 ^ 32
    → v < 2 ^ 32
    → physical < 2 ^ 32
    → IsPresent t virt m
    → Owns t virt m
    → v / 4096 ≡ virt / 4096
    → pg_get_physical t v (pg_map heap t virt physical supervisor m) ≡ physical / 4096 * 4096
unfolding pg_get_physical entry
pg_get_physical-pg_map heap t virt physical supervisor m v hvirt hv hp h o e =
    let found = entry-pg_map heap t virt physical supervisor m v hvirt hv h o in
    let same : (v / 4096 == virt / 4096) ≡ true = ground arith in
    ap (λ x. bit_and x addressmask)
      (found ∙ ap (λ b. if b then page_word physical supervisor else entry t v m) same)
    ∙ page_word-address physical supervisor hp
