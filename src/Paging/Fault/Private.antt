-- ===== src/Paging/Fault/Private.antt =====
-- What `give_page`, the end of `pg_resolve_fault` in src/kernel/paging.cpp, leaves to the process.
use klos.Base.{
  ℕ, ◌*◌, ◌/◌, ◌^◌, ◌<◌, ◌≡◌, ◌≢◌, refl, sym, ap, ◌∙◌, inl, inr, ◌&&◌, ltb, ◌==◌, if◌then◌else◌,
  bit_and, Bool-cases, arith,
}
use klos.Memory.{mm_page_allocate}
use klos.Paging.{
  Paging, PageHeap, table_of, pg_pte_index, pg_map, pg_unmap, pg_get_physical, page_word, store,
  addressmask, user,
}
use klos.Paging.Map.{entry, entry-pg_map, pg_get_physical-pg_map}
use klos.Paging.Fault.{Spaces, pager_page, pte_copyonwrite, unshared, freed, copy_frame, give_page}
use klos.Paging.Fault.Places.{
  IsPlace, IsApart, pg_map-active, unmapped-active, remap, entry-remap, store-IsPlace, entry-store,
}
use klos.Paging.Fault.Frames.{copy_frame-copies}

module _ (n other virt : ℕ) (m : Paging) where
  abbrev page : ℕ
  page = table_of m other virt

  abbrev word : ℕ
  word = m.word page (pg_pte_index virt)

  -- A property of both states, the second if n is 1, is one of the state after it.
  freed-either {ℓ} :
      (P : Paging → Type ℓ)
      → P m
      → (n ≡ 1 → P (store page (pg_pte_index virt) (unshared pte_copyonwrite word) m))
      → P (freed n other virt m)
  unfolding freed
  freed-either P kept changed =
      elim (Bool-cases (n == 1 && bit_and word pte_copyonwrite == pte_copyonwrite)) [
        | inl e ↦ rw e (changed (ground arith))
        | inr e ↦ rw e kept
      ]

  freed-active : (freed n other virt m).active ≡ m.active
  unfolding store
  freed-active = freed-either (λ f. f.active ≡ m.active) refl (λ e. refl)

  module _ (a : ℕ) (apart : n ≡ 1 → IsApart a page m) where
    freed-IsPlace : (w : ℕ) → IsPlace a w m → IsPlace a w (freed n other virt m)
    freed-IsPlace w p = freed-either (IsPlace a w) p (λ e.
        store-IsPlace a page (pg_pte_index virt) (unshared pte_copyonwrite word) w m (apart e) p)

    freed-entry : (v : ℕ) → entry a v (freed n other virt m) ≡ entry a v m
    freed-entry v =
        freed-either (λ f. entry a v f ≡ entry a v m) refl
          (λ e.
            entry-store a page (pg_pte_index virt) (unshared pte_copyonwrite word) v m (apart e))

-- The page that the process gets, and whether it is for the kernel only.
abbrev pub new_page : Spaces → ℕ
new_page s = (mm_page_allocate s.stacks).0

abbrev pub supervisor_of : ℕ → ℕ
supervisor_of d = if bit_and d user == 0 then 1 else 0

-- The page of virt is mapped by the active tables, the pager has its window, the page given is neither
-- the page that it replaces nor over 4 GB, and the last sharer's table is apart if it is the only one.
pub record CanCopy (n other virt : ℕ) (s : Spaces) : Type 0 where
  pub place : IsPlace s.paging.active virt s.paging
  pub window : IsPlace s.paging.active pager_page s.paging
  pub not_window : virt / 4096 ≢ pager_page / 4096
  pub fits : new_page s < 2 ^ 32
  pub fresh : bit_and (entry s.paging.active virt s.paging) addressmask ≢ new_page s / 4096 * 4096
  pub apart : n ≡ 1 → IsApart s.paging.active (table_of s.paging other virt) s.paging

abbrev windowed : PageHeap → (p : ℕ) → Paging → ℕ → Paging
windowed heap p f x = pg_map heap x pager_page p 1 f

-- The writes of `give_page` to page tables, as operations on the tables at a.
module _ (heap : PageHeap) (a virt p s : ℕ) (f : Paging) (e : f.active ≡ a) where
  abbrev cleared : ℕ → ℕ → Paging
  cleared x y = pg_unmap y virt (pg_unmap y pager_page (windowed heap p f x))

  abbrev written : ℕ → ℕ → ℕ → Paging
  written x y z = pg_map heap z virt p s (cleared x y)

  module _ (window : IsPlace a pager_page f) (place : IsPlace a virt f) where
    windowed-active : (windowed heap p f a).active ≡ a
    windowed-active = pg_map-active heap a pager_page f window p 1 ∙ e

    written-remap :
        written f.active
          (windowed heap p f f.active).active
          (cleared f.active (windowed heap p f f.active).active).active
        ≡ remap heap a pager_page virt p s f
    written-remap =
        ap
          (λ x.
            written x (windowed heap p f x).active (cleared x (windowed heap p f x).active).active)
          e
        ∙ ap (λ y. written a y (cleared a y).active) windowed-active
        ∙ ap (written a a) (unmapped-active heap a pager_page virt p s f window place ∙ e)

module _ (heap : PageHeap) (n other virt d : ℕ) (s : Spaces) (hvirt : virt < 2 ^ 32)
    (c : CanCopy n other virt s) where
  abbrev active : ℕ
  active = s.paging.active

  abbrev alone : Paging
  alone = freed n other virt s.paging

  alone-place : IsPlace active virt alone
  alone-place = freed-IsPlace n other virt s.paging active c.apart virt c.place

  alone-window : IsPlace active pager_page alone
  alone-window = freed-IsPlace n other virt s.paging active c.apart pager_page c.window

  alone-active : alone.active ≡ active
  alone-active = freed-active n other virt s.paging

  give_page-paging :
      (give_page heap n other virt d s).paging
      ≡ remap heap active pager_page virt (new_page s) (supervisor_of d) alone
  unfolding give_page
  give_page-paging =
      written-remap heap active virt (new_page s) (supervisor_of d) alone alone-active alone-window
        alone-place

  pub give_page-entry :
      (v : ℕ)
      → v < 2 ^ 32
      → entry active v (give_page heap n other virt d s).paging ≡ (
          if v / 4096 == virt / 4096
          then page_word (new_page s) (supervisor_of d)
          else if v / 4096 == pager_page / 4096
          then 0
          else entry active v s.paging)
  give_page-entry v hv =
      ap (entry active v) give_page-paging
      ∙ entry-remap heap active pager_page virt (new_page s) (supervisor_of d) alone alone-window
          alone-place v (omega arith) hvirt hv
      ∙ ap
          (λ w.
            if v / 4096 == virt / 4096
            then page_word (new_page s) (supervisor_of d)
            else if v / 4096 == pager_page / 4096
            then 0
            else w)
          (freed-entry n other virt s.paging active c.apart v)

  -- What the window's page and the page of virt are mapped to during the copy.
  abbrev during : Paging
  during = windowed heap (new_page s) alone active

  window-new_page : pg_get_physical active pager_page during ≡ new_page s / 4096 * 4096
  window-new_page =
      pg_get_physical-pg_map heap active pager_page (new_page s) 1 alone pager_page (omega arith)
        (omega arith) c.fits alone-window.is_present alone-window.owns refl

  page-kept : pg_get_physical active virt during ≡ bit_and (entry active virt s.paging) addressmask
  unfolding pg_get_physical entry
  page-kept =
      let mapped =
        entry-pg_map heap active pager_page (new_page s) 1 alone virt (omega arith) hvirt
          alone-window.is_present alone-window.owns in
      ap (λ w. bit_and w addressmask)
        (rw⁻¹ (freed-entry n other virt s.paging active c.apart virt)
          (ground (arith, mapped, c.not_window)))

  pub give_page-frame :
      (q j : ℕ)
      → (give_page heap n other virt d s).frame q j ≡ (
          if (q == new_page s / 4096 * 4096) && ltb j 1024
          then s.frame (bit_and (entry active virt s.paging) addressmask) j
          else s.frame q j)
  unfolding give_page
  give_page-frame q j =
      ap
        (λ x.
          copy_frame (windowed heap (new_page s) alone x).active virt pager_page
            (windowed heap (new_page s) alone x) s.frame q j)
        alone-active
      ∙ ap (λ y. copy_frame y virt pager_page during s.frame q j)
          (windowed-active heap active virt (new_page s) 0 alone alone-active alone-window
            alone-place)
      ∙ copy_frame-copies active virt pager_page during s.frame q j
          (λ e. c.fresh (sym page-kept ∙ e ∙ window-new_page))
      ∙ rw (window-new_page, page-kept) refl
