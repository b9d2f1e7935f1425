-- ===== src/Paging/Fault/Tables.antt =====
-- The page table that `pg_resolve_fault` of src/kernel/paging.cpp makes where processes share one.
use klos.Base.{
  ℕ, zero, suc, ◌+◌, ◌-◌, ◌*◌, ◌/◌, ◌%◌, ◌^◌, ◌<◌, ◌≡◌, ◌≢◌, refl, sym, ap, subst, ◌∙◌, ◌&&◌, inl,
  inr, true, false, Bool-cases, bit_and, bit_or, ◌||◌, ltb, ◌==◌, if◌then◌else◌, update, upto,
  arith,
}
use klos.Base.Bits.{bit_and_split, bit_or_split, bit_and_low, bit_and-zero, bit_or-zero}
use klos.Paging.{Paging, table_of, pg_pde_index, store}
use klos.Paging.Map.{store_page_ne}
use klos.Paging.Fault.{marked, share_word}

-- A word with bit 1, which allows writing, cleared and bit 8 set, the mark of a page to copy on the first
-- write, if bit 1 was set.
abbrev pub protected : ℕ → ℕ
protected c = if c / 2 % 2 == 1 then c - 2 + 256 * (1 - c / 256 % 2) else c

masked_digit : (r : ℕ) → r < 4 → bit_and r 1 ≡ r % 2
masked_digit r h = bit_and_low 1 r

without_writable : (c : ℕ) → c < 2 ^ 32 → bit_and c 0xFFFFFFFD ≡ c / 4 * 4 + c % 2
without_writable c h =
    let parts : c ≡ c / 4 * 4 + c % 4 = omega arith in
    let high : bit_and (c / 4) 0x3FFFFFFF ≡ c / 4 = bit_and_low 30 (c / 4) ∙ omega arith in
    ap (λ x. bit_and x 0xFFFFFFFD) parts
    ∙ bit_and_split 2 (c / 4) 0x3FFFFFFF (c % 4) 1 (omega arith) (omega arith)
    ∙ omega (arith, high, masked_digit (c % 4))

bit_or-one_digit : (r : ℕ) → r < 2 → bit_or r 1 ≡ 1
bit_or-one_digit zero h = refl
bit_or-one_digit (suc zero) h = refl
bit_or-one_digit (suc (suc r)) h = absurd (omega arith)

bit_or-one : (q : ℕ) → bit_or q 1 ≡ q + (1 - q % 2)
bit_or-one q =
    let parts : q ≡ q / 2 * 2 + q % 2 = omega arith in
    ap (λ x. bit_or x 1) parts
    ∙ bit_or_split 1 (q / 2) 0 (q % 2) 1 (omega arith) (omega arith)
    ∙ omega (arith, bit_or-zero (q / 2), bit_or-one_digit (q % 2))

with_mark : (c : ℕ) → bit_or c 256 ≡ c + 256 * (1 - c / 256 % 2)
with_mark c =
    let parts : c ≡ c / 256 * 256 + c % 256 = omega arith in
    ap (λ x. bit_or x 256) parts
    ∙ bit_or_split 8 (c / 256) 1 (c % 256) 0 (omega arith) (omega arith)
    ∙ omega (arith, bit_or-one (c / 256), bit_or-zero (c % 256))

writable_digit : (r : ℕ) → r < 4 → bit_and r 2 ≡ r / 2 * 2
writable_digit zero h = refl
writable_digit (suc zero) h = refl
writable_digit (suc (suc zero)) h = refl
writable_digit (suc (suc (suc zero))) h = refl
writable_digit (suc (suc (suc (suc r)))) h = absurd (omega arith)

writable_bit : (c : ℕ) → bit_and c 2 ≡ c / 2 % 2 * 2
writable_bit c =
    let parts : c ≡ c / 4 * 4 + c % 4 = omega arith in
    ap (λ x. bit_and x 2) parts
    ∙ bit_and_split 2 (c / 4) 0 (c % 4) 2 (omega arith) (omega arith)
    ∙ omega (arith, bit_and-zero (c / 4), writable_digit (c % 4))

pub marked-protected : (c : ℕ) → c < 2 ^ 32 → marked c ≡ protected c
unfolding marked
marked-protected c h =
    let cleared = without_writable c h in
    let both = with_mark (c / 4 * 4 + c % 2) in
    elim (Bool-cases (c / 2 % 2 == 1)) [
      | inl e ↦
          let set : c / 2 % 2 ≡ 1 = ground arith in
          let test : (bit_and c 2 == 2) ≡ true = ground (arith, writable_bit c) in
          rw (test, e) (ap (λ x. bit_or x 256) cleared ∙ both ∙ omega (arith, set))
      | inr e ↦
          let test : (bit_and c 2 == 2) ≡ false = ground (arith, writable_bit c) in
          rw (test, e) refl
    ]

module _ (other active virt shared page : ℕ) (ne : shared ≢ page) where
  -- The table for virt is at `shared` in the tables at `other`, and at `page` in those at `active`; the pages
  -- of the pointers are others.
  pub record Two (m : Paging) : Type 0 where
    pub from : table_of m other virt ≡ shared
    pub to : table_of m active virt ≡ page
    pub other_shared : (m.table other).tables ≢ shared
    pub other_page : (m.table other).tables ≢ page
    pub active_shared : (m.table active).tables ≢ shared
    pub active_page : (m.table active).tables ≢ page

  abbrev round : ℕ → Paging → Paging
  round i m = share_word other active virt i m

  -- The round with the two pages written out.
  abbrev written : ℕ → Paging → Paging
  written i m = let c = marked (m.word shared i) in store page i c (store shared i c m)

  round-written : (i : ℕ) (m : Paging) → Two m → round i m ≡ written i m
  unfolding share_word
  round-written i m t =
      let c = marked (m.word shared i) in
      let there : table_of (store shared i c m) active virt ≡ page =
        store_page_ne shared i c (m.table active).tables (pg_pde_index virt) m t.active_shared
        ∙ t.to in
      rw t.from (rw there refl)

  written-word :
      (i q j : ℕ) (m : Paging)
      → (written i m).word q j
        ≡ (if (q == shared || q == page) && j == i then marked (m.word shared i) else m.word q j)
  unfolding store update
  written-word i q j m = ground arith

  written-Two : (i : ℕ) (m : Paging) → Two m → Two (written i m)
  unfolding store
  written-Two i m t =
      let c = marked (m.word shared i) in
      let first = store shared i c m in
      record {
        from =
            store_page_ne page i c (m.table other).tables (pg_pde_index virt) first t.other_page
            ∙ store_page_ne shared i c (m.table other).tables (pg_pde_index virt) m t.other_shared
            ∙ t.from;
        to =
            store_page_ne page i c (m.table active).tables (pg_pde_index virt) first t.active_page
            ∙ store_page_ne shared i c (m.table active).tables (pg_pde_index virt) m t.active_shared
            ∙ t.to;
        other_shared = t.other_shared;
        other_page = t.other_page;
        active_shared = t.active_shared;
        active_page = t.active_page;
      }

  -- After n rounds.
  pub rounds-Two : (n : ℕ) (m : Paging) → Two m → Two (upto n round m)
  unfolding upto
  rounds-Two zero m t = t
  rounds-Two (suc n) m t =
      let u = rounds-Two n m t in
      subst Two (sym (round-written n (upto n round m) u)) (written-Two n (upto n round m) u)

  pub rounds-word :
      (n q j : ℕ) (m : Paging)
      → Two m
      → (upto n round m).word q j
        ≡ (if (q == shared || q == page) && ltb j n then marked (m.word shared j) else m.word q j)
  unfolding upto
  rounds-word zero q j m t = ground arith
  rounds-word (suc n) q j m t =
      let k = upto n round m in
      ap (λ x. x.word q j) (round-written n k (rounds-Two n m t))
      ∙ written-word n q j k
      ∙ ground (arith, rounds-word n q j m t, rounds-word n shared n m t)

  pub rounds-table : (n : ℕ) (m : Paging) → (upto n round m).table ≡ m.table
  unfolding upto share_word store
  rounds-table zero m = refl
  rounds-table (suc n) m = rounds-table n m
