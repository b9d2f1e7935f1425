-- ===== src/Gdt.antt =====
-- The descriptor table of src/kernel/gdt.cpp and src/kernel/gdt-internal.h. A write past the array of six
-- descriptors gives `none`.
pub mod Fields
mod Examples
use klos.Base.{
  ℕ, ◌+◌, ◌-◌, ◌*◌, ◌^◌, Option, none, some, ltb, if◌then◌else◌, u16, update, bit_and, bit_or,
  ◌<<<◌, ◌>>>◌, ◌>>=◌,
}

abbrev pub gd_max_entries : ℕ
gd_max_entries = 6

pub record GdtEntry : Type 0 where
  pub limit_low : ℕ
  pub base_low : ℕ
  pub base_mid : ℕ
  pub flags1 : ℕ
  pub flags2 : ℕ
  pub base_high : ℕ

-- The globals `gdt`, `gd_nentries` and the limit in `gdtp`.
pub record Gdt : Type 0 where
  pub gdt : ℕ → GdtEntry
  pub nentries : ℕ
  pub limit : ℕ

-- `gdt[index] = e`
unfoldable pub write_entry : ℕ → GdtEntry → Gdt → Option Gdt
write_entry index e g =
    if ltb index gd_max_entries then some (record g { gdt = update g.gdt index e }) else none

abbrev pub cleared : GdtEntry
cleared = record {
  limit_low = 0;
  base_low = 0;
  base_mid = 0;
  flags1 = 0;
  flags2 = 0;
  base_high = 0;
}

unfoldable pub gd_clear : ℕ → Gdt → Option Gdt
unfolding write_entry
gd_clear index g = write_entry index cleared g

unfoldable pub gd_set_base : (index base : ℕ) → Gdt → Option Gdt
unfolding write_entry
gd_set_base index base g =
    write_entry index
      (record (g.gdt index) {
        base_low = bit_and base 0xFFFF;
        base_mid = bit_and (base >>> 16) 0xFF;
        base_high = bit_and (base >>> 24) 0xFF;
      })
      g

unfoldable pub gd_set_limit : (index limit : ℕ) → Gdt → Option Gdt
unfolding write_entry
gd_set_limit index limit g =
    write_entry index
      (record (g.gdt index) {
        limit_low = bit_and limit 0xFFFF;
        flags2 = bit_or (bit_and (g.gdt index).flags2 0xF0) (bit_and (limit >>> 16) 0x0F);
      })
      g

unfoldable pub gd_set_tss : (index gran avl present dpl busy : ℕ) → Gdt → Option Gdt
unfolding write_entry
gd_set_tss index gran avl present dpl busy g =
    write_entry index
      (record (g.gdt index) {
        flags2 =
            bit_or (bit_or (bit_and (g.gdt index).flags2 0x0F) (bit_and gran 0x01 <<< 7))
              (bit_and avl 0x01 <<< 4);
        flags1 =
            bit_or
              (bit_or (bit_or (bit_or (bit_and present 0x01 <<< 7) (bit_and dpl 0x03 <<< 5)) 0x08)
                (bit_and busy 0x01 <<< 1))
              0x01;
      })
      g

unfoldable pub gd_set_segment : (index gran avl present dpl dtype type : ℕ) → Gdt → Option Gdt
unfolding write_entry
gd_set_segment index gran avl present dpl dtype type g =
    write_entry index
      (record (g.gdt index) {
        flags2 =
            bit_or
              (bit_or (bit_or (bit_and (g.gdt index).flags2 0x0F) (bit_and gran 0x01 <<< 7))
                (0x01 <<< 6))
              (bit_and avl 0x01 <<< 4);
        flags1 =
            bit_or
              (bit_or (bit_or (bit_and present 0x01 <<< 7) (bit_and dpl 0x03 <<< 5))
                (bit_and dtype 0x01 <<< 4))
              (bit_and type 0x0F);
      })
      g

-- The part of `gd_reload` that fills `gdtp`: the size of the table in bytes, less one.
unfoldable pub gd_reload : Gdt → Gdt
gd_reload g = record g { limit = u16 (8 * g.nentries + 2 ^ 16 - 1) }

unfoldable pub gd_add_entry : Gdt → Option (ℕ × Gdt)
unfolding gd_clear
gd_add_entry g = do
  next ← gd_clear g.nentries (record g { nentries = g.nentries + 1 })
  some (g.nentries, next)

-- One of the four descriptors that `setup_gdt` makes: base 0, the largest limit, in pages.
unfoldable pub setup_entry : (index ring type : ℕ) → Gdt → Option Gdt
unfolding gd_add_entry gd_set_base gd_set_limit gd_set_segment
setup_entry index ring type g = do
  (entry, added) ← gd_add_entry g
  based ← gd_set_base index 0x00000000 added
  limited ← gd_set_limit index 0xFFFFFFFF based
  gd_set_segment index 1 0 1 ring 1 type limited

unfoldable pub setup_gdt : Gdt → Option Gdt
unfolding gd_add_entry setup_entry gd_reload
setup_gdt g = do
  (entry, zeroed) ← gd_add_entry (record g { nentries = 0 })
  code ← setup_entry 1 0 10 zeroed
  dat ← setup_entry 2 0 2 code
  user_code ← setup_entry 3 3 10 dat
  user_data ← setup_entry 4 3 2 user_code
  some (gd_reload user_data)
