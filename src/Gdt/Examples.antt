-- ===== src/Gdt/Examples.antt =====
-- The descriptors of the kernel's table.
use klos.Base.{◌≡◌, refl, none, some, ◌>>=◌, update}
use klos.Gdt.{Gdt, cleared, gd_add_entry, setup_gdt}

abbrev empty_table : Gdt
empty_table = record { gdt = λ i. cleared; nentries = 0; limit = 0 }

-- The code segment of user programs after `setup_gdt`.
user_code :
    (setup_gdt empty_table >>= λ g. some (g.gdt 3))
    ≡ some (record {
      limit_low = 0xFFFF;
      base_low = 0;
      base_mid = 0;
      flags1 = 0xFA;
      flags2 = 0xCF;
      base_high = 0;
    })
unfolding setup_gdt update
user_code = refl

-- A seventh descriptor does not fit.
seventh_entry : gd_add_entry (record empty_table { nentries = 6 }) ≡ none
unfolding gd_add_entry
seventh_entry = refl
