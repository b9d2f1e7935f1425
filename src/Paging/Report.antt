-- ===== src/Paging/Report.antt =====
-- What src/kernel/paging.cpp prints about an address.
use klos.Base.{ℕ, Option, [], ◌∷◌}
use klos.Base.Text.{codes}
use klos.Console.{Console, number, string}
use klos.Debug.{print_all}
use klos.Paging.{Paging, directory_entry}

unfoldable pub pg_debug : (rounds virt : ℕ) → Paging → Console → Option Console
pg_debug rounds virt m c =
    print_all rounds
      (string (codes "Debugging information for: ")
        ∷ number virt
        ∷ string (codes "\n")
        ∷ string (codes "\tDirectory(virt) = ")
        ∷ number (directory_entry m m.active virt)
        ∷ string (codes "\n")
        ∷ [])
      c
