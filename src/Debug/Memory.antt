-- ===== src/Debug/Memory.antt =====
-- `db_mm_info` of src/kernel/debug.cpp returns.
use klos.Base.{ℕ, ◌+◌, ◌^◌, ◌<◌, ◌≤◌, refl, List, [], ◌∷◌, u32, arith}
use klos.Base.Text.{codes}
use klos.Console.{Console, Argument, number, kc_printf}
use klos.Console.Write.{OnScreen}
use klos.Console.Total.{Prints, Prints-bind}
use klos.Console.Formats.{matches, kc_printf-Prints}
use klos.Memory.{FrameStacks, mm_get_pages_free}
use klos.Debug.{db_mm_info}

pub db_mm_info-Prints :
    (rounds allocated total : ℕ) (stacks : FrameStacks) (c : Console)
    → 8 ≤ rounds
    → allocated < 2 ^ 32
    → total < 2 ^ 32
    → OnScreen c
    → Prints (db_mm_info rounds allocated total stacks c)
unfolding db_mm_info mm_get_pages_free matches
db_mm_info-Prints rounds allocated total stacks c h a t o =
    let (lo, hi) = mm_get_pages_free stacks in
    let first : List Argument = number (u32 (lo + hi)) ∷ number lo ∷ number hi ∷ [] in
    Prints-bind (kc_printf rounds (codes "MEM: %d pages available; ") first c)
      (λ n.
        kc_printf rounds (codes "HEAP: %d of %d bytes used\n")
          (number allocated ∷ number total ∷ []) n)
      (kc_printf-Prints rounds h (codes "MEM: %d pages available; ") first c refl
        (omega arith, (omega arith, (omega arith, tt))) o)
      (λ n on.
        kc_printf-Prints rounds h (codes "HEAP: %d of %d bytes used\n")
          (number allocated ∷ number total ∷ []) n refl (a, (t, tt)) on)
