-- ===== src/Process/Setup.antt =====
-- The descriptor of the task state that `setup_process` of src/kernel/process.cpp makes.
use klos.Base.{ℕ, ◌-◌, Option, some, ◌>>=◌}
use klos.Gdt.{Gdt, gd_add_entry, gd_set_base, gd_set_limit, gd_set_tss, gd_reload}
use klos.Process.{null, Processes}

-- `pr_tss_desc`, the processes and the table; `pr_tss` and `size` are the address of the task state and
-- its size.
unfoldable pub setup_process : (pr_tss size : ℕ) → Processes → Gdt → Option (ℕ × Processes × Gdt)
setup_process pr_tss size t g = do
  (index, g₁) ← gd_add_entry g
  g₂ ← gd_set_base index pr_tss g₁
  g₃ ← gd_set_limit index (size - 1) g₂
  g₄ ← gd_set_tss index 0 1 1 3 0 g₃
  some (index, record t { root = null; current = null }, gd_reload g₄)
