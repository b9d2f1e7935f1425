-- ===== src/Entry.antt =====
-- The start of the kernel in src/kernel/main.cpp, over the states of all its parts, and the routine that
-- the timer runs. Paging, the free pages and the heap work on each other, so that their state is one
-- parameter, `S`.
pub mod Costs
pub mod Stages
pub mod Apps
pub mod Ticks
mod Examples
use klos.Base.{ℕ, ◌+◌, true, Option, some, List, u32, sub32, upto, bit_and, ◌<<<◌, ◌>>=◌}
use klos.Base.Text.{codes}
use klos.Console.{Console, setup_console, kc_print_string, kc_set_text_base}
use klos.Debug.{db_mm_info}
use klos.Gdt.{Gdt, setup_gdt}
use klos.Memory.{FrameStacks}
use klos.Process.{returned, halted, resumed, pr_state_running, pr_schedule}
use klos.Process.Lives.{
  Services, Kernel, set_process, pr_create_process, pr_fork_process, pr_resume,
}
use klos.Process.Setup.{setup_process}
use klos.Interrupt.{Interrupts, Routines, setup_interrupts, is_install_hook}
use klos.Interrupt.Handlers.{Ending, ending_of, Calls, is_ctimer}
use klos.Symbol.{Symbols}
use klos.Ata.{Ata, AtaDevice, Machine, setup_ata_devices, ata_read}

-- What `main` calls of paging, of the free pages and of the heap. `report` gives what
-- `kh_get_memory_info` and the stacks of free pages say.
pub record Parts (S : Type 0) : Type 0 where
  pub setup_paging : (page_directory page_tables : ℕ) → S → S
  pub setup_memory_manager : (first_free_page memory_size : ℕ) → S → S
  pub setup_heap : (heap_table : ℕ) → S → S
  pub pg_kernel : S → ℕ
  pub pg_map : (t virt physical supervisor : ℕ) → S → S
  pub pg_remove_pagetable : (t virt : ℕ) → S → S
  pub mm_page_allocate : S → ℕ × S
  pub kbrk : S → S
  pub report : S → (ℕ × ℕ) × FrameStacks

-- What the linker decides: the addresses of routines and of the task state with its size, and the end
-- of the kernel.
pub record Image : Type 0 where
  pub routines : Routines
  pub schedule : ℕ
  pub pr_tss : ℕ
  pub sizeof_tss : ℕ
  pub end_of_kernel : ℕ

-- The parts of the kernel; `rest` of the kernel's processes is the state of paging, of the free pages, of the
-- heap and of the ports.
pub record System (S : Type 0) : Type 0 where
  pub console : Console
  pub gdt : Gdt
  pub interrupts : Interrupts
  pub kernel : Kernel S
  pub device : ℕ → AtaDevice
  pub device_list : ℕ
  pub byte : ℕ → ℕ

-- The disk driver's part of the state, and the state with another such part.
abbrev pub ata_of : {S : Type 0} → System S → Ata S
ata_of s = record {
  device = s.device;
  device_list = s.device_list;
  byte = s.byte;
  console = s.console;
  rest = s.kernel.rest;
}

abbrev pub with_ata : {S : Type 0} → Ata S → System S → System S
with_ata a s = record s {
  device = a.device;
  device_list = a.device_list;
  byte = a.byte;
  console = a.console;
  kernel = record s.kernel { rest = a.rest };
}

abbrev pub on_rest : {S : Type 0} → (S → S) → System S → System S
on_rest f s = record s { kernel = record s.kernel { rest = f s.kernel.rest } }

-- `kernel_last_page`
unfoldable pub kernel_last_page : ℕ → ℕ
kernel_last_page end_of_kernel = u32 (bit_and (sub32 end_of_kernel 0xBFF00000) 0xFFFFF000 + 0x1000)

module _ {S : Type 0} (parts : Parts S) (services : Services S) (machine : Machine S)
    (image : Image) (rounds fuel : ℕ) where
  open parts use {
    setup_paging, setup_memory_manager, setup_heap, pg_kernel, pg_map, pg_remove_pagetable,
    mm_page_allocate, kbrk, report,
  }

  unfoldable pub print : List ℕ → System S → Option (System S)
  print string s = kc_print_string rounds string s.console >>= λ c. some (record s { console = c })

  -- From the console to the interrupts.
  unfoldable pub start_processor : System S → Option (System S)
  start_processor s = do
    s₁ ← print (codes "Starting KlOS...\n\n") (record s { console = setup_console s.console })
    s₂ ← print (codes "Replacing descriptor table...") s₁
    g ← setup_gdt s₂.gdt
    s₃ ← print (codes "\tsuccess\n") (record s₂ { gdt = g })
    s₄ ← print (codes "Setting up paging system...") s₃
    s₅ ← print (codes "\tsuccess\n") (on_rest (setup_paging 0xC03FC000 0xC03FD000) s₄)
    s₆ ← print (codes "Setting up interrupt handler...") s₅
    print (codes "\tsuccess\n")
        (record s₆ { interrupts = setup_interrupts image.routines s₆.interrupts })

  -- The free pages and the heap.
  unfoldable pub start_memory : System S → Option (System S)
  start_memory s = do
    s₁ ← print (codes "Setting up memory manager...") s
    let first = u32 (kernel_last_page image.end_of_kernel + 0x4000)
    let filled = on_rest (λ r. setup_heap 0xC03FB000 (setup_memory_manager first 0x1000000 r)) s₁
    print (codes "\tsuccess\n") filled

  -- The text memory is mapped above the kernel, and the pages from 0 on are no longer mapped.
  unfoldable pub move_text : System S → Option (System S)
  move_text s = do
    s₁ ← print (codes "Mapping 0xC2000000\n") s
    let mapped = on_rest (λ r. pg_map (pg_kernel r) 0xC2000000 0xB8000 1 r) s₁
    s₂ ← print (codes "Resetting text base\n") mapped
    s₃ ←
        print (codes "Removing pagetable 0x0\n")
          (record s₂ { console = kc_set_text_base 0xC2000000 s₂.console })
    some (on_rest (λ r. pg_remove_pagetable (pg_kernel r) 0 r) s₃)

  unfoldable pub start_processing : System S → Option (System S)
  start_processing s = do
    s₁ ← print (codes "Initializing processing...") s
    (index, t, g) ← setup_process image.pr_tss image.sizeof_tss s₁.kernel.processes s₁.gdt
    print (codes "\tsuccess\n") (record s₁ { gdt = g; kernel = record s₁.kernel { processes = t } })

  -- The disk, and thirty pages for the heap.
  unfoldable pub start_devices : System S → Option (System S)
  start_devices s = do
    a ← setup_ata_devices machine fuel (ata_of s)
    let grown = on_rest (upto 30 (λ i r. kbrk r)) (with_ata a s)
    s₁ ← print (codes "\n\n***********************************\n\n") grown
    let (sizes, stacks) = report s₁.kernel.rest
    c ← db_mm_info rounds sizes.0 sizes.1 stacks s₁.console
    some (record s₁ { console = c })

  -- A page for the program, in its table and in the kernel's.
  unfoldable pub map_page : (table i : ℕ) → S → S
  map_page table i r =
      let (page, r₁) = mm_page_allocate r in
      let r₂ = pg_map table (i <<< 12) page 0 r₁ in pg_map (pg_kernel r₂) (i <<< 12) page 1 r₂

  -- The first process, its program, and the process that it is copied to.
  unfoldable pub start_apps : System S → Option (ℕ × ℕ × System S)
  start_apps s = do
    (app1, k) ← pr_create_process services fuel s.kernel
    let table = (k.processes.at app1).page_table
    let mapped = on_rest (upto 2 (map_page table)) (record s { kernel = k })
    a ← ata_read machine rounds fuel 0 0 0 8000 (ata_of mapped)
    let loaded = with_ata a mapped
    (app2, forked) ← pr_fork_process services fuel app1 loaded.kernel
    some (app1, app2, record loaded { kernel = forked })

  -- `main` up to `asm("sti")`: the two processes and the state. `setup_vfs` does nothing.
  unfoldable pub start : System S → Option (ℕ × ℕ × System S)
  start s = do
    s₁ ← start_processor s
    s₂ ← start_memory s₁
    s₃ ← move_text s₂
    s₄ ← start_processing s₃
    s₅ ← start_devices s₄
    (app1, app2, s₆) ← start_apps s₅
    some (
      app1,
      app2,
      record s₆ {
        interrupts = record (is_install_hook image.schedule s₆.interrupts) { enabled = true };
      },
    )

  -- `app->state = pr_state_running;`
  unfoldable pub run_app : (app : ℕ) → System S → System S
  run_app app s =
      let t = s.kernel.processes in
      record s {
        kernel = record s.kernel {
          processes = set_process app (record (t.at app) { state = pr_state_running }) t;
        };
      }

  -- `main` up to its endless loop.
  unfoldable pub main : System S → Option (System S)
  main s = start s >>= λ (app1, app2, n). some (run_app app2 (run_app app1 n))

  -- `schedule`, with what `pr_schedule` does where it goes on with a process.
  unfoldable pub schedule : Calls S → Option (Ending × Calls S)
  schedule s = pr_schedule fuel s.kernel.processes >>= λ o. some (
    ending_of o,
    elim o [
      | returned ↦ s
      | halted ↦ s
      | resumed p ↦ record s { kernel = pr_resume services p s.kernel }
    ],
  )

  -- A tick of the timer; `time` is that of the handler.
  unfoldable pub tick :
      (sm_table : Symbols (List ℕ)) (entries time : ℕ) → System S → Option (Ending × Calls S)
  tick sm_table entries time s =
      is_ctimer services sm_table rounds entries fuel s.interrupts.sched_hook (λ hook. schedule)
        (record { console = s.console; kernel = s.kernel; ports = s.interrupts.ports; time = time })
