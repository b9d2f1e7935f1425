-- ===== src/Entry/Stages.antt =====
-- The stages of `main` of src/kernel/main.cpp before the processes: they return, and make no process.
use klos.Base.{ℕ, ◌+◌, ◌^◌, ◌<◌, ◌≤◌, ◌≡◌, refl, sym, subst, some, List, u32, upto}
use klos.Base.Text.{codes}
use klos.Console.{Console, setup_console, kc_set_text_base}
use klos.Console.Write.{OnScreen}
use klos.Console.Scroll.{AreBytes}
use klos.Console.Total.{kc_print_string-Prints}
use klos.Console.Formats.{setup_console-OnScreen}
use klos.Debug.Memory.{db_mm_info-Prints}
use klos.Gdt.{
  Gdt, setup_gdt, setup_entry, gd_add_entry, gd_set_base, gd_set_limit, gd_set_tss, gd_set_segment,
  gd_clear, write_entry, gd_reload,
}
use klos.Interrupt.{setup_interrupts}
use klos.Process.{Processes, null}
use klos.Process.Lives.{Services}
use klos.Process.Setup.{setup_process}
use klos.Ata.{Machine}
use klos.Ata.Devices.{Allocates, setup_ata_devices-found}
use klos.Ata.Waits.{setup_ata_devices-console}
use klos.Entry.Costs.{Unused, kbrk_rounds}
use klos.Entry.{
  Parts, Image, System, ata_of, with_ata, on_rest, kernel_last_page, print, start_processor,
  start_memory, move_text, start_processing, start_devices,
}

kc_set_text_base-OnScreen :
    (base : ℕ) (c : Console) → OnScreen c → OnScreen (kc_set_text_base base c)
unfolding kc_set_text_base AreBytes
kc_set_text_base-OnScreen base c o = record { x_lt = o.x_lt; y_lt = o.y_lt; bytes = o.bytes }

setup_gdt-some : (g : Gdt) → (g' : Gdt) × (setup_gdt g ≡ some g') × (g'.nentries ≡ 5)
unfolding setup_gdt setup_entry gd_add_entry gd_set_base gd_set_limit gd_set_segment gd_clear
    write_entry gd_reload
setup_gdt-some g = (_, refl, refl)

-- A table with five descriptors has room for that of the task state.
Described : (tss size : ℕ) → Processes → Gdt → Type 0
Described tss size t g =
    (g' : Gdt) × (setup_process tss size t g
      ≡ some (5, record t { root = null; current = null }, g'))

room_for_task :
    (tss size : ℕ) (t : Processes) (g : Gdt) → Described tss size t (record g { nentries = 5 })
unfolding Described setup_process gd_add_entry gd_set_base gd_set_limit gd_set_tss gd_clear
    write_entry
room_for_task tss size t g = (_, refl)

setup_process-some :
    (tss size : ℕ) (t : Processes) (g : Gdt) → g.nentries ≡ 5 → Described tss size t g
setup_process-some tss size t g e =
    subst (λ n. Described tss size t (record g { nentries = n })) (sym e)
      (room_for_task tss size t g)

module _ {S : Type 0} (parts : Parts S) where
  -- The free pages and the heap are set up.
  abbrev pub ready : Image → S → S
  ready image r =
      parts.setup_heap 0xC03FB000 (
        parts.setup_memory_manager (u32 (kernel_last_page image.end_of_kernel + 0x4000)) 0x1000000
          r)

  -- The text memory is mapped, and the first page table is gone.
  abbrev pub moved : S → S
  moved r =
      let n = parts.pg_map (parts.pg_kernel r) 0xC2000000 0xB8000 1 r in
      parts.pg_remove_pagetable (parts.pg_kernel n) 0 n

module _ {S : Type 0} (parts : Parts S) (services : Services S) (machine : Machine S)
    (image : Image) (rounds fuel : ℕ) (h : 8 ≤ rounds) where
  print-some :
      (string : List ℕ) (s : System S)
      → OnScreen s.console
      → (c : Console) × (print parts services machine image rounds fuel string s
          ≡ some (record s { console = c }))
        × OnScreen c
  unfolding print
  print-some string s o =
      let (c, run, on) = kc_print_string-Prints rounds string s.console h o in (c, rw run refl, on)

  pub start_processor-some :
      (s : System S)
      → AreBytes s.console
      → (n : System S) × (start_processor parts services machine image rounds fuel s ≡ some n)
        × OnScreen n.console
        × (n.gdt.nentries ≡ 5)
        × (n.kernel.processes ≡ s.kernel.processes)
        × (n.device_list ≡ s.device_list)
        × (n.kernel.rest ≡ parts.setup_paging 0xC03FC000 0xC03FD000 s.kernel.rest)
  unfolding start_processor
  start_processor-some s b =
      let on = setup_console-OnScreen s.console b in
      let s₀ = record s { console = setup_console s.console } in
      let (c₁, r₁, o₁) = print-some (codes "Starting KlOS...\n\n") s₀ on in
      let s₁ = record s { console = c₁ } in
      let (c₂, r₂, o₂) = print-some (codes "Replacing descriptor table...") s₁ o₁ in
      let (g, made, five) = setup_gdt-some s.gdt in
      let s₂ = record s { console = c₂; gdt = g } in
      let (c₃, r₃, o₃) = print-some (codes "\tsuccess\n") s₂ o₂ in
      let s₃ = record s₂ { console = c₃ } in
      let (c₄, r₄, o₄) = print-some (codes "Setting up paging system...") s₃ o₃ in
      let s₄ = on_rest (parts.setup_paging 0xC03FC000 0xC03FD000) (record s₃ { console = c₄ }) in
      let (c₅, r₅, o₅) = print-some (codes "\tsuccess\n") s₄ o₄ in
      let s₅ = record s₄ { console = c₅ } in
      let (c₆, r₆, o₆) = print-some (codes "Setting up interrupt handler...") s₅ o₅ in
      let s₆ = record s₅ {
        console = c₆;
        interrupts = setup_interrupts image.routines s.interrupts;
      } in
      let (c₇, r₇, o₇) = print-some (codes "\tsuccess\n") s₆ o₆ in
      (record s₆ { console = c₇ }, rw (r₁, r₂, made, r₃, r₄, r₅, r₆) r₇, o₇, five, refl, refl, refl)

  -- What the stages between keep.
  pub record Kept (s n : System S) : Type 0 where
    pub on : OnScreen n.console
    pub gdt : n.gdt ≡ s.gdt
    pub processes : n.kernel.processes ≡ s.kernel.processes
    pub devices : n.device_list ≡ s.device_list

  pub start_memory-some :
      (s : System S)
      → OnScreen s.console
      → (n : System S) × (start_memory parts services machine image rounds fuel s ≡ some n)
        × Kept s n
        × (n.kernel.rest ≡ ready parts image s.kernel.rest)
  unfolding start_memory
  start_memory-some s o =
      let first = u32 (kernel_last_page image.end_of_kernel + 0x4000) in
      let (c₁, r₁, o₁) = print-some (codes "Setting up memory manager...") s o in
      let s₁ =
        on_rest (λ r. parts.setup_heap 0xC03FB000 (parts.setup_memory_manager first 0x1000000 r))
          (record s { console = c₁ }) in
      let (c₂, r₂, o₂) = print-some (codes "\tsuccess\n") s₁ o₁ in
      (
        record s₁ { console = c₂ },
        rw r₁ r₂,
        record { on = o₂; gdt = refl; processes = refl; devices = refl },
        refl,
      )

  pub move_text-some :
      (s : System S)
      → OnScreen s.console
      → (n : System S) × (move_text parts services machine image rounds fuel s ≡ some n)
        × Kept s n
        × (n.kernel.rest ≡ moved parts s.kernel.rest)
  unfolding move_text
  move_text-some s o =
      let (c₁, r₁, o₁) = print-some (codes "Mapping 0xC2000000\n") s o in
      let s₁ =
        on_rest (λ r. parts.pg_map (parts.pg_kernel r) 0xC2000000 0xB8000 1 r)
          (record s { console = c₁ }) in
      let (c₂, r₂, o₂) = print-some (codes "Resetting text base\n") s₁ o₁ in
      let s₂ = record s₁ { console = kc_set_text_base 0xC2000000 c₂ } in
      let (c₃, r₃, o₃) =
        print-some (codes "Removing pagetable 0x0\n") s₂
          (kc_set_text_base-OnScreen 0xC2000000 c₂ o₂) in
      (
        on_rest (λ r. parts.pg_remove_pagetable (parts.pg_kernel r) 0 r)
            (record s₂ { console = c₃ }),
        rw (r₁, r₂, r₃) refl,
        record { on = o₃; gdt = refl; processes = refl; devices = refl },
        refl,
      )

  pub start_processing-some :
      (s : System S)
      → OnScreen s.console
      → s.gdt.nentries ≡ 5
      → (n : System S) × (start_processing parts services machine image rounds fuel s ≡ some n)
        × OnScreen n.console
        × (n.kernel.processes ≡ record s.kernel.processes { root = null; current = null })
        × (n.device_list ≡ s.device_list)
        × (n.kernel.rest ≡ s.kernel.rest)
  unfolding start_processing Described
  start_processing-some s o five =
      let (c₁, r₁, o₁) = print-some (codes "Initializing processing...") s o in
      let (g, made) =
        setup_process-some image.pr_tss image.sizeof_tss s.kernel.processes s.gdt five in
      let s₁ = record s {
        console = c₁;
        gdt = g;
        kernel = record s.kernel {
          processes = record s.kernel.processes { root = null; current = null };
        };
      } in
      let (c₂, r₂, o₂) = print-some (codes "\tsuccess\n") s₁ o₁ in
      (record s₁ { console = c₂ }, rw (r₁, made) r₂, o₂, refl, refl, refl)

  pub start_devices-some :
      {V : Type 0} (view : S → V) (Room Held : ℕ → V → Type 0) (echo : ℕ → ℕ) (status : ℕ → ℕ → ℕ)
      (s : System S)
      → Allocates machine view Room Held echo status
      → Unused parts services view Room Held
      → Room 44 (view s.kernel.rest)
      → 4 < fuel
      → OnScreen s.console
      → s.device_list ≡ null
      → ((r : S) → (((parts.report r).0).0 < 2 ^ 32) × (((parts.report r).0).1 < 2 ^ 32))
      → (n : System S) × (start_devices parts services machine image rounds fuel s ≡ some n)
        × OnScreen n.console
        × (n.kernel.processes ≡ s.kernel.processes)
        × Room 10 (view n.kernel.rest)
  unfolding start_devices
  start_devices-some view Room Held echo status s a costs room enough o none_yet words =
      let devices =
        setup_ata_devices-found machine view Room Held echo status fuel 40 (ata_of s) a room
          none_yet enough in
      let d = devices.0 in
      let found = devices.2 in
      let grow = kbrk_rounds parts services view Room Held in
      let left = grow 30 10 d.rest costs devices.5 in
      let same = setup_ata_devices-console machine fuel (ata_of s) d found in
      let s₁ = on_rest (upto 30 (λ i r. parts.kbrk r)) (with_ata d s) in
      let (c₁, r₁, o₁) =
        print-some (codes "\n\n***********************************\n\n") s₁
          (subst OnScreen (sym same) o) in
      let s₂ = record s₁ { console = c₁ } in
      let (sizes, stacks) = parts.report s₂.kernel.rest in
      let small = words s₂.kernel.rest in
      let (c₂, r₂, o₂) = db_mm_info-Prints rounds sizes.0 sizes.1 stacks c₁ h small.0 small.1 o₁ in
      (record s₂ { console = c₂ }, rw (found, r₁, r₂) refl, o₂, refl, left)
