-- ===== src/Entry/Ticks.antt =====
-- What the timer does while `main` of src/kernel/main.cpp ends: before and after the processes are
-- marked as running.
use klos.Base.{ℕ, ◌^◌, ◌≤◌, ◌<◌, ◌≡◌, ◌≢◌, ltb, if◌then◌else◌}
use klos.Console.Scroll.{AreBytes}
use klos.Process.{null, pr_state_running, Processes}
use klos.Process.Lives.{Services, set_process}
use klos.Ata.{Machine}
use klos.Ata.Devices.{Allocates}
use klos.Ata.Waits.{Ready}
use klos.Entry.{Parts, Image, System, schedule}
use klos.Entry.Costs.{Unused}
use klos.Entry.Stages.{ready}

-- The machine has just been turned on: no device is listed, the text memory holds bytes, and the set-up of
-- paging, of the free pages and of the heap leaves room in the heap for the 46 calls that follow.
pub record Initial {S V : Type 0} (parts : Parts S) (image : Image) (view : S → V)
    (Room : ℕ → V → Type 0) (s : System S) : Type 0 where
  pub bytes : AreBytes s.console
  pub devices : s.device_list ≡ null
  pub room :
      Room 46 (view (ready parts image (parts.setup_paging 0xC03FC000 0xC03FD000 s.kernel.rest)))

-- The parts behave: while it has room the heap gives unused addresses, the disk gets ready, and reports
-- are words.
pub record Behaves {S V : Type 0} (parts : Parts S) (services : Services S) (machine : Machine S)
    (image : Image) (rounds fuel : ℕ) (view : S → V) (Room Held : ℕ → V → Type 0) (echo : ℕ → ℕ)
    (status : ℕ → ℕ → ℕ) : Type 0 where
  pub tabs : 8 ≤ rounds
  pub enough : 4 < fuel
  pub hook : image.schedule ≢ 0
  pub unused : Unused parts services view Room Held
  pub drives : Allocates machine view Room Held echo status
  pub ready : Ready machine fuel view
  pub words : (r : S) → (((parts.report r).0).0 < 2 ^ 32) × (((parts.report r).0).1 < 2 ^ 32)

-- The processes after both have been marked as running.
abbrev running : ℕ → Processes → Processes
running p t = set_process p (record (t.at p) { state = pr_state_running }) t

-- The first of the two.
abbrev pub head_of : (t : Processes) (app1 app2 : ℕ) → ℕ
head_of t app1 app2 = if ltb (t.at app2).pid t.next_pid then app2 else app1
