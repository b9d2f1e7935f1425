-- ===== src/Ata/Waits.antt =====
-- `ata_read` of src/kernel/ata.cpp returns where the device gets ready, and allocates nothing.
use mathlib.Core.Option.{some-injective, none-ne-some}
use klos.Base.{
  ℕ, zero, suc, ◌+◌, ◌/◌, ◌^◌, ◌<◌, ◌≤◌, ◌≡◌, refl, sym, subst, ◌∙◌, ap, inl, inr, Bool-cases, ◌||◌,
  not, some, List, [], ◌∷◌, ◌==◌, if◌then◌else◌, bit_and, upto, arith,
}
use klos.Base.Text.{codes}
use klos.Console.{Console}
use klos.Console.Write.{OnScreen}
use klos.Console.Total.{Prints, kc_print_string-Prints, kc_print_hex-Prints}
use klos.Ata.{
  Ata, Machine, ata_err, ata_df, read_command, out_all, drq_loop, read_word, transfer,
  report_status, ata_pio_read, ata_read, register_ata_device, probe_drive, setup_ata_controller,
  list_loop, setup_ata_devices,
}

module _ {S V : Type 0} (machine : Machine S) (fuel : ℕ) (top : S → V) where
  open machine use {outb, inb, inw}

  -- The device answers with bytes, gets ready while its status is read as often as the fuel says, and the ports do not
  -- allocate: `top` of the state is kept.
  pub record Ready : Type 0 where
    pub status : (p : ℕ) (m : S) → (inb p m).0 < 2 ^ 8
    pub waits : (status : ℕ) (m : S) → (n : S) × (drq_loop machine fuel status m ≡ some n)
    pub out : (v p : ℕ) (m : S) → top (outb v p m) ≡ top m
    pub read : (p : ℕ) (m : S) → top (inb p m).1 ≡ top m
    pub word : (p : ℕ) (m : S) → top (inw p m).1 ≡ top m

  out_all-top : Ready → (ws : List (ℕ × ℕ)) (m : S) → top (out_all machine ws m) ≡ top m
  unfolding out_all
  out_all-top r [] m = refl
  out_all-top r ((v, p) ∷ ws) m = out_all-top r ws (outb v p m) ∙ r.out v p m

  drq_loop-top :
      Ready → (k status : ℕ) (m n : S) → drq_loop machine k status m ≡ some n → top n ≡ top m
  unfolding drq_loop
  drq_loop-top r zero status m n e = absurd (none-ne-some n e)
  drq_loop-top r (suc k) status m n e = elim (Bool-cases (bit_and status 8 == 0)) [
    | inl again ↦
        let (next, m') = inb 0x1F7 m in drq_loop-top r k next m' n (rw again at e) ∙ r.read 0x1F7 m
    | inr done ↦ ap top (sym (some-injective m n (rw done at e)))
  ]

  transfer-top :
      Ready → (n buffer : ℕ) (s : Ata S) → top (transfer machine n buffer s).rest ≡ top s.rest
  unfolding transfer read_word upto
  transfer-top r zero buffer s = refl
  transfer-top r (suc n) buffer s =
      r.word 0x1F0 (transfer machine n buffer s).rest ∙ transfer-top r n buffer s

  transfer-console : (n buffer : ℕ) (s : Ata S) → (transfer machine n buffer s).console ≡ s.console
  unfolding transfer read_word upto
  transfer-console zero buffer s = refl
  transfer-console (suc n) buffer s = transfer-console n buffer s

  report_status-Prints :
      (rounds status : ℕ) (c : Console)
      → 8 ≤ rounds
      → status < 2 ^ 8
      → OnScreen c
      → Prints (report_status machine rounds status c)
  unfolding report_status
  report_status-Prints rounds status c h b o =
      let (c₁, r₁, o₁) =
        kc_print_string-Prints rounds (codes "Warning: error bit set or device fault\n") c h o in
      let (c₂, r₂, o₂) = kc_print_string-Prints rounds (codes " Status: ") c₁ h o₁ in
      let (c₃, r₃, o₃) = kc_print_hex-Prints status c₂ (omega arith) o₂ in
      let (c₄, r₄, o₄) = kc_print_string-Prints rounds (codes "\n") c₃ h o₃ in
      (c₄, rw (r₁, r₂, r₃) r₄, o₄)

  -- What a read leaves: the cursor on the screen, and no allocation.
  pub ata_read-some :
      (rounds device buffer sector length : ℕ) (s : Ata S)
      → Ready
      → 8 ≤ rounds
      → OnScreen s.console
      → (n : Ata S) × (ata_read machine rounds fuel device buffer sector length s ≡ some n)
        × OnScreen n.console
        × (top n.rest ≡ top s.rest)
  unfolding ata_read ata_pio_read
  ata_read-some rounds device buffer sector length s r h o =
      let sent =
        out_all machine (read_command (s.device s.device_list).device_id sector length) s.rest in
      let (status, m) = inb 0x1F7 sent in
      let failed = not (bit_and status ata_err == 0) || not (bit_and status ata_df == 0) in
      let same : top m ≡ top s.rest =
        r.read 0x1F7 sent
        ∙ out_all-top r (read_command (s.device s.device_list).device_id sector length) s.rest in
      let (n, ready) = r.waits status m in
      let shown : Prints
          (if failed then report_status machine rounds status s.console else some s.console) =
        elim (Bool-cases failed) [
          | inl e ↦ rw e (report_status-Prints rounds status s.console h (r.status 0x1F7 sent) o)
          | inr e ↦ rw e (s.console, refl, o)
        ] in
      let (c, printed, on) = shown in
      let waiting = record s { console = c; rest = n } in
      (
        transfer machine (length / 2) buffer waiting,
        rw (printed, ready) refl,
        subst OnScreen (sym (transfer-console (length / 2) buffer waiting)) on,
        transfer-top r (length / 2) buffer waiting ∙ drq_loop-top r fuel status m n ready ∙ same,
      )

-- `setup_ata_devices` prints nothing.
module _ {S : Type 0} (machine : Machine S) where
  open machine use {inb, outb}

  probe_drive-console :
      (base select id : ℕ) (s : Ata S) → (probe_drive machine base select id s).console ≡ s.console
  unfolding probe_drive register_ata_device
  probe_drive-console base select id s =
      let status = (inb (base + 7) (outb select (base + 6) s.rest)).0 in
      elim (Bool-cases (bit_and status 0x40 == 0)) [ inl e ↦ rw e refl | inr e ↦ rw e refl ]

  controller-console :
      (base : ℕ) (s : Ata S) → (setup_ata_controller machine base s).console ≡ s.console
  unfolding setup_ata_controller
  controller-console base s =
      let (echo, m) = inb (base + 3) (outb 0xBA (base + 3) s.rest) in
      let n = record s { rest = m } in
      elim (Bool-cases (echo == 0xBA)) [
        | inl e ↦ rw e (
            probe_drive-console base 0xB0 1 (probe_drive machine base 0xA0 0 n)
            ∙ probe_drive-console base 0xA0 0 n)
        | inr e ↦ rw e refl
      ]

  list_loop-console :
      (k p : ℕ) (s n : Ata S) → list_loop machine k p s ≡ some n → n.console ≡ s.console
  unfolding list_loop
  list_loop-console zero p s n e = absurd (none-ne-some n e)
  list_loop-console (suc k) p s n e = elim (Bool-cases (p == 0)) [
    | inl done ↦ ap (λ a. a.console) (sym (some-injective s n (rw done at e)))
    | inr on ↦ list_loop-console k (s.device p).next_device s n (rw on at e)
  ]

  pub setup_ata_devices-console :
      (fuel : ℕ) (s n : Ata S) → setup_ata_devices machine fuel s ≡ some n → n.console ≡ s.console
  unfolding setup_ata_devices
  setup_ata_devices-console fuel s n e =
      let first = setup_ata_controller machine 0x1F0 s in
      let both = setup_ata_controller machine 0x170 first in
      list_loop-console fuel both.device_list both n e
      ∙ controller-console 0x170 first
      ∙ controller-console 0x1F0 s
