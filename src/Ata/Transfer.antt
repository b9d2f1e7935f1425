-- ===== src/Ata/Transfer.antt =====
-- The data that `ata_pio_read` of src/kernel/ata.cpp puts into the buffer.
use klos.Base.{
  ℕ, zero, suc, ◌+◌, ◌-◌, ◌*◌, ◌/◌, ◌%◌, ◌<◌, ◌≤◌, ◌≡◌, ◌≢◌, refl, sym, ◌∙◌, inl, inr, Bool-cases,
  ◌&&◌, not, some, ltb, ◌==◌, ==_false, if◌then◌else◌, update, upto, bit_and, arith,
}
use klos.Base.Bits.{bit_and_low}
use klos.Ata.{
  Ata, Machine, ata_err, ata_df, ata_drq, read_command, out_all, drq_loop, read_word, transfer,
  ata_pio_read,
}

-- Byte q of the words w from the buffer on, the low byte of each word first.
unfoldable pub byte_at : (ℕ → ℕ) → ℕ → ℕ
byte_at w q = if q % 2 == 0 then w (q / 2) % 256 else w (q / 2) / 256 % 256

-- Memory with the bytes of n words at the buffer.
unfoldable pub filled : (n buffer : ℕ) → (ℕ → ℕ) → (ℕ → ℕ) → ℕ → ℕ
unfolding byte_at
filled n buffer w byte q =
    if not (ltb q buffer) && ltb q (buffer + 2 * n) then byte_at w (q - buffer) else byte q

filled_step :
    (n buffer q x : ℕ) (w byte : ℕ → ℕ)
    → x ≡ filled n buffer w byte q
    → (if q == buffer + n * 2 + 1
        then w n / 256 % 256
        else (if q == buffer + n * 2 then w n % 256 else x))
      ≡ filled (suc n) buffer w byte q
unfolding filled
filled_step n buffer q x w byte e =
    let low : q ≡ buffer + n * 2 → (q - buffer) / 2 ≡ n = λ h. omega arith in
    let high : q ≡ buffer + n * 2 + 1 → (q - buffer) / 2 ≡ n = λ h. omega arith in
    elim (Bool-cases (q == buffer + n * 2 + 1)) [
      | inl h ↦ rw h (ground (arith, high))
      | inr h ↦ rw h (ground (arith, low))
    ]

module _ {S : Type 0} (machine : Machine S) where
  open machine use {inb, inw}

  -- From the state `k 0` on, the data port gives the words w.
  pub record Delivers (w : ℕ → ℕ) (k : ℕ → S) : Type 0 where
    pub next : (i : ℕ) → inw 0x1F0 (k i) ≡ (w i, k (suc i))

  read_word-byte :
      (n buffer q : ℕ) (w : ℕ → ℕ) (k : ℕ → S) (s : Ata S)
      → Delivers w k
      → s.rest ≡ k n
      → (read_word machine (buffer + n * 2) (buffer + n * 2 + 1) s).byte q ≡ (
          if q == buffer + n * 2 + 1
          then w n / 256 % 256
          else (if q == buffer + n * 2 then w n % 256 else s.byte q))
  unfolding read_word update
  read_word-byte n buffer q w k s d at =
      rw (at, d.next n, bit_and_low 8 (w n), bit_and_low 8 (w n / 256)) refl

  read_word-rest :
      (n low high : ℕ) (w : ℕ → ℕ) (k : ℕ → S) (s : Ata S)
      → Delivers w k
      → s.rest ≡ k n
      → (read_word machine low high s).rest ≡ k (suc n)
  unfolding read_word
  read_word-rest n low high w k s d at = rw (at, d.next n) refl

  transfer_step :
      (n buffer : ℕ) (w : ℕ → ℕ) (k : ℕ → S) (s : Ata S)
      → Delivers w k
      → s.rest ≡ k 0
      → ((transfer machine n buffer s).rest ≡ k n)
        × ((q : ℕ) → (transfer machine n buffer s).byte q ≡ filled n buffer w s.byte q)
  unfolding transfer filled upto
  transfer_step zero buffer w k s d at = (at, λ q. ground arith)
  transfer_step (suc n) buffer w k s d at =
      let (rest, bytes) = transfer_step n buffer w k s d at in
      let t = transfer machine n buffer s in
      (
        read_word-rest n (buffer + n * 2) (buffer + n * 2 + 1) w k t d rest,
        λ q.
            read_word-byte n buffer q w k t d rest
            ∙ filled_step n buffer q (t.byte q) w s.byte (bytes q),
      )

  transfer-console : (n buffer : ℕ) (s : Ata S) → (transfer machine n buffer s).console ≡ s.console
  unfolding transfer read_word upto
  transfer-console zero buffer s = refl
  transfer-console (suc n) buffer s = transfer-console n buffer s

  -- The answers to reads of the status from `r 0` on: busy, and after d reads ready with data and
  -- without an error; then the words w.
  pub record Answers (d : ℕ) (status : ℕ → ℕ) (r : ℕ → S) : Type 0 where
    pub read : (i : ℕ) → inb 0x1F7 (r i) ≡ (status i, r (suc i))
    pub busy : (i : ℕ) → i < d → bit_and (status i) ata_drq ≡ 0
    pub ready : bit_and (status d) ata_drq ≢ 0

  drq_loop-Answers :
      (fuel i d : ℕ) (status : ℕ → ℕ) (r : ℕ → S)
      → Answers d status r
      → i ≤ d
      → d - i < fuel
      → drq_loop machine fuel (status i) (r (suc i)) ≡ some (r (suc d))
  unfolding drq_loop
  drq_loop-Answers zero i d status r a le h = absurd (omega arith)
  drq_loop-Answers (suc fuel) i d status r a le h = elim (Bool-cases (i == d)) [
    | inl e ↦
        let same : i ≡ d = ground arith in
        rw (same, ==_false (bit_and (status d) ata_drq) 0 a.ready) refl
    | inr e ↦
        rw (a.busy i (ground arith), a.read (suc i))
          (drq_loop-Answers fuel (suc i) d status r a (ground arith) (ground arith))
  ]

  -- Where the device answers without an error within the fuel, `ata_pio_read` returns; the words that
  -- the device delivers fill the buffer, half as many as the length, the low byte of each first;
  -- no other byte is written, and nothing is printed.
  pub ata_pio_read-filled :
      (rounds fuel device buffer sector length d : ℕ) (status w : ℕ → ℕ) (r k : ℕ → S) (s : Ata S)
      → r 0 ≡ out_all machine (read_command (s.device device).device_id sector length) s.rest
      → Answers d status r
      → d < fuel
      → bit_and (status 0) ata_err ≡ 0
      → bit_and (status 0) ata_df ≡ 0
      → k 0 ≡ r (suc d)
      → Delivers w k
      → (s' : Ata S) × (ata_pio_read machine rounds fuel device buffer sector length s ≡ some s')
        × ((q : ℕ) → s'.byte q ≡ filled (length / 2) buffer w s.byte q)
        × (s'.rest ≡ k (length / 2))
        × (s'.console ≡ s.console)
  unfolding ata_pio_read
  ata_pio_read-filled rounds fuel device buffer sector length d status w r k s e a h err df at del =
      let m = record s { console = s.console; rest = r (suc d) } in
      let (rest, bytes) = transfer_step (length / 2) buffer w k m del (sym at) in
      let loop = drq_loop-Answers fuel 0 d status r a (omega arith) (omega arith) in
      (
        transfer machine (length / 2) buffer m,
        rw (sym e, a.read 0, err, df, loop) refl,
        bytes,
        rest,
        transfer-console (length / 2) buffer m,
      )
