-- ===== src/Ata/Devices.antt =====
-- The list of devices that `setup_ata_devices` of src/kernel/ata.cpp makes.
use klos.Base.{
  ℕ, zero, suc, ◌+◌, ◌*◌, ◌/◌, ◌%◌, ◌<◌, ◌≤◌, ◌≡◌, ◌≢◌, refl, sym, subst, ap, ◌∙◌, inl, inr,
  Bool-cases, Bool, true, false, some, List, [], ◌∷◌, map, length, ◌&&◌, ◌==◌, ==_false, update,
  update_self, update_ne, bit_and, arith,
}
use klos.Base.Bits.{bit_and_split, bit_and_low, bit_and-zero}
use klos.Base.Allocator.{Allocator}
use klos.Ata.{
  AtaDevice, Ata, Machine, null, register_ata_device, probe_drive, setup_ata_controller, list_loop,
  setup_ata_devices,
}

-- The list from p on runs through the addresses xs.
abbrev pub Listed : (ℕ → AtaDevice) → ℕ → List ℕ → Type 0
Listed device p [] = p ≡ null
Listed device p (q ∷ xs) = (p ≡ q) × (q ≢ null) × Listed device (device q).next_device xs

-- Every address of a list has a property.
abbrev pub All : (ℕ → Type 0) → List ℕ → Type 0
All P [] = Unit {0}
All P (x ∷ xs) = P x × All P xs

-- The controller and the number of a device.
abbrev pub place : (ℕ → AtaDevice) → ℕ → ℕ × ℕ
place device p = ((device p).base_register, (device p).device_id)

Listed-update :
    (device : ℕ → AtaDevice) (p q : ℕ) (d : AtaDevice) (xs : List ℕ)
    → Listed device p xs
    → All (λ x. x ≢ q) xs
    → Listed (update device q d) p xs × (map (place (update device q d)) xs ≡ map (place device) xs)
Listed-update device p q d [] l b = (l, refl)
Listed-update device p q d (x ∷ xs) l b =
    let other = update_ne device q x d b.0 in
    let (tail, places) = Listed-update device (device x).next_device q d xs l.2 b.1 in
    (
      (l.0, l.1, subst (λ a. Listed (update device q d) a.next_device xs) (sym other) tail),
      ap (λ a. (a.base_register, a.device_id) ∷ map (place (update device q d)) xs) other
          ∙ ap (λ t. place device x ∷ t) places,
    )

-- How a device that answered, or did not, extends the list.
abbrev pub found : Bool → ℕ × ℕ → List (ℕ × ℕ) → List (ℕ × ℕ)
found true d ds = d ∷ ds
found false d ds = ds

-- Bit 6 of a byte.
ready_bit : (s : ℕ) → bit_and s 64 ≡ s / 64 % 2 * 64
ready_bit s =
    let parts : s ≡ s / 64 * 64 + s % 64 = omega arith in
    ap (λ x. bit_and x 64) parts
    ∙ bit_and_split 6 (s / 64) 1 (s % 64) 0 (omega arith) (omega arith)
    ∙ omega (arith, bit_and_low 1 (s / 64), bit_and-zero (s % 64))

-- What the two controllers answer: `echo` to 0xBA in the sector number of a controller, `status` of the
-- drive that was selected last.
pub record Drives {S : Type 0} (machine : Machine S) (echo : ℕ → ℕ) (status : ℕ → ℕ → ℕ)
    : Type 0 where
  pub echoes :
      (base : ℕ) (m : S) → (machine.inb (base + 3) (machine.outb 0xBA (base + 3) m)).0 ≡ echo base
  pub answers :
      (base select : ℕ) (m : S)
      → (machine.inb (base + 7) (machine.outb select (base + 6) m)).0 ≡ status base select

-- The drive is there: its controller echoes 0xBA, and the drive is ready, bit 6 of its status.
abbrev pub is_there : (echo : ℕ → ℕ) (status : ℕ → ℕ → ℕ) (base select : ℕ) → Bool
is_there echo status base select = (echo base == 0xBA) && (status base select / 64 % 2 == 1)

module _ {S V : Type 0} (machine : Machine S) (view : S → V) (Room Held : ℕ → V → Type 0)
    (echo : ℕ → ℕ) (status : ℕ → ℕ → ℕ) where
  open machine use {outb, inb, kalloc}

  -- The heap gives unused addresses, and the ports do not touch it.
  pub record Allocates : Type 0 where
    pub out : (v p : ℕ) (m : S) → view (outb v p m) ≡ view m
    pub read : (p : ℕ) (m : S) → view (inb p m).1 ≡ view m
    pub heap : Allocator kalloc view Room Held
    pub drives : Drives machine echo status

  -- The device list runs through xs, which are in use, and the heap has room for k more.
  pub record Known (k : ℕ) (s : Ata S) (xs : List ℕ) : Type 0 where
    pub listed : Listed s.device s.device_list xs
    pub held : All (λ x. Held x (view s.rest)) xs
    pub room : Room k (view s.rest)

  still_held :
      (k : ℕ) (m : S) (xs : List ℕ)
      → Allocates
      → Room (suc k) (view m)
      → All (λ x. Held x (view m)) xs
      → All (λ x. x ≢ (kalloc 12 m).0) xs × All (λ x. Held x (view (kalloc 12 m).1)) xs
  still_held k m [] a r l = (tt, tt)
  still_held k m (x ∷ xs) a r l =
      let (ne, h) = a.heap.apart k 12 x m (omega arith) r l.0 in
      let (nes, hs) = still_held k m xs a r l.1 in (((λ e. ne (sym e)), nes), (h, hs))

  register-Known :
      (base id k : ℕ) (s : Ata S) (xs : List ℕ)
      → Allocates
      → Known (suc k) s xs
      → Known k (register_ata_device machine base id s).1 ((kalloc 12 s.rest).0 ∷ xs)
        × (map (place (register_ata_device machine base id s).1.device) ((kalloc 12 s.rest).0 ∷ xs)
            ≡ (base, id) ∷ map (place s.device) xs)
  unfolding register_ata_device
  register-Known base id k s xs a v =
      let p = (kalloc 12 s.rest).0 in
      let d = record (s.device p) {
        base_register = base;
        device_id = id;
        next_device = s.device_list;
      } in
      let self = update_self s.device p d in
      let (set, new, room) = a.heap.given k 12 s.rest (omega arith) v.room in
      let (apart, held) = still_held k s.rest xs a v.room v.held in
      let (l, places) = Listed-update s.device s.device_list p d xs v.listed apart in
      (
        record {
          listed =
              (refl, set, subst (λ x. Listed (update s.device p d) x.next_device xs) (sym self) l);
          held = (new, held);
          room = room;
        },
        ap (λ x. (x.base_register, x.device_id) ∷ map (place (update s.device p d)) xs) self
            ∙ ap (λ t. (base, id) ∷ t) places,
      )

  -- What probing adds to the devices ds.
  Extends : (k : ℕ) (s : Ata S) → Bool → ℕ × ℕ → List (ℕ × ℕ) → ℕ → Type 0
  Extends k s b d ds n =
      (ys : List ℕ) × Known k s ys × (map (place s.device) ys ≡ found b d ds) × (length ys ≤ n + 1)

  probe-Extends :
      (base select id k : ℕ) (s : Ata S) (xs : List ℕ)
      → Allocates
      → Known (suc k) s xs
      → Extends k
          (probe_drive machine base select id s)
          (status base select / 64 % 2 == 1)
          (base, id)
          (map (place s.device) xs)
          (length xs)
  unfolding probe_drive Extends
  probe-Extends base select id k s xs a v =
      let (answer, m) = inb (base + 7) (outb select (base + 6) s.rest) in
      let same : view m ≡ view s.rest =
        a.read (base + 7) (outb select (base + 6) s.rest) ∙ a.out select (base + 6) s.rest in
      let told : answer ≡ status base select = a.drives.answers base select s.rest in
      let n = record s { rest = m } in
      let w : Known (suc k) n xs = record {
        listed = v.listed;
        held = rw same v.held;
        room = rw same v.room;
      } in
      elim (Bool-cases (bit_and answer 0x40 == 0)) [
        | inl e ↦
            let off : (status base select / 64 % 2 == 1) ≡ false =
              ground (arith, ready_bit answer, told) in
            let r : Known k n xs = record {
              listed = w.listed;
              held = w.held;
              room = a.heap.less k m w.room;
            } in
            rw (e, off) (xs, r, refl, omega arith)
        | inr e ↦
            let on : (status base select / 64 % 2 == 1) ≡ true =
              ground (arith, ready_bit answer, told) in
            let (r, places) = register-Known base id k n xs a w in
            rw (e, on) ((kalloc 12 m).0 ∷ xs, r, places, omega arith)
      ]

  controller-found :
      (base k : ℕ) (s : Ata S) (xs : List ℕ)
      → Allocates
      → Known (suc (suc k)) s xs
      → (ys : List ℕ) × Known k (setup_ata_controller machine base s) ys
        × (map (place (setup_ata_controller machine base s).device) ys
            ≡ found
                (is_there echo status base 0xB0)
                (base, 1)
                (found (is_there echo status base 0xA0) (base, 0) (map (place s.device) xs)))
        × (length ys ≤ length xs + 2)
  unfolding setup_ata_controller Extends
  controller-found base k s xs a v =
      let (back, m) = inb (base + 3) (outb 0xBA (base + 3) s.rest) in
      let same : view m ≡ view s.rest =
        a.read (base + 3) (outb 0xBA (base + 3) s.rest) ∙ a.out 0xBA (base + 3) s.rest in
      let told : echo base ≡ back = sym (a.drives.echoes base s.rest) in
      let n = record s { rest = m } in
      let w : Known (suc (suc k)) n xs = record {
        listed = v.listed;
        held = rw same v.held;
        room = rw same v.room;
      } in
      elim (Bool-cases (back == 0xBA)) [
        | inl e ↦
            let (ys, r, p, l) = probe-Extends base 0xA0 0 (suc k) n xs a w in
            let first = probe_drive machine base 0xA0 0 n in
            let (zs, r', p', l') = probe-Extends base 0xB0 1 k first ys a r in
            rw (told, e)
              (zs, r', p' ∙ ap (found (status base 0xB0 / 64 % 2 == 1) (base, 1)) p, omega arith)
        | inr e ↦
            let r : Known k n xs = record {
              listed = w.listed;
              held = w.held;
              room = a.heap.less k m (a.heap.less (suc k) m w.room);
            } in
            rw (told, e) (xs, r, refl, omega arith)
      ]

  list_loop-Listed :
      (fuel p : ℕ) (s : Ata S) (xs : List ℕ)
      → Listed s.device p xs
      → length xs < fuel
      → list_loop machine fuel p s ≡ some s
  unfolding list_loop
  list_loop-Listed zero p s xs l h = absurd (omega arith)
  list_loop-Listed (suc fuel) p s [] l h = rw l refl
  list_loop-Listed (suc fuel) p s (x ∷ xs) l h =
      rw (l.0, ==_false x null l.1)
        (list_loop-Listed fuel (s.device x).next_device s xs l.2 (omega arith))

  pub setup_ata_devices-found :
      (fuel k : ℕ) (s : Ata S)
      → Allocates
      → Room (suc (suc (suc (suc k)))) (view s.rest)
      → s.device_list ≡ null
      → 4 < fuel
      → (s' : Ata S) × (xs : List ℕ) × (setup_ata_devices machine fuel s ≡ some s')
        × Listed s'.device s'.device_list xs
        × (map (place s'.device) xs
            ≡ found
                (is_there echo status 0x170 0xB0)
                (0x170, 1)
                (found
                  (is_there echo status 0x170 0xA0)
                  (0x170, 0)
                  (found
                    (is_there echo status 0x1F0 0xB0)
                    (0x1F0, 1)
                    (found (is_there echo status 0x1F0 0xA0) (0x1F0, 0) []))))
        × Room k (view s'.rest)
  unfolding setup_ata_devices
  setup_ata_devices-found fuel k s a room none_yet h =
      let (ys, r, p, l) =
        controller-found 0x1F0 (suc (suc k)) s [] a
          (record { listed = none_yet; held = tt; room = room }) in
      let first = setup_ata_controller machine 0x1F0 s in
      let (zs, r', p', l') = controller-found 0x170 k first ys a r in
      let n = setup_ata_controller machine 0x170 first in
      (
        n,
        zs,
        list_loop-Listed fuel n.device_list n zs r'.listed (omega arith),
        r'.listed,
        p'
            ∙ ap
                (λ ds.
                  found (is_there echo status 0x170 0xB0) (0x170, 1)
                    (found (is_there echo status 0x170 0xA0) (0x170, 0) ds))
                p,
        r'.room,
      )
