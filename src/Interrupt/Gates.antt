-- ===== src/Interrupt/Gates.antt =====
-- The routine and the privilege that a descriptor of src/kernel/interrupt.cpp stands for.
use klos.Base.{
  ℕ, zero, suc, ◌+◌, ◌-◌, ◌*◌, ◌/◌, ◌%◌, ◌^◌, ◌<◌, ◌≡◌, refl, ◌∙◌, ltb, not, ◌&&◌, ◌==◌,
  if◌then◌else◌, Bool, true, upto, update, Option, none, some, bit_and, bit_or, ◌<<<◌, ◌>>>◌, arith,
}
use klos.Base.Bits.{bit_and_low}
use klos.Interrupt.{
  IdtEntry, Routines, Interrupts, is_install_handler, install_panic, setup_interrupts,
  setup_controllers, is_install_exception_handlers, outb,
}

-- The routine's address, and the level that may call it.
unfoldable pub routine_of : IdtEntry → ℕ
routine_of e = e.offset_low + e.offset_high * 2 ^ 16

unfoldable pub level_of : IdtEntry → ℕ
level_of e = e.flags / 32 % 4

-- The processor takes a descriptor for a 32-bit interrupt gate into the kernel's code when its present
-- bit is set, the five bits of its type are 01110, its unused byte is zero and its selector is 8.
unfoldable pub is_gate : IdtEntry → Bool
is_gate e = (e.flags / 128 == 1) && (e.flags % 32 == 14) && (e.zero == 0) && (e.segment == 8)

-- The routine that an interrupt i enters and the level that may raise it, where its descriptor is such a
-- gate.
unfoldable pub gate : (i : ℕ) → Interrupts → Option (ℕ × ℕ)
gate i s = if is_gate (s.idt i) then some (routine_of (s.idt i), level_of (s.idt i)) else none

routine_bits : (r : ℕ) → r < 2 ^ 32 → bit_and r 0xFFFF + bit_and (r >>> 16) 0xFFFF * 2 ^ 16 ≡ r
routine_bits r h = omega (arith, bit_and_low 16 r, bit_and_low 16 (r / 2 ^ 16))

gate-is_install_handler :
    (interrupt routine dpl i : ℕ) (s : Interrupts)
    → routine < 2 ^ 32
    → dpl < 4
    → bit_or (bit_or 0x80 (bit_and dpl 0x03 <<< 5)) 0x0E ≡ 0x8E + dpl * 32
    → gate i (is_install_handler interrupt routine dpl s)
      ≡ (if i == interrupt then some (routine, dpl) else gate i s)
unfolding gate is_gate is_install_handler routine_of level_of update
gate-is_install_handler interrupt routine dpl i s h low level =
    ground (arith, routine_bits routine h, level)

gate-install_panic :
    (panic k i : ℕ) (s : Interrupts)
    → panic < 2 ^ 32
    → gate i (install_panic panic k s) ≡ (if i == k then some (panic, 0) else gate i s)
unfolding gate is_gate install_panic routine_of level_of update
gate-install_panic panic k i s h = ground (arith, routine_bits panic h)

panics :
    (n panic i : ℕ) (s : Interrupts)
    → panic < 2 ^ 32
    → gate i (upto n (install_panic panic) s) ≡ (if ltb i n then some (panic, 0) else gate i s)
unfolding upto
panics zero panic i s h = ground arith
panics (suc n) panic i s h =
    ground
      (arith, gate-install_panic panic n i (upto n (install_panic panic) s) h, panics n panic i s h)

handlers :
    (base n : ℕ) (f : ℕ → ℕ) (i : ℕ) (s : Interrupts)
    → ((k : ℕ) → f k < 2 ^ 32)
    → gate i (upto n (λ k. is_install_handler (base + k) (f k) 0) s)
      ≡ (if not (ltb i base) && ltb i (base + n) then some (f (i - base), 0) else gate i s)
unfolding upto
handlers base zero f i s h = ground arith
handlers base (suc n) f i s h =
    let r = upto n (λ k. is_install_handler (base + k) (f k) 0) s in
    let this = gate-is_install_handler (base + n) (f n) 0 i r (h n) (omega arith) refl in
    let index : i ≡ base + n → i - base ≡ n = λ e. omega arith in
    ground (arith, this, handlers base n f i s h, index)

-- The routines and levels that `setup_interrupts` installs.
unfoldable pub installed : Routines → ℕ → Option (ℕ × ℕ)
installed r i =
    if i == 0x80
    then some (r.is_api, 3)
    else if not (ltb i 0x22) && ltb i 0x2F
    then some (r.is_8259, 0)
    else if i == 0x21
    then some (r.is_keyboard, 0)
    else if i == 0x20
    then some (r.is_timer, 0)
    else if ltb i 0x20
    then some (r.is_int i, 0)
    else some (r.is_panic, 0)

-- The routines have 32-bit addresses.
pub record AreAddresses (r : Routines) : Type 0 where
  pub panic : r.is_panic < 2 ^ 32
  pub int : (k : ℕ) → r.is_int k < 2 ^ 32
  pub timer : r.is_timer < 2 ^ 32
  pub keyboard : r.is_keyboard < 2 ^ 32
  pub pic : r.is_8259 < 2 ^ 32
  pub api : r.is_api < 2 ^ 32

controllers-gate :
    (i l : ℕ) (s : Interrupts) → gate i (setup_controllers (record s { limit = l })) ≡ gate i s
unfolding gate is_gate setup_controllers outb
controllers-gate i l s = refl

chain :
    (r : Routines) (i : ℕ) (g0 g1 g2 g3 g4 g5 g6 : Option (ℕ × ℕ))
    → g0 ≡ some (r.is_panic, 0)
    → g1 ≡ g0
    → g2 ≡ (if not (ltb i 0) && ltb i (0 + 32) then some (r.is_int (i - 0), 0) else g1)
    → g3 ≡ (if i == 0x20 then some (r.is_timer, 0) else g2)
    → g4 ≡ (if i == 0x21 then some (r.is_keyboard, 0) else g3)
    → g5 ≡ (if not (ltb i 0x22) && ltb i (0x22 + 13) then some (r.is_8259, 0) else g4)
    → g6 ≡ (if i == 0x80 then some (r.is_api, 3) else g5)
    → g6 ≡ installed r i
unfolding installed
chain r i g0 g1 g2 g3 g4 g5 g6 e0 e1 e2 e3 e4 e5 e6 =
    let same : i - 0 ≡ i = omega arith in ground arith

last-gate :
    (i : ℕ) (s : Interrupts)
    → gate i (record (outb 0xFF 0xA1 (outb 0xFC 0x21 s)) { enabled = true }) ≡ gate i s
unfolding gate outb
last-gate i s = refl

cleared-gate :
    (i : ℕ) (r : Routines) (s : Interrupts)
    → r.is_panic < 2 ^ 32
    → i < 256
    → gate i (upto 256 (install_panic r.is_panic) s) ≡ some (r.is_panic, 0)
cleared-gate i r s h l = ground (arith, panics 256 r.is_panic i s h)

-- For routines with 32-bit addresses, after `setup_interrupts` each of the 256 descriptors is a present
-- interrupt gate into the kernel's code segment. It enters the routine for the system call at 0x80,
-- the timer at 0x20, the keyboard at 0x21, the controllers from 0x22 to 0x2E, the exception of that
-- number below 0x20, and the panic elsewhere; only the system call may be called by user programs.
pub gate-setup_interrupts :
    (r : Routines) (i : ℕ) (s : Interrupts)
    → AreAddresses r
    → i < 256
    → gate i (setup_interrupts r s) ≡ installed r i
unfolding setup_interrupts installed is_install_exception_handlers
gate-setup_interrupts r i s a h =
    let cleared = upto 256 (install_panic r.is_panic) (record s { sched_hook = 0 }) in
    let controlled = setup_controllers (record cleared { limit = 0x07FF }) in
    let exceptions = upto 32 (λ k. is_install_handler (0 + k) (r.is_int k) 0) controlled in
    let timed = is_install_handler 0x20 r.is_timer 0 exceptions in
    let two = is_install_handler 0x21 r.is_keyboard 0 timed in
    let others = upto 13 (λ k. is_install_handler (0x22 + k) r.is_8259 0) two in
    let api = is_install_handler 0x80 r.is_api 3 others in
    let e0 = cleared-gate i r (record s { sched_hook = 0 }) a.panic h in
    let e1 = controllers-gate i 0x07FF cleared in
    let e2 = handlers 0 32 r.is_int i controlled a.int in
    let e3 = gate-is_install_handler 0x20 r.is_timer 0 i exceptions a.timer (omega arith) refl in
    let e4 = gate-is_install_handler 0x21 r.is_keyboard 0 i timed a.keyboard (omega arith) refl in
    let e5 = handlers 0x22 13 (λ k. r.is_8259) i two (λ k. a.pic) in
    let e6 = gate-is_install_handler 0x80 r.is_api 3 i others a.api (omega arith) refl in
    last-gate i api
    ∙ chain r i (gate i cleared) (gate i controlled) (gate i exceptions) (gate i timed) (gate i two)
        (gate i others) (gate i api) e0 e1 e2 e3 e4 e5 e6
