-- ===== src/Interrupt.antt =====
-- The interrupt descriptors of src/kernel/interrupt.cpp and of src/kernel/exceptions.cpp. The routines
-- are assembly, known by their addresses; ports are the list of the bytes written to them.
pub mod Gates
pub mod Handlers
pub mod Fork
mod Examples
use klos.Base.{ℕ, ◌+◌, ◌*◌, ◌^◌, Bool, true, List, ◌∷◌, upto, update, bit_and, bit_or, ◌<<<◌, ◌>>>◌}

pub record IdtEntry : Type 0 where
  pub offset_low : ℕ
  pub segment : ℕ
  pub zero : ℕ
  pub flags : ℕ
  pub offset_high : ℕ

-- The addresses of the routines; `is_int i` handles exception i.
pub record Routines : Type 0 where
  pub is_panic : ℕ
  pub is_int : ℕ → ℕ
  pub is_timer : ℕ
  pub is_keyboard : ℕ
  pub is_8259 : ℕ
  pub is_api : ℕ

-- `idt`, the limit in `idtp`, `sched_hook`, the writes `(value, port)`, the last one first, and the
-- interrupt flag.
pub record Interrupts : Type 0 where
  pub idt : ℕ → IdtEntry
  pub limit : ℕ
  pub sched_hook : ℕ
  pub ports : List (ℕ × ℕ)
  pub enabled : Bool

unfoldable pub outb : (value port : ℕ) → Interrupts → Interrupts
outb value port s = record s { ports = (value, port) ∷ s.ports }

unfoldable pub is_install_hook : ℕ → Interrupts → Interrupts
is_install_hook hook s = record s { sched_hook = hook }

unfoldable pub is_install_handler : (interrupt service_routine dpl : ℕ) → Interrupts → Interrupts
is_install_handler interrupt service_routine dpl s = record s {
  idt = update s.idt interrupt (record {
    offset_low = bit_and service_routine 0xFFFF;
    segment = 0x08;
    zero = 0;
    flags = bit_or (bit_or 0x80 (bit_and dpl 0x03 <<< 5)) 0x0E;
    offset_high = bit_and (service_routine >>> 16) 0xFFFF;
  });
}

-- A descriptor of the first loop of `setup_interrupts`.
unfoldable pub install_panic : (panic i : ℕ) → Interrupts → Interrupts
install_panic panic i s = record s {
  idt = update s.idt i (record {
    offset_low = bit_and panic 0xFFFF;
    segment = 0x08;
    zero = 0;
    flags = 0x8E;
    offset_high = bit_and (panic >>> 16) 0xFFFF;
  });
}

unfoldable pub is_install_exception_handlers : Routines → Interrupts → Interrupts
is_install_exception_handlers r s = upto 32 (λ i. is_install_handler (0 + i) (r.is_int i) 0) s

-- The bytes for the two controllers and the timer.
unfoldable pub setup_controllers : Interrupts → Interrupts
unfolding outb
setup_controllers s =
    let frequency : ℕ = 65535 in
    let masked = outb 0xFF 0xA1 (outb 0xFF 0x21 s) in
    let master = outb 0x05 0x21 (outb 0x04 0x21 (outb 0x20 0x21 (outb 0x11 0x20 masked))) in
    let slave = outb 0x01 0xA1 (outb 0x02 0xA1 (outb 0x28 0xA1 (outb 0x11 0xA0 master))) in
    outb (bit_and (frequency >>> 8) 0xFF) 0x40
      (outb (bit_and frequency 0xFF) 0x40 (outb 0x36 0x43 slave))

unfoldable pub setup_interrupts : Routines → Interrupts → Interrupts
setup_interrupts r s =
    let cleared = upto 256 (install_panic r.is_panic) (record s { sched_hook = 0 }) in
    let controlled = setup_controllers (record cleared { limit = 0x07FF }) in
    let exceptions = is_install_exception_handlers r controlled in
    let two =
      is_install_handler 0x21 r.is_keyboard 0 (is_install_handler 0x20 r.is_timer 0 exceptions) in
    let others = upto 13 (λ k. is_install_handler (0x22 + k) r.is_8259 0) two in
    let api = is_install_handler 0x80 r.is_api 3 others in
    record (outb 0xFF 0xA1 (outb 0xFC 0x21 api)) { enabled = true }
