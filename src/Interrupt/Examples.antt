-- ===== src/Interrupt/Examples.antt =====
-- The descriptors for some addresses of the routines.
use klos.Base.{◌≡◌, [], false, arith}
use klos.Interrupt.{Routines, Interrupts, setup_interrupts}
use klos.Interrupt.Gates.{gate, installed, AreAddresses, gate-setup_interrupts}

abbrev routines : Routines
routines = record {
  is_panic = 0xC0100000;
  is_int = λ i. 0xC0100100;
  is_timer = 0xC0100200;
  is_keyboard = 0xC0100300;
  is_8259 = 0xC0100400;
  is_api = 0xC0100500;
}

abbrev unset : Interrupts
unset = record {
  idt = λ i. record { offset_low = 0; segment = 0; zero = 0; flags = 0; offset_high = 0 };
  limit = 0;
  sched_hook = 0;
  ports = [];
  enabled = false;
}

routines-AreAddresses : AreAddresses routines
routines-AreAddresses = record {
  panic = omega arith;
  int = λ k. omega arith;
  timer = omega arith;
  keyboard = omega arith;
  pic = omega arith;
  api = omega arith;
}

gate-setup_interrupts_example :
    gate 0x80 (setup_interrupts routines unset) ≡ installed routines 0x80
gate-setup_interrupts_example =
    gate-setup_interrupts routines 0x80 unset routines-AreAddresses (omega arith)
