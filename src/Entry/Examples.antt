-- ===== src/Entry/Examples.antt =====
-- A machine with one drive, whose heap gives ever lower addresses, and the theorems at it.
use klos.Base.{ℕ, ◌+◌, ◌-◌, ◌*◌, ◌<◌, ◌≤◌, List, [], ◌==◌, if◌then◌else◌, false}
use klos.Base.Allocator.{Allocator}
use klos.Gdt.{cleared}
use klos.Process.Lives.{Services}
use klos.Ata.{Machine}
use klos.Symbol.{Symbols}
use klos.Entry.{Parts, Image, System}

-- The state is the lowest address in use.
abbrev parts : Parts ℕ
parts = record {
  setup_paging = λ d t m. m;
  setup_memory_manager = λ f n m. m;
  setup_heap = λ t m. m;
  pg_kernel = λ m. 0xC0200000;
  pg_map = λ t virt physical supervisor m. m;
  pg_remove_pagetable = λ t virt m. m;
  mm_page_allocate = λ m. (0x200000, m);
  kbrk = λ m. m;
  report = λ m. ((100, 0x1000), record { hi_stack = 0; lo_stack = 0; word = λ p. 0 });
}

abbrev services : Services ℕ
services = record {
  kalloc = λ n m. (m - n - 8, m - n - 8);
  kfree = λ p m. m;
  pg_create_user_page_directory = λ m. (7, m);
  pg_copy_user_page_directory = λ t m. (8, m);
  pg_free_user_page_directory = λ t m. m;
  pg_activate_table = λ t m. m;
}

abbrev machine : Machine ℕ
machine = record {
  outb = λ v p m. m;
  inb = λ p m. (if p == 0x1F3 then 0xBA else 0x48, m);
  inw = λ p m. (0xABCD, m);
  kalloc = λ n m. (m - n - 8, m - n - 8);
}

abbrev image : Image
image = record {
  routines = record {
    is_panic = 0xC0100000;
    is_int = λ i. 0xC0100100 + i;
    is_timer = 0xC0100200;
    is_keyboard = 0xC0100300;
    is_8259 = 0xC0100400;
    is_api = 0xC0100500;
  };
  schedule = 0xC0101000;
  pr_tss = 0xC0108000;
  sizeof_tss = 104;
  end_of_kernel = 0xC0110000;
}

-- The memory that becomes the structures holds zeros.
abbrev system : System ℕ
system = record {
  console = record { text = λ i. 0; text_base = 0; x = 0; y = 0; ports = [] };
  gdt = record { gdt = λ i. cleared; nentries = 0; limit = 0 };
  interrupts = record {
    idt = λ i. record { offset_low = 0; segment = 0; zero = 0; flags = 0; offset_high = 0 };
    limit = 0;
    sched_hook = 0;
    ports = [];
    enabled = false;
  };
  kernel = record {
    processes = record {
      at = λ p. record {
        pid = 0;
        state = 0;
        kernel_stack = 0;
        stack_pointer = 0;
        page_table = 0;
        pages = 0;
        syscall_mode = 0;
        next_process = 0;
      };
      root = 0;
      current = 0;
      next_pid = 1;
    };
    word = λ p. 0;
    esp0 = 0;
    ss0 = 0;
    esp = 0;
    rest = 0xD0001000;
  };
  device = λ p. record { base_register = 0; device_id = 0; flags = 0; next_device = 0 };
  device_list = 0;
  byte = λ p. 0;
}

abbrev none_known : Symbols (List ℕ)
none_known = record { address = λ i. 0xFFFFFFFF; name = λ i. [] }

abbrev Room : ℕ → ℕ → Type 0
Room k m = 8192 * k < m

abbrev Held : ℕ → ℕ → Type 0
Held p m = m ≤ p

abbrev echo : ℕ → ℕ
echo base = if base == 0x1F0 then 0xBA else 0x48

abbrev status : ℕ → ℕ → ℕ
status base select = if base == 0x1EC then 0xBA else 0x48
