-- ===== src/Process/Lives.antt =====
-- The making, resuming and ending of processes in src/kernel/process.cpp.
use klos.Base.{
  ℕ, ◌+◌, ◌*◌, Bool, true, false, Option, some, List, [], ◌∷◌, ◌==◌, if◌then◌else◌, u32, sub32,
  update, upto, ◌>>=◌,
}
use klos.Process.{
  null, pr_state_paused, Process, Processes, Outcome, pr_free_pid, pr_inject_process,
  pr_extract_process, pr_schedule,
}

-- What processes take from the heap and from paging, whose state is `S`.
pub record Services (S : Type 0) : Type 0 where
  pub kalloc : ℕ → S → ℕ × S
  pub kfree : ℕ → S → S
  pub pg_create_user_page_directory : S → ℕ × S
  pub pg_copy_user_page_directory : ℕ → S → ℕ × S
  pub pg_free_user_page_directory : ℕ → S → S
  pub pg_activate_table : ℕ → S → S

-- The processes, the words of the kernel stacks by address, `pr_tss.esp0` and `pr_tss.ss0`, the
-- stack pointer, and the rest of the kernel.
pub record Kernel (S : Type 0) : Type 0 where
  pub processes : Processes
  pub word : ℕ → ℕ
  pub esp0 : ℕ
  pub ss0 : ℕ
  pub esp : ℕ
  pub rest : S

-- `*stack-- = v` for each v in turn: the stack pointer after them, and the words.
unfoldable pub push_all : List ℕ → ℕ → (ℕ → ℕ) → ℕ × (ℕ → ℕ)
push_all [] stack word = (stack, word)
push_all (v ∷ vs) stack word = push_all vs (sub32 stack 4) (update word stack v)

-- What `pr_create_process` pushes: SS, ESP, the flags, CS, EIP, eight registers and four selectors.
abbrev pub frame : List ℕ
frame =
    0x23 ∷ 0x800 ∷ 0x202 ∷ 0x1B ∷ 0 ∷ 0 ∷ 0 ∷ 0 ∷ 0 ∷ 0 ∷ 0 ∷ 0 ∷ 0 ∷ 0x20 ∷ 0x20 ∷ 0x20 ∷ 0x20 ∷ []

-- The `stack` of `pr_create_process` on the stack at `stack_base`: the pointer and the words.
unfoldable pub initial_stack : ℕ → (ℕ → ℕ) → ℕ × (ℕ → ℕ)
unfolding push_all
initial_stack stack_base word =
    let (stack, written) = push_all frame (sub32 (u32 (stack_base + 4096)) 4) word in
    (u32 (stack + 4), written)

-- What the end of `pr_resume` loads into the processor.
pub record Registers : Type 0 where
  pub es : ℕ
  pub fs : ℕ
  pub gs : ℕ
  pub ds : ℕ
  pub edi : ℕ
  pub esi : ℕ
  pub ebp : ℕ
  pub ebx : ℕ
  pub edx : ℕ
  pub ecx : ℕ
  pub eax : ℕ
  pub eip : ℕ
  pub cs : ℕ
  pub eflags : ℕ
  pub esp : ℕ
  pub ss : ℕ

-- The four `pop`, `popal`, which skips the stack pointer, and `iret` to user code, with the stack at p.
unfoldable pub pop_frame : ℕ → (ℕ → ℕ) → Registers
pop_frame p word = record {
  es = word (u32 (p + 0));
  fs = word (u32 (p + 4));
  gs = word (u32 (p + 8));
  ds = word (u32 (p + 12));
  edi = word (u32 (p + 16));
  esi = word (u32 (p + 20));
  ebp = word (u32 (p + 24));
  ebx = word (u32 (p + 32));
  edx = word (u32 (p + 36));
  ecx = word (u32 (p + 40));
  eax = word (u32 (p + 44));
  eip = word (u32 (p + 48));
  cs = word (u32 (p + 52));
  eflags = word (u32 (p + 56));
  esp = word (u32 (p + 60));
  ss = word (u32 (p + 64));
}

-- `stack_dest[i] = stack_src[i]` for the words of a stack.
unfoldable pub copy_stack : (dest src : ℕ) → (ℕ → ℕ) → ℕ → ℕ
unfolding upto
copy_stack dest src word =
    upto 1024 (λ i w. update w (u32 (dest + 4 * i)) (w (u32 (src + 4 * i)))) word

abbrev pub set_process : ℕ → Process → Processes → Processes
set_process proc p t = record t { at = update t.at proc p }

unfoldable pub pr_getpid : Processes → ℕ
pr_getpid t = (t.at t.current).pid

unfoldable pub pr_get_current : Processes → ℕ
pr_get_current t = t.current

-- `pr_suspend`: the state, and how the call of `pr_schedule` ends where there is one.
unfoldable pub pr_suspend : (fuel proc : ℕ) → Processes → Option (Outcome × Processes)
pr_suspend fuel proc t =
    let paused = set_process proc (record (t.at proc) { state = pr_state_paused }) t in
    if proc == t.current
    then (pr_schedule fuel paused >>= λ o. some (o, paused))
    else some (Outcome.returned, paused)

module _ {S : Type 0} (services : Services S) where
  open services use {
    kalloc, kfree, pg_create_user_page_directory, pg_copy_user_page_directory,
    pg_free_user_page_directory, pg_activate_table,
  }

  -- `pr_resume` up to the loading of the stack pointer.
  unfoldable pub pr_resume : ℕ → Kernel S → Kernel S
  unfolding upto
  pr_resume proc k =
      let t = k.processes in
      let stack = u32 ((t.at t.current).kernel_stack + 4096) in
      let saved = upto 4 (λ i w. update w (sub32 (u32 (stack + 4 * i)) 68) 0x20) k.word in
      record k {
        processes = record t { current = proc };
        word = if t.current == null then k.word else saved;
        esp0 = u32 ((t.at proc).kernel_stack + 4096);
        ss0 = 0x10;
        esp = (t.at proc).stack_pointer;
        rest = pg_activate_table (t.at proc).page_table k.rest;
      }

  -- The start that `pr_create_process` and `pr_fork_process` share: the new structure is linked into
  -- the list, then gets its pid and is paused; `false` where it could not be linked.
  unfoldable pub new_process : ℕ → Kernel S → Option (Bool × ℕ × Kernel S)
  unfolding pr_inject_process pr_free_pid
  new_process fuel k =
      let (proc, r) = kalloc 32 k.rest in
      pr_inject_process fuel proc k.processes >>= λ (linked, t).
      let (pid, counted) = pr_free_pid t in
      let named = record (counted.at proc) { pid = pid; state = pr_state_paused } in
      some (
        if linked
        then (true, proc, record k { processes = set_process proc named counted; rest = r })
        else (false, null, record k { processes = t; rest = kfree proc r }))

  -- The new process with its page table and stack, for both ways to make one.
  abbrev pub with_stack : (proc table base pointer : ℕ) → Kernel S → Kernel S
  with_stack proc table base pointer k = record k {
    processes =
        set_process proc
          (record (k.processes.at proc) {
            page_table = table;
            kernel_stack = base;
            stack_pointer = pointer;
          })
          k.processes;
  }

  unfoldable pub pr_create_process : ℕ → Kernel S → Option (ℕ × Kernel S)
  pr_create_process fuel k = do
    (linked, proc, n) ← new_process fuel k
    let (table, r) = pg_create_user_page_directory n.rest
    let (base, s) = kalloc 4096 r
    let (pointer, word) = initial_stack base n.word
    some (
        if linked
        then (proc, with_stack proc table base pointer (record n { word = word; rest = s }))
        else (null, n))

  unfoldable pub pr_fork_process : (fuel src : ℕ) → Kernel S → Option (ℕ × Kernel S)
  pr_fork_process fuel src k = do
    (linked, proc, n) ← new_process fuel k
    let parent = n.processes.at src
    let (table, r) = pg_copy_user_page_directory parent.page_table n.rest
    let (base, s) = kalloc 4096 r
    let pointer = u32 (base + sub32 parent.stack_pointer parent.kernel_stack)
    some (
        if linked
        then (
          proc,
          with_stack proc table base pointer
              (record n { word = copy_stack base parent.kernel_stack n.word; rest = s }),
        )
        else (null, n))

  unfoldable pub pr_terminate : (fuel proc : ℕ) → Kernel S → Option (Kernel S)
  unfolding pr_extract_process
  pr_terminate fuel proc k = do
    t ← pr_extract_process fuel proc k.processes
    let freed = pg_free_user_page_directory (t.at proc).page_table k.rest
    some (record k { processes = t; rest = kfree proc (kfree (t.at proc).kernel_stack freed) })
