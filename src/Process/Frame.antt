-- ===== src/Process/Frame.antt =====
-- The frame that `pr_create_process` of src/kernel/process.cpp leaves for `pr_resume` to pop.
use klos.Base.{
  ℕ, zero, suc, ◌+◌, ◌-◌, ◌*◌, ◌^◌, ◌<◌, ◌≤◌, ◌≡◌, refl, ap, ◌∙◌, List, [], ◌∷◌, u32, sub32, update,
  update_self, update_ne, length, ◌⊎◌, inl, arith, ◌≢◌, ◌∉◌, some, upto, ◌==◌, if◌then◌else◌,
}
use klos.Process.{null}
use klos.Process.Chain.{IsList}
use klos.Process.Lives.{
  Services, Kernel, push_all, frame, initial_stack, Registers, pop_frame, pr_create_process,
  pr_resume,
}
use klos.Process.Creation.{place, pr_create_process-Joined}

-- The word at a place of a list, from the first on.
abbrev word_of : List ℕ → ℕ → ℕ
word_of [] i = 0
word_of (v ∷ vs) zero = v
word_of (v ∷ vs) (suc i) = word_of vs i

push_all-cons :
    (v stack : ℕ) (vs : List ℕ) (word : ℕ → ℕ)
    → 4 ≤ stack
    → stack < 2 ^ 32
    → push_all (v ∷ vs) stack word ≡ push_all vs (stack - 4) (update word stack v)
unfolding push_all
push_all-cons v stack vs word room h =
    let low : sub32 stack 4 ≡ stack - 4 = omega arith in
    ap (λ p. push_all vs p (update word stack v)) low

push_all-other :
    (vs : List ℕ) (stack a : ℕ) (word : ℕ → ℕ)
    → 4 * length vs ≤ stack
    → stack < 2 ^ 32
    → (stack < a) ⊎ (a + 4 * length vs ≤ stack)
    → (push_all vs stack word).1 a ≡ word a
unfolding push_all
push_all-other [] stack a word room h away = refl
push_all-other (v ∷ vs) stack a word room h away =
    ap (λ r. r.1 a) (push_all-cons v stack vs word (omega arith) h)
    ∙ push_all-other vs (stack - 4) a (update word stack v) (omega arith) (omega arith)
        (ground arith)
    ∙ update_ne word stack a v (λ e. ground arith)

push_all-pointer :
    (vs : List ℕ) (stack : ℕ) (word : ℕ → ℕ)
    → 4 * length vs ≤ stack
    → stack < 2 ^ 32
    → (push_all vs stack word).0 ≡ stack - 4 * length vs
unfolding push_all
push_all-pointer [] stack word room h = omega arith
push_all-pointer (v ∷ vs) stack word room h =
    ap (λ r. r.0) (push_all-cons v stack vs word (omega arith) h)
    ∙ push_all-pointer vs (stack - 4) (update word stack v) (omega arith) (omega arith)
    ∙ omega arith

push_all-word :
    (vs : List ℕ) (stack i : ℕ) (word : ℕ → ℕ)
    → 4 * length vs ≤ stack
    → stack < 2 ^ 32
    → i < length vs
    → (push_all vs stack word).1 (stack - 4 * i) ≡ word_of vs i
push_all-word [] stack i word room h l = absurd (omega arith)
push_all-word (v ∷ vs) stack zero word room h l =
    let step = push_all-cons v stack vs word (omega arith) h in
    let here : stack - 4 * 0 ≡ stack = omega arith in
    ap (push_all (v ∷ vs) stack word).1 here
    ∙ ap (λ r. r.1 stack) step
    ∙ push_all-other vs (stack - 4) stack (update word stack v) (omega arith) (omega arith)
        (inl (omega arith))
    ∙ update_self word stack v
push_all-word (v ∷ vs) stack (suc i) word room h l =
    let step = push_all-cons v stack vs word (omega arith) h in
    let place : stack - 4 * suc i ≡ stack - 4 - 4 * i = omega arith in
    ap (λ r. r.1 (stack - 4 * suc i)) step
    ∙ ap (push_all vs (stack - 4) (update word stack v)).1 place
    ∙ push_all-word vs (stack - 4) i (update word stack v) (omega arith) (omega arith) (omega arith)

-- User code at 0 with interrupts enabled and a user's stack at 0x800; the other registers are 0.
abbrev pub user_start : Registers
user_start = record {
  es = 0x20;
  fs = 0x20;
  gs = 0x20;
  ds = 0x20;
  edi = 0;
  esi = 0;
  ebp = 0;
  ebx = 0;
  edx = 0;
  ecx = 0;
  eax = 0;
  eip = 0;
  cs = 0x1B;
  eflags = 0x202;
  esp = 0x800;
  ss = 0x23;
}

module _ (base : ℕ) (word : ℕ → ℕ) (h : base + 4096 < 2 ^ 32) where
  top : sub32 (u32 (base + 4096)) 4 ≡ base + 4092
  top = omega (arith, h)

  initial_stack-pointer : (initial_stack base word).0 ≡ base + 4028
  unfolding initial_stack
  initial_stack-pointer = rw top (
      omega
        (arith, push_all-pointer frame (base + 4092) word (omega (arith, h)) (omega (arith, h))))

  initial_stack-word :
      (i : ℕ)
      → i < 17
      → (initial_stack base word).1 (u32 (base + 4028 + (64 - 4 * i))) ≡ word_of frame i
  unfolding initial_stack
  initial_stack-word i l =
      let place : u32 (base + 4028 + (64 - 4 * i)) ≡ base + 4092 - 4 * i = omega (arith, h) in
      rw (top, place)
        (push_all-word frame (base + 4092) i word (omega (arith, h)) (omega (arith, h)) l)

  initial_stack-other :
      (a : ℕ) → (base + 4092 < a) ⊎ (a + 68 ≤ base + 4092) → (initial_stack base word).1 a ≡ word a
  unfolding initial_stack
  initial_stack-other a away =
      rw top (push_all-other frame (base + 4092) a word (omega (arith, h)) (omega (arith, h)) away)

  pop_frame-initial_stack : pop_frame (base + 4028) (initial_stack base word).1 ≡ user_start
  unfolding pop_frame
  pop_frame-initial_stack =
      let w = initial_stack-word in
      λ j. record {
        es = w 16 (omega arith) j;
        fs = w 15 (omega arith) j;
        gs = w 14 (omega arith) j;
        ds = w 13 (omega arith) j;
        edi = w 12 (omega arith) j;
        esi = w 11 (omega arith) j;
        ebp = w 10 (omega arith) j;
        ebx = w 8 (omega arith) j;
        edx = w 7 (omega arith) j;
        ecx = w 6 (omega arith) j;
        eax = w 5 (omega arith) j;
        eip = w 4 (omega arith) j;
        cs = w 3 (omega arith) j;
        eflags = w 2 (omega arith) j;
        esp = w 1 (omega arith) j;
        ss = w 0 (omega arith) j;
      }

module _ {S : Type 0} (services : Services S) (fuel : ℕ) (k : Kernel S) where
  open services use {kalloc, pg_create_user_page_directory}

  -- The stack that a new process gets.
  abbrev pub stack_of : ℕ
  stack_of = (kalloc 4096 (pg_create_user_page_directory (kalloc 32 k.rest).1).1).0

  -- On a list of processes with an unused address for the new structure, fuel for the length of the list,
  -- no current process and a stack that ends below 2^32, `pr_create_process` makes a process such that
  -- `pr_resume` of it makes it the current one and loads the registers of user code that starts at
  -- address 0 with a user's stack and interrupts enabled; the two write no word outside the upper 68
  -- bytes of the new stack.
  pub pr_resume-pr_create_process :
      (xs : List ℕ) (a : ℕ)
      → IsList k.processes xs
      → place services fuel k ≢ null
      → place services fuel k ∉ xs
      → length xs ≤ fuel
      → k.processes.current ≡ null
      → stack_of + 4096 < 2 ^ 32
      → (stack_of + 4092 < a) ⊎ (a + 68 ≤ stack_of + 4092)
      → (n : Kernel S) × (r : Kernel S) × (pr_create_process services fuel k
          ≡ some (place services fuel k, n))
        × (pr_resume services (place services fuel k) n ≡ r)
        × (r.processes.current ≡ place services fuel k)
        × (pop_frame r.esp r.word ≡ user_start)
        × (r.word a ≡ k.word a)
  unfolding pr_resume
  pr_resume-pr_create_process xs a l ne out enough idle h away =
      let p = place services fuel k in
      let (u, word, made, j, _, pointer, words) =
        pr_create_process-Joined services fuel k xs l ne out enough in
      let still = j.current ∙ idle in
      let same : (if u.current == null
            then word
            else upto 4
                (λ i w.
                  update w (sub32 (u32 (u32 ((u.at u.current).kernel_stack + 4096) + 4 * i)) 68)
                    0x20)
                word)
          ≡ word =
        rw still refl in
      let low = pointer ∙ initial_stack-pointer stack_of k.word h in
      (
        _,
        _,
        made,
        refl,
        refl,
        ap (λ w. pop_frame (u.at p).stack_pointer w) (same ∙ words)
            ∙ ap (λ q. pop_frame q (initial_stack stack_of k.word).1) low
            ∙ pop_frame-initial_stack stack_of k.word h,
        ap (λ w. w a) (same ∙ words) ∙ initial_stack-other stack_of k.word h a away,
      )
