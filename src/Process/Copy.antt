-- ===== src/Process/Copy.antt =====
-- The stack that `pr_fork_process` of src/kernel/process.cpp copies.
use mathlib.Core.Option.{some-injective}
use klos.Base.{
  ℕ, zero, suc, ◌+◌, ◌*◌, ◌^◌, ◌≤◌, ◌<◌, ◌≡◌, ◌≢◌, refl, sym, ap, ◌∙◌, ◌⊎◌, inl, inr, some, List,
  length, ◌==◌, u32, sub32, update, upto, ◌∉◌, Bool-cases, arith,
}
use klos.Process.{null}
use klos.Process.Chain.{IsList}
use klos.Process.Lives.{Services, Kernel, copy_stack, pr_fork_process}
use klos.Process.Creation.{place, pr_fork_process-Joined}

-- Two stacks of a page each, below 4 GB, that do not overlap.
pub record Separate (dest src : ℕ) : Type 0 where
  pub dest_fits : dest + 4096 ≤ 2 ^ 32
  pub src_fits : src + 4096 ≤ 2 ^ 32
  pub apart : (dest + 4096 ≤ src) ⊎ (src + 4096 ≤ dest)

module _ (dest src : ℕ) (word : ℕ → ℕ) (h : Separate dest src) where
  abbrev copied : ℕ → ℕ → ℕ
  copied n = upto n (λ i w. update w (u32 (dest + 4 * i)) (w (u32 (src + 4 * i)))) word

  copied-else : (n a : ℕ) → n ≤ 1024 → (a < dest) ⊎ (dest + 4 * n ≤ a) → copied n a ≡ word a
  unfolding upto update
  copied-else zero a l o = refl
  copied-else (suc n) a l o =
      let place : u32 (dest + 4 * n) ≡ dest + 4 * n = omega (arith, h.dest_fits) in
      rw place (ground (arith, copied-else n a))

  copied-word : (n i : ℕ) → n ≤ 1024 → i < n → copied n (dest + 4 * i) ≡ word (src + 4 * i)
  unfolding upto update
  copied-word zero i l o = absurd (omega arith)
  copied-word (suc n) i l o =
      let to : u32 (dest + 4 * n) ≡ dest + 4 * n = omega (arith, h.dest_fits) in
      let from : u32 (src + 4 * n) ≡ src + 4 * n = omega (arith, h.src_fits) in
      let same : copied n (src + 4 * n) ≡ word (src + 4 * n) =
        copied-else n (src + 4 * n) (omega arith) (ground (arith, h.apart)) in
      rw (to, from)
        (elim (Bool-cases (i == n)) [
          | inl e ↦ ground (arith, same)
          | inr e ↦ ground (arith, copied-word n i)
        ])

  pub copy_stack-word :
      (i : ℕ) → i < 1024 → copy_stack dest src word (dest + 4 * i) ≡ word (src + 4 * i)
  unfolding copy_stack
  copy_stack-word i l = copied-word 1024 i (omega arith) l

  pub copy_stack-else :
      (a : ℕ) → (a < dest) ⊎ (dest + 4096 ≤ a) → copy_stack dest src word a ≡ word a
  unfolding copy_stack
  copy_stack-else a o = copied-else 1024 a (omega arith) (ground arith)

sub32-u32 : (b x y : ℕ) → b < 2 ^ 32 → sub32 (u32 (b + sub32 x y)) b ≡ sub32 x y
sub32-u32 b x y h = omega arith

module _ {S : Type 0} (services : Services S) (fuel : ℕ) (k : Kernel S) where
  -- When `pr_fork_process` of the process `src`, on a list of processes with an unused address for the new
  -- structure and fuel for the length of the list, gives a process whose stack does not overlap that of `src`, then the two stacks hold
  -- the same words, the stack pointers lie equally far into their stacks, and no word outside the new stack has changed.
  pub pr_fork_process-copied :
      (src : ℕ) (xs : List ℕ) (p : ℕ) (n : Kernel S) (i a : ℕ)
      → IsList k.processes xs
      → place services fuel k ≢ null
      → place services fuel k ∉ xs
      → src ≢ place services fuel k
      → length xs ≤ fuel
      → pr_fork_process services fuel src k ≡ some (p, n)
      → Separate (n.processes.at p).kernel_stack (k.processes.at src).kernel_stack
      → i < 1024
      → (a < (n.processes.at p).kernel_stack) ⊎ ((n.processes.at p).kernel_stack + 4096 ≤ a)
      → (n.word ((n.processes.at p).kernel_stack + 4 * i)
          ≡ k.word ((k.processes.at src).kernel_stack + 4 * i))
        × (n.word a ≡ k.word a)
        × (sub32 (n.processes.at p).stack_pointer (n.processes.at p).kernel_stack
            ≡ sub32 (k.processes.at src).stack_pointer (k.processes.at src).kernel_stack)
  pr_fork_process-copied src xs p n i a l ne out other enough run apart small away =
      let (u, base, rest, made, j, stack, pointer) =
        pr_fork_process-Joined services fuel k src xs l ne out other enough in
      let q = place services fuel k in
      let from = (k.processes.at src).kernel_stack in
      let to = (n.processes.at p).kernel_stack in
      let same = some-injective _ (p, n) (sym made ∙ run) in
      let there : base ≡ to = sym stack ∙ ap (λ r. ((r.1).processes.at r.0).kernel_stack) same in
      let depth : (n.processes.at p).stack_pointer
          ≡ u32 (to + sub32 (k.processes.at src).stack_pointer from) =
        ap (λ r. ((r.1).processes.at r.0).stack_pointer) (sym same)
        ∙ pointer
        ∙ ap (λ b. u32 (b + sub32 (k.processes.at src).stack_pointer from)) there in
      let words : n.word ≡ copy_stack to from k.word =
        ap (λ r. (r.1).word) (sym same) ∙ ap (λ b. copy_stack b from k.word) there in
      (
        ap (λ w. w (to + 4 * i)) words ∙ copy_stack-word to from k.word apart i small,
        ap (λ w. w a) words ∙ copy_stack-else to from k.word apart a away,
        ap (λ x. sub32 x to) depth ∙ sub32-u32 to _ _ (omega (arith, apart.dest_fits)),
      )
