-- ===== src/User.antt =====
-- The user program of src/apps/helloworld.c. The system calls are assembly (src/apps/libc.s) and a parameter; where the
-- compiler puts literals and the array of digits is one too.
pub mod Output
pub mod Program
mod Examples
use klos.Base.{
  ℕ, zero, suc, ◌+◌, ◌-◌, ◌*◌, Bool, false, ◌||◌, not, Option, none, some, ◌==◌, if◌then◌else◌, u32,
  update, upto, bit_and, ◌>>>◌, ◌>>=◌,
}

-- `_sys_write(string, length)` reads the memory of the program; the others give a number.
pub record SystemCalls (S : Type 0) : Type 0 where
  pub sys_write : (byte : ℕ → ℕ) → (string length : ℕ) → S → Option S
  pub sys_getpid : S → ℕ × S
  pub sys_fork : S → ℕ × S

-- The addresses of the literals, in the order of the source, and of `kc_hex_chars`.
pub record Addresses : Type 0 where
  pub zero_digit : ℕ
  pub letter_x : ℕ
  pub my_process : ℕ
  pub new_line : ℕ
  pub fork_returned : ℕ
  pub left : ℕ
  pub right : ℕ
  pub kc_hex_chars : ℕ

-- `none` means that the fuel ran out.
unfoldable pub strlen_loop : (fuel : ℕ) → (byte : ℕ → ℕ) → (str n : ℕ) → Option ℕ
strlen_loop zero byte str n = none
strlen_loop (suc fuel) byte str n =
    let rest = strlen_loop fuel byte (u32 (str + 1)) (u32 (n + 1)) in
    if byte str == 0 then some n else rest

unfoldable pub strlen : (fuel : ℕ) → (byte : ℕ → ℕ) → (str : ℕ) → Option ℕ
strlen fuel byte str = strlen_loop fuel byte str 0

-- The two loops that fill the array of digits.
unfoldable pub fill_chars : (chars : ℕ) → (ℕ → ℕ) → ℕ → ℕ
fill_chars chars byte =
    upto 6 (λ k b. update b (chars + (10 + k)) (65 + (10 + k) - 10))
      (upto 10 (λ i b. update b (chars + i) (48 + i)) byte)

module _ {S : Type 0} (calls : SystemCalls S) (at : Addresses) (fuel : ℕ) where
  open calls use {sys_write, sys_getpid, sys_fork}

  unfoldable pub print_string : (byte : ℕ → ℕ) → (str : ℕ) → S → Option S
  print_string byte str s = strlen fuel byte str >>= λ n. sys_write byte str n s

  -- The rounds of `print_hex` from i = n - 1 down to 0.
  unfoldable pub digits_loop : (byte : ℕ → ℕ) → (n nr : ℕ) → Bool → S → Option S
  digits_loop byte zero nr j s = some s
  digits_loop byte (suc i) nr j s =
      let tmp = bit_and (nr >>> (i * 4)) 0xF in
      let started = j || not (tmp == 0) in
      let shown = if started then sys_write byte (at.kc_hex_chars + tmp) 1 s else some s in
      shown >>= λ r. digits_loop byte i nr started r

  unfoldable pub print_hex : (byte : ℕ → ℕ) → (nr : ℕ) → S → Option S
  print_hex byte nr s = do
    let filled = fill_chars at.kc_hex_chars byte
    r₁ ← sys_write filled at.zero_digit 1 s
    r₂ ← sys_write filled at.letter_x 1 r₁
    if nr == 0 then sys_write filled at.zero_digit 1 r₂ else digits_loop filled 8 nr false r₂

  -- What `print_hex` writes to its array is gone when it returns.
  unfoldable pub main : (byte : ℕ → ℕ) → S → Option S
  main byte s = do
    let (pid, s₁) = sys_getpid s
    s₂ ← print_string byte at.my_process s₁
    s₃ ← print_hex byte pid s₂
    s₄ ← print_string byte at.new_line s₃
    let (frk, s₅) = sys_fork s₄
    s₆ ← print_string byte at.new_line s₅
    s₇ ← print_string byte at.fork_returned s₆
    s₈ ← print_hex byte frk s₇
    let (again, s₉) = sys_getpid s₈
    s₁₀ ← print_string byte at.left s₉
    s₁₁ ← print_hex byte again s₁₀
    print_string byte at.right s₁₁
