-- ===== src/Memory/Stack.antt =====
-- What a stack of words in memory holds, top first.
use klos.Base.{
  ℕ, ◌+◌, ◌-◌, ◌*◌, ◌≤◌, ◌<◌, ◌≡◌, ◌≢◌, ◌∙◌, List, [], ◌∷◌, arith, length, update, update_ne,
  update_self,
}

-- `ptr` is one past the top of a stack that begins at `base` and holds `xs`.
abbrev pub Holds : (ℕ → ℕ) → ℕ → ℕ → List ℕ → Type 0
Holds word base ptr [] = ptr ≡ base
Holds word base ptr (x ∷ xs) = (4 ≤ ptr) × (word (ptr - 4) ≡ x) × Holds word base (ptr - 4) xs

pub Holds-ptr :
    (word : ℕ → ℕ) (base ptr : ℕ) (xs : List ℕ)
    → Holds word base ptr xs
    → ptr ≡ base + 4 * length xs
Holds-ptr word base ptr [] h = omega arith
Holds-ptr word base ptr (x ∷ xs) h = omega (arith, Holds-ptr word base (ptr - 4) xs h.2)

-- A write outside the words of a stack leaves it as it is.
pub Holds-update :
    (word : ℕ → ℕ) (base ptr : ℕ) (xs : List ℕ) (a v : ℕ)
    → ((k : ℕ) → k < length xs → a ≢ base + 4 * k)
    → Holds word base ptr xs
    → Holds (update word a v) base ptr xs
Holds-update word base ptr [] a v out h = h
Holds-update word base ptr (x ∷ xs) a v out h = (
  h.0,
  update_ne word a (ptr - 4) v
        (λ e. out (length xs) (omega arith) (omega (arith, Holds-ptr word base (ptr - 4) xs h.2)))
      ∙ h.1,
  Holds-update word base (ptr - 4) xs a v (λ k l. out k (omega arith)) h.2,
)

-- A word written at the pointer becomes the new top once the pointer has moved on.
pub Holds-push :
    (word : ℕ → ℕ) (base ptr : ℕ) (xs : List ℕ) (v : ℕ)
    → Holds word base ptr xs
    → Holds (update word ptr v) base (ptr + 4) (v ∷ xs)
Holds-push word base ptr xs v h =
    let back : ptr + 4 - 4 ≡ ptr = omega arith in
    let end = Holds-ptr word base ptr xs h in
    (
      omega arith,
      rw back (update_self word ptr v),
      rw back (Holds-update word base ptr xs ptr v (λ k l e. omega arith) h),
    )
