-- ===== src/Process/Chain.antt =====
-- What a list linked through `next_process` stands for.
use klos.Base.{
  ℕ, ◌≤◌, ◌≡◌, refl, ◌≢◌, ◌∙◌, List, [], ◌∷◌, arith, update, ◌==◌, ◌∈◌, Distinct, if◌then◌else◌,
}
use klos.Process.{Processes, null, set_next}

-- From `p` the links `next` lead through `xs` and end at NULL.
abbrev pub Chain : (ℕ → ℕ) → ℕ → List ℕ → Type 0
Chain next p [] = p ≡ null
Chain next p (x ∷ xs) = (p ≡ x) × (x ≢ null) × Chain next (next x) xs

abbrev pub links : Processes → ℕ → ℕ
links t a = (t.at a).next_process

-- The list that begins at `pr_root` holds the processes `xs`, none of them twice.
pub record IsList (t : Processes) (xs : List ℕ) : Type 0 where
  pub chain : Chain (links t) t.root xs
  pub distinct : Distinct xs

pub Chain-frame :
    (f g : ℕ → ℕ) (p : ℕ) (xs : List ℕ)
    → ((a : ℕ) → a ∈ xs → g a ≡ f a)
    → Chain f p xs
    → Chain g p xs
Chain-frame f g p [] same c = c
Chain-frame f g p (x ∷ xs) same c =
    (c.0, c.1, Chain-frame f g (g x) xs (λ a i. same a (ground arith)) (ground (arith, same x)))

-- `u` differs from `t` only in links: every structure keeps its other fields.
pub record SameButLinks (t u : Processes) : Type 0 where
  pub fields : (a : ℕ) → record (u.at a) { next_process = 0 } ≡ record (t.at a) { next_process = 0 }
  pub current : u.current ≡ t.current
  pub next_pid : u.next_pid ≡ t.next_pid

pub set_next-SameButLinks : (p q : ℕ) (t : Processes) → SameButLinks t (set_next p q t)
unfolding set_next update
set_next-SameButLinks p q t = record { fields = λ a. ground arith; current = refl; next_pid = refl }

pub SameButLinks-trans :
    {t u v : Processes} → SameButLinks t u → SameButLinks u v → SameButLinks t v
SameButLinks-trans a b = record {
  fields = λ x. b.fields x ∙ a.fields x;
  current = b.current ∙ a.current;
  next_pid = b.next_pid ∙ a.next_pid;
}

pub links-set_next :
    (p q a : ℕ) (t : Processes) → links (set_next p q t) a ≡ (if a == p then q else links t a)
unfolding set_next update
links-set_next p q a t = ground arith

-- The processes by pid, in ascending order.
abbrev pub IsSorted : (ℕ → ℕ) → List ℕ → Type 0
IsSorted pid [] = Unit
IsSorted pid (x ∷ []) = Unit
IsSorted pid (x ∷ y ∷ xs) = (pid x ≤ pid y) × IsSorted pid (y ∷ xs)
