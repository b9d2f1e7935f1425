-- ===== src/Process/Schedule.antt =====
-- Which process `pr_schedule` resumes, and when it does not end.
use klos.Base.{
  ℕ, zero, suc, ◌+◌, ◌<◌, ◌≡◌, refl, ◌≢◌, sym, subst, ◌⊎◌, none, some, List, [], ◌∷◌, ◌++◌, arith,
  length, length-append, ◌==◌, if◌then◌else◌, ◌∈◌, ◌∉◌, Distinct,
}
use klos.Process.{
  Processes, null, pr_state_running, Outcome, halted, resumed, or_root, schedule_loop, pr_schedule,
}
use klos.Process.Chain.{Chain, links, IsList}

abbrev pub states : Processes → ℕ → ℕ
states t a = (t.at a).state

-- The first running process of a list.
unfoldable pub first_running : (ℕ → ℕ) → List ℕ → Outcome
first_running state [] = halted
first_running state (x ∷ xs) =
    if state x == pr_state_running then resumed x else first_running state xs

-- From `p` the scheduler's steps, back to the root at the end of the list, lead through `zs` to `c`.
abbrev Walk : Processes → ℕ → ℕ → List ℕ → Type 0
Walk t c p [] = p ≡ c
Walk t c p (z ∷ zs) = (p ≡ z) × (z ≢ c) × Walk t c (or_root (links t z) t) zs

schedule_loop-Walk :
    (fuel p : ℕ) (zs : List ℕ) (t : Processes)
    → Walk t t.current p zs
    → length zs < fuel
    → schedule_loop fuel p t ≡ some (first_running (states t) zs)
unfolding schedule_loop first_running
schedule_loop-Walk zero p zs t w enough = absurd (omega arith)
schedule_loop-Walk (suc fuel) p [] t w enough = ground arith
schedule_loop-Walk (suc fuel) p (z ∷ zs) t w enough =
    ground (arith, schedule_loop-Walk fuel (or_root (links t z) t) zs t w.2)

mem_middle : (c : ℕ) (front bs : List ℕ) → c ∈ (front ++ c ∷ bs)
mem_middle c [] bs = ground arith
mem_middle c (x ∷ front) bs = ground (arith, mem_middle c front bs)

Chain-start : (f : ℕ → ℕ) (p c : ℕ) (front bs : List ℕ) → Chain f p (front ++ c ∷ bs) → p ≢ null
Chain-start f p c [] bs ch = ground arith
Chain-start f p c (x ∷ front) bs ch = ground arith

Distinct_middle : (c : ℕ) (front bs : List ℕ) → Distinct (front ++ c ∷ bs) → c ∉ bs
Distinct_middle c [] bs d = d.0
Distinct_middle c (x ∷ front) bs d = Distinct_middle c front bs d.1

Chain-middle :
    (f : ℕ → ℕ) (p c : ℕ) (front bs : List ℕ) → Chain f p (front ++ c ∷ bs) → Chain f (f c) bs
Chain-middle f p c [] bs ch = ch.2
Chain-middle f p c (x ∷ front) bs ch = Chain-middle f (f x) c front bs ch.2

pub ne-null_middle :
    (f : ℕ → ℕ) (p c : ℕ) (front bs : List ℕ) → Chain f p (front ++ c ∷ bs) → c ≢ null
ne-null_middle f p c [] bs ch = ch.1
ne-null_middle f p c (x ∷ front) bs ch = ne-null_middle f (f x) c front bs ch.2

or_root_self : (p : ℕ) (t : Processes) → p ≢ null → or_root p t ≡ p
or_root_self p t h = ground arith

-- A chain up to `c` is walked to `c`, and one up to NULL is walked on from the root.
Walk-before :
    (t : Processes) (c p : ℕ) (front bs : List ℕ)
    → Distinct (front ++ c ∷ bs)
    → Chain (links t) p (front ++ c ∷ bs)
    → Walk t c p front
Walk-before t c p [] bs d ch = ch.0
Walk-before t c p (a ∷ front) bs d ch =
    let on = or_root_self (links t a) t (Chain-start (links t) (links t a) c front bs ch.2) in
    (
      ch.0,
      ground (arith, mem_middle c front bs),
      subst (λ q. Walk t c q front) (sym on) (Walk-before t c (links t a) front bs d.1 ch.2),
    )

Walk-after :
    (t : Processes) (c p : ℕ) (bs front : List ℕ)
    → c ∉ bs
    → Chain (links t) p bs
    → Walk t c t.root front
    → Walk t c (or_root p t) (bs ++ front)
Walk-after t c p [] front out ch w = rw ch w
Walk-after t c p (b ∷ bs) front out ch w =
    (ground arith, ground arith, Walk-after t c (links t b) bs front (ground arith) ch.2 w)

-- Where the current process is in the list, `pr_schedule` resumes the first running process after
-- it, going round from the end of the list to its start, and stops the processor exactly when no
-- process but the current one is running. Fuel for the length of the list is enough.
pub pr_schedule-first_running :
    (fuel : ℕ) (t : Processes) (front bs : List ℕ)
    → IsList t (front ++ t.current ∷ bs)
    → length front + length bs < fuel
    → pr_schedule fuel t ≡ some (first_running (states t) (bs ++ front))
unfolding pr_schedule
pr_schedule-first_running fuel t front bs l enough =
    let c = t.current in
    let before = Walk-before t c t.root front bs l.distinct l.chain in
    let after =
      Walk-after t c (links t c) bs front (Distinct_middle c front bs l.distinct)
        (Chain-middle (links t) t.root c front bs l.chain) before in
    ground (
      arith,
      Chain-start (links t) t.root c front bs l.chain,
      ne-null_middle (links t) t.root c front bs l.chain,
      schedule_loop-Walk fuel (or_root (links t c) t) (bs ++ front) t after,
      length-append bs front,
    )

-- Where the scheduler can stand: at a process of the list.
Chain-next : (f : ℕ → ℕ) (p a : ℕ) (xs : List ℕ) → Chain f p xs → a ∈ xs → (f a ≡ null) ⊎ (f a ∈ xs)
Chain-next f p a [] ch h = cc
Chain-next f p a (x ∷ []) ch h = ground arith
Chain-next f p a (x ∷ y ∷ xs) ch h = ground (arith, Chain-next f (f x) a (y ∷ xs) ch.2)

loop_never_ends :
    (fuel p : ℕ) (xs : List ℕ) (t : Processes)
    → t.root ∈ xs
    → Chain (links t) t.root xs
    → t.current ∉ xs
    → ((a : ℕ) → a ∈ xs → states t a ≢ pr_state_running)
    → p ∈ xs
    → schedule_loop fuel p t ≡ none
unfolding schedule_loop
loop_never_ends zero p xs t r ch out idle h = refl
loop_never_ends (suc fuel) p xs t r ch out idle h = ground (
  arith,
  idle p,
  Chain-next (links t) t.root p xs ch,
  loop_never_ends fuel (or_root (links t p) t) xs t r ch out idle,
)

-- Where the list is not empty, none of its processes is running, and the current process is not in
-- it (none has run yet, or it has been taken out while its link still leads into the list or
-- nowhere), `pr_schedule` goes round for ever: no fuel is enough.
pub pr_schedule-ne-some :
    (fuel : ℕ) (t : Processes) (x : ℕ) (xs : List ℕ)
    → IsList t (x ∷ xs)
    → t.current ∉ (x ∷ xs)
    → ((a : ℕ) → a ∈ (x ∷ xs) → states t a ≢ pr_state_running)
    → (t.current ≡ null) ⊎ ((links t t.current ≡ null) ⊎ (links t t.current ∈ (x ∷ xs)))
    → pr_schedule fuel t ≡ none
unfolding pr_schedule
pr_schedule-ne-some fuel t x xs l out idle stale = ground (
  arith,
  l.chain.0,
  l.chain.1,
  loop_never_ends fuel t.root (x ∷ xs) t (ground arith) l.chain out idle,
  loop_never_ends fuel (links t t.current) (x ∷ xs) t (ground arith) l.chain out idle,
)
