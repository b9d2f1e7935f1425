-- ===== src/Process/Inject.antt =====
-- `pr_inject_process` inserts before the first process with a larger pid.
use klos.Base.{
  ℕ, zero, suc, ◌≤◌, ◌<◌, ◌≡◌, refl, ◌≢◌, ◌∙◌, ap, sym, subst, inl, inr, true, some, List, [], ◌∷◌,
  arith, length, ltb, ◌==◌, if◌then◌else◌, Bool-cases, ◌∉◌, Distinct,
}
use klos.Process.{Processes, null, set_next, inject_loop, pr_inject_process}
use klos.Process.Chain.{
  Chain, links, IsList, Chain-frame, SameButLinks, SameButLinks-trans, set_next-SameButLinks,
  links-set_next,
}

unfoldable pub insert_by_pid : (ℕ → ℕ) → ℕ → List ℕ → List ℕ
insert_by_pid pid proc [] = proc ∷ []
insert_by_pid pid proc (x ∷ xs) =
    if ltb (pid proc) (pid x) then proc ∷ x ∷ xs else x ∷ insert_by_pid pid proc xs

abbrev pub pids : Processes → ℕ → ℕ
pids t a = (t.at a).pid

-- `proc` linked in behind `x`.
abbrev linked : ℕ → ℕ → Processes → Processes
linked x proc t = set_next x proc (set_next proc (links t x) t)

links-linked :
    (x proc a : ℕ) (t : Processes)
    → links (linked x proc t) a
      ≡ (if a == x then proc else if a == proc then links t x else links t a)
links-linked x proc a t =
    links-set_next x proc a (set_next proc (links t x) t)
    ∙ ap (λ n. if a == x then proc else n) (links-set_next proc (links t x) a t)

-- The outcome of the loop behind the process `x`, before the processes `xs`.
record Injected (fuel x proc : ℕ) (xs : List ℕ) (t u : Processes) : Type 0 where
  done : inject_loop fuel x proc t ≡ some (true, u)
  chain : Chain (links u) (links u x) (insert_by_pid (pids t) proc xs)
  frame : (a : ℕ) → a ∉ (x ∷ xs) → a ≢ proc → links u a ≡ links t a
  same : SameButLinks t u
  root : u.root ≡ t.root

inject_loop-Injected :
    (fuel x proc : ℕ) (xs : List ℕ) (t : Processes)
    → x ≢ null
    → proc ≢ null
    → proc ∉ (x ∷ xs)
    → Distinct (x ∷ xs)
    → Chain (links t) (links t x) xs
    → length xs < fuel
    → (u : Processes) × Injected fuel x proc xs t u
unfolding inject_loop insert_by_pid
inject_loop-Injected zero x proc xs t nx np out dis c enough = absurd (omega arith)
inject_loop-Injected (suc fuel) x proc [] t nx np out dis c enough = (
  linked x proc t,
  record {
    done = ground arith;
    chain = ground (arith, links-linked x proc x t, links-linked x proc proc t);
    frame = λ a h ne. ground (arith, links-linked x proc a t);
    same = SameButLinks-trans (set_next-SameButLinks proc _ t) (set_next-SameButLinks x proc _);
    root = refl;
  },
)
inject_loop-Injected (suc fuel) x proc (y ∷ ys) t nx np out dis c enough =
    let next_y : links t x ≡ y = c.0 in
    let kept : links (linked x proc t) y ≡ links t y = ground (arith, links-linked x proc y t) in
    elim (Bool-cases (ltb (pids t proc) (pids t y))) [
      | inl before ↦ (
        linked x proc t,
        record {
          done = ground arith;
          chain = rw before (
            ground (arith, links-linked x proc x t),
            np,
            (
              ground (arith, links-linked x proc proc t),
              c.1,
              Chain-frame (links t) (links (linked x proc t)) (links (linked x proc t) y) ys
                  (λ a i. ground (arith, links-linked x proc a t))
                  (subst (λ p. Chain (links t) p ys) (sym kept) c.2),
            ),
          );
          frame = λ a h ne. ground (arith, links-linked x proc a t);
          same =
              SameButLinks-trans (set_next-SameButLinks proc _ t) (set_next-SameButLinks x proc _);
          root = refl;
        },
      )
      | inr after ↦
          let (u, r) =
            inject_loop-Injected fuel y proc ys t c.1 np (ground arith) dis.1 c.2 (omega arith) in
          (
            u,
            record {
              done = ground (arith, r.done);
              chain = rw after (ground (arith, r.frame x), c.1, r.chain);
              frame = λ a h ne. ground (arith, r.frame a);
              same = r.same;
              root = r.root;
            },
          )
    ]

not-mem-insert :
    (pid : ℕ → ℕ) (proc a : ℕ) (xs : List ℕ) → a ∉ xs → a ≢ proc → a ∉ insert_by_pid pid proc xs
unfolding insert_by_pid
not-mem-insert pid proc a [] h ne = ground arith
not-mem-insert pid proc a (x ∷ xs) h ne = ground (arith, not-mem-insert pid proc a xs)

insert-Distinct :
    (pid : ℕ → ℕ) (proc : ℕ) (xs : List ℕ)
    → proc ∉ xs
    → Distinct xs
    → Distinct (insert_by_pid pid proc xs)
unfolding insert_by_pid
insert-Distinct pid proc [] out dis = ground arith
insert-Distinct pid proc (x ∷ xs) out dis = elim (Bool-cases (ltb (pid proc) (pid x))) [
  | inl before ↦ rw before (out, dis)
  | inr after ↦ rw after (
    not-mem-insert pid proc x xs dis.0 (ground arith),
    insert-Distinct pid proc xs (ground arith) dis.1,
  )
]

-- `proc` linked in before the first process.
abbrev fronted : ℕ → Processes → Processes
fronted proc t = record (set_next proc t.root t) { root = proc }

fronted-SameButLinks : (proc : ℕ) (t : Processes) → SameButLinks t (fronted proc t)
fronted-SameButLinks proc t =
    let same = set_next-SameButLinks proc t.root t in
    record { fields = same.fields; current = same.current; next_pid = same.next_pid }

fronted-Chain :
    (proc : ℕ) (xs : List ℕ) (t : Processes)
    → proc ≢ null
    → proc ∉ xs
    → Chain (links t) t.root xs
    → Chain (links (fronted proc t)) (fronted proc t).root (proc ∷ xs)
fronted-Chain proc xs t np out c =
    let first : links (fronted proc t) proc ≡ t.root =
      ground (arith, links-set_next proc t.root proc t) in
    (
      refl,
      np,
      Chain-frame (links t) (links (fronted proc t)) _ xs
          (λ a i. ground (arith, links-set_next proc t.root a t))
          (subst (λ p. Chain (links t) p xs) (sym first) c),
    )

inject-IsList :
    (fuel proc : ℕ) (xs : List ℕ) (t : Processes)
    → proc ≢ null
    → proc ∉ xs
    → Distinct xs
    → Chain (links t) t.root xs
    → length xs ≤ fuel
    → (u : Processes) × (pr_inject_process fuel proc t ≡ some (true, u))
      × Chain (links u) u.root (insert_by_pid (pids t) proc xs)
      × SameButLinks t u
unfolding pr_inject_process insert_by_pid
inject-IsList fuel proc [] t np out dis c enough =
    (fronted proc t, ground arith, fronted-Chain proc [] t np out c, fronted-SameButLinks proc t)
inject-IsList fuel proc (x ∷ xs) t np out dis c enough =
    elim (Bool-cases (ltb (pids t proc) (pids t x))) [
      | inl before ↦ (
        fronted proc t,
        ground arith,
        rw before (fronted-Chain proc (x ∷ xs) t np out c),
        fronted-SameButLinks proc t,
      )
      | inr after ↦
          let (u, r) = inject_loop-Injected fuel x proc xs t c.1 np out dis c.2 enough in
          (u, ground (arith, r.done), rw after (r.root ∙ c.0, c.1, r.chain), r.same)
    ]

module _ (fuel proc : ℕ) {t : Processes} {xs : List ℕ} where
  -- Given fuel for the length of the list, `pr_inject_process` succeeds, puts the process before the
  -- first one whose pid is larger than its own, and changes nothing but links and the root.
  pub pr_inject_process-IsList :
      proc ≢ null
      → proc ∉ xs
      → IsList t xs
      → length xs ≤ fuel
      → (u : Processes) × (pr_inject_process fuel proc t ≡ some (true, u))
        × IsList u (insert_by_pid (pids t) proc xs)
        × SameButLinks t u
  pr_inject_process-IsList np out l enough =
      let (u, run, c, same) = inject-IsList fuel proc xs t np out l.distinct l.chain enough in
      (
        u,
        run,
        record { chain = c; distinct = insert-Distinct (pids t) proc xs out l.distinct },
        same,
      )
