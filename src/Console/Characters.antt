-- ===== src/Console/Characters.antt =====
-- What `kc_write_character` of src/kernel/console.cpp does with every character, tabs included.
use klos.Base.{
  ℕ, zero, suc, ◌+◌, ◌-◌, ◌*◌, ◌/◌, ◌%◌, ◌<◌, ◌≤◌, ◌≡◌, false, refl, ◌∙◌, inl, inr, some, ◌==◌,
  Bool-cases, arith,
}
use klos.Console.{Console, settle, write_plain, tab_loop, kc_write_character}
use klos.Console.Write.{
  place, OnScreen, Settled, fitted, advanced, settle-Settled, write_plain-Settled, re_text,
  at_place,
}

-- Where the loop of a tab stops: at a multiple of eight, with nothing changed outside the screen.
record Stopped (p : ℕ) (text : ℕ → ℕ) (n : Console) : Type 0 where
  on_screen : OnScreen n
  at : place n ≡ p
  outside : (q : ℕ) → n.text (4000 + q) ≡ text (4000 + q)

closer :
    (x y x' y' fuel : ℕ)
    → (x % 8 == 0) ≡ false
    → x < 80
    → y < 25
    → x' < 80
    → y' * 80 + x' ≡ fitted (y * 80 + x + 1)
    → (8 - x % 8) % 8 < suc fuel
    → (8 - x' % 8) % 8 < fuel
unfolding fitted
closer x y x' y' fuel e hx hy hx' at h = ground arith

same_stop :
    (x y x' y' : ℕ)
    → (x % 8 == 0) ≡ false
    → x < 80
    → y < 25
    → x' < 80
    → y' * 80 + x' ≡ fitted (y * 80 + x + 1)
    → fitted ((y' * 80 + x' + 7) / 8 * 8) ≡ fitted ((y * 80 + x + 7) / 8 * 8)
unfolding fitted
same_stop x y x' y' e hx hy hx' at = ground arith

tab_loop-Stopped :
    (fuel : ℕ) (s : Console)
    → OnScreen s
    → (8 - s.x % 8) % 8 < fuel
    → (n : Console) × (tab_loop fuel s ≡ some n) × Stopped (fitted ((place s + 7) / 8 * 8)) s.text n
unfolding tab_loop fitted advanced
tab_loop-Stopped zero s o h = absurd (omega arith)
tab_loop-Stopped (suc fuel) s o h = elim (Bool-cases (s.x % 8 == 0)) [
  | inl e ↦ (
    s,
    rw e refl,
    record { on_screen = o; at = ground (arith, o.x_lt, o.y_lt); outside = λ q. refl },
  )
  | inr e ↦
      let w = write_plain-Settled 32 s o (λ z. absurd (omega arith)) in
      let r = write_plain 32 s in
      let (n, run, d) =
        tab_loop-Stopped fuel r w.on_screen
          (closer s.x s.y r.x r.y fuel (ground arith) o.x_lt o.y_lt w.on_screen.x_lt w.at h) in
      (
        n,
        rw e run,
        record {
          on_screen = d.on_screen;
          at =
              d.at ∙ (same_stop s.x s.y r.x r.y (ground arith) o.x_lt o.y_lt w.on_screen.x_lt w.at);
          outside = λ q. d.outside q ∙ w.outside q;
        },
      )
]

tab_place : (c p : ℕ) → c ≡ 9 → fitted ((p + 7) / 8 * 8) ≡ fitted (advanced c p)
unfolding advanced
tab_place c p e = rw e refl

-- `kc_write_character` with eight rounds for a tab: with the cursor on the screen and bytes in the
-- text memory, it returns; the cursor is again on the screen, at the place after the character, or
-- one row up where that is below the screen; the controller shows it; nothing outside the screen
-- is written.
pub kc_write_character-Settled :
    (fuel c : ℕ) (s : Console)
    → 8 ≤ fuel
    → OnScreen s
    → (n : Console) × (kc_write_character fuel c s ≡ some n)
      × Settled (fitted (advanced c (place s))) s.text n
unfolding kc_write_character advanced fitted
kc_write_character-Settled fuel c s h o = elim (Bool-cases (c == 9)) [
  | inl e ↦
      let (n, run, d) = tab_loop-Stopped fuel s o (omega arith) in
      let on = d.on_screen in
      let kept : fitted (place n) ≡ place n = ground (arith, on.x_lt, on.y_lt) in
      (
        settle n,
        rw (e, run) refl,
        at_place (fitted (place n)) (fitted (advanced c (place s))) s.text (settle n)
            (kept ∙ d.at ∙ tab_place c (place s) (ground arith))
            (re_text (fitted (place n)) n.text s.text (settle n) d.outside (
              settle-Settled n (record {
                x_le = omega (arith, on.x_lt);
                y_le = omega (arith, on.x_lt, on.y_lt);
                bytes = on.bytes;
              }))),
      )
  | inr e ↦ (write_plain c s, rw e refl, write_plain-Settled c s o (λ z. ground arith))
]
