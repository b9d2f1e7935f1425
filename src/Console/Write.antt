-- ===== src/Console/Write.antt =====
-- Where `kc_write_character` of src/kernel/console.cpp leaves the cursor.
use klos.Base.{
  ℕ, ◌+◌, ◌-◌, ◌*◌, ◌/◌, ◌%◌, ◌<◌, ◌≤◌, ◌≡◌, ◌≢◌, false, refl, subst, ap, ◌∙◌, inl, inr, List, ◌∷◌,
  ltb, ◌==◌, if◌then◌else◌, u8, u16, Bool-cases, update, arith,
}
use klos.Base.Bits.{bit_and_low}
use klos.Console.{Console, width, put_text, outb, kc_move_cursor, kc_scroll, settle, write_plain}
use klos.Console.Scroll.{AreBytes, scrolled, text-kc_scroll, kc_scroll-x, kc_scroll-AreBytes}

-- The cursor as an index of a cell.
abbrev pub place : Console → ℕ
place s = s.y * width + s.x

-- The cursor is on the screen, and the text memory holds bytes.
pub record OnScreen (s : Console) : Type 0 where
  pub x_lt : s.x < 80
  pub y_lt : s.y < 25
  pub bytes : AreBytes s

-- The last four writes to the controller select the two cursor registers and give them the place.
unfoldable pub Shows : Console → Type 0
Shows s =
    (rest : List (ℕ × ℕ)) × (s.ports
      ≡ (place s % 256, 0x3D5) ∷ (0x0F, 0x3D4) ∷ (place s / 256, 0x3D5) ∷ (0x0E, 0x3D4) ∷ rest)

-- A cursor that has left the screen by one cell or one row.
pub record Near (s : Console) : Type 0 where
  pub x_le : s.x ≤ 80
  pub y_le : s.y + s.x / 80 ≤ 25
  pub bytes : AreBytes s

-- One row up, when the place is below the screen.
unfoldable pub fitted : ℕ → ℕ
fitted p = if ltb p 2000 then p else p - 80

-- What settling gives: the cursor on the screen, at the place that fits, shown by the controller,
-- and no change outside the screen.
pub record Settled (p : ℕ) (text : ℕ → ℕ) (n : Console) : Type 0 where
  pub on_screen : OnScreen n
  pub at : place n ≡ p
  pub shows : Shows n
  pub outside : (q : ℕ) → n.text (4000 + q) ≡ text (4000 + q)

Shows-kc_move_cursor : (s : Console) → s.x < 80 → s.y < 25 → Shows (kc_move_cursor s.x s.y s)
unfolding Shows kc_move_cursor outb
Shows-kc_move_cursor s hx hy =
    let p = s.y * 80 + s.x in
    let small : u16 p ≡ p = omega arith in
    let high : p / 256 % 256 ≡ p / 256 = omega arith in
    (
      s.ports,
      rw (small, bit_and_low 8 p, bit_and_low 8 (p / 256))
          (ap (λ h. (p % 256, 0x3D5) ∷ (0x0F, 0x3D4) ∷ (h, 0x3D5) ∷ (0x0E, 0x3D4) ∷ s.ports) high),
    )

-- `kc_move_cursor(kc_x, kc_y)`
abbrev move_on : Console → Console
move_on n = kc_move_cursor n.x n.y n

moved :
    (p : ℕ) (text : ℕ → ℕ) (n : Console)
    → n.x < 80
    → n.y < 25
    → AreBytes n
    → place n ≡ p
    → ((q : ℕ) → n.text (4000 + q) ≡ text (4000 + q))
    → Settled p text (move_on n)
unfolding kc_move_cursor outb AreBytes
moved p text n hx hy b e o = record {
  on_screen = record { x_lt = hx; y_lt = hy; bytes = b };
  at = e;
  shows = Shows-kc_move_cursor n hx hy;
  outside = o;
}

-- A cursor below the screen: the text scrolls.
scrolled_up :
    (s : Console)
    → s.x < 80
    → s.y < 25
    → AreBytes s
    → Settled (place s) s.text (move_on (kc_scroll s))
unfolding scrolled
scrolled_up s hx hy b =
    let (ex, ey) = kc_scroll-x s in
    moved (place s) s.text (kc_scroll s) (omega arith) (omega arith) (kc_scroll-AreBytes s b)
      (omega arith) (λ q. ground (arith, text-kc_scroll s (4000 + q) b))

-- The end of settling, for a cursor within a row.
lowered :
    (s : Console)
    → s.x < 80
    → s.y ≤ 25
    → AreBytes s
    → Settled
        (fitted (place s))
        s.text
        (move_on (if ltb 24 s.y then kc_scroll (record s { y = s.y - 1 }) else s))
unfolding fitted AreBytes
lowered s hx hy b = elim (Bool-cases (ltb 24 s.y)) [
  | inl e ↦
      let up : place (record s { y = s.y - 1 }) ≡ fitted (place s) = ground arith in
      rw e (
        subst (λ p. Settled p s.text (move_on (kc_scroll (record s { y = s.y - 1 })))) up
          (scrolled_up (record s { y = s.y - 1 }) hx (ground arith) b))
  | inr e ↦ rw e (moved (fitted (place s)) s.text s hx (ground arith) b (ground arith) (λ q. refl))
]

pub settle-Settled : (s : Console) → Near s → Settled (fitted (place s)) s.text (settle s)
unfolding settle AreBytes
settle-Settled s h = elim (Bool-cases (ltb s.x 80)) [
  | inl e ↦ rw e (lowered s (ground arith) (omega arith) h.bytes)
  | inr e ↦
      let ex : s.x ≡ 80 = ground (arith, h.x_le) in
      let low : u8 (s.y + 1) ≡ s.y + 1 = omega arith in
      let same : (s.y + 1) * 80 + 0 ≡ place s = omega arith in
      let n = record s { x = 0; y = s.y + 1 } in
      rw (e, low)
        (subst
          (λ p.
            Settled (fitted p) s.text
              (move_on (if ltb 24 n.y then kc_scroll (record n { y = n.y - 1 }) else n)))
          same (lowered n (omega arith) (omega arith) h.bytes))
]

-- The place after a character: a new row for '\n', the next multiple of eight for a tab.
unfoldable pub advanced : ℕ → ℕ → ℕ
advanced c p = if c == 10 then (p / 80 + 1) * 80 else if c == 9 then (p + 7) / 8 * 8 else p + 1

-- The cell for c, before the cursor is settled.
abbrev put_cell : ℕ → Console → Console
put_cell c s = put_text ((s.x + s.y * width) * 2 + 1) 7 (put_text ((s.x + s.y * width) * 2 + 0) c s)

put_cell-text :
    (c : ℕ) (s : Console)
    → OnScreen s
    → AreBytes (put_cell c s) × ((q : ℕ) → (put_cell c s).text (4000 + q) ≡ s.text (4000 + q))
unfolding put_text update AreBytes
put_cell-text c s o = (λ q. ground (arith, o.bytes q), λ q. ground (arith, o.x_lt, o.y_lt))

pub re_text :
    (p : ℕ) (a b : ℕ → ℕ) (n : Console)
    → ((q : ℕ) → a (4000 + q) ≡ b (4000 + q))
    → Settled p a n
    → Settled p b n
re_text p a b n h d = record {
  on_screen = d.on_screen;
  at = d.at;
  shows = d.shows;
  outside = λ q. d.outside q ∙ h q;
}

pub at_place :
    (p p' : ℕ) (text : ℕ → ℕ) (n : Console) → p ≡ p' → Settled p text n → Settled p' text n
at_place p p' text n e d = subst (λ z. Settled z text n) e d

pub write_plain-Settled :
    (c : ℕ) (s : Console)
    → OnScreen s
    → c ≢ 9
    → Settled (fitted (advanced c (place s))) s.text (write_plain c s)
unfolding write_plain advanced AreBytes put_text
write_plain-Settled c s o h =
    let (b, t) = put_cell-text c s o in
    elim (Bool-cases (c == 10)) [
      | inl e ↦
          let low : u8 (s.y + 1) ≡ s.y + 1 = omega (arith, o.y_lt) in
          let n = record s { x = 0; y = s.y + 1 } in
          rw (e, low)
            (at_place (fitted (place n)) (fitted ((place s / 80 + 1) * 80)) s.text (settle n)
              (ap fitted (omega (arith, o.x_lt)))
              (settle-Settled n
                (record { x_le = omega arith; y_le = omega (arith, o.y_lt); bytes = o.bytes })))
      | inr e ↦
          let low : u8 (s.x + 1) ≡ s.x + 1 = omega (arith, o.x_lt) in
          let tab : (c == 9) ≡ false = ground arith in
          let n = record (put_cell c s) { x = s.x + 1 } in
          rw (e, low, tab)
            (at_place (fitted (place n)) (fitted (place s + 1)) s.text (settle n)
              (ap fitted (omega arith))
              (re_text (fitted (place n)) (put_cell c s).text s.text (settle n) t (
                settle-Settled n (record {
                  x_le = omega (arith, o.x_lt);
                  y_le = omega (arith, o.x_lt, o.y_lt);
                  bytes = b;
                }))))
    ]
