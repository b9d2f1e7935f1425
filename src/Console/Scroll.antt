-- ===== src/Console/Scroll.antt =====
-- What `kc_scroll` of src/kernel/console.cpp does to the text memory.
use klos.Base.{
  ℕ, zero, suc, ◌+◌, ◌*◌, ◌/◌, ◌%◌, ◌^◌, ◌<◌, ◌≤◌, ◌≡◌, refl, ◌∙◌, ◌&&◌, not, ltb, ◌==◌,
  if◌then◌else◌, upto, update, arith,
}
use klos.Console.{Console, width, put_text, clear_cell, copy_cell, clear_last_row, kc_scroll}

-- Every cell of the text memory holds bytes.
unfoldable pub AreBytes : Console → Type 0
AreBytes s = (i : ℕ) → s.text i < 2 ^ 8

text-copy_cell :
    (i k q : ℕ) (s : Console)
    → AreBytes s
    → (copy_cell (suc i) k s).text q ≡ (if q / 2 == i * 80 + k then s.text (q + 160) else s.text q)
unfolding copy_cell put_text update AreBytes
text-copy_cell i k q s b =
    ground (arith, b ((suc i * width + k) * 2 + 0), b ((suc i * width + k) * 2 + 1))

copy_row :
    (i n : ℕ) (s : Console)
    → n ≤ 80
    → AreBytes s
    → AreBytes (upto n (copy_cell (suc i)) s)
      × ((q : ℕ)
          → (upto n (copy_cell (suc i)) s).text q ≡ (
              if not (ltb (q / 2) (i * 80)) && ltb (q / 2) (i * 80 + n)
              then s.text (q + 160)
              else s.text q))
unfolding upto AreBytes
copy_row i zero s h b = (b, λ q. ground arith)
copy_row i (suc n) s h b =
    let r = upto n (copy_cell (suc i)) s in
    let (rb, rt) = copy_row i n s (omega arith) b in
    (
      λ q. ground (arith, text-copy_cell i n q r rb, rb q, rb (q + 160)),
      λ q. ground (arith, text-copy_cell i n q r rb, rt q, rt (q + 160)),
    )

scroll_row : ℕ → Console → Console
scroll_row i s = upto width (copy_cell (suc i)) s

scroll_row-text :
    (i : ℕ) (s : Console)
    → AreBytes s
    → AreBytes (scroll_row i s)
      × ((q : ℕ)
          → (scroll_row i s).text q ≡ (
              if not (ltb (q / 2) (i * 80)) && ltb (q / 2) (i * 80 + 80)
              then s.text (q + 160)
              else s.text q))
unfolding scroll_row
scroll_row-text i s b = copy_row i 80 s (omega arith) b

copy_rows :
    (m : ℕ) (s : Console)
    → AreBytes s
    → AreBytes (upto m scroll_row s)
      × ((q : ℕ)
          → (upto m scroll_row s).text q
            ≡ (if ltb (q / 2) (m * 80) then s.text (q + 160) else s.text q))
unfolding upto
copy_rows zero s b = (b, λ q. ground arith)
copy_rows (suc m) s b =
    let (rb, rt) = copy_rows m s b in
    let (nb, nt) = scroll_row-text m (upto m scroll_row s) rb in
    (nb, λ q. ground (arith, nt q, rt q, rt (q + 160)))

text-clear_cell :
    (i q : ℕ) (s : Console)
    → (clear_cell i s).text q ≡ (if q / 2 == i then (if q % 2 == 0 then 0 else 7) else s.text q)
unfolding clear_cell put_text update
text-clear_cell i q s = ground arith

clear_cells :
    (base n q : ℕ) (s : Console)
    → (upto n (λ k. clear_cell (base + k)) s).text q ≡ (
        if not (ltb (q / 2) base) && ltb (q / 2) (base + n)
        then (if q % 2 == 0 then 0 else 7)
        else s.text q)
unfolding upto
clear_cells base zero q s = ground arith
clear_cells base (suc n) q s = ground (
  arith,
  clear_cells base n q s,
  text-clear_cell (base + n) q (upto n (λ k. clear_cell (base + k)) s),
)

-- The text after scrolling: each row is the one that was below it, the last row is empty, and
-- nothing outside the screen is written.
unfoldable pub scrolled : (ℕ → ℕ) → ℕ → ℕ
scrolled text q =
    if ltb q 3840
    then text (q + 160)
    else if ltb q 4000
    then (if q % 2 == 0 then 0 else 7)
    else text q

-- Where the text memory holds bytes, `kc_scroll` moves each row of the screen one up, empties the
-- last row and writes nothing outside the screen.
pub text-kc_scroll : (s : Console) (q : ℕ) → AreBytes s → (kc_scroll s).text q ≡ scrolled s.text q
unfolding kc_scroll clear_last_row scrolled scroll_row
text-kc_scroll s q b =
    ground (arith, (copy_rows 24 s b).1 q, clear_cells 1920 80 q (upto 24 scroll_row s))

upto-x :
    (n : ℕ) (body : ℕ → Console → Console) (s : Console)
    → ((i : ℕ) (r : Console) → ((body i r).x ≡ r.x) × ((body i r).y ≡ r.y))
    → ((upto n body s).x ≡ s.x) × ((upto n body s).y ≡ s.y)
unfolding upto
upto-x zero body s h = (refl, refl)
upto-x (suc n) body s h =
    let (hx, hy) = h n (upto n body s) in let (ix, iy) = upto-x n body s h in (hx ∙ ix, hy ∙ iy)

copy_cell-x : (i k : ℕ) (s : Console) → ((copy_cell i k s).x ≡ s.x) × ((copy_cell i k s).y ≡ s.y)
unfolding copy_cell put_text
copy_cell-x i k s = (refl, refl)

clear_cell-x : (i : ℕ) (s : Console) → ((clear_cell i s).x ≡ s.x) × ((clear_cell i s).y ≡ s.y)
unfolding clear_cell put_text
clear_cell-x i s = (refl, refl)

pub kc_scroll-x : (s : Console) → ((kc_scroll s).x ≡ s.x) × ((kc_scroll s).y ≡ s.y)
unfolding kc_scroll clear_last_row
kc_scroll-x s =
    let rows = upto 24 (λ i. upto width (copy_cell (suc i))) s in
    let (cx, cy) = upto-x 80 (λ k. clear_cell (1920 + k)) rows (λ k r. clear_cell-x (1920 + k) r) in
    let (rx, ry) =
      upto-x 24 (λ i. upto width (copy_cell (suc i))) s
        (λ i r. upto-x 80 (copy_cell (suc i)) r (λ k q. copy_cell-x (suc i) k q)) in
    (cx ∙ rx, cy ∙ ry)

pub kc_scroll-AreBytes : (s : Console) → AreBytes s → AreBytes (kc_scroll s)
unfolding AreBytes scrolled
kc_scroll-AreBytes s b = λ q. ground (arith, text-kc_scroll s q b, b q, b (q + 160))
