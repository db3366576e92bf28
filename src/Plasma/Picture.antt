-- ===== src/Plasma/Picture.antt =====
-- The picture that `doplasma` of plasma.c draws.
use builds.Base.{
  ℕ, zero, suc, ◌+◌, ◌*◌, ◌≤◌, ◌<◌, ◌≡◌, refl, ap, ◌∙◌, sym, arith, u8, Memory, update_self,
  update_ne, ◌⊎◌,
}
use builds.Plasma.{sinus, Plasma, wave, draw_row, draw, doplasma}

-- The sum of two sine waves, from the phases `a` and `b` with steps `da` and `db`, at `k`.
unfoldable pub sums : ℕ → ℕ → ℕ → ℕ → ℕ → ℕ
sums a b da db k = u8 (sinus (u8 (a + da * k)) + sinus (u8 (b + db * k)))

-- The character of a picture in the row `r` and the column `c`.
unfoldable pub plasma_at : Plasma → ℕ → ℕ → ℕ
plasma_at s r c = u8 (sums s.c2_a s.c2_b 3 7 c + sums s.c1_a s.c1_b 4 9 r)

wave-kept :
    (n i a b da db : ℕ) (buf : Memory) (p : ℕ)
    → p < i
    → i + n < 256
    → wave n i a b da db buf p ≡ buf p
unfolding wave
wave-kept zero i a b da db buf p h room = refl
wave-kept (suc n) i a b da db buf p h room =
    wave-kept n (u8 (i + 1)) (u8 (a + da)) (u8 (b + db)) da db _ p (omega arith) (omega arith)
    ∙ update_ne buf i p _ (omega arith)

sums-suc : (a b da db k : ℕ) → sums (u8 (a + da)) (u8 (b + db)) da db k ≡ sums a b da db (suc k)
unfolding sums
sums-suc a b da db k =
    let left : u8 (u8 (a + da) + da * k) ≡ u8 (a + da * suc k) = omega arith in
    let right : u8 (u8 (b + db) + db * k) ≡ u8 (b + db * suc k) = omega arith in rw (left, right)

sums-zero : (a b da db : ℕ) → a < 256 → b < 256 → sums a b da db 0 ≡ u8 (sinus a + sinus b)
unfolding sums
sums-zero a b da db ha hb =
    let left : u8 (a + da * 0) ≡ a = omega arith in
    let right : u8 (b + db * 0) ≡ b = omega arith in rw (left, right)

wave-at :
    (n i a b da db : ℕ) (buf : Memory) (k : ℕ)
    → a < 256
    → b < 256
    → k < n
    → i + n < 256
    → wave n i a b da db buf (i + k) ≡ sums a b da db k
unfolding wave
wave-at zero i a b da db buf k ha hb h room = absurd (omega arith)
wave-at (suc n) i a b da db buf zero ha hb h room =
    ap (wave (suc n) i a b da db buf) (omega arith)
    ∙ wave-kept n (u8 (i + 1)) (u8 (a + da)) (u8 (b + db)) da db _ i (omega arith) (omega arith)
    ∙ update_self buf i _
    ∙ sym (sums-zero a b da db ha hb)
wave-at (suc n) i a b da db buf (suc k) ha hb h room =
    ap (wave (suc n) i a b da db buf) (omega arith)
    ∙ wave-at n (u8 (i + 1)) (u8 (a + da)) (u8 (b + db)) da db _ k (omega arith) (omega arith)
        (omega arith) (omega arith)
    ∙ sums-suc a b da db k

wave-start :
    (n a b da db : ℕ) (buf : Memory) (k : ℕ)
    → a < 256
    → b < 256
    → k < n
    → n < 256
    → wave n 0 a b da db buf k ≡ sums a b da db k
wave-start n a b da db buf k ha hb h room =
    ap (wave n 0 a b da db buf) (omega arith) ∙ wave-at n 0 a b da db buf k ha hb h (omega arith)

-- The pages: a row, then the rows.
draw_row-elsewhere :
    (n i : ℕ) (xbuf : Memory) (y scrn : ℕ) (m : Memory) (p : ℕ)
    → (p < scrn) ⊎ (scrn + n ≤ p)
    → draw_row n i xbuf y scrn m p ≡ m p
unfolding draw_row
draw_row-elsewhere zero i xbuf y scrn m p h = refl
draw_row-elsewhere (suc n) i xbuf y scrn m p h =
    draw_row-elsewhere n (u8 (i + 1)) xbuf y (scrn + 1) _ p (omega arith)
    ∙ update_ne m scrn p _ (omega arith)

draw_row-at :
    (n i : ℕ) (xbuf : Memory) (y scrn : ℕ) (m : Memory) (k : ℕ)
    → k < n
    → i + n < 256
    → draw_row n i xbuf y scrn m (scrn + k) ≡ u8 (xbuf (i + k) + y)
unfolding draw_row
draw_row-at zero i xbuf y scrn m k h room = absurd (omega arith)
draw_row-at (suc n) i xbuf y scrn m zero h room =
    ap (draw_row (suc n) i xbuf y scrn m) (omega arith)
    ∙ draw_row-elsewhere n (u8 (i + 1)) xbuf y (scrn + 1) _ scrn (omega arith)
    ∙ update_self m scrn _
    ∙ ap (λ j. u8 (xbuf j + y)) (omega arith)
draw_row-at (suc n) i xbuf y scrn m (suc k) h room =
    ap (draw_row (suc n) i xbuf y scrn m) (omega arith)
    ∙ draw_row-at n (u8 (i + 1)) xbuf y (scrn + 1) _ k (omega arith) (omega arith)
    ∙ ap (λ j. u8 (xbuf j + y)) (omega arith)

draw-elsewhere :
    (n ii : ℕ) (xbuf ybuf : Memory) (scrn : ℕ) (m : Memory) (p : ℕ)
    → (p < scrn) ⊎ (scrn + n * 40 ≤ p)
    → draw n ii xbuf ybuf scrn m p ≡ m p
unfolding draw
draw-elsewhere zero ii xbuf ybuf scrn m p h = refl
draw-elsewhere (suc n) ii xbuf ybuf scrn m p h =
    draw-elsewhere n (u8 (ii + 1)) xbuf ybuf (scrn + 40) _ p (omega arith)
    ∙ draw_row-elsewhere 40 0 xbuf (ybuf ii) scrn m p (omega arith)

draw-at :
    (n ii : ℕ) (xbuf ybuf : Memory) (scrn : ℕ) (m : Memory) (r c : ℕ)
    → r < n
    → c < 40
    → ii + n < 256
    → draw n ii xbuf ybuf scrn m (scrn + r * 40 + c) ≡ u8 (xbuf c + ybuf (ii + r))
unfolding draw
draw-at zero ii xbuf ybuf scrn m r c h hc room = absurd (omega arith)
draw-at (suc n) ii xbuf ybuf scrn m zero c h hc room =
    ap (draw (suc n) ii xbuf ybuf scrn m) (omega arith)
    ∙ draw-elsewhere n (u8 (ii + 1)) xbuf ybuf (scrn + 40) _ (scrn + c) (omega arith)
    ∙ draw_row-at 40 0 xbuf (ybuf ii) scrn m c hc (omega arith)
    ∙ ap (λ j. u8 (xbuf j + ybuf ii)) (omega arith)
    ∙ ap (λ j. u8 (xbuf c + ybuf j)) (omega arith)
draw-at (suc n) ii xbuf ybuf scrn m (suc r) c h hc room =
    ap (draw (suc n) ii xbuf ybuf scrn m) (omega arith)
    ∙ draw-at n (u8 (ii + 1)) xbuf ybuf (scrn + 40) _ r c (omega arith) hc (omega arith)
    ∙ ap (λ j. u8 (xbuf c + ybuf j)) (omega arith)

-- The phases are bytes, as the type of the statics says.
pub record HasBytes (s : Plasma) : Type 0 where
  pub c1_a : s.c1_a < 256
  pub c1_b : s.c1_b < 256
  pub c2_a : s.c2_a < 256
  pub c2_b : s.c2_b < 256

-- Wherever the page is, with phases that are bytes and whatever the static buffers held, the
-- character in each row and column of the page is the sum of a wave of the column and one of the row.
pub doplasma-picture :
    (scrn : ℕ) (s : Plasma) (r c : ℕ)
    → HasBytes s
    → r < 25
    → c < 40
    → (doplasma scrn s).memory (scrn + r * 40 + c) ≡ plasma_at s r c
unfolding doplasma plasma_at
doplasma-picture scrn s r c bytes hr hc =
    draw-at 25 0 _ _ scrn s.memory r c hr hc (omega arith)
    ∙ rw (
      wave-start 40 s.c2_a s.c2_b 3 7 s.xbuf c bytes.c2_a bytes.c2_b hc (omega arith),
      wave-at 25 0 s.c1_a s.c1_b 4 9 s.ybuf r bytes.c1_a bytes.c1_b hr (omega arith),
    )

-- Outside the 1000 characters of its page, `doplasma` changes nothing in the memory.
pub doplasma-elsewhere :
    (scrn : ℕ) (s : Plasma) (p : ℕ)
    → (p < scrn) ⊎ (scrn + 1000 ≤ p)
    → (doplasma scrn s).memory p ≡ s.memory p
unfolding doplasma
doplasma-elsewhere scrn s p h = draw-elsewhere 25 0 _ _ scrn s.memory p (omega arith)
