-- ===== src/Graphics/Lines.antt =====
-- The lines of tgidemo.c: they lie on the screen, and the loop over them ends.
use builds.Base.{
  ℕ, zero, suc, ◌+◌, ◌-◌, ◌*◌, ◌/◌, ◌^◌, ◌≤◌, ◌<◌, ◌≡◌, refl, arith, leb, u16, Bool-cases, some,
  inl, inr, List, [], ◌∷◌, ℤ, pos, negsuc, pos_part, neg_part, ◌+ℤ◌, ◌-ℤ◌, ◌*ℤ◌, ◌≤ℤ◌, div_trunc,
  s16, s16-fits,
}
use native.Mathlib.Nat.{mul-le-mul}
use builds.Graphics.{
  Draw, tgi_setpalette, tgi_setcolor, tgi_line, tgi_lineto, tgi_gotoxy, tgi_bar, tgi_ellipse,
  tgi_clear, cgetc, tgi_unload, border, Resolution, int, less, ellipses, circles, sine, do_diagram,
  lines, Color, fore, other,
}

-- A point of the screen.
abbrev pub OnScreen : Resolution → ℤ → ℤ → Type 0
OnScreen res x y = (pos 0 ≤ℤ x) × (x ≤ℤ pos res.max_x) × (pos 0 ≤ℤ y) × (y ≤ℤ pos res.max_y)

-- The ends of all lines are points of the screen.
abbrev pub AllOnScreen : Resolution → List Draw → Type 0
AllOnScreen res [] = Unit {0}
AllOnScreen res (tgi_line x y x' y' ∷ calls) =
    OnScreen res x y × OnScreen res x' y' × AllOnScreen res calls
AllOnScreen res (tgi_lineto x y ∷ calls) = OnScreen res x y × AllOnScreen res calls
AllOnScreen res (tgi_gotoxy x y ∷ calls) = OnScreen res x y × AllOnScreen res calls
AllOnScreen res (tgi_setpalette ∷ calls) = AllOnScreen res calls
AllOnScreen res (tgi_setcolor c ∷ calls) = AllOnScreen res calls
AllOnScreen res (tgi_bar x y x' y' ∷ calls) = AllOnScreen res calls
AllOnScreen res (tgi_ellipse x y rx ry ∷ calls) = AllOnScreen res calls
AllOnScreen res (tgi_clear ∷ calls) = AllOnScreen res calls
AllOnScreen res (cgetc ∷ calls) = AllOnScreen res calls
AllOnScreen res (tgi_unload ∷ calls) = AllOnScreen res calls
AllOnScreen res (border c ∷ calls) = AllOnScreen res calls

-- The coordinates are numbers of type int, there is room for the axes, and the screen is not higher than wide.
pub record HasAxes (res : Resolution) : Type 0 where
  pub wide : res.max_x < 2 ^ 14
  pub high : 22 ≤ res.max_y
  pub landscape : res.max_y ≤ res.max_x

abbrev size : ℤ → ℕ
size z = pos_part z + neg_part z

int_fits : (n : ℕ) → n < 2 ^ 15 → int n ≡ pos n
int_fits n h = s16-fits (pos n) (omega arith) (omega arith)

size_product :
    (amp : ℕ) (s : ℤ) → negsuc 255 ≤ℤ s → s ≤ℤ pos 256 → size (pos amp *ℤ (pos 0 -ℤ s)) ≤ amp * 256
unfolding ◌*ℤ◌ ◌-ℤ◌
size_product amp (pos k) lo hi =
    let m : amp * k ≤ amp * 256 =
      mul-le-mul {n₁ = amp} {m₁ = k} {n₂ = amp} {m₂ = 256} (omega arith) (omega arith) in
    ground arith
size_product amp (negsuc k) lo hi =
    let m : amp * suc k ≤ amp * 256 =
      mul-le-mul {n₁ = amp} {m₁ = suc k} {n₂ = amp} {m₂ = 256} (omega arith) (omega arith) in
    ground arith

size_quotient : (z : ℤ) (amp : ℕ) → size z ≤ amp * 256 → size (div_trunc z 256) ≤ amp
unfolding div_trunc
size_quotient (pos n) amp h = ground arith
size_quotient (negsuc n) amp h = ground arith

s16_small : (z : ℤ) → size z < 2 ^ 15 → s16 z ≡ z
s16_small z h = s16-fits z (ground arith) (ground arith)

add_pos : (a b : ℕ) → pos a +ℤ pos b ≡ pos (a + b)
unfolding ◌+ℤ◌
add_pos a b = ground arith

sub_pos : (a b : ℕ) → b ≤ a → pos a -ℤ pos b ≡ pos (a - b)
unfolding ◌-ℤ◌
sub_pos a b h = ground arith

less_fits : (n k : ℕ) → k ≤ n → n < 2 ^ 15 → less n k ≡ pos (n - k)
less_fits n k h fits =
    let wrap : u16 (n + 2 ^ 16 - k) ≡ n - k = omega arith in
    rw (wrap) (int_fits (n - k) (omega arith))

x_point :
    (m i : ℕ)
    → m < 2 ^ 14 + 2 ^ 13
    → i ≤ 360
    → (s16 (pos 10 +ℤ int (m * i / 360)) ≡ pos (10 + m * i / 360)) × (m * i / 360 ≤ m)
x_point m i h k =
    let most : m * i ≤ m * 360 = mul-le-mul {n₁ = m} {m₁ = i} {n₂ = m} {m₂ = 360} (omega arith) k in
    let bound : m * i / 360 ≤ m = omega arith in
    (
      rw (int_fits (m * i / 360) (omega arith), add_pos 10 (m * i / 360))
          (int_fits (10 + m * i / 360) (omega arith)),
      bound,
    )

y_point :
    (y amp : ℕ) (s : ℤ)
    → negsuc 255 ≤ℤ s
    → s ≤ℤ pos 256
    → amp ≤ y
    → y + amp < 2 ^ 15
    → let d = s16 (div_trunc (pos amp *ℤ (pos 0 -ℤ s)) 256) in
      (pos 0 ≤ℤ s16 (pos y +ℤ d)) × (s16 (pos y +ℤ d) ≤ℤ pos (y + amp))
unfolding ◌+ℤ◌
y_point y amp s lo hi room fits =
    let d = div_trunc (pos amp *ℤ (pos 0 -ℤ s)) 256 in
    let small : size d ≤ amp = size_quotient _ amp (size_product amp s lo hi) in
    rw (s16_small d (omega arith), s16_small (pos y +ℤ d) (ground arith)) (ground arith)

module _ (res : Resolution) (axes : HasAxes res) where
  point : (x y : ℕ) → x ≤ res.max_x → y ≤ res.max_y → OnScreen res (pos x) (pos y)
  point x y h k = (omega arith, omega arith, omega arith, omega arith)

  pub lines-OnScreen :
      (fuel x : ℕ) (calls : List Draw)
      → res.max_y + 11 ≤ fuel + x
      → x < res.max_y + 11
      → AllOnScreen res calls
      → (drawn : List Draw) × (lines fuel res x calls ≡ some drawn) × AllOnScreen res drawn
  unfolding lines
  lines-OnScreen zero x calls enough small on = absurd (omega arith)
  lines-OnScreen (suc fuel) x calls enough small on = elim (Bool-cases (leb x res.max_y)) [
    | inr out ↦ (calls, rw (lines, out) refl, on)
    | inl inside ↦
        let a = axes.wide in
        let b = axes.landscape in
        let below : x ≤ res.max_y = ground arith in
        let step : u16 (x + 10) ≡ x + 10 = omega arith in
        let rest : u16 (res.max_y + 2 ^ 16 - x) ≡ res.max_y - x = omega arith in
        let fx = int_fits x (omega arith) in
        let fy = int_fits res.max_y (omega arith) in
        let fr = int_fits (res.max_y - x) (omega arith) in
        let f0 = int_fits 0 (omega arith) in
        let m = res.max_y in
        let drawn : List Draw =
          tgi_line (pos m) (pos m) (pos (m - x)) (pos 0)
          ∷ tgi_line (pos m) (pos m) (pos 0) (pos (m - x))
          ∷ tgi_line (pos 0) (pos 0) (pos x) (pos m)
          ∷ tgi_line (pos 0) (pos 0) (pos m) (pos x)
          ∷ calls in
        rw (lines, inside, step, rest, fx, fr, fy, f0)
          (lines-OnScreen fuel (x + 10) drawn (omega arith) (omega arith) (
            omega arith,
            omega arith,
            (omega arith, omega arith, (omega arith, omega arith, (omega arith, omega arith, on))),
          ))
  ]

  module _ (sin : ℕ → ℤ) (sin_bounds : (i : ℕ) → (negsuc 255 ≤ℤ sin i) × (sin i ≤ℤ pos 256)) where
    sine-OnScreen :
        (left i : ℕ) (calls : List Draw)
        → 5 * left + i ≤ 365
        → AllOnScreen res calls
        → AllOnScreen res
            (sine sin res (pos 10) (pos (res.max_y / 2)) (pos ((res.max_y - 19) / 2)) left i calls)
    unfolding sine
    sine-OnScreen zero i calls few on = on
    sine-OnScreen (suc left) i calls few on =
        let a = axes.wide in
        let b = axes.landscape in
        let c = axes.high in
        let base : u16 (res.max_x + 2 ^ 16 - 19) ≡ res.max_x - 19 = omega arith in
        let (x, reach) = x_point (res.max_x - 19) i (omega arith) (omega arith) in
        let (low, high) = sin_bounds i in
        let (above, below) =
          y_point (res.max_y / 2) ((res.max_y - 19) / 2) (sin i) low high (omega arith)
            (omega arith) in
        sine-OnScreen left (i + 5) _ (omega arith)
          (rw (base, x) (omega arith, omega arith, omega arith, omega arith), on)

    pub do_diagram-OnScreen :
        (calls : List Draw) → AllOnScreen res calls → AllOnScreen res (do_diagram sin res calls)
    unfolding do_diagram
    do_diagram-OnScreen calls on =
        let a = axes.wide in
        let b = axes.landscape in
        let c = axes.high in
        let height : u16 (res.max_y + 2 ^ 16 - 19) ≡ res.max_y - 19 = omega arith in
        let f = int_fits (res.max_y / 2) (omega arith) in
        let g = int_fits ((res.max_y - 19) / 2) (omega arith) in
        let right = less_fits res.max_x 12 (omega arith) (omega arith) in
        let tip = less_fits res.max_x 10 (omega arith) (omega arith) in
        let bottom = less_fits res.max_y 10 (omega arith) (omega arith) in
        let plus = add_pos (res.max_y / 2) 2 in
        let minus = sub_pos (res.max_y / 2) 2 (omega arith) in
        let up = int_fits (res.max_y / 2 + 2) (omega arith) in
        let down = int_fits (res.max_y / 2 - 2) (omega arith) in
        rw (do_diagram, height, f, g, right, tip, bottom, plus, minus, up, down)
          (sine-OnScreen 73 0 _ (omega arith) (
            omega arith,
            (
              omega arith,
              (
                omega arith,
                omega arith,
                (
                  omega arith,
                  omega arith,
                  (omega arith, (omega arith, omega arith, (omega arith, omega arith, on))),
                ),
              ),
            ),
          ))

  pub ellipses-OnScreen :
      (imulround : ℕ → ℕ → ℕ) (left i : ℕ) (calls : List Draw)
      → AllOnScreen res calls
      → AllOnScreen res (ellipses imulround res left i calls)
  unfolding ellipses
  ellipses-OnScreen imulround zero i calls on = on
  ellipses-OnScreen imulround (suc left) i calls on = ellipses-OnScreen imulround left (i + 10) _ on

  diagonals-OnScreen :
      (color : Color) (calls : List Draw)
      → AllOnScreen res calls
      → AllOnScreen res (
          tgi_setcolor color
          ∷ tgi_line (int 0) (int res.max_y) (int res.max_x) (int 0)
          ∷ tgi_line (int 0) (int 0) (int res.max_x) (int res.max_y)
          ∷ tgi_setcolor fore
          ∷ calls)
  diagonals-OnScreen color calls on =
      let a = axes.wide in
      let b = axes.landscape in
      let f0 = int_fits 0 (omega arith) in
      let fx = int_fits res.max_x (omega arith) in
      let fy = int_fits res.max_y (omega arith) in
      rw (f0, fx, fy) (omega arith, omega arith, (omega arith, omega arith, on))

  pub circles-OnScreen :
      (imulround : ℕ → ℕ → ℕ) (quiet : ℕ) (color : Color) (calls : List Draw)
      → AllOnScreen res calls
      → AllOnScreen res (circles imulround res quiet color calls)
  unfolding circles
  circles-OnScreen imulround zero color calls on = on
  circles-OnScreen imulround (suc quiet) color calls on =
      circles-OnScreen imulround quiet (other color) _
        (ellipses-OnScreen imulround 23 10 _ (diagonals-OnScreen color calls on))
