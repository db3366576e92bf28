-- ===== src/Mandelbrot/Picture.antt =====
-- The picture of mandelbrot.c: which pixels are set, and to what.
use builds.Base.{
  ℕ, zero, suc, ◌+◌, ◌*◌, ◌/◌, ◌≤◌, ◌<◌, ◌≡◌, refl, ap, ◌∙◌, arith, ltb, ◌==◌, false, Bool-cases,
  ◌&&◌, inl, inr, ◌⊎◌, ℤ, pos, negsuc, sub_ℕ, ◌+ℤ◌, ◌-ℤ◌, s16, s16-fits,
}
use builds.Mandelbrot.{
  Complex, Screen, maxiterations, iterations, color, origin, set_pixel, draw_columns, draw_rows,
  to_unsigned, step_width, mandelbrot, whole_set,
}
use native.Mathlib.Nat.{mul-le-mul, mul-div-le, div-le_self}
use builds.Mandelbrot.Orbit.{size, InRange, IsEscape, iterations-IsEscape}

-- The coordinate after n steps of width k, from -2 on.
abbrev pub coordinate : ℕ → ℕ → ℤ
coordinate k n = sub_ℕ (n * k) 2048

coordinate-suc : (k n : ℕ) → suc n * k ≤ 4096 → s16 (coordinate k n +ℤ pos k) ≡ coordinate k (suc n)
unfolding s16 ◌+ℤ◌
coordinate-suc k n h = ground arith

-- A column or row and the next.
place-suc : (n : ℕ) → suc n < 32768 → s16 (pos n +ℤ pos 1) ≡ pos (suc n)
unfolding s16 ◌+ℤ◌
place-suc n h = ground arith

set_pixel-out :
    (s : Screen) (x y v a b : ℕ)
    → ((a == x) && (b == y)) ≡ false
    → set_pixel s (pos x) (pos y) v (pos a) (pos b) ≡ s (pos a) (pos b)
unfolding set_pixel
set_pixel-out s x y v a b h = ground arith

set_pixel-in : (s : Screen) (x y v : ℕ) → set_pixel s (pos x) (pos y) v (pos x) (pos y) ≡ v
unfolding set_pixel
set_pixel-in s x y v = ground arith

draw_columns-out :
    (left maxcol y x : ℕ) (xs xx yy : ℤ) (s : Screen) (a b : ℕ)
    → left + x < 32768
    → ((n : ℕ) → x ≤ n → n < left + x → ((a == n) && (b == y)) ≡ false)
    → draw_columns left maxcol (pos y) (pos x) xs xx yy s (pos a) (pos b) ≡ s (pos a) (pos b)
unfolding draw_columns
draw_columns-out zero maxcol y x xs xx yy s a b fits free = refl
draw_columns-out (suc left) maxcol y x xs xx yy s a b fits free =
    let step = place-suc x (omega arith) in
    rw (draw_columns, step)
      (draw_columns-out left maxcol y (suc x) xs (s16 (xx +ℤ xs)) yy _ a b (omega arith)
          (λ n lo hi. free n (omega arith) (omega arith))
        ∙ set_pixel-out s x y _ a b (free x (omega arith) (omega arith)))

-- The value of the pixel for a constant.
abbrev pub value : ℕ → Complex → ℕ
value maxcol c = color maxcol (iterations maxiterations 0 c origin)

mul_mono : (k a b : ℕ) → a ≤ b → a * k ≤ b * k
mul_mono k a b h = mul-le-mul {n₁ = a} {m₁ = k} {n₂ = b} {m₂ = k} h (omega arith)

draw_columns-in :
    (left maxcol y x k : ℕ) (yy : ℤ) (s : Screen) (a : ℕ)
    → left + x < 32768
    → (left + x) * k ≤ 4096
    → x ≤ a
    → a < left + x
    → draw_columns left maxcol (pos y) (pos x) (pos k) (coordinate k x) yy s (pos a) (pos y)
      ≡ value maxcol (record { r = coordinate k (suc a); i = yy })
unfolding draw_columns
draw_columns-in zero maxcol y x k yy s a fits whole lo hi = absurd (omega arith)
draw_columns-in (suc left) maxcol y x k yy s a fits whole lo hi =
    let step = place-suc x (omega arith) in
    let more : suc x * k ≤ (suc left + x) * k = mul_mono k (suc x) (suc left + x) (omega arith) in
    let next = coordinate-suc k x (omega arith) in
    elim (Bool-cases (ltb x a)) [
      | inl later ↦
          rw (draw_columns, step, next)
            (draw_columns-in left maxcol y (suc x) k yy _ a (omega arith) (omega arith)
              (ground arith) (omega arith))
      | inr now ↦
          let here : a ≡ x = ground arith in
          rw (here, draw_columns, step, next)
            (draw_columns-out left maxcol y (suc x) (pos k) (coordinate k (suc x)) yy _ x y
                (omega arith) (λ n l h. ground arith)
              ∙ set_pixel-in s x y _)
    ]

draw_rows-out :
    (left maxcol width y : ℕ) (xs ys x1 yy : ℤ) (s : Screen) (a b : ℕ)
    → left + y < 32768
    → width < 32768
    → ((n m : ℕ) → n < width → y ≤ m → m < left + y → ((a == n) && (b == m)) ≡ false)
    → draw_rows left maxcol width (pos y) xs ys x1 yy s (pos a) (pos b) ≡ s (pos a) (pos b)
unfolding draw_rows
draw_rows-out zero maxcol width y xs ys x1 yy s a b fits wide free = refl
draw_rows-out (suc left) maxcol width y xs ys x1 yy s a b fits wide free =
    let step = place-suc y (omega arith) in
    rw (draw_rows, step)
      (draw_rows-out left maxcol width (suc y) xs ys x1 (s16 (yy +ℤ ys)) _ a b (omega arith) wide
          (λ n m l lo hi. free n m l (omega arith) (omega arith))
        ∙ draw_columns-out width maxcol y 0 xs x1 (s16 (yy +ℤ ys)) s a b (omega arith)
            (λ n lo hi. free n y (omega arith) (omega arith) (omega arith)))

-- Where the coordinates of a whole picture start.
start : (k : ℕ) → negsuc 2047 ≡ coordinate k 0
start k = ground arith

draw_rows-in :
    (left maxcol width y k l : ℕ) (s : Screen) (a b : ℕ)
    → left + y < 32768
    → (left + y) * l ≤ 4096
    → width < 32768
    → width * k ≤ 4096
    → a < width
    → y ≤ b
    → b < left + y
    → draw_rows left maxcol width
        (pos y)
        (pos k)
        (pos l)
        (negsuc 2047)
        (coordinate l y)
        s
        (pos a)
        (pos b)
      ≡ value maxcol (record { r = coordinate k (suc a); i = coordinate l (suc b) })
unfolding draw_rows
draw_rows-in zero maxcol width y k l s a b fits tall wide across inside lo hi = absurd (omega arith)
draw_rows-in (suc left) maxcol width y k l s a b fits tall wide across inside lo hi =
    let step = place-suc y (omega arith) in
    let more : suc y * l ≤ (suc left + y) * l = mul_mono l (suc y) (suc left + y) (omega arith) in
    let next = coordinate-suc l y (omega arith) in
    elim (Bool-cases (ltb y b)) [
      | inl later ↦
          rw (draw_rows, step, next)
            (draw_rows-in left maxcol width (suc y) k l _ a b (omega arith) (omega arith) wide
              across inside (ground arith) (omega arith))
      | inr now ↦
          let here : b ≡ y = ground arith in
          rw (here, draw_rows, step, next)
            (draw_rows-out left maxcol width (suc y) (pos k) (pos l) (negsuc 2047)
                (coordinate l (suc y)) _ a y (omega arith) wide (λ n m l lo hi. ground arith)
              ∙ rw (start k) (
                  draw_columns-in width maxcol y 0 k (coordinate l (suc y)) s a (omega arith)
                    (omega arith) (omega arith) (omega arith)))
    ]

step_width-whole :
    (n : ℕ) → 0 < n → n < 32768 → step_width (negsuc 2047) (pos 2048) n ≡ pos (4096 / n)
unfolding step_width to_unsigned ◌-ℤ◌ s16
step_width-whole n h k =
    let least = div-le_self 4096 n in s16-fits (pos (4096 / n)) (omega arith) (omega arith)

steps_fit : (n : ℕ) → 0 < n → n * (4096 / n) ≤ 4096
steps_fit n h = mul-div-le 4096 n

-- The constant that belongs to a pixel.
unfoldable pub constant : ℕ → ℕ → ℕ → ℕ → Complex
constant width height x y = record {
  r = coordinate (4096 / width) (suc x);
  i = coordinate (4096 / height) (suc y);
}

coordinate-InRange : (n x : ℕ) → 0 < n → x < n → size (coordinate (4096 / n) (suc x)) ≤ 4096
coordinate-InRange n x h k =
    let fit = steps_fit n h in
    let less = mul_mono (4096 / n) (suc x) n (omega arith) in ground arith

constant-InRange :
    (width height x y : ℕ) → x < width → y < height → InRange (constant width height x y)
unfolding constant
constant-InRange width height x y h k = record {
  r = coordinate-InRange width x (omega arith) h;
  i = coordinate-InRange height y (omega arith) k;
}

-- On a screen of fewer than 32768 columns and rows: a pixel of the screen that is drawn has the colour of
-- a number of steps, which is the number of steps that the orbit of the pixel's constant stays
-- between -2 and 2, up to 32. The orbit is that of z² + c in multiples of 1/1024 without bound, with
-- r², i² and 2·r·i rounded down.
pub whole_set-IsPicture :
    (width height maxcol : ℕ) (s : Screen) (x y : ℕ)
    → width < 32768
    → height < 32768
    → x < width
    → y < height
    → (n : ℕ) × IsEscape (constant width height x y) n
      × (whole_set width height maxcol s (pos x) (pos y) ≡ color maxcol n)
unfolding whole_set mandelbrot constant
whole_set-IsPicture width height maxcol s x y wide tall across down =
    let inside = constant-InRange width height x y across down in
    let k = 4096 / width in
    let l = 4096 / height in
    let columns : width * k ≤ 4096 = steps_fit width (omega arith) in
    let rows : (height + 0) * l ≤ 4096 = let m = steps_fit height (omega arith) in omega arith in
    let from_start =
      ap
        (λ v.
          draw_rows height maxcol width (pos 0) (pos k) (pos l) (negsuc 2047) v s (pos x) (pos y))
        (start l) in
    let pixel =
      draw_rows-in height maxcol width 0 k l s x y (omega arith) rows wide columns across
        (omega arith) (omega arith) in
    (
      iterations maxiterations 0 (constant width height x y) origin,
      iterations-IsEscape (constant width height x y) inside,
      rw
          (
            whole_set,
            mandelbrot,
            step_width-whole width (omega arith) wide,
            step_width-whole height (omega arith) tall,
          )
          (from_start ∙ pixel),
    )

-- A pixel outside the columns and rows of the screen stays as it was.
whole_set-out :
    (width height maxcol : ℕ) (s : Screen) (x y : ℕ)
    → width < 32768
    → height < 32768
    → (width ≤ x) ⊎ (height ≤ y)
    → whole_set width height maxcol s (pos x) (pos y) ≡ s (pos x) (pos y)
unfolding whole_set mandelbrot
whole_set-out width height maxcol s x y wide tall outside =
    draw_rows-out height maxcol width 0 _ _ _ _ s x y (omega arith) wide
      (λ n m l lo hi. ground arith)
