-- ===== src/Mandelbrot.antt =====
-- bin/cc65-snapshot-win32/samples/mandelbrot.c: the Mandelbrot set in fixed point, with 10 bits after
-- the point in 16-bit numbers.
-- The resolution and the number of colours that the graphics driver reports are parameters, and so is
-- the screen before; a pixel is set in a function of its column and row, which are of type int.
pub mod Orbit
pub mod Picture
mod Tests
use builds.Base.{
  ℕ, zero, suc, ◌+◌, ◌-◌, ◌*◌, ◌/◌, ◌%◌, ◌^◌, ◌==◌, if◌then◌else◌, u8, Bool, true, false, ◌&&◌, ℤ,
  pos, negsuc, pos_part, neg_part, ◌+ℤ◌, ◌-ℤ◌, ◌*ℤ◌, eqb_ℤ, ltb_ℤ, div_floor, s16,
}

abbrev pub maxiterations : ℕ
maxiterations = 32

-- The real and the imaginary part.
pub record Complex : Type 0 where
  pub r : ℤ
  pub i : ℤ

abbrev pub abs : ℤ → ℤ
abs a = if ltb_ℤ a (pos 0) then s16 (pos 0 -ℤ a) else a

-- A product of two 16-bit numbers fits a `long`.
pub mulfp : ℤ → ℤ → ℤ
mulfp a b = div_floor (a *ℤ b) (2 ^ 10)

-- The body of the loop of iterations.
pub iterate : Complex → Complex → Complex
iterate c z = record {
  r = s16 (mulfp z.r z.r -ℤ mulfp z.i z.i +ℤ c.r);
  i = s16 (div_floor (z.r *ℤ z.i) (2 ^ 9) +ℤ c.i);
}

-- `(fpabs (r) < tofp (2)) && (fpabs (i) < tofp (2))`
pub is_near : Complex → Bool
is_near z = ltb_ℤ (abs z.r) (pos 2048) && ltb_ℤ (abs z.i) (pos 2048)

-- The loop of iterations, by the rounds that `count < maxiterations` leaves: the count at its end.
pub iterations : ℕ → ℕ → Complex → Complex → ℕ
iterations zero count c z = count
iterations (suc left) count c z =
    let rest = iterations left (u8 (count + 1)) c (iterate c z) in if is_near z then rest else count

-- The colour that is set for a count.
pub color : ℕ → ℕ → ℕ
color maxcol count = if count == maxiterations then 0 else if maxcol == 2 then 1 else count % maxcol

-- The screen: the colour in a column and a row.
abbrev pub Screen : Type 0
Screen = ℤ → ℤ → ℕ

pub set_pixel : Screen → ℤ → ℤ → ℕ → Screen
set_pixel s x y v a b = if eqb_ℤ a x && eqb_ℤ b y then v else s a b

abbrev pub origin : Complex
origin = record { r = pos 0; i = pos 0 }

-- The loop over `x`, by the rounds left: `x` is a signed short, but compared with the unsigned resolution as
-- an unsigned number.
pub draw_columns : ℕ → ℕ → ℤ → ℤ → ℤ → ℤ → ℤ → Screen → Screen
draw_columns zero maxcol y x xs xx yy s = s
draw_columns (suc left) maxcol y x xs xx yy s =
    let xx' = s16 (xx +ℤ xs) in
    let count = iterations maxiterations 0 (record { r = xx'; i = yy }) origin in
    draw_columns left maxcol y (s16 (x +ℤ pos 1)) xs xx' yy (set_pixel s x y (color maxcol count))

-- The loop over `y`, by the rounds left.
pub draw_rows : ℕ → ℕ → ℕ → ℤ → ℤ → ℤ → ℤ → ℤ → Screen → Screen
draw_rows zero maxcol width y xs ys x1 yy s = s
draw_rows (suc left) maxcol width y xs ys x1 yy s =
    let yy' = s16 (yy +ℤ ys) in
    draw_rows left maxcol width (s16 (y +ℤ pos 1)) xs ys x1 yy'
      (draw_columns width maxcol y (pos 0) xs x1 yy' s)

-- The bits of a 16-bit number: what it is as an unsigned one.
pub to_unsigned : ℤ → ℕ
to_unsigned a = (pos_part a % 2 ^ 16 + 2 ^ 16 - neg_part a % 2 ^ 16) % 2 ^ 16

-- The step width: the resolution is unsigned, and so is the division.
pub step_width : ℤ → ℤ → ℕ → ℤ
step_width a b resolution = s16 (pos (to_unsigned (b -ℤ a) / resolution))

pub mandelbrot : ℕ → ℕ → ℕ → ℤ → ℤ → ℤ → ℤ → Screen → Screen
mandelbrot width height maxcol x1 y1 x2 y2 s =
    draw_rows height maxcol width (pos 0) (step_width x1 x2 width) (step_width y1 y2 height) x1 y1 s

-- The call in `main`: from -2 to 2 in both directions.
pub whole_set : ℕ → ℕ → ℕ → Screen → Screen
whole_set width height maxcol =
    mandelbrot width height maxcol (negsuc 2047) (negsuc 2047) (pos 2048) (pos 2048)
