-- ===== src/Mandelbrot/Tests.antt =====
-- Runs of mandelbrot.c on a small screen, and instances.
use builds.Base.{ℕ, ◌≡◌, refl, arith, pos, negsuc, ◌+ℤ◌, ◌-ℤ◌, ◌*ℤ◌, s16, div_floor}
use builds.Mandelbrot.{
  Complex, Screen, mulfp, step_width, to_unsigned, iterate, is_near, iterations, color, origin,
  set_pixel, draw_columns, draw_rows, mandelbrot, whole_set, maxiterations,
}
use builds.Mandelbrot.Orbit.{InRange, IsEscape}
use builds.Mandelbrot.Picture.{constant, whole_set-IsPicture}

abbrev blank : Screen
blank x y = 99

-- -1 + i.
abbrev corner : Complex
corner = record { r = negsuc 1023; i = pos 1024 }

corner-InRange : InRange corner
corner-InRange = record { r = omega arith; i = omega arith }

iterations-corner : iterations maxiterations 0 corner origin ≡ 3
unfolding iterations is_near iterate s16 ◌+ℤ◌ ◌-ℤ◌ mulfp div_floor ◌*ℤ◌
iterations-corner = refl

center_color : whole_set 4 2 16 blank (pos 1) (pos 0) ≡ 0
unfolding whole_set mandelbrot draw_rows draw_columns set_pixel color iterations is_near iterate s16
    ◌+ℤ◌ ◌-ℤ◌ mulfp div_floor ◌*ℤ◌ step_width to_unsigned
center_color = refl

outside_color : whole_set 4 2 16 blank (pos 4) (pos 0) ≡ 99
unfolding whole_set mandelbrot draw_rows draw_columns set_pixel s16 ◌+ℤ◌
outside_color = refl

whole_set-IsPicture_example :
    (n : ℕ) × IsEscape (constant 4 2 1 0) n × (whole_set 4 2 16 blank (pos 1) (pos 0) ≡ color 16 n)
whole_set-IsPicture_example =
    whole_set-IsPicture 4 2 16 blank 1 0 (omega arith) (omega arith) (omega arith) (omega arith)
