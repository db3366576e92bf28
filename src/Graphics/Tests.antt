-- ===== src/Graphics/Tests.antt =====
-- Runs of tgidemo.c on a small screen, and its theorems at concrete inputs.
use builds.Base.{
  ℕ, ◌%◌, ◌/◌, ◌≡◌, refl, arith, List, [], ◌∷◌, ℤ, pos, negsuc, ◌≤ℤ◌, if◌then◌else◌, ◌==◌, s16,
}
use builds.Graphics.{
  back, fore, Draw, tgi_setpalette, tgi_setcolor, tgi_bar, tgi_clear, cgetc, tgi_unload, border,
  Resolution, returned, do_checkerboard, checkerboards, tile_rows, tile_columns, tile, Run, done,
  tgi_demo,
}
use builds.Graphics.Tiles.{tiles}
use builds.Graphics.Checkerboard.{do_checkerboard-tiles}
use builds.Graphics.Lines.{AllOnScreen}
use builds.Graphics.Demo.{tgi_demo-done}

-- Two columns and three rows of tiles.
abbrev small : Resolution
small = record { max_x = 19; max_y = 24; aspect_ratio = 256 }

-- The fourth tile is the second one of the second row.
fourth_tile :
    do_checkerboard small 3 []
    ≡ returned (
        tgi_clear
        ∷ cgetc
        ∷ tgi_bar (pos 10) (pos 10) (pos 19) (pos 19)
        ∷ tgi_setcolor back
        ∷ tgi_bar (pos 0) (pos 10) (pos 9) (pos 19)
        ∷ tgi_setcolor fore
        ∷ tgi_bar (pos 10) (pos 0) (pos 19) (pos 9)
        ∷ tgi_setcolor fore
        ∷ tgi_bar (pos 0) (pos 0) (pos 9) (pos 9)
        ∷ tgi_setcolor back
        ∷ tgi_setpalette
        ∷ [])
unfolding do_checkerboard checkerboards tile_rows tile_columns tile s16
fourth_tile = refl

do_checkerboard-tiles_example :
    do_checkerboard small 9 [] ≡ returned (tgi_clear ∷ cgetc ∷ tiles small 10 (tgi_setpalette ∷ []))
do_checkerboard-tiles_example = do_checkerboard-tiles small 9 [] (omega arith) (omega arith)

abbrev as_is : ℕ → ℕ
as_is c = c

abbrev times : ℕ → ℕ → ℕ
times a b = a

-- A square of whole numbers.
abbrev square : ℕ → ℤ
square i = if i / 90 % 2 == 0 then pos 256 else negsuc 255

square_bounds : (i : ℕ) → (negsuc 255 ≤ℤ square i) × (square i ≤ℤ pos 256)
square_bounds i = ground arith

abbrev run : Run
run = record {
  answer = 121;
  load_error = 0;
  init_error = 0;
  resolution = record { max_x = 39; max_y = 29; aspect_ratio = 256 };
  border_color = 14;
  quiet_circles = 1;
  quiet_checkerboard = 5;
}

tgi_demo-done_example :
    (drawn : List Draw) × (tgi_demo as_is times square 40 run
      ≡ done (border 14 ∷ tgi_unload ∷ tgi_clear ∷ cgetc ∷ drawn))
    × AllOnScreen run.resolution drawn
tgi_demo-done_example =
    tgi_demo-done as_is times square 40 run
      (record { answered = refl; loaded = refl; inited = refl }) square_bounds
      (record { wide = omega arith; high = omega arith; landscape = omega arith }) (omega arith)
