-- ===== src/Graphics.antt =====
-- bin/cc65-snapshot-win32/samples/tgidemo.c: circles, a checkerboard, a diagram and lines on a
-- graphics screen.
-- The driver is its calls, which are logged, the last one first, without the palettes; what it
-- reports, `tgi_imulround` and `cc65_sin` are parameters, and so are the polls of the keyboard. The
-- static variables are the record `Resolution`. Coordinates are of type int.
pub mod Tiles
pub mod Checkerboard
pub mod Lines
pub mod Demo
mod Tests
use builds.Base.{
  ℕ, zero, suc, ◌+◌, ◌-◌, ◌*◌, ◌/◌, ◌^◌, ◌==◌, leb, if◌then◌else◌, u16, Bool, true, false, Option,
  none, some, List, [], ◌∷◌, ℤ, pos, negsuc, neg_part, pos_part, ◌+ℤ◌, ◌-ℤ◌, ◌*ℤ◌, sub_ℕ, div_trunc,
  s16,
}

-- COLOR_BACK and COLOR_FORE.
pub data Color : Type 0 where
  back : Color
  fore : Color

-- What the program calls.
pub data Draw : Type 0 where
  tgi_setpalette : Draw
  tgi_setcolor : Color → Draw
  tgi_line : ℤ → ℤ → ℤ → ℤ → Draw
  tgi_lineto : ℤ → ℤ → Draw
  tgi_gotoxy : ℤ → ℤ → Draw
  tgi_bar : ℤ → ℤ → ℤ → ℤ → Draw
  tgi_ellipse : ℤ → ℤ → ℕ → ℕ → Draw
  tgi_clear : Draw
  cgetc : Draw
  tgi_unload : Draw
  border : ℕ → Draw

-- MaxX, MaxY and AspectRatio.
pub record Resolution : Type 0 where
  pub max_x : ℕ
  pub max_y : ℕ
  pub aspect_ratio : ℕ

-- An unsigned number where an int is wanted.
abbrev pub int : ℕ → ℤ
int n = s16 (pos n)

-- `Color == COLOR_FORE ? COLOR_BACK : COLOR_FORE`
abbrev pub other : Color → Color
other fore = back
other back = fore

-- The loop over I in DoCircles, by the rounds left.
pub ellipses : (ℕ → ℕ → ℕ) → Resolution → ℕ → ℕ → List Draw → List Draw
ellipses imulround res zero i calls = calls
ellipses imulround res (suc left) i calls = ellipses imulround res left (i + 10) (
    tgi_ellipse (int (res.max_x / 2)) (int (res.max_y / 2)) i (imulround i res.aspect_ratio)
    ∷ calls)

-- The loop of DoCircles, with the number of polls that find no key.
pub circles : (ℕ → ℕ → ℕ) → Resolution → ℕ → Color → List Draw → List Draw
circles imulround res zero color calls = calls
circles imulround res (suc quiet) color calls = circles imulround res quiet (other color) (
    ellipses imulround res 23 10 (
      tgi_setcolor color
      ∷ tgi_line (int 0) (int res.max_y) (int res.max_x) (int 0)
      ∷ tgi_line (int 0) (int 0) (int res.max_x) (int res.max_y)
      ∷ tgi_setcolor fore
      ∷ calls))

pub do_circles : (ℕ → ℕ → ℕ) → Resolution → ℕ → List Draw → List Draw
do_circles imulround res quiet calls =
    tgi_clear ∷ cgetc ∷ circles imulround res quiet fore (tgi_setpalette ∷ calls)

-- The locals of DoCheckerboard, the polls that will find no key, and the calls.
pub record Board : Type 0 where
  pub color : Color
  pub quiet : ℕ
  pub calls : List Draw

-- How a loop of DoCheckerboard ends: by its test, by the `return`, or with its fuel.
pub data Progress : Type 0 where
  going : Board → Progress
  returned : List Draw → Progress
  spent : Progress

-- After a loop that ended by its test.
infixl 5 ◌>>=◌
abbrev pub ◌>>=◌ : Progress → (Board → Progress) → Progress
going b >>= f = f b
returned calls >>= f = returned calls
spent >>= f = spent

-- `Color = Color == COLOR_FORE ? ...`
abbrev pub swap_color : Board → Board
swap_color b = record b { color = other b.color }

-- A tile.
pub tile : ℕ → ℕ → Board → Board
tile x y b = swap_color (record b {
  calls =
      tgi_bar (int x) (int y) (int (u16 (x + 9))) (int (u16 (y + 9)))
      ∷ tgi_setcolor b.color
      ∷ b.calls;
})

-- The loop over X.
pub tile_columns : ℕ → Resolution → ℕ → ℕ → Board → Progress
tile_columns zero res y x b = spent
tile_columns (suc fuel) res y x b = elim (leb x res.max_x) [
  | false ↦ going b
  | true ↦
      let b' = tile x y b in
      elim b'.quiet [
        | zero ↦ returned (tgi_clear ∷ cgetc ∷ b'.calls)
        | suc quiet ↦ tile_columns fuel res y (u16 (x + 10)) (record b' { quiet = quiet })
      ]
]

-- The loop over Y.
pub tile_rows : ℕ → Resolution → ℕ → Board → Progress
tile_rows zero res y b = spent
tile_rows (suc fuel) res y b = elim (leb y res.max_y) [
  | false ↦ going b
  | true ↦
      tile_columns (suc fuel) res y 0 b >>= λ b'. tile_rows fuel res (u16 (y + 10)) (swap_color b')
]

-- `while (1)`
pub checkerboards : ℕ → Resolution → Board → Progress
checkerboards zero res b = spent
checkerboards (suc fuel) res b =
    tile_rows (suc fuel) res 0 b >>= λ b'. checkerboards fuel res (swap_color b')

-- The polls bound the tiles, so that they give the fuel.
pub do_checkerboard : Resolution → ℕ → List Draw → Progress
do_checkerboard res quiet calls =
    checkerboards (quiet + 2) res
      (record { color = back; quiet = quiet; calls = tgi_setpalette ∷ calls })

-- The loop over I in DoDiagram, by the rounds left; `amp` is Amp, and `sin` is cc65_sin.
pub sine : (ℕ → ℤ) → Resolution → ℤ → ℤ → ℤ → ℕ → ℕ → List Draw → List Draw
sine sin res x_origin y_origin amp zero i calls = calls
sine sin res x_origin y_origin amp (suc left) i calls =
    let x = int (u16 (res.max_x + 2 ^ 16 - 19) * i / 360) in
    let y = s16 (div_trunc (amp *ℤ (pos 0 -ℤ sin i)) 256) in
    sine sin res x_origin y_origin amp left (i + 5)
      (tgi_lineto (s16 (x_origin +ℤ x)) (s16 (y_origin +ℤ y)) ∷ calls)

-- The unsigned number less a constant, as an int.
abbrev pub less : ℕ → ℕ → ℤ
less n k = int (u16 (n + 2 ^ 16 - k))

pub do_diagram : (ℕ → ℤ) → Resolution → List Draw → List Draw
do_diagram sin res calls =
    let y_origin = int (res.max_y / 2) in
    let x_origin = pos 10 in
    let amp = int (u16 (res.max_y + 2 ^ 16 - 19) / 2) in
    tgi_clear
    ∷ cgetc
    ∷ sine sin res x_origin y_origin amp 73 0 (
        tgi_gotoxy x_origin y_origin
        ∷ tgi_lineto (less res.max_x 12) (s16 (y_origin +ℤ pos 2))
        ∷ tgi_line (less res.max_x 12) (s16 (y_origin -ℤ pos 2)) (less res.max_x 10) y_origin
        ∷ tgi_line x_origin y_origin (less res.max_x 10) y_origin
        ∷ tgi_lineto (pos 12) (pos 12)
        ∷ tgi_line (pos 8) (pos 12) x_origin (pos 10)
        ∷ tgi_line x_origin (pos 10) x_origin (less res.max_y 10)
        ∷ tgi_setcolor fore
        ∷ tgi_setpalette
        ∷ calls)

-- The loop of DoLines, with fuel.
pub lines : ℕ → Resolution → ℕ → List Draw → Option (List Draw)
lines zero res x calls = none
lines (suc fuel) res x calls = elim (leb x res.max_y) [
  | false ↦ some calls
  | true ↦ lines fuel res (u16 (x + 10)) (
      tgi_line (int res.max_y) (int res.max_y) (int (u16 (res.max_y + 2 ^ 16 - x))) (int 0)
      ∷ tgi_line (int res.max_y) (int res.max_y) (int 0) (int (u16 (res.max_y + 2 ^ 16 - x)))
      ∷ tgi_line (int 0) (int 0) (int x) (int res.max_y)
      ∷ tgi_line (int 0) (int 0) (int res.max_y) (int x)
      ∷ calls)
]

pub do_lines : ℕ → Resolution → List Draw → Option (List Draw)
do_lines fuel res calls = elim (lines fuel res 0 (tgi_setcolor fore ∷ tgi_setpalette ∷ calls)) [
  | none ↦ none
  | some drawn ↦ some (tgi_clear ∷ cgetc ∷ drawn)
]

-- How main ends; `unfinished` is with the fuel of a loop.
pub data Ending : Type 0 where
  declined : Ending
  load_failed : ℕ → Ending
  init_failed : ℕ → Ending
  done : List Draw → Ending
  unfinished : Ending

-- What a run of main meets: the key that DoWarning is answered, the error codes after the two calls, what the
-- driver reports, the border colour, and the polls without a key of the two loops that poll.
pub record Run : Type 0 where
  pub answer : ℕ
  pub load_error : ℕ
  pub init_error : ℕ
  pub resolution : Resolution
  pub border_color : ℕ
  pub quiet_circles : ℕ
  pub quiet_checkerboard : ℕ

-- DoLines and the end of main.
finish : ℕ → Run → List Draw → Ending
finish fuel run calls = elim (do_lines fuel run.resolution calls) [
  | none ↦ unfinished
  | some drawn ↦ done (border run.border_color ∷ tgi_unload ∷ drawn)
]

-- DoDiagram after DoCheckerboard.
after_checkerboard : (ℕ → ℤ) → ℕ → Run → Progress → Ending
after_checkerboard sin fuel run (returned calls) =
    finish fuel run (do_diagram sin run.resolution calls)
after_checkerboard sin fuel run _ = unfinished

-- With a dynamically loaded driver.
pub tgi_demo : (ℕ → ℕ) → (ℕ → ℕ → ℕ) → (ℕ → ℤ) → ℕ → Run → Ending
tgi_demo tolower imulround sin fuel run =
    let graphics = after_checkerboard sin fuel run (
      do_checkerboard run.resolution run.quiet_checkerboard
        (do_circles imulround run.resolution run.quiet_circles (border 0 ∷ tgi_clear ∷ []))) in
    if tolower run.answer == b'y'
    then (if run.load_error == 0
        then (if run.init_error == 0 then graphics else init_failed run.init_error)
        else load_failed run.load_error)
    else declined
