-- ===== src/Graphics/Demo.antt =====
-- The whole of tgidemo.c.
use builds.Base.{
  ℕ, zero, suc, ◌+◌, ◌≤◌, ◌≡◌, ap, ◌∙◌, arith, some, List, [], ◌∷◌, ℤ, pos, negsuc, ◌≤ℤ◌,
}
use builds.Graphics.{
  fore, Draw, tgi_setpalette, tgi_setcolor, tgi_clear, cgetc, tgi_unload, border, Resolution,
  do_circles, do_checkerboard, do_diagram, do_lines, lines, done, Run, finish, after_checkerboard,
  tgi_demo,
}
use builds.Graphics.Tiles.{tiles}
use builds.Graphics.Checkerboard.{do_checkerboard-tiles}
use builds.Graphics.Lines.{
  AllOnScreen, HasAxes, circles-OnScreen, do_diagram-OnScreen, lines-OnScreen,
}

tiles-OnScreen :
    (res : Resolution) (n : ℕ) (calls : List Draw)
    → AllOnScreen res calls
    → AllOnScreen res (tiles res n calls)
unfolding tiles
tiles-OnScreen res zero calls on = on
tiles-OnScreen res (suc n) calls on = tiles-OnScreen res n calls on

-- A run in which the user has the driver, and no call of it fails.
pub record Succeeds (tolower : ℕ → ℕ) (run : Run) : Type 0 where
  pub answered : tolower run.answer ≡ b'y'
  pub loaded : run.load_error ≡ 0
  pub inited : run.init_error ≡ 0

tgi_demo-graphics :
    (tolower : ℕ → ℕ) (imulround : ℕ → ℕ → ℕ) (sin : ℕ → ℤ) (fuel : ℕ) (run : Run)
    → Succeeds tolower run
    → tgi_demo tolower imulround sin fuel run
      ≡ after_checkerboard sin fuel run (
          do_checkerboard run.resolution run.quiet_checkerboard
            (do_circles imulround run.resolution run.quiet_circles (border 0 ∷ tgi_clear ∷ [])))
unfolding tgi_demo
tgi_demo-graphics tolower imulround sin fuel run ok =
    simp (tgi_demo, ok.answered, ok.loaded, ok.inited)

finish-done :
    (fuel : ℕ) (run : Run) (calls drawn : List Draw)
    → lines fuel run.resolution 0 (tgi_setcolor fore ∷ tgi_setpalette ∷ calls) ≡ some drawn
    → finish fuel run calls
      ≡ done (border run.border_color ∷ tgi_unload ∷ tgi_clear ∷ cgetc ∷ drawn)
unfolding finish do_lines
finish-done fuel run calls drawn ends = simp (finish, do_lines, ends)

-- If the calls of the driver succeed, the sine lies between -1 and 1, and the screen has room for the axes and is
-- not higher than wide: main ends, with fuel for the lines of DoLines. All ends of lines that it draws
-- are points of the screen. Last it waits for a key, clears the screen, unloads the driver and
-- sets the border as it was.
pub tgi_demo-done :
    (tolower : ℕ → ℕ) (imulround : ℕ → ℕ → ℕ) (sin : ℕ → ℤ) (fuel : ℕ) (run : Run)
    → Succeeds tolower run
    → ((i : ℕ) → (negsuc 255 ≤ℤ sin i) × (sin i ≤ℤ pos 256))
    → HasAxes run.resolution
    → run.resolution.max_y + 11 ≤ fuel
    → (drawn : List Draw) × (tgi_demo tolower imulround sin fuel run
        ≡ done (border run.border_color ∷ tgi_unload ∷ tgi_clear ∷ cgetc ∷ drawn))
      × AllOnScreen run.resolution drawn
unfolding after_checkerboard do_circles
tgi_demo-done tolower imulround sin fuel run ok sin_bounds axes enough =
    let res = run.resolution in
    let circled = do_circles imulround res run.quiet_circles (border 0 ∷ tgi_clear ∷ []) in
    let a = axes.wide in
    let b = axes.landscape in
    let tiled =
      do_checkerboard-tiles res run.quiet_checkerboard circled (omega arith) (omega arith) in
    let board =
      tgi_clear ∷ cgetc ∷ tiles res (suc run.quiet_checkerboard) (tgi_setpalette ∷ circled) in
    let on_board = tiles-OnScreen res (suc run.quiet_checkerboard) (tgi_setpalette ∷ circled) (
      circles-OnScreen res axes imulround run.quiet_circles fore
        (tgi_setpalette ∷ border 0 ∷ tgi_clear ∷ []) tt) in
    let (drawn, ends, on) =
      lines-OnScreen res axes fuel 0 (tgi_setcolor fore ∷ tgi_setpalette ∷ do_diagram sin res board)
        (omega arith) (omega arith) (do_diagram-OnScreen res axes sin sin_bounds board on_board) in
    (
      drawn,
      tgi_demo-graphics tolower imulround sin fuel run ok
          ∙ ap (after_checkerboard sin fuel run) tiled
          ∙ finish-done fuel run (do_diagram sin res board) drawn ends,
      on,
    )
