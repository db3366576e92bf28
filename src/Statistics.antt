-- ===== src/Statistics.antt =====
-- The times and rates that plasma.c, fire.c and mandelbrot.c in bin/cc65-snapshot-win32/samples print at their end.
-- CLK_TCK and the values of the clock are parameters. A division by zero has no result.
pub mod Rates
mod Tests
use builds.Base.{
  ℕ, zero, suc, ◌+◌, ◌-◌, ◌*◌, ◌/◌, ◌%◌, ◌^◌, ◌==◌, if◌then◌else◌, u32, Option, none, some,
}

-- What plasma.c and fire.c print.
pub record Shown : Type 0 where
  pub sec : ℕ
  pub sec10 : ℕ
  pub f : ℕ
  pub fps : ℕ
  pub fps10 : ℕ

-- `f += 2` in each round of the main loop.
pub count_frames : ℕ → ℕ → ℕ
count_frames zero f = f
count_frames (suc rounds) f = count_frames rounds (u32 (f + 2))

-- The ticks from a value of the clock to another.
pub ticks : ℕ → ℕ → ℕ
ticks started ended = u32 (ended + 2 ^ 32 - started)

-- `(t * 10) / CLK_TCK`
pub tenths : ℕ → ℕ → ℕ
tenths clk_tck t = u32 (t * 10) / clk_tck

-- `(f * (CLK_TCK * 10)) / t`
pub rate : ℕ → ℕ → ℕ → Option ℕ
rate clk_tck t f = if t == 0 then none else some (u32 (f * (clk_tck * 10)) / t)

statistics : ℕ → ℕ → ℕ → Option Shown
statistics clk_tck t f = elim (rate clk_tck t f) [
  | none ↦ none
  | some fps ↦ some (record {
    sec = tenths clk_tck t / 10;
    sec10 = tenths clk_tck t % 10;
    f = f;
    fps = fps / 10;
    fps10 = fps % 10;
  })
]

-- By CLK_TCK, the clock before and after the main loop, and its rounds.
pub plasma_statistics : ℕ → ℕ → ℕ → ℕ → Option Shown
plasma_statistics clk_tck started ended rounds =
    statistics clk_tck (ticks started ended) (count_frames rounds 0)

pub fire_statistics : ℕ → ℕ → ℕ → ℕ → Option Shown
fire_statistics clk_tck started ended rounds =
    statistics clk_tck (ticks started ended) (count_frames rounds 0)

-- The seconds and tenths that mandelbrot.c prints.
pub mandelbrot_time : ℕ → ℕ → ℕ → ℕ × ℕ
mandelbrot_time clk_tck started ended =
    let sec = tenths clk_tck (ticks started ended) in (sec / 10, sec % 10)
