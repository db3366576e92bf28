-- ===== src/Statistics/Rates.antt =====
-- What the printed times and rates are.
use builds.Base.{
  ℕ, zero, suc, ◌+◌, ◌*◌, ◌/◌, ◌%◌, ◌^◌, ◌<◌, ◌≡◌, refl, ap, ◌∙◌, sym, arith, ◌==◌, u32, none, some,
  false,
}
use native.Mathlib.Nat.{mod-eq_of_lt}
use builds.Statistics.{
  Shown, count_frames, ticks, tenths, rate, statistics, plasma_statistics, fire_statistics,
  mandelbrot_time,
}

count_frames_lem : (rounds f : ℕ) → f + 2 * rounds < 2 ^ 32 → count_frames rounds f ≡ f + 2 * rounds
unfolding count_frames
count_frames_lem zero f h = omega arith
count_frames_lem (suc rounds) f h =
    let step : u32 (f + 2) ≡ f + 2 = omega arith in
    rw (count_frames, step) (count_frames_lem rounds (f + 2) (omega arith) ∙ omega arith)

ticks_lem : (started t : ℕ) → started < 2 ^ 32 → t < 2 ^ 32 → ticks started (u32 (started + t)) ≡ t
unfolding ticks
ticks_lem started t h k = omega arith

tenths_lem : (clk_tck t : ℕ) → t * 10 < 2 ^ 32 → tenths clk_tck t ≡ t * 10 / clk_tck
unfolding tenths
tenths_lem clk_tck t h = let small : u32 (t * 10) ≡ t * 10 = omega arith in rw (small) refl

digits : (a b : ℕ) → b < 10 → ◌≡◌ {A = ℕ × ℕ} ((a * 10 + b) / 10, (a * 10 + b) % 10) (a, b)
digits a b h =
    let high : (a * 10 + b) / 10 ≡ a = omega arith in
    let low : (a * 10 + b) % 10 ≡ b = omega arith in λ j. (high j, low j)

-- Whether the numbers are the time and the frames per second, in tenths that are rounded down.
pub record IsExact (clk_tck t frames : ℕ) (s : Shown) : Type 0 where
  pub time : s.sec * 10 + s.sec10 ≡ t * 10 / clk_tck
  pub time_digit : s.sec10 < 10
  pub count : s.f ≡ frames
  pub rate : s.fps * 10 + s.fps10 ≡ frames * (clk_tck * 10) / t
  pub rate_digit : s.fps10 < 10

statistics-IsExact :
    (clk_tck t f : ℕ)
    → 0 < t
    → t * 10 < 2 ^ 32
    → f * (clk_tck * 10) < 2 ^ 32
    → (s : Shown) × (statistics clk_tck t f ≡ some s) × IsExact clk_tck t f s
unfolding statistics rate tenths
statistics-IsExact clk_tck t f some_time short few =
    let running : (t == 0) ≡ false = ground arith in
    let small : u32 (t * 10) ≡ t * 10 = omega arith in
    let fits : u32 (f * (clk_tck * 10)) ≡ f * (clk_tck * 10) = mod-eq_of_lt few in
    (
      record {
        sec = t * 10 / clk_tck / 10;
        sec10 = t * 10 / clk_tck % 10;
        f = f;
        fps = f * (clk_tck * 10) / t / 10;
        fps10 = f * (clk_tck * 10) / t % 10;
      },
      simp (statistics, rate, tenths, running, small, fits),
      record {
        time = omega arith;
        time_digit = omega arith;
        count = refl;
        rate = omega arith;
        rate_digit = omega arith;
      },
    )

-- If at least a tick has passed, and the 32-bit numbers do not overflow: plasma.c and fire.c print the same, which
-- is the time in seconds and the frames per second, both in tenths that are rounded down, and the
-- number of frames, two in a round; mandelbrot.c prints the same time. The clock may have passed 2 ^ 32 between its two values.
pub plasma_statistics-IsExact :
    (clk_tck started t rounds : ℕ)
    → started < 2 ^ 32
    → 0 < t
    → t * 10 < 2 ^ 32
    → 2 * rounds < 2 ^ 32
    → 2 * rounds * (clk_tck * 10) < 2 ^ 32
    → (s : Shown) × (plasma_statistics clk_tck started (u32 (started + t)) rounds ≡ some s)
      × (fire_statistics clk_tck started (u32 (started + t)) rounds ≡ some s)
      × (mandelbrot_time clk_tck started (u32 (started + t)) ≡ (s.sec, s.sec10))
      × IsExact clk_tck t (2 * rounds) s
unfolding plasma_statistics fire_statistics
plasma_statistics-IsExact clk_tck started t rounds from_clock passed short counted few =
    let elapsed = ticks_lem started t from_clock (omega arith) in
    let frames : count_frames rounds 0 ≡ 2 * rounds =
      count_frames_lem rounds 0 (omega arith) ∙ omega arith in
    let (s, e, exact) = statistics-IsExact clk_tck t (2 * rounds) passed short few in
    let prints : statistics clk_tck (ticks started (u32 (started + t))) (count_frames rounds 0)
        ≡ some s =
      ap (λ (n : ℕ). statistics clk_tck n (count_frames rounds 0)) elapsed
      ∙ ap (statistics clk_tck t) frames
      ∙ e in
    let time =
      ap (λ (n : ℕ). (tenths clk_tck n / 10, tenths clk_tck n % 10)) elapsed
      ∙ ap (λ (a : ℕ). (a / 10, a % 10)) (tenths_lem clk_tck t short ∙ sym exact.time)
      ∙ digits s.sec s.sec10 exact.time_digit in
    (s, prints, prints, unfold mandelbrot_time in time, exact)

-- If a key is pressed within the tick in which the main loop starts, the rate is a division by zero.
plasma_statistics-none :
    (clk_tck started rounds : ℕ)
    → started < 2 ^ 32
    → plasma_statistics clk_tck started started rounds ≡ none
unfolding plasma_statistics statistics rate
plasma_statistics-none clk_tck started rounds from_clock =
    let elapsed : ticks started started ≡ 0 = unfold ticks in omega arith in
    rw (plasma_statistics, elapsed) refl
