-- ===== src/Statistics/Tests.antt =====
-- A time and a rate, and the theorem on them.
use builds.Base.{◌≡◌, refl, arith, some}
use builds.Statistics.{
  Shown, plasma_statistics, fire_statistics, mandelbrot_time, statistics, rate, tenths, ticks,
  count_frames,
}
use builds.Statistics.Rates.{IsExact, plasma_statistics-IsExact}

-- 120 rounds in 605 ticks, of which the clock passes 2 ^ 32.
plasma_shown :
    plasma_statistics 60 4294967290 599 120
    ≡ some (record { sec = 10; sec10 = 0; f = 240; fps = 23; fps10 = 8 })
unfolding plasma_statistics statistics rate tenths ticks count_frames
plasma_shown = refl

time_shown : mandelbrot_time 60 100 1000 ≡ (15, 0)
unfolding mandelbrot_time tenths ticks
time_shown = refl

plasma_statistics-IsExact_example :
    (s : Shown) × (plasma_statistics 60 1000 1605 120 ≡ some s)
    × (fire_statistics 60 1000 1605 120 ≡ some s)
    × (mandelbrot_time 60 1000 1605 ≡ (s.sec, s.sec10))
    × IsExact 60 605 240 s
plasma_statistics-IsExact_example =
    plasma_statistics-IsExact 60 1000 605 120 (omega arith) (omega arith) (omega arith)
      (omega arith) (omega arith)
