-- ===== src/Fire/Tests.antt =====
-- Tests of the flame, and instances of its theorems.
use builds.Base.{ℕ, ◌+◌, ◌*◌, ◌<◌, ◌≡◌, refl, arith, Memory, min, ◌%◌, ◌-◌, inl, inr}
use builds.Fire.{
  buffer, screen1, screen2, charset, makechar, cooled, fire, frame, frames, clear_pages,
}
use builds.Fire.Pages.{
  flame, IsFlame, fire-flame, fire-elsewhere, frame-IsFlame, frames-clear_pages,
}
use builds.Fire.Charset.{pixels, makechar-pixels}

abbrev noise : ℕ → ℕ
noise n = n * 37 % 256

abbrev warm : Memory
warm i = i * 5 % 64

noise-bound : (n : ℕ) → noise n < 256
noise-bound n = omega arith

warm-IsFlame : IsFlame warm
unfolding IsFlame
warm-IsFlame k h = omega arith

cooled-cell : cooled warm (buffer + 3) ≡ 18
unfolding cooled
cooled-cell = refl

fire-flame_example :
    (fire noise screen1 warm (buffer + 921) ≡ flame noise warm 921)
    × (fire noise screen1 warm (screen1 + 921) ≡ flame noise warm 921)
fire-flame_example = fire-flame noise screen1 921 warm (omega arith) (omega arith)

fire-elsewhere_example : fire noise screen1 warm (buffer + 1000) ≡ warm (buffer + 1000)
fire-elsewhere_example =
    fire-elsewhere noise screen1 (buffer + 1000) warm (omega arith) (inr (omega arith))
      (inl (omega arith))

frame-IsFlame_example :
    IsFlame (frame noise noise warm)
    × (frame noise noise warm (screen1 + 7) ≡ flame noise warm 7)
    × (frame noise noise warm (screen2 + 7) ≡ flame noise (fire noise screen1 warm) 7)
    × (frame noise noise warm (buffer + 7) ≡ flame noise (fire noise screen1 warm) 7)
frame-IsFlame_example =
    frame-IsFlame noise noise 7 warm noise-bound noise-bound warm-IsFlame (omega arith)

frames-clear_pages_example :
    IsFlame (frames (λ r. noise) (λ r. noise) 3 (clear_pages 0x400 0 0xD800 7 warm))
frames-clear_pages_example =
    frames-clear_pages (λ r. noise) (λ r. noise) 3 0xD800 7 warm (λ r n. omega arith)
      (λ r n. omega arith) (omega arith)

makechar-pixels_example : pixels 8 (makechar warm) (charset + 64 * 8) ≡ min (64 - 1) 64
makechar-pixels_example = makechar-pixels warm 64 (omega arith)
