-- ===== src/Plasma/Tests.antt =====
-- A picture of plasma.c, and its theorems at concrete inputs.
use builds.Base.{◌/◌, ◌%◌, ◌^◌, ltb, bit_and, ℕ, ◌+◌, ◌*◌, ◌<◌, ◌≡◌, refl, arith, Memory, inl, inr}
use builds.Plasma.{charset, makechar, page1, page2, sinus, Plasma, doplasma, rounds}
use builds.Plasma.Picture.{plasma_at, HasBytes, doplasma-picture, doplasma-elsewhere}
use builds.Plasma.Dots.{bit, makechar-dots}
use builds.Plasma.Cycle.{rounds-pages}

-- The state when the program starts: statics are 0.
abbrev start : Plasma
start = record {
  c1_a = 0;
  c1_b = 0;
  c2_a = 0;
  c2_b = 0;
  xbuf = λ i. 0;
  ybuf = λ i. 0;
  memory = λ i. 0;
}

start-HasBytes : HasBytes start
start-HasBytes = record {
  c1_a = omega arith;
  c1_b = omega arith;
  c2_a = omega arith;
  c2_b = omega arith;
}

first_row : (doplasma page1 start).memory (page1 + 1) ≡ 0xE1
unfolding doplasma builds.Plasma.draw builds.Plasma.draw_row builds.Base.update builds.Plasma.wave
    sinus builds.Plasma.sinustable
first_row = refl

doplasma-picture_example : (doplasma page1 start).memory (page1 + 2 * 40 + 3) ≡ plasma_at start 2 3
doplasma-picture_example =
    doplasma-picture page1 start 2 3 start-HasBytes (omega arith) (omega arith)

doplasma-elsewhere_example : (doplasma page1 start).memory page2 ≡ 0
doplasma-elsewhere_example = doplasma-elsewhere page1 start page2 (inr (omega arith))

rounds-pages_example :
    ((rounds 4 start).memory (page1 + 24 * 40 + 39) ≡ plasma_at (rounds 3 start) 24 39)
    × ((rounds 4 start).memory (page2 + 24 * 40 + 39)
        ≡ plasma_at (doplasma page1 (rounds 3 start)) 24 39)
rounds-pages_example = rounds-pages 3 start 24 39 start-HasBytes (omega arith) (omega arith)

-- What `rand` may return.
abbrev throws : ℕ → ℕ
throws n = n * 41 % 0x8000

makechar-dots_example :
    makechar throws (λ i. 0) (charset + 20 * 8 + 3) / 2 ^ 5 % 2
    ≡ bit (ltb (sinus 20) (bit_and (throws (20 * 64 + 3 * 8 + 5)) 0xFF))
makechar-dots_example =
    makechar-dots throws (λ i. 0) 20 3 5 (omega arith) (omega arith) (omega arith)
