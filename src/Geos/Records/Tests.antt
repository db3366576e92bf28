-- ===== src/Geos/Records/Tests.antt =====
-- A file of three records, of which the third cannot be read, and the theorem of overlay-demo.c on it.
use builds.Base.{
  ℕ, ◌+◌, ◌-◌, ◌*◌, ◌≡◌, refl, arith, ◌==◌, leb, ltb, ◌&&◌, if◌then◌else◌, List, [], ◌∷◌, Memory,
  map,
}
use builds.Geos.Records.{
  Kernal, Machine, Outcome, ok, failed, overlay_demo, overlay, open_file, close_file, point, read,
  call_overlay,
}
use builds.Geos.Records.Calls.{HasCode, IsLawful, Ensures, overlay_demo-Ensures}

abbrev code : ℕ → ℕ → ℕ
code n i = n * 16 + i

-- Reading the record `n` brings its code to the address 100.
abbrev loaded : ℕ → Memory → Memory
loaded n memory a = if leb 100 a && ltb a 108 then code n (a - 100) else memory a

abbrev record_file : Kernal
record_file = record {
  World = ℕ;
  open_record_file = λ w. (0, 0);
  point_record = λ n w. (0, n);
  read_record = λ memory w. (if w == 3 then 9 else 0, loaded w memory, w);
  close_record_file = λ w. (0, w);
}

loaded-HasCode : (n : ℕ) (memory : Memory) → HasCode 100 8 code n (loaded n memory)
loaded-HasCode n memory i h = ground arith

record_file-IsLawful : IsLawful record_file 100 8 code
record_file-IsLawful = record {
  current = λ w. w;
  point-current = λ n w e. refl;
  read-HasCode = λ memory w e. loaded-HasCode w memory;
}

abbrev at_start : Machine record_file
at_start = record { memory = λ a. 0; world = 0; calls = [] }

-- The overlays that have been called, the last one first.
called : Outcome record_file → List ℕ
called (ok m) = map (λ c. c.0) m.calls
called (failed e m) = map (λ c. c.0) m.calls

two_called : called (overlay_demo record_file at_start) ≡ 2 ∷ 1 ∷ []
unfolding called overlay_demo overlay open_file close_file point read call_overlay
two_called = refl

overlay_demo-Ensures_example :
    Ensures record_file 100 8 code record_file-IsLawful
      (3 ∷ 2 ∷ 1 ∷ [])
      (overlay_demo record_file at_start)
overlay_demo-Ensures_example =
    overlay_demo-Ensures record_file 100 8 code record_file-IsLawful (λ a. 0) 0
