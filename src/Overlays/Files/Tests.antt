-- ===== src/Overlays/Files/Tests.antt =====
-- Files of which the second is missing, and the theorem of overlaydemo.c on them.
use builds.Base.{
  ℕ, ◌+◌, ◌-◌, ◌*◌, ◌≡◌, refl, arith, ◌==◌, leb, ltb, ◌&&◌, not, if◌then◌else◌, Bool, true, List,
  [], ◌∷◌, Memory,
}
use builds.Overlays.Loading.{HasCode}
use builds.Overlays.Files.{
  Line, from_main, loading_failed, from_overlay, Logged, loadfile, run_overlay, overlay_files,
  overlay_files-Logged,
}

abbrev code : ℕ → ℕ → ℕ
code n i = n * 16 + i

abbrev area : ℕ → ℕ
area n = 2000

abbrev length_of : ℕ → ℕ
length_of n = 8

abbrev loaded : ℕ → Memory → Memory
loaded n memory a = if leb 2000 a && ltb a 2008 then code n (a - 2000) else memory a

abbrev files : ℕ → Memory → Bool × Memory
files n memory = (not (n == 2), loaded n memory)

loaded-HasCode :
    (n : ℕ) (memory : Memory)
    → (files n memory).0 ≡ true
    → HasCode area length_of code n (loaded n memory)
loaded-HasCode n memory e i h = ground arith

-- The numbers of the overlays that logged a line.
heard : List Line → List ℕ
heard [] = []
heard (from_main n memory ∷ log) = heard log
heard (loading_failed ∷ log) = heard log
heard (from_overlay n memory ∷ log) = n ∷ heard log

two_heard : heard (overlay_files files (λ a. 0)).log ≡ 3 ∷ 1 ∷ []
unfolding heard overlay_files run_overlay loadfile
two_heard = refl

overlay_files-Logged_example :
    Logged files area length_of code loaded-HasCode
      (3 ∷ 2 ∷ 1 ∷ [])
      (overlay_files files (λ a. 0)).log
overlay_files-Logged_example =
    overlay_files-Logged files area length_of code loaded-HasCode (λ a. 0)
