-- ===== src/Overlays/Files.antt =====
-- bin/cc65-snapshot-win32/samples/overlaydemo.c, for a Commodore 64: overlays loaded from files, without extended
-- memory. The lines that are logged are a list, the last one first, with the memory when
-- they are logged. `cbm_load` is a parameter: whether it succeeds, and the memory.
mod Tests
use builds.Base.{
  ℕ, ◌+◌, ◌≡◌, refl, arith, if◌then◌else◌, Bool, true, false, Bool-cases, inl, inr, List, [], ◌∷◌,
  Memory,
}
use builds.Overlays.Loading.{HasCode}

pub data Line : Type 0 where
  from_main : ℕ → Memory → Line
  loading_failed : Line
  from_overlay : ℕ → Memory → Line

pub record Session : Type 0 where
  pub memory : Memory
  pub log : List Line

abbrev pub log_line : Line → Session → Session
log_line l s = record s { log = l ∷ s.log }

module _ (cbm_load : ℕ → Memory → Bool × Memory) where
  pub loadfile : ℕ → Session → Bool × Session
  loadfile n s =
      let (done, memory) = cbm_load n s.memory in
      let s' = record s { memory = memory } in
      if done then (true, s') else (false, log_line loading_failed s')

  -- The part of main for an overlay, with the call of `foo`, `bar` or `foobar`.
  pub run_overlay : ℕ → Session → Session
  run_overlay n s =
      let (done, s') = loadfile n (log_line (from_main n s.memory) s) in
      if done then log_line (from_overlay n s'.memory) s' else s'

  pub overlay_files : Memory → Session
  overlay_files memory =
      run_overlay 3 (run_overlay 2 (run_overlay 1 (record { memory = memory; log = [] })))

module _ (cbm_load : ℕ → Memory → Bool × Memory) (addr size : ℕ → ℕ) (code : ℕ → ℕ → ℕ)
    (loads : (n : ℕ) (memory : Memory)
      → (cbm_load n memory).0 ≡ true
      → HasCode addr size code n (cbm_load n memory).1) where
  -- For each of the overlays, the last one first: a line from main, and then one from the overlay, with its
  -- code in its area, if cbm_load has succeeded, or else the message that it failed.
  abbrev pub Logged : List ℕ → List Line → Type 0
  Logged [] [] = Unit {0}
  Logged (n ∷ ns) (from_overlay k memory' ∷ from_main j memory ∷ log) =
      (k ≡ n)
      × (j ≡ n)
      × ((cbm_load n memory).0 ≡ true)
      × HasCode addr size code n memory'
      × Logged ns log
  Logged (n ∷ ns) (loading_failed ∷ from_main j memory ∷ log) =
      (j ≡ n) × ((cbm_load n memory).0 ≡ false) × Logged ns log
  Logged _ _ = ⊥

  run_overlay-loaded :
      (n : ℕ) (s : Session)
      → (cbm_load n s.memory).0 ≡ true
      → run_overlay cbm_load n s ≡ record {
        memory = (cbm_load n s.memory).1;
        log = from_overlay n (cbm_load n s.memory).1 ∷ from_main n s.memory ∷ s.log;
      }
  unfolding run_overlay loadfile
  run_overlay-loaded n s e = simp (run_overlay, loadfile, e)

  run_overlay-failed :
      (n : ℕ) (s : Session)
      → (cbm_load n s.memory).0 ≡ false
      → run_overlay cbm_load n s ≡ record {
        memory = (cbm_load n s.memory).1;
        log = loading_failed ∷ from_main n s.memory ∷ s.log;
      }
  unfolding run_overlay loadfile
  run_overlay-failed n s e = simp (run_overlay, loadfile, e)

  run_overlay-Logged :
      (n : ℕ) (ns : List ℕ) (s : Session)
      → Logged ns s.log
      → Logged (n ∷ ns) (run_overlay cbm_load n s).log
  run_overlay-Logged n ns s h = elim (Bool-cases (cbm_load n s.memory).0) [
    | inl done ↦ rw (run_overlay-loaded n s done) (refl, refl, done, loads n s.memory done, h)
    | inr failed ↦ rw (run_overlay-failed n s failed) (refl, failed, h)
  ]

  -- If cbm_load, when it succeeds, brings the code of an overlay into its area: main tries the three overlays in
  -- order, and calls each just if it could be loaded, with its code in its area.
  pub overlay_files-Logged :
      (memory : Memory) → Logged (3 ∷ 2 ∷ 1 ∷ []) (overlay_files cbm_load memory).log
  unfolding overlay_files
  overlay_files-Logged memory =
      let s : Session = record { memory = memory; log = [] } in
      let s₁ = run_overlay cbm_load 1 s in
      let s₂ = run_overlay cbm_load 2 s₁ in
      run_overlay-Logged 3 (2 ∷ 1 ∷ []) s₂
        (run_overlay-Logged 2 (1 ∷ []) s₁ (run_overlay-Logged 1 [] s tt))
