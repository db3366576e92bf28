-- ===== src/Geos/Records.antt =====
-- bin/cc65-snapshot-win32/samples/geos/overlay-demo.c: overlays in the records of a file.
-- The kernal's calls on records are the interface `Kernal`; memory is a function of the address. The overlays
-- only show a dialog; a call of one is logged with the memory at the call, the last one first.
pub mod Calls
mod Tests
use builds.Base.{ℕ, ◌==◌, if◌then◌else◌, Bool, true, false, List, [], ◌∷◌, Memory}

-- Each call gives an error code; `read_record` also the memory.
pub record Kernal : Type 1 where
  pub World : Type 0
  pub open_record_file : World → ℕ × World
  pub point_record : ℕ → World → ℕ × World
  pub read_record : Memory → World → ℕ × Memory × World
  pub close_record_file : World → ℕ × World

-- The calls that `_poserror` names.
pub data Failure : Type 0 where
  opening : Failure
  pointing : ℕ → Failure
  reading : ℕ → Failure
  closing : Failure

pub record Machine (K : Kernal) : Type 0 where
  pub memory : Memory
  pub world : K.World
  pub calls : List (ℕ × Memory)

-- How a part of main ends.
pub data Outcome (K : Kernal) : Type 0 where
  ok : Machine K → Outcome K
  failed : Failure → Machine K → Outcome K

infixl 5 ◌>>=◌
abbrev pub ◌>>=◌ : {K : Kernal} → Outcome K → (Machine K → Outcome K) → Outcome K
ok m >>= f = f m
failed e m >>= f = failed e m

module _ (K : Kernal) where
  -- `if (...) { _poserror (...); return; }`, after a call.
  abbrev pub checked : Failure → ℕ → Machine K → Outcome K
  checked e error m = if error == 0 then ok m else failed e m

  pub open_file : Machine K → Outcome K
  open_file m =
      let (error, w) = K.open_record_file m.world in checked opening error (record m { world = w })

  pub point : ℕ → Machine K → Outcome K
  point n m =
      let (error, w) = K.point_record n m.world in
      checked (pointing n) error (record m { world = w })

  pub read : ℕ → Machine K → Outcome K
  read n m =
      let (error, memory, w) = K.read_record m.memory m.world in
      checked (reading n) error (record m { memory = memory; world = w })

  -- `foo`, `bar` and `foobar`.
  pub call_overlay : ℕ → Machine K → Outcome K
  call_overlay n m = ok (record m { calls = (n, m.memory) ∷ m.calls })

  -- The part of main for an overlay.
  pub overlay : ℕ → Machine K → Outcome K
  overlay n m = point n m >>= read n >>= call_overlay n

  pub close_file : Machine K → Outcome K
  close_file m =
      let (error, w) = K.close_record_file m.world in checked closing error (record m { world = w })

  pub overlay_demo : Machine K → Outcome K
  overlay_demo m = open_file m >>= overlay 1 >>= overlay 2 >>= overlay 3 >>= close_file
