-- ===== src/DiskCopy/Copy/Laws.antt =====
-- What diodemo.c relies on of the drives and of the user: a disk stays where it is until another is put
-- in the drive, reading gives what a disk holds, and writing stores it on the disk that is there.
use builds.Base.{ℕ, ◌^◌, ◌<◌, ◌≡◌, ◌≢◌, some}
use builds.DiskCopy.Copy.{Side, Dio, Failure, Outcome, ok, failed, out_of_fuel, ◌>>=◌}

pub record IsLawful (D : Dio) : Type 1 where
  -- What a disk holds, by sector and byte; and that it is in a drive.
  pub disk : Side → D.World → ℕ → ℕ → ℕ
  pub Holds : Side → ℕ → D.World → Type 0
  pub disk-insert : (l side : Side) (d : ℕ) (w : D.World) → disk l (D.insert side d w) ≡ disk l w
  pub insert-Holds : (side : Side) (d : ℕ) (w : D.World) → Holds side d (D.insert side d w)
  pub insert-keeps :
      (l side : Side) (e d : ℕ) (w : D.World) → e ≢ d → Holds l e w → Holds l e (D.insert side d w)
  pub sectsize-insert :
      (e d : ℕ) (side : Side) (w : D.World)
      → D.dio_query_sectsize e (D.insert side d w) ≡ D.dio_query_sectsize e w
  pub sectcount-insert :
      (e d : ℕ) (side : Side) (w : D.World)
      → D.dio_query_sectcount e (D.insert side d w) ≡ D.dio_query_sectcount e w
  pub sectsize-bound : (d : ℕ) (w : D.World) → D.dio_query_sectsize d w < 2 ^ 16
  pub read-disk :
      (side : Side) (d n j : ℕ) (w : D.World) (f : ℕ → ℕ)
      → Holds side d w
      → D.dio_read d n w ≡ some f
      → j < D.dio_query_sectsize d w
      → f j ≡ disk side w n j
  pub disk-write :
      (side : Side) (d n j : ℕ) (w w' : D.World) (f : ℕ → ℕ)
      → Holds side d w
      → D.dio_write d n f w ≡ some w'
      → j < D.dio_query_sectsize d w
      → disk side w' n j ≡ f j
  pub disk-write_sector :
      (side : Side) (d n m j : ℕ) (w w' : D.World) (f : ℕ → ℕ)
      → Holds side d w
      → D.dio_write d n f w ≡ some w'
      → m ≢ n
      → disk side w' m j ≡ disk side w m j
  pub disk-write_side :
      (side l : Side) (d n : ℕ) (w w' : D.World) (f : ℕ → ℕ)
      → Holds side d w
      → D.dio_write d n f w ≡ some w'
      → l ≢ side
      → disk l w' ≡ disk l w
  pub write-keeps :
      (l : Side) (e d n : ℕ) (w w' : D.World) (f : ℕ → ℕ)
      → D.dio_write d n f w ≡ some w'
      → Holds l e w
      → Holds l e w'
  pub sectsize-write :
      (e d n : ℕ) (w w' : D.World) (f : ℕ → ℕ)
      → D.dio_write d n f w ≡ some w'
      → D.dio_query_sectsize e w' ≡ D.dio_query_sectsize e w

-- What holds of an outcome: `P` of a result, `F` of a failure and the world after it. It is no lack of
-- fuel.
abbrev pub Ensures :
    {W A : Type 0} → (Failure → W → Type 0) → (A → W → Type 0) → Outcome W A → Type 0
Ensures F P (ok a w) = P a w
Ensures F P (failed e w) = F e w
Ensures F P out_of_fuel = ⊥

pub >>=-Ensures :
    {W A B : Type 0} (F : Failure → W → Type 0) (P : A → W → Type 0) (Q : B → W → Type 0)
    → (m : W → Outcome W A) (f : A → W → Outcome W B) (w : W) → Ensures F P (m w)
    → ((a : A) (w : W) → P a w → Ensures F Q (f a w))
    → Ensures F Q ((m >>= f) w)
>>=-Ensures F P Q m f w h k = bound (m w) h
  where
    bound :
        (r : Outcome _ _)
        → Ensures F P r
        → Ensures F Q
            (elim r [ ok a w' ↦ f a w' | failed e w' ↦ failed e w' | out_of_fuel ↦ out_of_fuel ])
    bound (ok a w') h = k a w' h
    bound (failed e w') h = h
    bound out_of_fuel h = h

pub Ensures-map :
    {W A : Type 0} (F : Failure → W → Type 0) (P Q : A → W → Type 0)
    → ((a : A) (w : W) → P a w → Q a w)
    → (r : Outcome W A) → Ensures F P r
    → Ensures F Q r
Ensures-map F P Q k (ok a w) h = k a w h
Ensures-map F P Q k (failed e w) h = h
Ensures-map F P Q k out_of_fuel h = h
