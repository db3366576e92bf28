-- ===== src/DiskCopy/Copy/Loops.antt =====
-- The loops of diodemo.c that read and write a chunk of sectors.
use builds.Base.{
  ℕ, zero, suc, ◌+◌, ◌-◌, ◌*◌, ◌<◌, ◌≤◌, ◌≡◌, ◌≢◌, ◌⊎◌, false, refl, ap, ◌∙◌, sym, arith, u16, true,
  Option, none, some, Option-cases, inl, inr, Memory,
}
use native.Mathlib.Decide.{dec_lt, ℕ_discrete}
use builds.DiskCopy.{Allocation, alloc_buffer}
use builds.DiskCopy.Copy.{
  source, target, Dio, Failure, opening_source, allocating, opening_target, format_mismatch,
  writing, Job, ok, failed, reading, in_chunk, place, store_sector, read_sector, read_chunk, ◌>>=◌,
}
use builds.DiskCopy.Copy.Laws.{IsLawful, Ensures, Ensures-map}
use builds.DiskCopy.Copy.Sizes.{
  store_sector-in, store_sector-below, row-lt, last, HasSizes, in_chunk-true, in_chunk-false,
  last_bounds, place_lem,
}

module _ (D : Dio) (L : IsLawful D) (malloc : ℕ → Option ℕ) (source_id target_id : ℕ)
    (start : D.World) where
  -- The source disk is as it was at the start.
  abbrev pub Kept : D.World → Type 0
  Kept w = L.disk source w ≡ L.disk source start

  -- The call or the test of main that fails, in the world that it fails in.
  abbrev pub HasCause : Failure → D.World → Type 0
  HasCause opening_source w = D.dio_open source_id w ≡ false
  HasCause allocating w =
      (a : Allocation) × (alloc_buffer 10 malloc (D.dio_query_sectsize source_id w)
          (D.dio_query_sectcount source_id w)
        ≡ some a)
      × (a.address ≡ none)
  HasCause reading w =
      (n : ℕ) × (n < D.dio_query_sectcount source_id start) × (D.dio_read source_id n w ≡ none)
  HasCause opening_target w = D.dio_open target_id w ≡ false
  HasCause format_mismatch w =
      (D.dio_query_sectsize target_id w ≢ D.dio_query_sectsize source_id start)
      ⊎ (D.dio_query_sectcount target_id w ≢ D.dio_query_sectcount source_id start)
  HasCause writing w =
      (n : ℕ) × (f : ℕ → ℕ) × (n < D.dio_query_sectcount source_id start)
      × (D.dio_write target_id n f w ≡ none)

  -- What holds after a failure.
  abbrev pub IsCaused : Failure → D.World → Type 0
  IsCaused e w = Kept w × HasCause e w

  -- The first `n` sectors of the chunk are in the buffer.
  abbrev pub Buffered : Job → Memory → ℕ → Type 0
  Buffered j b n =
      (k i : ℕ)
      → k < n
      → i < j.sect_size
      → b (k * j.sect_size + i) ≡ L.disk source start (j.chunk_offset + k) i

  -- The first `n` sectors of the disk are on the target.
  abbrev pub Copied : ℕ → ℕ → D.World → Type 0
  Copied size n w = (s i : ℕ) → s < n → i < size → L.disk target w s i ≡ L.disk source start s i

  abbrev after_read : Job → (ℕ → ℕ) → Job
  after_read j f = record j {
    sector = u16 (j.sector + 1);
    buffer = store_sector j.buffer (place j) j.sect_size f;
  }

  read_chunk-step :
      (fuel : ℕ) (j : Job) (w : D.World) (f : ℕ → ℕ)
      → in_chunk j ≡ true
      → D.dio_read source_id j.sector w ≡ some f
      → read_chunk D malloc source_id target_id (suc fuel) j w
        ≡ read_chunk D malloc source_id target_id fuel (after_read j f) w
  unfolding read_chunk read_sector
  read_chunk-step fuel j w f go e = rw (read_chunk, go, ◌>>=◌, read_sector, e) refl

  read_chunk-failed :
      (fuel : ℕ) (j : Job) (w : D.World)
      → in_chunk j ≡ true
      → D.dio_read source_id j.sector w ≡ none
      → read_chunk D malloc source_id target_id (suc fuel) j w ≡ failed reading w
  unfolding read_chunk read_sector
  read_chunk-failed fuel j w go e = rw (read_chunk, go, ◌>>=◌, read_sector, e) refl

  read_chunk-end :
      (fuel : ℕ) (j : Job) (w : D.World)
      → in_chunk j ≡ false
      → read_chunk D malloc source_id target_id (suc fuel) j w ≡ ok j w
  unfolding read_chunk
  read_chunk-end fuel j w stop = rw (read_chunk, stop) refl

  Buffered-suc :
      (j : Job) (b : Memory) (n : ℕ) (f : ℕ → ℕ)
      → Buffered j b n
      → ((i : ℕ) → i < j.sect_size → f i ≡ L.disk source start (j.chunk_offset + n) i)
      → Buffered j (store_sector b (n * j.sect_size) j.sect_size f) (suc n)
  Buffered-suc j b n f h new k i hk hi = elim (ℕ_discrete k n) [
    | yes e ↦ rw (e) (store_sector-in b (n * j.sect_size) j.sect_size f i hi ∙ new i hi)
    | no other ↦
        store_sector-below b (n * j.sect_size) j.sect_size f _
          (row-lt k n j.sect_size i (omega arith) hi)
        ∙ h k i (omega arith) hi
  ]

  -- What the loop that reads does when it succeeds.
  pub record IsRead (j : Job) (w : D.World) (j' : Job) (w' : D.World) : Type 0 where
    pub world : w' ≡ w
    pub bytes : Memory
    pub job : j' ≡ record j { sector = last j; buffer = bytes }
    pub buffered : Buffered j bytes (last j - j.chunk_offset)

  IsRead-after :
      (j : Job) (f : ℕ → ℕ) (w : D.World) (j' : Job) (w' : D.World)
      → IsRead (after_read j f) w j' w'
      → IsRead j w j' w'
  IsRead-after j f w j' w' h = record {
    world = h.world;
    bytes = h.bytes;
    job = h.job;
    buffered = h.buffered;
  }

  pub sector-lt :
      (j : Job)
      → j.sector < last j
      → j.sect_count ≡ D.dio_query_sectcount source_id start
      → j.sector < D.dio_query_sectcount source_id start
  sector-lt j more count = let (in_buffer, on_disk) = last_bounds j more in omega arith

  -- The loop that reads ends, leaves the disks alone, and on success has the chunk in the buffer.
  pub read_chunk-Ensures :
      (fuel : ℕ) (j : Job) (w : D.World)
      → HasSizes j
      → L.Holds source source_id w
      → D.dio_query_sectsize source_id w ≡ j.sect_size
      → j.sect_count ≡ D.dio_query_sectcount source_id start
      → Kept w
      → j.chunk_offset ≤ j.sector
      → j.sector ≤ last j
      → last j < fuel + j.sector
      → Buffered j j.buffer (j.sector - j.chunk_offset)
      → Ensures IsCaused (IsRead j w) (read_chunk D malloc source_id target_id fuel j w)
  read_chunk-Ensures zero j w s here size count kept lo hi enough old = absurd (omega arith)
  read_chunk-Ensures (suc fuel) j w s here size count kept lo hi enough old =
      elim (dec_lt j.sector (last j)) [
        | yes more ↦ elim (Option-cases (D.dio_read source_id j.sector w)) [
          | inl e ↦
              rw (read_chunk-failed fuel j w (in_chunk-true j s lo more) e)
                (kept, (j.sector, sector-lt j more count, e))
          | inr (f, e) ↦
              let (in_buffer, on_disk) = last_bounds j more in
              let next : u16 (j.sector + 1) ≡ j.sector + 1 = omega arith in
              let turn : u16 (j.sector + 1) - j.chunk_offset ≡ suc (j.sector - j.chunk_offset) =
                omega arith in
              let here' : j.chunk_offset + (j.sector - j.chunk_offset) ≡ j.sector = omega arith in
              let buffered : Buffered j (store_sector j.buffer (place j) j.sect_size f)
                  (u16 (j.sector + 1) - j.chunk_offset) =
                rw (place_lem j s lo more, turn)
                  (Buffered-suc j j.buffer (j.sector - j.chunk_offset) f old (λ i hi. rw (here') (
                    L.read-disk source source_id j.sector i w f here e (rw (size) hi)
                    ∙ ap (λ d. d j.sector i) kept))) in
              let r =
                read_chunk-Ensures fuel (after_read j f) w
                  (record {
                    count_bound = s.count_bound;
                    buffer_bound = s.buffer_bound;
                    progress = s.progress;
                  })
                  here size count kept (omega arith) (omega arith) (omega arith) buffered in
              rw (read_chunk-step fuel j w f (in_chunk-true j s lo more) e) (
                Ensures-map IsCaused (IsRead (after_read j f) w) (IsRead j w) (IsRead-after j f w)
                  (read_chunk D malloc source_id target_id fuel (after_read j f) w) r)
        ]
        | no done ↦
            let end : j.sector ≡ last j = omega arith in
            rw (read_chunk-end fuel j w (in_chunk-false j s lo end)) (record {
              world = refl;
              bytes = j.buffer;
              job = ap (λ n. record j { sector = n }) end;
              buffered = rw (sym end) old;
            })
      ]
