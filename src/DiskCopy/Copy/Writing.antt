-- ===== src/DiskCopy/Copy/Writing.antt =====
-- The loop of diodemo.c that writes a chunk of sectors.
use builds.Base.{
  ℕ, zero, suc, ◌+◌, ◌-◌, ◌<◌, ◌≤◌, ◌≡◌, refl, ap, ◌∙◌, sym, arith, u16, true, false, Option, none,
  some, Option-cases, inl, inr,
}
use native.Mathlib.Decide.{dec_lt, ℕ_discrete}
use builds.DiskCopy.Copy.{
  Side, source, target, Dio, Job, ok, failed, writing, in_chunk, place, write_sector, write_chunk,
  ◌>>=◌,
}
use builds.DiskCopy.Copy.Laws.{IsLawful, Ensures, Ensures-map}
use builds.DiskCopy.Copy.Sizes.{
  last, last_bounds, HasSizes, in_chunk-true, in_chunk-false, place_lem,
}
use builds.DiskCopy.Copy.Loops.{sector-lt, Kept, IsCaused, Buffered, Copied}

module _ (D : Dio) (L : IsLawful D) (malloc : ℕ → Option ℕ) (source_id target_id : ℕ)
    (start : D.World) where
  abbrev after_write : Job → Job
  after_write j = record j { sector = u16 (j.sector + 1) }

  -- Disks stay in their drives, and the drives' sectors have the same size.
  pub record Stays (w w' : D.World) : Type 0 where
    pub keeps : (l : Side) (e : ℕ) → L.Holds l e w → L.Holds l e w'
    pub sizes : (e : ℕ) → D.dio_query_sectsize e w' ≡ D.dio_query_sectsize e w

  write_chunk-step :
      (fuel : ℕ) (j : Job) (w w' : D.World)
      → in_chunk j ≡ true
      → D.dio_write target_id j.sector (λ i. j.buffer (place j + i)) w ≡ some w'
      → write_chunk D malloc source_id target_id (suc fuel) j w
        ≡ write_chunk D malloc source_id target_id fuel (after_write j) w'
  unfolding write_chunk write_sector
  write_chunk-step fuel j w w' go e = rw (write_chunk, go, ◌>>=◌, write_sector, e) refl

  write_chunk-failed :
      (fuel : ℕ) (j : Job) (w : D.World)
      → in_chunk j ≡ true
      → D.dio_write target_id j.sector (λ i. j.buffer (place j + i)) w ≡ none
      → write_chunk D malloc source_id target_id (suc fuel) j w ≡ failed writing w
  unfolding write_chunk write_sector
  write_chunk-failed fuel j w go e = rw (write_chunk, go, ◌>>=◌, write_sector, e) refl

  write_chunk-end :
      (fuel : ℕ) (j : Job) (w : D.World)
      → in_chunk j ≡ false
      → write_chunk D malloc source_id target_id (suc fuel) j w ≡ ok j w
  unfolding write_chunk
  write_chunk-end fuel j w stop = rw (write_chunk, stop) refl

  -- What the loop that writes does when it succeeds.
  pub record IsWritten (j : Job) (w : D.World) (j' : Job) (w' : D.World) : Type 0 where
    pub job : j' ≡ record j { sector = last j }
    pub stays : Stays w w'
    pub kept : Kept D L malloc source_id target_id start w'
    pub copied : Copied D L malloc source_id target_id start j.sect_size (last j) w'

  IsWritten-after :
      (j : Job) (w₁ w : D.World) (j' : Job) (w' : D.World)
      → Stays w w₁
      → IsWritten (after_write j) w₁ j' w'
      → IsWritten j w j' w'
  IsWritten-after j w₁ w j' w' first h = record {
    job = h.job;
    stays = record {
      keeps = λ l e here. h.stays.keeps l e (first.keeps l e here);
      sizes = λ e. h.stays.sizes e ∙ first.sizes e;
    };
    kept = h.kept;
    copied = h.copied;
  }

  Copied-suc :
      (j : Job) (w w' : D.World)
      → HasSizes j
      → j.chunk_offset ≤ j.sector
      → j.sector < last j
      → L.Holds target target_id w
      → D.dio_query_sectsize target_id w ≡ j.sect_size
      → Buffered D L malloc source_id target_id start j j.buffer (last j - j.chunk_offset)
      → D.dio_write target_id j.sector (λ i. j.buffer (place j + i)) w ≡ some w'
      → Copied D L malloc source_id target_id start j.sect_size j.sector w
      → Copied D L malloc source_id target_id start j.sect_size (suc j.sector) w'
  Copied-suc j w w' sizes lo more here size full e old s i hs hi = elim (ℕ_discrete s j.sector) [
    | yes new ↦
        let back : j.chunk_offset + (j.sector - j.chunk_offset) ≡ j.sector = omega arith in
        let byte = full (j.sector - j.chunk_offset) i (omega arith) hi in
        rw (new) (
          L.disk-write target target_id j.sector i w w' _ here e (rw (size) hi)
          ∙ ap (λ p. j.buffer (p + i)) (place_lem j sizes lo more)
          ∙ byte
          ∙ ap (λ n. L.disk source start n i) back)
    | no other ↦
        L.disk-write_sector target target_id j.sector s i w w' _ here e other
        ∙ old s i (omega arith) hi
  ]

  -- The loop that writes ends, never changes the source disk, and on success has copied the chunk.
  pub write_chunk-Ensures :
      (fuel : ℕ) (j : Job) (w : D.World)
      → HasSizes j
      → L.Holds target target_id w
      → D.dio_query_sectsize target_id w ≡ j.sect_size
      → j.sect_count ≡ D.dio_query_sectcount source_id start
      → Kept D L malloc source_id target_id start w
      → j.chunk_offset ≤ j.sector
      → j.sector ≤ last j
      → last j < fuel + j.sector
      → Buffered D L malloc source_id target_id start j j.buffer (last j - j.chunk_offset)
      → Copied D L malloc source_id target_id start j.sect_size j.sector w
      → Ensures
          (IsCaused D L malloc source_id target_id start)
          (IsWritten j w)
          (write_chunk D malloc source_id target_id fuel j w)
  write_chunk-Ensures zero j w s here size count kept lo hi enough full old = absurd (omega arith)
  write_chunk-Ensures (suc fuel) j w s here size count kept lo hi enough full old =
      elim (dec_lt j.sector (last j)) [
        | yes more ↦
            elim (Option-cases (D.dio_write target_id j.sector (λ i. j.buffer (place j + i)) w)) [
              | inl e ↦ rw (write_chunk-failed fuel j w (in_chunk-true j s lo more) e) (
                kept,
                (j.sector, _, sector-lt D L malloc source_id target_id start j more count, e),
              )
              | inr (w₁, e) ↦
                  let (in_buffer, on_disk) = last_bounds j more in
                  let next : u16 (j.sector + 1) ≡ suc j.sector = omega arith in
                  let stays : Stays w w₁ = record {
                    keeps = λ l d. L.write-keeps l d target_id j.sector w w₁ _ e;
                    sizes = λ d. L.sectsize-write d target_id j.sector w w₁ _ e;
                  } in
                  let copied : Copied D L malloc source_id target_id start j.sect_size
                      (u16 (j.sector + 1)) w₁ =
                    rw (next) (Copied-suc j w w₁ s lo more here size full e old) in
                  rw (write_chunk-step fuel j w w₁ (in_chunk-true j s lo more) e) (
                    Ensures-map _ (IsWritten (after_write j) w₁) (IsWritten j w)
                      (λ j' w'. IsWritten-after j w₁ w j' w' stays)
                      (write_chunk D malloc source_id target_id fuel (after_write j) w₁)
                      (write_chunk-Ensures fuel (after_write j) w₁
                        (record {
                          count_bound = s.count_bound;
                          buffer_bound = s.buffer_bound;
                          progress = s.progress;
                        })
                        (stays.keeps target target_id here) (stays.sizes target_id ∙ size) count
                        (L.disk-write_side target source target_id j.sector w w₁ _ here e (cc)
                          ∙ kept)
                        (omega arith) (omega arith) (omega arith) full copied))
            ]
        | no done ↦
            let end : j.sector ≡ last j = omega arith in
            rw (write_chunk-end fuel j w (in_chunk-false j s lo end)) (record {
              job = ap (λ n. record j { sector = n }) end;
              stays = record { keeps = λ l d h. h; sizes = λ d. refl };
              kept = kept;
              copied = rw (sym end) old;
            })
      ]
