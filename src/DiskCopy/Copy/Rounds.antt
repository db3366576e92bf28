-- ===== src/DiskCopy/Copy/Rounds.antt =====
-- A round of the main loop of diodemo.c, and the loop.
use builds.Base.{
  ℕ, zero, suc, ◌+◌, ◌^◌, ◌<◌, ◌≤◌, ◌≡◌, refl, ◌∙◌, sym, arith, ltb, u16, true, false, Memory,
  Option, lt→ltb, le→ltb,
}
use native.Mathlib.Decide.{dec_lt}
use builds.DiskCopy.Copy.{
  source, target, Dio, Failure, Job, Outcome, ok, begin_source, begin_target, read_chunk,
  write_chunk, rewind, next_chunk, copy_chunk, copy_chunks, job_at_start, ◌>>=◌,
}
use builds.DiskCopy.Copy.Laws.{IsLawful, Ensures, Ensures-map, >>=-Ensures}
use builds.DiskCopy.Copy.Sizes.{last, HasSizes}
use builds.DiskCopy.Copy.Loops.{Copied, IsRead, HasCause, read_chunk-Ensures}
use builds.DiskCopy.Copy.Writing.{Stays, IsWritten, write_chunk-Ensures}
use builds.DiskCopy.Copy.Opening.{
  Mid, AtSource, KeptHere, FailsHere, begin_source-first, begin_source-later,
}
use builds.DiskCopy.Copy.OpeningTarget.{HasChunk, AtTarget, begin_target-Ensures}

module _ (D : Dio) (L : IsLawful D) (malloc : ℕ → Option ℕ) (source_id target_id : ℕ)
    (start : D.World) where
  module _ (before : ℕ) where
    abbrev K : D.World → Type 0
    K = KeptHere D L malloc source_id target_id start before

    abbrev F : Failure → D.World → Type 0
    F = FailsHere D L malloc source_id target_id start before

    Mid-sector :
        (j : Job) (w : D.World) (n : ℕ) (b : Memory)
        → Mid D L malloc source_id target_id start before j w
        → Mid D L malloc source_id target_id start before (record j { sector = n; buffer = b }) w
    Mid-sector j w n b m = record {
      opened = m.opened;
      since = m.since;
      kept = m.kept;
      fits = record {
        count_bound = m.fits.count_bound;
        buffer_bound = m.fits.buffer_bound;
        progress = m.fits.progress;
      };
      bound = m.bound;
      size = m.size;
      count = m.count;
      sizes = m.sizes;
      copied = m.copied;
      source_stays = m.source_stays;
      target_size = m.target_size;
      target_stays = m.target_stays;
    }

    last-bounds :
        (j : Job)
        → j.chunk_offset ≤ j.sect_count
        → (j.chunk_offset ≤ last j) × (last j < suc j.sect_count + j.chunk_offset)
    last-bounds j h = ground arith

    read_step :
        (j : Job) (w : D.World)
        → AtSource D L malloc source_id target_id start before j w
        → Ensures F
            (HasChunk D L malloc source_id target_id start before)
            (read_chunk D malloc source_id target_id (suc j.sect_count) (rewind j) w)
    read_step j w h =
        let m = h.mid in
        let (low, enough) = last-bounds j m.bound in
        let rewound = Mid-sector j w j.chunk_offset j.buffer m in
        Ensures-map F (IsRead D L malloc source_id target_id start (rewind j) w)
          (HasChunk D L malloc source_id target_id start before)
          (λ j' w' r.
            rw (r.job, r.world)
              (record { mid = Mid-sector j w (last j) r.bytes m; full = r.buffered }))
          (read_chunk D malloc source_id target_id (suc j.sect_count) (rewind j) w)
          (read_chunk-Ensures D L malloc source_id target_id start (suc j.sect_count) (rewind j) w
            rewound.fits h.here (m.sizes source_id ∙ sym m.size) m.count m.kept (omega arith) low
            enough (λ k i hk hi. absurd (omega arith)))

    -- After a round: the next can start, or every sector is copied.
    pub record HasRound (j : Job) (w : D.World) : Type 0 where
      pub kept : K w
      pub size : j.sect_size ≡ D.dio_query_sectsize source_id start
      pub count : j.sect_count ≡ D.dio_query_sectcount source_id start
      pub more :
          j.sector < j.sect_count → Mid D L malloc source_id target_id start j.chunk_offset j w
      pub further : j.sector < j.sect_count → before < j.chunk_offset
      pub finished :
          j.sect_count ≤ j.sector
          → Copied D L malloc source_id target_id start j.sect_size j.sect_count w

    next_offset :
        (j : Job)
        → HasSizes j
        → last j < j.sect_count
        → (u16 (j.chunk_offset + j.chunk_count) ≡ last j) × (j.chunk_offset < last j)
    next_offset j fits h = let some_sectors = fits.progress (omega arith) in ground arith

    round_lem :
        (j : Job) (w w' : D.World)
        → Mid D L malloc source_id target_id start before j w
        → Stays D L malloc source_id target_id start w w'
        → K w'
        → Copied D L malloc source_id target_id start j.sect_size (last j) w'
        → HasRound (next_chunk (record j { sector = last j })) w'
    unfolding next_chunk
    round_lem j w w' m stays kept copied = record {
      kept = kept;
      size = m.size;
      count = m.count;
      more = λ h.
          let (e, forward) = next_offset j m.fits h in
          record {
            opened = m.opened;
            since = omega arith;
            kept = kept;
            fits = record {
              count_bound = m.fits.count_bound;
              buffer_bound = m.fits.buffer_bound;
              progress = m.fits.progress;
            };
            bound = omega arith;
            size = m.size;
            count = m.count;
            sizes = λ d. stays.sizes d ∙ m.sizes d;
            copied = rw (e) copied;
            source_stays = λ ne. stays.keeps source source_id (m.source_stays ne);
            target_size = m.target_size;
            target_stays = λ o ne. stays.keeps target target_id (m.target_stays o ne);
          };
      further =
          λ h. let (e, forward) = next_offset j m.fits h in let since = m.since in omega arith;
      finished = λ h s i hs hi. copied s i (omega arith) hi;
    }

    write_step :
        (j : Job) (w : D.World)
        → AtTarget D L malloc source_id target_id start before j w
        → Ensures F
            (λ j' w'. HasRound (next_chunk j') w')
            (write_chunk D malloc source_id target_id (suc j.sect_count) (rewind j) w)
    write_step j w h =
        let m = h.mid in
        let (low, enough) = last-bounds j m.bound in
        let rewound = Mid-sector j w j.chunk_offset j.buffer m in
        Ensures-map F (IsWritten D L malloc source_id target_id start (rewind j) w)
          (λ j' w'. HasRound (next_chunk j') w')
          (λ j' w' r. rw (r.job) (round_lem j w w' m r.stays r.kept r.copied))
          (write_chunk D malloc source_id target_id (suc j.sect_count) (rewind j) w)
          (write_chunk-Ensures D L malloc source_id target_id start (suc j.sect_count) (rewind j) w
            rewound.fits h.here h.size m.count m.kept (omega arith) low enough h.full m.copied)

    copy_chunk-Ensures :
        (j : Job) (w : D.World)
        → Ensures F
            (AtSource D L malloc source_id target_id start before)
            (begin_source D malloc source_id target_id j w)
        → Ensures F HasRound (copy_chunk D malloc source_id target_id j w)
    unfolding copy_chunk
    copy_chunk-Ensures j w h =
        >>=-Ensures F (λ j' w'. HasRound (next_chunk j') w') HasRound written
          (λ j w. ok (next_chunk j) w) w
          (>>=-Ensures F (AtTarget D L malloc source_id target_id start before)
            (λ j' w'. HasRound (next_chunk j') w') requested
            (λ j. write_chunk D malloc source_id target_id (suc j.sect_count) (rewind j)) w
            (>>=-Ensures F (HasChunk D L malloc source_id target_id start before)
              (AtTarget D L malloc source_id target_id start before) filled
              (begin_target D malloc source_id target_id) w
              (>>=-Ensures F (AtSource D L malloc source_id target_id start before)
                (HasChunk D L malloc source_id target_id start before)
                (begin_source D malloc source_id target_id j)
                (λ j. read_chunk D malloc source_id target_id (suc j.sect_count) (rewind j)) w h
                read_step)
              (begin_target-Ensures D L malloc source_id target_id start before))
            write_step)
          (λ j w r. r)
      where
        filled : D.World → Outcome D.World Job
        filled =
            begin_source D malloc source_id target_id j
            >>= (λ j. read_chunk D malloc source_id target_id (suc j.sect_count) (rewind j))

        requested : D.World → Outcome D.World Job
        requested = filled >>= begin_target D malloc source_id target_id

        written : D.World → Outcome D.World Job
        written =
            requested
            >>= (λ j. write_chunk D malloc source_id target_id (suc j.sect_count) (rewind j))

  -- What the main loop has done when it ends well.
  pub record HasCopy (j : Job) (w : D.World) : Type 0 where
    pub kept : L.disk source w ≡ L.disk source start
    pub copied :
        (s i : ℕ)
        → s < D.dio_query_sectcount source_id start
        → i < D.dio_query_sectsize source_id start
        → L.disk target w s i ≡ L.disk source start s i

  HasRound-HasCopy :
      (before : ℕ) (j : Job) (w : D.World)
      → HasRound before j w
      → j.sect_count ≤ j.sector
      → HasCopy j w
  HasRound-HasCopy before j w h done = record {
    kept = h.kept;
    copied = λ s i hs hi. h.finished done s i (rw (h.count) hs) (rw (h.size) hi);
  }

  copy_chunks-again :
      (fuel : ℕ) (before : ℕ) (j : Job) (w : D.World)
      → before ≤ D.dio_query_sectcount source_id start
      → D.dio_query_sectcount source_id start < fuel + before
      → Ensures (F before) (HasRound before) (copy_chunk D malloc source_id target_id j w)
      → Ensures (F before) HasCopy (copy_chunks D malloc source_id target_id fuel j w)
  unfolding copy_chunks
  copy_chunks-again zero before j w low enough h = absurd (omega arith)
  copy_chunks-again (suc fuel) before j w low enough h =
      >>=-Ensures (F before) (HasRound before) HasCopy (copy_chunk D malloc source_id target_id j)
        (λ j w. elim (ltb j.sector j.sect_count) [
          | true ↦ copy_chunks D malloc source_id target_id fuel j w
          | false ↦ ok j w
        ])
        w h
        (λ j' w' r. elim (dec_lt j'.sector j'.sect_count) [
          | yes lt ↦
              let m = r.more lt in
              let forward = r.further lt in
              let bound = m.bound in
              let count = r.count in
              rw (lt→ltb j'.sector j'.sect_count lt) (
                copy_chunks-again fuel j'.chunk_offset j' w' (omega arith) (omega arith) (
                  copy_chunk-Ensures j'.chunk_offset j' w' (
                    begin_source-later D L malloc source_id target_id start j'.chunk_offset j' w'
                      m)))
          | no ge ↦
              rw (le→ltb j'.sector j'.sect_count (omega arith))
                (HasRound-HasCopy before j' w' r (omega arith))
        ])

  -- For a drive with at most 65526 sectors, and more rounds of fuel than sectors: the program ends. If it
  -- reports no failure, every byte of every sector of the target disk is what the source disk held at the
  -- start. It reports a failure only if the call that it names failed, in the world at that point: the
  -- opening of a drive, AllocBuffer, or a call for a sector of the disk; and a mismatch only if the
  -- drives differ in the size or the number of their sectors. In any case the source disk is as it was.
  pub copy_chunks-HasCopy :
      (fuel : ℕ) (rubbish : Memory)
      → D.dio_query_sectcount source_id start + 9 < 2 ^ 16
      → D.dio_query_sectcount source_id start < fuel
      → Ensures
          (λ e w.
            (L.disk source w ≡ L.disk source start)
            × HasCause D L malloc source_id target_id start e w)
          HasCopy
          (copy_chunks D malloc source_id target_id fuel (job_at_start rubbish) start)
  copy_chunks-HasCopy fuel rubbish few enough =
      copy_chunks-again fuel 0 (job_at_start rubbish) start (omega arith) (omega arith) (
        copy_chunk-Ensures 0 (job_at_start rubbish) start
          (begin_source-first D L malloc source_id target_id start 0 rubbish refl few))
