-- ===== src/DiskCopy/Copy/OpeningTarget.antt =====
-- Opening the target drive of diodemo.c, and asking for its disk, before a chunk is written.
use builds.Base.{
  ℕ, ◌-◌, ◌≡◌, ◌≢◌, ◌⊎◌, ◌∙◌, sym, arith, ◌==◌, if◌then◌else◌, true, false, not, ◌||◌, Option,
  Bool-cases, inl, inr,
}
use builds.DiskCopy.Copy.{
  target, Dio, Failure, Job, ok, failed, opening_target, format_mismatch, open_target, begin_target,
}
use builds.DiskCopy.Copy.Laws.{IsLawful, Ensures}
use builds.DiskCopy.Copy.Sizes.{last}
use builds.DiskCopy.Copy.Loops.{IsCaused, Buffered}
use builds.DiskCopy.Copy.Opening.{Mid, Mid-insert_target}

module _ (D : Dio) (L : IsLawful D) (malloc : ℕ → Option ℕ) (source_id target_id : ℕ)
    (start : D.World) (before : ℕ) where
  abbrev F : Failure → D.World → Type 0
  F = IsCaused D L malloc source_id target_id start

  abbrev M : Job → D.World → Type 0
  M = Mid D L malloc source_id target_id start before

  begin_target-open :
      (j : Job) (w : D.World)
      → j.target_open ≡ true
      → begin_target D malloc source_id target_id j w
        ≡ ok j (if target_id == source_id then D.insert target target_id w else w)
  unfolding begin_target
  begin_target-open j w opened = ground arith

  -- The chunk is in the buffer and the target disk can be written.
  pub record AtTarget (j : Job) (w : D.World) : Type 0 where
    pub mid : M j w
    pub here : L.Holds target target_id w
    pub size : D.dio_query_sectsize target_id w ≡ j.sect_size
    pub full : Buffered D L malloc source_id target_id start j j.buffer (last j - j.chunk_offset)

  -- The chunk is in the buffer.
  pub record HasChunk (j : Job) (w : D.World) : Type 0 where
    pub mid : M j w
    pub full : Buffered D L malloc source_id target_id start j j.buffer (last j - j.chunk_offset)

  begin_target-later :
      (j : Job) (w : D.World)
      → HasChunk j w
      → j.target_open ≡ true
      → Ensures F AtTarget (begin_target D malloc source_id target_id j w)
  begin_target-later j w h opened =
      let m = h.mid in
      let size = m.target_size opened in
      elim (Bool-cases (target_id == source_id)) [
        | inl same ↦
            rw (begin_target-open j w opened, same)
              (record {
                mid = Mid-insert_target D L malloc source_id target_id start before j w m;
                here = L.insert-Holds target target_id w;
                size = L.sectsize-insert target_id target_id target w ∙ m.sizes target_id ∙ size;
                full = h.full;
              })
        | inr two ↦
            let ne : source_id ≢ target_id = ground arith in
            rw (begin_target-open j w opened, two)
              (record {
                mid = m;
                here = m.target_stays opened ne;
                size = m.sizes target_id ∙ size;
                full = h.full;
              })
      ]

  begin_target-closed :
      (j : Job) (w : D.World)
      → j.target_open ≡ false
      → begin_target D malloc source_id target_id j w
        ≡ open_target D malloc source_id target_id j (D.insert target target_id w)
  unfolding begin_target
  begin_target-closed j w closed = ground arith

  open_target-closed :
      (j : Job) (w : D.World)
      → D.dio_open target_id w ≡ false
      → open_target D malloc source_id target_id j w ≡ failed opening_target w
  unfolding open_target
  open_target-closed j w go = simp (go)

  open_target-mismatch :
      (j : Job) (w : D.World)
      → D.dio_open target_id w ≡ true
      → (not (D.dio_query_sectsize target_id w == j.sect_size)
          || not (D.dio_query_sectcount target_id w == j.sect_count))
        ≡ true
      → open_target D malloc source_id target_id j w ≡ failed format_mismatch w
  unfolding open_target
  open_target-mismatch j w go e = simp (go, e)

  open_target-ok :
      (j : Job) (w : D.World)
      → D.dio_open target_id w ≡ true
      → (not (D.dio_query_sectsize target_id w == j.sect_size)
          || not (D.dio_query_sectcount target_id w == j.sect_count))
        ≡ false
      → open_target D malloc source_id target_id j w ≡ ok (record j { target_open = true }) w
  unfolding open_target
  open_target-ok j w go e = simp (go, e)

  Mid-target_open :
      (j : Job) (w : D.World)
      → M j w
      → L.Holds target target_id w
      → D.dio_query_sectsize target_id w ≡ j.sect_size
      → M (record j { target_open = true }) w
  Mid-target_open j w m here size = record {
    opened = m.opened;
    since = m.since;
    kept = m.kept;
    fits = record {
      count_bound = m.fits.count_bound;
      buffer_bound = m.fits.buffer_bound;
      progress = m.fits.progress;
    };
    bound = m.bound;
    size = m.size;
    count = m.count;
    sizes = m.sizes;
    copied = m.copied;
    source_stays = m.source_stays;
    target_size = λ o. sym (m.sizes target_id) ∙ size;
    target_stays = λ o ne. here;
  }

  mismatch :
      (j : Job) (w : D.World)
      → M j w
      → (not (D.dio_query_sectsize target_id w == j.sect_size)
          || not (D.dio_query_sectcount target_id w == j.sect_count))
        ≡ true
      → (D.dio_query_sectsize target_id w ≢ D.dio_query_sectsize source_id start)
        ⊎ (D.dio_query_sectcount target_id w ≢ D.dio_query_sectcount source_id start)
  mismatch j w m differ = let size = m.size in let count = m.count in ground arith

  begin_target-first :
      (j : Job) (w : D.World)
      → HasChunk j w
      → j.target_open ≡ false
      → Ensures F AtTarget (begin_target D malloc source_id target_id j w)
  begin_target-first j w h closed =
      let w₁ = D.insert target target_id w in
      let m = Mid-insert_target D L malloc source_id target_id start before j w h.mid in
      let here = L.insert-Holds target target_id w in
      elim (Bool-cases (D.dio_open target_id w₁)) [
        | inr shut ↦
            rw (begin_target-closed j w closed, open_target-closed j w₁ shut) (m.kept, shut)
        | inl go ↦
            elim (Bool-cases (
              not (D.dio_query_sectsize target_id w₁ == j.sect_size)
              || not (D.dio_query_sectcount target_id w₁ == j.sect_count))) [
                | inl differ ↦
                    rw (begin_target-closed j w closed, open_target-mismatch j w₁ go differ)
                      (m.kept, mismatch j w₁ m differ)
                | inr same ↦
                    let size : D.dio_query_sectsize target_id w₁ ≡ j.sect_size = ground arith in
                    rw (begin_target-closed j w closed, open_target-ok j w₁ go same)
                      (record {
                        mid = Mid-target_open j w₁ m here size;
                        here = here;
                        size = size;
                        full = h.full;
                      })
              ]
      ]

  pub begin_target-Ensures :
      (j : Job) (w : D.World)
      → HasChunk j w
      → Ensures F AtTarget (begin_target D malloc source_id target_id j w)
  begin_target-Ensures j w h = elim (Bool-cases j.target_open) [
    | inl opened ↦ begin_target-later j w h opened
    | inr closed ↦ begin_target-first j w h closed
  ]
