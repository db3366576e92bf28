-- ===== src/DiskCopy/Copy/Opening.antt =====
-- Opening the source drive of diodemo.c, and asking for its disk, before a chunk is read.
use builds.Base.{
  ℕ, ◌+◌, ◌^◌, ◌<◌, ◌≤◌, ◌≡◌, ◌≢◌, refl, ap, ◌∙◌, sym, arith, ◌==◌, if◌then◌else◌, true, false,
  Option, none, some, Option-cases, Bool-cases, inl, inr, Memory,
}
use builds.DiskCopy.{Allocation, alloc_buffer}
use builds.DiskCopy.Buffer.{alloc_buffer-Choice, alloc_buffer-fits, at_division}
use builds.DiskCopy.Copy.{
  source, target, Dio, Failure, Job, ok, failed, allocating, opening_source, open_source,
  begin_source, job_at_start,
}
use builds.DiskCopy.Copy.Laws.{IsLawful, Ensures}
use builds.DiskCopy.Copy.Sizes.{HasSizes}
use builds.DiskCopy.Copy.Loops.{Kept, IsCaused, Copied}

module _ (D : Dio) (L : IsLawful D) (malloc : ℕ → Option ℕ) (source_id target_id : ℕ)
    (start : D.World) (before : ℕ) where
  abbrev pub KeptHere : D.World → Type 0
  KeptHere = Kept D L malloc source_id target_id start

  abbrev pub FailsHere : Failure → D.World → Type 0
  FailsHere = IsCaused D L malloc source_id target_id start

  -- Between the steps of a round that starts at the sector `before`, once the source drive is open.
  pub record Mid (j : Job) (w : D.World) : Type 0 where
    pub opened : j.source_open ≡ true
    pub since : before ≤ j.chunk_offset
    pub kept : KeptHere w
    pub fits : HasSizes j
    pub bound : j.chunk_offset ≤ j.sect_count
    pub size : j.sect_size ≡ D.dio_query_sectsize source_id start
    pub count : j.sect_count ≡ D.dio_query_sectcount source_id start
    pub sizes : (e : ℕ) → D.dio_query_sectsize e w ≡ D.dio_query_sectsize e start
    pub copied : Copied D L malloc source_id target_id start j.sect_size j.chunk_offset w
    pub source_stays : source_id ≢ target_id → L.Holds source source_id w
    pub target_size : j.target_open ≡ true → D.dio_query_sectsize target_id start ≡ j.sect_size
    pub target_stays : j.target_open ≡ true → source_id ≢ target_id → L.Holds target target_id w

  Mid-insert_source : (j : Job) (w : D.World) → Mid j w → Mid j (D.insert source source_id w)
  Mid-insert_source j w m = record {
    opened = m.opened;
    since = m.since;
    kept = L.disk-insert source source source_id w ∙ m.kept;
    fits = m.fits;
    bound = m.bound;
    size = m.size;
    count = m.count;
    sizes = λ e. L.sectsize-insert e source_id source w ∙ m.sizes e;
    copied =
        λ s i hs hi. ap (λ d. d s i) (L.disk-insert target source source_id w) ∙ m.copied s i hs hi;
    source_stays = λ ne. L.insert-Holds source source_id w;
    target_size = m.target_size;
    target_stays = λ o ne.
        L.insert-keeps target source target_id source_id w (λ e. ne (sym e)) (m.target_stays o ne);
  }

  pub Mid-insert_target : (j : Job) (w : D.World) → Mid j w → Mid j (D.insert target target_id w)
  Mid-insert_target j w m = record {
    opened = m.opened;
    since = m.since;
    kept = L.disk-insert source target target_id w ∙ m.kept;
    fits = m.fits;
    bound = m.bound;
    size = m.size;
    count = m.count;
    sizes = λ e. L.sectsize-insert e target_id target w ∙ m.sizes e;
    copied =
        λ s i hs hi. ap (λ d. d s i) (L.disk-insert target target target_id w) ∙ m.copied s i hs hi;
    source_stays = λ ne. L.insert-keeps source target source_id target_id w ne (m.source_stays ne);
    target_size = m.target_size;
    target_stays = λ o ne. L.insert-Holds target target_id w;
  }

  -- The source disk can be read.
  pub record AtSource (j : Job) (w : D.World) : Type 0 where
    pub mid : Mid j w
    pub here : L.Holds source source_id w

  begin_source-open :
      (j : Job) (w : D.World)
      → j.source_open ≡ true
      → begin_source D malloc source_id target_id j w
        ≡ ok j (if source_id == target_id then D.insert source source_id w else w)
  unfolding begin_source
  begin_source-open j w opened = ground arith

  pub begin_source-later :
      (j : Job) (w : D.World)
      → Mid j w
      → Ensures FailsHere AtSource (begin_source D malloc source_id target_id j w)
  begin_source-later j w m = elim (Bool-cases (source_id == target_id)) [
    | inl same ↦
        rw (begin_source-open j w m.opened, same)
          (record { mid = Mid-insert_source j w m; here = L.insert-Holds source source_id w })
    | inr two ↦
        let ne : source_id ≢ target_id = ground arith in
        rw (begin_source-open j w m.opened, two) (record { mid = m; here = m.source_stays ne })
  ]

  -- The result of opening the source drive and allocating, when it succeeds.
  abbrev opened_job : Job → D.World → Allocation → Job
  opened_job j w a = record j {
    source_open = true;
    sect_size = D.dio_query_sectsize source_id w;
    sect_count = D.dio_query_sectcount source_id w;
    chunk_count = a.per_chunk;
  }

  open_source-ok :
      (j : Job) (w : D.World) (a : Allocation) (b : ℕ)
      → D.dio_open source_id w ≡ true
      → alloc_buffer 10 malloc
          (D.dio_query_sectsize source_id w)
          (D.dio_query_sectcount source_id w)
        ≡ some a
      → a.address ≡ some b
      → open_source D malloc source_id target_id j w ≡ ok (opened_job j w a) w
  unfolding open_source
  open_source-ok j w a b go e got = simp (go, e, got)

  open_source-no_buffer :
      (j : Job) (w : D.World) (a : Allocation)
      → D.dio_open source_id w ≡ true
      → alloc_buffer 10 malloc
          (D.dio_query_sectsize source_id w)
          (D.dio_query_sectcount source_id w)
        ≡ some a
      → a.address ≡ none
      → open_source D malloc source_id target_id j w ≡ failed allocating w
  unfolding open_source
  open_source-no_buffer j w a go e got = simp (go, e, got)

  open_source-closed :
      (j : Job) (w : D.World)
      → D.dio_open source_id w ≡ false
      → open_source D malloc source_id target_id j w ≡ failed opening_source w
  unfolding open_source
  open_source-closed j w go = simp (go)

  begin_source-closed :
      (j : Job) (w : D.World)
      → j.source_open ≡ false
      → begin_source D malloc source_id target_id j w
        ≡ open_source D malloc source_id target_id j (D.insert source source_id w)
  unfolding begin_source
  begin_source-closed j w closed = ground arith

  first_fits :
      (rubbish : Memory) (w : D.World) (a : Allocation) (b : ℕ)
      → D.dio_query_sectcount source_id w + 9 < 2 ^ 16
      → alloc_buffer 10 malloc
          (D.dio_query_sectsize source_id w)
          (D.dio_query_sectcount source_id w)
        ≡ some a
      → a.address ≡ some b
      → HasSizes (opened_job (job_at_start rubbish) w a)
  first_fits rubbish w a b few e got =
      let (given, below, tenfold, progress) =
        alloc_buffer-fits malloc _ _ b a (L.sectsize-bound source_id w) few e got in
      record {
        count_bound = few;
        buffer_bound = omega arith;
        progress = λ some_sectors. omega arith;
      }

  pub begin_source-first :
      (rubbish : Memory)
      → before ≡ 0
      → D.dio_query_sectcount source_id start + 9 < 2 ^ 16
      → Ensures FailsHere AtSource
          (begin_source D malloc source_id target_id (job_at_start rubbish) start)
  begin_source-first rubbish initial few =
      let w = D.insert source source_id start in
      let j = job_at_start rubbish in
      let kept = L.disk-insert source source source_id start in
      let size = L.sectsize-insert source_id source_id source start in
      let count = L.sectcount-insert source_id source_id source start in
      elim (Bool-cases (D.dio_open source_id w)) [
        | inr shut ↦ rw (begin_source-closed j start refl, open_source-closed j w shut) (kept, shut)
        | inl go ↦
            let (k, c, e) =
              alloc_buffer-Choice 10 malloc (D.dio_query_sectsize source_id w)
                (D.dio_query_sectcount source_id w) (omega arith) in
            let a =
              at_division malloc (D.dio_query_sectsize source_id w)
                (D.dio_query_sectcount source_id w) k in
            elim (Option-cases a.address) [
              | inl got ↦
                  rw (begin_source-closed j start refl, open_source-no_buffer j w a go e got)
                    (kept, (a, e, got))
              | inr (b, got) ↦
                  rw (begin_source-closed j start refl, open_source-ok j w a b go e got)
                    (record {
                      mid = record {
                        opened = refl;
                        since = omega arith;
                        kept = kept;
                        fits = first_fits rubbish w a b (omega arith) e got;
                        bound = omega arith;
                        size = size;
                        count = count;
                        sizes = λ d. L.sectsize-insert d source_id source start;
                        copied = λ s i hs hi. absurd (omega arith);
                        source_stays = λ ne. L.insert-Holds source source_id start;
                        target_size = λ o. cc;
                        target_stays = λ o ne. cc;
                      };
                      here = L.insert-Holds source source_id start;
                    })
            ]
      ]
