-- ===== src/DiskCopy/Copy.antt =====
-- `main` of diodemo.c: the sectors of a disk are copied a chunk at a time, in one drive or between two.
-- The library's calls on drives, and the user who changes the disks, are an interface; a drive's
-- handle is its number, and a pointer into the buffer is its offset.
pub mod Laws
mod Sizes
pub mod Loops
pub mod Writing
pub mod Opening
pub mod OpeningTarget
pub mod Rounds
mod Tests
use builds.Base.{
  ℕ, zero, suc, ◌+◌, ◌-◌, ◌*◌, ◌^◌, ◌==◌, ltb, leb, if◌then◌else◌, u8, u16, Bool, true, false, not,
  ◌&&◌, ◌||◌, Option, none, some, List, [], ◌∷◌, Memory, blit,
}
use builds.DiskCopy.{Allocation, alloc_buffer, ask_for_drive}

-- The disks that the user is asked for.
pub data Side : Type 0 where
  source : Side
  target : Side

-- The code outside: `insert side drive` is the user's answer to AskForDisk. A sector is its bytes.
pub record Dio : Type 1 where
  pub World : Type 0
  pub insert : Side → ℕ → World → World
  pub dio_open : ℕ → World → Bool
  pub dio_query_sectsize : ℕ → World → ℕ
  pub dio_query_sectcount : ℕ → World → ℕ
  pub dio_read : ℕ → ℕ → World → Option (ℕ → ℕ)
  pub dio_write : ℕ → ℕ → (ℕ → ℕ) → World → Option World

-- The ways in which `main` gives up.
pub data Failure : Type 0 where
  opening_source : Failure
  allocating : Failure
  reading : Failure
  opening_target : Failure
  format_mismatch : Failure
  writing : Failure

pub data Outcome (W A : Type 0) : Type 0 where
  ok : A → W → Outcome W A
  failed : Failure → W → Outcome W A
  out_of_fuel : Outcome W A

infixl 5 ◌>>=◌
abbrev pub ◌>>=◌ : {W A B : Type 0} → (W → Outcome W A) → (A → W → Outcome W B) → W → Outcome W B
◌>>=◌ m f w = elim (m w) [
  | ok a w' ↦ f a w'
  | failed e w' ↦ failed e w'
  | out_of_fuel ↦ out_of_fuel
]

-- The locals of `main`: a handle is NULL until its drive is opened.
pub record Job : Type 0 where
  pub source_open : Bool
  pub target_open : Bool
  pub sect_size : ℕ
  pub sect_count : ℕ
  pub chunk_count : ℕ
  pub chunk_offset : ℕ
  pub sector : ℕ
  pub buffer : Memory

-- `Sector < SectCount && (Sector - ChunkOffset) < ChunkCount`
pub in_chunk : Job → Bool
in_chunk j =
    ltb j.sector j.sect_count && ltb (u16 (j.sector + 2 ^ 16 - j.chunk_offset)) j.chunk_count

-- `(Sector - ChunkOffset) * SectSize`
pub place : Job → ℕ
place j = u16 (u16 (j.sector + 2 ^ 16 - j.chunk_offset) * j.sect_size)

-- What a call of dio_read leaves in the buffer.
pub store_sector : Memory → ℕ → ℕ → (ℕ → ℕ) → Memory
store_sector m p size f = blit m p size f

-- `Sector = ChunkOffset`, where a loop starts.
abbrev pub rewind : Job → Job
rewind j = record j { sector = j.chunk_offset }

pub next_chunk : Job → Job
next_chunk j = record j { chunk_offset = u16 (j.chunk_offset + j.chunk_count) }

module _ (D : Dio) (malloc : ℕ → Option ℕ) (source_id target_id : ℕ) where
  abbrev M : Type 0 → Type 0
  M A = D.World → Outcome D.World A

  -- Opening the source drive and allocating, on the first iteration.
  pub open_source : Job → M Job
  open_source j w =
      if D.dio_open source_id w
      then (let size = D.dio_query_sectsize source_id w in
          let count = D.dio_query_sectcount source_id w in
          elim (alloc_buffer 10 malloc size count) [
            | none ↦ out_of_fuel
            | some a ↦ elim a.address [
              | none ↦ failed allocating w
              | some b ↦
                  ok
                    (record j {
                      source_open = true;
                      sect_size = size;
                      sect_count = count;
                      chunk_count = a.per_chunk;
                    })
                    w
            ]
          ])
      else failed opening_source w

  pub begin_source : Job → M Job
  begin_source j w =
      let w' =
        if source_id == target_id || not j.source_open then D.insert source source_id w else w in
      if j.source_open then ok j w' else open_source j w'

  -- Opening the target drive, on the first iteration.
  pub open_target : Job → M Job
  open_target j w =
      if D.dio_open target_id w
      then (if not (D.dio_query_sectsize target_id w == j.sect_size)
            || not (D.dio_query_sectcount target_id w == j.sect_count)
          then failed format_mismatch w
          else ok (record j { target_open = true }) w)
      else failed opening_target w

  pub begin_target : Job → M Job
  begin_target j w =
      let w' =
        if target_id == source_id || not j.target_open then D.insert target target_id w else w in
      if j.target_open then ok j w' else open_target j w'

  -- The body of the loop that reads, with `++Sector`.
  pub read_sector : Job → M Job
  read_sector j w = elim (D.dio_read source_id j.sector w) [
    | none ↦ failed reading w
    | some f ↦
        ok
          (record j {
            sector = u16 (j.sector + 1);
            buffer = store_sector j.buffer (place j) j.sect_size f;
          })
          w
  ]

  pub read_chunk : ℕ → Job → M Job
  read_chunk zero j w = out_of_fuel
  read_chunk (suc fuel) j w = elim (in_chunk j) [
    | true ↦ (read_sector j >>= read_chunk fuel) w
    | false ↦ ok j w
  ]

  -- The body of the loop that writes, with `++Sector`.
  pub write_sector : Job → M Job
  write_sector j w = elim (D.dio_write target_id j.sector (λ i. j.buffer (place j + i)) w) [
    | none ↦ failed writing w
    | some w' ↦ ok (record j { sector = u16 (j.sector + 1) }) w'
  ]

  pub write_chunk : ℕ → Job → M Job
  write_chunk zero j w = out_of_fuel
  write_chunk (suc fuel) j w = elim (in_chunk j) [
    | true ↦ (write_sector j >>= write_chunk fuel) w
    | false ↦ ok j w
  ]

  -- The body of the main loop. A chunk has no more sectors than the disk.
  pub copy_chunk : Job → M Job
  copy_chunk j =
      begin_source j
      >>= (λ j. read_chunk (suc j.sect_count) (rewind j))
      >>= begin_target
      >>= (λ j. write_chunk (suc j.sect_count) (rewind j))
      >>= (λ j w. ok (next_chunk j) w)

  -- `do ... while (Sector < SectCount);`
  pub copy_chunks : ℕ → Job → M Job
  copy_chunks zero j w = out_of_fuel
  copy_chunks (suc fuel) j w =
      (copy_chunk j >>= (λ j w. elim (ltb j.sector j.sect_count) [
        | true ↦ copy_chunks fuel j w
        | false ↦ ok j w
      ]))
        w

-- The locals when the loop starts: what is in the buffer, and a variable that has no value yet, is any.
abbrev pub job_at_start : Memory → Job
job_at_start rubbish = record {
  source_open = false;
  target_open = false;
  sect_size = rubbish 0;
  sect_count = rubbish 1;
  chunk_count = rubbish 2;
  chunk_offset = 0;
  sector = rubbish 3;
  buffer = rubbish;
}

-- The drives that the arguments or the keys name.
pub data Drives : Type 0 where
  drives : ℕ → ℕ → Drives
  too_many_arguments : Drives
  waiting : Drives

asked : Option (ℕ × List ℕ) → (ℕ → List ℕ → Drives) → Drives
asked none f = waiting
asked (some (drive, keys)) f = f drive keys

-- `switch (argc)`, by the arguments after the program's name.
pub drives_of {ℓ} : {Arg : Type ℓ} → (Arg → ℕ) → (ℕ → Bool) → ℕ → List Arg → List ℕ → Drives
drives_of atoi isdigit enter [] keys =
    asked (ask_for_drive isdigit enter keys)
      (λ s keys. asked (ask_for_drive isdigit enter keys) (λ t keys. drives s t))
drives_of atoi isdigit enter (a ∷ []) keys = drives (u8 (atoi a)) (u8 (atoi a))
drives_of atoi isdigit enter (a ∷ b ∷ []) keys = drives (u8 (atoi a)) (u8 (atoi b))
drives_of atoi isdigit enter (a ∷ b ∷ c ∷ args) keys = too_many_arguments
