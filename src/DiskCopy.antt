-- ===== src/DiskCopy.antt =====
-- bin/cc65-snapshot-win32/samples/diodemo.c, a copier of disks: asking for a drive and allocating the
-- buffer for a chunk of sectors.
-- The keys that the user presses are a list; the C library's `isdigit` and `malloc` and the code of
-- the Enter key are parameters.
pub mod Buffer
pub mod Drive
pub mod Copy
mod Tests
use builds.Base.{
  ℕ, zero, suc, ◌+◌, ◌-◌, ◌*◌, ◌/◌, ◌%◌, ◌^◌, ◌==◌, ltb, leb, if◌then◌else◌, u8, u16, u32, Bool,
  Option, none, some, List, [], ◌∷◌,
}

abbrev pub max_chunks : ℕ
max_chunks = 10

abbrev pub uint_max : ℕ
uint_max = 65535

-- The body of the loop that asks for a drive, up to its condition: 48 is '0'.
pub typed : (ℕ → Bool) → ℕ → ℕ → ℕ
typed isdigit drive char = if isdigit char then u8 (drive * 10 + char + 256 - 48) else drive

-- The loop, on the keys: the drive and the keys that are left, or none if no key is Enter.
pub ask_from : (ℕ → Bool) → ℕ → ℕ → List ℕ → Option (ℕ × List ℕ)
ask_from isdigit enter drive [] = none
ask_from isdigit enter drive (char ∷ keys) =
    let drive' = typed isdigit drive char in
    let rest = ask_from isdigit enter drive' keys in
    if char == enter then some (drive', keys) else rest

pub ask_for_drive : (ℕ → Bool) → ℕ → List ℕ → Option (ℕ × List ℕ)
ask_for_drive isdigit enter keys = ask_from isdigit enter 0 keys

pub chunk_count : ℕ → ℕ → ℕ
chunk_count sect_count chunks = u16 (sect_count + chunks + 2 ^ 16 - 1) / chunks

-- The body of the loop that allocates: the buffer, if any. `malloc` does not depend on the calls before:
-- those failed.
pub attempt : (ℕ → Option ℕ) → ℕ → ℕ → Option ℕ
attempt malloc sect_size count =
    let buffer_size = u32 (count * sect_size) in
    if ltb buffer_size uint_max then malloc buffer_size else none

-- What `AllocBuffer` returns, and `*ChunkCount`.
pub record Allocation : Type 0 where
  pub address : Option ℕ
  pub per_chunk : ℕ

-- `do ... while (Buffer == NULL && ++Chunks <= MAX_CHUNKS);`, on fuel: none if it runs out.
pub alloc_from : ℕ → (ℕ → Option ℕ) → ℕ → ℕ → ℕ → Option Allocation
alloc_from zero malloc sect_size sect_count chunks = none
alloc_from (suc fuel) malloc sect_size sect_count chunks =
    let count = chunk_count sect_count chunks in
    let rest = alloc_from fuel malloc sect_size sect_count (u16 (chunks + 1)) in
    elim (attempt malloc sect_size count) [
      | some b ↦ some (record { address = some b; per_chunk = count })
      | none ↦
          if leb (u16 (chunks + 1)) max_chunks
          then rest
          else some (record { address = none; per_chunk = count })
    ]

pub alloc_buffer : ℕ → (ℕ → Option ℕ) → ℕ → ℕ → Option Allocation
alloc_buffer fuel malloc sect_size sect_count = alloc_from fuel malloc sect_size sect_count 1
