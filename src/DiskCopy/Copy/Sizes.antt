-- ===== src/DiskCopy/Copy/Sizes.antt =====
-- The sizes in diodemo.c: where a chunk ends, and where its sectors stand in the buffer.
use builds.Base.{
  blit-in, blit-out, ℕ, ◌+◌, ◌-◌, ◌*◌, ◌^◌, ◌<◌, ◌≤◌, ◌≡◌, arith, ltb, if◌then◌else◌, u16, true,
  false, inl, Memory,
}
use native.Mathlib.Nat.{mul-le-mul_right}
use builds.DiskCopy.Copy.{Job, in_chunk, place, store_sector}

pub store_sector-in :
    (m : Memory) (p size : ℕ) (f : ℕ → ℕ) (i : ℕ) → i < size → store_sector m p size f (p + i) ≡ f i
unfolding store_sector
store_sector-in m p size f i h = blit-in m p size f i h

pub store_sector-below :
    (m : Memory) (p size : ℕ) (f : ℕ → ℕ) (i : ℕ) → i < p → store_sector m p size f i ≡ m i
unfolding store_sector
store_sector-below m p size f i h = blit-out m p size f i (inl h)

pub row-lt : (k c size i : ℕ) → k < c → i < size → k * size + i < c * size
row-lt k c size i h hi = grind arith

-- The end of the chunk.
abbrev pub last : Job → ℕ
last j =
    if ltb (j.chunk_offset + j.chunk_count) j.sect_count
    then j.chunk_offset + j.chunk_count
    else j.sect_count

-- What is known of the sizes once the source drive is open: a chunk fits the buffer.
pub record HasSizes (j : Job) : Type 0 where
  pub count_bound : j.sect_count + 9 < 2 ^ 16
  pub buffer_bound : j.chunk_count * j.sect_size < 2 ^ 16
  pub progress : (0 < j.sect_count) → 0 < j.chunk_count

pub in_chunk-true :
    (j : Job) → HasSizes j → j.chunk_offset ≤ j.sector → j.sector < last j → in_chunk j ≡ true
unfolding in_chunk
in_chunk-true j s lo hi = ground arith

pub in_chunk-false :
    (j : Job) → HasSizes j → j.chunk_offset ≤ j.sector → j.sector ≡ last j → in_chunk j ≡ false
unfolding in_chunk
in_chunk-false j s lo hi = ground arith

pub last_bounds :
    (j : Job)
    → j.sector < last j
    → (j.sector < j.chunk_offset + j.chunk_count) × (j.sector < j.sect_count)
last_bounds j hi = ground arith

pub place_lem :
    (j : Job)
    → HasSizes j
    → j.chunk_offset ≤ j.sector
    → j.sector < last j
    → place j ≡ (j.sector - j.chunk_offset) * j.sect_size
unfolding place
place_lem j s lo hi =
    let (in_buffer, on_disk) = last_bounds j hi in
    let slot : u16 (j.sector + 2 ^ 16 - j.chunk_offset) ≡ j.sector - j.chunk_offset = omega arith in
    let within : (j.sector - j.chunk_offset) * j.sect_size ≤ j.chunk_count * j.sect_size =
      mul-le-mul_right j.sect_size (omega arith) in
    rw (slot) (omega arith)
