-- ===== src/DiskCopy/Tests.antt =====
-- Runs of the parts of diodemo.c, and their theorems at concrete inputs.
use builds.Base.{
  ℕ, ◌≤◌, ◌≡◌, refl, arith, ltb, leb, ◌&&◌, if◌then◌else◌, u8, Bool, Option, none, some, [], ◌∷◌,
  ◌++◌, true,
}
use builds.DiskCopy.{attempt, alloc_from, alloc_buffer, chunk_count, typed, ask_from, ask_for_drive}
use builds.DiskCopy.Buffer.{Choice, at_division, alloc_buffer-Choice}
use builds.DiskCopy.Drive.{decimal, is_absent, ask_for_drive_lem}

-- A heap with room for less than 2000 bytes.
abbrev small_heap : ℕ → Option ℕ
small_heap size = if ltb size 2000 then some 100 else none

abbrev is_digit : ℕ → Bool
is_digit c = leb 48 c && leb c 57

is_digit-low : (c : ℕ) → is_digit c ≡ true → 48 ≤ c
is_digit-low c h = ground arith

six_chunks : alloc_buffer 10 small_heap 256 40 ≡ some (record { address = some 100; per_chunk = 7 })
unfolding alloc_buffer alloc_from attempt chunk_count
six_chunks = refl

no_room : alloc_buffer 10 small_heap 256 400 ≡ some (record { address = none; per_chunk = 40 })
unfolding alloc_buffer alloc_from attempt chunk_count
no_room = refl

drive_12 : ask_for_drive is_digit 13 (49 ∷ 65 ∷ 50 ∷ 13 ∷ []) ≡ some (12, [])
unfolding ask_for_drive ask_from typed
drive_12 = refl

-- The sum of sectors and divisor wraps.
no_sectors : chunk_count 65535 2 ≡ 0
unfolding chunk_count
no_sectors = refl

alloc_buffer-Choice_example :
    (k : ℕ) × Choice small_heap 256 40 1 k
    × (alloc_buffer 10 small_heap 256 40 ≡ some (at_division small_heap 256 40 k))
alloc_buffer-Choice_example = alloc_buffer-Choice 10 small_heap 256 40 (omega arith)

ask_for_drive_lem_example :
    ask_for_drive is_digit 13 ((57 ∷ 65 ∷ []) ++ 13 ∷ 49 ∷ [])
    ≡ some (u8 (decimal is_digit 0 (57 ∷ 65 ∷ [])), 49 ∷ [])
unfolding is_absent
ask_for_drive_lem_example =
    ask_for_drive_lem is_digit 13 is_digit-low refl (57 ∷ 65 ∷ []) (49 ∷ []) refl
