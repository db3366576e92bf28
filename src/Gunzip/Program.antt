-- ===== src/Gunzip/Program.antt =====
-- `get_fname` and `main` of gunzip65.c. What `fgets` reads, whether the files open, what the file
-- holds and how much `fwrite` takes are arguments.
use builds.Base.{
  ℕ, zero, suc, ◌+◌, ◌-◌, ◌≤◌, ◌<◌, ◌≡◌, refl, arith, Memory, Bool, true, false, not, ◌==◌, ==_refl,
  leb, if◌then◌else◌, ◌&&◌, List, [], ◌∷◌, Option, none, some, length, get_or, take, min,
}
use builds.Gunzip.{buffer_size, Outcome, Message, ok, failed, fault, uncompress_buffer}
use builds.Gunzip.Format.{GzipFile, encode, IsValid, Holds, load}
use builds.Gunzip.RoundTrip.{uncompress_buffer-roundtrip}

-- The string that `fgets` has stored, less a newline at its end.
unfoldable pub get_fname : List ℕ → List ℕ
get_fname filename =
    let len = length filename in
    if leb 1 len && (get_or filename (len - 1) 0 == b'\n')
    then take (len - 1) filename
    else filename

-- How the program ends: `done` is the normal return with what was written, `crashed` an access
-- outside the buffer, and the others return 1. `rejected` is a 0 from `uncompress_buffer`, with the
-- message that it printed, if any.
pub data Exit : Type 0 where
  cannot_open too_long crashed cannot_create write_error : Exit
  rejected : Option Message → Exit
  done : List ℕ → Exit

-- The first bytes of the buffer.
unfoldable pub stored : Memory → ℕ → ℕ → List ℕ
stored m p zero = []
stored m p (suc n) = m p ∷ stored m (p + 1) n

module _ (inflatemem : Memory → ℕ → Memory × ℕ) (crc32 : ℕ → Memory → ℕ → ℕ) (crc_start : ℕ) where
  -- `length = uncompress_buffer (length)` and what follows.
  unfoldable pub write_result : Outcome (Memory × ℕ) → Bool → ℕ → Exit
  write_result fault created taken = crashed
  write_result (failed e) created taken = rejected (some e)
  write_result (ok (m, n)) created taken =
      if n == 0
      then rejected none
      else if not created
      then cannot_create
      else if not (min n taken == n)
      then write_error
      else done (stored m 0 n)

  -- `main`; `taken` is how many bytes `fwrite` can write.
  unfoldable pub run_main : Option (List ℕ) → Bool → ℕ → Exit
  run_main none created taken = cannot_open
  run_main (some file) created taken =
      let len = min (length file) buffer_size in
      if len == buffer_size
      then too_long
      else write_result (uncompress_buffer inflatemem crc32 crc_start (load file) len) created taken

  stored-Holds : (m : Memory) (p : ℕ) (xs : List ℕ) → Holds m p xs → stored m p (length xs) ≡ xs
  unfolding stored
  stored-Holds m p [] h = refl
  stored-Holds m p (x ∷ xs) (e, h) = rw (e, stored-Holds m (p + 1) xs h)

  abbrev Inflates : GzipFile → List ℕ → Type 0
  Inflates g original =
      (m : Memory)
      → Holds m (buffer_size - length g.deflated) g.deflated
      → let (m', n) = inflatemem m (buffer_size - length g.deflated) in
        (n ≡ length original) × Holds m' 0 original

  abbrev Sums : GzipFile → List ℕ → Type 0
  Sums g original = (m : Memory) → Holds m 0 original → crc32 crc_start m (length original) ≡ g.crc

  -- A valid file with at least one original byte is written out as those bytes; one whose original
  -- is empty is rejected with no message.
  pub run_main-encode :
      (g : GzipFile) (original : List ℕ) (taken : ℕ)
      → IsValid g
      → length (encode g) < buffer_size
      → g.size ≡ length original
      → length original ≤ buffer_size
      → length original ≤ taken
      → Inflates g original
      → Sums g original
      → run_main (some (encode g)) true taken
        ≡ (if length original == 0 then rejected none else done original)
  unfolding run_main write_result
  run_main-encode g original taken v fits size small room inflates sums =
      let (m, e, holds) =
        uncompress_buffer-roundtrip inflatemem crc32 crc_start g original v fits size small inflates
          sums in
      let whole : min (length (encode g)) buffer_size ≡ length (encode g) = omega arith in
      let fewer : (length (encode g) == buffer_size) ≡ false = ground arith in
      let all_taken : min (length original) taken ≡ length original = omega arith in
      rw (whole, fewer, e, all_taken, ==_refl (length original), stored-Holds m 0 original holds)
