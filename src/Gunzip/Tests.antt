-- ===== src/Gunzip/Tests.antt =====
-- A small GZIP file, with deflate data of an imaginary method that stores the bytes as they are.
use builds.Base.{
  ℕ, ◌+◌, ◌-◌, ◌^◌, ◌≤◌, ◌≡◌, refl, arith, Memory, true, false, List, [], ◌∷◌, none, some, length,
  ◌⊎◌, u16,
}
use builds.Gunzip.{
  buffer_size, ok, failed, fault, get_byte, get_word, get_long, skip_string, skip_extra, skip_text,
  skip_header, memmove, inflate_checked, move_and_inflate, uncompress_body, uncompress_buffer,
  size_too_big,
}
use builds.Gunzip.Format.{GzipFile, encode, flag_byte, IsValid, Holds, load}
use builds.Gunzip.RoundTrip.{uncompress_buffer-roundtrip}
use builds.Gunzip.Checks.{uncompress_buffer-ok}
use builds.Gunzip.Truncated.{uncompress_buffer-truncated}
use builds.Gunzip.Program.{get_fname, done, run_main, write_result, stored, run_main-encode}

abbrev copy : Memory → ℕ → Memory × ℕ
copy m p = ((λ i. m (p + i)), 3)

abbrev add_up : ℕ → Memory → ℕ → ℕ
add_up start m n = start + m 0 + m 1 + m 2

abbrev abc : List ℕ
abc = 65 ∷ 66 ∷ 67 ∷ []

abbrev abc_file : GzipFile
abc_file = record {
  is_text = false;
  mtime_to_os = 1 ∷ 2 ∷ 3 ∷ 4 ∷ 0 ∷ 3 ∷ [];
  extra = some (9 ∷ 9 ∷ []);
  name = some (b'a' ∷ b'.' ∷ b't' ∷ []);
  comment = none;
  header_crc = some (7, 8);
  deflated = abc;
  crc = 198;
  size = 3;
}

abc_file-IsValid : IsValid abc_file
abc_file-IsValid = record {
  fixed = refl;
  extra_length = omega arith;
  name_text = omega arith;
  comment_text = tt;
  crc_long = omega arith;
  size_long = omega arith;
}

flags_of_abc : (load (encode abc_file)) 3 ≡ 14
unfolding load flag_byte
flags_of_abc = refl

copies :
    (m : Memory)
    → Holds m (buffer_size - 3) abc
    → let (m', n) = copy m (buffer_size - 3) in (n ≡ length abc) × Holds m' 0 abc
copies m h = (refl, h)

adds : (m : Memory) → Holds m 0 abc → add_up 0 m (length abc) ≡ 198
adds m (a, (b, (c, _))) = rw (a, b, c)

abc_run : run_main copy add_up 0 (some (encode abc_file)) true 100 ≡ done abc
unfolding run_main write_result stored uncompress_buffer uncompress_body move_and_inflate
    inflate_checked memmove skip_header skip_text skip_extra skip_string get_long get_word get_byte
    load flag_byte
abc_run = refl

-- The same file with the last four bytes missing.
abc_short : uncompress_buffer copy add_up 0 (load (encode abc_file)) 27 ≡ fault
unfolding uncompress_buffer uncompress_body move_and_inflate memmove skip_header skip_text
    skip_extra skip_string get_long get_word get_byte load flag_byte
abc_short = refl

newline_dropped : get_fname (b'a' ∷ b'\n' ∷ []) ≡ b'a' ∷ []
unfolding get_fname
newline_dropped = refl

abc_result :
    (m : Memory) × (uncompress_buffer copy add_up 0
        (load (encode abc_file))
        (length (encode abc_file))
      ≡ ok (m, 3))
    × Holds m 0 abc
abc_result =
    uncompress_buffer-roundtrip copy add_up 0 abc_file abc abc_file-IsValid (omega arith)
      (omega arith) (omega arith) copies adds

uncompress_buffer-roundtrip_example :
    (m : Memory) × (uncompress_buffer copy add_up 0
        (load (encode abc_file))
        (length (encode abc_file))
      ≡ ok (m, 3))
    × Holds m 0 abc
uncompress_buffer-roundtrip_example =
    uncompress_buffer-roundtrip copy add_up 0 abc_file abc abc_file-IsValid (omega arith)
      (omega arith) (omega arith) copies adds

uncompress_buffer-ok_example :
    let m = load (encode abc_file) in
    (m 0 ≡ 0x1f)
    × (m 1 ≡ 0x8b)
    × (m 2 ≡ 8)
    × (3 ≤ buffer_size)
    × (get_long m (u16 (length (encode abc_file) + 2 ^ 16 - 4)) ≡ ok 3)
    × (get_long m (u16 (length (encode abc_file) + 2 ^ 16 - 8)) ≡ ok (add_up 0 abc_result.0 3))
uncompress_buffer-ok_example =
    uncompress_buffer-ok copy add_up 0 (load (encode abc_file)) (length (encode abc_file))
      abc_result.1

abc_header : skip_header (load (encode abc_file)) (load (encode abc_file) 3) ≡ ok 20
unfolding skip_header skip_text skip_extra skip_string get_word get_byte load flag_byte
abc_header = refl

uncompress_buffer-truncated_example :
    (uncompress_buffer copy add_up 0 (load (encode abc_file)) 27 ≡ fault)
    ⊎ (uncompress_buffer copy add_up 0 (load (encode abc_file)) 27 ≡ failed size_too_big)
unfolding load
uncompress_buffer-truncated_example =
    uncompress_buffer-truncated copy add_up 0 (load (encode abc_file)) 27 20 refl refl refl
      abc_header (omega arith) (omega arith) (omega arith)

run_main-encode_example : run_main copy add_up 0 (some (encode abc_file)) true 100 ≡ done abc
run_main-encode_example =
    run_main-encode copy add_up 0 abc_file abc 100 abc_file-IsValid (omega arith) (omega arith)
      (omega arith) (omega arith) copies adds
