-- ===== src/Gunzip/RoundTrip.antt =====
-- What `uncompress_buffer` does with a valid GZIP file that fits the buffer.
use builds.Base.{
  ==_refl, ℕ, ◌+◌, ◌-◌, ◌^◌, ◌≤◌, ◌<◌, ◌≡◌, refl, ◌∙◌, arith, Memory, List, ◌++◌, length,
  length-append, ltb, leb, le→ltb, if◌then◌else◌, ◌&&◌, u16,
}
use builds.Gunzip.{
  buffer_size, ok, memmove, inflate_checked, move_and_inflate, uncompress_body, uncompress_buffer,
}
use builds.Gunzip.Format.{
  GzipFile, long_bytes, flags_of, options_of, encode, IsValid, Holds, Holds-append, Holds-copy,
  load, Holds-load,
}
use builds.Gunzip.Header.{get_byte-ok, get_long-long_bytes, skip_header-options}

-- Where everything lies once a file has been loaded.
record Layout (m : Memory) (g : GzipFile) : Type 0 where
  pub magic : (m 0 ≡ 0x1f) × (m 1 ≡ 0x8b) × (m 2 ≡ 8) × (m 3 ≡ flags_of g)
  pub options : Holds m 10 (options_of g)
  pub body : Holds m (10 + length (options_of g)) g.deflated
  pub crc_at : Holds m (10 + length (options_of g) + length g.deflated) (long_bytes g.crc)
  pub size_at : Holds m (14 + length (options_of g) + length g.deflated) (long_bytes g.size)
  pub total : length (encode g) ≡ 18 + length (options_of g) + length g.deflated

load-Layout : (g : GzipFile) → IsValid g → Layout (load (encode g)) g
load-Layout g v =
    let m = load (encode g) in
    let tail = long_bytes g.crc ++ long_bytes g.size in
    let (h0, (h1, (h2, (h3, h4)))) = Holds-load (encode g) in
    let n = length (options_of g) in
    let d = length g.deflated in
    let fixed : length g.mtime_to_os ≡ 6 = v.fixed in
    let (_, h10) =
      Holds-append m 4 10 g.mtime_to_os (options_of g ++ (g.deflated ++ tail)) h4 (omega arith) in
    let (ho, hb) = Holds-append m 10 (10 + n) (options_of g) (g.deflated ++ tail) h10 refl in
    let (hd, ht) = Holds-append m (10 + n) (10 + n + d) g.deflated tail hb refl in
    let (hc, hs) =
      Holds-append m (10 + n + d) (14 + n + d) (long_bytes g.crc) (long_bytes g.size) ht
        (omega arith) in
    record {
      magic = (h0, h1, h2, h3);
      options = ho;
      body = hd;
      crc_at = hc;
      size_at = hs;
      total = omega (
        arith,
        length-append g.mtime_to_os (options_of g ++ (g.deflated ++ tail)),
        length-append (options_of g) (g.deflated ++ tail),
        length-append g.deflated tail,
      );
    }

memmove-ok :
    (m : Memory) (to from : ℕ) (xs : List ℕ)
    → to + length xs ≤ buffer_size
    → from + length xs ≤ buffer_size
    → Holds m from xs
    → (m' : Memory) × (memmove m to from (length xs) ≡ ok m')
      × Holds m' to xs
      × ((i : ℕ) → i < to → m' i ≡ m i)
unfolding memmove
memmove-ok m to from xs ht hf h =
    let n = length xs in
    let moved : Memory = λ i. if leb to i && ltb i (to + n) then m (from + (i - to)) else m i in
    (moved, ground arith, Holds-copy m moved from to xs inside h, λ i lt. ground arith)
  where
    inside :
        (i : ℕ)
        → i < length xs
        → (if leb to (to + i) && ltb (to + i) (to + length xs)
            then m (from + (to + i - to))
            else m (to + i))
          ≡ m (from + i)
    inside i lt = let back : to + i - to ≡ i = omega arith in rw back (ground arith)

module _ (inflatemem : Memory → ℕ → Memory × ℕ) (crc32 : ℕ → Memory → ℕ → ℕ) (crc_start : ℕ) where
  inflate_checked-ok :
      (m : Memory) (from : ℕ) (g : GzipFile) (len : ℕ)
      → len ≤ buffer_size
      → g.size ≡ len
      → (inflatemem m from).1 ≡ len
      → crc32 crc_start (inflatemem m from).0 len ≡ g.crc
      → inflate_checked inflatemem crc32 crc_start m from g.size g.crc
        ≡ ok ((inflatemem m from).0, len)
  unfolding inflate_checked
  inflate_checked-ok m from g len small size n sum =
      let word : u16 len ≡ len = omega arith in rw (size, word, n, ==_refl len, sum, ==_refl g.crc)

  -- Of a valid file that fits the buffer the deflate data, and nothing else, is moved to the end of
  -- the buffer, and is inflated from there against the trailer's size and CRC.
  pub uncompress_buffer-encode :
      (g : GzipFile)
      → IsValid g
      → length (encode g) < buffer_size
      → g.size ≤ buffer_size
      → (m : Memory) × Holds m (buffer_size - length g.deflated) g.deflated
        × ((i : ℕ) → i < buffer_size - length g.deflated → m i ≡ load (encode g) i)
        × (uncompress_buffer inflatemem crc32 crc_start (load (encode g)) (length (encode g))
            ≡ inflate_checked inflatemem crc32 crc_start m
                (buffer_size - length g.deflated)
                g.size
                g.crc)
  unfolding uncompress_buffer uncompress_body move_and_inflate
  uncompress_buffer-encode g v fits small =
      let m = load (encode g) in
      let l = load-Layout g v in
      let (m0, m1, m2, m3) = l.magic in
      let total : length (encode g) ≡ 18 + length (options_of g) + length g.deflated = l.total in
      let p = 10 + length (options_of g) in
      let d = length g.deflated in
      let (m', moved, holds, same) =
        memmove-ok m (buffer_size - d) p g.deflated (omega arith) (omega arith) l.body in
      let crc_pos : u16 (length (encode g) + 2 ^ 16 - 8) ≡ p + d = omega arith in
      let size_pos : u16 (length (encode g) + 2 ^ 16 - 4) ≡ 14 + length (options_of g) + d =
        omega arith in
      let left : u16 (length (encode g) + 2 ^ 17 - (p + 8)) ≡ d = omega arith in
      let from : u16 (buffer_size + 2 ^ 16 - d) ≡ buffer_size - d = omega arith in
      (
        m',
        holds,
        same,
        rw (
          get_byte-ok m 0 (omega arith),
          get_byte-ok m 1 (omega arith),
          m0,
          m1,
          get_byte-ok m 2 (omega arith),
          m2,
          crc_pos,
          get_long-long_bytes m (p + d) g.crc l.crc_at (omega arith) v.crc_long,
          size_pos,
          get_long-long_bytes m (14 + length (options_of g) + d) g.size l.size_at (omega arith)
              v.size_long,
          le→ltb buffer_size g.size small,
          get_byte-ok m 3 (omega arith),
          m3,
          skip_header-options m g v l.options (omega arith),
          left,
          from,
          moved,
        ),
      )

  -- If `inflatemem` undoes the compression when the deflate data lies at the end of the buffer, and
  -- `crc32` gives the trailer's CRC of the original bytes, then the original bytes are what comes
  -- out, with their number.
  pub uncompress_buffer-roundtrip :
      (g : GzipFile) (original : List ℕ)
      → IsValid g
      → length (encode g) < buffer_size
      → g.size ≡ length original
      → length original ≤ buffer_size
      → ((m : Memory)
          → Holds m (buffer_size - length g.deflated) g.deflated
          → let (m', n) = inflatemem m (buffer_size - length g.deflated) in
            (n ≡ length original) × Holds m' 0 original)
      → ((m : Memory) → Holds m 0 original → crc32 crc_start m (length original) ≡ g.crc)
      → (m : Memory) × (uncompress_buffer inflatemem crc32 crc_start
            (load (encode g))
            (length (encode g))
          ≡ ok (m, length original))
        × Holds m 0 original
  uncompress_buffer-roundtrip g original v fits size small inflates sums =
      let (m, holds, _, e) = uncompress_buffer-encode g v fits (omega arith) in
      let from = buffer_size - length g.deflated in
      let (n, back) = inflates m holds in
      (
        (inflatemem m from).0,
        e ∙ inflate_checked-ok m from g (length original) small size n (sums _ back),
        back,
      )
