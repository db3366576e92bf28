-- ===== src/Gunzip/Header.antt =====
-- Reading what a valid GZIP header holds: words, strings, and the header as a whole.
use builds.Base.{
  ℕ, zero, suc, ◌+◌, ◌*◌, ◌/◌, ◌%◌, ◌^◌, ◌≤◌, ◌<◌, ◌≡◌, refl, ap, ◌∙◌, arith, Memory, false, List,
  [], ◌∷◌, ◌++◌, Option, none, some, length, length-append, ◌==◌, lt→ltb, le→ltb, if◌then◌else◌,
}
use builds.Gunzip.{
  buffer_size, fhcrc, fextra, fname, fcomment, has_flag, ok, fault, get_byte, get_word, get_long,
  skip_string, skip_extra, skip_text, skip_header,
}
use builds.Gunzip.Format.{
  GzipFile, is_some, word_bytes, long_bytes, extra_field, text_field, crc_field, flags_of,
  options_of, AllNonzero, IsText, HasWordLength, IsValid, has_flag-flag_byte, Holds, Holds-append,
}

pub get_byte-ok : (m : Memory) (p : ℕ) → p < buffer_size → get_byte m p ≡ ok (m p)
unfolding get_byte
get_byte-ok m p h = rw (lt→ltb p buffer_size h)

pub get_byte-fault : (m : Memory) (p : ℕ) → buffer_size ≤ p → get_byte m p ≡ fault
unfolding get_byte
get_byte-fault m p h = rw (le→ltb p buffer_size h)

pub get_word-ok :
    (m : Memory) (p q a b : ℕ)
    → m p ≡ a
    → m q ≡ b
    → q ≡ p + 1
    → q < buffer_size
    → get_word m p ≡ ok (a + b * 256)
unfolding get_word
get_word-ok m p q a b ha hb e lt =
    let hi : m (p + 1) ≡ b = rw (← e) hb in
    rw (get_byte-ok m p (omega arith), get_byte-ok m (p + 1) (omega arith), ha, hi)

pub get_word-word_bytes :
    (m : Memory) (p n : ℕ)
    → Holds m p (word_bytes n)
    → p + 1 < buffer_size
    → n < 2 ^ 16
    → get_word m p ≡ ok n
get_word-word_bytes m p n h lt fits =
    get_word-ok m p (p + 1) (n % 256) (n / 256 % 256) h.0 h.1.0 refl lt ∙ ap ok (omega arith)

pub get_long-long_bytes :
    (m : Memory) (p n : ℕ)
    → Holds m p (long_bytes n)
    → p + 3 < buffer_size
    → n < 2 ^ 32
    → get_long m p ≡ ok n
unfolding get_long
get_long-long_bytes m p n h b lt =
    rw
      (
        get_word-ok m p (p + 1) (n % 256) (n / 256 % 256) h.0 h.1.0 refl (omega arith),
        get_word-ok m (p + 2) (p + 1 + 1 + 1) (n / 65536 % 256) (n / 65536 / 256 % 256) third
            h.1.1.1.0 (omega arith) (omega arith),
      )
      (ap ok (omega arith))
  where
    third : m (p + 2) ≡ n / 65536 % 256
    third = let e : p + 2 ≡ p + 1 + 1 = omega arith in ap m e ∙ h.1.1.0

-- A string ends with the first zero byte.
pub skip_string-text :
    (f : ℕ) (m : Memory) (p : ℕ) (xs : List ℕ)
    → AllNonzero xs
    → Holds m p (xs ++ 0 ∷ [])
    → p + length xs < buffer_size
    → buffer_size ≤ f + p
    → skip_string f m p ≡ ok (p + length xs + 1)
unfolding skip_string
skip_string-text zero m p xs nz h b lt = absurd (omega arith)
skip_string-text (suc f) m p [] nz (z, _) b lt =
    rw (get_byte-ok m p (omega arith), z) (ap ok (omega arith))
skip_string-text (suc f) m p (x ∷ xs) (nx, nz) (hx, h) b lt =
    let more : (x == 0) ≡ false = ground arith in
    rw (get_byte-ok m p (omega arith), hx, more)
      (skip_string-text f m (p + 1) xs nz h (omega arith) (omega arith) ∙ ap ok (omega arith))

skip_extra-field :
    (m : Memory) (flags : ℕ) (extra : Option (List ℕ))
    → has_flag flags fextra ≡ is_some extra
    → HasWordLength extra
    → Holds m 10 (extra_field extra)
    → 10 + length (extra_field extra) ≤ buffer_size
    → skip_extra m flags ≡ ok (10 + length (extra_field extra))
unfolding skip_extra
skip_extra-field m flags none e fits h b = rw e
skip_extra-field m flags (some xs) e fits h b =
    rw (e, get_word-word_bytes m 10 (length xs) (h.0, (h.1.0, tt)) (omega arith) fits)
      (ap ok (omega arith))

skip_text-field :
    (m : Memory) (flags bit p : ℕ) (text : Option (List ℕ))
    → has_flag flags bit ≡ is_some text
    → IsText text
    → Holds m p (text_field text)
    → p + length (text_field text) ≤ buffer_size
    → skip_text m flags bit p ≡ ok (p + length (text_field text))
unfolding skip_text
skip_text-field m flags bit p none e t h b = rw e (ap ok (omega arith))
skip_text-field m flags bit p (some xs) e t h b =
    rw
      (
        e,
        skip_string-text buffer_size m p xs t h (omega (arith, length-append xs (0 ∷ [])))
            (omega arith),
      )
      (ap ok (omega (arith, length-append xs (0 ∷ []))))

skip_crc :
    (flags p : ℕ) (c : Option (ℕ × ℕ))
    → has_flag flags fhcrc ≡ is_some c
    → (if has_flag flags fhcrc then p + 2 else p) ≡ p + length (crc_field c)
skip_crc flags p none e = rw e (omega arith)
skip_crc flags p (some c) e = rw e (omega arith)

-- All optional fields of a valid header are skipped.
pub skip_header-options :
    (m : Memory) (g : GzipFile)
    → IsValid g
    → Holds m 10 (options_of g)
    → 10 + length (options_of g) ≤ buffer_size
    → skip_header m (flags_of g) ≡ ok (10 + length (options_of g))
unfolding skip_header
skip_header-options m g v h b =
    let xe = extra_field g.extra in
    let xn = text_field g.name in
    let xc = text_field g.comment in
    let xh = crc_field g.header_crc in
    let p = 10 + length xe in
    let q = p + length xn in
    let r = q + length xc in
    let (he, h1) = Holds-append m 10 p xe (xn ++ (xc ++ xh)) h refl in
    let (hn, h2) = Holds-append m p q xn (xc ++ xh) h1 refl in
    let (hc, _) = Holds-append m q r xc xh h2 refl in
    let total : 10 + length (options_of g) ≡ r + length xh = omega (
      arith,
      length-append xe (xn ++ (xc ++ xh)),
      length-append xn (xc ++ xh),
      length-append xc xh,
    ) in
    let (fh, fe, fn, fc) =
      has_flag-flag_byte g.is_text (is_some g.header_crc) (is_some g.extra) (is_some g.name)
        (is_some g.comment) in
    rw (
      skip_extra-field m (flags_of g) g.extra fe v.extra_length he (omega arith),
      skip_text-field m (flags_of g) fname p g.name fn v.name_text hn (omega arith),
      skip_text-field m (flags_of g) fcomment q g.comment fc v.comment_text hc (omega arith),
      skip_crc (flags_of g) r g.header_crc fh,
      total,
    )
