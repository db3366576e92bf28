-- ===== src/Gunzip.antt =====
-- bin/cc65-snapshot-win32/samples/gunzip65.c: a GZIP file is read into `buffer`, its header skipped,
-- the deflate data moved to the end of the buffer and inflated to its start.
-- A pointer into `buffer` is its offset. An access outside the buffer is a `fault`. The cc65
-- library's `inflatemem` and `crc32` are parameters.
pub mod Format
pub mod Header
pub mod RoundTrip
pub mod Checks
pub mod Truncated
pub mod Program
mod Tests
use builds.Base.{
  ℕ, zero, suc, ◌+◌, ◌-◌, ◌*◌, ◌%◌, ◌^◌, ◌==◌, ltb, leb, if◌then◌else◌, u16, u32, ◌<<<◌, Memory,
  Bool, true, false, not, ◌&&◌, ◌||◌, List, length, get_or, bit_and,
}

abbrev pub buffer_size : ℕ
buffer_size = 26000

abbrev pub fhcrc : ℕ
fhcrc = 2

abbrev pub fextra : ℕ
fextra = 4

abbrev pub fname : ℕ
fname = 8

abbrev pub fcomment : ℕ
fcomment = 16

-- The messages with which `uncompress_buffer` returns 0.
pub data Message : Type 0 where
  not_gzip unsupported_method size_too_big size_mismatch crc_mismatch : Message

pub data Outcome {ℓ} (A : Type ℓ) : Type ℓ where
  ok : A → Outcome A
  failed : Message → Outcome A
  fault : Outcome A

infixl 5 ◌>>=◌ ◌>>◌
abbrev pub ◌>>=◌ {ℓ κ} : {A : Type ℓ} {B : Type κ} → Outcome A → (A → Outcome B) → Outcome B
ok a >>= f = f a
failed e >>= f = failed e
fault >>= f = fault

abbrev pub ◌>>◌ {ℓ} : {B : Type ℓ} → Outcome (Unit {0}) → Outcome B → Outcome B
m >> k = m >>= λ _. k

-- Go on, unless the test says that something is wrong.
abbrev pub check : Bool → Message → Outcome (Unit {0})
check true e = failed e
check false e = ok tt

pub get_byte : Memory → ℕ → Outcome ℕ
get_byte m p = if ltb p buffer_size then ok (m p) else fault

-- GET_WORD and GET_LONG
pub get_word : Memory → ℕ → Outcome ℕ
get_word m p = do lo ← get_byte m p; hi ← get_byte m (p + 1); ok (lo + (hi <<< 8))

pub get_long : Memory → ℕ → Outcome ℕ
get_long m p = do lo ← get_word m p; hi ← get_word m (p + 2); ok (lo + (hi <<< 16))

-- `while (*ptr++ != 0);` With fuel for the rest of the buffer no more can be read when it is used up.
pub skip_string : ℕ → Memory → ℕ → Outcome ℕ
skip_string zero m p = fault
skip_string (suc f) m p =
    let rest = skip_string f m (p + 1) in do c ← get_byte m p; if c == 0 then ok (p + 1) else rest

abbrev pub has_flag : ℕ → ℕ → Bool
has_flag flags bit = not (bit_and flags bit == 0)

-- The value of `ptr` behind the extra field, the name, the comment and the header's CRC.
pub skip_extra : Memory → ℕ → Outcome ℕ
skip_extra m flags = if has_flag flags fextra then (do n ← get_word m 10; ok (12 + n)) else ok 10

pub skip_text : Memory → ℕ → ℕ → ℕ → Outcome ℕ
skip_text m flags bit p = if has_flag flags bit then skip_string buffer_size m p else ok p

pub skip_header : Memory → ℕ → Outcome ℕ
skip_header m flags = do
  p ← skip_extra m flags
  p ← skip_text m flags fname p
  p ← skip_text m flags fcomment p
  ok (if has_flag flags fhcrc then p + 2 else p)

-- `memmove (to, from, n)` within the buffer.
pub memmove : Memory → ℕ → ℕ → ℕ → Outcome Memory
memmove m to from n =
    if leb (to + n) buffer_size && leb (from + n) buffer_size
    then ok (λ i. if leb to i && ltb i (to + n) then m (from + (i - to)) else m i)
    else fault

module _ (inflatemem : Memory → ℕ → Memory × ℕ) (crc32 : ℕ → Memory → ℕ → ℕ) (crc_start : ℕ) where
  -- Inflate from `from` to the start of the buffer, and check length and CRC.
  pub inflate_checked : Memory → ℕ → ℕ → ℕ → Outcome (Memory × ℕ)
  inflate_checked m from unclen crc =
      let (m', n) = inflatemem m from in
      do
        check (not (n == u16 unclen)) size_mismatch
        check (not (crc32 crc_start m' n == crc)) crc_mismatch
        ok (m', n)

  -- From the adjustment of `complen` on, with `ptr` at `p`. `complen` is an `unsigned`; a range that
  -- would begin before the buffer or end behind it is a fault.
  pub move_and_inflate : Memory → ℕ → ℕ → ℕ → ℕ → Outcome (Memory × ℕ)
  move_and_inflate m complen unclen crc p =
      let left = u16 (complen + 2 ^ 17 - (p + 8)) in
      let from = u16 (buffer_size + 2 ^ 16 - left) in
      do m' ← memmove m from p left; inflate_checked m' from unclen crc

  -- From the test of the uncompressed length on.
  pub uncompress_body : Memory → ℕ → ℕ → ℕ → Outcome (Memory × ℕ)
  uncompress_body m complen crc unclen = do
    check (ltb buffer_size unclen) size_too_big
    flags ← get_byte m 3
    p ← skip_header m flags
    move_and_inflate m complen unclen crc p

  pub uncompress_buffer : Memory → ℕ → Outcome (Memory × ℕ)
  uncompress_buffer m complen = do
    b0 ← get_byte m 0
    b1 ← get_byte m 1
    check (not (b0 == 0x1f) || not (b1 == 0x8b)) not_gzip
    b2 ← get_byte m 2
    check (not (b2 == 8)) unsupported_method
    crc ← get_long m (u16 (complen + 2 ^ 16 - 8))
    unclen ← get_long m (u16 (complen + 2 ^ 16 - 4))
    uncompress_body m complen crc unclen
