-- ===== src/Gunzip/Truncated.antt =====
-- What `uncompress_buffer` does with a GZIP file that ends too early: nothing checks its length.
use builds.Base.{
  ℕ, ◌+◌, ◌-◌, ◌*◌, ◌^◌, ◌≤◌, ◌<◌, ◌≡◌, arith, Memory, u16, ◌⊎◌, inl, inr, lt→ltb, le→ltb,
}
use native.Mathlib.Decide.{dec_lt}
use builds.Gunzip.{
  buffer_size, Outcome, ok, fault, failed, get_word, get_long, skip_header, memmove,
  move_and_inflate, uncompress_body, uncompress_buffer, size_too_big,
}
use builds.Gunzip.Header.{get_byte-ok, get_byte-fault}

get_long-total : (m : Memory) (p : ℕ) → p + 3 < buffer_size → (v : ℕ) × (get_long m p ≡ ok v)
unfolding get_long get_word
get_long-total m p h = (
  m p + m (p + 1) * 256 + (m (p + 2) + m (p + 2 + 1) * 256) * 65536,
  rw (
    get_byte-ok m p (omega arith),
    get_byte-ok m (p + 1) (omega arith),
    get_byte-ok m (p + 2) (omega arith),
    get_byte-ok m (p + 2 + 1) (omega arith),
  ),
)

get_long-fault : (m : Memory) (p : ℕ) → buffer_size ≤ p → get_long m p ≡ fault
unfolding get_long get_word
get_long-fault m p h = rw (get_byte-fault m p h)

memmove-fault : (m : Memory) (to from n : ℕ) → buffer_size < to + n → memmove m to from n ≡ fault
unfolding memmove
memmove-fault m to from n h = ground arith

module _ (inflatemem : Memory → ℕ → Memory × ℕ) (crc32 : ℕ → Memory → ℕ → ℕ) (crc_start : ℕ) where
  abbrev uncompress : Memory → ℕ → Outcome (Memory × ℕ)
  uncompress = uncompress_buffer inflatemem crc32 crc_start

  -- With less than the trailer behind the header the length wraps, and the move leaves the buffer.
  move_and_inflate-fault :
      (m : Memory) (complen unclen crc p : ℕ)
      → complen < p + 8
      → p ≤ buffer_size
      → move_and_inflate inflatemem crc32 crc_start m complen unclen crc p ≡ fault
  unfolding move_and_inflate
  move_and_inflate-fault m complen unclen crc p short hp =
      let left = u16 (complen + 2 ^ 17 - (p + 8)) in
      let from = u16 (buffer_size + 2 ^ 16 - left) in rw (memmove-fault m from p left (omega arith))

  -- A file whose length does not reach 8 bytes past its header is read or moved outside the buffer,
  -- unless the bytes that are taken for the trailer happen to show a size that is too big.
  pub uncompress_buffer-truncated :
      (m : Memory) (complen p : ℕ)
      → m 0 ≡ 0x1f
      → m 1 ≡ 0x8b
      → m 2 ≡ 8
      → skip_header m (m 3) ≡ ok p
      → p ≤ buffer_size
      → complen < p + 8
      → complen ≤ buffer_size
      → (uncompress m complen ≡ fault) ⊎ (uncompress m complen ≡ failed size_too_big)
  unfolding uncompress_buffer uncompress_body
  uncompress_buffer-truncated m complen p m0 m1 m2 hdr hp short fits =
      rw
        (
          get_byte-ok m 0 (omega arith),
          get_byte-ok m 1 (omega arith),
          m0,
          m1,
          get_byte-ok m 2 (omega arith),
          m2,
        )
        (elim (dec_lt complen 8) [
          | yes tiny ↦ inl (rw (get_long-fault m (u16 (complen + 2 ^ 16 - 8)) (omega arith)))
          | no more ↦
              let (crc, e) = get_long-total m (u16 (complen + 2 ^ 16 - 8)) (omega arith) in
              let (unclen, e') = get_long-total m (u16 (complen + 2 ^ 16 - 4)) (omega arith) in
              elim (dec_lt buffer_size unclen) [
                | yes big ↦ inr (rw (e, e', lt→ltb buffer_size unclen big))
                | no small ↦ inl (
                    rw (
                      e,
                      e',
                      le→ltb buffer_size unclen (omega arith),
                      get_byte-ok m 3 (omega arith),
                      hdr,
                      move_and_inflate-fault m complen unclen crc p short hp,
                    ))
              ]
        ])
