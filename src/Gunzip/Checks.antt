-- ===== src/Gunzip/Checks.antt =====
-- What a success of `uncompress_buffer` guarantees, and what it does with a file that ends too early.
use builds.Base.{lt→ltb, le→ltb, ℕ, ◌+◌, ◌-◌, ◌^◌, ◌≤◌, ◌≡◌, refl, ap, ◌∙◌, arith, Memory, u16}
use native.Mathlib.Decide.{dec_lt}
use builds.Gunzip.{
  buffer_size, Outcome, ok, fault, failed, ◌>>=◌, get_byte, get_long, skip_header, memmove,
  inflate_checked, move_and_inflate, uncompress_body, uncompress_buffer, size_too_big,
}
use builds.Gunzip.Header.{get_byte-ok}

after_ok {ℓ κ μ} :
    {A : Type ℓ} {B : Type κ} {P : Type μ} (m : Outcome A) (f : A → Outcome B) (b : B)
    → ((a : A) → m ≡ ok a → f a ≡ ok b → P)
    → (m >>= f) ≡ ok b
    → P
after_ok (ok a) f b k h = k a refl h
after_ok (failed e) f b k h = cc
after_ok fault f b k h = cc

module _ (inflatemem : Memory → ℕ → Memory × ℕ) (crc32 : ℕ → Memory → ℕ → ℕ) (crc_start : ℕ) where
  abbrev Verified : ℕ → ℕ → Memory × ℕ → Type 0
  Verified unclen crc (m, n) = (n ≡ u16 unclen) × (crc32 crc_start m n ≡ crc)

  inflate_checked-ok :
      (m : Memory) (from unclen crc : ℕ) (r : Memory × ℕ)
      → inflate_checked inflatemem crc32 crc_start m from unclen crc ≡ ok r
      → Verified unclen crc r
  unfolding inflate_checked
  inflate_checked-ok m from unclen crc r h = ground arith

  move_and_inflate-ok :
      (m : Memory) (complen unclen crc p : ℕ) (r : Memory × ℕ)
      → move_and_inflate inflatemem crc32 crc_start m complen unclen crc p ≡ ok r
      → Verified unclen crc r
  unfolding move_and_inflate
  move_and_inflate-ok m complen unclen crc p r h =
      let left = u16 (complen + 2 ^ 17 - (p + 8)) in
      let from = u16 (buffer_size + 2 ^ 16 - left) in
      after_ok (memmove m from p left)
        (λ m'. inflate_checked inflatemem crc32 crc_start m' from unclen crc) r
        (λ m' _ e. inflate_checked-ok m' from unclen crc r e) h

  inflate-ok :
      (m : Memory) (complen unclen crc flags : ℕ) (r : Memory × ℕ)
      → (skip_header m flags >>= move_and_inflate inflatemem crc32 crc_start m complen unclen crc)
        ≡ ok r
      → Verified unclen crc r
  inflate-ok m complen unclen crc flags r h =
      after_ok (skip_header m flags)
        (move_and_inflate inflatemem crc32 crc_start m complen unclen crc) r
        (λ p _ e. move_and_inflate-ok m complen unclen crc p r e) h

  uncompress_body-ok :
      (m : Memory) (complen crc unclen : ℕ) (r : Memory × ℕ)
      → uncompress_body inflatemem crc32 crc_start m complen crc unclen ≡ ok r
      → (unclen ≤ buffer_size) × (r.1 ≡ unclen) × (crc32 crc_start r.0 r.1 ≡ crc)
  unfolding uncompress_body
  uncompress_body-ok m complen crc unclen r h = elim (dec_lt buffer_size unclen) [
    | yes big ↦ absurd (too_big (rw (lt→ltb buffer_size unclen big) at h))
    | no fits ↦
        let (size, sum) = verified (rw (le→ltb buffer_size unclen (omega arith)) at h) in
        (omega arith, omega arith, sum)
  ]
    where
      too_big : ◌≡◌ {A = Outcome (Memory × ℕ)} (failed size_too_big) (ok r) → ⊥
      too_big e = cc

      verified :
          (get_byte m 3 >>= λ flags.
          skip_header m flags >>= move_and_inflate inflatemem crc32 crc_start m complen unclen crc)
            ≡ ok r
          → Verified unclen crc r
      verified e = inflate-ok m complen unclen crc (m 3) r (rw (get_byte-ok m 3 (omega arith)) at e)

  trailer-ok :
      (m : Memory) (complen p q : ℕ) (r : Memory × ℕ)
      → (get_long m p >>= λ crc. get_long m q >>= λ unclen.
          uncompress_body inflatemem crc32 crc_start m complen crc unclen)
        ≡ ok r
      → (r.1 ≤ buffer_size)
        × (get_long m q ≡ ok r.1)
        × (get_long m p ≡ ok (crc32 crc_start r.0 r.1))
  trailer-ok m complen p q r h =
      after_ok (get_long m p)
        (λ crc. get_long m q >>= λ unclen.
          uncompress_body inflatemem crc32 crc_start m complen crc unclen)
        r
        (λ crc e k.
          after_ok (get_long m q) (uncompress_body inflatemem crc32 crc_start m complen crc) r
            (λ unclen e' k'.
              let (le, size, sum) = uncompress_body-ok m complen crc unclen r k' in
              (omega arith, e' ∙ ap ok (omega arith), e ∙ ap ok (omega arith)))
            k)
        h

  -- On success the file began with the GZIP signature and the method 8, and length and CRC of the
  -- result are those of the trailer.
  pub uncompress_buffer-ok :
      (m : Memory) (complen : ℕ) {m' : Memory} {n : ℕ}
      → uncompress_buffer inflatemem crc32 crc_start m complen ≡ ok (m', n)
      → (m 0 ≡ 0x1f)
        × (m 1 ≡ 0x8b)
        × (m 2 ≡ 8)
        × (n ≤ buffer_size)
        × (get_long m (u16 (complen + 2 ^ 16 - 4)) ≡ ok n)
        × (get_long m (u16 (complen + 2 ^ 16 - 8)) ≡ ok (crc32 crc_start m' n))
  unfolding uncompress_buffer
  uncompress_buffer-ok m complen {m'} {n} h = ground (
    arith,
    get_byte-ok m 0 (omega arith),
    get_byte-ok m 1 (omega arith),
    get_byte-ok m 2 (omega arith),
    trailer-ok m complen (u16 (complen + 2 ^ 16 - 8)) (u16 (complen + 2 ^ 16 - 4)) (m', n),
  )
