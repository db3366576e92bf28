-- ===== src/Sieve.antt =====
-- bin/cc65-snapshot-win32/samples/sieve.c: the Sieve of Eratosthenes benchmark.
-- The array `Sieve` is a memory indexed from 0, and the bound and its root are parameters, so that
-- a test can run on small ones; `execute` puts in COUNT and SQRT_COUNT.
mod Marking
mod Crossing
pub mod Primes
pub mod Listing
mod Tests
use builds.Base.{
  ℕ, zero, suc, ◌+◌, ◌*◌, ◌≡◌, ◌==◌, ltb, if◌then◌else◌, u16, Memory, update, Option, none, some,
}

abbrev pub count : ℕ
count = 16384

abbrev pub sqrt_count : ℕ
sqrt_count = 128

infixl 5 ◌>>=◌
abbrev pub ◌>>=◌ : Option Memory → (Memory → Option Memory) → Option Memory
none >>= k = none
some m >>= k = k m

-- `while (J < COUNT) { *S = 1; S += I; J += I; }`, with `s` the index that the pointer stands at.
-- `none` means that the fuel ran out.
pub mark_multiples : ℕ → ℕ → ℕ → ℕ → ℕ → Memory → Option Memory
mark_multiples zero bound i s j m = none
mark_multiples (suc f) bound i s j m =
    let rest = mark_multiples f bound i (u16 (s + i)) (u16 (j + i)) (update m s 1) in
    if ltb j bound then rest else some m

-- The body of the outer loop, up to `++I`.
pub visit : ℕ → ℕ → ℕ → Memory → Option Memory
visit f bound i m =
    let j = u16 (i * 2) in if m i == 0 then mark_multiples f bound i j j m else some m

-- `while (I < SQRT_COUNT) { ...; ++I; }`, with its own fuel.
pub cross_out : ℕ → ℕ → ℕ → ℕ → Memory → Option Memory
cross_out zero bound root i m = none
cross_out (suc f) bound root i m =
    let rest = visit bound bound i m >>= cross_out f bound root (u16 (i + 1)) in
    if ltb i root then rest else some m

-- The array as the loader leaves it.
abbrev pub cleared : Memory
cleared n = 0

-- From `I = 2` to the end of the loops: `bound` rounds suffice for the inner loop, and `root` for
-- the outer one.
pub sieve : ℕ → ℕ → Option Memory
sieve bound root = cross_out root bound root 2 cleared

pub execute : Option Memory
execute = sieve count sqrt_count
