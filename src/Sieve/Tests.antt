-- ===== src/Sieve/Tests.antt =====
-- A run of sieve.c on a small bound, and its theorem at one.
use builds.Base.{ℕ, ◌≤◌, ◌<◌, ◌≡◌, refl, ◌↔◌, arith, Memory, update, List, [], ◌∷◌, some}
use mathlib.Core.Option
use builds.Sieve.{mark_multiples, visit, cross_out, sieve}
use builds.Sieve.Primes.{IsPrime, sieve-IsPrime}

cells : Memory → List ℕ
cells m = m 2 ∷ m 3 ∷ m 4 ∷ m 5 ∷ m 6 ∷ m 7 ∷ m 8 ∷ m 9 ∷ m 10 ∷ m 11 ∷ []

-- The array from 2 to 11, when the bound is 12.
sieve_below_12 : Option.map cells (sieve 12 4) ≡ some (0 ∷ 0 ∷ 1 ∷ 0 ∷ 1 ∷ 0 ∷ 1 ∷ 1 ∷ 1 ∷ 0 ∷ [])
unfolding sieve cross_out visit mark_multiples update cells
sieve_below_12 = refl

sieve-IsPrime_example :
    (m : Memory) × (sieve 30 6 ≡ some m)
    × ((n : ℕ) → 2 ≤ n → n < 30 → (m n ≡ 0) ↔ IsPrime n)
    × ((n : ℕ) → 30 ≤ n → m n ≡ 0)
sieve-IsPrime_example = sieve-IsPrime 30 6 (omega arith) (omega arith) (omega arith) (omega arith)
