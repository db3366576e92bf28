-- ===== src/Sieve/Primes.antt =====
-- What the array of sieve.c holds when the loops end.
use builds.Base.{ℕ, ◌+◌, ◌*◌, ◌≤◌, ◌<◌, ◌≡◌, ◌≢◌, ◌⊎◌, inl, inr, ◌↔◌, ◌∙◌, ◌^◌, arith, Memory, some}
use native.Mathlib.Nat.{mul-le-mul, mul_comm}
use native.Mathlib.Decide.{dec_lt}
use builds.Sieve.{count, sqrt_count, cleared, sieve, execute}
use builds.Sieve.Crossing.{Crossed, Crossed-start, cross_out-Crossed}

-- At least 2, and a product of no two such numbers.
abbrev pub IsPrime : ℕ → Type 0
IsPrime n = (2 ≤ n) × ((a b : ℕ) → 2 ≤ a → 2 ≤ b → a * b ≢ n)

-- A composite number below the square of `root` has a factor below `root`.
small_factor : (a b root n : ℕ) → a * b ≡ n → n < root * root → (a < root) ⊎ (b < root)
small_factor a b root n e h = elim (dec_lt a root) [
  | yes p ↦ inl p
  | no p ↦ elim (dec_lt b root) [
    | yes q ↦ inr q
    | no q ↦ absurd (
        omega
          (arith, mul-le-mul {n₁ = root} {m₁ = root} {n₂ = a} {m₂ = b} (omega arith) (omega arith)))
  ]
]

Crossed-IsPrime :
    (bound root n : ℕ) (m : Memory)
    → bound ≤ root * root
    → Crossed bound root m
    → 2 ≤ n
    → n < bound
    → m n ≡ 0
    → IsPrime n
Crossed-IsPrime bound root n m hs c hn lt unset = (hn, no_factors)
  where
    set_at : (a b : ℕ) → 2 ≤ a → 2 ≤ b → a * b ≡ n → a < root → m n ≡ 1
    set_at a b ha hb e p = rw (← e) (c.full a b ha p hb (omega arith))

    no_factors : (a b : ℕ) → 2 ≤ a → 2 ≤ b → a * b ≢ n
    no_factors a b ha hb e = elim (small_factor a b root n e (omega arith)) [
      | inl p ↦ omega (arith, set_at a b ha hb e p)
      | inr p ↦ omega (arith, set_at b a hb ha (mul_comm b a ∙ e) p)
    ]

Crossed-unset : (bound root n : ℕ) (m : Memory) → Crossed bound root m → IsPrime n → m n ≡ 0
Crossed-unset bound root n m c prime = elim (c.sound n) [
  | inl unset ↦ unset
  | inr (v, lt, (a, b, ha, hb, e)) ↦ absurd (prime.1 a b ha hb e)
]

Crossed-outside : (bound root n : ℕ) (m : Memory) → Crossed bound root m → bound ≤ n → m n ≡ 0
Crossed-outside bound root n m c h = elim (c.sound n) [
  | inl unset ↦ unset
  | inr (v, lt, _) ↦ absurd (omega arith)
]

-- The sieve ends without a fault, and below the bound exactly the primes are left unset; nothing at
-- or above the bound is written.
pub sieve-IsPrime :
    (bound root : ℕ)
    → 2 ≤ root
    → root ≤ bound
    → bound ≤ root * root
    → bound + root ≤ 2 ^ 16
    → (m : Memory) × (sieve bound root ≡ some m)
      × ((n : ℕ) → 2 ≤ n → n < bound → (m n ≡ 0) ↔ IsPrime n)
      × ((n : ℕ) → bound ≤ n → m n ≡ 0)
unfolding sieve
sieve-IsPrime bound root hr hb hs hw =
    let (m, e, c) =
      cross_out-Crossed root bound root 2 cleared (omega arith) hr (omega arith) hb hw
        (Crossed-start bound) in
    (
      m,
      e,
      (λ n hn lt. (Crossed-IsPrime bound root n m hs c hn lt, Crossed-unset bound root n m c)),
      λ n h. Crossed-outside bound root n m c h,
    )

-- The program's own sieve, up to COUNT = 16384 with SQRT_COUNT = 128, ends, and its array is 0
-- at a number from 2 to COUNT - 1 exactly when the number is prime; no byte past the array is
-- written.
execute-IsPrime :
    (m : Memory) × (execute ≡ some m)
    × ((n : ℕ) → 2 ≤ n → n < count → (m n ≡ 0) ↔ IsPrime n)
    × ((n : ℕ) → count ≤ n → m n ≡ 0)
unfolding execute
execute-IsPrime =
    sieve-IsPrime count sqrt_count (omega arith) (omega arith) (omega arith) (omega arith)
