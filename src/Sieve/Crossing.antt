-- ===== src/Sieve/Crossing.antt =====
-- The outer loop of sieve.c.
use builds.Base.{
  ℕ, zero, suc, ◌+◌, ◌*◌, ◌≤◌, ◌<◌, ◌≡◌, refl, sym, ◌≢◌, ◌⊎◌, inl, inr, ◌∙◌, ◌^◌, arith, u16,
  Memory, Option, some, lt→ltb, le→ltb,
}
use native.Mathlib.Decide.{ℕ_discrete}
use builds.Sieve.{mark_multiples, visit, cross_out, cleared}
use builds.Sieve.Marking.{Marked, mark_multiples-HasMarked}

-- What holds of the array at the start of a round: a number is set only if it is composite, and all
-- proper multiples of the numbers visited so far are set.
pub record Crossed (bound i : ℕ) (m : Memory) : Type 0 where
  pub sound :
      (n : ℕ)
      → (m n ≡ 0)
        ⊎ ((m n ≡ 1) × (n < bound) × ((a : ℕ) × (b : ℕ) × (2 ≤ a) × (2 ≤ b) × (a * b ≡ n)))
  pub full : (p k : ℕ) → 2 ≤ p → p < i → 2 ≤ k → p * k < bound → m (p * k) ≡ 1

abbrev pub HasCrossed : (bound i : ℕ) → Option Memory → Type 0
HasCrossed bound i o = (m : Memory) × (o ≡ some m) × Crossed bound i m

pub Crossed-start : (bound : ℕ) → Crossed bound 2 cleared
Crossed-start bound = record { sound = λ n. inl refl; full = λ p k h below. absurd (omega arith) }

multiple : (p i k : ℕ) → p ≡ i → 2 ≤ k → (t : ℕ) × (p * k ≡ i * 2 + t * i)
multiple p i zero e h = absurd (omega arith)
multiple p i (suc zero) e h = absurd (omega arith)
multiple p i (suc (suc t)) e h = (t, rw e (omega arith))

-- A factor of a number is below it when the other factor is at least 2.
factor-lt : (x y i : ℕ) → 2 ≤ x → 2 ≤ y → x * y ≡ i → x < i
factor-lt x zero i hx hy e = absurd (omega arith)
factor-lt x (suc zero) i hx hy e = absurd (omega arith)
factor-lt x (suc (suc y)) i hx hy e = omega arith

mul-ge-two : (y k : ℕ) → 2 ≤ y → 2 ≤ k → 2 ≤ y * k
mul-ge-two y zero hy hk = absurd (omega arith)
mul-ge-two y (suc zero) hy hk = absurd (omega arith)
mul-ge-two y (suc (suc k)) hy hk = omega arith

-- A round that finds `I` unset marks its multiples.
Crossed-mark :
    (bound i : ℕ) (m m' : Memory)
    → 2 ≤ i
    → Crossed bound i m
    → Marked bound i (i * 2) m m'
    → Crossed bound (i + 1) m'
Crossed-mark bound i m m' hi c w = record {
  sound = λ n. elim (w.miss n) [
    | inl e ↦ rw e (c.sound n)
    | inr (t, e, b, v) ↦ inr (v, b, (i, t + 2, hi, omega arith, omega arith))
  ];
  full = λ p k hp below hk b. elim (ℕ_discrete p i) [
    | yes e ↦ let (t, q) = multiple p i k e hk in rw q (w.hit t (omega arith))
    | no ne ↦ ground (arith, w.miss (p * k), c.full p k hp (omega arith) hk b)
  ];
}

factors : (x y p k : ℕ) → x * y ≡ p → p * k ≡ x * (y * k)
factors x y p k e = rw (← e) (omega arith)

-- A round that finds `I` set has nothing to do: `I` is a multiple of a smaller number.
Crossed-skip :
    (bound i : ℕ) (m : Memory) → 2 ≤ i → m i ≢ 0 → Crossed bound i m → Crossed bound (i + 1) m
Crossed-skip bound i m hi ne c = record {
  sound = c.sound;
  full = λ p k hp below hk b. elim (ℕ_discrete p i) [
    | no other ↦ c.full p k hp (omega arith) hk b
    | yes e ↦ elim (c.sound i) [
      | inl unset ↦ absurd (ne unset)
      | inr (v, lt, (x, y, hx, hy, q)) ↦
          let regroup : p * k ≡ x * (y * k) = factors x y p k (q ∙ sym e) in
          rw regroup
            (c.full x (y * k) hx (factor-lt x y i hx hy q) (mul-ge-two y k hy hk) (omega arith))
    ]
  ];
}

visit-unset :
    (f bound i : ℕ) (m : Memory)
    → i * 2 < 2 ^ 16
    → m i ≡ 0
    → visit f bound i m ≡ mark_multiples f bound i (i * 2) (i * 2) m
unfolding visit
visit-unset f bound i m h e = let wraps : u16 (i * 2) ≡ i * 2 = omega arith in rw (e, wraps)

visit-set : (f bound i : ℕ) (m : Memory) → m i ≢ 0 → visit f bound i m ≡ some m
unfolding visit
visit-set f bound i m ne = ground arith

visit-Crossed :
    (bound i : ℕ) (m : Memory)
    → 2 ≤ i
    → i < bound
    → bound + i ≤ 2 ^ 16
    → Crossed bound i m
    → HasCrossed bound (i + 1) (visit bound bound i m)
visit-Crossed bound i m hi lt hw c = elim (ℕ_discrete (m i) 0) [
  | yes unset ↦
      let (m', e, w) =
        mark_multiples-HasMarked bound bound i (i * 2) m (omega arith) hw (omega arith)
          (omega arith) in
      (m', visit-unset bound bound i m (omega arith) unset ∙ e, Crossed-mark bound i m m' hi c w)
  | no marked ↦ (m, visit-set bound bound i m marked, Crossed-skip bound i m hi marked c)
]

cross_out-stop : (f bound root : ℕ) (m : Memory) → cross_out (suc f) bound root root m ≡ some m
unfolding cross_out
cross_out-stop f bound root m = rw (le→ltb root root (omega arith))

cross_out-step :
    (f bound root i : ℕ) (m m' : Memory)
    → i < root
    → root < 2 ^ 16
    → visit bound bound i m ≡ some m'
    → cross_out (suc f) bound root i m ≡ cross_out f bound root (i + 1) m'
unfolding cross_out
cross_out-step f bound root i m m' lt hr e =
    let wraps : u16 (i + 1) ≡ i + 1 = omega arith in rw (lt→ltb i root lt, e, wraps)

-- With `f` rounds of fuel for `root - I` rounds the outer loop ends, and keeps the invariant.
pub cross_out-Crossed :
    (f bound root i : ℕ) (m : Memory)
    → 2 ≤ i
    → i ≤ root
    → root < f + i
    → root ≤ bound
    → bound + root ≤ 2 ^ 16
    → Crossed bound i m
    → HasCrossed bound root (cross_out f bound root i m)
cross_out-Crossed zero bound root i m hi le hf hb hw c = absurd (omega arith)
cross_out-Crossed (suc f) bound root i m hi le hf hb hw c = elim (ℕ_discrete i root) [
  | yes e ↦ (m, rw e (cross_out-stop f bound root m), rw (← e) c)
  | no ne ↦
      let (m', e, c') = visit-Crossed bound i m hi (omega arith) (omega arith) c in
      let (m'', e', c'') =
        cross_out-Crossed f bound root (i + 1) m' (omega arith) (omega arith) (omega arith) hb hw
          c' in
      (m'', cross_out-step f bound root i m m' (omega arith) (omega arith) e ∙ e', c'')
]
