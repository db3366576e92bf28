-- ===== src/Sieve/Marking.antt =====
-- The inner loop of sieve.c.
use builds.Base.{
  ℕ, zero, suc, ◌+◌, ◌*◌, ◌≤◌, ◌<◌, ◌≡◌, refl, ◌⊎◌, inl, inr, ◌∙◌, ◌^◌, arith, u16, Memory, update,
  update_self, update_ne, Option, some, lt→ltb, le→ltb,
}
use native.Mathlib.Decide.{ℕ_discrete, dec_lt}
use builds.Sieve.{mark_multiples}

-- After the inner loop started at `j`: the indices `j + t * i` below the bound are set, and no other
-- index has changed.
pub record Marked (bound i j : ℕ) (m m' : Memory) : Type 0 where
  pub hit : (t : ℕ) → j + t * i < bound → m' (j + t * i) ≡ 1
  pub miss : (n : ℕ) → (m' n ≡ m n) ⊎ ((t : ℕ) × (n ≡ j + t * i) × (n < bound) × (m' n ≡ 1))

abbrev pub HasMarked : (bound i j : ℕ) (m : Memory) → Option Memory → Type 0
HasMarked bound i j m o = (m' : Memory) × (o ≡ some m') × Marked bound i j m m'

Marked-done : (bound i j : ℕ) (m : Memory) → bound ≤ j → Marked bound i j m m
Marked-done bound i j m h = record { hit = λ t p. absurd (omega arith); miss = λ n. inl refl }

Marked-step :
    (bound i j : ℕ) (m m' : Memory)
    → j < bound
    → Marked bound i (j + i) (update m j 1) m'
    → Marked bound i j m m'
Marked-step bound i j m m' h w = record {
  hit = hit_at;
  miss = λ n. elim (w.miss n) [
    | inr (t, e, b, v) ↦ inr (suc t, omega arith, b, v)
    | inl e ↦ elim (ℕ_discrete j n) [
      | yes q ↦ inr (0, omega arith, omega arith, first n q)
      | no q ↦ inl (e ∙ update_ne m j n 1 q)
    ]
  ];
}
  where
    first : (n : ℕ) → j ≡ n → m' n ≡ 1
    first n q = rw (← q) (ground (arith, w.miss j, update_self m j 1))

    hit_at : (t : ℕ) → j + t * i < bound → m' (j + t * i) ≡ 1
    hit_at zero p = first (j + 0 * i) (omega arith)
    hit_at (suc t) p =
        let e : j + suc t * i ≡ j + i + t * i = omega arith in rw e (w.hit t (omega arith))

mark_multiples-stop :
    (f bound i j : ℕ) (m : Memory) → bound ≤ j → mark_multiples (suc f) bound i j j m ≡ some m
unfolding mark_multiples
mark_multiples-stop f bound i j m h = rw (le→ltb j bound h)

mark_multiples-step :
    (f bound i j : ℕ) (m : Memory)
    → bound + i ≤ 2 ^ 16
    → j < bound
    → mark_multiples (suc f) bound i j j m ≡ mark_multiples f bound i (j + i) (j + i) (update m j 1)
unfolding mark_multiples
mark_multiples-step f bound i j m hw h =
    let wraps : u16 (j + i) ≡ j + i = omega arith in rw (lt→ltb j bound h, wraps)

-- With a positive step and no wrap the inner loop ends within its fuel.
pub mark_multiples-HasMarked :
    (f bound i j : ℕ) (m : Memory)
    → 1 ≤ i
    → bound + i ≤ 2 ^ 16
    → 1 ≤ f
    → bound < f + j
    → HasMarked bound i j m (mark_multiples f bound i j j m)
mark_multiples-HasMarked zero bound i j m hi hw pos hf = absurd (omega arith)
mark_multiples-HasMarked (suc f) bound i j m hi hw pos hf = elim (dec_lt j bound) [
  | yes below ↦
      let (m', e, w) =
        mark_multiples-HasMarked f bound i (j + i) (update m j 1) hi hw (omega arith)
          (omega arith) in
      (m', mark_multiples-step f bound i j m hw below ∙ e, Marked-step bound i j m m' below w)
  | no above ↦
      let past : bound ≤ j = omega arith in
      (m, mark_multiples-stop f bound i j m past, Marked-done bound i j m past)
]
