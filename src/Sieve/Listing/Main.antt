-- ===== src/Sieve/Listing/Main.antt =====
-- The whole of `main` in sieve.c: what the program lists.
use builds.Base.{
  ℕ, zero, suc, ◌+◌, ◌-◌, ◌*◌, ◌^◌, ◌≤◌, ◌<◌, ◌≡◌, ◌≢◌, ◌⊎◌, inl, inr, ◌↔◌, ap, arith, Memory, Bool,
  List, [], ◌∷◌, some,
}
use native.Mathlib.Decide.{ℕ_discrete}
use builds.Sieve.Primes.{IsPrime, sieve-IsPrime}
use builds.Sieve.Listing.{Listing, read_upper_key, list_primes, offer_list, run_main}
use builds.Sieve.Listing.Pages.{unset, unset-set, unset-unset, unset-zero, list_primes_lem}

abbrev pub Occurs : ℕ → List ℕ → Type 0
Occurs n [] = ⊥
Occurs n (x ∷ xs) = (n ≡ x) ⊎ Occurs n xs

Occurs-unset :
    (m : Memory) (n i k : ℕ) → Occurs n (unset m i k) ↔ ((m n ≡ 0) × (i ≤ n) × (n < i + k))
Occurs-unset m n i zero = rw unset-zero (λ h. absurd h, λ h. absurd (omega arith))
Occurs-unset m n i (suc k) =
    let ih = Occurs-unset m n (i + 1) k in
    elim (ℕ_discrete (m i) 0) [
      | yes e ↦ rw (unset-unset m i k e) (
        (λ h. elim h [
          | inl q ↦ (rw q e, omega arith, omega arith)
          | inr o ↦ let (z, p, q) = ih.0 o in (z, omega arith, omega arith)
        ]),
        λ h. elim (ℕ_discrete n i) [
          | yes q ↦ inl q
          | no q ↦ inr (ih.1 (h.0, omega arith, omega arith))
        ],
      )
      | no ne ↦ rw (unset-set m i k ne) (
        (λ o. let (z, p, q) = ih.0 o in (z, omega arith, omega arith)),
        λ h. elim (ℕ_discrete n i) [
          | yes q ↦ absurd (ne (rw (← q) h.0))
          | no q ↦ ih.1 (h.0, omega arith, omega arith)
        ],
      )
    ]

listed :
    (n : ℕ) (m : Memory) (bound : ℕ) (xs : List ℕ)
    → 2 ≤ bound
    → (2 ≤ n → n < bound → (m n ≡ 0) ↔ IsPrime n)
    → xs ≡ unset m 2 (bound - 2)
    → Occurs n xs ↔ (IsPrime n × (n < bound))
listed n m bound xs lo prime e = rw e (
  (λ o. let (z, p, q) = occ.0 o in ((prime p (omega arith)).0 z, omega arith)),
  λ h. occ.1 ((prime h.0.0 h.1).1 h.0, h.0.0, omega arith),
)
  where
    occ : Occurs n (unset m 2 (bound - 2)) ↔ ((m n ≡ 0) × (2 ≤ n) × (n < 2 + (bound - 2)))
    occ = Occurs-unset m n 2 (bound - 2)

module _ (toupper : ℕ → ℕ) (key : ℕ → ℕ) (hit : ℕ → Bool) where
  offer_list-goes_on :
      (m : Memory) (bound : ℕ)
      → toupper (key 0) ≢ b'Q'
      → offer_list toupper key hit bound m ≡ list_primes toupper key hit m bound 1
  unfolding offer_list read_upper_key
  offer_list-goes_on m bound h = ground arith

  -- With no Q among the keys, the program lists exactly the primes below the bound.
  pub run_main-IsPrime :
      (bound root : ℕ)
      → 2 ≤ root
      → root ≤ bound
      → bound ≤ root * root
      → bound + root ≤ 2 ^ 16
      → ((n : ℕ) → toupper (key n) ≢ b'Q')
      → (l : Listing) × (run_main toupper key hit bound root ≡ some l)
        × ((n : ℕ) → Occurs n l.printed ↔ (IsPrime n × (n < bound)))
  unfolding run_main
  run_main-IsPrime bound root hr hb hs hw h =
      let (m, e, prime, _) = sieve-IsPrime bound root hr hb hs hw in
      let l = list_primes toupper key hit m bound 1 in
      (
        l,
        rw e (ap some (offer_list-goes_on m bound (h 0))),
        λ n.
            listed n m bound l.printed (omega arith) (prime n)
              ((list_primes_lem toupper key hit m bound 1 (omega arith) (omega arith)).1 h),
      )
