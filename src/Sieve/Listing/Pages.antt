-- ===== src/Sieve/Listing/Pages.antt =====
-- What the listing of sieve.c prints, and the time that it shows.
use builds.Base.{
  ℕ, zero, suc, ◌+◌, ◌-◌, ◌*◌, ◌/◌, ◌%◌, ◌^◌, ◌≤◌, ◌<◌, ◌≡◌, refl, ◌≢◌, inl, inr, ◌∙◌, ap, sym,
  arith, ◌==◌, if◌then◌else◌, u16, u32, Memory, Bool, true, false, List, [], ◌∷◌, ◌++◌, Bool-cases,
}
use native.Mathlib.Nat.{div-add-mod'}
use mathlib.Core.List.{append_assoc, append-nil}
use builds.Sieve.Listing.{
  time_used, Listing, read_upper_key, print_number, poll_key, list_round, list_from, list_primes,
}

-- The numbers of `[i, i + n)` that the array leaves unset, in order.
pub unset : Memory → ℕ → ℕ → List ℕ
unset m i zero = []
unset m i (suc n) = let rest = unset m (i + 1) n in if m i == 0 then i ∷ rest else rest

pub unset-unset : (m : Memory) (i n : ℕ) → m i ≡ 0 → unset m i (suc n) ≡ i ∷ unset m (i + 1) n
unfolding unset
unset-unset m i n e = ground arith

pub unset-set : (m : Memory) (i n : ℕ) → m i ≢ 0 → unset m i (suc n) ≡ unset m (i + 1) n
unfolding unset
unset-set m i n e = ground arith

pub unset-zero : (m : Memory) (i : ℕ) → unset m i 0 ≡ []
unfolding unset
unset-zero m i = refl

module _ (toupper : ℕ → ℕ) (key : ℕ → ℕ) (hit : ℕ → Bool) where
  abbrev round : Memory → ℕ → Listing → Listing × Bool
  round = list_round toupper key hit

  -- A round prints its number if it is unset, whatever the keys.
  round-printed :
      (m : Memory) (i : ℕ) (s : Listing) → (round m i s).0.printed ≡ s.printed ++ unset m i 1
  unfolding list_round print_number poll_key unset
  round-printed m i s = ground (arith, append-nil s.printed)

  -- Only the key Q breaks.
  round-goes_on :
      (m : Memory) (i : ℕ) (s : Listing)
      → ((n : ℕ) → toupper (key n) ≢ b'Q')
      → (round m i s).1 ≡ false
  unfolding list_round print_number poll_key read_upper_key
  round-goes_on m i s h = ground (arith, h s.reads, h (s.reads + 1))

  unset-suc :
      (m : Memory) (i n : ℕ) (xs : List ℕ)
      → (xs ++ unset m i 1) ++ unset m (i + 1) n ≡ xs ++ unset m i (suc n)
  unfolding unset
  unset-suc m i n xs = ground (arith, append_assoc xs (i ∷ []) (unset m (i + 1) n), append-nil xs)

  list_from-step :
      (m : Memory) (left i : ℕ) (s : Listing)
      → i + 1 < 2 ^ 16
      → (round m i s).1 ≡ false
      → list_from toupper key hit m (suc left) i s
        ≡ list_from toupper key hit m left (i + 1) (round m i s).0
  unfolding list_from
  list_from-step m left i s w e = let wraps : u16 (i + 1) ≡ i + 1 = omega arith in rw (e, wraps)

  list_from-stop :
      (m : Memory) (left i : ℕ) (s : Listing)
      → (round m i s).1 ≡ true
      → list_from toupper key hit m (suc left) i s ≡ (round m i s).0
  unfolding list_from
  list_from-stop m left i s e = rw e

  -- What later rounds print after this one.
  then_printed :
      (m : Memory) (i n : ℕ) (s : Listing) (t : List ℕ)
      → t ≡ (round m i s).0.printed ++ unset m (i + 1) n
      → t ≡ s.printed ++ unset m i (suc n)
  then_printed m i n s t e =
      e ∙ ap (λ xs. xs ++ unset m (i + 1) n) (round-printed m i s) ∙ unset-suc m i n s.printed

  list_from-printed :
      (m : Memory) (left i : ℕ) (s : Listing)
      → i + left < 2 ^ 16
      → ((n : ℕ) → toupper (key n) ≢ b'Q')
      → (list_from toupper key hit m left i s).printed ≡ s.printed ++ unset m i left
  list_from-printed m zero i s w h = unfold list_from unset in sym (append-nil s.printed)
  list_from-printed m (suc left) i s w h = then_printed m i left s _ (
      ap (λ (l : Listing). l.printed)
        (list_from-step m left i s (omega arith) (round-goes_on m i s h))
      ∙ list_from-printed m left (i + 1) (round m i s).0 (omega arith) h)

  list_from-prefix :
      (m : Memory) (left i : ℕ) (s : Listing)
      → i + left < 2 ^ 16
      → (n : ℕ) × (n ≤ left)
        × ((list_from toupper key hit m left i s).printed ≡ s.printed ++ unset m i n)
  list_from-prefix m zero i s w =
      (0, omega arith, unfold list_from unset in sym (append-nil s.printed))
  list_from-prefix m (suc left) i s w = elim (Bool-cases (round m i s).1) [
    | inl quit ↦ (
      1,
      omega arith,
      ap (λ (l : Listing). l.printed) (list_from-stop m left i s quit) ∙ round-printed m i s,
    )
    | inr more ↦
        let (n, le, e) = list_from-prefix m left (i + 1) (round m i s).0 (omega arith) in
        (
          suc n,
          omega arith,
          then_printed m i n s _
              (ap (λ (l : Listing). l.printed) (list_from-step m left i s (omega arith) more) ∙ e),
        )
  ]

  -- Whatever keys are pressed, what is printed is a beginning of the list of the unset numbers from
  -- 2 on below the bound, in order; with no Q among the keys it is the whole of it.
  pub list_primes_lem :
      (m : Memory) (bound reads : ℕ)
      → 2 ≤ bound
      → bound < 2 ^ 16
      → ((n : ℕ) × (n ≤ bound - 2)
          × ((list_primes toupper key hit m bound reads).printed ≡ unset m 2 n))
        × (((n : ℕ) → toupper (key n) ≢ b'Q')
            → (list_primes toupper key hit m bound reads).printed ≡ unset m 2 (bound - 2))
  unfolding list_primes
  list_primes_lem m bound reads lo hi = (
    list_from-prefix m (bound - 2) 2 _ (omega arith),
    λ h. list_from-printed m (bound - 2) 2 _ (omega arith) h,
  )

div_bounds : (x c : ℕ) → 0 < c → (x / c * c ≤ x) × (x < (x / c + 1) * c)
div_bounds x c h = (omega arith, omega arith)

div-lt : (x c k : ℕ) → 0 < c → x < k * c → x / c < k
div-lt x c k h lt = grind arith

shown :
    (c x : ℕ)
    → 0 < c
    → let t = x / c * 1000 + x % c * 1000 / c in (t * c ≤ x * 1000) × (x * 1000 < (t + 1) * c)
shown c x h = (
  omega (arith, div-add-mod' x c, div_bounds (x % c * 1000) c h),
  omega (arith, div-add-mod' x c, div_bounds (x % c * 1000) c h),
)

-- The time shown is the time that passed between the two readings, in thousandths of a second
-- rounded down, also when the clock has gone round in between.
pub time_used_lem :
    (clocks_per_sec before passed : ℕ)
    → before < 2 ^ 32
    → passed < 65536 * clocks_per_sec
    → 0 < clocks_per_sec
    → clocks_per_sec < 65536
    → let t = time_used clocks_per_sec before ((before + passed) % 2 ^ 32) in
      (t.milli < 1000)
      × ((t.sec * 1000 + t.milli) * clocks_per_sec ≤ passed * 1000)
      × (passed * 1000 < (t.sec * 1000 + t.milli + 1) * clocks_per_sec)
unfolding time_used
time_used_lem cps before passed hb hp hc hc' =
    let whole : u32 ((before + passed) % 2 ^ 32 + 2 ^ 32 - before) ≡ passed = omega arith in
    let rest : passed % cps < cps = omega arith in
    let small : u32 (passed % cps * 1000) ≡ passed % cps * 1000 = omega arith in
    let sec : u16 (passed / cps) ≡ passed / cps = omega (arith, div-lt passed cps 65536 hc hp) in
    let lt : passed % cps * 1000 / cps < 1000 =
      div-lt (passed % cps * 1000) cps 1000 hc (omega arith) in
    let milli : u16 (passed % cps * 1000 / cps) ≡ passed % cps * 1000 / cps = omega arith in
    rw (whole, small, sec, milli) (lt, (shown cps passed hc).0, (shown cps passed hc).1)
