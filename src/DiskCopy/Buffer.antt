-- ===== src/DiskCopy/Buffer.antt =====
-- What `AllocBuffer` of diodemo.c allocates.
use builds.Base.{
  ℕ, zero, suc, ◌+◌, ◌-◌, ◌*◌, ◌/◌, ◌^◌, u32, ◌≤◌, ◌<◌, ◌≡◌, refl, ap, ◌∙◌, sym, arith, leb, u16,
  true, false, Option, none, some, Option-cases, inl, inr, ◌⊎◌,
}
use native.Mathlib.Nat.{lt-div-mul-add, div-le_self, le-div_iff_mul-le, mul-le-mul, mul-le-mul_left}
use native.Mathlib.Decide.{dec_lt, ℕ_discrete}
use builds.DiskCopy.{uint_max, chunk_count, attempt, Allocation, alloc_from, alloc_buffer}

alloc_from-found :
    (fuel : ℕ) (malloc : ℕ → Option ℕ) (size n chunks b : ℕ)
    → attempt malloc size (chunk_count n chunks) ≡ some b
    → alloc_from (suc fuel) malloc size n chunks
      ≡ some (record { address = some b; per_chunk = chunk_count n chunks })
unfolding alloc_from
alloc_from-found fuel malloc size n chunks b e = rw (alloc_from, e) refl

alloc_from-next :
    (fuel : ℕ) (malloc : ℕ → Option ℕ) (size n chunks : ℕ)
    → attempt malloc size (chunk_count n chunks) ≡ none
    → chunks < 10
    → alloc_from (suc fuel) malloc size n chunks ≡ alloc_from fuel malloc size n (chunks + 1)
unfolding alloc_from
alloc_from-next fuel malloc size n chunks e more =
    let next : u16 (chunks + 1) ≡ chunks + 1 = omega arith in
    let go : leb (chunks + 1) 10 ≡ true = ground arith in rw (alloc_from, e, next, go) refl

alloc_from-last :
    (fuel : ℕ) (malloc : ℕ → Option ℕ) (size n chunks : ℕ)
    → attempt malloc size (chunk_count n chunks) ≡ none
    → chunks ≡ 10
    → alloc_from (suc fuel) malloc size n chunks
      ≡ some (record { address = none; per_chunk = chunk_count n chunks })
unfolding alloc_from
alloc_from-last fuel malloc size n chunks e last =
    let stop : leb (u16 (chunks + 1)) 10 ≡ false = ground arith in rw (alloc_from, e, stop) refl

-- The division of the sectors at which the loop ends: the first that can be allocated, or the last.
pub record Choice (malloc : ℕ → Option ℕ) (size n chunks k : ℕ) : Type 0 where
  pub low : chunks ≤ k
  pub high : k ≤ 10
  pub skipped : (j : ℕ) → chunks ≤ j → j < k → attempt malloc size (chunk_count n j) ≡ none
  pub final : (k ≡ 10) ⊎ ((b : ℕ) × (attempt malloc size (chunk_count n k) ≡ some b))

-- The result at the division `k`.
abbrev pub at_division : (ℕ → Option ℕ) → ℕ → ℕ → ℕ → Allocation
at_division malloc size n k = record {
  address = attempt malloc size (chunk_count n k);
  per_chunk = chunk_count n k;
}

Choice-suc :
    (malloc : ℕ → Option ℕ) (size n chunks k : ℕ)
    → attempt malloc size (chunk_count n chunks) ≡ none
    → Choice malloc size n (chunks + 1) k
    → Choice malloc size n chunks k
Choice-suc malloc size n chunks k e c = record {
  low = omega arith;
  high = c.high;
  skipped = λ j lo hi. elim (ℕ_discrete j chunks) [
    | yes same ↦ rw (same) e
    | no other ↦ c.skipped j (omega arith) hi
  ];
  final = c.final;
}

alloc_from-Choice :
    (fuel : ℕ) (malloc : ℕ → Option ℕ) (size n chunks : ℕ)
    → 0 < chunks
    → chunks ≤ 10
    → 11 ≤ fuel + chunks
    → (k : ℕ) × Choice malloc size n chunks k
      × (alloc_from fuel malloc size n chunks ≡ some (at_division malloc size n k))
alloc_from-Choice zero malloc size n chunks low high enough = absurd (omega arith)
alloc_from-Choice (suc fuel) malloc size n chunks low high enough =
    elim (Option-cases (attempt malloc size (chunk_count n chunks))) [
      | inr (b, e) ↦ (
        chunks,
        record {
          low = omega arith;
          high = high;
          skipped = λ j lo hi. absurd (omega arith);
          final = inr (b, e);
        },
        alloc_from-found fuel malloc size n chunks b e
            ∙ ap (λ o. some (record { address = o; per_chunk = chunk_count n chunks })) (sym e),
      )
      | inl e ↦ elim (dec_lt chunks 10) [
        | yes more ↦
            let (k, c, r) =
              alloc_from-Choice fuel malloc size n (chunks + 1) (omega arith) (omega arith)
                (omega arith) in
            (
              k,
              Choice-suc malloc size n chunks k e c,
              alloc_from-next fuel malloc size n chunks e more ∙ r,
            )
        | no last ↦ (
          chunks,
          record {
            low = omega arith;
            high = high;
            skipped = λ j lo hi. absurd (omega arith);
            final = inl (omega arith);
          },
          alloc_from-last fuel malloc size n chunks e (omega arith)
              ∙ ap (λ o. some (record { address = o; per_chunk = chunk_count n chunks })) (sym e),
        )
      ]
    ]

-- With ten rounds of fuel or more, and whatever `malloc` does, the loop ends at one of the divisions of
-- the sectors into 1 to 10 chunks: the first for which the allocation succeeds, or the tenth, with what
-- the allocation gives there and that number of sectors.
pub alloc_buffer-Choice :
    (fuel : ℕ) (malloc : ℕ → Option ℕ) (size n : ℕ)
    → 10 ≤ fuel
    → (k : ℕ) × Choice malloc size n 1 k
      × (alloc_buffer fuel malloc size n ≡ some (at_division malloc size n k))
unfolding alloc_buffer
alloc_buffer-Choice fuel malloc size n enough =
    alloc_from-Choice fuel malloc size n 1 (omega arith) (omega arith) (omega arith)

attempt-some :
    (malloc : ℕ → Option ℕ) (size count b : ℕ)
    → count * size < 2 ^ 32
    → attempt malloc size count ≡ some b
    → (malloc (count * size) ≡ some b) × (count * size < uint_max)
unfolding attempt
attempt-some malloc size count b room h =
    let whole : u32 (count * size) ≡ count * size = omega arith in
    let h' = rw (whole) at h in ground arith

chunk_count_lem :
    (n k : ℕ)
    → 0 < k
    → k ≤ 10
    → n + 9 < 2 ^ 16
    → (n ≤ chunk_count n k * k) × (chunk_count n k < 2 ^ 16) × ((n ≡ 0) ⊎ (0 < chunk_count n k))
unfolding chunk_count
chunk_count_lem n k lo hi room =
    let whole : u16 (n + k + 2 ^ 16 - 1) ≡ n + k - 1 = omega arith in
    let up = lt-div-mul-add {a = n + k - 1} {b = k} lo in
    let down = div-le_self (n + k - 1) k in
    let one : (0 < n) → 1 ≤ (n + k - 1) / k =
      λ some_sectors. (le-div_iff_mul-le {x = 1} {y = n + k - 1} lo).1 (omega arith) in
    rw (whole) (
      omega arith,
      omega arith,
      elim (ℕ_discrete n 0) [ yes none_left ↦ inl none_left | no more ↦ inr (one (omega arith)) ],
    )

at_division-fits :
    (malloc : ℕ → Option ℕ) (size n k b : ℕ)
    → size < 2 ^ 16
    → n + 9 < 2 ^ 16
    → 0 < k
    → k ≤ 10
    → attempt malloc size (chunk_count n k) ≡ some b
    → (malloc (chunk_count n k * size) ≡ some b)
      × (chunk_count n k * size < uint_max)
      × (n ≤ chunk_count n k * 10)
      × ((n ≡ 0) ⊎ (0 < chunk_count n k))
at_division-fits malloc size n k b hs hn lo hi got =
    let (enough, word, progress) = chunk_count_lem n k lo hi hn in
    let room : chunk_count n k * size ≤ 65535 * 65535 =
      mul-le-mul {n₁ = chunk_count n k} {m₁ = size} {n₂ = 65535} {m₂ = 65535} (omega arith)
        (omega arith) in
    let tenfold : chunk_count n k * k ≤ chunk_count n k * 10 =
      mul-le-mul_left (chunk_count n k) hi in
    let (given, below) = attempt-some malloc size (chunk_count n k) b (omega arith) got in
    (given, below, omega arith, progress)

-- If `AllocBuffer` returns a buffer for a drive with at most 65526 sectors, that is what `malloc` returned
-- for the size of one chunk, which is below UINT_MAX; ten chunks are enough for all the sectors, and a
-- chunk is empty only if there are none.
pub alloc_buffer-fits :
    (malloc : ℕ → Option ℕ) (size n b : ℕ) (a : Allocation)
    → size < 2 ^ 16
    → n + 9 < 2 ^ 16
    → alloc_buffer 10 malloc size n ≡ some a
    → a.address ≡ some b
    → (malloc (a.per_chunk * size) ≡ some b)
      × (a.per_chunk * size < uint_max)
      × (n ≤ a.per_chunk * 10)
      × ((n ≡ 0) ⊎ (0 < a.per_chunk))
alloc_buffer-fits malloc size n b a hs hn e got =
    let (k, c, r) = alloc_buffer-Choice 10 malloc size n (omega arith) in
    let same : a ≡ at_division malloc size n k = cc in
    let got' = rw (same) at got in
    rw (same) (at_division-fits malloc size n k b hs hn (omega arith) c.high got')
