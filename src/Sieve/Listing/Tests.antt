-- ===== src/Sieve/Listing/Tests.antt =====
-- Runs of the listing of sieve.c, and its theorems at concrete inputs.
use builds.Base.{
  ℕ, ◌+◌, ◌-◌, ◌*◌, ◌%◌, ◌^◌, ◌≤◌, ◌<◌, ◌≡◌, refl, ◌≢◌, ◌↔◌, some, arith, Bool, false,
}
use builds.Sieve.{cleared}
use builds.Sieve.Listing.{
  Listing, run_main, list_primes, list_from, list_round, print_number, poll_key,
}
use builds.Sieve.Listing.{read_upper_key, time_used}
use builds.Sieve.Primes.{IsPrime}
use builds.Sieve.Listing.Main.{Occurs, run_main-IsPrime}
use builds.Sieve.Listing.Pages.{unset, list_primes_lem, time_used_lem}

abbrev never : ℕ → Bool
never i = false

abbrev other_key : ℕ → ℕ
other_key n = b'A'

abbrev quit_key : ℕ → ℕ
quit_key n = b'Q'

abbrev same : ℕ → ℕ
same c = c

-- With Q for an answer the listing stops after one page.
first_page :
    (list_primes same quit_key never cleared 100 1).printed
    ≡ (list_primes same other_key never cleared 25 1).printed
unfolding list_primes list_from list_round print_number poll_key read_upper_key
first_page = refl

half_second : (time_used 60 100 130).milli ≡ 500
unfolding time_used
half_second = refl

list_primes_lem_example :
    ((n : ℕ) × (n ≤ 28)
      × ((list_primes same other_key never cleared 30 1).printed ≡ unset cleared 2 n))
    × (((n : ℕ) → same (other_key n) ≢ b'Q')
        → (list_primes same other_key never cleared 30 1).printed ≡ unset cleared 2 28)
list_primes_lem_example =
    list_primes_lem same other_key never cleared 30 1 (omega arith) (omega arith)

time_used_lem_example :
    let t = time_used 60 (2 ^ 32 - 10) ((2 ^ 32 - 10 + 130) % 2 ^ 32) in
    (t.milli < 1000)
    × ((t.sec * 1000 + t.milli) * 60 ≤ 130 * 1000)
    × (130 * 1000 < (t.sec * 1000 + t.milli + 1) * 60)
time_used_lem_example =
    time_used_lem 60 (2 ^ 32 - 10) 130 (omega arith) (omega arith) (omega arith) (omega arith)

no_quit : (n : ℕ) → same (other_key n) ≢ b'Q'
no_quit n = omega arith

run_main-IsPrime_example :
    (l : Listing) × (run_main same other_key never 30 6 ≡ some l)
    × ((n : ℕ) → Occurs n l.printed ↔ (IsPrime n × (n < 30)))
run_main-IsPrime_example =
    run_main-IsPrime same other_key never 30 6 (omega arith) (omega arith) (omega arith)
      (omega arith) no_quit
