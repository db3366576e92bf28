-- ===== src/Sieve/Listing.antt =====
-- The rest of `main` in sieve.c: the time taken, and the list of the primes, a page of 23 at a time.
-- The C library's `clock` and `toupper` and the keyboard are parameters: `key n` is what the n-th
-- `cgetc` returns, and `hit i` what `kbhit` answers in the round of `I = i`.
pub mod Pages
pub mod Main
mod Tests
use builds.Base.{
  ℕ, zero, suc, ◌+◌, ◌-◌, ◌*◌, ◌/◌, ◌%◌, ◌^◌, ◌==◌, if◌then◌else◌, u16, u32, Memory, Bool, true,
  false, ◌&&◌, List, [], ◌∷◌, ◌++◌, Option,
}
use mathlib.Core.Option
use builds.Sieve.{sieve}

pub record Elapsed : Type 0 where
  pub sec : ℕ
  pub milli : ℕ

-- `Ticks = clock() - Ticks` and what is printed of it; `clock_t` is an `unsigned long`.
pub time_used : ℕ → ℕ → ℕ → Elapsed
time_used clocks_per_sec before after =
    let ticks = u32 (after + 2 ^ 32 - before) in
    record {
      sec = u16 (ticks / clocks_per_sec);
      milli = u16 (u32 (ticks % clocks_per_sec * 1000) / clocks_per_sec);
    }

abbrev pub page_length : ℕ
page_length = 23

-- The numbers printed so far, `J`, and how many keys have been read.
pub record Listing : Type 0 where
  pub printed : List ℕ
  pub j : ℕ
  pub reads : ℕ

module _ (toupper : ℕ → ℕ) (key : ℕ → ℕ) (hit : ℕ → Bool) where
  -- The key that the n-th call returns.
  pub read_upper_key : ℕ → ℕ
  read_upper_key n = toupper (key n)

  -- `printf ("%4d\n", I); if (++J == 23) { ... }`: the new state, and whether to break.
  pub print_number : ℕ → Listing → Listing × Bool
  print_number i s =
      let j = u16 (s.j + 1) in
      if j == page_length
      then (
        record { printed = s.printed ++ (i ∷ []); j = 0; reads = s.reads + 1 },
        read_upper_key s.reads == b'Q',
      )
      else (record s { printed = s.printed ++ (i ∷ []); j = j }, false)

  -- `if (kbhit() && ReadUpperKey () == 'Q') break;`
  pub poll_key : ℕ → Listing → Listing × Bool
  poll_key i s =
      if hit i
      then (record s { reads = s.reads + 1 }, read_upper_key s.reads == b'Q')
      else (s, false)

  -- The body of the loop for one `I`.
  pub list_round : Memory → ℕ → Listing → Listing × Bool
  list_round m i s =
      let (s', quit) = if m i == 0 then print_number i s else (s, false) in
      if quit then (s', true) else poll_key i s'

  -- `for (I = 2; I < COUNT; ++I)`, by the rounds left.
  pub list_from : Memory → ℕ → ℕ → Listing → Listing
  list_from m zero i s = s
  list_from m (suc left) i s =
      let (s', quit) = list_round m i s in
      let rest = list_from m left (u16 (i + 1)) s' in if quit then s' else rest

  -- The list, with `n` keys read before it.
  pub list_primes : Memory → ℕ → ℕ → Listing
  list_primes m bound n = list_from m (bound - 2) 2 (record { printed = []; j = 0; reads = n })

  -- `if (ReadUpperKey () != 'Q') { ... }`
  pub offer_list : ℕ → Memory → Listing
  offer_list bound m =
      if read_upper_key 0 == b'Q'
      then record { printed = []; j = 0; reads = 1 }
      else list_primes m bound 1

  -- `main`: the sieve, and then the list.
  pub run_main : ℕ → ℕ → Option Listing
  run_main bound root = Option.map (offer_list bound) (sieve bound root)
