-- ===== src/Base/Finite.antt =====
-- Checking a Boolean test on all of a finite range.
use Prim.Native.Nat.{ℕ, zero, suc, ◌<◌, ◌+◌}
use mathlib.Core.Path.{◌≡◌}
use mathlib.Core.Logic.{inl, inr}
use mathlib.Core.Bool.{Bool, true, false, ◌&&◌}
use mathlib.Core.List.{List, [], ◌∷◌}
use native.Mathlib.Omega.{arith}
use native.Mathlib.Decide.{ℕ_discrete}
use builds.Base.Tests.{Bool-cases}

unfoldable pub all_below : ℕ → (ℕ → Bool) → Bool
all_below zero f = true
all_below (suc n) f = f n && all_below n f

pub all_below-true : (n : ℕ) (f : ℕ → Bool) (i : ℕ) → all_below n f ≡ true → i < n → f i ≡ true
unfolding all_below
all_below-true zero f i h below = absurd (omega arith)
all_below-true (suc n) f i h below = elim (ℕ_discrete i n) [
  | yes e ↦ rw (e) (ground arith)
  | no ne ↦ all_below-true n f i (ground arith) (omega arith)
]

-- All lists of `n` Booleans.
unfoldable pub all_bools : ℕ → (List Bool → Bool) → Bool
all_bools zero p = p []
all_bools (suc n) p = all_bools n (λ l. p (true ∷ l)) && all_bools n (λ l. p (false ∷ l))

-- The first `n` values of `f` from `k` on.
unfoldable pub values : ℕ → (ℕ → Bool) → ℕ → List Bool
values zero f k = []
values (suc n) f k = f k ∷ values n f (k + 1)

pub all_bools-true :
    (n : ℕ) (p : List Bool → Bool) (f : ℕ → Bool) (k : ℕ)
    → all_bools n p ≡ true
    → p (values n f k) ≡ true
unfolding all_bools values
all_bools-true zero p f k h = h
all_bools-true (suc n) p f k h = elim (Bool-cases (f k)) [
  | inl e ↦ rw (e) (all_bools-true n (λ l. p (true ∷ l)) f (k + 1) (ground arith))
  | inr e ↦ rw (e) (all_bools-true n (λ l. p (false ∷ l)) f (k + 1) (ground arith))
]
