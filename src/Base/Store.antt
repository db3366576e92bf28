-- ===== src/Base/Store.antt =====
-- Memory that the code writes in place: a byte for each address or index.
use Prim.Native.Nat.{ℕ, ◌+◌, ◌-◌, ◌<◌, ◌≤◌}
use mathlib.Core.Path.{◌≡◌, refl}
use mathlib.Core.Bool.{true, ◌&&◌}
use mathlib.Core.Logic.{◌≢◌, ◌⊎◌}
use native.Mathlib.Omega.{arith}
use builds.Base.Tests.{◌==◌, ltb, leb, if◌then◌else◌}

abbrev pub Memory : Type 0
Memory = ℕ → ℕ

unfoldable pub update : Memory → ℕ → ℕ → Memory
update m i v j = if i == j then v else m j

pub update_self : (m : Memory) (i v : ℕ) → update m i v i ≡ v
unfolding update
update_self m i v = ground arith

pub update_ne : (m : Memory) (i j v : ℕ) → i ≢ j → update m i v j ≡ m j
unfolding update
update_ne m i j v h = ground arith

-- `n` bytes of `f` are stored from `p` on.
unfoldable pub blit : Memory → ℕ → ℕ → (ℕ → ℕ) → Memory
blit m p n f i = if leb p i && ltb i (p + n) then f (i - p) else m i

pub blit-in : (m : Memory) (p n : ℕ) (f : ℕ → ℕ) (i : ℕ) → i < n → blit m p n f (p + i) ≡ f i
unfolding blit
blit-in m p n f i h =
    let e : (p + i) - p ≡ i = omega arith in
    let inside : (leb p (p + i) && ltb (p + i) (p + n)) ≡ true = ground arith in rw (inside, e) refl

pub blit-out :
    (m : Memory) (p n : ℕ) (f : ℕ → ℕ) (i : ℕ) → (i < p) ⊎ (p + n ≤ i) → blit m p n f i ≡ m i
unfolding blit
blit-out m p n f i h = ground arith
