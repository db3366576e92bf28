-- ===== src/Mandelbrot/Orbit.antt =====
-- The iterations of mandelbrot.c: no number in them overflows, so that they follow the orbit in fixed point
-- with numbers without bound.
use builds.Base.{
  ℕ, zero, suc, ◌+◌, ◌*◌, ◌^◌, ◌≤◌, ◌<◌, ◌≡◌, refl, ap, ◌∙◌, sym, arith, ltb, u8, true, Bool-cases,
  ◌⊎◌, inl, inr, ℤ, pos, negsuc, pos_part, neg_part, ◌+ℤ◌, ◌-ℤ◌, ◌*ℤ◌, ltb_ℤ, div_floor, s16,
  s16-fits,
}
use mathlib.Core.Bool.{true≢false}
use native.Mathlib.Nat.{mul-le-mul}
use builds.Mandelbrot.{Complex, abs, mulfp, iterate, is_near, iterations, maxiterations, origin}

-- The step from z to z² + c in multiples of 1/1024 without bound: (r + i·1i)² has the parts r² - i² and
-- 2·r·i, and each of the products r², i² and 2·r·i is rounded down.
unfoldable pub fixed_step : Complex → Complex → Complex
fixed_step c z = record {
  r = div_floor (z.r *ℤ z.r) 1024 -ℤ div_floor (z.i *ℤ z.i) 1024 +ℤ c.r;
  i = div_floor (pos 2 *ℤ (z.r *ℤ z.i)) 1024 +ℤ c.i;
}

floor_twice : (a : ℤ) → div_floor (pos 2 *ℤ a) 1024 ≡ div_floor a (2 ^ 9)
unfolding div_floor ◌*ℤ◌
floor_twice (pos a) = ground arith
floor_twice (negsuc a) = ground arith

-- The size of a number.
abbrev pub size : ℤ → ℕ
size a = pos_part a + neg_part a

-- The constants lie between -4 and 4: what the screen covers.
pub record InRange (c : Complex) : Type 0 where
  pub r : size c.r ≤ 4096
  pub i : size c.i ≤ 4096

near_size : (a : ℤ) → size a < 32768 → ltb_ℤ (abs a) (pos 2048) ≡ true → size a < 2048
unfolding s16 ◌-ℤ◌
near_size (pos a) lo h = ground arith
near_size (negsuc a) lo h = ground arith

product : (a b : ℤ) → size a < 2048 → size b < 2048 → size (a *ℤ b) ≤ 4190209
unfolding ◌*ℤ◌
product (pos a) (pos b) h k =
    let m : a * b ≤ 2047 * 2047 =
      mul-le-mul {n₁ = a} {m₁ = b} {n₂ = 2047} {m₂ = 2047} (omega arith) (omega arith) in
    ground arith
product (pos a) (negsuc b) h k =
    let m : a * suc b ≤ 2047 * 2047 =
      mul-le-mul {n₁ = a} {m₁ = suc b} {n₂ = 2047} {m₂ = 2047} (omega arith) (omega arith) in
    ground arith
product (negsuc a) (pos b) h k =
    let m : suc a * b ≤ 2047 * 2047 =
      mul-le-mul {n₁ = suc a} {m₁ = b} {n₂ = 2047} {m₂ = 2047} (omega arith) (omega arith) in
    ground arith
product (negsuc a) (negsuc b) h k =
    let m : suc a * suc b ≤ 2047 * 2047 =
      mul-le-mul {n₁ = suc a} {m₁ = suc b} {n₂ = 2047} {m₂ = 2047} (omega arith) (omega arith) in
    ground arith

half : (a : ℤ) → size a ≤ 4190209 → size (div_floor a (2 ^ 9)) ≤ 8185
unfolding div_floor
half (pos a) h = omega arith
half (negsuc a) h = omega arith

whole : (a : ℤ) → size a ≤ 4190209 → size (div_floor a (2 ^ 10)) ≤ 4093
unfolding div_floor
whole (pos a) h = omega arith
whole (negsuc a) h = omega arith

size-add : (a b : ℤ) → size (a +ℤ b) ≤ size a + size b
unfolding ◌+ℤ◌
size-add a b = ground arith

size-sub : (a b : ℤ) → size (a -ℤ b) ≤ size a + size b
unfolding ◌-ℤ◌
size-sub a b = ground arith

s16-id : (a : ℤ) → size a < 32768 → s16 a ≡ a
s16-id a h = s16-fits a (ground arith) (ground arith)

-- A point near the origin.
pub record IsSmall (k : ℕ) (z : Complex) : Type 0 where
  pub r : size z.r < k
  pub i : size z.i < k

near-IsSmall : (z : Complex) → IsSmall 32768 z → is_near z ≡ true → IsSmall 2048 z
unfolding is_near
near-IsSmall z small near = record {
  r = near_size z.r small.r (ground arith);
  i = near_size z.i small.i (ground arith);
}

small_abs : (a : ℤ) → size a < 2048 → ltb_ℤ (abs a) (pos 2048) ≡ true
unfolding s16 ◌-ℤ◌
small_abs (pos a) h = ground arith
small_abs (negsuc a) h = ground arith

IsSmall-near : (z : Complex) → IsSmall 2048 z → is_near z ≡ true
unfolding is_near
IsSmall-near z small = rw (small_abs z.r small.r, small_abs z.i small.i) refl

fixed_step-IsSmall : (c z : Complex) → InRange c → IsSmall 2048 z → IsSmall 32768 (fixed_step c z)
unfolding fixed_step
fixed_step-IsSmall c z inside small =
    let rr = whole (z.r *ℤ z.r) (product z.r z.r small.r small.r) in
    let ii = whole (z.i *ℤ z.i) (product z.i z.i small.i small.i) in
    let ri : size (div_floor (pos 2 *ℤ (z.r *ℤ z.i)) 1024) ≤ 8185 =
      rw (floor_twice (z.r *ℤ z.i)) (half (z.r *ℤ z.i) (product z.r z.i small.r small.i)) in
    let difference = size-sub (div_floor (z.r *ℤ z.r) 1024) (div_floor (z.i *ℤ z.i) 1024) in
    let real = size-add (div_floor (z.r *ℤ z.r) 1024 -ℤ div_floor (z.i *ℤ z.i) 1024) c.r in
    let imaginary = size-add (div_floor (pos 2 *ℤ (z.r *ℤ z.i)) 1024) c.i in
    let cr = inside.r in let ci = inside.i in record { r = omega arith; i = omega arith }

abbrev complex : ℤ → ℤ → Complex
complex a b = record { r = a; i = b }

iterate-fixed : (c z : Complex) → IsSmall 32768 (fixed_step c z) → iterate c z ≡ fixed_step c z
unfolding iterate fixed_step mulfp
iterate-fixed c z small =
    let imaginary =
      ap (λ d. s16 (d +ℤ c.i)) (sym (floor_twice (z.r *ℤ z.i)))
      ∙ s16-id (fixed_step c z).i small.i in
    λ j. complex (s16-id (fixed_step c z).r small.r j) (imaginary j)

-- The points that the steps reach from the origin.
unfoldable pub orbit : Complex → ℕ → Complex
orbit c zero = origin
orbit c (suc n) = fixed_step c (orbit c n)

-- The number of steps that the orbit stays between -2 and 2, or 32.
pub record IsEscape (c : Complex) (n : ℕ) : Type 0 where
  pub limit : n ≤ maxiterations
  pub before : (k : ℕ) → k < n → IsSmall 2048 (orbit c k)
  pub ends : (n ≡ maxiterations) ⊎ ¬ IsSmall 2048 (orbit c n)

iterations-from :
    (left count : ℕ) (c : Complex)
    → left + count ≡ maxiterations
    → InRange c
    → IsSmall 32768 (orbit c count)
    → ((k : ℕ) → k < count → IsSmall 2048 (orbit c k))
    → IsEscape c (iterations left count c (orbit c count))
unfolding iterations orbit
iterations-from zero count c all inside here before = record {
  limit = omega arith;
  before = before;
  ends = inl (omega arith);
}
iterations-from (suc left) count c all inside here before =
    elim (Bool-cases (is_near (orbit c count))) [
      | inl near ↦
          let small = near-IsSmall (orbit c count) here near in
          let reached = fixed_step-IsSmall c (orbit c count) inside small in
          let step : u8 (count + 1) ≡ suc count = omega arith in
          let grown : (k : ℕ) → k < suc count → IsSmall 2048 (orbit c k) = λ k h.
            elim (Bool-cases (ltb k count)) [
              | inl less ↦ before k (ground arith)
              | inr last ↦ let same : k ≡ count = ground arith in rw (same) small
            ] in
          rw (iterations, near, step, iterate-fixed c (orbit c count) reached)
            (iterations-from left (suc count) c (omega arith) inside reached grown)
      | inr far ↦
          rw (iterations, far)
            (record {
              limit = omega arith;
              before = before;
              ends = inr (λ small. true≢false (sym (IsSmall-near (orbit c count) small) ∙ far));
            })
    ]

-- With a constant that is at most 4 in both parts: the loop counts the steps that the orbit of the constant
-- stays between -2 and 2 in both parts, up to 32 of them.
pub iterations-IsEscape :
    (c : Complex) → InRange c → IsEscape c (iterations maxiterations 0 c origin)
unfolding orbit
iterations-IsEscape c inside =
    iterations-from maxiterations 0 c refl inside (record { r = omega arith; i = omega arith })
      (λ k h. omega arith)
