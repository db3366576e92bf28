-- ===== src/Plasma/Dots.antt =====
-- The dots of the character set that `makechar` of plasma.c draws.
use builds.Base.{
  ℕ, zero, suc, ◌+◌, ◌*◌, ◌/◌, ◌%◌, ◌^◌, ◌≤◌, ◌<◌, ◌≡◌, refl, ap, ◌∙◌, arith, ltb, ◌==◌, ==→eq,
  if◌then◌else◌, u8, u16, Memory, update_self, update_ne, ◌⊎◌, inl, Bool, true, false, List, [],
  ◌∷◌, get_or, bit_and, bit_or, all_below, all_below-true, all_bools, all_bools-true, values,
}
use builds.Plasma.{charset, bittab, sinus, set_dot, dot_row, dot_rows, dot_glyphs, makechar}

abbrev pub bit : Bool → ℕ
bit b = if b then 1 else 0

-- A row of dots, when the tests have the outcomes of a list.
bool_row : List Bool → ℕ → ℕ → ℕ
bool_row [] ii b = b
bool_row (hot ∷ tests) ii b =
    bool_row tests (u8 (ii + 1)) (if hot then bit_or b (get_or bittab ii 0) else b)

is_row : List Bool → Bool
is_row l = all_below 8 (λ ii. bool_row l 0 0 / 2 ^ ii % 2 == bit (get_or l ii false))

all_rows : all_bools 8 is_row ≡ true
unfolding all_bools is_row bool_row all_below
all_rows = refl

-- The test for a dot.
abbrev hot : (ℕ → ℕ) → ℕ → ℕ → Bool
hot rand s n = ltb s (bit_and (rand n) 0xFF)

dot_row-bool_row :
    (left : ℕ) (rand : ℕ → ℕ) (n s ii b : ℕ)
    → dot_row left rand n s ii b ≡ bool_row (values left (hot rand s) n) ii b
unfolding dot_row bool_row values set_dot
dot_row-bool_row zero rand n s ii b = refl
dot_row-bool_row (suc left) rand n s ii b =
    dot_row-bool_row left rand (n + 1) s (u8 (ii + 1)) (set_dot (rand n) s ii b)

get_or-values : (n : ℕ) (f : ℕ → Bool) (k i : ℕ) → i < n → get_or (values n f k) i false ≡ f (k + i)
unfolding values
get_or-values zero f k i h = absurd (omega arith)
get_or-values (suc n) f k zero h = ap f (omega arith)
get_or-values (suc n) f k (suc i) h = get_or-values n f (k + 1) i (omega arith) ∙ ap f (omega arith)

dot_row-bit :
    (rand : ℕ → ℕ) (n s ii : ℕ)
    → ii < 8
    → dot_row 8 rand n s 0 0 / 2 ^ ii % 2 ≡ bit (hot rand s (n + ii))
unfolding is_row
dot_row-bit rand n s ii h =
    let row = all_bools-true 8 is_row (hot rand s) n all_rows in
    ap (λ b. b / 2 ^ ii % 2) (dot_row-bool_row 8 rand n s 0 0)
    ∙ ==→eq _ _ (all_below-true 8 _ ii row h)
    ∙ ap bit (get_or-values 8 (hot rand s) n ii h)

dot_rows-elsewhere :
    (left : ℕ) (rand : ℕ → ℕ) (n c s i : ℕ) (m : Memory) (p : ℕ)
    → c < 256
    → i + left ≤ 8
    → (p < charset + c * 8 + i) ⊎ (charset + c * 8 + 8 ≤ p)
    → dot_rows left rand n c s i m p ≡ m p
unfolding dot_rows
dot_rows-elsewhere zero rand n c s i m p hc room h = refl
dot_rows-elsewhere (suc left) rand n c s i m p hc room h =
    dot_rows-elsewhere left rand (n + 8) c s (u8 (i + 1)) _ p hc (omega arith) (omega arith)
    ∙ update_ne m _ p _ (omega arith)

dot_rows-at :
    (left : ℕ) (rand : ℕ → ℕ) (n c s i : ℕ) (m : Memory) (k : ℕ)
    → c < 256
    → i + left ≤ 8
    → k < left
    → dot_rows left rand n c s i m (charset + c * 8 + i + k) ≡ dot_row 8 rand (n + k * 8) s 0 0
unfolding dot_rows
dot_rows-at zero rand n c s i m k hc room h = absurd (omega arith)
dot_rows-at (suc left) rand n c s i m zero hc room h =
    ap (dot_rows (suc left) rand n c s i m) (omega arith)
    ∙ dot_rows-elsewhere left rand (n + 8) c s (u8 (i + 1)) _ (charset + (u16 (c * 8) + i)) hc
        (omega arith) (omega arith)
    ∙ update_self m (charset + (u16 (c * 8) + i)) _
    ∙ ap (λ j. dot_row 8 rand j s 0 0) (omega arith)
dot_rows-at (suc left) rand n c s i m (suc k) hc room h =
    ap (dot_rows (suc left) rand n c s i m) (omega arith)
    ∙ dot_rows-at left rand (n + 8) c s (u8 (i + 1)) _ k hc (omega arith) (omega arith)
    ∙ ap (λ j. dot_row 8 rand j s 0 0) (omega arith)

dot_glyphs-elsewhere :
    (left : ℕ) (rand : ℕ → ℕ) (n c : ℕ) (m : Memory) (p : ℕ)
    → c + left ≤ 256
    → p < charset + c * 8
    → dot_glyphs left rand n c m p ≡ m p
unfolding dot_glyphs
dot_glyphs-elsewhere zero rand n c m p room h = refl
dot_glyphs-elsewhere (suc left) rand n c m p room h =
    dot_glyphs-elsewhere left rand (n + 64) (u16 (c + 1)) _ p (omega arith) (omega arith)
    ∙ dot_rows-elsewhere 8 rand n c (sinus c) 0 m p (omega arith) (omega arith) (inl (omega arith))

dot_glyphs-at :
    (left : ℕ) (rand : ℕ → ℕ) (n c : ℕ) (m : Memory) (k i : ℕ)
    → c + left ≤ 256
    → k < left
    → i < 8
    → dot_glyphs left rand n c m (charset + (c + k) * 8 + i)
      ≡ dot_row 8 rand (n + k * 64 + i * 8) (sinus (c + k)) 0 0
unfolding dot_glyphs
dot_glyphs-at zero rand n c m k i room h hi = absurd (omega arith)
dot_glyphs-at (suc left) rand n c m zero i room h hi =
    ap (dot_glyphs (suc left) rand n c m) (omega arith)
    ∙ dot_glyphs-elsewhere left rand (n + 64) (u16 (c + 1)) _ (charset + c * 8 + 0 + i)
        (omega arith) (omega arith)
    ∙ dot_rows-at 8 rand n c (sinus c) 0 m i (omega arith) (omega arith) hi
    ∙ ap (λ j. dot_row 8 rand j (sinus c) 0 0) (omega arith)
    ∙ ap (λ j. dot_row 8 rand (n + zero * 64 + i * 8) (sinus j) 0 0) (omega arith)
dot_glyphs-at (suc left) rand n c m (suc k) i room h hi =
    ap (dot_glyphs (suc left) rand n c m) (omega arith)
    ∙ dot_glyphs-at left rand (n + 64) (u16 (c + 1)) _ k i (omega arith) (omega arith) hi
    ∙ ap (λ j. dot_row 8 rand j (sinus (u16 (c + 1) + k)) 0 0) (omega arith)
    ∙ ap (λ j. dot_row 8 rand (n + suc k * 64 + i * 8) (sinus j) 0 0) (omega arith)

-- In the set that `makechar` draws, each dot of each character is set just if the byte that `rand` gave for it
-- is above the sine for the character: `rand` is called once for a dot, in order of characters, rows and dots.
pub makechar-dots :
    (rand : ℕ → ℕ) (m : Memory) (c i ii : ℕ)
    → c < 256
    → i < 8
    → ii < 8
    → makechar rand m (charset + c * 8 + i) / 2 ^ ii % 2
      ≡ bit (ltb (sinus c) (bit_and (rand (c * 64 + i * 8 + ii)) 0xFF))
unfolding makechar
makechar-dots rand m c i ii hc hi hii =
    let row : makechar rand m (charset + c * 8 + i)
        ≡ dot_row 8 rand (c * 64 + i * 8) (sinus c) 0 0 =
      ap (dot_glyphs 256 rand 0 0 m) (omega arith)
      ∙ dot_glyphs-at 256 rand 0 0 m c i (omega arith) hc hi
      ∙ ap (λ j. dot_row 8 rand j (sinus (0 + c)) 0 0) (omega arith)
      ∙ ap (λ j. dot_row 8 rand (c * 64 + i * 8) (sinus j) 0 0) (omega arith) in
    ap (λ b. b / 2 ^ ii % 2) row ∙ dot_row-bit rand (c * 64 + i * 8) (sinus c) ii hii
