-- ===== src/Base/Word.antt =====
-- The integer types of cc65: `unsigned char` has 8 bits, `unsigned` 16 and `unsigned long` 32.
use Prim.Native.Nat.{ℕ, ◌%◌, ◌^◌, ◌/◌, ◌*◌}

abbrev pub u8 : ℕ → ℕ
u8 n = n % 2 ^ 8

abbrev pub u16 : ℕ → ℕ
u16 n = n % 2 ^ 16

abbrev pub u32 : ℕ → ℕ
u32 n = n % 2 ^ 32

infixl 75 ◌<<<◌ ◌>>>◌
abbrev pub ◌<<<◌ : ℕ → ℕ → ℕ
x <<< k = x * 2 ^ k

abbrev pub ◌>>>◌ : ℕ → ℕ → ℕ
x >>> k = x / 2 ^ k
