-- ===== src/Plasma.antt =====
-- bin/cc65-snapshot-win32/samples/plasma.c, as compiled for a Commodore 64: two pages of 25 rows of 40
-- characters, each the sum of two waves, over a character set of random dots that `makechar` builds.
-- The locals of `doplasma` are static (`#pragma static-locals`): what it leaves in them is there at
-- the next call. The library's `rand` is a parameter.
pub mod Picture
pub mod Cycle
pub mod Dots
mod Tests
use builds.Base.{
  ℕ, zero, suc, ◌+◌, ◌-◌, ◌*◌, ltb, if◌then◌else◌, u8, u16, Memory, update, List, [], ◌∷◌, get_or,
  bit_and, bit_or,
}

abbrev pub page1 : ℕ
page1 = 0xE000

abbrev pub page2 : ℕ
page2 = 0xE400

pub sinustable : List ℕ
sinustable =
    0x80 ∷ 0x7d ∷ 0x7a ∷ 0x77 ∷ 0x74 ∷ 0x70 ∷ 0x6d ∷ 0x6a ∷ 0x67 ∷ 0x64 ∷ 0x61 ∷ 0x5e ∷ 0x5b ∷ 0x58
    ∷ 0x55 ∷ 0x52 ∷ 0x4f ∷ 0x4d ∷ 0x4a ∷ 0x47 ∷ 0x44 ∷ 0x41 ∷ 0x3f ∷ 0x3c ∷ 0x39 ∷ 0x37 ∷ 0x34
    ∷ 0x32 ∷ 0x2f ∷ 0x2d ∷ 0x2b ∷ 0x28 ∷ 0x26 ∷ 0x24 ∷ 0x22 ∷ 0x20 ∷ 0x1e ∷ 0x1c ∷ 0x1a ∷ 0x18
    ∷ 0x16 ∷ 0x15 ∷ 0x13 ∷ 0x11 ∷ 0x10 ∷ 0x0f ∷ 0x0d ∷ 0x0c ∷ 0x0b ∷ 0x0a ∷ 0x08 ∷ 0x07 ∷ 0x06
    ∷ 0x06 ∷ 0x05 ∷ 0x04 ∷ 0x03 ∷ 0x03 ∷ 0x02 ∷ 0x02 ∷ 0x02 ∷ 0x01 ∷ 0x01 ∷ 0x01 ∷ 0x01 ∷ 0x01
    ∷ 0x01 ∷ 0x01 ∷ 0x02 ∷ 0x02 ∷ 0x02 ∷ 0x03 ∷ 0x03 ∷ 0x04 ∷ 0x05 ∷ 0x06 ∷ 0x06 ∷ 0x07 ∷ 0x08
    ∷ 0x0a ∷ 0x0b ∷ 0x0c ∷ 0x0d ∷ 0x0f ∷ 0x10 ∷ 0x11 ∷ 0x13 ∷ 0x15 ∷ 0x16 ∷ 0x18 ∷ 0x1a ∷ 0x1c
    ∷ 0x1e ∷ 0x20 ∷ 0x22 ∷ 0x24 ∷ 0x26 ∷ 0x28 ∷ 0x2b ∷ 0x2d ∷ 0x2f ∷ 0x32 ∷ 0x34 ∷ 0x37 ∷ 0x39
    ∷ 0x3c ∷ 0x3f ∷ 0x41 ∷ 0x44 ∷ 0x47 ∷ 0x4a ∷ 0x4d ∷ 0x4f ∷ 0x52 ∷ 0x55 ∷ 0x58 ∷ 0x5b ∷ 0x5e
    ∷ 0x61 ∷ 0x64 ∷ 0x67 ∷ 0x6a ∷ 0x6d ∷ 0x70 ∷ 0x74 ∷ 0x77 ∷ 0x7a ∷ 0x7d ∷ 0x80 ∷ 0x83 ∷ 0x86
    ∷ 0x89 ∷ 0x8c ∷ 0x90 ∷ 0x93 ∷ 0x96 ∷ 0x99 ∷ 0x9c ∷ 0x9f ∷ 0xa2 ∷ 0xa5 ∷ 0xa8 ∷ 0xab ∷ 0xae
    ∷ 0xb1 ∷ 0xb3 ∷ 0xb6 ∷ 0xb9 ∷ 0xbc ∷ 0xbf ∷ 0xc1 ∷ 0xc4 ∷ 0xc7 ∷ 0xc9 ∷ 0xcc ∷ 0xce ∷ 0xd1
    ∷ 0xd3 ∷ 0xd5 ∷ 0xd8 ∷ 0xda ∷ 0xdc ∷ 0xde ∷ 0xe0 ∷ 0xe2 ∷ 0xe4 ∷ 0xe6 ∷ 0xe8 ∷ 0xea ∷ 0xeb
    ∷ 0xed ∷ 0xef ∷ 0xf0 ∷ 0xf1 ∷ 0xf3 ∷ 0xf4 ∷ 0xf5 ∷ 0xf6 ∷ 0xf8 ∷ 0xf9 ∷ 0xfa ∷ 0xfa ∷ 0xfb
    ∷ 0xfc ∷ 0xfd ∷ 0xfd ∷ 0xfe ∷ 0xfe ∷ 0xfe ∷ 0xff ∷ 0xff ∷ 0xff ∷ 0xff ∷ 0xff ∷ 0xff ∷ 0xff
    ∷ 0xfe ∷ 0xfe ∷ 0xfe ∷ 0xfd ∷ 0xfd ∷ 0xfc ∷ 0xfb ∷ 0xfa ∷ 0xfa ∷ 0xf9 ∷ 0xf8 ∷ 0xf6 ∷ 0xf5
    ∷ 0xf4 ∷ 0xf3 ∷ 0xf1 ∷ 0xf0 ∷ 0xef ∷ 0xed ∷ 0xeb ∷ 0xea ∷ 0xe8 ∷ 0xe6 ∷ 0xe4 ∷ 0xe2 ∷ 0xe0
    ∷ 0xde ∷ 0xdc ∷ 0xda ∷ 0xd8 ∷ 0xd5 ∷ 0xd3 ∷ 0xd1 ∷ 0xce ∷ 0xcc ∷ 0xc9 ∷ 0xc7 ∷ 0xc4 ∷ 0xc1
    ∷ 0xbf ∷ 0xbc ∷ 0xb9 ∷ 0xb6 ∷ 0xb3 ∷ 0xb1 ∷ 0xae ∷ 0xab ∷ 0xa8 ∷ 0xa5 ∷ 0xa2 ∷ 0x9f ∷ 0x9c
    ∷ 0x99 ∷ 0x96 ∷ 0x93 ∷ 0x90 ∷ 0x8c ∷ 0x89 ∷ 0x86 ∷ 0x83 ∷ []

-- The statics of `doplasma`, and the memory with the pages.
pub record Plasma : Type 0 where
  pub c1_a : ℕ
  pub c1_b : ℕ
  pub c2_a : ℕ
  pub c2_b : ℕ
  pub xbuf : Memory
  pub ybuf : Memory
  pub memory : Memory

pub sinus : ℕ → ℕ
sinus i = get_or sinustable i 0

-- `for (...) { buf[i] = sinustable[a] + sinustable[b]; a += da; b += db; }`, by the rounds left.
pub wave : ℕ → ℕ → ℕ → ℕ → ℕ → ℕ → Memory → Memory
wave zero i a b da db buf = buf
wave (suc left) i a b da db buf =
    wave left (u8 (i + 1)) (u8 (a + da)) (u8 (b + db)) da db (update buf i (u8 (sinus a + sinus b)))

-- `for (i = 0; i < 40; ++i, ++scrn) *scrn = xbuf[i] + ybuf[ii];`, by the rounds left.
pub draw_row : ℕ → ℕ → Memory → ℕ → ℕ → Memory → Memory
draw_row zero i xbuf y scrn m = m
draw_row (suc left) i xbuf y scrn m =
    draw_row left (u8 (i + 1)) xbuf y (scrn + 1) (update m scrn (u8 (xbuf i + y)))

-- `for (ii = 0; ii < 25; ++ii) ...`, by the rounds left.
pub draw : ℕ → ℕ → Memory → Memory → ℕ → Memory → Memory
draw zero ii xbuf ybuf scrn m = m
draw (suc left) ii xbuf ybuf scrn m =
    draw left (u8 (ii + 1)) xbuf ybuf (scrn + 40) (draw_row 40 0 xbuf (ybuf ii) scrn m)

pub doplasma : ℕ → Plasma → Plasma
doplasma scrn s =
    let ybuf = wave 25 0 s.c1_a s.c1_b 4 9 s.ybuf in
    let xbuf = wave 40 0 s.c2_a s.c2_b 3 7 s.xbuf in
    record {
      c1_a = u8 (s.c1_a + 3);
      c1_b = u8 (s.c1_b + 256 - 5);
      c2_a = u8 (s.c2_a + 2);
      c2_b = u8 (s.c2_b + 256 - 3);
      xbuf = xbuf;
      ybuf = ybuf;
      memory = draw 25 0 xbuf ybuf scrn s.memory;
    }

-- The main loop, by the rounds until a key is hit.
pub rounds : ℕ → Plasma → Plasma
rounds zero s = s
rounds (suc left) s = rounds left (doplasma page2 (doplasma page1 s))

abbrev pub charset : ℕ
charset = 0xE800

abbrev pub bittab : List ℕ
bittab = 0x01 ∷ 0x02 ∷ 0x04 ∷ 0x08 ∷ 0x10 ∷ 0x20 ∷ 0x40 ∷ 0x80 ∷ []

-- `if ((rand() & 0xFF) > s) b |= bittab[ii];`, where `r` is what `rand` returns.
pub set_dot : ℕ → ℕ → ℕ → ℕ → ℕ
set_dot r s ii b = if ltb s (bit_and r 0xFF) then bit_or b (get_or bittab ii 0) else b

-- The loop over `ii`, by the rounds left; `rand n` is what the call `n` of `rand` returns.
pub dot_row : ℕ → (ℕ → ℕ) → ℕ → ℕ → ℕ → ℕ → ℕ
dot_row zero rand n s ii b = b
dot_row (suc left) rand n s ii b =
    dot_row left rand (n + 1) s (u8 (ii + 1)) (set_dot (rand n) s ii b)

-- The loop over `i`, by the rounds left.
pub dot_rows : ℕ → (ℕ → ℕ) → ℕ → ℕ → ℕ → ℕ → Memory → Memory
dot_rows zero rand n c s i m = m
dot_rows (suc left) rand n c s i m =
    dot_rows left rand (n + 8) c s (u8 (i + 1))
      (update m (charset + (u16 (c * 8) + i)) (dot_row 8 rand n s 0 0))

-- The loop over `c`, by the rounds left.
pub dot_glyphs : ℕ → (ℕ → ℕ) → ℕ → ℕ → Memory → Memory
dot_glyphs zero rand n c m = m
dot_glyphs (suc left) rand n c m =
    dot_glyphs left rand (n + 64) (u16 (c + 1)) (dot_rows 8 rand n c (sinus c) 0 m)

pub makechar : (ℕ → ℕ) → Memory → Memory
makechar rand m = dot_glyphs 0x100 rand 0 0 m
