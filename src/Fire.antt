-- ===== src/Fire.antt =====
-- bin/cc65-snapshot-win32/samples/fire.c, as compiled for a Commodore 64: a flame in a buffer of 25 rows of 40
-- characters, which `fire` cools, moves up and copies to a page of the screen, over a character set
-- of growing brightness that `makechar` builds. The memory is that of the machine, by address; what
-- the SID's noise register reads is a parameter.
pub mod Flame
pub mod Pages
pub mod Charset
mod Tests
use builds.Base.{
  ℕ, zero, suc, ◌+◌, ◌-◌, ◌*◌, ◌/◌, ◌%◌, ◌==◌, ltb, if◌then◌else◌, u8, ◌>>>◌, Memory, update, List,
  [], ◌∷◌, get_or, bit_and,
}

abbrev pub buffer : ℕ
buffer = 0x0400

abbrev pub screen1 : ℕ
screen1 = 0xE000

abbrev pub screen2 : ℕ
screen2 = 0xE400

abbrev pub charset : ℕ
charset = 0xE800

abbrev pub bittab : List ℕ
bittab = 0x01 ∷ 0x02 ∷ 0x04 ∷ 0x08 ∷ 0x10 ∷ 0x20 ∷ 0x40 ∷ 0x80 ∷ []

-- `for (font = from; font != from + left; ++font) *font = v;`
pub fill : ℕ → ℕ → ℕ → Memory → Memory
fill zero font v m = m
fill (suc left) font v m = fill left (font + 1) v (update m font v)

-- The accumulator `bc` and the row `b`.
pub record Row : Type 0 where
  pub bc : ℕ
  pub b : ℕ

-- The body of the loop over `ii`.
pub add_pixel : ℕ → ℕ → ℕ → Row → Row
add_pixel c i ii r =
    let bc = u8 (r.bc + c) in
    if ltb 0x3f bc
    then record {
      bc = u8 (bc + 256 - 0x40);
      b = u8 (r.b + get_or bittab (bit_and (ii + bit_and i 1) 0x7) 0);
    }
    else record { bc = bc; b = r.b }

-- `for (ii = 0; ii < 8; ii++)`, by the rounds left.
pub make_row : ℕ → ℕ → ℕ → ℕ → Row → Row
make_row zero c i ii r = r
make_row (suc left) c i ii r = make_row left c i (u8 (ii + 1)) (add_pixel c i ii r)

-- `for (i = 0; i < 8; i++)`, by the rounds left.
pub make_rows : ℕ → ℕ → ℕ → ℕ → Memory → Memory
make_rows zero c i bc m = m
make_rows (suc left) c i bc m =
    let r = make_row 8 c i 0 (record { bc = bc; b = 0 }) in
    make_rows left c (u8 (i + 1)) r.bc (update m (charset + 1 * 8 + (c * 8 + i)) r.b)

-- `for (c = 0; c < 0x40; ++c)`, by the rounds left.
pub make_glyphs : ℕ → ℕ → Memory → Memory
make_glyphs zero c m = m
make_glyphs (suc left) c m = make_glyphs left (u8 (c + 1)) (make_rows 8 c 0 0 m)

pub makechar : Memory → Memory
makechar m =
    make_glyphs 0x40 0 (fill (192 * 8) (charset + 64 * 8) 0xff (fill (1 * 8) charset 0x00 m))

-- The new value of a cell of the flame.
pub cooled : Memory → ℕ → ℕ
cooled m p =
    let c = u8 ((m (p + 40 - 1) + m (p + 40 - 1) + m (p + 40) + m (p + 41)) / 4) in
    if ltb 2 c then u8 (c + 256 - 3) else c

-- The first loop of `fire`, by the rounds left.
pub burn : ℕ → ℕ → ℕ → Memory → Memory
burn zero screen buf m = m
burn (suc left) screen buf m =
    let c = cooled m buf in burn left (screen + 1) (buf + 1) (update (update m buf c) screen c)

-- The second loop: new embers in the last two rows. `noise n` is the n-th reading.
pub feed : (ℕ → ℕ) → ℕ → ℕ → ℕ → ℕ → Memory → Memory
feed noise zero n screen buf m = m
feed noise (suc left) n screen buf m =
    let c = u8 (0x30 + (noise n >>> 4)) in
    feed noise left (n + 1) (screen + 1) (buf + 1) (update (update m buf c) screen c)

pub fire : (ℕ → ℕ) → ℕ → Memory → Memory
fire noise screenbase m =
    feed noise (2 * 40) 0 (screenbase + 23 * 40) (buffer + 23 * 40)
      (burn (24 * 40) screenbase buffer m)

-- Clearing the buffer, both pages and the colours: `for(i = 0; i != 0x400; i++)`.
pub clear_pages : ℕ → ℕ → ℕ → ℕ → Memory → Memory
clear_pages zero i colorram yellow m = m
clear_pages (suc left) i colorram yellow m = clear_pages left (i + 1) colorram yellow (
    update (update (update (update m (i + buffer) 0) (i + screen1) 0) (i + screen2) 0)
      (i + colorram) yellow)

-- One round of the main loop: both pages, with the readings of the noise for each.
pub frame : (ℕ → ℕ) → (ℕ → ℕ) → Memory → Memory
frame noise noise' m = fire noise' screen2 (fire noise screen1 m)

-- The main loop, by the rounds until a key is hit: `noise r` is the noise on the first page in the round
-- `r`, `noise' r` that on the second.
pub frames : (ℕ → ℕ → ℕ) → (ℕ → ℕ → ℕ) → ℕ → Memory → Memory
frames noise noise' zero m = m
frames noise noise' (suc left) m =
    frames (λ r. noise (suc r)) (λ r. noise' (suc r)) left (frame (noise 0) (noise' 0) m)
