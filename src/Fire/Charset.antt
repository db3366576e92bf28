-- ===== src/Fire/Charset.antt =====
-- How bright the characters of the set are that `makechar` of fire.c builds.
use builds.Base.{
  all_below, all_below-true, min, ◌-◌, ◌<◌, ==→eq, ℕ, zero, suc, ◌+◌, ◌*◌, ◌==◌, ◌≡◌, refl, true,
  Memory, ◌/◌, ◌%◌, update,
}
use builds.Fire.{charset, makechar}

-- The bits that are set among the lowest `n`.
unfoldable pub bits : ℕ → ℕ → ℕ
bits zero b = 0
bits (suc n) b = b % 2 + bits n (b / 2)

-- The pixels in the first `rows` rows of the glyph at `p`.
unfoldable pub pixels : ℕ → Memory → ℕ → ℕ
pixels zero m p = 0
pixels (suc rows) m p = bits 8 (m p) + pixels rows m (p + 1)

makechar-all :
    (m : Memory)
    → all_below 256 (λ ch. pixels 8 (makechar m) (charset + ch * 8) == min (ch - 1) 64) ≡ true
unfolding pixels bits makechar builds.Fire.make_glyphs builds.Fire.make_rows update
    builds.Fire.make_row builds.Fire.add_pixel all_below builds.Fire.fill
makechar-all m = refl

-- The characters of the set that `makechar` builds grow in brightness: of the 64 pixels, the character `ch` has
-- `ch - 1`, from 1 to 64, character 0 none, and the last 191 characters all.
pub makechar-pixels :
    (m : Memory) (ch : ℕ) → ch < 256 → pixels 8 (makechar m) (charset + ch * 8) ≡ min (ch - 1) 64
makechar-pixels m ch h = ==→eq _ _ (all_below-true 256 _ ch (makechar-all m) h)
