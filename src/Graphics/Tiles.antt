-- ===== src/Graphics/Tiles.antt =====
-- The checkerboard of tgidemo.c: the tiles that it should draw, and the steps of its loops.
use builds.Base.{
  ℕ, zero, suc, ◌+◌, ◌*◌, ◌/◌, ◌%◌, ◌<◌, ◌≡◌, ◌∙◌, arith, ◌==◌, leb, if◌then◌else◌, u16, true,
  false, List, ◌∷◌,
}
use native.Mathlib.Nat.{mul-add-div_right, div-eq_of_lt, mul-add-mod_self_right, mod-eq_of_lt}
use builds.Graphics.{
  Color, back, fore, Draw, tgi_setcolor, tgi_bar, tgi_clear, cgetc, Resolution, int, other, Board,
  going, returned, ◌>>=◌, swap_color, tile, tile_columns, tile_rows,
}

-- The columns and rows of tiles that a screen has.
abbrev pub columns : Resolution → ℕ
columns res = suc (res.max_x / 10)

abbrev pub rows : Resolution → ℕ
rows res = suc (res.max_y / 10)

-- The colour after n swaps.
abbrev pub color_after : ℕ → Color
color_after n = if n % 2 == 0 then back else fore

-- The bar in a column and a row.
abbrev pub bar : ℕ → ℕ → Draw
bar i j = tgi_bar (int (10 * i)) (int (10 * j)) (int (u16 (10 * i + 9))) (int (u16 (10 * j + 9)))

-- The calls for the first n tiles, the last one first: tile k is in the column k mod C and the row
-- k / C mod R, and has the colour after one swap for each tile, each row and each screen before it.
unfoldable pub tiles : Resolution → ℕ → List Draw → List Draw
tiles res zero calls = calls
tiles res (suc k) calls =
    bar (k % columns res) (k / columns res % rows res)
    ∷ tgi_setcolor (color_after (k + k / columns res + k / columns res / rows res))
    ∷ tiles res k calls

pub other-color_after : (n : ℕ) → other (color_after n) ≡ color_after (suc n)
other-color_after n = ground arith

pub div_at : (a c i : ℕ) → i < c → (a * c + i) / c ≡ a
div_at a c i h =
    let whole = mul-add-div_right {m = c} (omega arith) a i in
    let part = div-eq_of_lt {n = i} {m = c} h in omega arith

pub mod_at : (a c i : ℕ) → i < c → (a * c + i) % c ≡ i
mod_at a c i h = mul-add-mod_self_right a c i ∙ mod-eq_of_lt h

module _ (res : Resolution) where
  pub column_out :
      (fuel x y : ℕ) (b : Board)
      → leb x res.max_x ≡ false
      → tile_columns (suc fuel) res y x b ≡ going b
  unfolding tile_columns
  column_out fuel x y b e = simp (tile_columns, e)

  pub column_return :
      (fuel x y : ℕ) (b : Board)
      → leb x res.max_x ≡ true
      → b.quiet ≡ 0
      → tile_columns (suc fuel) res y x b ≡ returned (tgi_clear ∷ cgetc ∷ (tile x y b).calls)
  unfolding tile_columns tile
  column_return fuel x y b e q = simp (tile_columns, e, tile, q)

  pub column_next :
      (fuel x y quiet : ℕ) (b : Board)
      → leb x res.max_x ≡ true
      → b.quiet ≡ suc quiet
      → tile_columns (suc fuel) res y x b
        ≡ tile_columns fuel res y (u16 (x + 10)) (record (tile x y b) { quiet = quiet })
  unfolding tile_columns tile
  column_next fuel x y quiet b e q = simp (tile_columns, e, tile, q)

  pub row_out :
      (fuel y : ℕ) (b : Board) → leb y res.max_y ≡ false → tile_rows (suc fuel) res y b ≡ going b
  unfolding tile_rows
  row_out fuel y b e = simp (tile_rows, e)

  pub row_in :
      (fuel y : ℕ) (b : Board)
      → leb y res.max_y ≡ true
      → tile_rows (suc fuel) res y b ≡ (
          tile_columns (suc fuel) res y 0 b >>= λ b'.
          tile_rows fuel res (u16 (y + 10)) (swap_color b'))
  unfolding tile_rows
  row_in fuel y b e = simp (tile_rows, e)
