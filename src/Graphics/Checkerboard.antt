-- ===== src/Graphics/Checkerboard.antt =====
-- The checkerboard of tgidemo.c: which tiles are drawn, in which order and colours.
use builds.Base.{
  ℕ, zero, suc, ◌+◌, ◌*◌, ◌≤◌, ◌<◌, ◌≡◌, refl, ap, ◌∙◌, sym, arith, leb, u16, Bool-cases, inl, inr,
  ◌⊎◌, List, ◌∷◌,
}
use mathlib.Core.Path.{subst}
use builds.Graphics.{
  Draw, back, tgi_setpalette, tgi_clear, cgetc, Resolution, other, Board, Progress, going, returned,
  spent, ◌>>=◌, swap_color, tile, tile_columns, tile_rows, checkerboards, do_checkerboard,
}
use builds.Graphics.Tiles.{
  columns, rows, color_after, tiles, other-color_after, div_at, mod_at, column_out, column_return,
  column_next, row_out, row_in,
}

ℕ-cases : (n : ℕ) → (n ≡ 0) ⊎ ((k : ℕ) × (n ≡ suc k))
ℕ-cases zero = inl refl
ℕ-cases (suc k) = inr (k, refl)

module _ (res : Resolution) (calls : List Draw) (n : ℕ) (wide : res.max_x < 65526)
    (tall : res.max_y < 65526) where
  -- Before the tile in the column i of the row `row`, counted over all screens, with p full screens before.
  record IsAt (p row i : ℕ) (b : Board) : Type 0 where
    color : b.color ≡ color_after (row * columns res + i + row + p)
    left : b.quiet + (row * columns res + i) ≡ n
    drawn : b.calls ≡ tiles res (row * columns res + i) calls

  -- What a loop leaves: the place where it goes on, or all tiles.
  abbrev Leaves : (Board → Type 0) → Progress → Type 0
  Leaves P (going b) = P b
  Leaves P (returned drawn) = drawn ≡ tgi_clear ∷ cgetc ∷ tiles res (suc n) calls
  Leaves P spent = ⊥

  tile-IsAt :
      (p j i : ℕ) (b : Board)
      → i < columns res
      → j < rows res
      → IsAt p (p * rows res + j) i b
      → (tile (10 * i) (10 * j) b).calls
        ≡ tiles res (suc ((p * rows res + j) * columns res + i)) calls
  unfolding tile tiles
  tile-IsAt p j i b hi hj at =
      let row = p * rows res + j in
      rw
        (
          div_at row (columns res) i hi,
          mod_at row (columns res) i hi,
          div_at p (rows res) j hj,
          mod_at p (rows res) j hj,
          at.color,
          at.drawn,
        )
        refl

  next-IsAt :
      (p j i quiet : ℕ) (b : Board)
      → i < columns res
      → j < rows res
      → b.quiet ≡ suc quiet
      → IsAt p (p * rows res + j) i b
      → IsAt p (p * rows res + j) (suc i) (record (tile (10 * i) (10 * j) b) { quiet = quiet })
  unfolding tile
  next-IsAt p j i quiet b hi hj more at =
      let row = p * rows res + j in
      let index : row * columns res + suc i ≡ suc (row * columns res + i) = omega arith in
      record {
        color =
            ap other at.color
            ∙ other-color_after (row * columns res + i + row + p)
            ∙ ap (λ (k : ℕ). color_after k) (omega arith);
        left = omega (arith, at.left, more);
        drawn = tile-IsAt p j i b hi hj at ∙ ap (λ (k : ℕ). tiles res k calls) (sym index);
      }

  columns-Leaves :
      (fuel p j i : ℕ) (b : Board)
      → b.quiet + 2 ≤ fuel
      → i ≤ columns res
      → j < rows res
      → IsAt p (p * rows res + j) i b
      → Leaves (IsAt p (p * rows res + j) (columns res)) (tile_columns fuel res (10 * j) (10 * i) b)
  columns-Leaves zero p j i b enough hi hj at = absurd (omega arith)
  columns-Leaves (suc fuel) p j i b enough hi hj at = elim (Bool-cases (leb (10 * i) res.max_x)) [
    | inr out ↦
        let last : i ≡ columns res = ground arith in
        rw (column_out res fuel (10 * i) (10 * j) b out)
          (subst (λ k. IsAt p (p * rows res + j) k b) last at)
    | inl inside ↦
        let within : i < columns res = ground arith in
        elim (ℕ-cases b.quiet) [
          | inl key ↦
              let full : suc ((p * rows res + j) * columns res + i) ≡ suc n =
                omega (arith, at.left) in
              rw (column_return res fuel (10 * i) (10 * j) b inside key) (
                ap (λ c. tgi_clear ∷ cgetc ∷ c)
                  (tile-IsAt p j i b within hj at ∙ ap (λ (k : ℕ). tiles res k calls) full))
          | inr (quiet, more) ↦
              let step : u16 (10 * i + 10) ≡ 10 * suc i = omega arith in
              rw (column_next res fuel (10 * i) (10 * j) quiet b inside more, step)
                (columns-Leaves fuel p j (suc i)
                  (record (tile (10 * i) (10 * j) b) { quiet = quiet }) (omega (arith, more)) within
                  hj (next-IsAt p j i quiet b within hj more at))
        ]
  ]

  Leaves->>= :
      (P Q : Board → Type 0) (m : Progress) (f : Board → Progress)
      → Leaves P m
      → ((b : Board) → P b → Leaves Q (f b))
      → Leaves Q (m >>= f)
  Leaves->>= P Q (going b) f h k = k b h
  Leaves->>= P Q (returned drawn) f h k = h
  Leaves->>= P Q spent f h k = elim h [ ]

  row-IsAt :
      (p j : ℕ) (b : Board)
      → IsAt p (p * rows res + j) (columns res) b
      → IsAt p (p * rows res + suc j) 0 (swap_color b)
  row-IsAt p j b at =
      let row = p * rows res + j in
      let index : row * columns res + columns res ≡ (p * rows res + suc j) * columns res + 0 =
        omega arith in
      record {
        color =
            ap other at.color
            ∙ other-color_after (row * columns res + columns res + row + p)
            ∙ ap (λ (k : ℕ). color_after k) (omega arith);
        left = omega (arith, at.left);
        drawn = at.drawn ∙ ap (λ (k : ℕ). tiles res k calls) index;
      }

  rows-Leaves :
      (fuel p j : ℕ) (b : Board)
      → b.quiet + 2 ≤ fuel
      → j ≤ rows res
      → IsAt p (p * rows res + j) 0 b
      → Leaves (IsAt p (p * rows res + rows res) 0) (tile_rows fuel res (10 * j) b)
  rows-Leaves zero p j b enough hj at = absurd (omega arith)
  rows-Leaves (suc fuel) p j b enough hj at = elim (Bool-cases (leb (10 * j) res.max_y)) [
    | inr out ↦
        let last : j ≡ rows res = ground arith in
        rw (row_out res fuel (10 * j) b out) (subst (λ k. IsAt p (p * rows res + k) 0 b) last at)
    | inl inside ↦
        let within : j < rows res = ground arith in
        let step : u16 (10 * j + 10) ≡ 10 * suc j = omega arith in
        rw (row_in res fuel (10 * j) b inside, step)
          (Leaves->>= (IsAt p (p * rows res + j) (columns res)) (IsAt p (p * rows res + rows res) 0)
            _ _ (columns-Leaves (suc fuel) p j 0 b enough (omega arith) within at)
            (λ b' at'.
              rows-Leaves fuel p (suc j) (swap_color b') (omega (arith, at.left, at'.left)) within
                (row-IsAt p j b' at')))
  ]

  screen-IsAt :
      (p : ℕ) (b : Board)
      → IsAt p (p * rows res + rows res) 0 b
      → IsAt (suc p) (suc p * rows res + 0) 0 (swap_color b)
  screen-IsAt p b at =
      let index : p * rows res + rows res ≡ suc p * rows res + 0 = omega arith in
      let row = p * rows res + rows res in
      record {
        color =
            ap other at.color
            ∙ other-color_after (row * columns res + 0 + row + p)
            ∙ ap (λ (k : ℕ). color_after k) (rw (← index) (omega arith));
        left = rw (← index) at.left;
        drawn = rw (← index) at.drawn;
      }

  checkerboards-Leaves :
      (fuel p : ℕ) (b : Board)
      → b.quiet + 2 ≤ fuel
      → IsAt p (p * rows res + 0) 0 b
      → Leaves (λ b'. ⊥) (checkerboards fuel res b)
  unfolding checkerboards
  checkerboards-Leaves zero p b enough at = absurd (omega arith)
  checkerboards-Leaves (suc fuel) p b enough at =
      Leaves->>= (IsAt p (p * rows res + rows res) 0) (λ b'. ⊥) (tile_rows (suc fuel) res 0 b) _
        (rows-Leaves (suc fuel) p 0 b enough (omega arith) at)
        (λ b' at'.
          let all : (p * rows res + 0) * columns res + columns res
              ≤ (p * rows res + rows res) * columns res =
            omega arith in
          checkerboards-Leaves fuel (suc p) (swap_color b') (omega (arith, at.left, at'.left))
            (screen-IsAt p b' at'))

  Leaves-returned :
      (r : Progress)
      → Leaves (λ b. ⊥) r
      → r ≡ returned (tgi_clear ∷ cgetc ∷ tiles res (suc n) calls)
  Leaves-returned (going b) h = elim h [ ]
  Leaves-returned (returned drawn) h = ap returned h
  Leaves-returned spent h = elim h [ ]

-- On a screen of at most 65526 columns and rows, with a key at a poll: DoCheckerboard ends at that poll,
-- with a clear screen, and has drawn one tile for each poll. The tiles go along the rows of the
-- screen from the left, then down, then over again from the top; the colours change with each
-- tile, and once more after each row and after each screen.
pub do_checkerboard-tiles :
    (res : Resolution) (quiet : ℕ) (calls : List Draw)
    → res.max_x < 65526
    → res.max_y < 65526
    → do_checkerboard res quiet calls
      ≡ returned (tgi_clear ∷ cgetc ∷ tiles res (suc quiet) (tgi_setpalette ∷ calls))
unfolding do_checkerboard tiles
do_checkerboard-tiles res quiet calls wide tall =
    let before = tgi_setpalette ∷ calls in
    let b : Board = record { color = back; quiet = quiet; calls = before } in
    let no_swap : 0 ≡ (0 * rows res + 0) * columns res + 0 + (0 * rows res + 0) + 0 = omega arith in
    let none_drawn : 0 ≡ (0 * rows res + 0) * columns res + 0 = omega arith in
    Leaves-returned res before quiet wide tall (checkerboards (quiet + 2) res b) (
      checkerboards-Leaves res before quiet wide tall (quiet + 2) 0 b (omega arith) (record {
        color = ap (λ (k : ℕ). color_after k) no_swap;
        left = omega arith;
        drawn = ap (λ (k : ℕ). tiles res k before) none_drawn;
      }))
