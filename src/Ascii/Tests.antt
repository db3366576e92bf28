-- ===== src/Ascii/Tests.antt =====
-- Runs of ascii.c, and its theorems at concrete inputs.
use builds.Base.{ℕ, ◌≡◌, refl, arith, some, List, [], ◌∷◌}
use builds.Ascii.{
  Out, clrscr, prompt, put, code, new_line, show_codes, table_loop, table_at_start, show_code,
  next_code, new_screen, count_line,
}
use builds.Ascii.Codes.{codes_of, up_to_quit, show_codes-codes}
use builds.Ascii.Screen.{AllInside, show_codes-inside}

abbrev typing : List ℕ
typing = 65 ∷ 66 ∷ 67 ∷ 81 ∷ 68 ∷ []

-- Three codes to a row of 22 columns.
typed_calls :
    show_codes 22 23 typing
    ≡ some (
        new_line
        ∷ code 81
        ∷ put 81
        ∷ new_line
        ∷ code 67
        ∷ put 67
        ∷ code 66
        ∷ put 66
        ∷ code 65
        ∷ put 65
        ∷ prompt
        ∷ clrscr
        ∷ [])
unfolding show_codes table_loop table_at_start show_code next_code new_screen count_line
typed_calls = refl

-- A newline in the last column of the last row but one takes the count of rows past the height.
lost_row :
    table_loop 8 3 (65 ∷ 66 ∷ 10 ∷ 81 ∷ []) table_at_start
    ≡ some (record {
      r = 9;
      t = 0;
      output =
          code 81
          ∷ put 81
          ∷ new_line
          ∷ code 10
          ∷ put 10
          ∷ code 66
          ∷ put 66
          ∷ code 65
          ∷ put 65
          ∷ prompt
          ∷ clrscr
          ∷ [];
    })
unfolding table_loop table_at_start show_code next_code new_screen count_line
lost_row = refl

show_codes-codes_example : codes_of (show_codes 22 23 typing) ≡ up_to_quit typing
show_codes-codes_example = show_codes-codes 22 23 typing

show_codes-inside_example :
    (output : List Out) × (show_codes 22 23 typing ≡ some output) × AllInside 22 23 output
show_codes-inside_example =
    show_codes-inside 22 23 (omega arith) (omega arith) (omega arith) (omega arith) (omega arith)
      typing quits (omega arith, (omega arith, (omega arith, (omega arith, (omega arith, tt)))))
  where
    quits : up_to_quit typing ≡ some (65 ∷ 66 ∷ 67 ∷ 81 ∷ [])
    quits = unfold up_to_quit in refl
