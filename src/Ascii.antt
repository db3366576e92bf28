-- ===== src/Ascii.antt =====
-- bin/cc65-snapshot-win32/samples/ascii.c, with conio: a table of the codes of the characters that are typed.
-- What is printed is a list of calls, the last one first; the keys are a list of bytes, and EOF is
-- none of them. Characters are ASCII codes.
pub mod Codes
pub mod Screen
mod Tests
use builds.Base.{
  ℕ, ◌+◌, ◌/◌, ◌==◌, if◌then◌else◌, u8, Bool, true, false, Option, none, some, List, [], ◌∷◌,
}

-- The calls that print.
pub data Out : Type 0 where
  clrscr : Out
  prompt : Out
  put : ℕ → Out
  code : ℕ → Out
  new_line : Out

-- The row, the column of the table, and the output.
pub record Table : Type 0 where
  pub r : ℕ
  pub t : ℕ
  pub output : List Out

abbrev pub print : Out → Table → Table
print o s = record s { output = o ∷ s.output }

-- `if (r == height)`
pub new_screen : ℕ → ℕ → Table → Table
new_screen height c s =
    if s.r == height then record s { r = 1; t = 0; output = put c ∷ clrscr ∷ s.output } else s

-- `if (c == '\n')`
pub count_line : ℕ → Table → Table
count_line c s = if c == 10 then record s { r = u8 (s.r + 1) } else s

-- `if (++t == width)`
pub next_code : ℕ → Table → Table
next_code width s =
    if u8 (s.t + 1) == width
    then record s { r = u8 (s.r + 1); t = 0; output = new_line ∷ s.output }
    else record s { t = u8 (s.t + 1) }

-- A round of the loop up to the test for `QUIT`, which begins with the echo of GET.
pub show_code : ℕ → ℕ → Table → Table
show_code height c s = print (code c) (count_line c (new_screen height c (print (put c) s)))

-- The loop: none if the keys are used up before a `Q`.
pub table_loop : ℕ → ℕ → List ℕ → Table → Option Table
table_loop height width [] s = none
table_loop height width (c ∷ keys) s = elim (c == b'Q') [
  | true ↦ some (show_code height c s)
  | false ↦ table_loop height width keys (next_code width (show_code height c s))
]

pub table_at_start : Table
table_at_start = record { r = 7; t = 0; output = prompt ∷ clrscr ∷ [] }

-- `main`, on a screen of that many columns and rows: what it has printed when it ends.
pub show_codes : ℕ → ℕ → List ℕ → Option (List Out)
show_codes columns height keys = elim (table_loop height (columns / 6) keys table_at_start) [
  | none ↦ none
  | some s ↦ some (new_line ∷ s.output)
]
