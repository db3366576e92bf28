-- ===== src/Ascii/Screen.antt =====
-- Where ascii.c prints: it stays on the screen.
use builds.Base.{
  ℕ, ◌+◌, ◌*◌, ◌/◌, ◌%◌, ◌≤◌, ◌<◌, ◌≡◌, ◌≢◌, ◌∙◌, sym, arith, ◌==◌, if◌then◌else◌, u8, true, false,
  Bool-cases, Option, none, some, Option-cases, inl, inr, List, [], ◌∷◌,
}
use native.Mathlib.Nat.{div-lt_iff_lt-mul, div-eq_of_lt}
use builds.Ascii.Codes.{codes_of, up_to_quit, show_codes-codes}
use builds.Ascii.{
  Out, clrscr, prompt, put, code, new_line, Table, new_screen, count_line, next_code, show_code,
  table_loop, table_at_start, show_codes,
}

-- The lines that a text of n characters and a newline takes: the cursor goes to the next line when the
-- last column is filled.
abbrev text_lines : ℕ → ℕ → ℕ
text_lines columns n = n / columns + 1

-- The lines of the prompt: texts of 22, 22 and 20 characters, and an empty one.
unfoldable pub prompt_lines : ℕ → ℕ
prompt_lines columns =
    text_lines columns 22 + text_lines columns 22 + text_lines columns 20 + text_lines columns 0

-- The line and the column of the cursor on a screen of that many columns, where `=$%02x ` takes it on by
-- five.
unfoldable pub line : ℕ → List Out → ℕ
line columns [] = 0
line columns (clrscr ∷ output) = 0
line columns (prompt ∷ output) = line columns output + prompt_lines columns
line columns (put c ∷ output) = if c == 10 then line columns output + 1 else line columns output
line columns (code c ∷ output) = line columns output
line columns (new_line ∷ output) = line columns output + 1

unfoldable pub column : List Out → ℕ
column [] = 0
column (clrscr ∷ output) = 0
column (prompt ∷ output) = 0
column (put c ∷ output) = if c == 10 then column output else column output + 1
column (code c ∷ output) = column output + 5
column (new_line ∷ output) = 0

-- After every call the cursor is in the screen, and has not gone past an edge.
abbrev pub AllInside : ℕ → ℕ → List Out → Type 0
AllInside columns height [] = Unit {0}
AllInside columns height (o ∷ output) =
    (line columns (o ∷ output) < height)
    × (column (o ∷ output) < columns)
    × AllInside columns height output

abbrev pub AllPrintable : List ℕ → Type 0
AllPrintable [] = Unit {0}
AllPrintable (c ∷ keys) = (32 ≤ c) × AllPrintable keys

none-ne-some : {A : Type 0} {a : A} → none ≢ some a
none-ne-some e = cc

module _ (columns height : ℕ) (narrow : columns < 256) (wide : 22 ≤ columns)
    (spare : columns % 6 ≢ 0) (high : 7 ≤ height) (short : height < 256) where
  -- The cursor is in the row that the program counts, and after the codes of the row.
  record IsPlaced (s : Table) : Type 0 where
    row : s.r ≤ height
    above : line columns s.output < s.r
    here : column s.output ≡ 6 * s.t
    room : s.t < columns / 6
    inside : AllInside columns height s.output

  -- The same after a code.
  record IsAfterCode (s : Table) : Type 0 where
    row : s.r < height
    above : line columns s.output < s.r
    here : column s.output ≡ 6 * s.t + 6
    room : s.t < columns / 6
    inside : AllInside columns height s.output

  show_code-full :
      (c : ℕ) (s : Table)
      → (c == 10) ≡ false
      → (s.r == height) ≡ true
      → show_code height c s
        ≡ record { r = 1; t = 0; output = code c ∷ put c ∷ clrscr ∷ put c ∷ s.output }
  unfolding show_code new_screen count_line
  show_code-full c s plain full = simp (show_code, new_screen, full, count_line, plain)

  show_code-room :
      (c : ℕ) (s : Table)
      → (c == 10) ≡ false
      → (s.r == height) ≡ false
      → show_code height c s ≡ record s { output = code c ∷ put c ∷ s.output }
  unfolding show_code new_screen count_line
  show_code-room c s plain room = simp (show_code, new_screen, room, count_line, plain)

  show_code-IsAfterCode :
      (c : ℕ) (s : Table) → 32 ≤ c → IsPlaced s → IsAfterCode (show_code height c s)
  unfolding line column
  show_code-IsAfterCode c s plain p =
      let letter : (c == 10) ≡ false = ground arith in
      elim (Bool-cases (s.r == height)) [
        | inl full ↦ rw (show_code-full c s letter full) (record {
          row = omega arith;
          above = ground arith;
          here = ground arith;
          room = omega arith;
          inside = (
            ground arith,
            ground arith,
            (
              ground arith,
              ground arith,
              (omega arith, omega arith, (ground arith, ground arith, p.inside)),
            ),
          );
        })
        | inr room ↦ rw (show_code-room c s letter room) (record {
          row = ground arith;
          above = ground arith;
          here = ground arith;
          room = p.room;
          inside = (ground arith, ground arith, (ground arith, ground arith, p.inside));
        })
      ]

  next_code-full :
      (s : Table)
      → (u8 (s.t + 1) == columns / 6) ≡ true
      → next_code (columns / 6) s ≡ record { r = u8 (s.r + 1); t = 0; output = new_line ∷ s.output }
  unfolding next_code
  next_code-full s full = simp (next_code, full)

  next_code-room :
      (s : Table)
      → (u8 (s.t + 1) == columns / 6) ≡ false
      → next_code (columns / 6) s ≡ record s { t = u8 (s.t + 1) }
  unfolding next_code
  next_code-room s other = simp (next_code, other)

  next_code-IsPlaced : (s : Table) → IsAfterCode s → IsPlaced (next_code (columns / 6) s)
  unfolding line column
  next_code-IsPlaced s p = elim (Bool-cases (u8 (s.t + 1) == columns / 6)) [
    | inl full ↦ rw (next_code-full s full) (record {
      row = omega arith;
      above = omega arith;
      here = omega arith;
      room = omega arith;
      inside = (omega arith, omega arith, p.inside);
    })
    | inr other ↦ rw (next_code-room s other) (record {
      row = omega arith;
      above = p.above;
      here = omega arith;
      room = ground arith;
      inside = p.inside;
    })
  ]

  -- What the loop leaves, if it ends.
  abbrev Leaves : Option Table → Type 0
  Leaves none = Unit {0}
  Leaves (some s) = IsAfterCode s

  table_loop-Leaves :
      (keys : List ℕ) (s : Table)
      → AllPrintable keys
      → IsPlaced s
      → Leaves (table_loop height (columns / 6) keys s)
  unfolding table_loop
  table_loop-Leaves [] s plain p = tt
  table_loop-Leaves (c ∷ keys) s (h, plain) p =
      let shown = show_code-IsAfterCode c s h p in
      elim (Bool-cases (c == b'Q')) [
        | inl quit ↦ rw (table_loop, quit) shown
        | inr other ↦
            rw (table_loop, other) (table_loop-Leaves keys _ plain (next_code-IsPlaced _ shown))
      ]

  -- The prompt fits the six rows that the program allows for it.
  few_lines : prompt_lines columns ≤ 6
  unfolding prompt_lines
  few_lines =
      let long = div-lt_iff_lt-mul {k = columns} {x = 22} {y = 2} (omega arith) in
      let short : 20 / columns ≡ 0 = div-eq_of_lt (omega arith) in
      let nothing : 0 / columns ≡ 0 = div-eq_of_lt (omega arith) in
      let twice = long.1 (omega arith) in omega arith

  start-IsPlaced : IsPlaced table_at_start
  unfolding table_at_start line column
  start-IsPlaced =
      let few = few_lines in
      record {
        row = high;
        above = omega arith;
        here = omega arith;
        room = omega arith;
        inside = (omega arith, omega arith, (omega arith, omega arith, tt));
      }

  -- With a `Q` among the keys, which are printable, on a screen of at least seven rows, and of at least 22
  -- columns, not a multiple of six, and of fewer than 256 of both: main ends, and after every call that prints, the cursor is in a
  -- line and a column of the screen.
  pub show_codes-inside :
      (keys : List ℕ) {typed : List ℕ}
      → up_to_quit keys ≡ some typed
      → AllPrintable keys
      → (output : List Out) × (show_codes columns height keys ≡ some output)
        × AllInside columns height output
  unfolding show_codes line column
  show_codes-inside keys quits plain =
      let left = table_loop-Leaves keys table_at_start plain start-IsPlaced in
      elim (Option-cases (table_loop height (columns / 6) keys table_at_start)) [
        | inl waiting ↦
            let never : codes_of (show_codes columns height keys) ≡ none =
              simp (show_codes, waiting) in
            absurd (none-ne-some (sym never ∙ show_codes-codes columns height keys ∙ quits))
        | inr (s, ends) ↦
            let p : IsAfterCode s = rw (ends) at left in
            (new_line ∷ s.output, simp (show_codes, ends), (omega arith, omega arith, p.inside))
      ]
