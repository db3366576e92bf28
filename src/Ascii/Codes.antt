-- ===== src/Ascii/Codes.antt =====
-- Which codes ascii.c prints.
use builds.Base.{
  ℕ, ◌/◌, ◌≡◌, refl, ap, ◌∙◌, arith, ◌==◌, true, false, Bool-cases, Option, none, some, inl, inr,
  List, [], ◌∷◌, ◌++◌,
}
use mathlib.Core.List.{append_assoc}
use builds.Ascii.{
  Out, clrscr, prompt, put, code, new_line, Table, new_screen, count_line, next_code, show_code,
  table_loop, table_at_start, show_codes,
}

-- The codes among the calls, the first one first.
unfoldable pub codes : List Out → List ℕ
codes [] = []
codes (code c ∷ output) = codes output ++ c ∷ []
codes (clrscr ∷ output) = codes output
codes (prompt ∷ output) = codes output
codes (put c ∷ output) = codes output
codes (new_line ∷ output) = codes output

-- The keys up to a first `Q`, with it; none if there is no `Q`.
unfoldable pub up_to_quit : List ℕ → Option (List ℕ)
up_to_quit [] = none
up_to_quit (c ∷ keys) = elim (c == b'Q') [
  | true ↦ some (c ∷ [])
  | false ↦ elim (up_to_quit keys) [ none ↦ none | some typed ↦ some (c ∷ typed) ]
]

codes-show_code :
    (height c : ℕ) (s : Table) → codes (show_code height c s).output ≡ codes s.output ++ c ∷ []
unfolding codes show_code new_screen count_line
codes-show_code height c s = ground arith

codes-next_code : (width : ℕ) (s : Table) → codes (next_code width s).output ≡ codes s.output
unfolding codes next_code
codes-next_code width s = ground arith

abbrev printed : Option Table → Option (List ℕ)
printed none = none
printed (some s) = some (codes s.output)

abbrev after : List ℕ → Option (List ℕ) → Option (List ℕ)
after before none = none
after before (some typed) = some (before ++ typed)

abbrev with_first : ℕ → Option (List ℕ) → Option (List ℕ)
with_first c none = none
with_first c (some typed) = some (c ∷ typed)

after-with_first :
    (before : List ℕ) (c : ℕ) (typed : Option (List ℕ))
    → after (before ++ c ∷ []) typed ≡ after before (with_first c typed)
after-with_first before c none = refl
after-with_first before c (some typed) = ap some (append_assoc before (c ∷ []) typed)

up_to_quit-other :
    (c : ℕ) (keys : List ℕ)
    → (c == b'Q') ≡ false
    → up_to_quit (c ∷ keys) ≡ with_first c (up_to_quit keys)
unfolding up_to_quit
up_to_quit-other c keys other = rw (up_to_quit, other) (same (up_to_quit keys))
  where
    same :
        (typed : Option (List ℕ))
        → (elim typed [ none ↦ none | some l ↦ some (c ∷ l) ]) ≡ with_first c typed
    same none = refl
    same (some l) = refl

table_loop-codes :
    (height width : ℕ) (keys : List ℕ) (s : Table)
    → printed (table_loop height width keys s) ≡ after (codes s.output) (up_to_quit keys)
unfolding table_loop up_to_quit
table_loop-codes height width [] s = refl
table_loop-codes height width (c ∷ keys) s = elim (Bool-cases (c == b'Q')) [
  | inl quit ↦ rw (quit, table_loop, up_to_quit) (ap some (codes-show_code height c s))
  | inr other ↦
      let s' = next_code width (show_code height c s) in
      let more : codes s'.output ≡ codes s.output ++ c ∷ [] =
        codes-next_code width (show_code height c s) ∙ codes-show_code height c s in
      rw (up_to_quit-other c keys other, table_loop, other)
        (table_loop-codes height width keys s'
          ∙ ap (λ before. after before (up_to_quit keys)) more
          ∙ after-with_first (codes s.output) c (up_to_quit keys))
]

abbrev pub codes_of : Option (List Out) → Option (List ℕ)
codes_of none = none
codes_of (some output) = some (codes output)

finished :
    (o : Option Table)
    → codes_of (elim o [ none ↦ none | some s ↦ some (new_line ∷ s.output) ]) ≡ printed o
unfolding codes
finished none = refl
finished (some s) = refl

-- Whatever the screen and the keys, main ends just if there is a `Q` among the keys, and has then printed the
-- codes of the keys up to the first `Q`, that one included, in their order.
pub show_codes-codes :
    (columns height : ℕ) (keys : List ℕ)
    → codes_of (show_codes columns height keys) ≡ up_to_quit keys
unfolding show_codes table_at_start codes
show_codes-codes columns height keys =
    finished (table_loop height (columns / 6) keys table_at_start)
    ∙ table_loop-codes height (columns / 6) keys table_at_start
    ∙ after_none (up_to_quit keys)
  where
    after_none : (typed : Option (List ℕ)) → after [] typed ≡ typed
    after_none none = refl
    after_none (some l) = refl
