-- ===== src/MouseTest/Jail.antt =====
-- The box of the pointer in mousetest.c, over every sequence of rounds.
use builds.Base.{
  ℕ, ◌+◌, ◌-◌, ◌≡◌, refl, ◌∙◌, arith, ◌==◌, if_both, u8, true, false, Bool-cases, Option-cases, inl,
  inr, List, [], ◌∷◌, ℤ, pos, negsuc, ◌+ℤ◌, ◌-ℤ◌, ◌≤ℤ◌, s16, s16-fits,
}
use builds.MouseTest.{
  Box, Point, Test, Call, mouse_setbox, mouse_hide, mouse_show, breakpoint, max, min, small_box,
  show_state, jail, hide, show, on_key, Event, test_round, test_at_start,
}

-- A point in a box, and a box in a box.
abbrev pub InBox : Point → Box → Type 0
InBox p b = (b.minx ≤ℤ p.x) × (p.x ≤ℤ b.maxx) × (b.miny ≤ℤ p.y) × (p.y ≤ℤ b.maxy)

abbrev pub Within : Box → Box → Type 0
Within a b = (b.minx ≤ℤ a.minx) × (a.maxx ≤ℤ b.maxx) × (b.miny ≤ℤ a.miny) × (a.maxy ≤ℤ b.maxy)

-- The sides are at most 10 from the point.
abbrev pub IsNear : Point → Box → Type 0
IsNear p b =
    (p.x ≤ℤ b.minx +ℤ pos 10)
    × (b.maxx ≤ℤ p.x +ℤ pos 10)
    × (p.y ≤ℤ b.miny +ℤ pos 10)
    × (b.maxy ≤ℤ p.y +ℤ pos 10)

-- The coordinates leave room for 10 more in an `int`.
abbrev pub HasRoom : Box → Type 0
HasRoom b =
    (negsuc 32757 ≤ℤ b.minx)
    × (b.maxx ≤ℤ pos 32757)
    × (negsuc 32757 ≤ℤ b.miny)
    × (b.maxy ≤ℤ pos 32757)

low_side :
    (lo x : ℤ)
    → lo ≤ℤ x
    → negsuc 32757 ≤ℤ lo
    → x ≤ℤ pos 32757
    → (max (s16 (x -ℤ pos 10)) lo ≤ℤ x) × (x ≤ℤ max (s16 (x -ℤ pos 10)) lo +ℤ pos 10)
unfolding ◌-ℤ◌ ◌+ℤ◌
low_side lo x h room below =
    rw (s16-fits (x -ℤ pos 10) (ground arith) (ground arith)) (ground arith, ground arith)

high_side :
    (hi x : ℤ)
    → x ≤ℤ hi
    → hi ≤ℤ pos 32757
    → negsuc 32757 ≤ℤ x
    → (x ≤ℤ min (s16 (x +ℤ pos 10)) hi) × (min (s16 (x +ℤ pos 10)) hi ≤ℤ x +ℤ pos 10)
unfolding ◌+ℤ◌
high_side hi x h room above =
    rw (s16-fits (x +ℤ pos 10) (ground arith) (ground arith)) (ground arith, ground arith)

small_box-Within : (p : Point) (full : Box) → Within (small_box p full) full
unfolding small_box
small_box-Within p full = (ground arith, ground arith, ground arith, ground arith)

-- With coordinates that leave room in an `int`, and the pointer in the full box: the box that jails the
-- pointer has the pointer in it, lies within the full box, and has its sides at most 10 away.
small_box-IsNear :
    (p : Point) (full : Box)
    → HasRoom full
    → InBox p full
    → InBox p (small_box p full) × Within (small_box p full) full × IsNear p (small_box p full)
unfolding small_box
small_box-IsNear p full (left, right, top, bottom) (l, r, t, b) =
    let (xl, xl') = low_side full.minx p.x l left (omega arith) in
    let (yl, yl') = low_side full.miny p.y t top (omega arith) in
    let (xh, xh') = high_side full.maxx p.x r right (omega arith) in
    let (yh, yh') = high_side full.maxy p.y b bottom (omega arith) in
    unfold small_box in ((xl, xh, yl, yh), small_box-Within p full, (xl', xh', yl', yh'))

-- The box that the driver was last given.
unfoldable pub box_of : Box → List Call → Box
box_of full [] = full
box_of full (mouse_setbox b ∷ calls) = b
box_of full (mouse_hide ∷ calls) = box_of full calls
box_of full (mouse_show ∷ calls) = box_of full calls
box_of full (breakpoint ∷ calls) = box_of full calls

-- What a round does, while the loop runs; and the states that the loop can be in.
pub data Step (tolower : ℕ → ℕ) (t : Test) : Test → Type 0 where
  step : (e : Event) → t.done ≡ false → Step tolower t (test_round tolower e t)

pub data Reach (tolower : ℕ → ℕ) (full : Box) : Test → Type 0 where
  start : Reach tolower full (test_at_start full)
  next : {t u : Test} → Reach tolower full t → Step tolower t u → Reach tolower full u

-- The flag `Jailed` tells of the driver's box, and the screen shows both flags.
pub record IsSound (full : Box) (t : Test) : Type 0 where
  pub full_box : t.full_box ≡ full
  pub free : t.jailed ≡ false → box_of full t.calls ≡ full
  pub within : Within (box_of full t.calls) full
  pub shown_invisible : t.shown_invisible ≡ t.invisible
  pub shown_jailed : t.shown_jailed ≡ t.jailed

-- A state that differs in `Invisible` alone, with a call that is not of the box.
IsSound-call :
    (full : Box) (t : Test) (n : ℕ) (c : Call)
    → box_of full (c ∷ t.calls) ≡ box_of full t.calls
    → IsSound full t
    → IsSound full (show_state (record t { invisible = n; calls = c ∷ t.calls }))
unfolding show_state
IsSound-call full t n c same s = record {
  full_box = s.full_box;
  free = λ h. same ∙ s.free h;
  within = rw (same) s.within;
  shown_invisible = refl;
  shown_jailed = refl;
}

hide-IsSound : (full : Box) (t : Test) → IsSound full t → IsSound full (hide t)
unfolding hide box_of
hide-IsSound full t s = IsSound-call full t (u8 (t.invisible + 1)) mouse_hide refl s

show-IsSound : (full : Box) (t : Test) → IsSound full t → IsSound full (show t)
unfolding show box_of
show-IsSound full t s = elim (Bool-cases (t.invisible == 0)) [
  | inl zero_count ↦ simp (zero_count) (record {
    full_box = s.full_box;
    free = s.free;
    within = s.within;
    shown_invisible = s.shown_invisible;
    shown_jailed = s.shown_jailed;
  })
  | inr more ↦ simp (more) (IsSound-call full t (u8 (t.invisible + 256 - 1)) mouse_show refl s)
]

jail-IsSound : (full : Box) (p : Point) (t : Test) → IsSound full t → IsSound full (jail p t)
unfolding jail show_state box_of
jail-IsSound full p t s = elim (Bool-cases t.jailed) [
  | inl jailed ↦ simp (jailed) (record {
    full_box = s.full_box;
    free = λ h. s.full_box;
    within = rw (s.full_box) (omega arith, omega arith, omega arith, omega arith);
    shown_invisible = refl;
    shown_jailed = refl;
  })
  | inr free ↦ simp (free) (record {
    full_box = s.full_box;
    free = λ h. cc;
    within = rw (s.full_box) (small_box-Within p full);
    shown_invisible = refl;
    shown_jailed = refl;
  })
]

on_key-IsSound :
    (tolower : ℕ → ℕ) (full : Box) (p : Point) (c : ℕ) (t : Test)
    → IsSound full t
    → IsSound full (on_key tolower p c t)
unfolding on_key show_state box_of
on_key-IsSound tolower full p c t s =
    let k = tolower c in
    let stopped : IsSound full (record t { done = true }) = record {
      full_box = s.full_box;
      free = s.free;
      within = s.within;
      shown_invisible = s.shown_invisible;
      shown_jailed = s.shown_jailed;
    } in
    if_both (IsSound full) (k == b'd') (IsSound-call full t t.invisible breakpoint refl s) (
      if_both (IsSound full) (k == b'h') (hide-IsSound full t s) (
        if_both (IsSound full) (k == b'j') (jail-IsSound full p t s) (
          if_both (IsSound full) (k == b's') (show-IsSound full t s)
            (if_both (IsSound full) (k == b'q') stopped s))))

test_round-IsSound :
    (tolower : ℕ → ℕ) (full : Box) (e : Event) (t : Test)
    → IsSound full t
    → IsSound full (test_round tolower e t)
unfolding test_round
test_round-IsSound tolower full e t s = elim (Option-cases e.key) [
  | inl quiet ↦ simp (test_round, quiet) s
  | inr (c, hit) ↦ simp (test_round, hit) (on_key-IsSound tolower full e.point c t s)
]

-- In every state that the loop can be in, whatever the positions and keys: the box of the driver lies within
-- the full box, and is the full box unless `Jailed` is set; the screen shows the values of `Jailed`
-- and `Invisible`.
pub Reach-IsSound :
    (tolower : ℕ → ℕ) (full : Box) {t : Test} → Reach tolower full t → IsSound full t
unfolding test_at_start show_state box_of
Reach-IsSound tolower full start = record {
  full_box = refl;
  free = λ h. refl;
  within = (omega arith, omega arith, omega arith, omega arith);
  shown_invisible = refl;
  shown_jailed = refl;
}
Reach-IsSound tolower full (next {t} r (step e running)) =
    test_round-IsSound tolower full e t (Reach-IsSound tolower full r)
