-- ===== src/MouseTest/Visibility.antt =====
-- The count `Invisible` of mousetest.c and the calls of the driver that hide and show the pointer.
use builds.Base.{
  ℕ, ◌+◌, ◌-◌, ◌≤◌, ◌<◌, ◌≡◌, refl, arith, ◌==◌, if_both, Bool-cases, Option-cases, inl, inr, List,
  [], ◌∷◌,
}
use builds.MouseTest.{
  Box, Point, Test, Call, mouse_setbox, mouse_hide, mouse_show, breakpoint, show_state, jail, hide,
  show, on_key, Event, test_round, test_at_start,
}
use builds.MouseTest.Jail.{Reach, start, next, step}

-- For each call that hides the pointer there must be one that shows it, so that it is visible: the calls
-- that are still to come. A pointer that is visible stays so.
unfoldable pub depth : List Call → ℕ
depth [] = 1
depth (mouse_hide ∷ calls) = depth calls + 1
depth (mouse_show ∷ calls) = depth calls - 1
depth (mouse_setbox b ∷ calls) = depth calls
depth (breakpoint ∷ calls) = depth calls

-- The calls that hide the pointer.
unfoldable pub hides : List Call → ℕ
hides [] = 0
hides (mouse_hide ∷ calls) = hides calls + 1
hides (mouse_show ∷ calls) = hides calls
hides (mouse_setbox b ∷ calls) = hides calls
hides (breakpoint ∷ calls) = hides calls

depth-le-hides : (calls : List Call) → depth calls ≤ hides calls + 1
unfolding depth hides
depth-le-hides [] = omega arith
depth-le-hides (mouse_hide ∷ calls) = omega (arith, depth-le-hides calls)
depth-le-hides (mouse_show ∷ calls) = omega (arith, depth-le-hides calls)
depth-le-hides (mouse_setbox b ∷ calls) = depth-le-hides calls
depth-le-hides (breakpoint ∷ calls) = depth-le-hides calls

-- From `t` to `u` the count follows the calls, while there are fewer than 255 that hide.
record Follows (t u : Test) : Type 0 where
  pub more : hides t.calls ≤ hides u.calls
  pub counts : t.invisible ≡ depth t.calls → hides u.calls < 255 → u.invisible ≡ depth u.calls

hide-Follows : (t : Test) → Follows t (hide t)
unfolding hide show_state depth hides
hide-Follows t =
    let le = depth-le-hides t.calls in record { more = omega arith; counts = λ e h. omega arith }

show-Follows : (t : Test) → Follows t (show t)
unfolding show show_state depth hides
show-Follows t = elim (Bool-cases (t.invisible == 0)) [
  | inl zero_count ↦
      let empty : t.invisible ≡ 0 = ground arith in
      simp (show, zero_count) (record { more = omega arith; counts = λ same h. omega arith })
  | inr more ↦
      let le = depth-le-hides t.calls in
      let ne : 0 < t.invisible = ground arith in
      simp (show, more) (record { more = omega arith; counts = λ e h. omega arith })
]

jail-Follows : (p : Point) (t : Test) → Follows t (jail p t)
unfolding jail show_state depth hides
jail-Follows p t = elim (Bool-cases t.jailed) [
  | inl jailed ↦ simp (jail, jailed) (record { more = omega arith; counts = λ e h. e })
  | inr free ↦ simp (jail, free) (record { more = omega arith; counts = λ e h. e })
]

on_key-Follows : (tolower : ℕ → ℕ) (p : Point) (c : ℕ) (t : Test) → Follows t (on_key tolower p c t)
unfolding on_key show_state depth hides
on_key-Follows tolower p c t =
    let k = tolower c in
    if_both (Follows t) (k == b'd') (record { more = omega arith; counts = λ e h. e })
      (if_both (Follows t) (k == b'h') (hide-Follows t) (
        if_both (Follows t) (k == b'j') (jail-Follows p t) (
          if_both (Follows t) (k == b's') (show-Follows t) (
            if_both (Follows t) (k == b'q') (record { more = omega arith; counts = λ e h. e })
              (record { more = omega arith; counts = λ e h. e })))))

test_round-Follows : (tolower : ℕ → ℕ) (e : Event) (t : Test) → Follows t (test_round tolower e t)
unfolding test_round
test_round-Follows tolower e t = elim (Option-cases e.key) [
  | inl quiet ↦ simp (test_round, quiet) (record { more = omega arith; counts = λ e h. e })
  | inr (c, hit) ↦ simp (test_round, hit) (on_key-Follows tolower e.point c t)
]

-- In every state that the loop can be in after fewer than 255 calls that hide the pointer, `Invisible` is the
-- number of calls that it takes to show it.
pub Reach-depth :
    (tolower : ℕ → ℕ) (full : Box) {t : Test}
    → Reach tolower full t
    → hides t.calls < 255
    → t.invisible ≡ depth t.calls
unfolding test_at_start show_state depth
Reach-depth tolower full start h = refl
Reach-depth tolower full (next {t} r (step e running)) h =
    let f = test_round-Follows tolower e t in
    let more = f.more in f.counts (Reach-depth tolower full r (omega arith)) h
