-- ===== src/MouseTest/Tests.antt =====
-- Runs of the loop of mousetest.c, and its theorems at concrete inputs.
use builds.Base.{ℕ, ◌≡◌, refl, arith, true, false, some, [], ◌∷◌, ◌++◌, pos, ◌+ℤ◌, ◌-ℤ◌, s16}
use builds.MouseTest.{
  Box, Point, Test, small_box, show_state, jail, hide, on_key, Event, test_round, test_at_start,
  goodbye, mouse_test,
}
use builds.MouseTest.Jail.{Reach, start, next, step, IsSound, Reach-IsSound}
use builds.MouseTest.Visibility.{depth, hides, Reach-depth}
use builds.MouseTest.Quit.{all_quiet, is_quiet, rounds_of, mouse_test-goodbye}

-- Keys that are lower case already.
abbrev as_is : ℕ → ℕ
as_is c = c

abbrev screen : Box
screen = record { minx = pos 0; miny = pos 0; maxx = pos 319; maxy = pos 199 }

abbrev corner : Point
corner = record { x = pos 4; y = pos 195 }

abbrev pressed : ℕ → Event
pressed c = record { point = corner; key = some c }

jailed_box :
    small_box corner screen ≡ record { minx = pos 0; miny = pos 185; maxx = pos 14; maxy = pos 199 }
unfolding small_box ◌-ℤ◌ ◌+ℤ◌ s16
jailed_box = refl

-- With 256 calls that hide the pointer, the count is back at its start.
wrapped : (hide (record (test_at_start screen) { invisible = 255 })).invisible ≡ 0
unfolding hide test_at_start show_state
wrapped = refl

-- The pointer is hidden once more, and jailed.
abbrev two_rounds : Test
two_rounds =
    test_round as_is (pressed b'j') (test_round as_is (pressed b'h') (test_at_start screen))

two_rounds-Reach : Reach as_is screen two_rounds
unfolding test_round on_key hide show_state test_at_start
two_rounds-Reach = next (next start (step (pressed b'h') refl)) (step (pressed b'j') refl)

Reach-IsSound_example : IsSound screen two_rounds
Reach-IsSound_example = Reach-IsSound as_is screen two_rounds-Reach

Reach-depth_example : two_rounds.invisible ≡ depth two_rounds.calls
unfolding hides test_round on_key hide show_state test_at_start jail
Reach-depth_example = Reach-depth as_is screen two_rounds-Reach (omega arith)

mouse_test-goodbye_example :
    mouse_test as_is false b'y' 0 0 screen ((pressed b'j' ∷ []) ++ pressed b'q' ∷ [])
    ≡ goodbye (record (rounds_of as_is (pressed b'j' ∷ []) (test_at_start screen)) { done = true })
unfolding all_quiet is_quiet
mouse_test-goodbye_example =
    mouse_test-goodbye as_is false b'y' screen (pressed b'j' ∷ []) [] (pressed b'q') b'q' refl refl
      refl refl
