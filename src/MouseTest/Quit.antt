-- ===== src/MouseTest/Quit.antt =====
-- When the loop of mousetest.c ends, and the program.
use builds.Base.{
  ℕ, ◌≡◌, refl, ◌∙◌, arith, ◌==◌, Bool, true, false, not, ◌&&◌, ◌||◌, none, some, Option-cases, inl,
  inr, List, [], ◌∷◌, ◌++◌,
}
use builds.MouseTest.{
  Box, Point, Test, show_state, jail, hide, show, on_key, Event, test_round, test_loop,
  test_at_start, goodbye, unload, after_loop, mouse_test, warned,
}

-- The key of an event is not q.
unfoldable pub is_quiet : (ℕ → ℕ) → Event → Bool
is_quiet tolower e = elim e.key [ none ↦ true | some c ↦ not (tolower c == b'q') ]

unfoldable pub all_quiet : (ℕ → ℕ) → List Event → Bool
all_quiet tolower [] = true
all_quiet tolower (e ∷ events) = is_quiet tolower e && all_quiet tolower events

-- The state after the rounds of some events.
unfoldable pub rounds_of : (ℕ → ℕ) → List Event → Test → Test
rounds_of tolower [] t = t
rounds_of tolower (e ∷ events) t = rounds_of tolower events (test_round tolower e t)

show-done : (t : Test) → (show t).done ≡ t.done
unfolding show show_state
show-done t = ground arith

jail-done : (p : Point) (t : Test) → (jail p t).done ≡ t.done
unfolding jail show_state
jail-done p t = ground arith

on_key-done :
    (tolower : ℕ → ℕ) (p : Point) (c : ℕ) (t : Test)
    → (tolower c == b'q') ≡ false
    → (on_key tolower p c t).done ≡ t.done
unfolding on_key show_state hide
on_key-done tolower p c t e = ground (arith, show-done t, jail-done p t)

test_round-done :
    (tolower : ℕ → ℕ) (e : Event) (t : Test)
    → is_quiet tolower e ≡ true
    → (test_round tolower e t).done ≡ t.done
unfolding test_round is_quiet
test_round-done tolower e t quiet = elim (Option-cases e.key) [
  | inl idle ↦ simp (test_round, idle) refl
  | inr (c, hit) ↦
      let other : (tolower c == b'q') ≡ false = ground arith in
      simp (test_round, hit) (on_key-done tolower e.point c t other)
]

on_key-quit :
    (tolower : ℕ → ℕ) (p : Point) (c : ℕ) (t : Test)
    → tolower c ≡ b'q'
    → on_key tolower p c t ≡ record t { done = true }
unfolding on_key
on_key-quit tolower p c t e = rw (e) refl

-- Whatever came before, the loop ends in the round of the first q, and with no call: its state is that of the
-- rounds before, and the events after it are left.
pub test_loop-quit :
    (tolower : ℕ → ℕ) (events rest : List Event) (e : Event) (c : ℕ) (t : Test)
    → all_quiet tolower events ≡ true
    → t.done ≡ false
    → e.key ≡ some c
    → tolower c ≡ b'q'
    → test_loop tolower (events ++ e ∷ rest) t
      ≡ some (record (rounds_of tolower events t) { done = true }, rest)
unfolding test_loop all_quiet rounds_of test_round
test_loop-quit tolower [] rest e c t quiet running hit quit =
    let stop : test_round tolower e t ≡ record t { done = true } =
      simp (test_round, hit) (on_key-quit tolower e.point c t quit) in
    rw (stop) refl
test_loop-quit tolower (e' ∷ events) rest e c t quiet running hit quit =
    let quiet' : is_quiet tolower e' ≡ true = ground arith in
    let more : all_quiet tolower events ≡ true = ground arith in
    let running' = test_round-done tolower e' t quiet' ∙ running in
    rw (running')
      (test_loop-quit tolower events rest e c (test_round tolower e' t) more running' hit quit)

-- Once the driver is loaded, whether an argument named it or the user answered y, the first q ends the
-- program: with a goodbye in the state of the rounds before it, if the driver unloads without an error.
pub mouse_test-goodbye :
    (tolower : ℕ → ℕ) (named : Bool) (answer : ℕ) (full : Box) (events rest : List Event)
    (e : Event) (c : ℕ)
    → (named || (tolower answer == b'y')) ≡ true
    → all_quiet tolower events ≡ true
    → e.key ≡ some c
    → tolower c ≡ b'q'
    → mouse_test tolower named answer 0 0 full (events ++ e ∷ rest)
      ≡ goodbye (record (rounds_of tolower events (test_at_start full)) { done = true })
unfolding mouse_test warned after_loop unload test_at_start show_state
mouse_test-goodbye tolower named answer full events rest e c asked quiet hit quit =
    let end = test_loop-quit tolower events rest e c (test_at_start full) quiet refl hit quit in
    ground (arith, end)
