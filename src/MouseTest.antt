-- ===== src/MouseTest.antt =====
-- bin/cc65-snapshot-win32/samples/mousetest.c: a loop that shows the state of the mouse and, by key,
-- hides, shows and jails the pointer.
-- The driver is its calls, which are logged; the positions and keys are events. `bool` is an
-- unsigned char in cc65's stdbool.h, and `Invisible` counts in it. Characters are ASCII codes, and
-- `tolower` is a parameter.
pub mod Jail
pub mod Visibility
pub mod Quit
mod Tests
use builds.Base.{
  ℕ, zero, suc, ◌+◌, ◌-◌, ◌==◌, if◌then◌else◌, u8, Bool, true, false, Option, none, some, List, [],
  ◌∷◌, ℤ, pos, ◌+ℤ◌, ◌-ℤ◌, ltb_ℤ, s16,
}

pub record Box : Type 0 where
  pub minx : ℤ
  pub miny : ℤ
  pub maxx : ℤ
  pub maxy : ℤ

pub record Point : Type 0 where
  pub x : ℤ
  pub y : ℤ

-- What the loop calls, other than output.
pub data Call : Type 0 where
  mouse_hide : Call
  mouse_show : Call
  mouse_setbox : Box → Call
  breakpoint : Call

-- The locals of `main`, what ShowState last showed, and the calls, the last one first.
pub record Test : Type 0 where
  pub full_box : Box
  pub invisible : ℕ
  pub done : Bool
  pub jailed : Bool
  pub shown_invisible : ℕ
  pub shown_jailed : Bool
  pub calls : List Call

abbrev pub max : ℤ → ℤ → ℤ
max a b = if ltb_ℤ b a then a else b

abbrev pub min : ℤ → ℤ → ℤ
min a b = if ltb_ℤ a b then a else b

pub show_state : Test → Test
show_state t = record t { shown_invisible = t.invisible; shown_jailed = t.jailed }

abbrev pub call : Call → Test → Test
call c t = record t { calls = c ∷ t.calls }

pub small_box : Point → Box → Box
small_box p full = record {
  minx = max (s16 (p.x -ℤ pos 10)) full.minx;
  miny = max (s16 (p.y -ℤ pos 10)) full.miny;
  maxx = min (s16 (p.x +ℤ pos 10)) full.maxx;
  maxy = min (s16 (p.y +ℤ pos 10)) full.maxy;
}

-- `case 'j'`
pub jail : Point → Test → Test
jail p t = show_state (
    if t.jailed
    then record (call (mouse_setbox t.full_box) t) { jailed = false }
    else record (call (mouse_setbox (small_box p t.full_box)) t) { jailed = true })

-- `case 'h'`
pub hide : Test → Test
hide t = show_state (record (call mouse_hide t) { invisible = u8 (t.invisible + 1) })

-- `case 's'`
pub show : Test → Test
show t =
    if t.invisible == 0
    then call mouse_show t
    else show_state (record (call mouse_show t) { invisible = u8 (t.invisible + 256 - 1) })

-- The switch on a key; after `case 'd'` the screen is drawn again from `top`.
pub on_key : (ℕ → ℕ) → Point → ℕ → Test → Test
on_key tolower p c t =
    let k = tolower c in
    if k == b'd'
    then show_state (call breakpoint t)
    else if k == b'h'
    then hide t
    else if k == b'j'
    then jail p t
    else if k == b's'
    then show t
    else if k == b'q'
    then record t { done = true }
    else t

-- A round of the loop: where the mouse is, and a key if one is hit.
pub record Event : Type 0 where
  pub point : Point
  pub key : Option ℕ

pub test_round : (ℕ → ℕ) → Event → Test → Test
test_round tolower e t = elim e.key [ none ↦ t | some c ↦ on_key tolower e.point c t ]

-- `do ... while (!Done);`, on the events: none if they are used up first.
pub test_loop : (ℕ → ℕ) → List Event → Test → Option (Test × List Event)
test_loop tolower [] t = none
test_loop tolower (e ∷ events) t =
    let t' = test_round tolower e t in
    let rest = test_loop tolower events t' in if t'.done then some (t', events) else rest

-- The state when the loop starts, with the box that the driver reports.
pub test_at_start : Box → Test
test_at_start full = show_state (record {
  full_box = full;
  invisible = 1;
  done = false;
  jailed = false;
  shown_invisible = 0;
  shown_jailed = false;
  calls = [];
})

-- How `main` ends; `waiting` is for more events.
pub data Ending : Type 0 where
  declined : Ending
  load_failed : ℕ → Ending
  unload_failed : ℕ → Test → Ending
  goodbye : Test → Ending
  waiting : Ending

-- CheckError of mouse_unload, where MOUSE_ERR_OK is 0.
pub unload : ℕ → Test → Ending
unload error t = if error == 0 then goodbye t else unload_failed error t

after_loop : ℕ → Option (Test × List Event) → Ending
after_loop error none = waiting
after_loop error (some (t, events)) = unload error t

-- DoWarning: whether the program goes on, by the key that the user presses.
pub warned : (ℕ → ℕ) → ℕ → Bool
warned tolower answer = tolower answer == b'y'

-- With a dynamically loaded driver: `named` if an argument gives it, else DoWarning asks, and `answer`
-- is the key; `load` and `unloaded` are the error codes of the two calls.
pub mouse_test : (ℕ → ℕ) → Bool → ℕ → ℕ → ℕ → Box → List Event → Ending
mouse_test tolower named answer load unloaded full events =
    let run =
      if load == 0
      then after_loop unloaded (test_loop tolower events (test_at_start full))
      else load_failed load in
    if named then run else if warned tolower answer then run else declined
