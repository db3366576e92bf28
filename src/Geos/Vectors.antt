-- ===== src/Geos/Vectors.antt =====
-- bin/cc65-snapshot-win32/samples/geos/vector-demo.c: routines hooked into the system's vectors.
-- What a vector points to is a routine: one of the kernal's, by its address, or one of the program's. The output
-- and the kernal's routines that are called are logged, the last one first.
pub mod Hooks
mod Tests
use builds.Base.{ℕ, zero, suc, ◌+◌, u8, Option, none, some, List, [], ◌∷◌}

pub data Routine : Type 0 where
  kernal : ℕ → Routine
  foo1 : Routine
  foo2 : Routine

-- A character at a position, or a call of one of the kernal's routines.
pub data Trace : Type 0 where
  put_at : ℕ → ℕ → ℕ → Trace
  called : ℕ → Trace

-- The globals, and the kernal's vectors.
pub record System : Type 0 where
  pub x : ℕ
  pub y : ℕ
  pub old_mouse_vector : Routine
  pub old_key_vector : Routine
  pub mouse_vector : Routine
  pub key_vector : Routine
  pub trace : List Trace

-- A routine, with fuel for the calls that it makes: a hook calls the routine that was there before.
pub run : ℕ → Routine → System → Option System
run zero routine s = none
run (suc fuel) (kernal k) s = some (record s { trace = called k ∷ s.trace })
run (suc fuel) foo1 s =
    run fuel s.old_mouse_vector
      (record s { x = u8 (s.x + 1); trace = put_at s.x s.y b'A' ∷ s.trace })
run (suc fuel) foo2 s =
    run fuel s.old_key_vector (record s { y = u8 (s.y + 1); trace = put_at s.x s.y b'B' ∷ s.trace })

pub hook_into_system : System → System
hook_into_system s = record s {
  old_mouse_vector = s.mouse_vector;
  mouse_vector = foo1;
  old_key_vector = s.key_vector;
  key_vector = foo2;
}

pub remove_hooks : System → System
remove_hooks s = record s { mouse_vector = s.old_mouse_vector; key_vector = s.old_key_vector }

-- What MainLoop calls a vector for.
pub data Event : Type 0 where
  mouse : Event
  key : Event

abbrev pub vector_of : Event → System → Routine
vector_of mouse s = s.mouse_vector
vector_of key s = s.key_vector

-- MainLoop, on the events until the program is left.
pub main_loop : ℕ → List Event → System → Option System
main_loop fuel [] s = some s
main_loop fuel (e ∷ events) s = elim (run fuel (vector_of e s) s) [
  | none ↦ none
  | some s' ↦ main_loop fuel events s'
]

abbrev pub left : Option System → Option System
left none = none
left (some s) = some (remove_hooks s)

-- `main`, with the vectors as they are when it starts; `remove_hooks` is called at exit.
pub vector_demo : ℕ → List Event → Routine → Routine → Option System
vector_demo fuel events at_mouse at_key = left (
    main_loop fuel events (
      hook_into_system (record {
        x = 0;
        y = 0;
        old_mouse_vector = kernal 0;
        old_key_vector = kernal 0;
        mouse_vector = at_mouse;
        key_vector = at_key;
        trace = [];
      })))
