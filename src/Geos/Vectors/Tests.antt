-- ===== src/Geos/Vectors/Tests.antt =====
-- A run of vector-demo.c, and its theorem at concrete events.
use builds.Base.{◌≡◌, refl, arith, some, List, [], ◌∷◌}
use builds.Geos.Vectors.{
  kernal, Trace, put_at, called, System, Event, mouse, key, vector_demo, main_loop, run,
  hook_into_system, remove_hooks,
}
use builds.Geos.Vectors.Hooks.{traced, vector_demo-traced}

abbrev events : List Event
events = mouse ∷ mouse ∷ key ∷ mouse ∷ []

abbrev at_exit : List Trace → System
at_exit trace = record {
  x = 3;
  y = 1;
  old_mouse_vector = kernal 1;
  old_key_vector = kernal 2;
  mouse_vector = kernal 1;
  key_vector = kernal 2;
  trace = trace;
}

letters :
    vector_demo 2 events (kernal 1) (kernal 2)
    ≡ some (
        at_exit (
          called 1
          ∷ put_at 2 1 65
          ∷ called 2
          ∷ put_at 2 0 66
          ∷ called 1
          ∷ put_at 1 0 65
          ∷ called 1
          ∷ put_at 0 0 65
          ∷ []))
unfolding vector_demo main_loop run hook_into_system remove_hooks
letters = refl

vector_demo-traced_example :
    vector_demo 2 events (kernal 1) (kernal 2) ≡ some (at_exit (traced 1 2 0 0 events []))
vector_demo-traced_example = vector_demo-traced 2 events 1 2 (omega arith)
