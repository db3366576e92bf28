-- ===== src/Geos/Vectors/Hooks.antt =====
-- What the hooks of vector-demo.c do.
use builds.Base.{ℕ, zero, suc, ◌+◌, ◌%◌, ◌≤◌, ◌≡◌, ap, ◌∙◌, sym, arith, u8, some, List, [], ◌∷◌}
use native.Mathlib.Nat.{zero-add, add-zero}
use builds.Geos.Vectors.{
  left, kernal, foo1, foo2, Trace, put_at, called, System, run, hook_into_system, remove_hooks,
  Event, mouse, key, main_loop, vector_demo,
}

-- The trace of events, after one, from a position on: each prints its letter at the position, moves it, and
-- has the kernal's own routine called.
unfoldable pub traced : ℕ → ℕ → ℕ → ℕ → List Event → List Trace → List Trace
traced m k x y [] trace = trace
traced m k x y (mouse ∷ events) trace =
    traced m k (suc x) y events (called m ∷ put_at (x % 256) (y % 256) b'A' ∷ trace)
traced m k x y (key ∷ events) trace =
    traced m k x (suc y) events (called k ∷ put_at (x % 256) (y % 256) b'B' ∷ trace)

abbrev pub mice : List Event → ℕ
mice [] = 0
mice (mouse ∷ events) = suc (mice events)
mice (key ∷ events) = mice events

abbrev pub keys : List Event → ℕ
keys [] = 0
keys (mouse ∷ events) = keys events
keys (key ∷ events) = suc (keys events)

-- While the hooks are in.
abbrev hooked : ℕ → ℕ → ℕ → ℕ → List Trace → System
hooked m k x y trace = record {
  x = x % 256;
  y = y % 256;
  old_mouse_vector = kernal m;
  old_key_vector = kernal k;
  mouse_vector = foo1;
  key_vector = foo2;
  trace = trace;
}

next_byte : (x : ℕ) → u8 (x % 256 + 1) ≡ suc x % 256
next_byte x = omega arith

main_loop-hooked :
    (fuel m k x y : ℕ) (events : List Event) (trace : List Trace)
    → main_loop (suc (suc fuel)) events (hooked m k x y trace)
      ≡ some (hooked m k (mice events + x) (keys events + y) (traced m k x y events trace))
unfolding main_loop run traced
main_loop-hooked fuel m k x y [] trace =
    ap (λ (n : ℕ). some (hooked m k n y trace)) (sym (zero-add x))
    ∙ ap (λ (n : ℕ). some (hooked m k (0 + x) n trace)) (sym (zero-add y))
main_loop-hooked fuel m k x y (mouse ∷ events) trace =
    let trace' = called m ∷ put_at (x % 256) (y % 256) b'A' ∷ trace in
    ap (λ (b : ℕ). main_loop (suc (suc fuel)) events (record (hooked m k x y trace') { x = b }))
      (next_byte x)
    ∙ main_loop-hooked fuel m k (suc x) y events trace'
    ∙ ap (λ (n : ℕ). some (hooked m k n (keys events + y) (traced m k (suc x) y events trace')))
        (omega arith)
main_loop-hooked fuel m k x y (key ∷ events) trace =
    let trace' = called k ∷ put_at (x % 256) (y % 256) b'B' ∷ trace in
    ap (λ (b : ℕ). main_loop (suc (suc fuel)) events (record (hooked m k x y trace') { y = b }))
      (next_byte y)
    ∙ main_loop-hooked fuel m k x (suc y) events trace'
    ∙ ap (λ (n : ℕ). some (hooked m k (mice events + x) n (traced m k x (suc y) events trace')))
        (omega arith)

-- With routines of the kernal in the vectors at the start, whatever the events: two calls in a row are enough
-- fuel. Each event prints its letter, an A for the mouse and a B for the keyboard, in the column of the
-- number of mouse events and the row of the number of key events before it, modulo 256, and then
-- calls the routine that was there before; at exit both vectors are as they were.
pub vector_demo-traced :
    (fuel : ℕ) (events : List Event) (m k : ℕ)
    → 2 ≤ fuel
    → vector_demo fuel events (kernal m) (kernal k)
      ≡ some (record {
        x = mice events % 256;
        y = keys events % 256;
        old_mouse_vector = kernal m;
        old_key_vector = kernal k;
        mouse_vector = kernal m;
        key_vector = kernal k;
        trace = traced m k 0 0 events [];
      })
unfolding vector_demo hook_into_system remove_hooks
vector_demo-traced zero events m k h = absurd (omega arith)
vector_demo-traced (suc zero) events m k h = absurd (omega arith)
vector_demo-traced (suc (suc fuel)) events m k h =
    ap left (main_loop-hooked fuel m k 0 0 events [])
    ∙ ap (λ (n : ℕ). left (some (hooked m k n (keys events + 0) (traced m k 0 0 events []))))
        (add-zero (mice events))
    ∙ ap (λ (n : ℕ). left (some (hooked m k (mice events) n (traced m k 0 0 events []))))
        (add-zero (keys events))
