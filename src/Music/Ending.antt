-- ===== src/Music/Ending.antt =====
-- When the main loop of nachtm.c ends.
use builds.Base.{
  ◌*◌, ◌/◌, ◌%◌, ◌^◌, u32, ℕ, zero, suc, ◌+◌, ◌-◌, ◌≤◌, ◌<◌, ◌≡◌, refl, ap, ◌∙◌, arith, ◌==◌, Bool,
  true, false, ◌&&◌, List, some,
}
use Prim.Native.Nat.{max}
use native.Mathlib.Decide.{ℕ_discrete}
use builds.Music.Score.{voice1, voice2, voice3}
use builds.Music.{
  Player, play_tick, Keys, wants_stop, played_out, stopped, play_from, player_at_start, perform,
  display_time,
}
use builds.Music.Voice.{is_score, total}
use builds.Music.Ensemble.{flags, IsAt, play_tick-IsAt}

flags-all : (x y z : Bool) → (flags x y z == 7) ≡ (x && (y && z))
unfolding flags
flags-all x y z = ground arith

longest : ℕ → ℕ → ℕ → ℕ
longest a b c = max a (max b c)

finished-IsAt : (p : Player) (a b c : ℕ) → IsAt p a b c → (p.finished == 7) ≡ (longest a b c == 0)
unfolding longest
finished-IsAt p a b c s = rw (s.done, flags-all) (ground arith)

longest-pred : (a b c : ℕ) → longest (a - 1) (b - 1) (c - 1) ≡ longest a b c - 1
unfolding longest
longest-pred a b c = omega arith

module _ (keys : Keys) where
  play_from-end :
      (f n : ℕ) (p : Player) → (p.finished == 7) ≡ true → play_from (suc f) keys n p ≡ played_out n
  unfolding play_from
  play_from-end f n p e = rw e

  play_from-stop :
      (f n : ℕ) (p : Player)
      → (p.finished == 7) ≡ false
      → wants_stop (keys n) ≡ true
      → play_from (suc f) keys n p ≡ stopped n
  unfolding play_from
  play_from-stop f n p e k = rw (e, k)

  play_from-step :
      (f n : ℕ) (p p' : Player)
      → (p.finished == 7) ≡ false
      → wants_stop (keys n) ≡ false
      → play_tick p ≡ some p'
      → play_from (suc f) keys n p ≡ play_from f keys (n + 1) p'
  unfolding play_from
  play_from-step f n p p' e k t = rw (e, k, t)

  play_from-played_out :
      (f n m : ℕ) (p : Player) (a b c : ℕ)
      → IsAt p a b c
      → longest a b c < f
      → m ≡ n + longest a b c
      → ((i : ℕ) → i < m → wants_stop (keys i) ≡ false)
      → play_from f keys n p ≡ played_out m
  play_from-played_out zero n m p a b c s lt e h = absurd (omega arith)
  play_from-played_out (suc f) n m p a b c s lt e h = elim (ℕ_discrete (longest a b c) 0) [
    | yes none_left ↦
        play_from-end f n p (finished-IsAt p a b c s ∙ ground arith) ∙ ap played_out (omega arith)
    | no more ↦
        let (p', t, s') = play_tick-IsAt p a b c s in
        let less = longest-pred a b c in
        play_from-step f n p p' (finished-IsAt p a b c s ∙ ground arith) (h n (omega arith)) t
        ∙ play_from-played_out f (n + 1) m p' (a - 1) (b - 1) (c - 1) s' (omega arith) (omega arith)
            h
  ]

  play_from-stopped :
      (f n m : ℕ) (p : Player) (a b c : ℕ)
      → IsAt p a b c
      → longest a b c < f
      → n ≤ m
      → m < n + longest a b c
      → ((i : ℕ) → i < m → wants_stop (keys i) ≡ false)
      → wants_stop (keys m) ≡ true
      → play_from f keys n p ≡ stopped m
  play_from-stopped zero n m p a b c s lt le e h q = absurd (omega arith)
  play_from-stopped (suc f) n m p a b c s lt le e h q =
      let playing : (p.finished == 7) ≡ false = finished-IsAt p a b c s ∙ ground arith in
      elim (ℕ_discrete n m) [
        | yes now ↦ rw now (play_from-stop f m p playing q)
        | no later ↦
            let (p', t, s') = play_tick-IsAt p a b c s in
            let less = longest-pred a b c in
            play_from-step f n p p' playing (h n (omega arith)) t
            ∙ play_from-stopped f (n + 1) m p' (a - 1) (b - 1) (c - 1) s' (omega arith)
                (omega arith) (omega arith) h q
      ]

start-IsAt :
    (one two three : List ℕ)
    → is_score one ≡ true
    → is_score two ≡ true
    → is_score three ≡ true
    → IsAt (player_at_start one two three) (total one + 1) (total two + 1) (total three + 1)
start-IsAt one two three s1 s2 s3 = record {
  done = unfold flags in ground arith;
  one = record {
    masked = refl;
    playing = record { score = s1; byte = omega arith };
    left = λ _. omega arith;
  };
  two = record {
    masked = refl;
    playing = record { score = s2; byte = omega arith };
    left = λ _. omega arith;
  };
  three = record {
    masked = refl;
    playing = record { score = s3; byte = omega arith };
    left = λ _. omega arith;
  };
}

-- Without a key that stops it, the music of any three proper tables ends, and in the round after the
-- last note of the longest.
pub play_from-longest :
    (fuel : ℕ) (keys : Keys) (one two three : List ℕ)
    → is_score one ≡ true
    → is_score two ≡ true
    → is_score three ≡ true
    → let m = max (total one) (max (total two) (total three)) + 1 in
      m < fuel
      → ((i : ℕ) → i < m → wants_stop (keys i) ≡ false)
      → play_from fuel keys 0 (player_at_start one two three) ≡ played_out m
unfolding longest
play_from-longest fuel keys one two three s1 s2 s3 lt h =
    play_from-played_out keys fuel 0 _ _ _ _ _ (start-IsAt one two three s1 s2 s3) (omega arith)
      (omega arith) h

voice1-total : (is_score voice1 ≡ true) × (total voice1 ≡ 8768)
unfolding voice1 is_score total
voice1-total = (refl, refl)

voice2-total : (is_score voice2 ≡ true) × (total voice2 ≡ 8768)
unfolding voice2 is_score total
voice2-total = (refl, refl)

voice3-total : (is_score voice3 ≡ true) × (total voice3 ≡ 8768)
unfolding voice3 is_score total
voice3-total = (refl, refl)

voices-IsAt : IsAt (player_at_start voice1 voice2 voice3) 8769 8769 8769
voices-IsAt = rw voice1-total.1 at (rw voice2-total.1 at (rw voice3-total.1 at start))
  where
    start :
        IsAt
          (player_at_start voice1 voice2 voice3)
          (total voice1 + 1)
          (total voice2 + 1)
          (total voice3 + 1)
    start = start-IsAt voice1 voice2 voice3 voice1-total.0 voice2-total.0 voice3-total.0

-- A table is proper, and its notes have that many ticks.
abbrev pub HasTicks : ℕ → List ℕ → Type 0
HasTicks n score = (is_score score ≡ true) × (total score ≡ n)

-- All notes of the three voices are in the frequency table, and each voice has 8768 ticks of them.
-- Left alone, and with more rounds of fuel, the program's own music ends in round 8769.
pub perform-played_out :
    (fuel : ℕ) (keys : Keys)
    → 8769 < fuel
    → ((i : ℕ) → i < 8769 → wants_stop (keys i) ≡ false)
    → HasTicks 8768 voice1
      × HasTicks 8768 voice2
      × HasTicks 8768 voice3
      × (perform fuel keys ≡ played_out 8769)
unfolding perform longest
perform-played_out fuel keys lt h = (
  voice1-total,
  voice2-total,
  voice3-total,
  play_from-played_out keys fuel 0 8769 _ 8769 8769 8769 voices-IsAt (omega arith) (omega arith) h,
)

-- The first key that stops it, in a round before that, ends it there.
pub perform-stopped :
    (fuel : ℕ) (keys : Keys) (m : ℕ)
    → 8769 < fuel
    → m < 8769
    → ((i : ℕ) → i < m → wants_stop (keys i) ≡ false)
    → wants_stop (keys m) ≡ true
    → perform fuel keys ≡ stopped m
unfolding perform longest
perform-stopped fuel keys m lt before h q =
    play_from-stopped keys fuel 0 m _ 8769 8769 8769 voices-IsAt (omega arith) (omega arith)
      (omega arith) h q

-- The time shown is that since the start in minutes and seconds, also when the clock has gone round.
pub display_time_lem :
    (clocks_per_sec start passed : ℕ)
    → start < 2 ^ 32
    → passed < 2 ^ 32
    → passed / clocks_per_sec < 60 * 65536
    → let t = display_time clocks_per_sec start ((start + passed) % 2 ^ 32) in
      (t.sec < 60) × (t.min * 60 + t.sec ≡ passed / clocks_per_sec)
unfolding display_time
display_time_lem cps start passed hs hp h =
    let whole : u32 ((start + passed) % 2 ^ 32 + 2 ^ 32 - start) ≡ passed = omega arith in
    rw whole (omega arith, omega arith)
