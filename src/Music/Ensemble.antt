-- ===== src/Music/Ensemble.antt =====
-- The three voices of nachtm.c together: when the music ends.
use builds.Base.{
  ℕ, ◌+◌, ◌-◌, ◌<◌, ◌≡◌, ◌≢◌, refl, ap, ◌∙◌, arith, ◌==◌, if◌then◌else◌, Bool, true, false, some,
  bit_and, bit_or,
}
use native.Mathlib.Decide.{ℕ_discrete}
use builds.Music.{VoiceCtrl, Player, play_voice, play_tick}
use builds.Music.Voice.{remaining, IsPlaying, play_voice-uses, play_voice-ends, play_voice-done}

-- The byte `Done`, with the bits of the voices that have ended.
unfoldable pub flags : Bool → Bool → Bool → ℕ
flags a b c = (if a then 1 else 0) + (if b then 2 else 0) + (if c then 4 else 0)

-- A voice that has `k` steps to go until it sets its bit; at 0 it is set.
pub record HasLeft (mask : ℕ) (vc : VoiceCtrl) (k : ℕ) : Type 0 where
  pub masked : vc.done_mask ≡ mask
  pub playing : IsPlaying vc
  pub left : k ≢ 0 → remaining vc + 1 ≡ k

-- One step of such a voice, where `Done` is `unset` before the voice has ended and `set` after.
module _ (mask unset set : ℕ) (clear : bit_and unset mask ≡ 0) (marked : bit_and set mask ≢ 0)
    (marks : bit_or unset mask ≡ set) where
  abbrev state : ℕ → ℕ
  state k = if k == 0 then set else unset

  StepsTo : VoiceCtrl → ℕ → Type 0
  StepsTo vc k =
      (vc' : VoiceCtrl) × (play_voice vc (state k) ≡ some (vc', state (k - 1)))
      × HasLeft mask vc' (k - 1)

  step_done : (vc : VoiceCtrl) → HasLeft mask vc 0 → StepsTo vc 0
  unfolding StepsTo
  step_done vc h = (vc, play_voice-done vc set (rw h.masked marked), h)

  step_last : (vc : VoiceCtrl) → HasLeft mask vc 1 → StepsTo vc 1
  unfolding StepsTo
  step_last vc h = (
    vc,
    play_voice-ends vc unset h.playing (rw h.masked clear) (omega (arith, h.left (omega arith)))
        ∙ ap (λ d. some (vc, d)) (rw h.masked marks),
    record { masked = h.masked; playing = h.playing; left = λ ne. absurd (ne refl) },
  )

  step_more : (vc : VoiceCtrl) (k : ℕ) → 1 < k → HasLeft mask vc k → StepsTo vc k
  unfolding StepsTo
  step_more vc k lt h =
      let before : (k == 0) ≡ false = ground arith in
      let after : (k - 1 == 0) ≡ false = ground arith in
      let now : remaining vc + 1 ≡ k = h.left (omega arith) in
      let (vc', e, (playing, uses, kept)) =
        play_voice-uses vc unset h.playing (rw h.masked clear) (omega arith) in
      (
        vc',
        rw (before, after) e,
        record { masked = kept ∙ h.masked; playing = playing; left = λ _. omega arith },
      )

  voice_step : (vc : VoiceCtrl) (k : ℕ) → HasLeft mask vc k → StepsTo vc k
  voice_step vc k h = elim (ℕ_discrete k 0) [
    | yes e ↦ rw e (step_done vc (rw (← e) h))
    | no ne ↦ elim (ℕ_discrete k 1) [
      | yes e ↦ rw e (step_last vc (rw (← e) h))
      | no more ↦ step_more vc k (omega arith) h
    ]
  ]

first_flag :
    (y z : Bool)
    → (bit_and (flags false y z) 1 ≡ 0)
      × (bit_and (flags true y z) 1 ≢ 0)
      × (bit_or (flags false y z) 1 ≡ flags true y z)
unfolding flags
first_flag y z = ground arith

second_flag :
    (x z : Bool)
    → (bit_and (flags x false z) 2 ≡ 0)
      × (bit_and (flags x true z) 2 ≢ 0)
      × (bit_or (flags x false z) 2 ≡ flags x true z)
unfolding flags
second_flag x z = ground arith

third_flag :
    (x y : Bool)
    → (bit_and (flags x y false) 4 ≡ 0)
      × (bit_and (flags x y true) 4 ≢ 0)
      × (bit_or (flags x y false) 4 ≡ flags x y true)
unfolding flags
third_flag x y = ground arith

-- The whole player, with `a`, `b` and `c` steps to go.
pub record IsAt (p : Player) (a b c : ℕ) : Type 0 where
  pub done : p.finished ≡ flags (a == 0) (b == 0) (c == 0)
  pub one : HasLeft 1 p.v1 a
  pub two : HasLeft 2 p.v2 b
  pub three : HasLeft 4 p.v3 c

if_first : (x y z : Bool) → (if x then flags true y z else flags false y z) ≡ flags x y z
if_first true y z = refl
if_first false y z = refl

if_second : (x y z : Bool) → (if y then flags x true z else flags x false z) ≡ flags x y z
if_second x true z = refl
if_second x false z = refl

if_third : (x y z : Bool) → (if z then flags x y true else flags x y false) ≡ flags x y z
if_third x y true = refl
if_third x y false = refl

pub play_tick-IsAt :
    (p : Player) (a b c : ℕ)
    → IsAt p a b c
    → (p' : Player) × (play_tick p ≡ some p') × IsAt p' (a - 1) (b - 1) (c - 1)
unfolding play_tick StepsTo
play_tick-IsAt p a b c s =
    let x = a == 0 in
    let y = b == 0 in
    let z = c == 0 in
    let x' = a - 1 == 0 in
    let y' = b - 1 == 0 in
    let z' = c - 1 == 0 in
    let (c1, s1, o1) = first_flag y z in
    let (v1, e1, h1) = voice_step 1 (flags false y z) (flags true y z) c1 s1 o1 p.v1 a s.one in
    let (c2, s2, o2) = second_flag x' z in
    let (v2, e2, h2) = voice_step 2 (flags x' false z) (flags x' true z) c2 s2 o2 p.v2 b s.two in
    let (c3, s3, o3) = third_flag x' y' in
    let (v3, e3, h3) =
      voice_step 4 (flags x' y' false) (flags x' y' true) c3 s3 o3 p.v3 c s.three in
    let e1' = rw (if_first x y z, if_first x' y z) at e1 in
    let e2' = rw (if_second x' y z, if_second x' y' z) at e2 in
    let e3' = rw (if_third x' y' z, if_third x' y' z') at e3 in
    (
      record { v1 = v1; v2 = v2; v3 = v3; finished = flags x' y' z' },
      rw (s.done, e1', e2', e3'),
      record { done = refl; one = h1; two = h2; three = h3 },
    )
