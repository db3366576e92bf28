-- ===== src/Music/Voice.antt =====
-- How long a voice of nachtm.c plays: each call of its step uses up one tick of what is left.
use builds.Base.{
  get_or, u16, ◌/◌, Bool-cases, inl, inr, ℕ, ◌+◌, ◌^◌, ◌<◌, ◌≡◌, ◌≢◌, refl, arith, ◌==◌, ltb,
  if◌then◌else◌, Bool, true, false, ◌&&◌, ◌||◌, List, [], ◌∷◌, some, bit_and, bit_or,
  get_elem?-eq-get_or,
}
use native.Mathlib.Decide.{ℕ_discrete}
use builds.Music.Score.{freq_tab}
use builds.Music.{
  VoiceCtrl, release, note_ticks, note_tone, note_octave, is_pause, start_note, fetch_note,
  count_down, play_voice,
}

-- A note that can be played: a pause, or a tone of the frequency table.
pub is_note : ℕ → Bool
is_note val = is_pause val || ltb (note_tone val) 12

-- A table of such notes with an end.
unfoldable pub is_score : List ℕ → Bool
unfolding is_note is_pause note_tone
is_score [] = false
is_score (val ∷ rest) = let more = is_score rest in if val == 0 then true else is_note val && more

-- The ticks of a table's notes.
unfoldable pub total : List ℕ → ℕ
unfolding note_ticks
total [] = 0
total (val ∷ rest) = let more = total rest in if val == 0 then 0 else note_ticks val + 1 + more

abbrev pub remaining : VoiceCtrl → ℕ
remaining vc = vc.ticks + total vc.notes

-- A note that is playing fits a byte.
pub record IsPlaying (vc : VoiceCtrl) : Type 0 where
  pub score : is_score vc.notes ≡ true
  pub byte : vc.ticks < 256

total-note :
    (val : ℕ) (rest : List ℕ) → val ≢ 0 → total (val ∷ rest) ≡ note_ticks val + 1 + total rest
unfolding total
total-note val rest ne = ground arith

is_score-note :
    (val : ℕ) (rest : List ℕ)
    → val ≢ 0
    → is_score (val ∷ rest) ≡ true
    → (is_note val ≡ true) × (is_score rest ≡ true)
unfolding is_score
is_score-note val rest ne s = ground arith

note_ticks-lt : (val : ℕ) → note_ticks val < 256
unfolding note_ticks
note_ticks-lt val = omega arith

tone_in_table : (val : ℕ) → is_note val ≡ true → is_pause val ≡ false → note_tone val < 12
unfolding is_note
tone_in_table val note tone = ground arith

-- What one step of a voice leaves: one tick less, and the same voice otherwise.
abbrev pub UsesOneTick : VoiceCtrl → VoiceCtrl → ℕ → Type 0
UsesOneTick vc vc' before =
    IsPlaying vc' × (remaining vc' + 1 ≡ before) × (vc'.done_mask ≡ vc.done_mask)

start_note-uses :
    (vc : VoiceCtrl) (val : ℕ) (rest : List ℕ)
    → val ≢ 0
    → is_score (val ∷ rest) ≡ true
    → (vc' : VoiceCtrl) × (start_note vc val rest ≡ some vc')
      × UsesOneTick vc vc' (total (val ∷ rest))
unfolding start_note release
start_note-uses vc val rest ne s =
    let (note, more) = is_score-note val rest ne s in
    let length_of = total-note val rest ne in
    let byte = note_ticks-lt val in
    elim (Bool-cases (is_pause val)) [
      | inl pause ↦ (
        release (record vc { ticks = note_ticks val; notes = rest }),
        rw pause,
        (record { score = more; byte = byte }, omega arith, refl),
      )
      | inr tone ↦
          let in_table : note_tone val < 12 = tone_in_table val note tone in
          let freq = u16 (get_or freq_tab (note_tone val) 0 / 2 ^ note_octave val) in
          let next = record vc {
            ticks = note_ticks val;
            notes = rest;
            freq = freq;
            sid_freq = freq;
            sid_ctrl = vc.trigger;
          } in
          (
            next,
            rw (tone, get_elem?-eq-get_or freq_tab (note_tone val) 0 in_table),
            (record { score = more; byte = byte }, omega arith, refl),
          )
    ]

fetch_note-uses :
    (vc : VoiceCtrl) (notes : List ℕ) (finished : ℕ)
    → is_score notes ≡ true
    → 0 < total notes
    → (vc' : VoiceCtrl) × (fetch_note vc notes finished ≡ some (vc', finished))
      × UsesOneTick vc vc' (total notes)
unfolding fetch_note
fetch_note-uses vc [] finished s pos = absurd (unfold is_score in cc)
fetch_note-uses vc (val ∷ rest) finished s pos = elim (ℕ_discrete val 0) [
  | yes end ↦ absurd (unfold total in ground arith)
  | no ne ↦
      let (vc', e, uses) = start_note-uses vc val rest ne s in
      let more : (val == 0) ≡ false = ground arith in (vc', rw (more, e), uses)
]

fetch_note-ends :
    (vc : VoiceCtrl) (notes : List ℕ) (finished : ℕ)
    → is_score notes ≡ true
    → total notes ≡ 0
    → fetch_note vc notes finished ≡ some (vc, bit_or finished vc.done_mask)
unfolding fetch_note
fetch_note-ends vc [] finished s e = absurd (unfold is_score in cc)
fetch_note-ends vc (val ∷ rest) finished s e = elim (ℕ_discrete val 0) [
  | yes end ↦ rw end
  | no ne ↦ absurd (omega (arith, total-note val rest ne))
]

count_down-uses :
    (vc : VoiceCtrl) → IsPlaying vc → 0 < vc.ticks → UsesOneTick vc (count_down vc) (remaining vc)
unfolding count_down release
count_down-uses vc v pos = ground arith

-- While something is left, a step of a voice that is not done uses up one tick and leaves `Done`.
pub play_voice-uses :
    (vc : VoiceCtrl) (finished : ℕ)
    → IsPlaying vc
    → bit_and finished vc.done_mask ≡ 0
    → 0 < remaining vc
    → (vc' : VoiceCtrl) × (play_voice vc finished ≡ some (vc', finished))
      × UsesOneTick vc vc' (remaining vc)
unfolding play_voice
play_voice-uses vc finished v clear pos = elim (ℕ_discrete vc.ticks 0) [
  | yes e ↦
      let (vc', eq, (playing, uses, mask)) =
        fetch_note-uses vc vc.notes finished v.score (omega arith) in
      let none_left : (vc.ticks == 0) ≡ true = ground arith in
      (vc', rw (clear, none_left) eq, (playing, omega arith, mask))
  | no ne ↦
      let more : (vc.ticks == 0) ≡ false = ground arith in
      (count_down vc, rw (clear, more), count_down-uses vc v (omega arith))
]

-- With nothing left it sets its bit of `Done`.
pub play_voice-ends :
    (vc : VoiceCtrl) (finished : ℕ)
    → IsPlaying vc
    → bit_and finished vc.done_mask ≡ 0
    → remaining vc ≡ 0
    → play_voice vc finished ≡ some (vc, bit_or finished vc.done_mask)
unfolding play_voice
play_voice-ends vc finished v clear none_left =
    let zero_ticks : (vc.ticks == 0) ≡ true = ground arith in
    rw (clear, zero_ticks) (fetch_note-ends vc vc.notes finished v.score (omega arith))

-- A voice whose bit is set does nothing.
pub play_voice-done :
    (vc : VoiceCtrl) (finished : ℕ)
    → bit_and finished vc.done_mask ≢ 0
    → play_voice vc finished ≡ some (vc, finished)
unfolding play_voice
play_voice-done vc finished set = ground arith
