-- ===== src/Music/Tests.antt =====
-- Short tunes for nachtm.c, and its theorems at concrete inputs.
use builds.Base.{
  ℕ, ◌+◌, ◌*◌, ◌-◌, ◌/◌, ◌%◌, ◌^◌, ◌<◌, ◌≡◌, refl, arith, true, false, List, [], ◌∷◌, none, some,
  ◌==◌, if◌then◌else◌,
}
use builds.Music.{
  VoiceCtrl, Keys, wants_stop, played_out, stopped, play_from, play_tick, play_voice, fetch_note,
  start_note, count_down, release, note_ticks, note_tone, note_octave, is_pause, player_at_start,
  voice_at_start, perform, display_time,
}
use builds.Music.Voice.{is_score, total}
use builds.Music.Score.{voice1, voice2, voice3}
use builds.Music.Ending.{
  HasTicks, play_from-longest, perform-played_out, perform-stopped, display_time_lem,
}

abbrev tune : List ℕ
tune = 0x5703 ∷ 0x8002 ∷ 0 ∷ []

abbrev rest_only : List ℕ
rest_only = 0x8001 ∷ 0 ∷ []

abbrev no_keys : Keys
no_keys i = none

abbrev space_at_100 : Keys
space_at_100 i = if i == 100 then some b' ' else none

quiet : (i m : ℕ) → i < m → wants_stop (no_keys i) ≡ false
unfolding wants_stop
quiet i m h = refl

tune_ends : play_from 10 no_keys 0 (player_at_start tune rest_only rest_only) ≡ played_out 6
unfolding play_from play_tick play_voice fetch_note start_note count_down release note_ticks
    note_tone note_octave is_pause wants_stop
tune_ends = refl

play_from-longest_example :
    play_from 10 no_keys 0 (player_at_start tune rest_only rest_only) ≡ played_out 6
unfolding is_score total
play_from-longest_example =
    play_from-longest 10 no_keys tune rest_only rest_only refl refl refl (omega arith)
      (λ i h. quiet i 6 h)

perform-played_out_example :
    HasTicks 8768 voice1
    × HasTicks 8768 voice2
    × HasTicks 8768 voice3
    × (perform 9000 no_keys ≡ played_out 8769)
perform-played_out_example = perform-played_out 9000 no_keys (omega arith) (λ i h. quiet i 8769 h)

no_stop_before : (i : ℕ) → i < 100 → wants_stop (space_at_100 i) ≡ false
unfolding wants_stop
no_stop_before i h = ground arith

stop_at : wants_stop (space_at_100 100) ≡ true
unfolding wants_stop
stop_at = refl

perform-stopped_example : perform 9000 space_at_100 ≡ stopped 100
perform-stopped_example =
    perform-stopped 9000 space_at_100 100 (omega arith) (omega arith) no_stop_before stop_at

display_time_lem_example :
    let t = display_time 60 (2 ^ 32 - 5) ((2 ^ 32 - 5 + 7500) % 2 ^ 32) in
    (t.sec < 60) × (t.min * 60 + t.sec ≡ 7500 / 60)
display_time_lem_example =
    display_time_lem 60 (2 ^ 32 - 5) 7500 (omega arith) (omega arith) (omega arith)

abbrev first_voice : VoiceCtrl
first_voice = voice_at_start 1 0x11 tune
