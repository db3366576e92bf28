-- ===== src/Music.antt =====
-- bin/cc65-snapshot-win32/samples/nachtm.c, "Eine kleine Nachtmusik" for the SID, as compiled for a
-- Commodore 64 with PAL: three voices, each reading notes from its table, one step for each clock tick.
-- A data pointer is the rest of its table. A read past a table's end, or of a tone that FreqTab does
-- not have, is `none`. The keyboard is a parameter; the screen and the debugger are left out.
pub mod Score
pub mod Voice
pub mod Ensemble
pub mod Ending
mod Tests
use builds.Base.{
  ℕ, zero, suc, ◌+◌, ◌-◌, ◌/◌, ◌%◌, ◌^◌, ◌==◌, if◌then◌else◌, u8, u16, u32, ◌>>>◌, Bool, true,
  false, not, List, [], ◌∷◌, Option, none, some, get_elem?, bit_and, bit_or, bit_xor,
}
use Score.{voice1, voice2, voice3, freq_tab}

abbrev pub ticks_per_tone : ℕ
ticks_per_tone = 4

-- `VoiceCtrl`, with the two registers of its SID voice that the loop writes.
pub record VoiceCtrl : Type 0 where
  pub done_mask : ℕ
  pub trigger : ℕ
  pub ticks : ℕ
  pub freq : ℕ
  pub notes : List ℕ
  pub sid_freq : ℕ
  pub sid_ctrl : ℕ

-- `V` and `Done`.
pub record Player : Type 0 where
  pub v1 : VoiceCtrl
  pub v2 : VoiceCtrl
  pub v3 : VoiceCtrl
  pub finished : ℕ

infixl 5 ◌>>=◌
abbrev pub ◌>>=◌ : {A B : Type 0} → Option A → (A → Option B) → Option B
none >>= k = none
some a >>= k = k a

-- `outb (&Voice->ctrl, VC->Trigger & 0xFE)`
pub release : VoiceCtrl → VoiceCtrl
release vc = record vc { sid_ctrl = bit_and vc.trigger 0xFE }

-- The number of ticks after the one that reads the note.
pub note_ticks : ℕ → ℕ
note_ticks val = u8 (bit_and val 0x7F + 256 - 1)

pub note_tone : ℕ → ℕ
note_tone val = bit_and (val >>> 8) 0x0F

pub note_octave : ℕ → ℕ
note_octave val = bit_xor (bit_and (val >>> 12) 0x07) 0x07

pub is_pause : ℕ → Bool
is_pause val = not (bit_and val 0x8000 == 0)

-- `++VC->Data` and what follows for a note that is not 0: a pause releases the voice, a tone starts it.
pub start_note : VoiceCtrl → ℕ → List ℕ → Option VoiceCtrl
start_note vc val rest =
    let next = record vc { ticks = note_ticks val; notes = rest } in
    if is_pause val then some (release next) else (do
      f ← get_elem? freq_tab (note_tone val)
      let freq = u16 (f / 2 ^ note_octave val)
      some (record next { freq = freq; sid_freq = freq; sid_ctrl = next.trigger }))

-- `if ((Val = *VC->Data) == 0) ... `
pub fetch_note : VoiceCtrl → List ℕ → ℕ → Option (VoiceCtrl × ℕ)
fetch_note vc [] finished = none
fetch_note vc (val ∷ rest) finished =
    if val == 0
    then some (vc, bit_or finished vc.done_mask)
    else (do vc' ← start_note vc val rest; some (vc', finished))

-- `if (--(VC->Ticks) == 0) ... `
pub count_down : VoiceCtrl → VoiceCtrl
count_down vc =
    let next = record vc { ticks = u8 (vc.ticks + 256 - 1) } in
    if next.ticks == 0 then release next else next

-- The body of the loop over the voices, with `Done`.
pub play_voice : VoiceCtrl → ℕ → Option (VoiceCtrl × ℕ)
play_voice vc finished =
    if not (bit_and finished vc.done_mask == 0)
    then some (vc, finished)
    else if vc.ticks == 0
    then fetch_note vc vc.notes finished
    else some (count_down vc, finished)

pub play_tick : Player → Option Player
play_tick p = do
  (v1, d) ← play_voice p.v1 p.finished
  (v2, d) ← play_voice p.v2 d
  (v3, d) ← play_voice p.v3 d
  some (record { v1 = v1; v2 = v2; v3 = v3; finished = d })

-- How the main loop ends, and in which round.
pub data Outcome : Type 0 where
  played_out stopped : ℕ → Outcome
  fault : ℕ → Outcome
  out_of_fuel : Outcome

-- What the keyboard shows in a round: no key, or the one that `cgetc` returns.
abbrev pub Keys : Type 0
Keys = ℕ → Option ℕ

-- `if (kbhit ()) { if (cgetc () == 'd') BREAK (); else break; }`
pub wants_stop : Option ℕ → Bool
wants_stop none = false
wants_stop (some c) = not (c == b'd')

-- `while (Done != 0x07) { ... }`, from round `n` on.
pub play_from : ℕ → Keys → ℕ → Player → Outcome
play_from zero keys n p = out_of_fuel
play_from (suc f) keys n p =
    let rest : Outcome = elim (play_tick p) [
      | none ↦ fault n
      | some p' ↦ play_from f keys (n + 1) p'
    ] in
    if p.finished == 0x07 then played_out n else if wants_stop (keys n) then stopped n else rest

abbrev pub voice_at_start : ℕ → ℕ → List ℕ → VoiceCtrl
voice_at_start done_mask trigger notes = record {
  done_mask = done_mask;
  trigger = trigger;
  ticks = 0;
  freq = 0;
  notes = notes;
  sid_freq = 0;
  sid_ctrl = 0;
}

-- `V1`, `V2` and `V3`, with any tables.
abbrev pub player_at_start : List ℕ → List ℕ → List ℕ → Player
player_at_start one two three = record {
  v1 = voice_at_start 0x01 0x11 one;
  v2 = voice_at_start 0x02 0x41 two;
  v3 = voice_at_start 0x04 0x11 three;
  finished = 0;
}

-- The main loop on the program's own tables.
pub perform : ℕ → Keys → Outcome
perform fuel keys = play_from fuel keys 0 (player_at_start voice1 voice2 voice3)

-- `TimeSync`, once the clock shows `NextClock`: the new `NextClock`.
pub time_sync : ℕ → ℕ
time_sync next_clock = u8 (next_clock + ticks_per_tone)

pub record Shown : Type 0 where
  pub min : ℕ
  pub sec : ℕ

-- `DisplayTime`: minutes and seconds since the start.
pub display_time : ℕ → ℕ → ℕ → Shown
display_time clocks_per_sec start now =
    let time = u32 (now + 2 ^ 32 - start) / clocks_per_sec in
    record { min = u16 (time / 60); sec = u16 (time % 60) }
