-- ===== src/Music/Score.antt =====
-- The tables of nachtm.c. A note of 0 ends a table.
mod OpeningOne
mod ClosingOne
mod OpeningTwo
mod ClosingTwo
mod OpeningThree
mod ClosingThree
use builds.Base.{ℕ, List, [], ◌∷◌, ◌++◌}
use OpeningOne.{voice1_part_one, voice1_part_two, voice1_part_three}
use ClosingOne.{voice1_part_four, voice1_part_five, voice1_part_six}
use OpeningTwo.{voice2_part_one, voice2_part_two, voice2_part_three}
use ClosingTwo.{voice2_part_four}
use OpeningThree.{voice3_part_one, voice3_part_two, voice3_part_three}
use ClosingThree.{voice3_part_four}

unfoldable pub voice1 : List ℕ
voice1 =
    voice1_part_one
    ++ (voice1_part_two
        ++ (voice1_part_three ++ (voice1_part_four ++ (voice1_part_five ++ voice1_part_six))))

unfoldable pub voice2 : List ℕ
voice2 = voice2_part_one ++ (voice2_part_two ++ (voice2_part_three ++ voice2_part_four))

unfoldable pub voice3 : List ℕ
voice3 = voice3_part_one ++ (voice3_part_two ++ (voice3_part_three ++ voice3_part_four))

-- The frequencies of an octave's tones, for PAL.
abbrev pub freq_tab : List ℕ
freq_tab =
    0x008B38 ∷ 0x009381 ∷ 0x009C45 ∷ 0x00A590 ∷ 0x00AF68 ∷ 0x00B9D6 ∷ 0x00C4E4 ∷ 0x00D099 ∷ 0x00DCFF
    ∷ 0x00EA24 ∷ 0x00F810 ∷ 0x0106D1 ∷ []
