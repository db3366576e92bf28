-- ===== src/Music/Score/ClosingTwo.antt =====
-- nachtm.c, lines 580 to 617: notes of Voice2, in the order of the source.
use builds.Base.{ℕ, List, [], ◌∷◌}

abbrev pub voice2_part_four : List ℕ
voice2_part_four =
    0x3904 ∷ 0x3904 ∷ 0x3704 ∷ 0x3704 ∷ 0x3704 ∷ 0x3704 ∷ 0x3704 ∷ 0x3704 ∷ 0x3704 ∷ 0x3704 ∷ 0x3704
    ∷ 0x3704 ∷ 0x3704 ∷ 0x3704 ∷ 0x3704 ∷ 0x3704 ∷ 0x3704 ∷ 0x3704 ∷ 0x3704 ∷ 0x4704 ∷ 0x4704
    ∷ 0x4704 ∷ 0x4704 ∷ 0x4704 ∷ 0x4904 ∷ 0x4904 ∷ 0x4704 ∷ 0x4704 ∷ 0x4604 ∷ 0x4604 ∷ 0x4704
    ∷ 0x4704 ∷ 0x4404 ∷ 0x4404 ∷ 0x4210 ∷ 0x4410 ∷ 0x4210 ∷ 0x4410 ∷ 0x4208 ∷ 0x4408 ∷ 0x4208
    ∷ 0x4408 ∷ 0x4204 ∷ 0x3204 ∷ 0x3204 ∷ 0x3204 ∷ 0x3208 ∷ 0x8020 ∷ 0x3B04 ∷ 0x8004 ∷ 0x3404
    ∷ 0x8004 ∷ 0x4004 ∷ 0x8004 ∷ 0x3904 ∷ 0x8004 ∷ 0x3604 ∷ 0x800C ∷ 0x4901 ∷ 0x4901 ∷ 0x4901
    ∷ 0x4901 ∷ 0x4901 ∷ 0x4901 ∷ 0x4901 ∷ 0x4901 ∷ 0x4704 ∷ 0x8004 ∷ 0x4904 ∷ 0x8004 ∷ 0x4B10
    ∷ 0x4908 ∷ 0x8008 ∷ 0x5201 ∷ 0x5201 ∷ 0x5201 ∷ 0x5201 ∷ 0x5201 ∷ 0x5201 ∷ 0x5201 ∷ 0x5201
    ∷ 0x5201 ∷ 0x5201 ∷ 0x5001 ∷ 0x5001 ∷ 0x4B01 ∷ 0x4B01 ∷ 0x4901 ∷ 0x4901 ∷ 0x4704 ∷ 0x8004
    ∷ 0x5404 ∷ 0x8004 ∷ 0x5004 ∷ 0x8004 ∷ 0x4904 ∷ 0x8004 ∷ 0x5208 ∷ 0x8004 ∷ 0x5004 ∷ 0x5001
    ∷ 0x5001 ∷ 0x5001 ∷ 0x5001 ∷ 0x4B04 ∷ 0x8004 ∷ 0x5004 ∷ 0x5001 ∷ 0x5001 ∷ 0x5001 ∷ 0x5001
    ∷ 0x4B04 ∷ 0x8004 ∷ 0x4004 ∷ 0x3704 ∷ 0x3704 ∷ 0x3904 ∷ 0x3904 ∷ 0x3B04 ∷ 0x3B04 ∷ 0x3704
    ∷ 0x3704 ∷ 0x3604 ∷ 0x3604 ∷ 0x3704 ∷ 0x3704 ∷ 0x3904 ∷ 0x3904 ∷ 0x3604 ∷ 0x3604 ∷ 0x3704
    ∷ 0x3704 ∷ 0x3904 ∷ 0x3904 ∷ 0x3B04 ∷ 0x3B04 ∷ 0x3704 ∷ 0x3704 ∷ 0x3604 ∷ 0x3604 ∷ 0x3704
    ∷ 0x3704 ∷ 0x3904 ∷ 0x3904 ∷ 0x3604 ∷ 0x3604 ∷ 0x3704 ∷ 0x4704 ∷ 0x4B04 ∷ 0x4904 ∷ 0x4804
    ∷ 0x4404 ∷ 0x4604 ∷ 0x4804 ∷ 0x4904 ∷ 0x5004 ∷ 0x4904 ∷ 0x4704 ∷ 0x4604 ∷ 0x4204 ∷ 0x4404
    ∷ 0x4604 ∷ 0x4704 ∷ 0x4704 ∷ 0x4704 ∷ 0x4704 ∷ 0x4704 ∷ 0x4704 ∷ 0x4704 ∷ 0x4704 ∷ 0x4704
    ∷ 0x4204 ∷ 0x4204 ∷ 0x4204 ∷ 0x4204 ∷ 0x4204 ∷ 0x4204 ∷ 0x4004 ∷ 0x3B04 ∷ 0x3704 ∷ 0x3904
    ∷ 0x3904 ∷ 0x3B04 ∷ 0x3B04 ∷ 0x3704 ∷ 0x3704 ∷ 0x3604 ∷ 0x3604 ∷ 0x3704 ∷ 0x3704 ∷ 0x3904
    ∷ 0x3904 ∷ 0x3604 ∷ 0x3604 ∷ 0x3704 ∷ 0x4704 ∷ 0x4904 ∷ 0x4904 ∷ 0x4B04 ∷ 0x4B04 ∷ 0x4704
    ∷ 0x4704 ∷ 0x4604 ∷ 0x4604 ∷ 0x4704 ∷ 0x4704 ∷ 0x4904 ∷ 0x4904 ∷ 0x4604 ∷ 0x4604 ∷ 0x4704
    ∷ 0x4704 ∷ 0x4B04 ∷ 0x4904 ∷ 0x4804 ∷ 0x4404 ∷ 0x4604 ∷ 0x4804 ∷ 0x4904 ∷ 0x5004 ∷ 0x4904
    ∷ 0x4704 ∷ 0x4604 ∷ 0x4204 ∷ 0x4404 ∷ 0x4604 ∷ 0x4704 ∷ 0x4704 ∷ 0x4704 ∷ 0x4704 ∷ 0x4704
    ∷ 0x4704 ∷ 0x4704 ∷ 0x4704 ∷ 0x4701 ∷ 0x4701 ∷ 0x4701 ∷ 0x4701 ∷ 0x4904 ∷ 0x5004 ∷ 0x5004
    ∷ 0x5004 ∷ 0x5004 ∷ 0x5004 ∷ 0x4B04 ∷ 0x4904 ∷ 0x4204 ∷ 0x4404 ∷ 0x4604 ∷ 0x4704 ∷ 0x4704
    ∷ 0x4904 ∷ 0x4904 ∷ 0x4B04 ∷ 0x3604 ∷ 0x3704 ∷ 0x3904 ∷ 0x3B04 ∷ 0x3B04 ∷ 0x4004 ∷ 0x4004
    ∷ 0x4004 ∷ 0x4004 ∷ 0x4104 ∷ 0x4104 ∷ 0x4208 ∷ 0x8008 ∷ 0x3901 ∷ 0x3901 ∷ 0x3901 ∷ 0x3901
    ∷ 0x3901 ∷ 0x3901 ∷ 0x3901 ∷ 0x3901 ∷ 0x3901 ∷ 0x3901 ∷ 0x3901 ∷ 0x3901 ∷ 0x3901 ∷ 0x3901
    ∷ 0x3901 ∷ 0x3901 ∷ 0x3901 ∷ 0x3901 ∷ 0x3901 ∷ 0x3901 ∷ 0x3901 ∷ 0x3901 ∷ 0x3901 ∷ 0x3901
    ∷ 0x3701 ∷ 0x3701 ∷ 0x3701 ∷ 0x3701 ∷ 0x3604 ∷ 0x3708 ∷ 0x8018 ∷ 0x3901 ∷ 0x3901 ∷ 0x3901
    ∷ 0x3901 ∷ 0x3901 ∷ 0x3901 ∷ 0x3901 ∷ 0x3901 ∷ 0x3901 ∷ 0x3901 ∷ 0x3901 ∷ 0x3901 ∷ 0x3901
    ∷ 0x3901 ∷ 0x3901 ∷ 0x3901 ∷ 0x3901 ∷ 0x3901 ∷ 0x3901 ∷ 0x3901 ∷ 0x3901 ∷ 0x3901 ∷ 0x3901
    ∷ 0x3901 ∷ 0x3701 ∷ 0x3701 ∷ 0x3701 ∷ 0x3701 ∷ 0x3604 ∷ 0x3708 ∷ 0x8008 ∷ 0x4708 ∷ 0x8008
    ∷ 0x4408 ∷ 0x8008 ∷ 0x4708 ∷ 0x8008 ∷ 0x3710 ∷ 0x3710 ∷ 0x3710 ∷ 0x3708 ∷ 0x3908 ∷ 0x3710
    ∷ 0x3710 ∷ 0x3710 ∷ 0x3708 ∷ 0x3908 ∷ 0x3704 ∷ 0x3B04 ∷ 0x4204 ∷ 0x4704 ∷ 0x4B04 ∷ 0x4704
    ∷ 0x5204 ∷ 0x4B04 ∷ 0x4708 ∷ 0x3706 ∷ 0x3702 ∷ 0x3708 ∷ 0x8008 ∷ 0x0000 ∷ []
