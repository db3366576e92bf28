-- ===== src/Music/Score/ClosingThree.antt =====
-- nachtm.c, lines 800 to 857: notes of Voice3, in the order of the source.
use builds.Base.{ℕ, List, [], ◌∷◌}

abbrev pub voice3_part_four : List ℕ
voice3_part_four =
    0x2A01 ∷ 0x2A01 ∷ 0x2A01 ∷ 0x2A01 ∷ 0x2101 ∷ 0x2101 ∷ 0x2101 ∷ 0x2101 ∷ 0x3401 ∷ 0x3401 ∷ 0x3401
    ∷ 0x3401 ∷ 0x3204 ∷ 0x8004 ∷ 0x4204 ∷ 0x4404 ∷ 0x4504 ∷ 0x4704 ∷ 0x4904 ∷ 0x4A08 ∷ 0x4B08
    ∷ 0x5008 ∷ 0x5108 ∷ 0x5204 ∷ 0x5204 ∷ 0x5201 ∷ 0x5201 ∷ 0x5201 ∷ 0x5201 ∷ 0x5404 ∷ 0x5004
    ∷ 0x5004 ∷ 0x5001 ∷ 0x5001 ∷ 0x5001 ∷ 0x5001 ∷ 0x5204 ∷ 0x4B04 ∷ 0x4B04 ∷ 0x4B01 ∷ 0x4B01
    ∷ 0x4B01 ∷ 0x4B01 ∷ 0x5204 ∷ 0x5201 ∷ 0x5201 ∷ 0x5201 ∷ 0x5201 ∷ 0x5004 ∷ 0x4B04 ∷ 0x4904
    ∷ 0x4708 ∷ 0x8004 ∷ 0x3204 ∷ 0x3708 ∷ 0x8004 ∷ 0x3204 ∷ 0x3704 ∷ 0x3204 ∷ 0x3704 ∷ 0x3B04
    ∷ 0x4208 ∷ 0x8008 ∷ 0x4008 ∷ 0x8004 ∷ 0x3904 ∷ 0x4008 ∷ 0x8004 ∷ 0x3904 ∷ 0x4004 ∷ 0x3904
    ∷ 0x3604 ∷ 0x3904 ∷ 0x3208 ∷ 0x8008 ∷ 0x3704 ∷ 0x3704 ∷ 0x3704 ∷ 0x3704 ∷ 0x3704 ∷ 0x3704
    ∷ 0x3704 ∷ 0x3704 ∷ 0x3704 ∷ 0x3704 ∷ 0x3704 ∷ 0x3704 ∷ 0x3704 ∷ 0x3704 ∷ 0x3704 ∷ 0x3704
    ∷ 0x3704 ∷ 0x3704 ∷ 0x3704 ∷ 0x3704 ∷ 0x3704 ∷ 0x3704 ∷ 0x3704 ∷ 0x3704 ∷ 0x3704 ∷ 0x3704
    ∷ 0x3704 ∷ 0x3704 ∷ 0x3704 ∷ 0x3704 ∷ 0x3704 ∷ 0x3704 ∷ 0x3704 ∷ 0x3704 ∷ 0x3904 ∷ 0x3904
    ∷ 0x3B04 ∷ 0x3B04 ∷ 0x3704 ∷ 0x3704 ∷ 0x3904 ∷ 0x3904 ∷ 0x3B04 ∷ 0x3B04 ∷ 0x4008 ∷ 0x8008
    ∷ 0x4B01 ∷ 0x4B01 ∷ 0x4B01 ∷ 0x4B01 ∷ 0x4B01 ∷ 0x4B01 ∷ 0x4B01 ∷ 0x4B01 ∷ 0x4B01 ∷ 0x4B01
    ∷ 0x4B01 ∷ 0x4B01 ∷ 0x4B01 ∷ 0x4B01 ∷ 0x4B01 ∷ 0x4B01 ∷ 0x5010 ∷ 0x4908 ∷ 0x4908 ∷ 0x4708
    ∷ 0x4708 ∷ 0x4408 ∷ 0x4408 ∷ 0x4008 ∷ 0x3908 ∷ 0x4204 ∷ 0x8004 ∷ 0x4604 ∷ 0x8004 ∷ 0x4704
    ∷ 0x800C ∷ 0x4B01 ∷ 0x4B01 ∷ 0x4B01 ∷ 0x4B01 ∷ 0x4B01 ∷ 0x4B01 ∷ 0x4B01 ∷ 0x4B01 ∷ 0x4B01
    ∷ 0x4B01 ∷ 0x4B01 ∷ 0x4B01 ∷ 0x4B01 ∷ 0x4B01 ∷ 0x4B01 ∷ 0x4B01 ∷ 0x5010 ∷ 0x4B01 ∷ 0x4B01
    ∷ 0x4B01 ∷ 0x4B01 ∷ 0x4904 ∷ 0x4904 ∷ 0x4904 ∷ 0x4901 ∷ 0x4901 ∷ 0x4901 ∷ 0x4901 ∷ 0x4704
    ∷ 0x4704 ∷ 0x4704 ∷ 0x4408 ∷ 0x4404 ∷ 0x4404 ∷ 0x4008 ∷ 0x4004 ∷ 0x4004 ∷ 0x3B14 ∷ 0x3B01
    ∷ 0x3B01 ∷ 0x3901 ∷ 0x3B01 ∷ 0x4001 ∷ 0x4001 ∷ 0x4001 ∷ 0x4001 ∷ 0x3904 ∷ 0x4714 ∷ 0x4701
    ∷ 0x4701 ∷ 0x4601 ∷ 0x4701 ∷ 0x4901 ∷ 0x4901 ∷ 0x4901 ∷ 0x4901 ∷ 0x4604 ∷ 0x4B10 ∷ 0x5010
    ∷ 0x4B08 ∷ 0x5210 ∷ 0x5708 ∷ 0x5610 ∷ 0x5710 ∷ 0x5610 ∷ 0x5710 ∷ 0x5608 ∷ 0x5708 ∷ 0x5608
    ∷ 0x5708 ∷ 0x5604 ∷ 0x4204 ∷ 0x4204 ∷ 0x4204 ∷ 0x4208 ∷ 0x8008 ∷ 0x4201 ∷ 0x4201 ∷ 0x4201
    ∷ 0x4201 ∷ 0x4201 ∷ 0x4201 ∷ 0x4201 ∷ 0x4201 ∷ 0x4201 ∷ 0x4201 ∷ 0x4001 ∷ 0x4001 ∷ 0x3B01
    ∷ 0x3B01 ∷ 0x3901 ∷ 0x3901 ∷ 0x3704 ∷ 0x8004 ∷ 0x4404 ∷ 0x8004 ∷ 0x4004 ∷ 0x8004 ∷ 0x3904
    ∷ 0x8004 ∷ 0x4204 ∷ 0x800C ∷ 0x4B0A ∷ 0x4902 ∷ 0x4702 ∷ 0x4602 ∷ 0x5404 ∷ 0x8004 ∷ 0x5004
    ∷ 0x8004 ∷ 0x3208 ∷ 0x4201 ∷ 0x4201 ∷ 0x4201 ∷ 0x4201 ∷ 0x4201 ∷ 0x4201 ∷ 0x4201 ∷ 0x4201
    ∷ 0x4201 ∷ 0x4201 ∷ 0x4201 ∷ 0x4201 ∷ 0x4101 ∷ 0x4101 ∷ 0x4101 ∷ 0x4101 ∷ 0x4001 ∷ 0x4001
    ∷ 0x4001 ∷ 0x4001 ∷ 0x3901 ∷ 0x3901 ∷ 0x3901 ∷ 0x3901 ∷ 0x3704 ∷ 0x8004 ∷ 0x3904 ∷ 0x8004
    ∷ 0x3B04 ∷ 0x8004 ∷ 0x3804 ∷ 0x8004 ∷ 0x3904 ∷ 0x8004 ∷ 0x3704 ∷ 0x8004 ∷ 0x3604 ∷ 0x8004
    ∷ 0x3204 ∷ 0x8004 ∷ 0x3404 ∷ 0x8004 ∷ 0x3004 ∷ 0x8004 ∷ 0x3204 ∷ 0x8004 ∷ 0x3204 ∷ 0x8004
    ∷ 0x2708 ∷ 0x8018 ∷ 0x3208 ∷ 0x8018 ∷ 0x2708 ∷ 0x8018 ∷ 0x3208 ∷ 0x8018 ∷ 0x3B08 ∷ 0x8008
    ∷ 0x4B01 ∷ 0x4B01 ∷ 0x4B01 ∷ 0x4B01 ∷ 0x4B01 ∷ 0x4B01 ∷ 0x4B01 ∷ 0x4B01 ∷ 0x4B01 ∷ 0x4B01
    ∷ 0x4B01 ∷ 0x4B01 ∷ 0x4B01 ∷ 0x4B01 ∷ 0x4B01 ∷ 0x4B01 ∷ 0x4908 ∷ 0x8008 ∷ 0x4901 ∷ 0x4901
    ∷ 0x4901 ∷ 0x4901 ∷ 0x4901 ∷ 0x4901 ∷ 0x4901 ∷ 0x4901 ∷ 0x4901 ∷ 0x4901 ∷ 0x4901 ∷ 0x4901
    ∷ 0x4901 ∷ 0x4901 ∷ 0x4901 ∷ 0x4901 ∷ 0x4704 ∷ 0x4B04 ∷ 0x5004 ∷ 0x5204 ∷ 0x5001 ∷ 0x5001
    ∷ 0x5001 ∷ 0x5001 ∷ 0x5201 ∷ 0x5201 ∷ 0x5401 ∷ 0x5401 ∷ 0x5204 ∷ 0x5004 ∷ 0x5001 ∷ 0x5001
    ∷ 0x5001 ∷ 0x5001 ∷ 0x4B04 ∷ 0x4704 ∷ 0x4B04 ∷ 0x4B01 ∷ 0x4B01 ∷ 0x4B01 ∷ 0x4B01 ∷ 0x4904
    ∷ 0x4704 ∷ 0x4604 ∷ 0x4704 ∷ 0x3B04 ∷ 0x4004 ∷ 0x4004 ∷ 0x4204 ∷ 0x4204 ∷ 0x3B04 ∷ 0x3B04
    ∷ 0x3904 ∷ 0x3904 ∷ 0x3B04 ∷ 0x3B04 ∷ 0x4004 ∷ 0x4004 ∷ 0x3904 ∷ 0x3904 ∷ 0x3B04 ∷ 0x4B04
    ∷ 0x5004 ∷ 0x5004 ∷ 0x5204 ∷ 0x5204 ∷ 0x4B04 ∷ 0x4B04 ∷ 0x4904 ∷ 0x4904 ∷ 0x4B04 ∷ 0x4B04
    ∷ 0x5004 ∷ 0x5004 ∷ 0x4904 ∷ 0x4904 ∷ 0x8004 ∷ 0x3704 ∷ 0x3B04 ∷ 0x3904 ∷ 0x3804 ∷ 0x3404
    ∷ 0x3604 ∷ 0x3804 ∷ 0x3904 ∷ 0x4004 ∷ 0x3904 ∷ 0x3704 ∷ 0x3604 ∷ 0x3204 ∷ 0x3404 ∷ 0x3604
    ∷ 0x3704 ∷ 0x3704 ∷ 0x3904 ∷ 0x3B04 ∷ 0x4004 ∷ 0x4004 ∷ 0x4004 ∷ 0x4004 ∷ 0x4204 ∷ 0x4204
    ∷ 0x4204 ∷ 0x4204 ∷ 0x3204 ∷ 0x3204 ∷ 0x3204 ∷ 0x3204 ∷ 0x3704 ∷ 0x3204 ∷ 0x3404 ∷ 0x3604
    ∷ 0x3704 ∷ 0x3704 ∷ 0x3904 ∷ 0x3904 ∷ 0x3B04 ∷ 0x3604 ∷ 0x3704 ∷ 0x3904 ∷ 0x3B04 ∷ 0x3B04
    ∷ 0x4004 ∷ 0x4004 ∷ 0x4204 ∷ 0x4204 ∷ 0x4304 ∷ 0x4304 ∷ 0x4408 ∷ 0x8008 ∷ 0x3001 ∷ 0x3001
    ∷ 0x3001 ∷ 0x3001 ∷ 0x3001 ∷ 0x3001 ∷ 0x3001 ∷ 0x3001 ∷ 0x3001 ∷ 0x3001 ∷ 0x3001 ∷ 0x3001
    ∷ 0x3001 ∷ 0x3001 ∷ 0x3001 ∷ 0x3001 ∷ 0x3210 ∷ 0x2708 ∷ 0x8018 ∷ 0x3001 ∷ 0x3001 ∷ 0x3001
    ∷ 0x3001 ∷ 0x3001 ∷ 0x3001 ∷ 0x3001 ∷ 0x3001 ∷ 0x3001 ∷ 0x3001 ∷ 0x3001 ∷ 0x3001 ∷ 0x3001
    ∷ 0x3001 ∷ 0x3001 ∷ 0x3001 ∷ 0x3210 ∷ 0x2708 ∷ 0x8018 ∷ 0x3008 ∷ 0x8008 ∷ 0x3208 ∷ 0x8008
    ∷ 0x2704 ∷ 0x2704 ∷ 0x2704 ∷ 0x2704 ∷ 0x2704 ∷ 0x2704 ∷ 0x2704 ∷ 0x2704 ∷ 0x2704 ∷ 0x2704
    ∷ 0x2704 ∷ 0x2704 ∷ 0x2704 ∷ 0x2704 ∷ 0x2704 ∷ 0x2704 ∷ 0x2704 ∷ 0x2704 ∷ 0x2704 ∷ 0x2704
    ∷ 0x2704 ∷ 0x2704 ∷ 0x2704 ∷ 0x2704 ∷ 0x2704 ∷ 0x2704 ∷ 0x2704 ∷ 0x2704 ∷ 0x2704 ∷ 0x2704
    ∷ 0x2704 ∷ 0x2704 ∷ 0x2704 ∷ 0x2B04 ∷ 0x3204 ∷ 0x3704 ∷ 0x3B04 ∷ 0x3704 ∷ 0x4204 ∷ 0x3B04
    ∷ 0x3708 ∷ 0x2706 ∷ 0x2702 ∷ 0x2708 ∷ 0x8008 ∷ 0x0000 ∷ []
