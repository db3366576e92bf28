-- ===== src/Music/Score/OpeningTwo.antt =====
-- nachtm.c, lines 399 to 579: notes of Voice2, in the order of the source.
use builds.Base.{ℕ, List, [], ◌∷◌}

abbrev pub voice2_part_one : List ℕ
voice2_part_one =
    0x4708 ∷ 0x8004 ∷ 0x4204 ∷ 0x4708 ∷ 0x8004 ∷ 0x4204 ∷ 0x4704 ∷ 0x4204 ∷ 0x4704 ∷ 0x4B04 ∷ 0x5208
    ∷ 0x8008 ∷ 0x5008 ∷ 0x8004 ∷ 0x4904 ∷ 0x5008 ∷ 0x8004 ∷ 0x4904 ∷ 0x5004 ∷ 0x4904 ∷ 0x4604
    ∷ 0x4904 ∷ 0x4208 ∷ 0x8008 ∷ 0x4704 ∷ 0x4704 ∷ 0x4704 ∷ 0x4704 ∷ 0x4704 ∷ 0x4704 ∷ 0x4704
    ∷ 0x4704 ∷ 0x4904 ∷ 0x4904 ∷ 0x4904 ∷ 0x4904 ∷ 0x4901 ∷ 0x4901 ∷ 0x4901 ∷ 0x4901 ∷ 0x5004
    ∷ 0x4601 ∷ 0x4601 ∷ 0x4601 ∷ 0x4601 ∷ 0x4904 ∷ 0x4704 ∷ 0x4704 ∷ 0x4704 ∷ 0x4704 ∷ 0x4704
    ∷ 0x4704 ∷ 0x4704 ∷ 0x4704 ∷ 0x4904 ∷ 0x4904 ∷ 0x4904 ∷ 0x4904 ∷ 0x4901 ∷ 0x4901 ∷ 0x4901
    ∷ 0x4901 ∷ 0x5004 ∷ 0x4601 ∷ 0x4601 ∷ 0x4601 ∷ 0x4601 ∷ 0x4904 ∷ 0x4210 ∷ 0x4210 ∷ 0x4210
    ∷ 0x4208 ∷ 0x8028 ∷ 0x3610 ∷ 0x3710 ∷ 0x4008 ∷ 0x4008 ∷ 0x3908 ∷ 0x3208 ∷ 0x3204 ∷ 0x8004
    ∷ 0x4204 ∷ 0x8004 ∷ 0x4208 ∷ 0x8028 ∷ 0x4601 ∷ 0x4601 ∷ 0x4601 ∷ 0x4601 ∷ 0x4601 ∷ 0x4601
    ∷ 0x4601 ∷ 0x4601 ∷ 0x4601 ∷ 0x4601 ∷ 0x4601 ∷ 0x4601 ∷ 0x4601 ∷ 0x4601 ∷ 0x4601 ∷ 0x4601
    ∷ 0x4710 ∷ 0x4008 ∷ 0x4004 ∷ 0x4004 ∷ 0x3908 ∷ 0x3904 ∷ 0x3904 ∷ 0x3704 ∷ 0x3704 ∷ 0x3704
    ∷ 0x3704 ∷ 0x3704 ∷ 0x3704 ∷ 0x3704 ∷ 0x3704 ∷ 0x3704 ∷ 0x3704 ∷ 0x3704 ∷ 0x3704 ∷ 0x3704
    ∷ 0x3704 ∷ 0x3704 ∷ 0x3704 ∷ 0x3704 ∷ 0x4704 ∷ 0x4704 ∷ 0x4704 ∷ 0x4704 ∷ 0x4704 ∷ 0x4904
    ∷ 0x4904 ∷ 0x4704 ∷ 0x4704 ∷ 0x4604 ∷ 0x4604 ∷ 0x4704 ∷ 0x4704 ∷ 0x4404 ∷ 0x4404 ∷ 0x4210
    ∷ 0x4410 ∷ 0x4210 ∷ 0x4410 ∷ 0x4604 ∷ 0x4704 ∷ 0x4904 ∷ 0x4704 ∷ 0x4604 ∷ 0x4704 ∷ 0x4904
    ∷ 0x4604 ∷ 0x4B04 ∷ 0x4904 ∷ 0x4704 ∷ 0x4904 ∷ 0x4B04 ∷ 0x4904 ∷ 0x4804 ∷ 0x4B04 ∷ 0x4904
    ∷ 0x4904 ∷ 0x4904 ∷ 0x4904 ∷ 0x4904 ∷ 0x4904 ∷ 0x4904 ∷ 0x4904 ∷ 0x4904 ∷ 0x3904 ∷ 0x3904
    ∷ 0x3904 ∷ 0x3908 ∷ 0x8020 ∷ 0x4604 ∷ 0x8004 ∷ 0x3B04 ∷ 0x8004 ∷ 0x4704 ∷ 0x8004 ∷ 0x4404
    ∷ 0x8004 ∷ 0x4104 ∷ 0x800C ∷ 0x4401 ∷ 0x4401 ∷ 0x4401 ∷ 0x4401 ∷ 0x4401 ∷ 0x4401 ∷ 0x4401
    ∷ 0x4401 ∷ 0x4204 ∷ 0x8004 ∷ 0x4404 ∷ 0x8004 ∷ 0x4201 ∷ 0x4201 ∷ 0x4201 ∷ 0x4201 ∷ 0x4201
    ∷ 0x4201 ∷ 0x4201 ∷ 0x4201 ∷ 0x4201 ∷ 0x4201 ∷ 0x4201 ∷ 0x4201 ∷ 0x4201 ∷ 0x4201 ∷ 0x4201
    ∷ 0x4201 ∷ 0x4108 ∷ 0x8010 ∷ 0x4101 ∷ 0x4101 ∷ 0x4101 ∷ 0x4101 ∷ 0x4101 ∷ 0x4101 ∷ 0x4101
    ∷ 0x4101 ∷ 0x4204 ∷ 0x8004 ∷ 0x4604 ∷ 0x8004 ∷ 0x3B04 ∷ 0x8004 ∷ 0x3704 ∷ 0x8004 ∷ 0x3408
    ∷ 0x8004 ∷ 0x4404 ∷ 0x4704 ∷ 0x4604 ∷ 0x8004 ∷ 0x5704 ∷ 0x5701 ∷ 0x5701 ∷ 0x5701 ∷ 0x5701
    ∷ 0x5604 ∷ 0x8004 ∷ 0x4704 ∷ 0x4204 ∷ 0x4204 ∷ 0x4404 ∷ 0x4404 ∷ 0x4604 ∷ 0x4604 ∷ 0x4204
    ∷ 0x4204 ∷ 0x4104 ∷ 0x4104 ∷ 0x4204 ∷ 0x4204 ∷ 0x4404 ∷ 0x4404 ∷ 0x4104 ∷ 0x4104 ∷ 0x4204
    ∷ 0x4204 ∷ 0x4404 ∷ 0x4404 ∷ 0x4604 ∷ 0x4604 ∷ 0x4204 ∷ 0x4204 ∷ 0x4104 ∷ 0x4104 ∷ 0x4204
    ∷ 0x4204 ∷ 0x4404 ∷ 0x4404 ∷ 0x4104 ∷ 0x4104 ∷ 0x4204 ∷ 0x4204 ∷ 0x4604 ∷ 0x4404 ∷ 0x4304
    ∷ 0x3B04 ∷ 0x4104 ∷ 0x4304 ∷ 0x4404 ∷ 0x4704 ∷ 0x4404 ∷ 0x4204 ∷ 0x4104 ∷ 0x3904 ∷ 0x3B04
    ∷ 0x4104 ∷ 0x5204 ∷ 0x5204 ∷ 0x5204 ∷ 0x5204 ∷ 0x5204 ∷ 0x5204 ∷ 0x5204 ∷ 0x5204 ∷ 0x5204
    ∷ 0x4904 ∷ 0x4904 ∷ 0x4904 ∷ 0x4904 ∷ 0x4904 ∷ 0x4904 ∷ 0x4704 ∷ 0x4604 ∷ 0x4204 ∷ 0x4404
    ∷ 0x4404 ∷ 0x4604 ∷ 0x4604 ∷ 0x4204 ∷ 0x4204 ∷ 0x4104 ∷ 0x4104 ∷ 0x4204 ∷ 0x4204 ∷ 0x4404
    ∷ 0x4404 ∷ 0x4104 ∷ 0x4104 ∷ 0x4204 ∷ 0x4204 ∷ 0x4404 ∷ 0x4404 ∷ 0x4604 ∷ 0x4604 ∷ 0x4204
    ∷ 0x4204 ∷ 0x4104 ∷ 0x4104 ∷ 0x4204 ∷ 0x4204 ∷ 0x4404 ∷ 0x4404 ∷ 0x4104 ∷ 0x4104 ∷ 0x4204
    ∷ 0x4204 ∷ 0x4604 ∷ 0x4404 ∷ 0x4304 ∷ 0x3B04 ∷ 0x4104 ∷ 0x4304 ∷ 0x4404 ∷ 0x4704 ∷ 0x4404
    ∷ 0x4204 ∷ 0x4104 ∷ 0x3904 ∷ 0x3B04 ∷ 0x4104 ∷ 0x4204 ∷ 0x5204 ∷ 0x5204 ∷ 0x5204 ∷ 0x5204
    ∷ 0x5204 ∷ 0x5204 ∷ 0x5204 ∷ 0x5204 ∷ 0x4904 ∷ 0x4904 ∷ 0x4904 ∷ 0x4904 ∷ 0x4904 ∷ 0x4904
    ∷ 0x4704 ∷ 0x4604 ∷ 0x3904 ∷ 0x3B04 ∷ 0x4104 ∷ 0x4204 ∷ 0x4204 ∷ 0x4404 ∷ 0x4404 ∷ 0x4604
    ∷ 0x4104 ∷ 0x4204 ∷ 0x4404 ∷ 0x4604 ∷ 0x4604 ∷ 0x4704 ∷ 0x4704 ∷ 0x4904 ∷ 0x4904 ∷ 0x4A04
    ∷ 0x4A04 ∷ 0x4B08 ∷ 0x8008 ∷ 0x4401 ∷ 0x4401 ∷ 0x4401 ∷ 0x4401 ∷ 0x4401 ∷ 0x4401 ∷ 0x4401
    ∷ 0x4401 ∷ 0x4401 ∷ 0x4401 ∷ 0x4401 ∷ 0x4401 ∷ 0x4401 ∷ 0x4401 ∷ 0x4401 ∷ 0x4401 ∷ 0x4401
    ∷ 0x4401 ∷ 0x4401 ∷ 0x4401 ∷ 0x4401 ∷ 0x4401 ∷ 0x4401 ∷ 0x4401 ∷ 0x4201 ∷ 0x4201 ∷ 0x4201
    ∷ 0x4201 ∷ 0x4104 ∷ 0x5204 ∷ 0x8004 ∷ 0x5204 ∷ 0x8004 ∷ 0x5204 ∷ 0x800C ∷ 0x4708 ∷ 0x8004
    ∷ 0x4204 ∷ 0x4708 ∷ 0x8004 ∷ 0x4204 ∷ 0x4704 ∷ 0x4204 ∷ 0x4704 ∷ 0x4B04 ∷ 0x5208 ∷ 0x8008
    ∷ 0x5008 ∷ 0x8004 ∷ 0x4904 ∷ 0x5008 ∷ 0x8004 ∷ 0x4904 ∷ 0x5004 ∷ 0x4904 ∷ 0x4604 ∷ 0x4904
    ∷ 0x4208 ∷ 0x8008 ∷ 0x4704 ∷ 0x4704 ∷ 0x4704 ∷ 0x4704 ∷ 0x4704 ∷ 0x4704 ∷ 0x4704 ∷ 0x4704
    ∷ 0x4904 ∷ 0x4904 ∷ 0x4904 ∷ 0x4904 ∷ 0x4901 ∷ 0x4901 ∷ 0x4901 ∷ 0x4901 ∷ 0x5004 ∷ 0x4601
    ∷ 0x4601 ∷ 0x4601 ∷ 0x4601 ∷ 0x4904 ∷ 0x4704 ∷ 0x4704 ∷ 0x4704 ∷ 0x4704 ∷ 0x4704 ∷ 0x4704
    ∷ 0x4704 ∷ 0x4704 ∷ 0x4904 ∷ 0x4904 ∷ 0x4904 ∷ 0x4904 ∷ 0x4901 ∷ 0x4901 ∷ 0x4901 ∷ 0x4901
    ∷ 0x5004 ∷ 0x4601 ∷ 0x4601 ∷ 0x4601 ∷ 0x4601 ∷ 0x4904 ∷ 0x4210 ∷ 0x4210 ∷ 0x4210 ∷ 0x4208
    ∷ 0x8028 ∷ 0x3610 ∷ 0x3710 ∷ 0x4008 ∷ 0x4008 ∷ 0x3908 ∷ 0x3208 ∷ 0x3204 ∷ 0x8004 ∷ 0x4204
    ∷ 0x8004 ∷ 0x4208 ∷ 0x8028 ∷ 0x4601 ∷ 0x4601 ∷ 0x4601 ∷ 0x4601 ∷ 0x4601 ∷ 0x4601 ∷ 0x4601
    ∷ 0x4601 ∷ 0x4601 ∷ 0x4601 ∷ 0x4601 ∷ 0x4601 ∷ 0x4601 ∷ 0x4601 ∷ 0x4601 ∷ 0x4601 ∷ 0x4710
    ∷ 0x4008 ∷ 0x4004 ∷ 0x4004 ∷ 0x3908 ∷ 0x3904 ∷ 0x3904 ∷ 0x3704 ∷ 0x3704 ∷ 0x3704 ∷ 0x3704
    ∷ 0x3704 ∷ 0x3704 ∷ 0x3704 ∷ 0x3704 ∷ 0x3704 ∷ 0x3704 ∷ 0x3704 ∷ 0x3704 ∷ 0x3704 ∷ 0x3704
    ∷ 0x3704 ∷ 0x3704 ∷ 0x3704 ∷ 0x4704 ∷ 0x4704 ∷ 0x4704 ∷ 0x4704 ∷ 0x4704 ∷ 0x4904 ∷ 0x4904
    ∷ 0x4704 ∷ 0x4704 ∷ 0x4604 ∷ 0x4604 ∷ 0x4704 ∷ 0x4704 ∷ 0x4404 ∷ 0x4404 ∷ 0x4210 ∷ 0x4410
    ∷ 0x4210 ∷ 0x4410 ∷ 0x4604 ∷ 0x4704 ∷ 0x4904 ∷ 0x4704 ∷ 0x4604 ∷ 0x4704 ∷ 0x4904 ∷ 0x4604
    ∷ 0x4B04 ∷ 0x4904 ∷ 0x4704 ∷ 0x4904 ∷ 0x4B04 ∷ 0x4904 ∷ 0x4804 ∷ 0x4B04 ∷ 0x4904 ∷ 0x4904
    ∷ 0x4904 ∷ 0x4904 ∷ 0x4904 ∷ 0x4904 ∷ 0x4904 ∷ 0x4904 ∷ 0x4904 ∷ 0x3904 ∷ 0x3904 ∷ []

abbrev pub voice2_part_two : List ℕ
voice2_part_two =
    0x3904 ∷ 0x3908 ∷ 0x8020 ∷ 0x4604 ∷ 0x8004 ∷ 0x3B04 ∷ 0x8004 ∷ 0x4704 ∷ 0x8004 ∷ 0x4404 ∷ 0x8004
    ∷ 0x4104 ∷ 0x800C ∷ 0x4401 ∷ 0x4401 ∷ 0x4401 ∷ 0x4401 ∷ 0x4401 ∷ 0x4401 ∷ 0x4401 ∷ 0x4401
    ∷ 0x4204 ∷ 0x8004 ∷ 0x4404 ∷ 0x8004 ∷ 0x4201 ∷ 0x4201 ∷ 0x4201 ∷ 0x4201 ∷ 0x4201 ∷ 0x4201
    ∷ 0x4201 ∷ 0x4201 ∷ 0x4201 ∷ 0x4201 ∷ 0x4201 ∷ 0x4201 ∷ 0x4201 ∷ 0x4201 ∷ 0x4201 ∷ 0x4201
    ∷ 0x4108 ∷ 0x8010 ∷ 0x4101 ∷ 0x4101 ∷ 0x4101 ∷ 0x4101 ∷ 0x4101 ∷ 0x4101 ∷ 0x4101 ∷ 0x4101
    ∷ 0x4204 ∷ 0x8004 ∷ 0x4604 ∷ 0x8004 ∷ 0x3B04 ∷ 0x8004 ∷ 0x3704 ∷ 0x8004 ∷ 0x3408 ∷ 0x8004
    ∷ 0x4404 ∷ 0x4704 ∷ 0x4604 ∷ 0x8004 ∷ 0x5704 ∷ 0x5701 ∷ 0x5701 ∷ 0x5701 ∷ 0x5701 ∷ 0x5604
    ∷ 0x8004 ∷ 0x4704 ∷ 0x4204 ∷ 0x4204 ∷ 0x4404 ∷ 0x4404 ∷ 0x4604 ∷ 0x4604 ∷ 0x4204 ∷ 0x4204
    ∷ 0x4104 ∷ 0x4104 ∷ 0x4204 ∷ 0x4204 ∷ 0x4404 ∷ 0x4404 ∷ 0x4104 ∷ 0x4104 ∷ 0x4204 ∷ 0x4204
    ∷ 0x4404 ∷ 0x4404 ∷ 0x4604 ∷ 0x4604 ∷ 0x4204 ∷ 0x4204 ∷ 0x4104 ∷ 0x4104 ∷ 0x4204 ∷ 0x4204
    ∷ 0x4404 ∷ 0x4404 ∷ 0x4104 ∷ 0x4104 ∷ 0x4204 ∷ 0x4204 ∷ 0x4604 ∷ 0x4404 ∷ 0x4304 ∷ 0x3B04
    ∷ 0x4104 ∷ 0x4304 ∷ 0x4404 ∷ 0x4704 ∷ 0x4404 ∷ 0x4204 ∷ 0x4104 ∷ 0x3904 ∷ 0x3B04 ∷ 0x4104
    ∷ 0x5204 ∷ 0x5204 ∷ 0x5204 ∷ 0x5204 ∷ 0x5204 ∷ 0x5204 ∷ 0x5204 ∷ 0x5204 ∷ 0x5204 ∷ 0x4904
    ∷ 0x4904 ∷ 0x4904 ∷ 0x4904 ∷ 0x4904 ∷ 0x4904 ∷ 0x4704 ∷ 0x4604 ∷ 0x4204 ∷ 0x4404 ∷ 0x4404
    ∷ 0x4604 ∷ 0x4604 ∷ 0x4204 ∷ 0x4204 ∷ 0x4104 ∷ 0x4104 ∷ 0x4204 ∷ 0x4204 ∷ 0x4404 ∷ 0x4404
    ∷ 0x4104 ∷ 0x4104 ∷ 0x4204 ∷ 0x4204 ∷ 0x4404 ∷ 0x4404 ∷ 0x4604 ∷ 0x4604 ∷ 0x4204 ∷ 0x4204
    ∷ 0x4104 ∷ 0x4104 ∷ 0x4204 ∷ 0x4204 ∷ 0x4404 ∷ 0x4404 ∷ 0x4104 ∷ 0x4104 ∷ 0x4204 ∷ 0x4204
    ∷ 0x4604 ∷ 0x4404 ∷ 0x4304 ∷ 0x3B04 ∷ 0x4104 ∷ 0x4304 ∷ 0x4404 ∷ 0x4704 ∷ 0x4404 ∷ 0x4204
    ∷ 0x4104 ∷ 0x3904 ∷ 0x3B04 ∷ 0x4104 ∷ 0x4204 ∷ 0x5204 ∷ 0x5204 ∷ 0x5204 ∷ 0x5204 ∷ 0x5204
    ∷ 0x5204 ∷ 0x5204 ∷ 0x5204 ∷ 0x4904 ∷ 0x4904 ∷ 0x4904 ∷ 0x4904 ∷ 0x4904 ∷ 0x4904 ∷ 0x4704
    ∷ 0x4604 ∷ 0x3904 ∷ 0x3B04 ∷ 0x4104 ∷ 0x4204 ∷ 0x4204 ∷ 0x4404 ∷ 0x4404 ∷ 0x4604 ∷ 0x4104
    ∷ 0x4204 ∷ 0x4404 ∷ 0x4604 ∷ 0x4604 ∷ 0x4704 ∷ 0x4704 ∷ 0x4904 ∷ 0x4904 ∷ 0x4A04 ∷ 0x4A04
    ∷ 0x4B08 ∷ 0x8008 ∷ 0x4401 ∷ 0x4401 ∷ 0x4401 ∷ 0x4401 ∷ 0x4401 ∷ 0x4401 ∷ 0x4401 ∷ 0x4401
    ∷ 0x4401 ∷ 0x4401 ∷ 0x4401 ∷ 0x4401 ∷ 0x4401 ∷ 0x4401 ∷ 0x4401 ∷ 0x4401 ∷ 0x4401 ∷ 0x4401
    ∷ 0x4401 ∷ 0x4401 ∷ 0x4401 ∷ 0x4401 ∷ 0x4401 ∷ 0x4401 ∷ 0x4201 ∷ 0x4201 ∷ 0x4201 ∷ 0x4201
    ∷ 0x4104 ∷ 0x5204 ∷ 0x8004 ∷ 0x5204 ∷ 0x8004 ∷ 0x5204 ∷ 0x800C ∷ 0x4208 ∷ 0x8004 ∷ 0x3904
    ∷ 0x4208 ∷ 0x8004 ∷ 0x3904 ∷ 0x4204 ∷ 0x3904 ∷ 0x4204 ∷ 0x4604 ∷ 0x4908 ∷ 0x8008 ∷ 0x4908
    ∷ 0x8004 ∷ 0x4604 ∷ 0x4908 ∷ 0x8004 ∷ 0x4604 ∷ 0x4904 ∷ 0x4604 ∷ 0x4304 ∷ 0x4604 ∷ 0x3B08
    ∷ 0x8008 ∷ 0x4004 ∷ 0x4004 ∷ 0x4204 ∷ 0x4204 ∷ 0x4404 ∷ 0x4404 ∷ 0x4004 ∷ 0x4004 ∷ 0x3B04
    ∷ 0x3B04 ∷ 0x4004 ∷ 0x4004 ∷ 0x4204 ∷ 0x4204 ∷ 0x3B04 ∷ 0x3B04 ∷ 0x4004 ∷ 0x4004 ∷ 0x4204
    ∷ 0x4204 ∷ 0x4404 ∷ 0x4404 ∷ 0x4004 ∷ 0x4004 ∷ 0x3B04 ∷ 0x3B04 ∷ 0x4004 ∷ 0x4004 ∷ 0x4204
    ∷ 0x4204 ∷ 0x3B04 ∷ 0x3B04 ∷ 0x4004 ∷ 0x4004 ∷ 0x4204 ∷ 0x4204 ∷ 0x4404 ∷ 0x4404 ∷ 0x4004
    ∷ 0x4004 ∷ 0x3B04 ∷ 0x3B04 ∷ 0x4004 ∷ 0x4004 ∷ 0x4204 ∷ 0x4204 ∷ 0x3B04 ∷ 0x3B04 ∷ 0x3904
    ∷ 0x3904 ∷ 0x3B04 ∷ 0x3B04 ∷ 0x4004 ∷ 0x4004 ∷ 0x3904 ∷ 0x3904 ∷ 0x3904 ∷ 0x3904 ∷ 0x3A04
    ∷ 0x3A04 ∷ 0x4004 ∷ 0x4004 ∷ 0x3904 ∷ 0x3904 ∷ 0x3704 ∷ 0x3704 ∷ 0x3604 ∷ 0x3604 ∷ 0x3704
    ∷ 0x3704 ∷ 0x4604 ∷ 0x4604 ∷ 0x4704 ∷ 0x4704 ∷ 0x4604 ∷ 0x4604 ∷ 0x4704 ∷ 0x3704 ∷ 0x3604
    ∷ 0x3704 ∷ 0x3908 ∷ 0x8004 ∷ 0x3201 ∷ 0x3201 ∷ 0x3201 ∷ 0x3201 ∷ 0x3401 ∷ 0x3401 ∷ 0x3401
    ∷ 0x3401 ∷ 0x3601 ∷ 0x3601 ∷ 0x3601 ∷ 0x3601 ∷ 0x3701 ∷ 0x3701 ∷ 0x3701 ∷ 0x3701 ∷ 0x3901
    ∷ 0x3901 ∷ 0x3901 ∷ 0x3901 ∷ 0x4001 ∷ 0x4001 ∷ 0x4001 ∷ 0x4001 ∷ 0x3A04 ∷ 0x8004 ∷ 0x3601
    ∷ 0x3601 ∷ 0x3601 ∷ 0x3601 ∷ 0x3701 ∷ 0x3701 ∷ 0x3701 ∷ 0x3701 ∷ 0x3901 ∷ 0x3901 ∷ 0x3901
    ∷ 0x3901 ∷ 0x3A01 ∷ 0x3A01 ∷ 0x3A01 ∷ 0x3A01 ∷ 0x4101 ∷ 0x4101 ∷ 0x4101 ∷ 0x4101 ∷ 0x4401
    ∷ 0x4401 ∷ 0x4401 ∷ 0x4401 ∷ 0x4204 ∷ 0x8038 ∷ 0x4B04 ∷ 0x4B04 ∷ 0x4B01 ∷ 0x4B01 ∷ 0x4B01
    ∷ 0x4B01 ∷ 0x5004 ∷ 0x4904 ∷ 0x4904 ∷ 0x4901 ∷ 0x4901 ∷ 0x4901 ∷ 0x4901 ∷ 0x4B04 ∷ 0x4704
    ∷ 0x4704 ∷ 0x4701 ∷ 0x4701 ∷ 0x4701 ∷ 0x4701 ∷ 0x4B04 ∷ 0x4B01 ∷ 0x4B01 ∷ 0x4B01 ∷ 0x4B01
    ∷ 0x4904 ∷ 0x4704 ∷ 0x4204 ∷ 0x3B08 ∷ 0x8004 ∷ 0x4204 ∷ 0x4708 ∷ 0x8004 ∷ 0x4204 ∷ 0x4704
    ∷ 0x4204 ∷ 0x4704 ∷ 0x4B04 ∷ 0x5208 ∷ 0x8008 ∷ 0x5008 ∷ 0x8004 ∷ 0x4904 ∷ 0x5008 ∷ 0x8004
    ∷ 0x4904 ∷ 0x5004 ∷ 0x4904 ∷ 0x4604 ∷ 0x4904 ∷ 0x4208 ∷ 0x8008 ∷ 0x4704 ∷ 0x4704 ∷ 0x4704
    ∷ 0x4704 ∷ 0x4704 ∷ 0x4704 ∷ 0x4704 ∷ 0x4704 ∷ 0x4704 ∷ 0x4704 ∷ 0x4704 ∷ 0x4704 ∷ 0x4701
    ∷ 0x4701 ∷ 0x4701 ∷ 0x4701 ∷ 0x4B04 ∷ 0x4401 ∷ 0x4401 ∷ 0x4401 ∷ 0x4401 ∷ 0x4704 ∷ 0x4704
    ∷ 0x4704 ∷ 0x4704 ∷ 0x4704 ∷ 0x4704 ∷ 0x4704 ∷ 0x4704 ∷ 0x4704 ∷ 0x4704 ∷ 0x4704 ∷ 0x4704
    ∷ 0x4704 ∷ 0x4701 ∷ 0x4701 ∷ 0x4701 ∷ 0x4701 ∷ 0x4B04 ∷ 0x4401 ∷ 0x4401 ∷ 0x4401 ∷ 0x4401
    ∷ 0x4704 ∷ 0x4210 ∷ 0x4210 ∷ 0x4210 ∷ 0x4208 ∷ 0x8028 ∷ 0x3610 ∷ 0x3710 ∷ 0x4008 ∷ 0x4008
    ∷ 0x3908 ∷ 0x3908 ∷ 0x3204 ∷ 0x8004 ∷ 0x4204 ∷ 0x8004 ∷ 0x4208 ∷ 0x8028 ∷ 0x4601 ∷ 0x4601
    ∷ 0x4601 ∷ 0x4601 ∷ 0x4601 ∷ 0x4601 ∷ 0x4601 ∷ 0x4601 ∷ 0x4601 ∷ 0x4601 ∷ 0x4601 ∷ 0x4601
    ∷ 0x4601 ∷ 0x4601 ∷ 0x4601 ∷ 0x4601 ∷ 0x4710 ∷ 0x4008 ∷ 0x4004 ∷ 0x4004 ∷ 0x3908 ∷ 0x3904
    ∷ 0x3904 ∷ 0x3704 ∷ 0x3704 ∷ 0x3704 ∷ 0x3704 ∷ 0x3704 ∷ 0x3704 ∷ 0x3704 ∷ 0x3704 ∷ 0x3704
    ∷ 0x3704 ∷ 0x3704 ∷ 0x3704 ∷ 0x3704 ∷ 0x3704 ∷ 0x3704 ∷ 0x3704 ∷ 0x3704 ∷ 0x4704 ∷ 0x4704
    ∷ 0x4704 ∷ 0x4704 ∷ 0x4704 ∷ 0x4904 ∷ 0x4904 ∷ 0x4704 ∷ 0x4704 ∷ 0x4604 ∷ 0x4604 ∷ 0x4704
    ∷ 0x4704 ∷ 0x4404 ∷ 0x4404 ∷ 0x4210 ∷ 0x4410 ∷ 0x4210 ∷ 0x4410 ∷ 0x4208 ∷ 0x4408 ∷ 0x4208
    ∷ 0x4408 ∷ 0x4204 ∷ 0x3204 ∷ 0x3204 ∷ 0x3204 ∷ 0x3208 ∷ 0x8020 ∷ 0x3B04 ∷ 0x8004 ∷ []

abbrev pub voice2_part_three : List ℕ
voice2_part_three =
    0x3404 ∷ 0x8004 ∷ 0x4004 ∷ 0x8004 ∷ 0x3904 ∷ 0x8004 ∷ 0x3604 ∷ 0x800C ∷ 0x4901 ∷ 0x4901 ∷ 0x4901
    ∷ 0x4901 ∷ 0x4901 ∷ 0x4901 ∷ 0x4901 ∷ 0x4901 ∷ 0x4704 ∷ 0x8004 ∷ 0x4904 ∷ 0x8004 ∷ 0x4B10
    ∷ 0x4908 ∷ 0x8008 ∷ 0x5201 ∷ 0x5201 ∷ 0x5201 ∷ 0x5201 ∷ 0x5201 ∷ 0x5201 ∷ 0x5201 ∷ 0x5201
    ∷ 0x5201 ∷ 0x5201 ∷ 0x5001 ∷ 0x5001 ∷ 0x4B01 ∷ 0x4B01 ∷ 0x4901 ∷ 0x4901 ∷ 0x4704 ∷ 0x8004
    ∷ 0x5404 ∷ 0x8004 ∷ 0x5004 ∷ 0x8004 ∷ 0x4904 ∷ 0x8004 ∷ 0x5208 ∷ 0x8004 ∷ 0x5004 ∷ 0x5001
    ∷ 0x5001 ∷ 0x5001 ∷ 0x5001 ∷ 0x4B04 ∷ 0x8004 ∷ 0x5004 ∷ 0x5001 ∷ 0x5001 ∷ 0x5001 ∷ 0x5001
    ∷ 0x4B04 ∷ 0x8004 ∷ 0x4004 ∷ 0x3704 ∷ 0x3704 ∷ 0x3904 ∷ 0x3904 ∷ 0x3B04 ∷ 0x3B04 ∷ 0x3704
    ∷ 0x3704 ∷ 0x3604 ∷ 0x3604 ∷ 0x3704 ∷ 0x3704 ∷ 0x3904 ∷ 0x3904 ∷ 0x3604 ∷ 0x3604 ∷ 0x3704
    ∷ 0x3704 ∷ 0x3904 ∷ 0x3904 ∷ 0x3B04 ∷ 0x3B04 ∷ 0x3704 ∷ 0x3704 ∷ 0x3604 ∷ 0x3604 ∷ 0x3704
    ∷ 0x3704 ∷ 0x3904 ∷ 0x3904 ∷ 0x3604 ∷ 0x3604 ∷ 0x3704 ∷ 0x4704 ∷ 0x4B04 ∷ 0x4904 ∷ 0x4804
    ∷ 0x4404 ∷ 0x4604 ∷ 0x4804 ∷ 0x4904 ∷ 0x5004 ∷ 0x4904 ∷ 0x4704 ∷ 0x4604 ∷ 0x4204 ∷ 0x4404
    ∷ 0x4604 ∷ 0x4704 ∷ 0x4704 ∷ 0x4704 ∷ 0x4704 ∷ 0x4704 ∷ 0x4704 ∷ 0x4704 ∷ 0x4704 ∷ 0x4704
    ∷ 0x4204 ∷ 0x4204 ∷ 0x4204 ∷ 0x4204 ∷ 0x4204 ∷ 0x4204 ∷ 0x4004 ∷ 0x3B04 ∷ 0x3704 ∷ 0x3904
    ∷ 0x3904 ∷ 0x3B04 ∷ 0x3B04 ∷ 0x3704 ∷ 0x3704 ∷ 0x3604 ∷ 0x3604 ∷ 0x3704 ∷ 0x3704 ∷ 0x3904
    ∷ 0x3904 ∷ 0x3604 ∷ 0x3604 ∷ 0x3704 ∷ 0x4704 ∷ 0x4904 ∷ 0x4904 ∷ 0x4B04 ∷ 0x4B04 ∷ 0x4704
    ∷ 0x4704 ∷ 0x4604 ∷ 0x4604 ∷ 0x4704 ∷ 0x4704 ∷ 0x4904 ∷ 0x4904 ∷ 0x4604 ∷ 0x4604 ∷ 0x4704
    ∷ 0x4704 ∷ 0x4B04 ∷ 0x4904 ∷ 0x4804 ∷ 0x4404 ∷ 0x4604 ∷ 0x4804 ∷ 0x4904 ∷ 0x5004 ∷ 0x4904
    ∷ 0x4704 ∷ 0x4604 ∷ 0x4204 ∷ 0x4404 ∷ 0x4604 ∷ 0x4704 ∷ 0x4704 ∷ 0x4704 ∷ 0x4704 ∷ 0x4704
    ∷ 0x4704 ∷ 0x4704 ∷ 0x4704 ∷ 0x4701 ∷ 0x4701 ∷ 0x4701 ∷ 0x4701 ∷ 0x4904 ∷ 0x5004 ∷ 0x5004
    ∷ 0x5004 ∷ 0x5004 ∷ 0x5004 ∷ 0x4B04 ∷ 0x4904 ∷ 0x4204 ∷ 0x4404 ∷ 0x4604 ∷ 0x4704 ∷ 0x4704
    ∷ 0x4904 ∷ 0x4904 ∷ 0x4B04 ∷ 0x3604 ∷ 0x3704 ∷ 0x3904 ∷ 0x3B04 ∷ 0x3B04 ∷ 0x4004 ∷ 0x4004
    ∷ 0x4004 ∷ 0x4004 ∷ 0x4104 ∷ 0x4104 ∷ 0x4208 ∷ 0x8008 ∷ 0x3901 ∷ 0x3901 ∷ 0x3901 ∷ 0x3901
    ∷ 0x3901 ∷ 0x3901 ∷ 0x3901 ∷ 0x3901 ∷ 0x3901 ∷ 0x3901 ∷ 0x3901 ∷ 0x3901 ∷ 0x3901 ∷ 0x3901
    ∷ 0x3901 ∷ 0x3901 ∷ 0x3901 ∷ 0x3901 ∷ 0x3901 ∷ 0x3901 ∷ 0x3901 ∷ 0x3901 ∷ 0x3901 ∷ 0x3901
    ∷ 0x3701 ∷ 0x3701 ∷ 0x3701 ∷ 0x3701 ∷ 0x3604 ∷ 0x3708 ∷ 0x8018 ∷ 0x3901 ∷ 0x3901 ∷ 0x3901
    ∷ 0x3901 ∷ 0x3901 ∷ 0x3901 ∷ 0x3901 ∷ 0x3901 ∷ 0x3901 ∷ 0x3901 ∷ 0x3901 ∷ 0x3901 ∷ 0x3901
    ∷ 0x3901 ∷ 0x3901 ∷ 0x3901 ∷ 0x3901 ∷ 0x3901 ∷ 0x3901 ∷ 0x3901 ∷ 0x3901 ∷ 0x3901 ∷ 0x3901
    ∷ 0x3901 ∷ 0x3701 ∷ 0x3701 ∷ 0x3701 ∷ 0x3701 ∷ 0x3604 ∷ 0x3708 ∷ 0x8008 ∷ 0x4708 ∷ 0x8008
    ∷ 0x4408 ∷ 0x8008 ∷ 0x4708 ∷ 0x8008 ∷ 0x3710 ∷ 0x3710 ∷ 0x3710 ∷ 0x3708 ∷ 0x3908 ∷ 0x3710
    ∷ 0x3710 ∷ 0x3710 ∷ 0x3708 ∷ 0x3908 ∷ 0x3704 ∷ 0x3B04 ∷ 0x4204 ∷ 0x4704 ∷ 0x4B04 ∷ 0x4704
    ∷ 0x5204 ∷ 0x4B04 ∷ 0x4708 ∷ 0x3706 ∷ 0x3702 ∷ 0x3708 ∷ 0x8008 ∷ 0x4208 ∷ 0x8004 ∷ 0x3904
    ∷ 0x4208 ∷ 0x8004 ∷ 0x3904 ∷ 0x4204 ∷ 0x3904 ∷ 0x4204 ∷ 0x4604 ∷ 0x4908 ∷ 0x8008 ∷ 0x4908
    ∷ 0x8004 ∷ 0x4604 ∷ 0x4908 ∷ 0x8004 ∷ 0x4604 ∷ 0x4904 ∷ 0x4604 ∷ 0x4304 ∷ 0x4604 ∷ 0x3B08
    ∷ 0x8008 ∷ 0x4004 ∷ 0x4004 ∷ 0x4204 ∷ 0x4204 ∷ 0x4404 ∷ 0x4404 ∷ 0x4004 ∷ 0x4004 ∷ 0x3B04
    ∷ 0x3B04 ∷ 0x4004 ∷ 0x4004 ∷ 0x4204 ∷ 0x4204 ∷ 0x3B04 ∷ 0x3B04 ∷ 0x4004 ∷ 0x4004 ∷ 0x4204
    ∷ 0x4204 ∷ 0x4404 ∷ 0x4404 ∷ 0x4004 ∷ 0x4004 ∷ 0x3B04 ∷ 0x3B04 ∷ 0x4004 ∷ 0x4004 ∷ 0x4204
    ∷ 0x4204 ∷ 0x3B04 ∷ 0x3B04 ∷ 0x4004 ∷ 0x4004 ∷ 0x4204 ∷ 0x4204 ∷ 0x4404 ∷ 0x4404 ∷ 0x4004
    ∷ 0x4004 ∷ 0x3B04 ∷ 0x3B04 ∷ 0x4004 ∷ 0x4004 ∷ 0x4204 ∷ 0x4204 ∷ 0x3B04 ∷ 0x3B04 ∷ 0x3904
    ∷ 0x3904 ∷ 0x3B04 ∷ 0x3B04 ∷ 0x4004 ∷ 0x4004 ∷ 0x3904 ∷ 0x3904 ∷ 0x3904 ∷ 0x3904 ∷ 0x3A04
    ∷ 0x3A04 ∷ 0x4004 ∷ 0x4004 ∷ 0x3904 ∷ 0x3904 ∷ 0x3704 ∷ 0x3704 ∷ 0x3604 ∷ 0x3604 ∷ 0x3704
    ∷ 0x3704 ∷ 0x4604 ∷ 0x4604 ∷ 0x4704 ∷ 0x4704 ∷ 0x4604 ∷ 0x4604 ∷ 0x4704 ∷ 0x3704 ∷ 0x3604
    ∷ 0x3704 ∷ 0x3908 ∷ 0x8004 ∷ 0x3201 ∷ 0x3201 ∷ 0x3201 ∷ 0x3201 ∷ 0x3401 ∷ 0x3401 ∷ 0x3401
    ∷ 0x3401 ∷ 0x3601 ∷ 0x3601 ∷ 0x3601 ∷ 0x3601 ∷ 0x3701 ∷ 0x3701 ∷ 0x3701 ∷ 0x3701 ∷ 0x3901
    ∷ 0x3901 ∷ 0x3901 ∷ 0x3901 ∷ 0x4001 ∷ 0x4001 ∷ 0x4001 ∷ 0x4001 ∷ 0x3A04 ∷ 0x8004 ∷ 0x3601
    ∷ 0x3601 ∷ 0x3601 ∷ 0x3601 ∷ 0x3701 ∷ 0x3701 ∷ 0x3701 ∷ 0x3701 ∷ 0x3901 ∷ 0x3901 ∷ 0x3901
    ∷ 0x3901 ∷ 0x3A01 ∷ 0x3A01 ∷ 0x3A01 ∷ 0x3A01 ∷ 0x4101 ∷ 0x4101 ∷ 0x4101 ∷ 0x4101 ∷ 0x4401
    ∷ 0x4401 ∷ 0x4401 ∷ 0x4401 ∷ 0x4204 ∷ 0x8038 ∷ 0x4B04 ∷ 0x4B04 ∷ 0x4B01 ∷ 0x4B01 ∷ 0x4B01
    ∷ 0x4B01 ∷ 0x5004 ∷ 0x4904 ∷ 0x4904 ∷ 0x4901 ∷ 0x4901 ∷ 0x4901 ∷ 0x4901 ∷ 0x4B04 ∷ 0x4704
    ∷ 0x4704 ∷ 0x4701 ∷ 0x4701 ∷ 0x4701 ∷ 0x4701 ∷ 0x4B04 ∷ 0x4B01 ∷ 0x4B01 ∷ 0x4B01 ∷ 0x4B01
    ∷ 0x4904 ∷ 0x4704 ∷ 0x4204 ∷ 0x3B08 ∷ 0x8004 ∷ 0x4204 ∷ 0x4708 ∷ 0x8004 ∷ 0x4204 ∷ 0x4704
    ∷ 0x4204 ∷ 0x4704 ∷ 0x4B04 ∷ 0x5208 ∷ 0x8008 ∷ 0x5008 ∷ 0x8004 ∷ 0x4904 ∷ 0x5008 ∷ 0x8004
    ∷ 0x4904 ∷ 0x5004 ∷ 0x4904 ∷ 0x4604 ∷ 0x4904 ∷ 0x4208 ∷ 0x8008 ∷ 0x4704 ∷ 0x4704 ∷ 0x4704
    ∷ 0x4704 ∷ 0x4704 ∷ 0x4704 ∷ 0x4704 ∷ 0x4704 ∷ 0x4704 ∷ 0x4704 ∷ 0x4704 ∷ 0x4704 ∷ 0x4701
    ∷ 0x4701 ∷ 0x4701 ∷ 0x4701 ∷ 0x4B04 ∷ 0x4401 ∷ 0x4401 ∷ 0x4401 ∷ 0x4401 ∷ 0x4704 ∷ 0x4704
    ∷ 0x4704 ∷ 0x4704 ∷ 0x4704 ∷ 0x4704 ∷ 0x4704 ∷ 0x4704 ∷ 0x4704 ∷ 0x4704 ∷ 0x4704 ∷ 0x4704
    ∷ 0x4704 ∷ 0x4701 ∷ 0x4701 ∷ 0x4701 ∷ 0x4701 ∷ 0x4B04 ∷ 0x4401 ∷ 0x4401 ∷ 0x4401 ∷ 0x4401
    ∷ 0x4704 ∷ 0x4210 ∷ 0x4210 ∷ 0x4210 ∷ 0x4208 ∷ 0x8028 ∷ 0x3610 ∷ 0x3710 ∷ 0x4008 ∷ 0x4008
    ∷ 0x3908 ∷ 0x3908 ∷ 0x3204 ∷ 0x8004 ∷ 0x4204 ∷ 0x8004 ∷ 0x4208 ∷ 0x8028 ∷ 0x4601 ∷ 0x4601
    ∷ 0x4601 ∷ 0x4601 ∷ 0x4601 ∷ 0x4601 ∷ 0x4601 ∷ 0x4601 ∷ 0x4601 ∷ 0x4601 ∷ 0x4601 ∷ 0x4601
    ∷ 0x4601 ∷ 0x4601 ∷ 0x4601 ∷ 0x4601 ∷ 0x4710 ∷ 0x4008 ∷ 0x4004 ∷ 0x4004 ∷ 0x3908 ∷ []
