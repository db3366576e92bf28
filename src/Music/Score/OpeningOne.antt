-- ===== src/Music/Score/OpeningOne.antt =====
-- nachtm.c, lines 45 to 225: notes of Voice1, in the order of the source.
use builds.Base.{ℕ, List, [], ◌∷◌}

abbrev pub voice1_part_one : List ℕ
voice1_part_one =
    0x5708 ∷ 0x8004 ∷ 0x5204 ∷ 0x5708 ∷ 0x8004 ∷ 0x5204 ∷ 0x5704 ∷ 0x5204 ∷ 0x5704 ∷ 0x5B04 ∷ 0x6208
    ∷ 0x8008 ∷ 0x6008 ∷ 0x8004 ∷ 0x5904 ∷ 0x6008 ∷ 0x8004 ∷ 0x5904 ∷ 0x6004 ∷ 0x5904 ∷ 0x5604
    ∷ 0x5904 ∷ 0x5208 ∷ 0x8008 ∷ 0x5704 ∷ 0x8004 ∷ 0x570C ∷ 0x5B01 ∷ 0x5B01 ∷ 0x5B01 ∷ 0x5B01
    ∷ 0x5904 ∷ 0x5704 ∷ 0x5704 ∷ 0x5604 ∷ 0x560C ∷ 0x5901 ∷ 0x5901 ∷ 0x5901 ∷ 0x5901 ∷ 0x6004
    ∷ 0x5604 ∷ 0x5901 ∷ 0x5901 ∷ 0x5901 ∷ 0x5901 ∷ 0x5704 ∷ 0x570C ∷ 0x5B01 ∷ 0x5B01 ∷ 0x5B01
    ∷ 0x5B01 ∷ 0x5904 ∷ 0x5704 ∷ 0x5701 ∷ 0x5701 ∷ 0x5701 ∷ 0x5701 ∷ 0x5604 ∷ 0x560C ∷ 0x5901
    ∷ 0x5901 ∷ 0x5901 ∷ 0x5901 ∷ 0x6004 ∷ 0x5604 ∷ 0x5704 ∷ 0x5704 ∷ 0x5601 ∷ 0x5601 ∷ 0x5601
    ∷ 0x5601 ∷ 0x5401 ∷ 0x5401 ∷ 0x5602 ∷ 0x5704 ∷ 0x5704 ∷ 0x5901 ∷ 0x5901 ∷ 0x5901 ∷ 0x5901
    ∷ 0x5701 ∷ 0x5701 ∷ 0x5902 ∷ 0x5B04 ∷ 0x5B04 ∷ 0x6001 ∷ 0x6001 ∷ 0x6001 ∷ 0x6001 ∷ 0x5B01
    ∷ 0x5B01 ∷ 0x6001 ∷ 0x6001 ∷ 0x6208 ∷ 0x8008 ∷ 0x5201 ∷ 0x5201 ∷ 0x5201 ∷ 0x5201 ∷ 0x5201
    ∷ 0x5201 ∷ 0x5201 ∷ 0x5201 ∷ 0x5201 ∷ 0x5201 ∷ 0x5201 ∷ 0x5201 ∷ 0x5201 ∷ 0x5201 ∷ 0x5201
    ∷ 0x5201 ∷ 0x5410 ∷ 0x5008 ∷ 0x5008 ∷ 0x4B08 ∷ 0x4B08 ∷ 0x4908 ∷ 0x4908 ∷ 0x4701 ∷ 0x4701
    ∷ 0x4701 ∷ 0x4701 ∷ 0x4604 ∷ 0x4404 ∷ 0x4604 ∷ 0x4704 ∷ 0x8004 ∷ 0x4904 ∷ 0x8004 ∷ 0x4B04
    ∷ 0x800C ∷ 0x5201 ∷ 0x5201 ∷ 0x5201 ∷ 0x5201 ∷ 0x5201 ∷ 0x5201 ∷ 0x5201 ∷ 0x5201 ∷ 0x5201
    ∷ 0x5201 ∷ 0x5201 ∷ 0x5201 ∷ 0x5201 ∷ 0x5201 ∷ 0x5201 ∷ 0x5201 ∷ 0x5410 ∷ 0x5201 ∷ 0x5201
    ∷ 0x5201 ∷ 0x5201 ∷ 0x5004 ∷ 0x5004 ∷ 0x5004 ∷ 0x5001 ∷ 0x5001 ∷ 0x5001 ∷ 0x5001 ∷ 0x4B04
    ∷ 0x4B04 ∷ 0x4B04 ∷ 0x4B01 ∷ 0x4B01 ∷ 0x4B01 ∷ 0x4B01 ∷ 0x4904 ∷ 0x4904 ∷ 0x4904 ∷ 0x4701
    ∷ 0x4701 ∷ 0x4701 ∷ 0x4701 ∷ 0x4601 ∷ 0x4601 ∷ 0x4601 ∷ 0x4601 ∷ 0x4401 ∷ 0x4401 ∷ 0x4401
    ∷ 0x4401 ∷ 0x4604 ∷ 0x4701 ∷ 0x4701 ∷ 0x4701 ∷ 0x4701 ∷ 0x4701 ∷ 0x4701 ∷ 0x4701 ∷ 0x4701
    ∷ 0x4701 ∷ 0x4701 ∷ 0x4701 ∷ 0x4701 ∷ 0x4701 ∷ 0x4701 ∷ 0x4701 ∷ 0x4701 ∷ 0x4704 ∷ 0x4701
    ∷ 0x4701 ∷ 0x4601 ∷ 0x4701 ∷ 0x4901 ∷ 0x4901 ∷ 0x4901 ∷ 0x4901 ∷ 0x4604 ∷ 0x4B01 ∷ 0x4B01
    ∷ 0x4B01 ∷ 0x4B01 ∷ 0x4B01 ∷ 0x4B01 ∷ 0x4B01 ∷ 0x4B01 ∷ 0x4B01 ∷ 0x4B01 ∷ 0x4B01 ∷ 0x4B01
    ∷ 0x4B01 ∷ 0x4B01 ∷ 0x4B01 ∷ 0x4B01 ∷ 0x4B04 ∷ 0x4B01 ∷ 0x4B01 ∷ 0x4901 ∷ 0x4B01 ∷ 0x5001
    ∷ 0x5001 ∷ 0x5001 ∷ 0x5001 ∷ 0x4904 ∷ 0x5210 ∷ 0x5408 ∷ 0x5608 ∷ 0x5708 ∷ 0x5908 ∷ 0x5B08
    ∷ 0x6108 ∷ 0x6201 ∷ 0x6201 ∷ 0x6201 ∷ 0x6201 ∷ 0x6201 ∷ 0x6201 ∷ 0x6201 ∷ 0x6201 ∷ 0x6201
    ∷ 0x6201 ∷ 0x6201 ∷ 0x6201 ∷ 0x5904 ∷ 0x6101 ∷ 0x6101 ∷ 0x6101 ∷ 0x6101 ∷ 0x6101 ∷ 0x6101
    ∷ 0x5902 ∷ 0x6101 ∷ 0x6101 ∷ 0x6101 ∷ 0x6101 ∷ 0x6101 ∷ 0x6101 ∷ 0x5902 ∷ 0x6201 ∷ 0x6201
    ∷ 0x6201 ∷ 0x6201 ∷ 0x6201 ∷ 0x6201 ∷ 0x6201 ∷ 0x6201 ∷ 0x6201 ∷ 0x6201 ∷ 0x6201 ∷ 0x6201
    ∷ 0x5904 ∷ 0x6101 ∷ 0x6101 ∷ 0x6101 ∷ 0x6101 ∷ 0x6101 ∷ 0x6101 ∷ 0x5902 ∷ 0x6101 ∷ 0x6101
    ∷ 0x6101 ∷ 0x6101 ∷ 0x6101 ∷ 0x6101 ∷ 0x5902 ∷ 0x6204 ∷ 0x6208 ∷ 0x6208 ∷ 0x6208 ∷ 0x6201
    ∷ 0x6201 ∷ 0x6201 ∷ 0x6201 ∷ 0x6204 ∷ 0x6208 ∷ 0x6208 ∷ 0x6208 ∷ 0x6204 ∷ 0x6104 ∷ 0x5904
    ∷ 0x6204 ∷ 0x5904 ∷ 0x6004 ∷ 0x5904 ∷ 0x6204 ∷ 0x5904 ∷ 0x6104 ∷ 0x4904 ∷ 0x4904 ∷ 0x4904
    ∷ 0x4908 ∷ 0x8008 ∷ 0x590A ∷ 0x5702 ∷ 0x5602 ∷ 0x5402 ∷ 0x5204 ∷ 0x8004 ∷ 0x5B04 ∷ 0x8004
    ∷ 0x5704 ∷ 0x8004 ∷ 0x5404 ∷ 0x8004 ∷ 0x5B04 ∷ 0x800C ∷ 0x5601 ∷ 0x5601 ∷ 0x5601 ∷ 0x5601
    ∷ 0x5601 ∷ 0x5601 ∷ 0x5601 ∷ 0x5601 ∷ 0x5601 ∷ 0x5601 ∷ 0x5401 ∷ 0x5401 ∷ 0x5201 ∷ 0x5201
    ∷ 0x5101 ∷ 0x5101 ∷ 0x4B04 ∷ 0x8004 ∷ 0x5704 ∷ 0x8004 ∷ 0x5601 ∷ 0x5601 ∷ 0x5601 ∷ 0x5601
    ∷ 0x5601 ∷ 0x5601 ∷ 0x5601 ∷ 0x5601 ∷ 0x5601 ∷ 0x5601 ∷ 0x5601 ∷ 0x5601 ∷ 0x5601 ∷ 0x5601
    ∷ 0x5601 ∷ 0x5601 ∷ 0x5408 ∷ 0x8008 ∷ 0x5901 ∷ 0x5901 ∷ 0x5901 ∷ 0x5901 ∷ 0x5901 ∷ 0x5901
    ∷ 0x5901 ∷ 0x5901 ∷ 0x5901 ∷ 0x5901 ∷ 0x5701 ∷ 0x5701 ∷ 0x5601 ∷ 0x5601 ∷ 0x5401 ∷ 0x5401
    ∷ 0x5204 ∷ 0x8004 ∷ 0x5B04 ∷ 0x8004 ∷ 0x5704 ∷ 0x8004 ∷ 0x5404 ∷ 0x8004 ∷ 0x5908 ∷ 0x8004
    ∷ 0x5704 ∷ 0x6104 ∷ 0x6204 ∷ 0x8004 ∷ 0x5B04 ∷ 0x5B01 ∷ 0x5B01 ∷ 0x5B01 ∷ 0x5B01 ∷ 0x5904
    ∷ 0x8004 ∷ 0x5104 ∷ 0x5208 ∷ 0x8004 ∷ 0x5904 ∷ 0x6201 ∷ 0x6201 ∷ 0x6201 ∷ 0x6201 ∷ 0x6101
    ∷ 0x6101 ∷ 0x6101 ∷ 0x6101 ∷ 0x5B01 ∷ 0x5B01 ∷ 0x5B01 ∷ 0x5B01 ∷ 0x5904 ∷ 0x5B01 ∷ 0x5B01
    ∷ 0x5B01 ∷ 0x5B01 ∷ 0x5904 ∷ 0x8004 ∷ 0x5904 ∷ 0x5904 ∷ 0x5904 ∷ 0x5904 ∷ 0x5904 ∷ 0x5B01
    ∷ 0x5B01 ∷ 0x5B01 ∷ 0x5B01 ∷ 0x5904 ∷ 0x8004 ∷ 0x5904 ∷ 0x6204 ∷ 0x6104 ∷ 0x5B04 ∷ 0x5904
    ∷ 0x5B01 ∷ 0x5B01 ∷ 0x5B01 ∷ 0x5B01 ∷ 0x5904 ∷ 0x8004 ∷ 0x5904 ∷ 0x5904 ∷ 0x5904 ∷ 0x5904
    ∷ 0x5904 ∷ 0x5B01 ∷ 0x5B01 ∷ 0x5B01 ∷ 0x5B01 ∷ 0x5904 ∷ 0x8008 ∷ 0x5B0A ∷ 0x5901 ∷ 0x5901
    ∷ 0x5701 ∷ 0x5701 ∷ 0x5601 ∷ 0x5601 ∷ 0x5708 ∷ 0x8008 ∷ 0x590A ∷ 0x5701 ∷ 0x5701 ∷ 0x5601
    ∷ 0x5601 ∷ 0x5401 ∷ 0x5401 ∷ 0x5608 ∷ 0x8008 ∷ 0x5B01 ∷ 0x5B01 ∷ 0x5B01 ∷ 0x5B01 ∷ 0x6101
    ∷ 0x6101 ∷ 0x6201 ∷ 0x6201 ∷ 0x6104 ∷ 0x5B04 ∷ 0x5B01 ∷ 0x5B01 ∷ 0x5B01 ∷ 0x5B01 ∷ 0x5904
    ∷ 0x5604 ∷ 0x5904 ∷ 0x5901 ∷ 0x5901 ∷ 0x5901 ∷ 0x5901 ∷ 0x5704 ∷ 0x5604 ∷ 0x5404 ∷ 0x5208
    ∷ 0x8004 ∷ 0x5904 ∷ 0x6201 ∷ 0x6201 ∷ 0x6201 ∷ 0x6201 ∷ 0x6101 ∷ 0x6101 ∷ 0x6101 ∷ 0x6101
    ∷ 0x5B01 ∷ 0x5B01 ∷ 0x5B01 ∷ 0x5B01 ∷ 0x5904 ∷ 0x5B01 ∷ 0x5B01 ∷ 0x5B01 ∷ 0x5B01 ∷ 0x5904
    ∷ 0x8004 ∷ 0x5904 ∷ 0x5904 ∷ 0x5904 ∷ 0x5904 ∷ 0x5904 ∷ 0x5B01 ∷ 0x5B01 ∷ 0x5B01 ∷ 0x5B01
    ∷ 0x5904 ∷ 0x8004 ∷ 0x5904 ∷ 0x6201 ∷ 0x6201 ∷ 0x6201 ∷ 0x6201 ∷ 0x6101 ∷ 0x6101 ∷ 0x6101
    ∷ 0x6101 ∷ 0x5B01 ∷ 0x5B01 ∷ 0x5B01 ∷ 0x5B01 ∷ 0x5904 ∷ 0x5B01 ∷ 0x5B01 ∷ 0x5B01 ∷ 0x5B01
    ∷ 0x5904 ∷ 0x8004 ∷ 0x5904 ∷ 0x5904 ∷ 0x5904 ∷ 0x5904 ∷ 0x5904 ∷ 0x5B01 ∷ 0x5B01 ∷ 0x5B01
    ∷ 0x5B01 ∷ 0x5904 ∷ 0x8008 ∷ 0x5B0A ∷ 0x5901 ∷ 0x5901 ∷ 0x5701 ∷ 0x5701 ∷ 0x5601 ∷ 0x5601
    ∷ 0x5708 ∷ 0x8008 ∷ 0x590A ∷ 0x5701 ∷ 0x5701 ∷ 0x5601 ∷ 0x5601 ∷ 0x5401 ∷ 0x5401 ∷ 0x5608
    ∷ 0x8008 ∷ 0x5B01 ∷ 0x5B01 ∷ 0x5B01 ∷ 0x5B01 ∷ 0x6101 ∷ 0x6101 ∷ 0x6201 ∷ 0x6201 ∷ []

abbrev pub voice1_part_two : List ℕ
voice1_part_two =
    0x6104 ∷ 0x5B04 ∷ 0x5B01 ∷ 0x5B01 ∷ 0x5B01 ∷ 0x5B01 ∷ 0x5904 ∷ 0x5604 ∷ 0x5904 ∷ 0x5901 ∷ 0x5901
    ∷ 0x5901 ∷ 0x5901 ∷ 0x5704 ∷ 0x5604 ∷ 0x5404 ∷ 0x5204 ∷ 0x4904 ∷ 0x4B04 ∷ 0x5104 ∷ 0x5204
    ∷ 0x5204 ∷ 0x5401 ∷ 0x5401 ∷ 0x5401 ∷ 0x5401 ∷ 0x5201 ∷ 0x5201 ∷ 0x5401 ∷ 0x5401 ∷ 0x5604
    ∷ 0x5104 ∷ 0x5204 ∷ 0x5404 ∷ 0x5604 ∷ 0x5604 ∷ 0x5701 ∷ 0x5701 ∷ 0x5701 ∷ 0x5701 ∷ 0x5601
    ∷ 0x5601 ∷ 0x5701 ∷ 0x5701 ∷ 0x5904 ∷ 0x5904 ∷ 0x5A04 ∷ 0x5802 ∷ 0x5A02 ∷ 0x5B08 ∷ 0x8008
    ∷ 0x4B01 ∷ 0x4B01 ∷ 0x4B01 ∷ 0x4B01 ∷ 0x4B01 ∷ 0x4B01 ∷ 0x4B01 ∷ 0x4B01 ∷ 0x4B01 ∷ 0x4B01
    ∷ 0x4B01 ∷ 0x4B01 ∷ 0x5404 ∷ 0x5201 ∷ 0x5201 ∷ 0x5201 ∷ 0x5201 ∷ 0x5101 ∷ 0x5101 ∷ 0x5101
    ∷ 0x5101 ∷ 0x5B01 ∷ 0x5B01 ∷ 0x5B01 ∷ 0x5B01 ∷ 0x5901 ∷ 0x5901 ∷ 0x5901 ∷ 0x5901 ∷ 0x6204
    ∷ 0x8004 ∷ 0x6604 ∷ 0x8004 ∷ 0x6204 ∷ 0x800C ∷ 0x5708 ∷ 0x8004 ∷ 0x5204 ∷ 0x5708 ∷ 0x8004
    ∷ 0x5204 ∷ 0x5704 ∷ 0x5204 ∷ 0x5704 ∷ 0x5B04 ∷ 0x6208 ∷ 0x8008 ∷ 0x6008 ∷ 0x8004 ∷ 0x5904
    ∷ 0x6008 ∷ 0x8004 ∷ 0x5904 ∷ 0x6004 ∷ 0x5904 ∷ 0x5604 ∷ 0x5904 ∷ 0x5208 ∷ 0x8008 ∷ 0x5704
    ∷ 0x8004 ∷ 0x570C ∷ 0x5B01 ∷ 0x5B01 ∷ 0x5B01 ∷ 0x5B01 ∷ 0x5904 ∷ 0x5704 ∷ 0x5704 ∷ 0x5604
    ∷ 0x560C ∷ 0x5901 ∷ 0x5901 ∷ 0x5901 ∷ 0x5901 ∷ 0x6004 ∷ 0x5604 ∷ 0x5901 ∷ 0x5901 ∷ 0x5901
    ∷ 0x5901 ∷ 0x5704 ∷ 0x570C ∷ 0x5B01 ∷ 0x5B01 ∷ 0x5B01 ∷ 0x5B01 ∷ 0x5904 ∷ 0x5704 ∷ 0x5701
    ∷ 0x5701 ∷ 0x5701 ∷ 0x5701 ∷ 0x5604 ∷ 0x560C ∷ 0x5901 ∷ 0x5901 ∷ 0x5901 ∷ 0x5901 ∷ 0x6004
    ∷ 0x5604 ∷ 0x5704 ∷ 0x5704 ∷ 0x5601 ∷ 0x5601 ∷ 0x5601 ∷ 0x5601 ∷ 0x5401 ∷ 0x5401 ∷ 0x5602
    ∷ 0x5704 ∷ 0x5704 ∷ 0x5901 ∷ 0x5901 ∷ 0x5901 ∷ 0x5901 ∷ 0x5701 ∷ 0x5701 ∷ 0x5902 ∷ 0x5B04
    ∷ 0x5B04 ∷ 0x6001 ∷ 0x6001 ∷ 0x6001 ∷ 0x6001 ∷ 0x5B01 ∷ 0x5B01 ∷ 0x6001 ∷ 0x6001 ∷ 0x6208
    ∷ 0x8008 ∷ 0x5201 ∷ 0x5201 ∷ 0x5201 ∷ 0x5201 ∷ 0x5201 ∷ 0x5201 ∷ 0x5201 ∷ 0x5201 ∷ 0x5201
    ∷ 0x5201 ∷ 0x5201 ∷ 0x5201 ∷ 0x5201 ∷ 0x5201 ∷ 0x5201 ∷ 0x5201 ∷ 0x5410 ∷ 0x5008 ∷ 0x5008
    ∷ 0x4B08 ∷ 0x4B08 ∷ 0x4908 ∷ 0x4908 ∷ 0x4701 ∷ 0x4701 ∷ 0x4701 ∷ 0x4701 ∷ 0x4604 ∷ 0x4404
    ∷ 0x4604 ∷ 0x4704 ∷ 0x8004 ∷ 0x4904 ∷ 0x8004 ∷ 0x4B04 ∷ 0x800C ∷ 0x5201 ∷ 0x5201 ∷ 0x5201
    ∷ 0x5201 ∷ 0x5201 ∷ 0x5201 ∷ 0x5201 ∷ 0x5201 ∷ 0x5201 ∷ 0x5201 ∷ 0x5201 ∷ 0x5201 ∷ 0x5201
    ∷ 0x5201 ∷ 0x5201 ∷ 0x5201 ∷ 0x5410 ∷ 0x5201 ∷ 0x5201 ∷ 0x5201 ∷ 0x5201 ∷ 0x5004 ∷ 0x5004
    ∷ 0x5004 ∷ 0x5001 ∷ 0x5001 ∷ 0x5001 ∷ 0x5001 ∷ 0x4B04 ∷ 0x4B04 ∷ 0x4B04 ∷ 0x4B01 ∷ 0x4B01
    ∷ 0x4B01 ∷ 0x4B01 ∷ 0x4904 ∷ 0x4904 ∷ 0x4904 ∷ 0x4701 ∷ 0x4701 ∷ 0x4701 ∷ 0x4701 ∷ 0x4601
    ∷ 0x4601 ∷ 0x4601 ∷ 0x4601 ∷ 0x4401 ∷ 0x4401 ∷ 0x4401 ∷ 0x4401 ∷ 0x4604 ∷ 0x4701 ∷ 0x4701
    ∷ 0x4701 ∷ 0x4701 ∷ 0x4701 ∷ 0x4701 ∷ 0x4701 ∷ 0x4701 ∷ 0x4701 ∷ 0x4701 ∷ 0x4701 ∷ 0x4701
    ∷ 0x4701 ∷ 0x4701 ∷ 0x4701 ∷ 0x4701 ∷ 0x4704 ∷ 0x4701 ∷ 0x4701 ∷ 0x4601 ∷ 0x4701 ∷ 0x4901
    ∷ 0x4901 ∷ 0x4901 ∷ 0x4901 ∷ 0x4604 ∷ 0x4B01 ∷ 0x4B01 ∷ 0x4B01 ∷ 0x4B01 ∷ 0x4B01 ∷ 0x4B01
    ∷ 0x4B01 ∷ 0x4B01 ∷ 0x4B01 ∷ 0x4B01 ∷ 0x4B01 ∷ 0x4B01 ∷ 0x4B01 ∷ 0x4B01 ∷ 0x4B01 ∷ 0x4B01
    ∷ 0x4B04 ∷ 0x4B01 ∷ 0x4B01 ∷ 0x4901 ∷ 0x4B01 ∷ 0x5001 ∷ 0x5001 ∷ 0x5001 ∷ 0x5001 ∷ 0x4904
    ∷ 0x5210 ∷ 0x5408 ∷ 0x5608 ∷ 0x5708 ∷ 0x5908 ∷ 0x5B08 ∷ 0x6108 ∷ 0x6201 ∷ 0x6201 ∷ 0x6201
    ∷ 0x6201 ∷ 0x6201 ∷ 0x6201 ∷ 0x6201 ∷ 0x6201 ∷ 0x6201 ∷ 0x6201 ∷ 0x6201 ∷ 0x6201 ∷ 0x5904
    ∷ 0x6101 ∷ 0x6101 ∷ 0x6101 ∷ 0x6101 ∷ 0x6101 ∷ 0x6101 ∷ 0x5902 ∷ 0x6101 ∷ 0x6101 ∷ 0x6101
    ∷ 0x6101 ∷ 0x6101 ∷ 0x6101 ∷ 0x5902 ∷ 0x6201 ∷ 0x6201 ∷ 0x6201 ∷ 0x6201 ∷ 0x6201 ∷ 0x6201
    ∷ 0x6201 ∷ 0x6201 ∷ 0x6201 ∷ 0x6201 ∷ 0x6201 ∷ 0x6201 ∷ 0x5904 ∷ 0x6101 ∷ 0x6101 ∷ 0x6101
    ∷ 0x6101 ∷ 0x6101 ∷ 0x6101 ∷ 0x5902 ∷ 0x6101 ∷ 0x6101 ∷ 0x6101 ∷ 0x6101 ∷ 0x6101 ∷ 0x6101
    ∷ 0x5902 ∷ 0x6204 ∷ 0x6208 ∷ 0x6208 ∷ 0x6208 ∷ 0x6201 ∷ 0x6201 ∷ 0x6201 ∷ 0x6201 ∷ 0x6204
    ∷ 0x6208 ∷ 0x6208 ∷ 0x6208 ∷ 0x6204 ∷ 0x6104 ∷ 0x5904 ∷ 0x6204 ∷ 0x5904 ∷ 0x6004 ∷ 0x5904
    ∷ 0x6204 ∷ 0x5904 ∷ 0x6104 ∷ 0x4904 ∷ 0x4904 ∷ 0x4904 ∷ 0x4908 ∷ 0x8008 ∷ 0x590A ∷ 0x5702
    ∷ 0x5602 ∷ 0x5402 ∷ 0x5204 ∷ 0x8004 ∷ 0x5B04 ∷ 0x8004 ∷ 0x5704 ∷ 0x8004 ∷ 0x5404 ∷ 0x8004
    ∷ 0x5B04 ∷ 0x800C ∷ 0x5601 ∷ 0x5601 ∷ 0x5601 ∷ 0x5601 ∷ 0x5601 ∷ 0x5601 ∷ 0x5601 ∷ 0x5601
    ∷ 0x5601 ∷ 0x5601 ∷ 0x5401 ∷ 0x5401 ∷ 0x5201 ∷ 0x5201 ∷ 0x5101 ∷ 0x5101 ∷ 0x4B04 ∷ 0x8004
    ∷ 0x5704 ∷ 0x8004 ∷ 0x5601 ∷ 0x5601 ∷ 0x5601 ∷ 0x5601 ∷ 0x5601 ∷ 0x5601 ∷ 0x5601 ∷ 0x5601
    ∷ 0x5601 ∷ 0x5601 ∷ 0x5601 ∷ 0x5601 ∷ 0x5601 ∷ 0x5601 ∷ 0x5601 ∷ 0x5601 ∷ 0x5408 ∷ 0x8008
    ∷ 0x5901 ∷ 0x5901 ∷ 0x5901 ∷ 0x5901 ∷ 0x5901 ∷ 0x5901 ∷ 0x5901 ∷ 0x5901 ∷ 0x5901 ∷ 0x5901
    ∷ 0x5701 ∷ 0x5701 ∷ 0x5601 ∷ 0x5601 ∷ 0x5401 ∷ 0x5401 ∷ 0x5204 ∷ 0x8004 ∷ 0x5B04 ∷ 0x8004
    ∷ 0x5704 ∷ 0x8004 ∷ 0x5404 ∷ 0x8004 ∷ 0x5908 ∷ 0x8004 ∷ 0x5704 ∷ 0x6104 ∷ 0x6204 ∷ 0x8004
    ∷ 0x5B04 ∷ 0x5B01 ∷ 0x5B01 ∷ 0x5B01 ∷ 0x5B01 ∷ 0x5904 ∷ 0x8004 ∷ 0x5104 ∷ 0x5208 ∷ 0x8004
    ∷ 0x5904 ∷ 0x6201 ∷ 0x6201 ∷ 0x6201 ∷ 0x6201 ∷ 0x6101 ∷ 0x6101 ∷ 0x6101 ∷ 0x6101 ∷ 0x5B01
    ∷ 0x5B01 ∷ 0x5B01 ∷ 0x5B01 ∷ 0x5904 ∷ 0x5B01 ∷ 0x5B01 ∷ 0x5B01 ∷ 0x5B01 ∷ 0x5904 ∷ 0x8004
    ∷ 0x5904 ∷ 0x5904 ∷ 0x5904 ∷ 0x5904 ∷ 0x5904 ∷ 0x5B01 ∷ 0x5B01 ∷ 0x5B01 ∷ 0x5B01 ∷ 0x5904
    ∷ 0x8004 ∷ 0x5904 ∷ 0x6204 ∷ 0x6104 ∷ 0x5B04 ∷ 0x5904 ∷ 0x5B01 ∷ 0x5B01 ∷ 0x5B01 ∷ 0x5B01
    ∷ 0x5904 ∷ 0x8004 ∷ 0x5904 ∷ 0x5904 ∷ 0x5904 ∷ 0x5904 ∷ 0x5904 ∷ 0x5B01 ∷ 0x5B01 ∷ 0x5B01
    ∷ 0x5B01 ∷ 0x5904 ∷ 0x8008 ∷ 0x5B0A ∷ 0x5901 ∷ 0x5901 ∷ 0x5701 ∷ 0x5701 ∷ 0x5601 ∷ 0x5601
    ∷ 0x5708 ∷ 0x8008 ∷ 0x590A ∷ 0x5701 ∷ 0x5701 ∷ 0x5601 ∷ 0x5601 ∷ 0x5401 ∷ 0x5401 ∷ 0x5608
    ∷ 0x8008 ∷ 0x5B01 ∷ 0x5B01 ∷ 0x5B01 ∷ 0x5B01 ∷ 0x6101 ∷ 0x6101 ∷ 0x6201 ∷ 0x6201 ∷ 0x6104
    ∷ 0x5B04 ∷ 0x5B01 ∷ 0x5B01 ∷ 0x5B01 ∷ 0x5B01 ∷ 0x5904 ∷ 0x5604 ∷ 0x5904 ∷ 0x5901 ∷ 0x5901
    ∷ 0x5901 ∷ 0x5901 ∷ 0x5704 ∷ 0x5604 ∷ 0x5404 ∷ 0x5208 ∷ 0x8004 ∷ 0x5904 ∷ 0x6201 ∷ []

abbrev pub voice1_part_three : List ℕ
voice1_part_three =
    0x6201 ∷ 0x6201 ∷ 0x6201 ∷ 0x6101 ∷ 0x6101 ∷ 0x6101 ∷ 0x6101 ∷ 0x5B01 ∷ 0x5B01 ∷ 0x5B01 ∷ 0x5B01
    ∷ 0x5904 ∷ 0x5B01 ∷ 0x5B01 ∷ 0x5B01 ∷ 0x5B01 ∷ 0x5904 ∷ 0x8004 ∷ 0x5904 ∷ 0x5904 ∷ 0x5904
    ∷ 0x5904 ∷ 0x5904 ∷ 0x5B01 ∷ 0x5B01 ∷ 0x5B01 ∷ 0x5B01 ∷ 0x5904 ∷ 0x8004 ∷ 0x5904 ∷ 0x6201
    ∷ 0x6201 ∷ 0x6201 ∷ 0x6201 ∷ 0x6101 ∷ 0x6101 ∷ 0x6101 ∷ 0x6101 ∷ 0x5B01 ∷ 0x5B01 ∷ 0x5B01
    ∷ 0x5B01 ∷ 0x5904 ∷ 0x5B01 ∷ 0x5B01 ∷ 0x5B01 ∷ 0x5B01 ∷ 0x5904 ∷ 0x8004 ∷ 0x5904 ∷ 0x5904
    ∷ 0x5904 ∷ 0x5904 ∷ 0x5904 ∷ 0x5B01 ∷ 0x5B01 ∷ 0x5B01 ∷ 0x5B01 ∷ 0x5904 ∷ 0x8008 ∷ 0x5B0A
    ∷ 0x5901 ∷ 0x5901 ∷ 0x5701 ∷ 0x5701 ∷ 0x5601 ∷ 0x5601 ∷ 0x5708 ∷ 0x8008 ∷ 0x590A ∷ 0x5701
    ∷ 0x5701 ∷ 0x5601 ∷ 0x5601 ∷ 0x5401 ∷ 0x5401 ∷ 0x5608 ∷ 0x8008 ∷ 0x5B01 ∷ 0x5B01 ∷ 0x5B01
    ∷ 0x5B01 ∷ 0x6101 ∷ 0x6101 ∷ 0x6201 ∷ 0x6201 ∷ 0x6104 ∷ 0x5B04 ∷ 0x5B01 ∷ 0x5B01 ∷ 0x5B01
    ∷ 0x5B01 ∷ 0x5904 ∷ 0x5604 ∷ 0x5904 ∷ 0x5901 ∷ 0x5901 ∷ 0x5901 ∷ 0x5901 ∷ 0x5704 ∷ 0x5604
    ∷ 0x5404 ∷ 0x5204 ∷ 0x4904 ∷ 0x4B04 ∷ 0x5104 ∷ 0x5204 ∷ 0x5204 ∷ 0x5401 ∷ 0x5401 ∷ 0x5401
    ∷ 0x5401 ∷ 0x5201 ∷ 0x5201 ∷ 0x5401 ∷ 0x5401 ∷ 0x5604 ∷ 0x5104 ∷ 0x5204 ∷ 0x5404 ∷ 0x5604
    ∷ 0x5604 ∷ 0x5701 ∷ 0x5701 ∷ 0x5701 ∷ 0x5701 ∷ 0x5601 ∷ 0x5601 ∷ 0x5701 ∷ 0x5701 ∷ 0x5904
    ∷ 0x5904 ∷ 0x5A04 ∷ 0x5802 ∷ 0x5A02 ∷ 0x5B08 ∷ 0x8008 ∷ 0x4B01 ∷ 0x4B01 ∷ 0x4B01 ∷ 0x4B01
    ∷ 0x4B01 ∷ 0x4B01 ∷ 0x4B01 ∷ 0x4B01 ∷ 0x4B01 ∷ 0x4B01 ∷ 0x4B01 ∷ 0x4B01 ∷ 0x5404 ∷ 0x5201
    ∷ 0x5201 ∷ 0x5201 ∷ 0x5201 ∷ 0x5101 ∷ 0x5101 ∷ 0x5101 ∷ 0x5101 ∷ 0x5B01 ∷ 0x5B01 ∷ 0x5B01
    ∷ 0x5B01 ∷ 0x5901 ∷ 0x5901 ∷ 0x5901 ∷ 0x5901 ∷ 0x6204 ∷ 0x8004 ∷ 0x6604 ∷ 0x8004 ∷ 0x6204
    ∷ 0x800C ∷ 0x5208 ∷ 0x8004 ∷ 0x4904 ∷ 0x5208 ∷ 0x8004 ∷ 0x4904 ∷ 0x5204 ∷ 0x4904 ∷ 0x5204
    ∷ 0x5604 ∷ 0x5908 ∷ 0x8008 ∷ 0x5908 ∷ 0x8004 ∷ 0x5604 ∷ 0x5908 ∷ 0x8004 ∷ 0x5604 ∷ 0x5904
    ∷ 0x5604 ∷ 0x5304 ∷ 0x5604 ∷ 0x4B08 ∷ 0x8014 ∷ 0x5704 ∷ 0x6001 ∷ 0x6001 ∷ 0x6001 ∷ 0x6001
    ∷ 0x5B01 ∷ 0x5B01 ∷ 0x5B01 ∷ 0x5B01 ∷ 0x5901 ∷ 0x5901 ∷ 0x5901 ∷ 0x5901 ∷ 0x5704 ∷ 0x5901
    ∷ 0x5901 ∷ 0x5901 ∷ 0x5901 ∷ 0x5704 ∷ 0x8004 ∷ 0x5704 ∷ 0x5704 ∷ 0x5704 ∷ 0x5704 ∷ 0x5704
    ∷ 0x5901 ∷ 0x5901 ∷ 0x5901 ∷ 0x5901 ∷ 0x5704 ∷ 0x8004 ∷ 0x5704 ∷ 0x6001 ∷ 0x6001 ∷ 0x6001
    ∷ 0x6001 ∷ 0x5B01 ∷ 0x5B01 ∷ 0x5B01 ∷ 0x5B01 ∷ 0x5901 ∷ 0x5901 ∷ 0x5901 ∷ 0x5901 ∷ 0x5704
    ∷ 0x5901 ∷ 0x5901 ∷ 0x5901 ∷ 0x5901 ∷ 0x5704 ∷ 0x8004 ∷ 0x5704 ∷ 0x5704 ∷ 0x5704 ∷ 0x5704
    ∷ 0x5704 ∷ 0x5901 ∷ 0x5901 ∷ 0x5901 ∷ 0x5901 ∷ 0x5704 ∷ 0x8004 ∷ 0x5704 ∷ 0x6001 ∷ 0x6001
    ∷ 0x6001 ∷ 0x6001 ∷ 0x5B01 ∷ 0x5B01 ∷ 0x5B01 ∷ 0x5B01 ∷ 0x5901 ∷ 0x5901 ∷ 0x5901 ∷ 0x5901
    ∷ 0x5704 ∷ 0x5901 ∷ 0x5901 ∷ 0x5901 ∷ 0x5901 ∷ 0x5804 ∷ 0x8004 ∷ 0x5804 ∷ 0x5804 ∷ 0x5804
    ∷ 0x5804 ∷ 0x5804 ∷ 0x5B01 ∷ 0x5B01 ∷ 0x5B01 ∷ 0x5B01 ∷ 0x5904 ∷ 0x8004 ∷ 0x5904 ∷ 0x6001
    ∷ 0x6001 ∷ 0x6001 ∷ 0x6001 ∷ 0x5A01 ∷ 0x5A01 ∷ 0x5A01 ∷ 0x5A01 ∷ 0x5901 ∷ 0x5901 ∷ 0x5901
    ∷ 0x5901 ∷ 0x5704 ∷ 0x5701 ∷ 0x5701 ∷ 0x5701 ∷ 0x5701 ∷ 0x5604 ∷ 0x8004 ∷ 0x5604 ∷ 0x5604
    ∷ 0x5604 ∷ 0x5604 ∷ 0x5604 ∷ 0x5901 ∷ 0x5901 ∷ 0x5901 ∷ 0x5901 ∷ 0x5704 ∷ 0x8004 ∷ 0x5304
    ∷ 0x5704 ∷ 0x5504 ∷ 0x5304 ∷ 0x5204 ∷ 0x5201 ∷ 0x5201 ∷ 0x5201 ∷ 0x5201 ∷ 0x5104 ∷ 0x8004
    ∷ 0x5104 ∷ 0x5104 ∷ 0x5104 ∷ 0x5104 ∷ 0x5104 ∷ 0x5401 ∷ 0x5401 ∷ 0x5401 ∷ 0x5401 ∷ 0x5204
    ∷ 0x8004 ∷ 0x4201 ∷ 0x4201 ∷ 0x4201 ∷ 0x4201 ∷ 0x4401 ∷ 0x4401 ∷ 0x4401 ∷ 0x4401 ∷ 0x4601
    ∷ 0x4601 ∷ 0x4601 ∷ 0x4601 ∷ 0x4701 ∷ 0x4701 ∷ 0x4701 ∷ 0x4701 ∷ 0x4901 ∷ 0x4901 ∷ 0x4901
    ∷ 0x4901 ∷ 0x5001 ∷ 0x5001 ∷ 0x5001 ∷ 0x5001 ∷ 0x4A04 ∷ 0x8004 ∷ 0x4601 ∷ 0x4601 ∷ 0x4601
    ∷ 0x4601 ∷ 0x4701 ∷ 0x4701 ∷ 0x4701 ∷ 0x4701 ∷ 0x4901 ∷ 0x4901 ∷ 0x4901 ∷ 0x4901 ∷ 0x4A01
    ∷ 0x4A01 ∷ 0x4A01 ∷ 0x4A01 ∷ 0x5101 ∷ 0x5101 ∷ 0x5101 ∷ 0x5101 ∷ 0x5401 ∷ 0x5401 ∷ 0x5401
    ∷ 0x5401 ∷ 0x5204 ∷ 0x8004 ∷ 0x5201 ∷ 0x5201 ∷ 0x5201 ∷ 0x5201 ∷ 0x5401 ∷ 0x5401 ∷ 0x5401
    ∷ 0x5401 ∷ 0x5601 ∷ 0x5601 ∷ 0x5601 ∷ 0x5601 ∷ 0x5701 ∷ 0x5701 ∷ 0x5701 ∷ 0x5701 ∷ 0x5901
    ∷ 0x5901 ∷ 0x5901 ∷ 0x5901 ∷ 0x5A01 ∷ 0x5A01 ∷ 0x5A01 ∷ 0x5A01 ∷ 0x5A01 ∷ 0x5A01 ∷ 0x5A01
    ∷ 0x5A01 ∷ 0x5B01 ∷ 0x5B01 ∷ 0x5B01 ∷ 0x5B01 ∷ 0x5B01 ∷ 0x5B01 ∷ 0x5B01 ∷ 0x5B01 ∷ 0x6001
    ∷ 0x6001 ∷ 0x6001 ∷ 0x6001 ∷ 0x6001 ∷ 0x6001 ∷ 0x6001 ∷ 0x6001 ∷ 0x6108 ∷ 0x6201 ∷ 0x6201
    ∷ 0x6201 ∷ 0x6201 ∷ 0x6201 ∷ 0x6201 ∷ 0x6201 ∷ 0x6201 ∷ 0x6201 ∷ 0x6201 ∷ 0x6201 ∷ 0x6201
    ∷ 0x6201 ∷ 0x6201 ∷ 0x6201 ∷ 0x6201 ∷ 0x6201 ∷ 0x6201 ∷ 0x6201 ∷ 0x6201 ∷ 0x6201 ∷ 0x6201
    ∷ 0x6201 ∷ 0x6201 ∷ 0x6201 ∷ 0x6201 ∷ 0x6201 ∷ 0x6201 ∷ 0x6201 ∷ 0x6201 ∷ 0x6201 ∷ 0x6201
    ∷ 0x6210 ∷ 0x5601 ∷ 0x5601 ∷ 0x5601 ∷ 0x5601 ∷ 0x5601 ∷ 0x5601 ∷ 0x5601 ∷ 0x5601 ∷ 0x5601
    ∷ 0x5601 ∷ 0x5601 ∷ 0x5601 ∷ 0x5401 ∷ 0x5401 ∷ 0x5602 ∷ 0x5708 ∷ 0x8004 ∷ 0x5204 ∷ 0x5708
    ∷ 0x8004 ∷ 0x5204 ∷ 0x5704 ∷ 0x5204 ∷ 0x5704 ∷ 0x5B04 ∷ 0x6208 ∷ 0x8008 ∷ 0x6008 ∷ 0x8004
    ∷ 0x5904 ∷ 0x6008 ∷ 0x8004 ∷ 0x5904 ∷ 0x6004 ∷ 0x5904 ∷ 0x5604 ∷ 0x5904 ∷ 0x5208 ∷ 0x8008
    ∷ 0x5704 ∷ 0x8004 ∷ 0x570C ∷ 0x5B01 ∷ 0x5B01 ∷ 0x5B01 ∷ 0x5B01 ∷ 0x5904 ∷ 0x5704 ∷ 0x5701
    ∷ 0x5701 ∷ 0x5701 ∷ 0x5701 ∷ 0x5604 ∷ 0x560C ∷ 0x5901 ∷ 0x5901 ∷ 0x5901 ∷ 0x5901 ∷ 0x6004
    ∷ 0x5604 ∷ 0x5901 ∷ 0x5901 ∷ 0x5901 ∷ 0x5901 ∷ 0x5704 ∷ 0x570C ∷ 0x5B01 ∷ 0x5B01 ∷ 0x5B01
    ∷ 0x5B01 ∷ 0x5904 ∷ 0x5704 ∷ 0x5701 ∷ 0x5701 ∷ 0x5701 ∷ 0x5701 ∷ 0x5604 ∷ 0x560C ∷ 0x5901
    ∷ 0x5901 ∷ 0x5901 ∷ 0x5901 ∷ 0x6004 ∷ 0x5604 ∷ 0x5704 ∷ 0x5704 ∷ 0x5601 ∷ 0x5601 ∷ 0x5601
    ∷ 0x5601 ∷ 0x5401 ∷ 0x5401 ∷ 0x5602 ∷ 0x5704 ∷ 0x5704 ∷ 0x5901 ∷ 0x5901 ∷ 0x5901 ∷ 0x5901
    ∷ 0x5701 ∷ 0x5701 ∷ 0x5902 ∷ 0x5B04 ∷ 0x5B04 ∷ 0x6001 ∷ 0x6001 ∷ 0x6001 ∷ 0x6001 ∷ 0x5B01
    ∷ 0x5B01 ∷ 0x6001 ∷ 0x6001 ∷ 0x6208 ∷ 0x8008 ∷ 0x5201 ∷ 0x5201 ∷ 0x5201 ∷ 0x5201 ∷ 0x5201
    ∷ 0x5201 ∷ 0x5201 ∷ 0x5201 ∷ 0x5201 ∷ 0x5201 ∷ 0x5201 ∷ 0x5201 ∷ 0x5201 ∷ 0x5201 ∷ []
