-- ===== src/Music/Score/ClosingOne.antt =====
-- nachtm.c, lines 226 to 397: notes of Voice1, in the order of the source.
use builds.Base.{ℕ, List, [], ◌∷◌}

abbrev pub voice1_part_four : List ℕ
voice1_part_four =
    0x5201 ∷ 0x5201 ∷ 0x5410 ∷ 0x5008 ∷ 0x5008 ∷ 0x4B08 ∷ 0x4B08 ∷ 0x4908 ∷ 0x4908 ∷ 0x4701 ∷ 0x4701
    ∷ 0x4701 ∷ 0x4701 ∷ 0x4604 ∷ 0x4404 ∷ 0x4604 ∷ 0x4704 ∷ 0x8004 ∷ 0x4904 ∷ 0x8004 ∷ 0x4B04
    ∷ 0x800C ∷ 0x5201 ∷ 0x5201 ∷ 0x5201 ∷ 0x5201 ∷ 0x5201 ∷ 0x5201 ∷ 0x5201 ∷ 0x5201 ∷ 0x5201
    ∷ 0x5201 ∷ 0x5201 ∷ 0x5201 ∷ 0x5201 ∷ 0x5201 ∷ 0x5201 ∷ 0x5201 ∷ 0x5410 ∷ 0x5201 ∷ 0x5201
    ∷ 0x5201 ∷ 0x5201 ∷ 0x5004 ∷ 0x5004 ∷ 0x5004 ∷ 0x5001 ∷ 0x5001 ∷ 0x5001 ∷ 0x5001 ∷ 0x4B04
    ∷ 0x4B04 ∷ 0x4B04 ∷ 0x4B01 ∷ 0x4B01 ∷ 0x4B01 ∷ 0x4B01 ∷ 0x4904 ∷ 0x4904 ∷ 0x4904 ∷ 0x4701
    ∷ 0x4701 ∷ 0x4701 ∷ 0x4701 ∷ 0x4604 ∷ 0x4404 ∷ 0x4604 ∷ 0x4714 ∷ 0x4701 ∷ 0x4701 ∷ 0x4601
    ∷ 0x4701 ∷ 0x4901 ∷ 0x4901 ∷ 0x4901 ∷ 0x4901 ∷ 0x4604 ∷ 0x4B14 ∷ 0x4B01 ∷ 0x4B01 ∷ 0x4901
    ∷ 0x4B01 ∷ 0x5001 ∷ 0x5001 ∷ 0x5001 ∷ 0x5001 ∷ 0x4904 ∷ 0x5210 ∷ 0x5408 ∷ 0x5608 ∷ 0x5708
    ∷ 0x5908 ∷ 0x5B08 ∷ 0x5108 ∷ 0x6201 ∷ 0x6201 ∷ 0x6201 ∷ 0x6201 ∷ 0x6201 ∷ 0x6201 ∷ 0x6201
    ∷ 0x6201 ∷ 0x6201 ∷ 0x6201 ∷ 0x6201 ∷ 0x6201 ∷ 0x5904 ∷ 0x6101 ∷ 0x6101 ∷ 0x6101 ∷ 0x6101
    ∷ 0x6101 ∷ 0x6101 ∷ 0x5902 ∷ 0x5101 ∷ 0x5101 ∷ 0x5101 ∷ 0x5101 ∷ 0x5101 ∷ 0x5101 ∷ 0x5902
    ∷ 0x6201 ∷ 0x6201 ∷ 0x6201 ∷ 0x6201 ∷ 0x6201 ∷ 0x6201 ∷ 0x6201 ∷ 0x6201 ∷ 0x6201 ∷ 0x6201
    ∷ 0x6201 ∷ 0x6201 ∷ 0x5904 ∷ 0x6101 ∷ 0x6101 ∷ 0x6101 ∷ 0x6101 ∷ 0x6101 ∷ 0x6101 ∷ 0x5902
    ∷ 0x5101 ∷ 0x5101 ∷ 0x5101 ∷ 0x5101 ∷ 0x5101 ∷ 0x5101 ∷ 0x5902 ∷ 0x6204 ∷ 0x5904 ∷ 0x6104
    ∷ 0x5904 ∷ 0x6204 ∷ 0x5904 ∷ 0x6104 ∷ 0x5904 ∷ 0x6204 ∷ 0x4204 ∷ 0x4204 ∷ 0x4204 ∷ 0x4208
    ∷ 0x8008 ∷ 0x5201 ∷ 0x5201 ∷ 0x5201 ∷ 0x5201 ∷ 0x5201 ∷ 0x5201 ∷ 0x5201 ∷ 0x5201 ∷ 0x5201
    ∷ 0x5201 ∷ 0x5001 ∷ 0x5001 ∷ 0x4B01 ∷ 0x4B01 ∷ 0x4901 ∷ 0x4901 ∷ 0x4704 ∷ 0x8004 ∷ 0x5404
    ∷ 0x8004 ∷ 0x5004 ∷ 0x8004 ∷ 0x4904 ∷ 0x8004 ∷ 0x5204 ∷ 0x800C ∷ 0x5B01 ∷ 0x5B01 ∷ 0x5B01
    ∷ 0x5B01 ∷ 0x5B01 ∷ 0x5B01 ∷ 0x5B01 ∷ 0x5B01 ∷ 0x5B01 ∷ 0x5B01 ∷ 0x5901 ∷ 0x5901 ∷ 0x5701
    ∷ 0x5701 ∷ 0x5601 ∷ 0x5601 ∷ 0x5404 ∷ 0x8004 ∷ 0x6004 ∷ 0x8004 ∷ 0x5B01 ∷ 0x5B01 ∷ 0x5B01
    ∷ 0x5B01 ∷ 0x5B01 ∷ 0x5B01 ∷ 0x5B01 ∷ 0x5B01 ∷ 0x5B01 ∷ 0x5B01 ∷ 0x5B01 ∷ 0x5B01 ∷ 0x5B01
    ∷ 0x5B01 ∷ 0x5B01 ∷ 0x5B01 ∷ 0x5908 ∷ 0x8008 ∷ 0x8004 ∷ 0x6204 ∷ 0x6204 ∷ 0x6204 ∷ 0x6204
    ∷ 0x6204 ∷ 0x6204 ∷ 0x6204 ∷ 0x6204 ∷ 0x6204 ∷ 0x6204 ∷ 0x6204 ∷ 0x6201 ∷ 0x6201 ∷ 0x6201
    ∷ 0x6201 ∷ 0x6001 ∷ 0x6001 ∷ 0x6001 ∷ 0x6001 ∷ 0x5901 ∷ 0x5901 ∷ 0x5901 ∷ 0x5901 ∷ 0x5604
    ∷ 0x5601 ∷ 0x5601 ∷ 0x5601 ∷ 0x5601 ∷ 0x5704 ∷ 0x8004 ∷ 0x5404 ∷ 0x5401 ∷ 0x5401 ∷ 0x5401
    ∷ 0x5401 ∷ 0x5204 ∷ 0x8004 ∷ 0x4604 ∷ 0x4708 ∷ 0x8004 ∷ 0x5204 ∷ 0x5701 ∷ 0x5701 ∷ 0x5701
    ∷ 0x5701 ∷ 0x5601 ∷ 0x5601 ∷ 0x5601 ∷ 0x5601 ∷ 0x5401 ∷ 0x5401 ∷ 0x5401 ∷ 0x5401 ∷ 0x5204
    ∷ 0x5401 ∷ 0x5401 ∷ 0x5401 ∷ 0x5401 ∷ 0x5204 ∷ 0x8004 ∷ 0x5204 ∷ 0x5204 ∷ 0x5204 ∷ 0x5204
    ∷ 0x5204 ∷ 0x5401 ∷ 0x5401 ∷ 0x5401 ∷ 0x5401 ∷ 0x5204 ∷ 0x8004 ∷ 0x5204 ∷ 0x5704 ∷ 0x5604
    ∷ 0x5404 ∷ 0x5204 ∷ 0x5401 ∷ 0x5401 ∷ 0x5401 ∷ 0x5401 ∷ 0x5204 ∷ 0x8004 ∷ 0x5204 ∷ 0x5204
    ∷ 0x5204 ∷ 0x5204 ∷ 0x5204 ∷ 0x5401 ∷ 0x5401 ∷ 0x5401 ∷ 0x5401 ∷ 0x5204 ∷ 0x8008 ∷ 0x540A
    ∷ 0x5201 ∷ 0x5201 ∷ 0x5001 ∷ 0x5001 ∷ 0x4B01 ∷ 0x4B01 ∷ 0x5008 ∷ 0x8008 ∷ 0x520A ∷ 0x5001
    ∷ 0x5001 ∷ 0x4B01 ∷ 0x4B01 ∷ 0x4901 ∷ 0x4901 ∷ 0x4B08 ∷ 0x8008 ∷ 0x5401 ∷ 0x5401 ∷ 0x5401
    ∷ 0x5401 ∷ 0x5601 ∷ 0x5601 ∷ 0x5701 ∷ 0x5701 ∷ 0x5604 ∷ 0x5404 ∷ 0x5401 ∷ 0x5401 ∷ 0x5401
    ∷ 0x5401 ∷ 0x5204 ∷ 0x4B04 ∷ 0x5204 ∷ 0x5201 ∷ 0x5201 ∷ 0x5201 ∷ 0x5201 ∷ 0x5004 ∷ 0x4B04
    ∷ 0x4904 ∷ 0x4708 ∷ 0x8004 ∷ 0x5204 ∷ 0x5701 ∷ 0x5701 ∷ 0x5701 ∷ 0x5701 ∷ 0x5601 ∷ 0x5601
    ∷ 0x5601 ∷ 0x5601 ∷ 0x5401 ∷ 0x5401 ∷ 0x5401 ∷ 0x5401 ∷ 0x5204 ∷ 0x5401 ∷ 0x5401 ∷ 0x5401
    ∷ 0x5401 ∷ 0x5204 ∷ 0x8004 ∷ 0x5204 ∷ 0x5204 ∷ 0x5204 ∷ 0x5204 ∷ 0x5204 ∷ 0x5401 ∷ 0x5401
    ∷ 0x5401 ∷ 0x5401 ∷ 0x5204 ∷ 0x8004 ∷ 0x5204 ∷ 0x5701 ∷ 0x5701 ∷ 0x5701 ∷ 0x5701 ∷ 0x5601
    ∷ 0x5601 ∷ 0x5601 ∷ 0x5601 ∷ 0x5401 ∷ 0x5401 ∷ 0x5401 ∷ 0x5401 ∷ 0x5204 ∷ 0x5401 ∷ 0x5401
    ∷ 0x5401 ∷ 0x5401 ∷ 0x5204 ∷ 0x8004 ∷ 0x5204 ∷ 0x5204 ∷ 0x5204 ∷ 0x5204 ∷ 0x5204 ∷ 0x5401
    ∷ 0x5401 ∷ 0x5401 ∷ 0x5401 ∷ 0x5204 ∷ 0x8008 ∷ 0x640A ∷ 0x6201 ∷ 0x6201 ∷ 0x6001 ∷ 0x6001
    ∷ 0x5B01 ∷ 0x5B01 ∷ 0x6008 ∷ 0x8008 ∷ 0x620A ∷ 0x6001 ∷ 0x6001 ∷ 0x5B01 ∷ 0x5B01 ∷ 0x5901
    ∷ 0x5901 ∷ 0x5B08 ∷ 0x8008 ∷ 0x5401 ∷ 0x5401 ∷ 0x5401 ∷ 0x5401 ∷ 0x5601 ∷ 0x5601 ∷ 0x5701
    ∷ 0x5701 ∷ 0x5604 ∷ 0x5404 ∷ 0x5204 ∷ 0x5704 ∷ 0x5B04 ∷ 0x6204 ∷ 0x6201 ∷ 0x6201 ∷ 0x6201
    ∷ 0x6201 ∷ 0x6004 ∷ 0x5B04 ∷ 0x5904 ∷ 0x5704 ∷ 0x4204 ∷ 0x4404 ∷ 0x4604 ∷ 0x4704 ∷ 0x4704
    ∷ 0x4901 ∷ 0x4901 ∷ 0x4901 ∷ 0x4901 ∷ 0x4701 ∷ 0x4701 ∷ 0x4901 ∷ 0x4901 ∷ 0x4B04 ∷ 0x4604
    ∷ 0x4704 ∷ 0x4904 ∷ 0x4B04 ∷ 0x4B04 ∷ 0x5001 ∷ 0x5001 ∷ 0x5001 ∷ 0x5001 ∷ 0x4B01 ∷ 0x4B01
    ∷ 0x5001 ∷ 0x5001 ∷ 0x5204 ∷ 0x5204 ∷ 0x5301 ∷ 0x5301 ∷ 0x5301 ∷ 0x5301 ∷ 0x5101 ∷ 0x5101
    ∷ 0x5301 ∷ 0x5301 ∷ 0x5408 ∷ 0x8008 ∷ 0x440C ∷ 0x4904 ∷ 0x4704 ∷ 0x4604 ∷ 0x4404 ∷ 0x4204
    ∷ 0x5201 ∷ 0x5201 ∷ 0x5201 ∷ 0x5201 ∷ 0x5101 ∷ 0x5101 ∷ 0x5101 ∷ 0x5101 ∷ 0x5001 ∷ 0x5001
    ∷ 0x5001 ∷ 0x5001 ∷ 0x4B01 ∷ 0x4B01 ∷ 0x4B01 ∷ 0x4B01 ∷ 0x5201 ∷ 0x5201 ∷ 0x5201 ∷ 0x5201
    ∷ 0x5101 ∷ 0x5101 ∷ 0x5101 ∷ 0x5101 ∷ 0x5001 ∷ 0x5001 ∷ 0x5001 ∷ 0x5001 ∷ 0x4B04 ∷ 0x4401
    ∷ 0x4401 ∷ 0x4401 ∷ 0x4401 ∷ 0x4401 ∷ 0x4401 ∷ 0x4401 ∷ 0x4401 ∷ 0x4401 ∷ 0x4401 ∷ 0x4401
    ∷ 0x4401 ∷ 0x4904 ∷ 0x4701 ∷ 0x4701 ∷ 0x4701 ∷ 0x4701 ∷ 0x4601 ∷ 0x4601 ∷ 0x4601 ∷ 0x4601
    ∷ 0x4401 ∷ 0x4401 ∷ 0x4401 ∷ 0x4401 ∷ 0x4204 ∷ 0x5201 ∷ 0x5201 ∷ 0x5201 ∷ 0x5201 ∷ 0x5401
    ∷ 0x5401 ∷ 0x5401 ∷ 0x5401 ∷ 0x5601 ∷ 0x5601 ∷ 0x5601 ∷ 0x5601 ∷ 0x5701 ∷ 0x5701 ∷ 0x5701
    ∷ 0x5701 ∷ 0x5201 ∷ 0x5201 ∷ 0x5201 ∷ 0x5201 ∷ 0x5401 ∷ 0x5401 ∷ 0x5401 ∷ 0x5401 ∷ 0x5601
    ∷ 0x5601 ∷ 0x5601 ∷ 0x5601 ∷ 0x5704 ∷ 0x5908 ∷ 0x8008 ∷ 0x6208 ∷ 0x8008 ∷ 0x5708 ∷ []

abbrev pub voice1_part_five : List ℕ
voice1_part_five =
    0x8004 ∷ 0x5204 ∷ 0x4B04 ∷ 0x4704 ∷ 0x4B04 ∷ 0x5204 ∷ 0x5704 ∷ 0x5204 ∷ 0x5704 ∷ 0x5B04 ∷ 0x6208
    ∷ 0x5608 ∷ 0x5708 ∷ 0x8004 ∷ 0x5204 ∷ 0x4B04 ∷ 0x4704 ∷ 0x4B04 ∷ 0x5204 ∷ 0x5704 ∷ 0x5204
    ∷ 0x5704 ∷ 0x5B04 ∷ 0x6208 ∷ 0x5608 ∷ 0x5708 ∷ 0x8008 ∷ 0x5708 ∷ 0x8008 ∷ 0x5708 ∷ 0x4706
    ∷ 0x4702 ∷ 0x4708 ∷ 0x8008 ∷ 0x5208 ∷ 0x8004 ∷ 0x4904 ∷ 0x5208 ∷ 0x8004 ∷ 0x4904 ∷ 0x5204
    ∷ 0x4904 ∷ 0x5204 ∷ 0x5604 ∷ 0x5908 ∷ 0x8008 ∷ 0x5908 ∷ 0x8004 ∷ 0x5604 ∷ 0x5908 ∷ 0x8004
    ∷ 0x5604 ∷ 0x5904 ∷ 0x5604 ∷ 0x5304 ∷ 0x5604 ∷ 0x4B08 ∷ 0x8014 ∷ 0x5704 ∷ 0x6001 ∷ 0x6001
    ∷ 0x6001 ∷ 0x6001 ∷ 0x5B01 ∷ 0x5B01 ∷ 0x5B01 ∷ 0x5B01 ∷ 0x5901 ∷ 0x5901 ∷ 0x5901 ∷ 0x5901
    ∷ 0x5704 ∷ 0x5901 ∷ 0x5901 ∷ 0x5901 ∷ 0x5901 ∷ 0x5704 ∷ 0x8004 ∷ 0x5704 ∷ 0x5704 ∷ 0x5704
    ∷ 0x5704 ∷ 0x5704 ∷ 0x5901 ∷ 0x5901 ∷ 0x5901 ∷ 0x5901 ∷ 0x5704 ∷ 0x8004 ∷ 0x5704 ∷ 0x6001
    ∷ 0x6001 ∷ 0x6001 ∷ 0x6001 ∷ 0x5B01 ∷ 0x5B01 ∷ 0x5B01 ∷ 0x5B01 ∷ 0x5901 ∷ 0x5901 ∷ 0x5901
    ∷ 0x5901 ∷ 0x5704 ∷ 0x5901 ∷ 0x5901 ∷ 0x5901 ∷ 0x5901 ∷ 0x5704 ∷ 0x8004 ∷ 0x5704 ∷ 0x5704
    ∷ 0x5704 ∷ 0x5704 ∷ 0x5704 ∷ 0x5901 ∷ 0x5901 ∷ 0x5901 ∷ 0x5901 ∷ 0x5704 ∷ 0x8004 ∷ 0x5704
    ∷ 0x6001 ∷ 0x6001 ∷ 0x6001 ∷ 0x6001 ∷ 0x5B01 ∷ 0x5B01 ∷ 0x5B01 ∷ 0x5B01 ∷ 0x5901 ∷ 0x5901
    ∷ 0x5901 ∷ 0x5901 ∷ 0x5704 ∷ 0x5901 ∷ 0x5901 ∷ 0x5901 ∷ 0x5901 ∷ 0x5804 ∷ 0x8004 ∷ 0x5804
    ∷ 0x5804 ∷ 0x5804 ∷ 0x5804 ∷ 0x5804 ∷ 0x5B01 ∷ 0x5B01 ∷ 0x5B01 ∷ 0x5B01 ∷ 0x5904 ∷ 0x8004
    ∷ 0x5904 ∷ 0x6001 ∷ 0x6001 ∷ 0x6001 ∷ 0x6001 ∷ 0x5A01 ∷ 0x5A01 ∷ 0x5A01 ∷ 0x5A01 ∷ 0x5901
    ∷ 0x5901 ∷ 0x5901 ∷ 0x5901 ∷ 0x5704 ∷ 0x5701 ∷ 0x5701 ∷ 0x5701 ∷ 0x5701 ∷ 0x5604 ∷ 0x8004
    ∷ 0x5604 ∷ 0x5604 ∷ 0x5604 ∷ 0x5604 ∷ 0x5604 ∷ 0x5901 ∷ 0x5901 ∷ 0x5901 ∷ 0x5901 ∷ 0x5704
    ∷ 0x8004 ∷ 0x5304 ∷ 0x5704 ∷ 0x5504 ∷ 0x5304 ∷ 0x5204 ∷ 0x5201 ∷ 0x5201 ∷ 0x5201 ∷ 0x5201
    ∷ 0x5104 ∷ 0x8004 ∷ 0x5104 ∷ 0x5104 ∷ 0x5104 ∷ 0x5104 ∷ 0x5104 ∷ 0x5401 ∷ 0x5401 ∷ 0x5401
    ∷ 0x5401 ∷ 0x5204 ∷ 0x8004 ∷ 0x4201 ∷ 0x4201 ∷ 0x4201 ∷ 0x4201 ∷ 0x4401 ∷ 0x4401 ∷ 0x4401
    ∷ 0x4401 ∷ 0x4601 ∷ 0x4601 ∷ 0x4601 ∷ 0x4601 ∷ 0x4701 ∷ 0x4701 ∷ 0x4701 ∷ 0x4701 ∷ 0x4901
    ∷ 0x4901 ∷ 0x4901 ∷ 0x4901 ∷ 0x5001 ∷ 0x5001 ∷ 0x5001 ∷ 0x5001 ∷ 0x4A04 ∷ 0x8004 ∷ 0x4601
    ∷ 0x4601 ∷ 0x4601 ∷ 0x4601 ∷ 0x4701 ∷ 0x4701 ∷ 0x4701 ∷ 0x4701 ∷ 0x4901 ∷ 0x4901 ∷ 0x4901
    ∷ 0x4901 ∷ 0x4A01 ∷ 0x4A01 ∷ 0x4A01 ∷ 0x4A01 ∷ 0x5101 ∷ 0x5101 ∷ 0x5101 ∷ 0x5101 ∷ 0x5401
    ∷ 0x5401 ∷ 0x5401 ∷ 0x5401 ∷ 0x5204 ∷ 0x8004 ∷ 0x5201 ∷ 0x5201 ∷ 0x5201 ∷ 0x5201 ∷ 0x5401
    ∷ 0x5401 ∷ 0x5401 ∷ 0x5401 ∷ 0x5601 ∷ 0x5601 ∷ 0x5601 ∷ 0x5601 ∷ 0x5701 ∷ 0x5701 ∷ 0x5701
    ∷ 0x5701 ∷ 0x5901 ∷ 0x5901 ∷ 0x5901 ∷ 0x5901 ∷ 0x5A01 ∷ 0x5A01 ∷ 0x5A01 ∷ 0x5A01 ∷ 0x5A01
    ∷ 0x5A01 ∷ 0x5A01 ∷ 0x5A01 ∷ 0x5B01 ∷ 0x5B01 ∷ 0x5B01 ∷ 0x5B01 ∷ 0x5B01 ∷ 0x5B01 ∷ 0x5B01
    ∷ 0x5B01 ∷ 0x6001 ∷ 0x6001 ∷ 0x6001 ∷ 0x6001 ∷ 0x6001 ∷ 0x6001 ∷ 0x6001 ∷ 0x6001 ∷ 0x6108
    ∷ 0x6201 ∷ 0x6201 ∷ 0x6201 ∷ 0x6201 ∷ 0x6201 ∷ 0x6201 ∷ 0x6201 ∷ 0x6201 ∷ 0x6201 ∷ 0x6201
    ∷ 0x6201 ∷ 0x6201 ∷ 0x6201 ∷ 0x6201 ∷ 0x6201 ∷ 0x6201 ∷ 0x6201 ∷ 0x6201 ∷ 0x6201 ∷ 0x6201
    ∷ 0x6201 ∷ 0x6201 ∷ 0x6201 ∷ 0x6201 ∷ 0x6201 ∷ 0x6201 ∷ 0x6201 ∷ 0x6201 ∷ 0x6201 ∷ 0x6201
    ∷ 0x6201 ∷ 0x6201 ∷ 0x6210 ∷ 0x5601 ∷ 0x5601 ∷ 0x5601 ∷ 0x5601 ∷ 0x5601 ∷ 0x5601 ∷ 0x5601
    ∷ 0x5601 ∷ 0x5601 ∷ 0x5601 ∷ 0x5601 ∷ 0x5601 ∷ 0x5401 ∷ 0x5401 ∷ 0x5602 ∷ 0x5708 ∷ 0x8004
    ∷ 0x5204 ∷ 0x5708 ∷ 0x8004 ∷ 0x5204 ∷ 0x5704 ∷ 0x5204 ∷ 0x5704 ∷ 0x5B04 ∷ 0x6208 ∷ 0x8008
    ∷ 0x6008 ∷ 0x8004 ∷ 0x5904 ∷ 0x6008 ∷ 0x8004 ∷ 0x5904 ∷ 0x6004 ∷ 0x5904 ∷ 0x5604 ∷ 0x5904
    ∷ 0x5208 ∷ 0x8008 ∷ 0x5704 ∷ 0x8004 ∷ 0x570C ∷ 0x5B01 ∷ 0x5B01 ∷ 0x5B01 ∷ 0x5B01 ∷ 0x5904
    ∷ 0x5704 ∷ 0x5701 ∷ 0x5701 ∷ 0x5701 ∷ 0x5701 ∷ 0x5604 ∷ 0x560C ∷ 0x5901 ∷ 0x5901 ∷ 0x5901
    ∷ 0x5901 ∷ 0x6004 ∷ 0x5604 ∷ 0x5901 ∷ 0x5901 ∷ 0x5901 ∷ 0x5901 ∷ 0x5704 ∷ 0x570C ∷ 0x5B01
    ∷ 0x5B01 ∷ 0x5B01 ∷ 0x5B01 ∷ 0x5904 ∷ 0x5704 ∷ 0x5701 ∷ 0x5701 ∷ 0x5701 ∷ 0x5701 ∷ 0x5604
    ∷ 0x560C ∷ 0x5901 ∷ 0x5901 ∷ 0x5901 ∷ 0x5901 ∷ 0x6004 ∷ 0x5604 ∷ 0x5704 ∷ 0x5704 ∷ 0x5601
    ∷ 0x5601 ∷ 0x5601 ∷ 0x5601 ∷ 0x5401 ∷ 0x5401 ∷ 0x5602 ∷ 0x5704 ∷ 0x5704 ∷ 0x5901 ∷ 0x5901
    ∷ 0x5901 ∷ 0x5901 ∷ 0x5701 ∷ 0x5701 ∷ 0x5902 ∷ 0x5B04 ∷ 0x5B04 ∷ 0x6001 ∷ 0x6001 ∷ 0x6001
    ∷ 0x6001 ∷ 0x5B01 ∷ 0x5B01 ∷ 0x6001 ∷ 0x6001 ∷ 0x6208 ∷ 0x8008 ∷ 0x5201 ∷ 0x5201 ∷ 0x5201
    ∷ 0x5201 ∷ 0x5201 ∷ 0x5201 ∷ 0x5201 ∷ 0x5201 ∷ 0x5201 ∷ 0x5201 ∷ 0x5201 ∷ 0x5201 ∷ 0x5201
    ∷ 0x5201 ∷ 0x5201 ∷ 0x5201 ∷ 0x5410 ∷ 0x5008 ∷ 0x5008 ∷ 0x4B08 ∷ 0x4B08 ∷ 0x4908 ∷ 0x4908
    ∷ 0x4701 ∷ 0x4701 ∷ 0x4701 ∷ 0x4701 ∷ 0x4604 ∷ 0x4404 ∷ 0x4604 ∷ 0x4704 ∷ 0x8004 ∷ 0x4904
    ∷ 0x8004 ∷ 0x4B04 ∷ 0x800C ∷ 0x5201 ∷ 0x5201 ∷ 0x5201 ∷ 0x5201 ∷ 0x5201 ∷ 0x5201 ∷ 0x5201
    ∷ 0x5201 ∷ 0x5201 ∷ 0x5201 ∷ 0x5201 ∷ 0x5201 ∷ 0x5201 ∷ 0x5201 ∷ 0x5201 ∷ 0x5201 ∷ 0x5410
    ∷ 0x5201 ∷ 0x5201 ∷ 0x5201 ∷ 0x5201 ∷ 0x5004 ∷ 0x5004 ∷ 0x5004 ∷ 0x5001 ∷ 0x5001 ∷ 0x5001
    ∷ 0x5001 ∷ 0x4B04 ∷ 0x4B04 ∷ 0x4B04 ∷ 0x4B01 ∷ 0x4B01 ∷ 0x4B01 ∷ 0x4B01 ∷ 0x4904 ∷ 0x4904
    ∷ 0x4904 ∷ 0x4701 ∷ 0x4701 ∷ 0x4701 ∷ 0x4701 ∷ 0x4604 ∷ 0x4404 ∷ 0x4604 ∷ 0x4714 ∷ 0x4701
    ∷ 0x4701 ∷ 0x4601 ∷ 0x4701 ∷ 0x4901 ∷ 0x4901 ∷ 0x4901 ∷ 0x4901 ∷ 0x4604 ∷ 0x4B14 ∷ 0x4B01
    ∷ 0x4B01 ∷ 0x4901 ∷ 0x4B01 ∷ 0x5001 ∷ 0x5001 ∷ 0x5001 ∷ 0x5001 ∷ 0x4904 ∷ 0x5210 ∷ 0x5408
    ∷ 0x5608 ∷ 0x5708 ∷ 0x5908 ∷ 0x5B08 ∷ 0x5108 ∷ 0x6201 ∷ 0x6201 ∷ 0x6201 ∷ 0x6201 ∷ 0x6201
    ∷ 0x6201 ∷ 0x6201 ∷ 0x6201 ∷ 0x6201 ∷ 0x6201 ∷ 0x6201 ∷ 0x6201 ∷ 0x5904 ∷ 0x6101 ∷ 0x6101
    ∷ 0x6101 ∷ 0x6101 ∷ 0x6101 ∷ 0x6101 ∷ 0x5902 ∷ 0x5101 ∷ 0x5101 ∷ 0x5101 ∷ 0x5101 ∷ 0x5101
    ∷ 0x5101 ∷ 0x5902 ∷ 0x6201 ∷ 0x6201 ∷ 0x6201 ∷ 0x6201 ∷ 0x6201 ∷ 0x6201 ∷ 0x6201 ∷ 0x6201
    ∷ 0x6201 ∷ 0x6201 ∷ 0x6201 ∷ 0x6201 ∷ 0x5904 ∷ 0x6101 ∷ 0x6101 ∷ 0x6101 ∷ 0x6101 ∷ []

abbrev pub voice1_part_six : List ℕ
voice1_part_six =
    0x6101 ∷ 0x6101 ∷ 0x5902 ∷ 0x5101 ∷ 0x5101 ∷ 0x5101 ∷ 0x5101 ∷ 0x5101 ∷ 0x5101 ∷ 0x5902 ∷ 0x6204
    ∷ 0x5904 ∷ 0x6104 ∷ 0x5904 ∷ 0x6204 ∷ 0x5904 ∷ 0x6104 ∷ 0x5904 ∷ 0x6204 ∷ 0x4204 ∷ 0x4204
    ∷ 0x4204 ∷ 0x4208 ∷ 0x8008 ∷ 0x5201 ∷ 0x5201 ∷ 0x5201 ∷ 0x5201 ∷ 0x5201 ∷ 0x5201 ∷ 0x5201
    ∷ 0x5201 ∷ 0x5201 ∷ 0x5201 ∷ 0x5001 ∷ 0x5001 ∷ 0x4B01 ∷ 0x4B01 ∷ 0x4901 ∷ 0x4901 ∷ 0x4704
    ∷ 0x8004 ∷ 0x5404 ∷ 0x8004 ∷ 0x5004 ∷ 0x8004 ∷ 0x4904 ∷ 0x8004 ∷ 0x5204 ∷ 0x800C ∷ 0x5B01
    ∷ 0x5B01 ∷ 0x5B01 ∷ 0x5B01 ∷ 0x5B01 ∷ 0x5B01 ∷ 0x5B01 ∷ 0x5B01 ∷ 0x5B01 ∷ 0x5B01 ∷ 0x5901
    ∷ 0x5901 ∷ 0x5701 ∷ 0x5701 ∷ 0x5601 ∷ 0x5601 ∷ 0x5404 ∷ 0x8004 ∷ 0x6004 ∷ 0x8004 ∷ 0x5B01
    ∷ 0x5B01 ∷ 0x5B01 ∷ 0x5B01 ∷ 0x5B01 ∷ 0x5B01 ∷ 0x5B01 ∷ 0x5B01 ∷ 0x5B01 ∷ 0x5B01 ∷ 0x5B01
    ∷ 0x5B01 ∷ 0x5B01 ∷ 0x5B01 ∷ 0x5B01 ∷ 0x5B01 ∷ 0x5908 ∷ 0x8008 ∷ 0x8004 ∷ 0x6204 ∷ 0x6204
    ∷ 0x6204 ∷ 0x6204 ∷ 0x6204 ∷ 0x6204 ∷ 0x6204 ∷ 0x6204 ∷ 0x6204 ∷ 0x6204 ∷ 0x6204 ∷ 0x6201
    ∷ 0x6201 ∷ 0x6201 ∷ 0x6201 ∷ 0x6001 ∷ 0x6001 ∷ 0x6001 ∷ 0x6001 ∷ 0x5901 ∷ 0x5901 ∷ 0x5901
    ∷ 0x5901 ∷ 0x5604 ∷ 0x5601 ∷ 0x5601 ∷ 0x5601 ∷ 0x5601 ∷ 0x5704 ∷ 0x8004 ∷ 0x5404 ∷ 0x5401
    ∷ 0x5401 ∷ 0x5401 ∷ 0x5401 ∷ 0x5204 ∷ 0x8004 ∷ 0x4604 ∷ 0x4708 ∷ 0x8004 ∷ 0x5204 ∷ 0x5701
    ∷ 0x5701 ∷ 0x5701 ∷ 0x5701 ∷ 0x5601 ∷ 0x5601 ∷ 0x5601 ∷ 0x5601 ∷ 0x5401 ∷ 0x5401 ∷ 0x5401
    ∷ 0x5401 ∷ 0x5204 ∷ 0x5401 ∷ 0x5401 ∷ 0x5401 ∷ 0x5401 ∷ 0x5204 ∷ 0x8004 ∷ 0x5204 ∷ 0x5204
    ∷ 0x5204 ∷ 0x5204 ∷ 0x5204 ∷ 0x5401 ∷ 0x5401 ∷ 0x5401 ∷ 0x5401 ∷ 0x5204 ∷ 0x8004 ∷ 0x5204
    ∷ 0x5704 ∷ 0x5604 ∷ 0x5404 ∷ 0x5204 ∷ 0x5401 ∷ 0x5401 ∷ 0x5401 ∷ 0x5401 ∷ 0x5204 ∷ 0x8004
    ∷ 0x5204 ∷ 0x5204 ∷ 0x5204 ∷ 0x5204 ∷ 0x5204 ∷ 0x5401 ∷ 0x5401 ∷ 0x5401 ∷ 0x5401 ∷ 0x5204
    ∷ 0x8008 ∷ 0x540A ∷ 0x5201 ∷ 0x5201 ∷ 0x5001 ∷ 0x5001 ∷ 0x4B01 ∷ 0x4B01 ∷ 0x5008 ∷ 0x8008
    ∷ 0x520A ∷ 0x5001 ∷ 0x5001 ∷ 0x4B01 ∷ 0x4B01 ∷ 0x4901 ∷ 0x4901 ∷ 0x4B08 ∷ 0x8008 ∷ 0x5401
    ∷ 0x5401 ∷ 0x5401 ∷ 0x5401 ∷ 0x5601 ∷ 0x5601 ∷ 0x5701 ∷ 0x5701 ∷ 0x5604 ∷ 0x5404 ∷ 0x5401
    ∷ 0x5401 ∷ 0x5401 ∷ 0x5401 ∷ 0x5204 ∷ 0x4B04 ∷ 0x5204 ∷ 0x5201 ∷ 0x5201 ∷ 0x5201 ∷ 0x5201
    ∷ 0x5004 ∷ 0x4B04 ∷ 0x4904 ∷ 0x4708 ∷ 0x8004 ∷ 0x5204 ∷ 0x5701 ∷ 0x5701 ∷ 0x5701 ∷ 0x5701
    ∷ 0x5601 ∷ 0x5601 ∷ 0x5601 ∷ 0x5601 ∷ 0x5401 ∷ 0x5401 ∷ 0x5401 ∷ 0x5401 ∷ 0x5204 ∷ 0x5401
    ∷ 0x5401 ∷ 0x5401 ∷ 0x5401 ∷ 0x5204 ∷ 0x8004 ∷ 0x5204 ∷ 0x5204 ∷ 0x5204 ∷ 0x5204 ∷ 0x5204
    ∷ 0x5401 ∷ 0x5401 ∷ 0x5401 ∷ 0x5401 ∷ 0x5204 ∷ 0x8004 ∷ 0x5204 ∷ 0x5701 ∷ 0x5701 ∷ 0x5701
    ∷ 0x5701 ∷ 0x5601 ∷ 0x5601 ∷ 0x5601 ∷ 0x5601 ∷ 0x5401 ∷ 0x5401 ∷ 0x5401 ∷ 0x5401 ∷ 0x5204
    ∷ 0x5401 ∷ 0x5401 ∷ 0x5401 ∷ 0x5401 ∷ 0x5204 ∷ 0x8004 ∷ 0x5204 ∷ 0x5204 ∷ 0x5204 ∷ 0x5204
    ∷ 0x5204 ∷ 0x5401 ∷ 0x5401 ∷ 0x5401 ∷ 0x5401 ∷ 0x5204 ∷ 0x8008 ∷ 0x640A ∷ 0x6201 ∷ 0x6201
    ∷ 0x6001 ∷ 0x6001 ∷ 0x5B01 ∷ 0x5B01 ∷ 0x6008 ∷ 0x8008 ∷ 0x620A ∷ 0x6001 ∷ 0x6001 ∷ 0x5B01
    ∷ 0x5B01 ∷ 0x5901 ∷ 0x5901 ∷ 0x5B08 ∷ 0x8008 ∷ 0x5401 ∷ 0x5401 ∷ 0x5401 ∷ 0x5401 ∷ 0x5601
    ∷ 0x5601 ∷ 0x5701 ∷ 0x5701 ∷ 0x5604 ∷ 0x5404 ∷ 0x5204 ∷ 0x5704 ∷ 0x5B04 ∷ 0x6204 ∷ 0x6201
    ∷ 0x6201 ∷ 0x6201 ∷ 0x6201 ∷ 0x6004 ∷ 0x5B04 ∷ 0x5904 ∷ 0x5704 ∷ 0x4204 ∷ 0x4404 ∷ 0x4604
    ∷ 0x4704 ∷ 0x4704 ∷ 0x4901 ∷ 0x4901 ∷ 0x4901 ∷ 0x4901 ∷ 0x4701 ∷ 0x4701 ∷ 0x4901 ∷ 0x4901
    ∷ 0x4B04 ∷ 0x4604 ∷ 0x4704 ∷ 0x4904 ∷ 0x4B04 ∷ 0x4B04 ∷ 0x5001 ∷ 0x5001 ∷ 0x5001 ∷ 0x5001
    ∷ 0x4B01 ∷ 0x4B01 ∷ 0x5001 ∷ 0x5001 ∷ 0x5204 ∷ 0x5204 ∷ 0x5301 ∷ 0x5301 ∷ 0x5301 ∷ 0x5301
    ∷ 0x5101 ∷ 0x5101 ∷ 0x5301 ∷ 0x5301 ∷ 0x5408 ∷ 0x8008 ∷ 0x440C ∷ 0x4904 ∷ 0x4704 ∷ 0x4604
    ∷ 0x4404 ∷ 0x4204 ∷ 0x5201 ∷ 0x5201 ∷ 0x5201 ∷ 0x5201 ∷ 0x5101 ∷ 0x5101 ∷ 0x5101 ∷ 0x5101
    ∷ 0x5001 ∷ 0x5001 ∷ 0x5001 ∷ 0x5001 ∷ 0x4B01 ∷ 0x4B01 ∷ 0x4B01 ∷ 0x4B01 ∷ 0x5201 ∷ 0x5201
    ∷ 0x5201 ∷ 0x5201 ∷ 0x5101 ∷ 0x5101 ∷ 0x5101 ∷ 0x5101 ∷ 0x5001 ∷ 0x5001 ∷ 0x5001 ∷ 0x5001
    ∷ 0x4B04 ∷ 0x4401 ∷ 0x4401 ∷ 0x4401 ∷ 0x4401 ∷ 0x4401 ∷ 0x4401 ∷ 0x4401 ∷ 0x4401 ∷ 0x4401
    ∷ 0x4401 ∷ 0x4401 ∷ 0x4401 ∷ 0x4904 ∷ 0x4701 ∷ 0x4701 ∷ 0x4701 ∷ 0x4701 ∷ 0x4601 ∷ 0x4601
    ∷ 0x4601 ∷ 0x4601 ∷ 0x4401 ∷ 0x4401 ∷ 0x4401 ∷ 0x4401 ∷ 0x4204 ∷ 0x5201 ∷ 0x5201 ∷ 0x5201
    ∷ 0x5201 ∷ 0x5401 ∷ 0x5401 ∷ 0x5401 ∷ 0x5401 ∷ 0x5601 ∷ 0x5601 ∷ 0x5601 ∷ 0x5601 ∷ 0x5701
    ∷ 0x5701 ∷ 0x5701 ∷ 0x5701 ∷ 0x5201 ∷ 0x5201 ∷ 0x5201 ∷ 0x5201 ∷ 0x5401 ∷ 0x5401 ∷ 0x5401
    ∷ 0x5401 ∷ 0x5601 ∷ 0x5601 ∷ 0x5601 ∷ 0x5601 ∷ 0x5704 ∷ 0x5908 ∷ 0x8008 ∷ 0x6208 ∷ 0x8008
    ∷ 0x5708 ∷ 0x8004 ∷ 0x5204 ∷ 0x4B04 ∷ 0x4704 ∷ 0x4B04 ∷ 0x5204 ∷ 0x5704 ∷ 0x5204 ∷ 0x5704
    ∷ 0x5B04 ∷ 0x6208 ∷ 0x5608 ∷ 0x5708 ∷ 0x8004 ∷ 0x5204 ∷ 0x4B04 ∷ 0x4704 ∷ 0x4B04 ∷ 0x5204
    ∷ 0x5704 ∷ 0x5204 ∷ 0x5704 ∷ 0x5B04 ∷ 0x6208 ∷ 0x5608 ∷ 0x5708 ∷ 0x8008 ∷ 0x5708 ∷ 0x8008
    ∷ 0x5708 ∷ 0x4706 ∷ 0x4702 ∷ 0x4708 ∷ 0x8008 ∷ 0x0000 ∷ []
