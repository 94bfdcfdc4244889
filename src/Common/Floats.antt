-- ===== src/Common/Floats.antt =====
-- The float literals of Src/Server/Game.cpp, Include/Server/Game.hpp and Src/Client, as their bit patterns. An
-- integer literal that the code compares with or adds to a float is converted, and stands here too.
use rtype_ci_cd.Common.Machine.{Float, Double}

-- 0
abbrev pub zero_f : Float
zero_f = 0x0

-- 1
abbrev pub one : Float
one = 0x3f800000

-- 1.5
abbrev pub one_and_half : Float
one_and_half = 0x3fc00000

-- 2
abbrev pub two : Float
two = 0x40000000

-- 3
abbrev pub three : Float
three = 0x40400000

-- 4
abbrev pub four : Float
four = 0x40800000

-- 5
abbrev pub five : Float
five = 0x40a00000

-- 8
abbrev pub eight : Float
eight = 0x41000000

-- 10
abbrev pub ten : Float
ten = 0x41200000

-- 12
abbrev pub twelve : Float
twelve = 0x41400000

-- 25
abbrev pub twenty_five : Float
twenty_five = 0x41c80000

-- 30
abbrev pub thirty : Float
thirty = 0x41f00000

-- 60
abbrev pub sixty : Float
sixty = 0x42700000

-- 80
abbrev pub eighty : Float
eighty = 0x42a00000

-- 225
abbrev pub two_hundred_25 : Float
two_hundred_25 = 0x43610000

-- 400
abbrev pub four_hundred : Float
four_hundred = 0x43c80000

-- 1500
abbrev pub fifteen_hundred : Float
fifteen_hundred = 0x44bb8000

-- 1600
abbrev pub sixteen_hundred : Float
sixteen_hundred = 0x44c80000

-- 1920
abbrev pub nineteen_twenty : Float
nineteen_twenty = 0x44f00000

-- -2
abbrev pub minus_two : Float
minus_two = 0xc0000000

-- -5
abbrev pub minus_five : Float
minus_five = 0xc0a00000

-- -8
abbrev pub minus_eight : Float
minus_eight = 0xc1000000

-- -15
abbrev pub minus_fifteen : Float
minus_fifteen = 0xc1700000

-- -20
abbrev pub minus_twenty : Float
minus_twenty = 0xc1a00000

-- 0.016
abbrev pub frame_time : Float
frame_time = 0x3c83126f

-- 0.5
abbrev pub half : Float
half = 0x3f000000

-- 2.5
abbrev pub two_and_half : Float
two_and_half = 0x40200000

-- 17
abbrev pub seventeen : Float
seventeen = 0x41880000

-- 18
abbrev pub eighteen : Float
eighteen = 0x41900000

-- 29
abbrev pub twenty_nine : Float
twenty_nine = 0x41e80000

-- 33
abbrev pub thirty_three : Float
thirty_three = 0x42040000

-- 36
abbrev pub thirty_six : Float
thirty_six = 0x42100000

-- 40
abbrev pub forty : Float
forty = 0x42200000

-- 50
abbrev pub fifty : Float
fifty = 0x42480000

-- 100
abbrev pub hundred : Float
hundred = 0x42c80000

-- 120
abbrev pub one_hundred_20 : Float
one_hundred_20 = 0x42f00000

-- 125
abbrev pub one_hundred_25 : Float
one_hundred_25 = 0x42fa0000

-- 150
abbrev pub one_hundred_50 : Float
one_hundred_50 = 0x43160000

-- 177
abbrev pub one_hundred_77 : Float
one_hundred_77 = 0x43310000

-- 250
abbrev pub two_hundred_50 : Float
two_hundred_50 = 0x437a0000

-- 300
abbrev pub three_hundred : Float
three_hundred = 0x43960000

-- 320
abbrev pub three_hundred_20 : Float
three_hundred_20 = 0x43a00000

-- 370
abbrev pub three_hundred_70 : Float
three_hundred_70 = 0x43b90000

-- 390
abbrev pub three_hundred_90 : Float
three_hundred_90 = 0x43c30000

-- 593
abbrev pub five_hundred_93 : Float
five_hundred_93 = 0x44144000

-- 600
abbrev pub six_hundred : Float
six_hundred = 0x44160000

-- 0.2
abbrev pub fifth : Float
fifth = 0x3e4ccccd

-- 0.4
abbrev pub two_fifths : Float
two_fifths = 0x3ecccccd

-- 6
abbrev pub six : Float
six = 0x40c00000

-- 0.1
abbrev pub tenth : Float
tenth = 0x3dcccccd

-- -0.1
abbrev pub minus_tenth : Float
minus_tenth = 0xbdcccccd

-- 15
abbrev pub fifteen : Float
fifteen = 0x41700000

-- 19
abbrev pub nineteen : Float
nineteen = 0x41980000

-- 20
abbrev pub twenty : Float
twenty = 0x41a00000

-- 32
abbrev pub thirty_two : Float
thirty_two = 0x42000000

-- 38
abbrev pub thirty_eight : Float
thirty_eight = 0x42180000

-- 49
abbrev pub forty_nine : Float
forty_nine = 0x42440000

-- 53
abbrev pub fifty_three : Float
fifty_three = 0x42540000

-- 67
abbrev pub sixty_seven : Float
sixty_seven = 0x42860000

-- 136
abbrev pub one_hundred_36 : Float
one_hundred_36 = 0x43080000

-- 294
abbrev pub two_hundred_94 : Float
two_hundred_94 = 0x43930000

-- 0.8
abbrev pub four_fifths : Float
four_fifths = 0x3f4ccccd

-- 0.85
abbrev pub point_85 : Float
point_85 = 0x3f59999a

-- 0.5, as a `double`
abbrev pub half_double : Double
half_double = 0x3fe0000000000000
