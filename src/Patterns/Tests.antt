-- ===== src/Patterns/Tests.antt =====
-- Steps of the patterns of Include/Client/Patterns.hpp.
use rtype_ci_cd.Common.{◌≡◌, refl}
use rtype_ci_cd.Game.Samples.{machine}
use rtype_ci_cd.Patterns.{LinearPattern, SinusoidalPattern, linear, sinusoidal}

abbrev line : LinearPattern
line = record { speed_x = 2; speed_y = 3 }

abbrev wave : SinusoidalPattern
wave = record { speed = 2; amplitude = 3; frequency = 5; start_y = 100; time = 0 }

linear_test : (linear machine).update line 50 7 4 ≡ (line, 58, 19)
unfolding linear
linear_test = refl

-- The time that has passed is kept.
sinusoidal_test : ((sinusoidal machine).update wave 50 7 4).0 ≡ record wave { time = 4 }
unfolding sinusoidal
sinusoidal_test = refl
