-- ===== src/Patterns.antt =====
-- Include/Client/Patterns.hpp: the ways in which an enemy can move.
mod Tests
use rtype_ci_cd.Common.Machine.{Machine, Float}

-- `IMovementPattern`, of which `P` holds the members.
pub record MovementPattern (P : Type 0) : Type 0 where
  -- `update` of `x`, `y` and the time: the members and the place after it.
  pub update : P → Float → Float → Float → P × Float × Float

pub record LinearPattern : Type 0 where
  pub speed_x : Float
  pub speed_y : Float

pub record SinusoidalPattern : Type 0 where
  pub speed : Float
  pub amplitude : Float
  pub frequency : Float
  pub start_y : Float
  pub time : Float

module _ (m : Machine) where
  unfoldable pub linear : MovementPattern LinearPattern
  linear = record {
    update = λ p x y dt. (p, m.add x (m.mul p.speed_x dt), m.add y (m.mul p.speed_y dt));
  }

  unfoldable pub sinusoidal : MovementPattern SinusoidalPattern
  sinusoidal = record {
    update = λ p x y dt.
        let time = m.add p.time dt in
        (
          record p { time = time },
          m.sub x (m.mul p.speed dt),
          m.add p.start_y (m.mul (m.sin (m.mul time p.frequency)) p.amplitude),
        );
  }
