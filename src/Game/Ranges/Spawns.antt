-- ===== src/Game/Ranges/Spawns.antt =====
-- The ranges of new entities of Src/Server/Game.cpp.
use rtype_ci_cd.Common.{
  ℕ, ◌+◌, ◌%◌, ◌≤◌, ◌<◌, inl, inr, List, [], ◌∷◌, ◌++◌, length, length-append, ltb, u32, Bool-cases,
  arith,
}
use rtype_ci_cd.Common.Int.{ℤ, pos}
use rtype_ci_cd.Common.Machine.{Machine, Float}
use rtype_ci_cd.Common.Floats
use rtype_ci_cd.Network.{Datagram}
use rtype_ci_cd.Protocol.Udp.Messages.{entity_spawn}
use rtype_ci_cd.Game.Types.{Entity, new_entity, Game}
use rtype_ci_cd.Game.Shots.{spawn, create_enemy}
use rtype_ci_cd.Game.Update.{Frame, enemy_interval, spawn_enemy}
use rtype_ci_cd.Game.Update.Boss.{HasBoss}
use rtype_ci_cd.Game.Ranges.{
  IsMachine32, TimesInRange, PlayersInRange, EntityInRange, EntitiesInRange, InRange, AllInRange,
  AllInRange-to_all, Says,
}

EntitiesInRange-append :
    (es : List Entity) (e : Entity)
    → EntitiesInRange es
    → EntityInRange e
    → EntitiesInRange (es ++ e ∷ [])
EntitiesInRange-append [] e h k = (k, tt)
EntitiesInRange-append (x ∷ es) e h k = (h.0, EntitiesInRange-append es e h.1 k)

-- The ranges but for the boss.
pub record HasRoom (b : ℕ) (g : Game) : Type 0 where
  pub players : PlayersInRange g.players
  pub entities : EntitiesInRange g.entities
  pub times : TimesInRange g
  pub count : length g.entities < g.next_entity_id
  pub bounded : g.next_entity_id ≤ b

pub record Grown (b : ℕ) (r : Game × List Datagram) : Type 0 where
  pub room : HasRoom b r.0
  pub messages : AllInRange r.1

pub room_of : (b : ℕ) (g : Game) → InRange b g → HasRoom b g
room_of b g r = record {
  players = r.players;
  entities = r.entities;
  times = r.times;
  count = r.count;
  bounded = r.bounded;
}

pub HasRoom-le : (b k : ℕ) (g : Game) → b ≤ k → HasRoom b g → HasRoom k g
HasRoom-le b k g h r = record {
  players = r.players;
  entities = r.entities;
  times = r.times;
  count = r.count;
  bounded = omega (arith, r.bounded, h);
}

pub Grown-still : (b k : ℕ) (g : Game) → b ≤ k → HasRoom b g → Grown k (g, [])
Grown-still b k g h r = record { room = HasRoom-le b k g h r; messages = tt }

pub Grown-Says : (b : ℕ) (r : Game × List Datagram) → Grown b r → HasBoss 0 r.0 → Says b r
Grown-Says b r h boss = record {
  state = record {
    players = h.room.players;
    entities = h.room.entities;
    times = h.room.times;
    count = h.room.count;
    bounded = h.room.bounded;
    boss = boss;
  };
  messages = h.messages;
}

module _ (m : Machine) (laws : IsMachine32 m) where
  pub spawn-Grown :
      (b : ℕ) (g : Game) (type : ℕ) (x y vx vy : Float) (h w : ℤ)
      → HasRoom b g
      → b + 1 < u32
      → type < 65536
      → x < u32
      → y < u32
      → vx < u32
      → vy < u32
      → Grown (b + 1) (spawn m g type x y vx vy h w)
  unfolding spawn
  spawn-Grown b g type x y vx vy h w r small t xs ys vxs vys =
      let e = new_entity g.next_entity_id type x y vx vy h w in
      let longer = length-append g.entities (e ∷ []) in
      record {
        room = record {
          players = r.players;
          entities =
              EntitiesInRange-append g.entities e r.entities
                (omega (arith, r.bounded, small), t, xs, ys, vxs, vys);
          times = r.times;
          count = omega (arith, longer, r.count, r.bounded, small);
          bounded = omega (arith, r.bounded, small);
        };
        messages =
            AllInRange-to_all g.players
              (entity_spawn (record {
                entity_id = g.next_entity_id;
                entity_type = type;
                timestamp = m.indeterminate;
                x = x;
                y = y;
              }))
              (omega (arith, r.bounded, small), t, laws.indeterminate_lt, xs, ys);
      }

  create_enemy-Grown :
      (b : ℕ) (g : Game) (n : ℕ) → HasRoom b g → b + 1 < u32 → Grown (b + 1) (create_enemy m g n)
  unfolding create_enemy
  create_enemy-Grown b g n r small =
      let y = laws.of_int_lt (pos (n % 1000 + 40)) in
      elim (Bool-cases (m.lt Floats.thirty g.game_time)) [
        | inl late ↦ rw late (
            spawn-Grown b g 3 _ _ _ _ _ _ r small (omega arith) (omega arith) y (omega arith)
              (omega arith))
        | inr early ↦ rw early (
            spawn-Grown b g 2 _ _ _ _ _ _ r small (omega arith) (omega arith) y (omega arith)
              (omega arith))
      ]

  pub spawn_enemy-Grown :
      (b : ℕ) (fr : Frame) (g : Game)
      → HasRoom b g
      → b + 1 < u32
      → Grown (b + 1) (spawn_enemy m fr g)
  unfolding spawn_enemy
  spawn_enemy-Grown b fr g r small =
      elim (Bool-cases (ltb (g.last_enemy_spawn_time + enemy_interval) fr.enemy_test)) [
        | inl due ↦
            let h = create_enemy-Grown b g fr.random r small in
            rw due (record {
              room = record {
                players = h.room.players;
                entities = h.room.entities;
                times = h.room.times;
                count = h.room.count;
                bounded = h.room.bounded;
              };
              messages = h.messages;
            })
        | inr early ↦ rw early (Grown-still b (b + 1) g (omega arith) r)
      ]
