-- ===== src/Game/Boss.antt =====
-- The boss in `Game::update` of Src/Server/Game.cpp: when it appears, and when it shoots.
pub mod Alive
pub mod Health
use rtype_ci_cd.Common.{
  ℕ, ◌+◌, ◌-◌, ◌%◌, Bool, true, false, ◌&&◌, ◌||◌, Option, none, some, List, [], ◌∷◌, ◌++◌, ◌==◌,
  if◌then◌else◌, u32,
}
use rtype_ci_cd.Common.Int.{ℤ, pos}
use rtype_ci_cd.Common.Machine.{Machine, Float}
use rtype_ci_cd.Common.Floats
use rtype_ci_cd.Network.{Datagram}
use rtype_ci_cd.Protocol.Udp.Messages.{UdpMessage, entity_spawn, boss_state}
use rtype_ci_cd.Game.Types.{Player, Entity, Game, to_all}
use rtype_ci_cd.Game.Shots.{spawn}

-- The loop that sends two packets to each player.
unfoldable pub both_to_all : List Player → UdpMessage → UdpMessage → List Datagram
both_to_all [] a b = []
both_to_all (p ∷ ps) a b =
    if p.addr_set
    then record { message = a; addr = p.udp_addr }
      ∷ record { message = b; addr = p.udp_addr }
      ∷ both_to_all ps a b
    else both_to_all ps a b

-- The first boss in the list.
unfoldable pub find_boss : List Entity → Option Entity
find_boss [] = none
find_boss (e ∷ es) = if e.type == 10 then some e else find_boss es

unfoldable pub offsets : ℕ → List Float
offsets level =
    if level == 3 then Floats.minus_five ∷ Floats.zero_f ∷ Floats.five ∷ [] else Floats.zero_f ∷ []

module _ (m : Machine) where
  open m use {add, sub, lt, indeterminate}

  -- The level, the hit points, and the block under `if (spawnBoss)`.
  unfoldable pub spawn_boss : Game → ℕ → ℤ → Game × List Datagram
  spawn_boss g level hp =
      let raised = record g { boss = record (g.boss) { level = level; hp = hp } } in
      let g' =
        (spawn m raised 10 Floats.sixteen_hundred Floats.four_hundred Floats.minus_two Floats.zero_f
          (pos 296) (pos 88)).0 in
      (
        g',
        both_to_all g.players
            (entity_spawn (record {
              entity_id = g.next_entity_id;
              entity_type = 10;
              timestamp = indeterminate;
              x = Floats.sixteen_hundred;
              y = Floats.four_hundred;
            }))
            (boss_state (record { hp = hp; max_hp = hp })),
      )

  unfoldable pub raise_boss : Game → Game × List Datagram
  raise_boss g =
      if g.boss.level == 0 && lt Floats.ten g.game_time
      then spawn_boss g 1 (pos 1000)
      else if g.boss.level == 2 && lt (add g.boss.death_time Floats.zero_f) g.game_time
      then spawn_boss g 3 (pos 2000)
      else (g, [])

  -- The loop over `vyOffsets`.
  unfoldable pub volley : List Float → Float → Float → Game → Game × List Datagram
  volley [] x y g = (g, [])
  volley (vy ∷ vys) x y g =
      let (g', sent) =
        spawn m g 11 x (add y Floats.eighty) Floats.minus_fifteen vy (pos 30) (pos 30) in
      let (g'', sent') = volley vys x y g' in (g'', sent ++ sent')

  unfoldable pub boss_fire : Game → Entity → Game × List Datagram
  boss_fire g e =
      if lt (if g.boss.level == 3 then Floats.one else Floats.one_and_half)
        (sub g.game_time g.boss.last_shoot_time)
      then volley (offsets g.boss.level) e.x e.y
          (record g { boss = record (g.boss) { last_shoot_time = g.game_time } })
      else (g, [])

  unfoldable pub boss_shoot : Game → Game × List Datagram
  boss_shoot g =
      if g.boss.level == 1 || g.boss.level == 3
      then elim (find_boss g.entities) [ none ↦ (g, []) | some e ↦ boss_fire g e ]
      else (g, [])
