-- ===== src/Game/Collision.antt =====
-- `Game::handleCollision` of Src/Server/Game.cpp.
pub mod Marks
pub mod Loops
use rtype_ci_cd.Common.{
  ℕ, zero, suc, ◌+◌, ◌-◌, Bool, true, false, not, ◌&&◌, ◌||◌, Option, none, some, List, [], ◌∷◌,
  ◌++◌, length, map, get_elem?, set, ltb, ◌==◌, if◌then◌else◌,
}
use rtype_ci_cd.Common.Int.{ℤ, pos, ◌-ℤ◌, leb_ℤ}
use rtype_ci_cd.Common.Machine.{Machine, Float}
use rtype_ci_cd.Network.{Datagram}
use rtype_ci_cd.Protocol.Udp.Messages.{boss_state}
use rtype_ci_cd.Game.Types.{Player, Entity, BossState, Game, to_all}

-- What the first pair of loops changes.
pub record Clash : Type 0 where
  pub entities : List Entity
  pub boss : BossState
  pub sent : List Datagram

-- `projectile.type`: a shot or a charged shot.
unfoldable pub is_projectile : Entity → Bool
is_projectile e = e.type == 1 || e.type == 4

-- What projectiles hit: the two enemies and the boss.
unfoldable pub is_target : Entity → Bool
is_target e = e.type == 2 || e.type == 3 || e.type == 10

-- What hurts a player: the two enemies and the boss's projectiles.
unfoldable pub is_hazard : Entity → Bool
is_hazard e = e.type == 2 || e.type == 3 || e.type == 11

abbrev pub collided : Entity → Entity
collided e = record e { is_collide = true }

-- The boss's hit points after a shot by `projectile`.
unfoldable pub damaged : BossState → Entity → BossState
unfolding ◌-ℤ◌
damaged b projectile = record b { hp = b.hp -ℤ pos (if projectile.type == 4 then 50 else 10) }

-- The level after the boss has died at `time`.
unfoldable pub boss_died : BossState → Float → BossState
boss_died b time =
    if b.level == 1
    then record b { level = 2; death_time = time }
    else if b.level == 3
    then record b { level = 4 }
    else b

-- A projectile `i` has met the boss, the entity `j`.
unfoldable pub strike_boss : Game → ℕ → Entity → Entity → Clash → Clash
unfolding damaged boss_died to_all
strike_boss g j projectile enemy c =
    let boss = damaged c.boss projectile in
    let dead = leb_ℤ boss.hp (pos 0) in
    record {
      entities = if dead then set c.entities j (collided enemy) else c.entities;
      boss = if dead then boss_died boss g.game_time else boss;
      sent =
          c.sent
          ++ to_all g.players (
              boss_state
                (record { hp = boss.hp; max_hp = if boss.level == 3 then pos 2000 else pos 1000 }));
    }

module _ (m : Machine) where
  open m use {add, lt, of_int}

  unfoldable pub check_collision : Float → Float → ℤ → ℤ → Float → Float → ℤ → ℤ → Bool
  check_collision x1 y1 w1 h1 x2 y2 w2 h2 =
      lt x1 (add x2 (of_int w2))
      && lt x2 (add x1 (of_int w1))
      && lt y1 (add y2 (of_int h2))
      && lt y2 (add y1 (of_int h1))

  unfoldable pub overlap : Entity → Entity → Bool
  unfolding check_collision
  overlap a b = check_collision a.x a.y a.width a.height b.x b.y b.width b.height

  -- The body of the inner loop, for the projectile `i` and the entity `j`.
  unfoldable pub meet : Game → ℕ → ℕ → Entity → Entity → Clash → Clash
  meet g i j projectile enemy c =
      if not (is_target enemy)
      then c
      else if projectile.is_collide || enemy.is_collide
      then c
      else if overlap projectile enemy
      then (let spent = record c { entities = set c.entities i (collided projectile) } in
          if enemy.type == 10
          then strike_boss g j projectile enemy spent
          else record spent { entities = set spent.entities j (collided enemy) })
      else c

  unfoldable pub meet_at : Game → ℕ → ℕ → Clash → Clash
  unfolding meet
  meet_at g i j c = elim (get_elem? c.entities i) [
    | none ↦ c
    | some projectile ↦ elim (get_elem? c.entities j) [
      | none ↦ c
      | some enemy ↦ meet g i j projectile enemy c
    ]
  ]

  -- The inner loop, with `n` entities to go from `j` on.
  unfoldable pub enemy_loop : Game → ℕ → ℕ → ℕ → Clash → Clash
  unfolding meet_at
  enemy_loop g i zero j c = c
  enemy_loop g i (suc n) j c = enemy_loop g i n (j + 1) (meet_at g i j c)

  -- The body of the outer loop: an entity that is no projectile is passed over.
  unfoldable pub shoot_at : Game → ℕ → ℕ → Clash → Clash
  unfolding is_projectile enemy_loop
  shoot_at g count i c = elim (get_elem? c.entities i) [
    | none ↦ c
    | some projectile ↦ if is_projectile projectile then enemy_loop g i count 0 c else c
  ]

  -- The outer loop, with `n` entities to go from `i` on.
  unfoldable pub projectile_loop : Game → ℕ → ℕ → ℕ → Clash → Clash
  unfolding shoot_at
  projectile_loop g count zero i c = c
  projectile_loop g count (suc n) i c = projectile_loop g count n (i + 1) (shoot_at g count i c)

  -- The body of the second pair of loops.
  unfoldable pub crash : Player → Entity → Entity
  unfolding is_hazard check_collision
  crash p e =
      if not (is_hazard e)
      then e
      else if e.is_collide
      then e
      else if check_collision p.x p.y (pos 60) (pos 30) e.x e.y e.width e.height
      then collided e
      else e

  unfoldable pub player_loop : List Player → List Entity → List Entity
  unfolding crash
  player_loop [] es = es
  player_loop (p ∷ ps) es = player_loop ps (map (crash p) es)

  unfoldable pub handle_collision : Game → Game × List Datagram
  unfolding projectile_loop player_loop
  handle_collision g =
      let count = length g.entities in
      let c =
        projectile_loop g count count 0
          (record { entities = g.entities; boss = g.boss; sent = [] }) in
      (record g { entities = player_loop g.players c.entities; boss = c.boss }, c.sent)
