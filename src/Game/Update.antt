-- ===== src/Game/Update.antt =====
-- `Game::update` of Src/Server/Game.cpp.
pub mod Stages
pub mod Boss
use rtype_ci_cd.Common.{ℕ, ◌+◌, List, [], ◌++◌, ltb, leb, if◌then◌else◌}
use rtype_ci_cd.Common.Machine.{Machine}
use rtype_ci_cd.Common.Floats
use rtype_ci_cd.Network.{Datagram}
use rtype_ci_cd.Game.Types.{Game, GameStatus, to_all}
use rtype_ci_cd.Game.Players.{broadcast_game_state}
use rtype_ci_cd.Game.Shots.{create_enemy}
use rtype_ci_cd.Game.Entities.{update_entities, update_game_level, send_global_state_sync}
use rtype_ci_cd.Game.Collision.{handle_collision}
use rtype_ci_cd.Game.Boss.{raise_boss, boss_shoot}

-- What one call of `update` reads from outside: the four readings of the clock, in their order, and the
-- value of `rand()`.
pub record Frame : Type 0 where
  pub enemy_test : ℕ
  pub enemy_set : ℕ
  pub sync_test : ℕ
  pub sync_set : ℕ
  pub random : ℕ

-- Two seconds, and `GLOBAL_SYNC_INTERVAL`, in nanoseconds.
abbrev pub enemy_interval : ℕ
enemy_interval = 2_000_000_000

abbrev pub global_sync_interval : ℕ
global_sync_interval = 100_000_000

-- One statement of the method, and then the next, with what they send in order.
infixl 5 ◌and_then◌
abbrev pub ◌and_then◌ : Game × List Datagram → (Game → Game × List Datagram) → Game × List Datagram
(g, sent) and_then f = let (g', sent') = f g in (g', sent ++ sent')

unfoldable pub sync_if_due : Frame → Game → Game × List Datagram
sync_if_due fr g =
    if leb (g.last_global_sync_time + global_sync_interval) fr.sync_test
    then (record g { last_global_sync_time = fr.sync_set }, send_global_state_sync g)
    else (g, [])

module _ (m : Machine) where
  unfoldable pub spawn_enemy : Frame → Game → Game × List Datagram
  spawn_enemy fr g =
      if ltb (g.last_enemy_spawn_time + enemy_interval) fr.enemy_test
      then (let (g', sent) = create_enemy m g fr.random in
          (record g' { last_enemy_spawn_time = fr.enemy_set }, sent))
      else (g, [])

  -- The body, in a match that is being played.
  unfoldable pub play : Frame → Game → Game × List Datagram
  play fr g =
      update_entities m g
      and_then handle_collision m
      and_then broadcast_game_state m
      and_then (λ g. (update_game_level m g Floats.frame_time, []))
      and_then raise_boss m
      and_then boss_shoot m
      and_then spawn_enemy fr
      and_then sync_if_due fr

  unfoldable pub update : Frame → Game → Game × List Datagram
  update fr g = elim g.status [ GameStatus.lobby ↦ (g, []) | GameStatus.playing ↦ play fr g ]
