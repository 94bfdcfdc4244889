-- ===== src/Game/Update/Stages.antt =====
-- `Game::update` of Src/Server/Game.cpp stage by stage: what every stage keeps, the call keeps.
use rtype_ci_cd.Common.{◌≡◌, refl, List}
use rtype_ci_cd.Common.Machine.{Machine}
use rtype_ci_cd.Common.Floats
use rtype_ci_cd.Network.{Datagram}
use rtype_ci_cd.Game.Types.{Game, GameStatus}
use rtype_ci_cd.Game.Players.{broadcast_game_state}
use rtype_ci_cd.Game.Entities.{update_entities, update_game_level}
use rtype_ci_cd.Game.Collision.{handle_collision}
use rtype_ci_cd.Game.Boss.{raise_boss, boss_shoot}
use rtype_ci_cd.Game.Update.{Frame, ◌and_then◌, spawn_enemy, sync_if_due, play, update}

and_then_keeps :
    (P : Game → Type 0) (r : Game × List Datagram) (f : Game → Game × List Datagram)
    → P r.0
    → ((g : Game) → P g → P (f g).0)
    → P (r and_then f).0
and_then_keeps P r f h k = k r.0 h

-- A property of the match that each stage keeps.
pub record Kept (m : Machine) (fr : Frame) (P : Game → Type 0) : Type 0 where
  pub moved : (g : Game) → P g → P (update_entities m g).0
  pub hit : (g : Game) → P g → P (handle_collision m g).0
  pub told : (g : Game) → P g → P (broadcast_game_state m g).0
  pub aged : (g : Game) → P g → P (update_game_level m g Floats.frame_time)
  pub raised : (g : Game) → P g → P (raise_boss m g).0
  pub shot : (g : Game) → P g → P (boss_shoot m g).0
  pub spawned : (g : Game) → P g → P (spawn_enemy m fr g).0
  pub synced : (g : Game) → P g → P (sync_if_due fr g).0

play_keeps :
    (m : Machine) (fr : Frame) (P : Game → Type 0) (g : Game)
    → Kept m fr P
    → P g
    → P (play m fr g).0
unfolding play
play_keeps m fr P g k h =
    k.synced _ (k.spawned _ (k.shot _ (k.raised _ (k.aged _ (k.told _ (k.hit _ (k.moved g h)))))))

pub update_keeps :
    (m : Machine) (fr : Frame) (P : Game → Type 0) (g : Game)
    → Kept m fr P
    → P g
    → P (update m fr g).0
unfolding update
update_keeps m fr P g k h = by_status g.status refl
  where
    by_status : (s : GameStatus) → g.status ≡ s → P (update m fr g).0
    by_status GameStatus.lobby e = rw (e, update) h
    by_status GameStatus.playing e = rw (e, update) (play_keeps m fr P g k h)
