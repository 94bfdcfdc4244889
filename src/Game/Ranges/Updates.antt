-- ===== src/Game/Ranges/Updates.antt =====
-- The ranges through `Game::update` of Src/Server/Game.cpp, the inputs of the players, and runs of both.
use rtype_ci_cd.Common.{ℕ, ◌+◌, ◌≤◌, ◌<◌, List, [], u32, arith}
use rtype_ci_cd.Common.Machine.{Machine}
use rtype_ci_cd.Common.Floats
use rtype_ci_cd.Network.{Datagram}
use rtype_ci_cd.Game.Types.{Game, GameStatus}
use rtype_ci_cd.Game.Players.{broadcast_game_state}
use rtype_ci_cd.Game.Entities.{update_game_level}
use rtype_ci_cd.Game.Collision.{handle_collision}
use rtype_ci_cd.Game.Boss.{raise_boss, boss_shoot}
use rtype_ci_cd.Game.Update.{Frame, spawn_enemy, sync_if_due, play, update}
use rtype_ci_cd.Game.Update.Boss.{HasBoss-Kept}
use rtype_ci_cd.Game.Ranges.{IsMachine32, InRange, InRange-le, Says, Says-and_then, Says-still}
use rtype_ci_cd.Game.Ranges.Passes.{update_entities-Says, handle_collision-Says}
use rtype_ci_cd.Game.Ranges.Broadcasts.{
  broadcast_game_state-Says, update_game_level-Says, sync_if_due-Says,
}
use rtype_ci_cd.Game.Ranges.Spawns.{room_of, Grown-Says, spawn_enemy-Grown}
use rtype_ci_cd.Game.Ranges.Bosses.{raise_boss-Grown, boss_shoot-Grown}

pub Says-le : (b k : ℕ) (r : Game × List Datagram) → b ≤ k → Says b r → Says k r
Says-le b k r h s = record { state = InRange-le b k r.0 h s.state; messages = s.messages }

module _ (m : Machine) (laws : IsMachine32 m) where
  play-Says :
      (b : ℕ) (fr : Frame) (g : Game) → InRange b g → b + 5 < u32 → Says (b + 5) (play m fr g)
  unfolding play
  play-Says b fr g r small =
      let kept = HasBoss-Kept m fr 0 in
      let hit =
        Says-and_then (handle_collision m) (update_entities-Says m laws b fr g r)
          (handle_collision-Says m laws b fr) in
      let told = Says-and_then (broadcast_game_state m) hit (broadcast_game_state-Says m laws b) in
      let aged =
        Says-and_then (λ h. (update_game_level m h Floats.frame_time, [])) told
          (update_game_level-Says m laws b fr) in
      let raised = Says-and_then (raise_boss m) aged (λ h t.
        Grown-Says (b + 1) (raise_boss m h)
          (raise_boss-Grown m laws b h (room_of b h t) (omega (arith, small)))
          (kept.raised h t.boss)) in
      let shot = Says-and_then (boss_shoot m) raised (λ h t.
        Grown-Says (b + 1 + 3) (boss_shoot m h)
          (boss_shoot-Grown m laws (b + 1) h (room_of (b + 1) h t) (omega (arith, small)))
          (kept.shot h t.boss)) in
      let spawned = Says-and_then (spawn_enemy m fr) shot (λ h t.
        Grown-Says (b + 1 + 3 + 1) (spawn_enemy m fr h)
          (spawn_enemy-Grown m laws (b + 1 + 3) fr h (room_of (b + 1 + 3) h t)
            (omega (arith, small)))
          (kept.spawned h t.boss)) in
      Says-le (b + 1 + 3 + 1) (b + 5) _ (omega arith) (
        Says-and_then (sync_if_due fr) spawned
          (λ h t. sync_if_due-Says m laws (b + 1 + 3 + 1) fr h t (omega (arith, small))))

  pub update-Says :
      (b : ℕ) (fr : Frame) (g : Game) → InRange b g → b + 5 < u32 → Says (b + 5) (update m fr g)
  unfolding update
  update-Says b fr g r small = by_status g.status
    where
      by_status :
          (t : GameStatus)
          → Says (b + 5) (elim t [ GameStatus.lobby ↦ (g, []) | GameStatus.playing ↦ play m fr g ])
      by_status GameStatus.lobby = Says-still b (b + 5) g (omega arith) r
      by_status GameStatus.playing = play-Says b fr g r small
