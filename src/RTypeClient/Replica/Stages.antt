-- ===== src/RTypeClient/Replica/Stages.antt =====
-- `Game::update` of Src/Server/Game.cpp as a whole, and runs of a match, on the client.
use rtype_ci_cd.Common.{
  ℕ, suc, ◌+◌, ◌*◌, ◌<◌, ◌≡◌, refl, ◌∙◌, false, List, [], ◌∷◌, ◌++◌, length, u32, arith,
}
use rtype_ci_cd.Common.Machine.{Machine}
use rtype_ci_cd.Common.Floats
use rtype_ci_cd.Network.{SockAddr, Datagram}
use rtype_ci_cd.Game.Types.{Player, Game, GameStatus}
use rtype_ci_cd.Game.Players.{broadcast_game_state, add_player}
use rtype_ci_cd.Game.Entities.{update_game_level}
use rtype_ci_cd.Game.Collision.{handle_collision}
use rtype_ci_cd.Game.Boss.{raise_boss, boss_shoot}
use rtype_ci_cd.Game.Shots.{handle_player_input}
use rtype_ci_cd.Game.Update.{Frame, ◌and_then◌, spawn_enemy, sync_if_due, play, update}
use rtype_ci_cd.Game.Moves.{Move, frame, input, join, perform, run}
use rtype_ci_cd.RTypeClient.Mirror.{count_at}
use rtype_ci_cd.RTypeClient.Replica.{Sound, Follows, Follows-le, Follows-and_then}
use rtype_ci_cd.RTypeClient.Replica.Spawns.{Follows-still, spawn_enemy-Follows}
use rtype_ci_cd.RTypeClient.Replica.Inputs.{handle_player_input-Follows}
use rtype_ci_cd.RTypeClient.Replica.Passes.{
  update_entities-Follows, handle_collision-Follows, broadcast_game_state-Follows,
  update_game_level-Follows, sync_if_due-Follows,
}
use rtype_ci_cd.RTypeClient.Replica.Bosses.{raise_boss-Follows, boss_shoot-Follows}

module _ (m : Machine) (a : SockAddr) where
  -- One more stage.
  and_then-Follows :
      {b k : ℕ} {g : Game} {r : Game × List Datagram} (f : Game → Game × List Datagram)
      → Follows m a b g r
      → ((h : Game) → Sound a b h → Follows m a k h (f h))
      → Follows m a k g (r and_then f)
  and_then-Follows {b} {k} {g} {r} f h next = Follows-and_then m a b k g r f h (next r.0 h.sound)

  -- A frame gives the match at most five entities: a boss, three shots of it and an enemy.
  play-Follows :
      (b : ℕ) (fr : Frame) (g : Game)
      → Sound a b g
      → b + 5 < u32
      → Follows m a (b + 5) g (play m fr g)
  unfolding play
  play-Follows b fr g s small =
      let hit =
        and_then-Follows (handle_collision m) (update_entities-Follows m a b g s)
          (handle_collision-Follows m a b) in
      let told =
        and_then-Follows (broadcast_game_state m) hit (broadcast_game_state-Follows m a b) in
      let aged =
        and_then-Follows (λ h. (update_game_level m h Floats.frame_time, [])) told
          (λ h t. update_game_level-Follows m a b h Floats.frame_time t) in
      let raised =
        and_then-Follows (raise_boss m) aged
          (λ h t. raise_boss-Follows m a b h t (omega (arith, small))) in
      let shot =
        and_then-Follows (boss_shoot m) raised
          (λ h t. boss_shoot-Follows m a (b + 1) h t (omega (arith, small))) in
      let spawned =
        and_then-Follows (spawn_enemy m fr) shot
          (λ h t. spawn_enemy-Follows m a (b + 1 + 3) fr h t (omega (arith, small))) in
      Follows-le m a (b + 1 + 3 + 1) (b + 5) g _ (omega arith)
        (and_then-Follows (sync_if_due fr) spawned (sync_if_due-Follows m a (b + 1 + 3 + 1) fr))

  update-Follows :
      (b : ℕ) (fr : Frame) (g : Game)
      → Sound a b g
      → b + 5 < u32
      → Follows m a (b + 5) g (update m fr g)
  unfolding update
  update-Follows b fr g s small = by_status g.status
    where
      by_status :
          (t : GameStatus)
          → Follows m a
              (b + 5)
              g
              (elim t [ GameStatus.lobby ↦ (g, []) | GameStatus.playing ↦ play m fr g ])
      by_status GameStatus.lobby = Follows-still m a b (b + 5) g s (omega arith)
      by_status GameStatus.playing = play-Follows b fr g s small

module _ (m : Machine) (a : SockAddr) where
  count_at-append :
      (ps : List Player) (p : Player)
      → p.addr_set ≡ false
      → count_at a (ps ++ p ∷ []) ≡ count_at a ps
  count_at-append [] p h = ground (arith, h)
  count_at-append (q ∷ ps) p h = ground (arith, h, count_at-append ps p h)

  perform-Follows :
      (b : ℕ) (mv : Move) (g : Game)
      → Sound a b g
      → b + 5 < u32
      → Follows m a (b + 5) g (perform m mv g)
  unfolding add_player
  perform-Follows b (frame fr) g s small = update-Follows m a b fr g s small
  perform-Follows b (input pkt) g s small =
      Follows-le m a (b + 2) (b + 5) g (handle_player_input m g pkt) (omega arith)
        (handle_player_input-Follows m a b g pkt s (omega (arith, small)))
  perform-Follows b (join id name) g s small = record {
    sound = record {
      once = count_at-append g.players _ refl ∙ s.once;
      distinct = s.distinct;
      below = s.below;
      bounded = omega (arith, s.bounded);
    };
    mirrors = λ now c shown. shown;
  }

  pub run-Follows :
      (b : ℕ) (mvs : List Move) (g : Game)
      → Sound a b g
      → b + 5 * length mvs < u32
      → Follows m a (b + 5 * length mvs) g (run m mvs g)
  run-Follows b [] g s small = Follows-still m a b (b + 5 * 0) g s (omega arith)
  run-Follows b (mv ∷ mvs) g s small =
      let one = perform-Follows b mv g s (omega (arith, small)) in
      let all =
        Follows-and_then m a (b + 5) (b + 5 + 5 * length mvs) g (perform m mv g) (run m mvs) one
          (run-Follows (b + 5) mvs (perform m mv g).0 one.sound (omega (arith, small))) in
      Follows-le m a (b + 5 + 5 * length mvs) (b + 5 * suc (length mvs)) g _ (omega arith) all
