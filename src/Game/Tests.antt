-- ===== src/Game/Tests.antt =====
-- Runs of the match of Src/Server/Game.cpp.
use rtype_ci_cd.Common.{true, ◌≡◌, refl, [], ◌∷◌, arith}
use rtype_ci_cd.Common.Int.{pos}
use rtype_ci_cd.Protocol.Udp.Messages.{boss_state}
use rtype_ci_cd.Game.Types.{to_all}
use rtype_ci_cd.Game.Samples.{machine, frame, home, alice, shot, boss, wounded, fight}
use rtype_ci_cd.Common.{ℕ, List, ◌+◌, length}
use rtype_ci_cd.Protocol.Udp.Messages.{PlayerInputPacket}
use rtype_ci_cd.Game.Players.{find_player}
use rtype_ci_cd.Game.Shots.{handle_player_input}
use rtype_ci_cd.Game.Steering.{Becomes, handle_player_input-Becomes}
use rtype_ci_cd.Game.Statistics.{Counted, latest, count_inputs, count_inputs_first-Counted}
use rtype_ci_cd.Game.Collision
use rtype_ci_cd.Game.Collision.{collided, handle_collision}
use rtype_ci_cd.Game.Collision.Marks.{Marks}
use rtype_ci_cd.Game.Collision.Loops.{handle_collision-Marks}
use rtype_ci_cd.Game.Update.{update}
use rtype_ci_cd.Game.Update.Boss.{HasBoss, update-BossInvariant}

-- The shot kills the boss: both are marked, and the level becomes 2.
handle_collision_test : handle_collision machine fight ≡ (
  record fight {
    entities = collided shot ∷ collided boss ∷ [];
    boss = record wounded { hp = pos 0; level = 2; death_time = 0x41300000 };
  },
  record { message = boss_state (record { hp = pos 0; max_hp = pos 1000 }); addr = home } ∷ [],
)
unfolding handle_collision to_all Collision.is_projectile Collision.is_target Collision.is_hazard
    Collision.damaged Collision.boss_died Collision.strike_boss Collision.check_collision
    Collision.overlap Collision.meet Collision.meet_at Collision.enemy_loop Collision.shoot_at
    Collision.projectile_loop Collision.crash Collision.player_loop
handle_collision_test = refl

handle_collision-Marks_example :
    let g' = (handle_collision machine fight).0 in
    Marks fight.entities g'.entities
    × (g' ≡ record fight { entities = g'.entities; boss = g'.boss })
handle_collision-Marks_example = handle_collision-Marks machine fight

fight-HasBoss : HasBoss 1 fight
fight-HasBoss = record {
  risen = omega arith;
  known = omega arith;
  single = ground arith;
  quiet = λ e. ground arith;
  healthy = λ _. ground arith;
  low = ground arith;
  high = ground arith;
}

update-BossInvariant_example : HasBoss 1 (update machine frame fight).0
update-BossInvariant_example = update-BossInvariant machine frame fight 1 fight-HasBoss

-- The inputs 9 and 10 are counted, and 6, 7 and 8 taken for lost.
abbrev ticks : List ℕ
ticks = 9 ∷ 7 ∷ 9 ∷ 10 ∷ []

count_inputs_first-Counted_example :
    Counted 5 (latest 5 ticks) (1 + length ticks) (count_inputs (5 ∷ ticks) alice)
count_inputs_first-Counted_example =
    count_inputs_first-Counted 5 ticks alice refl refl (omega arith)
      (omega arith, (omega arith, (omega arith, (omega arith, tt))))

-- Alice moves up and fires.
abbrev fire : PlayerInputPacket
fire = record { player_id = 4; tick = 3; inputs = 17 }

handle_player_input-Becomes_example :
    Becomes machine fire true
      (find_player 4 fight.players)
      (find_player 4 (handle_player_input machine fight fire).0.players)
handle_player_input-Becomes_example = handle_player_input-Becomes machine fight fire 4
