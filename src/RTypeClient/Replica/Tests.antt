-- ===== src/RTypeClient/Replica/Tests.antt =====
-- A run of a match with a client of Src/Client/RTypeClient.cpp that mirrors it.
use rtype_ci_cd.Common.{◌+◌, ◌-◌, ◌*◌, ◌%◌, u32, refl, false, List, [], ◌∷◌, arith}
use rtype_ci_cd.Common.Machine.{Machine}
use rtype_ci_cd.Common.Maps.{find}
use rtype_ci_cd.Protocol.Udp.Messages.{size_of}
use rtype_ci_cd.Game.Types.{to_all}
use rtype_ci_cd.Game.Players.{
  get_player, find_player, update_player, set_player_last_processed_tick, raise_tick, add_player,
  copy_username, broadcast_game_state, broadcast_loop,
}
use rtype_ci_cd.Game.Shots.{
  handle_player_input, count_input, move, shoot_if, create_player_shot, create_player_charged_shot,
  spawn, create_enemy,
}
use rtype_ci_cd.Protocol.Udp.{has_input, mask}
use rtype_ci_cd.Game.Update.{update, play, spawn_enemy, sync_if_due}
use rtype_ci_cd.Game.Entities.{
  update_entities, update_entities_loop, is_gone, advance, update_game_level, wave, steer_boss,
  send_global_state_sync, synced,
}
use rtype_ci_cd.Game.Collision.{
  handle_collision, projectile_loop, shoot_at, is_projectile, enemy_loop, meet_at, meet, is_target,
  overlap, check_collision, strike_boss, damaged, boss_died, player_loop, crash, is_hazard,
}
use rtype_ci_cd.Game.Boss.{
  raise_boss, spawn_boss, both_to_all, boss_shoot, find_boss, boss_fire, offsets, volley,
}
use rtype_ci_cd.Common.Int.{◌-ℤ◌, pos_part}
use rtype_ci_cd.Game.Samples.{machine, home, fight}
use rtype_ci_cd.Game.Samples as Samples
use rtype_ci_cd.RTypeClient.Types.{RTypeClient, new_client}
use rtype_ci_cd.RTypeClient.Packets.{receive_loop}
use rtype_ci_cd.RTypeClient.Wire.{datagrams}
use rtype_ci_cd.RTypeClient.Mirror.{Mirrors, received_by}
use rtype_ci_cd.Game.Ranges.{IsMachine32, InRange, AllInRange}
use rtype_ci_cd.Game.Ranges.Inputs.{run-InRange}
use rtype_ci_cd.RTypeClient.Replica.{Sound}
use rtype_ci_cd.Game.Moves.{Move, frame, input, join, run}
use rtype_ci_cd.RTypeClient.Replica.Runs.{AllSmall, run-Mirrors}

-- A shot, a player that joins, and a frame.
abbrev moves : List Move
moves =
    input (record { player_id = 4; tick = 6; inputs = 16 }) ∷ join 7 [] ∷ frame Samples.frame ∷ []

abbrev client : RTypeClient
client = record (new_client 4 5000 [] 0 false) {
  entities =
      (8, record { x = 100; y = 100; type = 4 }) ∷ (9, record { x = 100; y = 100; type = 10 }) ∷ [];
}

fight-Sound : Sound home 10 fight
fight-Sound = record {
  once = refl;
  distinct = (refl, (refl, tt));
  below = omega arith;
  bounded = omega arith;
}

client-Mirrors : Mirrors fight.entities client.entities
unfolding find new_client
client-Mirrors i = ground arith

-- The arithmetic of `machine`, cut to 32 bits.
abbrev machine32 : Machine
machine32 = record machine {
  add = λ a b. (a + b) % u32;
  sub = λ a b. (a - b) % u32;
  mul = λ a b. (a * b) % u32;
  of_int = λ a. pos_part a % u32;
}

moves-AllSmall : AllSmall (received_by home (run machine32 moves fight).1)
unfolding to_all get_player find_player update_player set_player_last_processed_tick raise_tick
    add_player copy_username broadcast_game_state broadcast_loop handle_player_input count_input
    move shoot_if create_player_shot create_player_charged_shot spawn create_enemy has_input mask
    update play spawn_enemy sync_if_due update_entities update_entities_loop is_gone advance
    update_game_level wave steer_boss send_global_state_sync synced handle_collision projectile_loop
    shoot_at is_projectile enemy_loop meet_at meet is_target overlap check_collision strike_boss
    damaged boss_died player_loop crash is_hazard raise_boss spawn_boss both_to_all boss_shoot
    find_boss boss_fire offsets volley ◌-ℤ◌ size_of
moves-AllSmall = omega arith

machine32-IsMachine32 : IsMachine32 machine32
machine32-IsMachine32 = record {
  add_lt = λ a b. omega arith;
  sub_lt = λ a b. omega arith;
  mul_lt = λ a b. omega arith;
  of_int_lt = λ a. omega arith;
  indeterminate_lt = omega arith;
}

fight-InRange : InRange 10 fight
fight-InRange = record {
  players = omega arith;
  entities = omega arith;
  times = omega arith;
  count = omega arith;
  bounded = omega arith;
  boss = record {
    risen = omega arith;
    known = omega arith;
    single = omega arith;
    quiet = λ h. cc;
    healthy = λ h. omega arith;
    low = omega arith;
    high = omega arith;
  };
}

run-InRange_example :
    InRange (10 + 5 * 3) (run machine32 moves fight).0 × AllInRange (run machine32 moves fight).1
run-InRange_example =
    run-InRange machine32 machine32-IsMachine32 10 moves fight (omega arith) fight-InRange
      (omega arith)

run-Mirrors_example :
    let last = run machine32 moves fight in
    InRange (10 + 5 * 3) last.0
    × Sound home (10 + 5 * 3) last.0
    × Mirrors last.0.entities
        (receive_loop machine32
          (datagrams machine32 8000 (received_by home last.1))
          client).0.entities
run-Mirrors_example =
    run-Mirrors machine32 machine32-IsMachine32 home 10 moves fight 8000 client (omega arith)
      fight-InRange fight-Sound (omega arith) moves-AllSmall client-Mirrors
