-- ===== src/Game/Samples.antt =====
-- A small match for the tests of Src/Server/Game.cpp, over a machine whose arithmetic is on bit
-- patterns.
use rtype_ci_cd.Common.{◌+◌, ◌-◌, ◌*◌, true, [], ◌∷◌, ltb, leb, ◌==◌}
use rtype_ci_cd.Common.Int.{pos, pos_part}
use rtype_ci_cd.Common.Machine.{Machine}
use rtype_ci_cd.Network.{SockAddr}
use rtype_ci_cd.Game.Types.{Player, new_player, Entity, new_entity, BossState, Game, GameStatus}
use rtype_ci_cd.Game.Update.{Frame}

abbrev pub machine : Machine
machine = record {
  add = λ a b. a + b;
  sub = λ a b. a - b;
  mul = λ a b. a * b;
  div = λ a b. a - b;
  lt = ltb;
  le = leb;
  eq = λ a b. a == b;
  sin = λ a. a;
  of_int = λ a. pos_part a;
  of_uint = λ a. a;
  wide = λ a. a;
  sub_double = λ a b. a - b;
  mul_double = λ a b. a * b;
  lt_double = ltb;
  to_int = pos;
  indeterminate = 77;
}

abbrev pub frame : Frame
frame = record {
  enemy_test = 5_000_000_000;
  enemy_set = 5_000_000_001;
  sync_test = 5_000_000_002;
  sync_set = 5_000_000_003;
  random = 17;
}

abbrev pub home : SockAddr
home = record { ip = 0x7f000001; port = 5353 }

abbrev pub alice : Player
alice = record (new_player 4) { addr_set = true; udp_addr = home }

-- A charged shot on the first boss, which has 50 hit points left.
abbrev pub shot : Entity
shot = new_entity 8 4 100 100 0 0 (pos 29) (pos 30)

abbrev pub boss : Entity
boss = new_entity 9 10 100 100 0 0 (pos 296) (pos 88)

abbrev pub wounded : BossState
wounded = record { hp = pos 50; level = 1; last_shoot_time = 0; death_time = 0 }

abbrev pub fight : Game
fight = record {
  players = alice ∷ [];
  entities = shot ∷ boss ∷ [];
  next_entity_id = 10;
  game_time = 0x41300000;
  last_enemy_spawn_time = 0;
  last_global_sync_time = 0;
  status = GameStatus.playing;
  boss = wounded;
}
