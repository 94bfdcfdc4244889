-- ===== src/Game/Types.antt =====
-- The state of a match: Include/Server/Game.hpp, with the boss state of the static maps of
-- Src/Server/Game.cpp.
use rtype_ci_cd.Common.{ℕ, Bool, true, false, List, [], ◌∷◌, if◌then◌else◌}
use rtype_ci_cd.Common.Int.{ℤ, pos}
use rtype_ci_cd.Common.Machine.{Float}
use rtype_ci_cd.Common.Floats.{zero_f, five, two_hundred_25, four_hundred}
use rtype_ci_cd.Network.{SockAddr, Datagram}
use rtype_ci_cd.Protocol.Udp.Messages.{UdpMessage}

-- `struct Player`. `username` holds the characters before the terminating zero.
pub record Player : Type 0 where
  pub id : ℕ
  pub username : List ℕ
  pub x : Float
  pub y : Float
  pub velocity : Float
  pub udp_addr : SockAddr
  pub last_processed_tick : ℕ
  pub addr_set : Bool
  pub last_input_tick : ℕ
  pub received_inputs : ℕ
  pub lost_inputs : ℕ
  pub first_input_received : Bool
  pub state_packet_sequence : ℕ
  pub height : ℤ
  pub width : ℤ

-- `Player{ .id = id }`, with the default member initialisers, and zero where there is none.
abbrev pub new_player : ℕ → Player
new_player id = record {
  id = id;
  username = [];
  x = four_hundred;
  y = two_hundred_25;
  velocity = five;
  udp_addr = record { ip = 0; port = 0 };
  last_processed_tick = 0;
  addr_set = false;
  last_input_tick = 0;
  received_inputs = 0;
  lost_inputs = 0;
  first_input_received = true;
  state_packet_sequence = 0;
  height = pos 17;
  width = pos 33;
}

-- `struct Entity`.
pub record Entity : Type 0 where
  pub id : ℕ
  pub type : ℕ
  pub x : Float
  pub y : Float
  pub velocity_x : Float
  pub velocity_y : Float
  pub height : ℤ
  pub width : ℤ
  pub is_collide : Bool

-- The aggregate that `push_back` is given: `is_collide` has its default.
abbrev pub new_entity : ℕ → ℕ → Float → Float → Float → Float → ℤ → ℤ → Entity
new_entity id type x y velocity_x velocity_y height width = record {
  id = id;
  type = type;
  x = x;
  y = y;
  velocity_x = velocity_x;
  velocity_y = velocity_y;
  height = height;
  width = width;
  is_collide = false;
}

pub data GameStatus : Type 0 where
  lobby playing : GameStatus

-- The entries of `g_bossHP`, `g_bossLevel`, `g_lastBossShootTime` and `g_bossDeathTime` for one game.
pub record BossState : Type 0 where
  pub hp : ℤ
  pub level : ℕ
  pub last_shoot_time : Float
  pub death_time : Float

-- What `operator[]` of the maps gives where there is no entry.
abbrev pub no_boss : BossState
no_boss = record { hp = pos 0; level = 0; last_shoot_time = zero_f; death_time = zero_f }

-- `class Game`. Times of `steady_clock` are in nanoseconds.
pub record Game : Type 0 where
  pub players : List Player
  pub entities : List Entity
  pub next_entity_id : ℕ
  pub game_time : Float
  pub last_enemy_spawn_time : ℕ
  pub last_global_sync_time : ℕ
  pub status : GameStatus
  pub boss : BossState

-- A new `Game` whose address has the given entries in the static maps.
unfoldable pub new_game : BossState → ℕ → Game
new_game boss now = record {
  players = [];
  entities = [];
  next_entity_id = 1;
  game_time = zero_f;
  last_enemy_spawn_time = now;
  last_global_sync_time = now;
  status = GameStatus.lobby;
  boss = boss;
}

-- `for (destPlayer : _players) if (destPlayer.addrSet) queueMessage(message, destPlayer.udpAddr)`.
unfoldable pub to_all : List Player → UdpMessage → List Datagram
to_all [] message = []
to_all (p ∷ ps) message =
    if p.addr_set
    then record { message = message; addr = p.udp_addr } ∷ to_all ps message
    else to_all ps message
