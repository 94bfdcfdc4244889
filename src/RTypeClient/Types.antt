-- ===== src/RTypeClient/Types.antt =====
-- The state of the client: `GameState`, and the members of `RTypeClient`.
use rtype_ci_cd.Common.{ℕ, Bool, true, false, List, []}
use rtype_ci_cd.Common.Int.{ℤ, pos}
use rtype_ci_cd.Common.Machine.{Float}
use rtype_ci_cd.Common.Floats.{zero_f}
use rtype_ci_cd.Common.Strings.{Text}
use rtype_ci_cd.Protocol.Udp.Messages.{PlayerInputPacket, UdpMessage}

pub record Position : Type 0 where
  pub x : Float
  pub y : Float
  pub vy : Float

-- `{x, y}`: the velocity has its default.
abbrev pub at_rest : Float → Float → Position
at_rest x y = record { x = x; y = y; vy = zero_f }

pub record EntityState : Type 0 where
  pub x : Float
  pub y : Float
  pub type : ℕ

pub data InGameStatus : Type 0 where
  playing paused options quitting kicked game_over victory : InGameStatus

pub data PacketStatus : Type 0 where
  received lost : PacketStatus

pub record PacketEvent : Type 0 where
  pub status : PacketStatus
  pub timestamp : ℕ

-- The members for the packet loss: `_lastServerSeq`, `_isFirstServerPacket`, `_packetEvents` and
-- `_packetLossPercentage`.
pub record LossStats : Type 0 where
  pub last_server_seq : ℕ
  pub is_first_server_packet : Bool
  pub packet_events : List PacketEvent
  pub packet_loss_percentage : Float

-- `_gameState` is `my_player_id`, `players`, `entities` and `rtt`; its maps are kept by key. `charge_start`
-- and `is_charging` are the static locals of `handleInput`. The score, an `int`, grows by at most 100 a
-- packet; its overflow at 2 ^ 31 is left out.
pub record RTypeClient : Type 0 where
  pub my_player_id : ℕ
  pub players : List (ℕ × Position)
  pub entities : List (ℕ × EntityState)
  pub rtt : ℕ
  pub tick : ℕ
  pub keybinds : List (Text × ℤ)
  pub status : InGameStatus
  pub pending_inputs : List PlayerInputPacket
  pub last_ping_time : ℕ
  pub is_chat_active : Bool
  pub chat_input : Text
  pub chat_history : List Text
  pub score : ℕ
  pub last_score_increase_time : ℕ
  pub loss : LossStats
  pub boss_hp : ℤ
  pub boss_max_hp : ℤ
  pub charge_start : ℕ
  pub is_charging : Bool

-- What the client does outside itself: a packet of `_udpClient.sendMessage`, a message of
-- `_tcpClient.sendChatMessage`, and `_renderer.addExplosion`.
pub data Effect : Type 0 where
  send : UdpMessage → Effect
  send_chat : Text → Effect
  explode : Float → Float → Effect

-- The members after the constructor, with the values of the handshake. The static locals keep what an
-- earlier client left.
unfoldable pub new_client : ℕ → ℕ → List (Text × ℤ) → ℕ → Bool → RTypeClient
new_client player_id server_time_ms keybinds charge_start is_charging = record {
  my_player_id = player_id;
  players = [];
  entities = [];
  rtt = 0;
  tick = server_time_ms;
  keybinds = keybinds;
  status = playing;
  pending_inputs = [];
  last_ping_time = 0;
  is_chat_active = false;
  chat_input = [];
  chat_history = [];
  score = 0;
  last_score_increase_time = 0;
  loss = record {
    last_server_seq = 0;
    is_first_server_packet = true;
    packet_events = [];
    packet_loss_percentage = zero_f;
  };
  boss_hp = pos 0;
  boss_max_hp = pos 1000;
  charge_start = charge_start;
  is_charging = is_charging;
}
