-- ===== src/Protocol/Udp/MessageType.antt =====
-- `enum UDPMessageType` of Include/Network/Protocole/ProtocoleUDP.hpp, as its values.
use rtype_ci_cd.Common.{ℕ}

abbrev pub player_input : ℕ
player_input = 1

abbrev pub player_state : ℕ
player_state = 2

abbrev pub entity_spawn : ℕ
entity_spawn = 3

abbrev pub entity_update : ℕ
entity_update = 4

abbrev pub entity_destroy : ℕ
entity_destroy = 5

abbrev pub ping : ℕ
ping = 6

abbrev pub pong : ℕ
pong = 7

abbrev pub player_disconnect : ℕ
player_disconnect = 8

abbrev pub global_state_sync : ℕ
global_state_sync = 9

abbrev pub you_have_been_kicked : ℕ
you_have_been_kicked = 10

abbrev pub boss_state : ℕ
boss_state = 11
