-- ===== src/Protocol/Udp/Messages.antt =====
-- The packed structs of Include/Network/Protocole/ProtocoleUDP.hpp, each with its bytes and the cast that
-- reads it back. The `type` byte of a struct is its default; integers are little-endian.
use rtype_ci_cd.Common.{
  ℕ, zero, suc, leb, drop, ◌+◌, ◌-◌, ◌*◌, ◌%◌, List, ◌∷◌, [], ◌++◌, length, le_bytes, uint_at, u32,
  if◌then◌else◌, ltb,
}
use rtype_ci_cd.Common.Int.{ℤ, pos, negsuc}
use rtype_ci_cd.Common.Machine.{Float}
use rtype_ci_cd.Protocol.Udp.MessageType

-- The bits of an `int32_t`, and the number that they stand for.
unfoldable pub bits_of_int : ℤ → ℕ
bits_of_int (pos n) = n % u32
bits_of_int (negsuc n) = u32 - 1 - n % u32

unfoldable pub int_of_bits : ℕ → ℤ
int_of_bits w = if ltb w 0x8000_0000 then pos w else negsuc (u32 - 1 - w)

pub record PlayerInputPacket : Type 0 where
  pub player_id : ℕ
  pub tick : ℕ
  pub inputs : ℕ

pub record PlayerStatePacket : Type 0 where
  pub player_id : ℕ
  pub sequence : ℕ
  pub last_processed_tick : ℕ
  pub timestamp : ℕ
  pub x : Float
  pub y : Float

pub record EntitySpawnPacket : Type 0 where
  pub entity_id : ℕ
  pub entity_type : ℕ
  pub timestamp : ℕ
  pub x : Float
  pub y : Float

pub record EntityUpdatePacket : Type 0 where
  pub entity_id : ℕ
  pub timestamp : ℕ
  pub x : Float
  pub y : Float

pub record EntityDestroyPacket : Type 0 where
  pub entity_id : ℕ

pub record PingPacket : Type 0 where
  pub timestamp : ℕ

pub record PongPacket : Type 0 where
  pub timestamp : ℕ

pub record PlayerDisconnectPacket : Type 0 where
  pub player_id : ℕ

pub record BossStatePacket : Type 0 where
  pub hp : ℤ
  pub max_hp : ℤ

pub record SyncedEntityState : Type 0 where
  pub entity_id : ℕ
  pub entity_type : ℕ
  pub x : Float
  pub y : Float

-- What goes over the wire: a struct each, and the packet of `sendGlobalStateSync`, a header
-- `GlobalStateSyncPacket` with its `entityCount` and the states behind it.
pub data UdpMessage : Type 0 where
  player_input : PlayerInputPacket → UdpMessage
  player_state : PlayerStatePacket → UdpMessage
  entity_spawn : EntitySpawnPacket → UdpMessage
  entity_update : EntityUpdatePacket → UdpMessage
  entity_destroy : EntityDestroyPacket → UdpMessage
  ping : PingPacket → UdpMessage
  pong : PongPacket → UdpMessage
  player_disconnect : PlayerDisconnectPacket → UdpMessage
  boss_state : BossStatePacket → UdpMessage
  global_state_sync : ℕ → List SyncedEntityState → UdpMessage
  you_have_been_kicked : UdpMessage

-- `SyncedEntityState`, 14 bytes.
abbrev pub bytes_of_state : SyncedEntityState → List ℕ
bytes_of_state s =
    le_bytes 4 s.entity_id ++ (le_bytes 2 s.entity_type ++ (le_bytes 4 s.x ++ le_bytes 4 s.y))

-- The states one behind the other: the loop of `sendGlobalStateSync`.
abbrev pub bytes_of_states : List SyncedEntityState → List ℕ
bytes_of_states [] = []
bytes_of_states (s ∷ ss) = bytes_of_state s ++ bytes_of_states ss

-- The object representation of each message.
unfoldable pub bytes_of : UdpMessage → List ℕ
unfolding bits_of_int
bytes_of (player_input p) =
    MessageType.player_input
    ∷ (le_bytes 4 p.player_id ++ (le_bytes 4 p.tick ++ le_bytes 1 p.inputs))
bytes_of (player_state p) =
    MessageType.player_state
    ∷ (le_bytes 4 p.player_id
        ++ (le_bytes 4 p.sequence
            ++ (le_bytes 4 p.last_processed_tick
                ++ (le_bytes 4 p.timestamp ++ (le_bytes 4 p.x ++ le_bytes 4 p.y)))))
bytes_of (entity_spawn p) =
    MessageType.entity_spawn
    ∷ (le_bytes 4 p.entity_id
        ++ (le_bytes 2 p.entity_type
            ++ (le_bytes 4 p.timestamp ++ (le_bytes 4 p.x ++ le_bytes 4 p.y))))
bytes_of (entity_update p) =
    MessageType.entity_update
    ∷ (le_bytes 4 p.entity_id ++ (le_bytes 4 p.timestamp ++ (le_bytes 4 p.x ++ le_bytes 4 p.y)))
bytes_of (entity_destroy p) = MessageType.entity_destroy ∷ (le_bytes 4 p.entity_id)
bytes_of (ping p) = MessageType.ping ∷ (le_bytes 4 p.timestamp)
bytes_of (pong p) = MessageType.pong ∷ (le_bytes 4 p.timestamp)
bytes_of (player_disconnect p) = MessageType.player_disconnect ∷ (le_bytes 4 p.player_id)
bytes_of (boss_state p) =
    MessageType.boss_state ∷ (le_bytes 4 (bits_of_int p.hp) ++ le_bytes 4 (bits_of_int p.max_hp))
bytes_of (global_state_sync count states) =
    MessageType.global_state_sync ∷ (le_bytes 4 count ++ bytes_of_states states)
bytes_of you_have_been_kicked = MessageType.you_have_been_kicked ∷ []

-- `sizeof` of each packed struct. The sync packet has no struct: its size is `totalPacketSize`.
unfoldable pub size_of : UdpMessage → ℕ
size_of (player_input p) = 10
size_of (player_state p) = 25
size_of (entity_spawn p) = 19
size_of (entity_update p) = 17
size_of (entity_destroy p) = 5
size_of (ping p) = 5
size_of (pong p) = 5
size_of (player_disconnect p) = 5
size_of (boss_state p) = 9
size_of (global_state_sync count states) = 5 + length states * 14
size_of you_have_been_kicked = 1

-- The casts: `reinterpret_cast<const …*>(data)`.
unfoldable pub read_player_input : List ℕ → PlayerInputPacket
read_player_input bytes = record {
  player_id = uint_at 4 1 bytes;
  tick = uint_at 4 5 bytes;
  inputs = uint_at 1 9 bytes;
}

unfoldable pub read_player_state : List ℕ → PlayerStatePacket
read_player_state bytes = record {
  player_id = uint_at 4 1 bytes;
  sequence = uint_at 4 5 bytes;
  last_processed_tick = uint_at 4 9 bytes;
  timestamp = uint_at 4 13 bytes;
  x = uint_at 4 17 bytes;
  y = uint_at 4 21 bytes;
}

unfoldable pub read_entity_spawn : List ℕ → EntitySpawnPacket
read_entity_spawn bytes = record {
  entity_id = uint_at 4 1 bytes;
  entity_type = uint_at 2 5 bytes;
  timestamp = uint_at 4 7 bytes;
  x = uint_at 4 11 bytes;
  y = uint_at 4 15 bytes;
}

unfoldable pub read_entity_update : List ℕ → EntityUpdatePacket
read_entity_update bytes = record {
  entity_id = uint_at 4 1 bytes;
  timestamp = uint_at 4 5 bytes;
  x = uint_at 4 9 bytes;
  y = uint_at 4 13 bytes;
}

unfoldable pub read_entity_destroy : List ℕ → EntityDestroyPacket
read_entity_destroy bytes = record { entity_id = uint_at 4 1 bytes }

unfoldable pub read_ping : List ℕ → PingPacket
read_ping bytes = record { timestamp = uint_at 4 1 bytes }

unfoldable pub read_pong : List ℕ → PongPacket
read_pong bytes = record { timestamp = uint_at 4 1 bytes }

unfoldable pub read_player_disconnect : List ℕ → PlayerDisconnectPacket
read_player_disconnect bytes = record { player_id = uint_at 4 1 bytes }

unfoldable pub read_boss_state : List ℕ → BossStatePacket
unfolding int_of_bits
read_boss_state bytes = record {
  hp = int_of_bits (uint_at 4 1 bytes);
  max_hp = int_of_bits (uint_at 4 5 bytes);
}

-- The state at an offset of a sync packet: the cast of `data.data() + offset`.
abbrev pub cast_state : List ℕ → SyncedEntityState
cast_state p = record {
  entity_id = uint_at 4 0 p;
  entity_type = uint_at 2 4 p;
  x = uint_at 4 6 p;
  y = uint_at 4 10 p;
}

unfoldable pub read_state : ℕ → List ℕ → SyncedEntityState
read_state offset bytes = cast_state (drop offset bytes)

-- `GlobalStateSyncPacket::entityCount`.
unfoldable pub read_count : List ℕ → ℕ
read_count bytes = uint_at 4 1 bytes

-- The loop with which `RTypeClient::update` reads the states: at most `n` of them, as long as the next
-- one still lies in the packet.
unfoldable pub read_states : ℕ → ℕ → List ℕ → List SyncedEntityState
read_states zero offset bytes = []
read_states (suc n) offset bytes =
    let rest = read_states n (offset + 14) bytes in
    if leb (offset + 14) (length bytes) then read_state offset bytes ∷ rest else []
