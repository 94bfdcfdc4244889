-- ===== src/Protocol/Udp/Roundtrip.antt =====
-- What is read from a packet is what was put into it.
use rtype_ci_cd.Common.{ℕ, ◌<◌, ◌≡◌, refl, sym, subst, List, ◌++◌, length, uint_at, u32, arith}
use rtype_ci_cd.Protocol.Udp.Messages.{
  PlayerInputPacket, PlayerStatePacket, EntitySpawnPacket, EntityUpdatePacket, EntityDestroyPacket,
  PingPacket, PongPacket, PlayerDisconnectPacket, BossStatePacket, SyncedEntityState, UdpMessage,
  global_state_sync, you_have_been_kicked, player_input, player_state, entity_spawn, entity_update,
  entity_destroy, ping, pong, player_disconnect, boss_state, bytes_of, size_of, read_count,
  read_states, read_player_input, read_player_state, read_entity_spawn, read_entity_update,
  read_entity_destroy, read_ping, read_pong, read_player_disconnect, read_boss_state,
}
use rtype_ci_cd.Protocol.Udp.MessageType
use rtype_ci_cd.Protocol.Udp.Sync.{StatesFit, length-bytes_of_states, read_states-bytes_of}
use rtype_ci_cd.Protocol.Udp.Integers.{
  IsInt32, uint8-roundtrip, uint16-roundtrip, uint32-roundtrip, int32-roundtrip,
}

-- Each field lies in the range of its type.
abbrev pub Fits : UdpMessage → Type 0
Fits (player_input p) = (p.player_id < u32) × (p.tick < u32) × (p.inputs < 256)
Fits (player_state p) =
    (p.player_id < u32)
    × (p.sequence < u32)
    × (p.last_processed_tick < u32)
    × (p.timestamp < u32)
    × (p.x < u32)
    × (p.y < u32)
Fits (entity_spawn p) =
    (p.entity_id < u32) × (p.entity_type < 65536) × (p.timestamp < u32) × (p.x < u32) × (p.y < u32)
Fits (entity_update p) = (p.entity_id < u32) × (p.timestamp < u32) × (p.x < u32) × (p.y < u32)
Fits (entity_destroy p) = (p.entity_id < u32)
Fits (ping p) = (p.timestamp < u32)
Fits (pong p) = (p.timestamp < u32)
Fits (player_disconnect p) = (p.player_id < u32)
Fits (boss_state p) = IsInt32 p.hp × IsInt32 p.max_hp
Fits (global_state_sync count states) =
    (count ≡ length states) × (length states < u32) × StatesFit states
Fits you_have_been_kicked = Unit

pub read_player_input-bytes_of :
    (p : PlayerInputPacket) (rest : List ℕ)
    → Fits (player_input p)
    → read_player_input (bytes_of (player_input p) ++ rest) ≡ p
unfolding read_player_input bytes_of
read_player_input-bytes_of p rest h = λ i. record {
  player_id = uint32-roundtrip p.player_id h.0 i;
  tick = uint32-roundtrip p.tick h.1 i;
  inputs = uint8-roundtrip p.inputs h.2 i;
}

pub read_player_state-bytes_of :
    (p : PlayerStatePacket) (rest : List ℕ)
    → Fits (player_state p)
    → read_player_state (bytes_of (player_state p) ++ rest) ≡ p
unfolding read_player_state bytes_of
read_player_state-bytes_of p rest h = λ i. record {
  player_id = uint32-roundtrip p.player_id h.0 i;
  sequence = uint32-roundtrip p.sequence h.1 i;
  last_processed_tick = uint32-roundtrip p.last_processed_tick h.2 i;
  timestamp = uint32-roundtrip p.timestamp h.3 i;
  x = uint32-roundtrip p.x h.4 i;
  y = uint32-roundtrip p.y h.5 i;
}

pub read_entity_spawn-bytes_of :
    (p : EntitySpawnPacket) (rest : List ℕ)
    → Fits (entity_spawn p)
    → read_entity_spawn (bytes_of (entity_spawn p) ++ rest) ≡ p
unfolding read_entity_spawn bytes_of
read_entity_spawn-bytes_of p rest h = λ i. record {
  entity_id = uint32-roundtrip p.entity_id h.0 i;
  entity_type = uint16-roundtrip p.entity_type h.1 i;
  timestamp = uint32-roundtrip p.timestamp h.2 i;
  x = uint32-roundtrip p.x h.3 i;
  y = uint32-roundtrip p.y h.4 i;
}

pub read_entity_update-bytes_of :
    (p : EntityUpdatePacket) (rest : List ℕ)
    → Fits (entity_update p)
    → read_entity_update (bytes_of (entity_update p) ++ rest) ≡ p
unfolding read_entity_update bytes_of
read_entity_update-bytes_of p rest h = λ i. record {
  entity_id = uint32-roundtrip p.entity_id h.0 i;
  timestamp = uint32-roundtrip p.timestamp h.1 i;
  x = uint32-roundtrip p.x h.2 i;
  y = uint32-roundtrip p.y h.3 i;
}

pub read_entity_destroy-bytes_of :
    (p : EntityDestroyPacket) (rest : List ℕ)
    → Fits (entity_destroy p)
    → read_entity_destroy (bytes_of (entity_destroy p) ++ rest) ≡ p
unfolding read_entity_destroy bytes_of
read_entity_destroy-bytes_of p rest h = λ i. record { entity_id = uint32-roundtrip p.entity_id h i }

pub read_ping-bytes_of :
    (p : PingPacket) (rest : List ℕ) → Fits (ping p) → read_ping (bytes_of (ping p) ++ rest) ≡ p
unfolding read_ping bytes_of
read_ping-bytes_of p rest h = λ i. record { timestamp = uint32-roundtrip p.timestamp h i }

pub read_pong-bytes_of :
    (p : PongPacket) (rest : List ℕ) → Fits (pong p) → read_pong (bytes_of (pong p) ++ rest) ≡ p
unfolding read_pong bytes_of
read_pong-bytes_of p rest h = λ i. record { timestamp = uint32-roundtrip p.timestamp h i }

pub read_player_disconnect-bytes_of :
    (p : PlayerDisconnectPacket) (rest : List ℕ)
    → Fits (player_disconnect p)
    → read_player_disconnect (bytes_of (player_disconnect p) ++ rest) ≡ p
unfolding read_player_disconnect bytes_of
read_player_disconnect-bytes_of p rest h =
    λ i. record { player_id = uint32-roundtrip p.player_id h i }

pub read_boss_state-bytes_of :
    (p : BossStatePacket) (rest : List ℕ)
    → Fits (boss_state p)
    → read_boss_state (bytes_of (boss_state p) ++ rest) ≡ p
unfolding read_boss_state bytes_of
read_boss_state-bytes_of p rest h =
    λ i. record { hp = int32-roundtrip p.hp h.0 i; max_hp = int32-roundtrip p.max_hp h.1 i }

-- Reading the packet as the struct that its type byte names gives the message back.
abbrev pub ReadsBack : UdpMessage → List ℕ → Type 0
ReadsBack (player_input p) bytes =
    (uint_at 1 0 bytes ≡ MessageType.player_input) × (read_player_input bytes ≡ p)
ReadsBack (player_state p) bytes =
    (uint_at 1 0 bytes ≡ MessageType.player_state) × (read_player_state bytes ≡ p)
ReadsBack (entity_spawn p) bytes =
    (uint_at 1 0 bytes ≡ MessageType.entity_spawn) × (read_entity_spawn bytes ≡ p)
ReadsBack (entity_update p) bytes =
    (uint_at 1 0 bytes ≡ MessageType.entity_update) × (read_entity_update bytes ≡ p)
ReadsBack (entity_destroy p) bytes =
    (uint_at 1 0 bytes ≡ MessageType.entity_destroy) × (read_entity_destroy bytes ≡ p)
ReadsBack (ping p) bytes = (uint_at 1 0 bytes ≡ MessageType.ping) × (read_ping bytes ≡ p)
ReadsBack (pong p) bytes = (uint_at 1 0 bytes ≡ MessageType.pong) × (read_pong bytes ≡ p)
ReadsBack (player_disconnect p) bytes =
    (uint_at 1 0 bytes ≡ MessageType.player_disconnect) × (read_player_disconnect bytes ≡ p)
ReadsBack (boss_state p) bytes =
    (uint_at 1 0 bytes ≡ MessageType.boss_state) × (read_boss_state bytes ≡ p)
ReadsBack (global_state_sync count states) bytes =
    (uint_at 1 0 bytes ≡ MessageType.global_state_sync)
    × (read_count bytes ≡ count)
    × (read_states (read_count bytes) 5 bytes ≡ states)
ReadsBack you_have_been_kicked bytes = uint_at 1 0 bytes ≡ MessageType.you_have_been_kicked

abbrev ReadsSync : List SyncedEntityState → List ℕ → ℕ → Type 0
ReadsSync states rest count =
    let bytes = bytes_of (global_state_sync count states) ++ rest in
    (read_count bytes ≡ count) × (read_states (read_count bytes) 5 bytes ≡ states)

-- A message whose fields lie in the ranges of their types takes as many bytes as `sizeof` of its struct in
-- Include/Network/Protocole/ProtocoleUDP.hpp, where a player state has a sequence number that
-- Document/rfc.txt leaves out, and is read back from them whatever follows: the type byte names its struct,
-- and the cast (for a sync packet the reading loop) gives every field and every state again.
pub bytes_of-ReadsBack :
    (m : UdpMessage) (rest : List ℕ)
    → Fits m
    → (length (bytes_of m) ≡ size_of m) × ReadsBack m (bytes_of m ++ rest)
unfolding bytes_of size_of
bytes_of-ReadsBack (player_input p) rest h = (refl, (refl, read_player_input-bytes_of p rest h))
bytes_of-ReadsBack (player_state p) rest h = (refl, (refl, read_player_state-bytes_of p rest h))
bytes_of-ReadsBack (entity_spawn p) rest h = (refl, (refl, read_entity_spawn-bytes_of p rest h))
bytes_of-ReadsBack (entity_update p) rest h = (refl, (refl, read_entity_update-bytes_of p rest h))
bytes_of-ReadsBack (entity_destroy p) rest h = (refl, (refl, read_entity_destroy-bytes_of p rest h))
bytes_of-ReadsBack (ping p) rest h = (refl, (refl, read_ping-bytes_of p rest h))
bytes_of-ReadsBack (pong p) rest h = (refl, (refl, read_pong-bytes_of p rest h))
bytes_of-ReadsBack (player_disconnect p) rest h =
    (refl, (refl, read_player_disconnect-bytes_of p rest h))
bytes_of-ReadsBack (boss_state p) rest h = (refl, (refl, read_boss_state-bytes_of p rest h))
bytes_of-ReadsBack (global_state_sync count states) rest h =
    let read = subst (ReadsSync states rest) (sym h.0) (read_states-bytes_of states rest h.2 h.1) in
    (omega (arith, length-bytes_of_states states), (refl, read.0, read.1))
bytes_of-ReadsBack you_have_been_kicked rest h = (refl, refl)
