-- ===== src/RTypeClient/Packets.antt =====
-- `UDPClient::receiveMessage` of Include/Network/UDP/UDPClient.hpp, and what `RTypeClient::update` does
-- with each packet.
use rtype_ci_cd.Common.{
  ℕ, ◌+◌, ◌-◌, ◌%◌, Bool, true, false, ◌&&◌, Option, none, some, List, [], ◌∷◌, ◌++◌, length, take,
  replicate, get_or, ltb, leb, ◌==◌, if◌then◌else◌, u32,
}
use rtype_ci_cd.Common.Machine.{Machine, Float}
use rtype_ci_cd.Common.Floats
use rtype_ci_cd.Common.Maps.{find, insert, erase}
use rtype_ci_cd.Common.Strings.{Text}
use rtype_ci_cd.Protocol.Udp.MessageType
use rtype_ci_cd.Protocol.Udp.Messages.{
  PlayerInputPacket, PlayerStatePacket, EntitySpawnPacket, EntityUpdatePacket, EntityDestroyPacket,
  PlayerDisconnectPacket, PongPacket, BossStatePacket, SyncedEntityState, ping, read_player_state,
  read_entity_spawn, read_entity_update, read_entity_destroy, read_player_disconnect, read_pong,
  read_boss_state, read_count, read_states,
}
use rtype_ci_cd.RTypeClient.Types.{
  Position, at_rest, EntityState, InGameStatus, kicked, game_over, RTypeClient, Effect, send,
  explode,
}
use rtype_ci_cd.RTypeClient.Keys.{apply_input}
use rtype_ci_cd.RTypeClient.Loss.{note_state}

-- The buffer of 1024 zeroes, with the bytes that `recvfrom` wrote to it.
unfoldable pub buffer_of : List ℕ → List ℕ
buffer_of bytes = take 1024 bytes ++ replicate (1024 - length bytes) 0

-- Nothing where `recvfrom` gives no byte.
unfoldable pub receive_message : Option (List ℕ) → Option (List ℕ)
receive_message none = none
receive_message (some []) = none
receive_message (some (b ∷ bs)) = some (buffer_of (b ∷ bs))

-- `while (!empty() && front().tick <= tick) pop_front()`
unfoldable pub drop_acknowledged : ℕ → List PlayerInputPacket → List PlayerInputPacket
drop_acknowledged tick [] = []
drop_acknowledged tick (p ∷ ps) =
    let rest = drop_acknowledged tick ps in if leb p.tick tick then rest else p ∷ ps

unfoldable pub is_game_over : InGameStatus → Bool
is_game_over game_over = true
is_game_over _ = false

unfoldable pub on_entity_spawn : EntitySpawnPacket → RTypeClient → RTypeClient
on_entity_spawn p c = record c {
  entities = insert p.entity_id (record { x = p.x; y = p.y; type = p.entity_type }) c.entities;
}

unfoldable pub on_entity_update : EntityUpdatePacket → RTypeClient → RTypeClient
on_entity_update p c = elim (find p.entity_id c.entities) [
  | none ↦ c
  | some e ↦ record c { entities = insert p.entity_id (record e { x = p.x; y = p.y }) c.entities }
]

-- The points for an entity that is destroyed.
unfoldable pub reward : ℕ → ℕ
reward type = if type == 2 then 50 else if type == 3 then 100 else 0

unfoldable pub on_pong : ℕ → PongPacket → RTypeClient → RTypeClient
on_pong now p c = record c { rtt = (now + u32 - p.timestamp) % u32 }

-- The entries of the ids that the server does not use.
unfoldable pub local_entities : List (ℕ × EntityState) → List (ℕ × EntityState)
local_entities [] = []
local_entities ((id, e) ∷ es) =
    let rest = local_entities es in if leb 9999 id then (id, e) ∷ rest else rest

unfoldable pub insert_states :
    List SyncedEntityState → List (ℕ × EntityState) → List (ℕ × EntityState)
insert_states [] es = es
insert_states (s ∷ ss) es =
    insert_states ss (insert s.entity_id (record { x = s.x; y = s.y; type = s.entity_type }) es)

unfoldable pub on_global_state_sync : List SyncedEntityState → RTypeClient → RTypeClient
on_global_state_sync states c = record c {
  entities = insert_states states (local_entities c.entities);
}

unfoldable pub on_boss_state : BossStatePacket → RTypeClient → RTypeClient
on_boss_state p c = record c { boss_hp = p.hp; boss_max_hp = p.max_hp }

unfoldable pub on_kicked : RTypeClient → RTypeClient
on_kicked c = record c { status = kicked }

-- `type == t && data.size() >= size`
unfoldable pub is_packet : ℕ → ℕ → List ℕ → Bool
is_packet t size buffer = get_or buffer 0 0 == t && leb size (length buffer)

-- `PING_INTERVAL_MS`
abbrev pub ping_interval_ms : ℕ
ping_interval_ms = 1000

unfoldable pub ping_if_due : ℕ → RTypeClient → RTypeClient × List Effect
ping_if_due now c =
    if ltb ping_interval_ms ((now + u32 - c.last_ping_time) % u32)
    then (record c { last_ping_time = now }, send (ping (record { timestamp = now })) ∷ [])
    else (c, [])

module _ (m : Machine) where
  -- `for (input : _pendingInputs) applyInput(input)`
  unfoldable pub replay : ℕ → List PlayerInputPacket → List (ℕ × Position) → List (ℕ × Position)
  replay me [] players = players
  replay me (p ∷ ps) players = replay me ps (apply_input m me p.inputs players)

  unfoldable pub on_own_state : ℕ → PlayerStatePacket → RTypeClient → RTypeClient
  on_own_state now p c =
      let pending = drop_acknowledged p.last_processed_tick c.pending_inputs in
      record c {
        loss = note_state m p.sequence now c.loss;
        pending_inputs = pending;
        players = replay c.my_player_id pending (insert p.player_id (at_rest p.x p.y) c.players);
      }

  unfoldable pub vertical_speed : Float → Option Position → Float
  vertical_speed y none = Floats.zero_f
  vertical_speed y (some q) = m.sub y q.y

  unfoldable pub on_other_state : PlayerStatePacket → RTypeClient → RTypeClient
  on_other_state p c = record c {
    players =
        insert p.player_id
          (record { x = p.x; y = p.y; vy = vertical_speed p.y (find p.player_id c.players) })
          c.players;
  }

  unfoldable pub on_player_state : ℕ → PlayerStatePacket → RTypeClient → RTypeClient
  on_player_state now p c =
      if p.player_id == c.my_player_id
      then (if is_game_over c.status then c else on_own_state now p c)
      else on_other_state p c

  unfoldable pub on_entity_destroy : EntityDestroyPacket → RTypeClient → RTypeClient × List Effect
  on_entity_destroy p c =
      let left = erase p.entity_id c.entities in
      elim (find p.entity_id c.entities) [
        | none ↦ (record c { entities = left }, [])
        | some e ↦ (
          record c { entities = left; score = c.score + reward e.type },
          if m.lt Floats.minus_twenty e.x then explode e.x e.y ∷ [] else [],
        )
      ]

  unfoldable pub on_player_disconnect :
      PlayerDisconnectPacket → RTypeClient → RTypeClient × List Effect
  on_player_disconnect p c = (
    record c {
      players = erase p.player_id c.players;
      status = if p.player_id == c.my_player_id then game_over else c.status;
    },
    elim (find p.player_id c.players) [ none ↦ [] | some q ↦ explode q.x q.y ∷ [] ],
  )

  -- One round of the loop, at the time `now`. The tests are on one type byte, so that at most one holds.
  unfoldable pub handle_message : ℕ → List ℕ → RTypeClient → RTypeClient × List Effect
  handle_message now buffer c =
      if is_packet MessageType.player_state 25 buffer
      then (on_player_state now (read_player_state buffer) c, [])
      else if is_packet MessageType.entity_spawn 19 buffer
      then (on_entity_spawn (read_entity_spawn buffer) c, [])
      else if is_packet MessageType.entity_update 17 buffer
      then (on_entity_update (read_entity_update buffer) c, [])
      else if is_packet MessageType.entity_destroy 5 buffer
      then on_entity_destroy (read_entity_destroy buffer) c
      else if is_packet MessageType.player_disconnect 5 buffer
      then on_player_disconnect (read_player_disconnect buffer) c
      else if is_packet MessageType.pong 5 buffer
      then (on_pong now (read_pong buffer) c, [])
      else if is_packet MessageType.global_state_sync 5 buffer
      then (on_global_state_sync (read_states (read_count buffer) 5 buffer) c, [])
      else if get_or buffer 0 0 == MessageType.you_have_been_kicked
      then (on_kicked c, [])
      else if is_packet MessageType.boss_state 9 buffer
      then (on_boss_state (read_boss_state buffer) c, [])
      else (c, [])

  -- The loop: what `recvfrom` gives, one datagram after the other with the time it is handled at, up to
  -- its first failure, which ends the loop.
  unfoldable pub receive_loop : List (List ℕ × ℕ) → RTypeClient → RTypeClient × List Effect
  receive_loop [] c = (c, [])
  receive_loop ((bytes, now) ∷ arrivals) c = elim (receive_message (some bytes)) [
    | none ↦ (c, [])
    | some buffer ↦
        let (next, effects) = handle_message now buffer c in
        let (last, effects') = receive_loop arrivals next in (last, effects ++ effects')
  ]

  -- `messages` are those of `receiveChatMessages`.
  unfoldable pub update :
      List Text → ℕ → List (List ℕ × ℕ) → RTypeClient → RTypeClient × List Effect
  update messages now arrivals c =
      let chatted = record c { chat_history = c.chat_history ++ messages } in
      let (pinged, effects) = ping_if_due now chatted in
      let (next, effects') = receive_loop arrivals pinged in (next, effects ++ effects')
