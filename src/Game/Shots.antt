-- ===== src/Game/Shots.antt =====
-- What players and time put into the match: the shots, the enemies and the handling of an input packet
-- of Src/Server/Game.cpp.
use rtype_ci_cd.Common.{
  ℕ, ◌+◌, ◌-◌, ◌%◌, Bool, true, false, none, some, List, [], ◌∷◌, ◌++◌, ltb, if◌then◌else◌, u32,
  u64,
}
use rtype_ci_cd.Common.Int.{ℤ, pos}
use rtype_ci_cd.Common.Machine.{Machine, Float}
use rtype_ci_cd.Common.Floats
use rtype_ci_cd.Network.{Datagram}
use rtype_ci_cd.Protocol.Udp.{Input, has_input}
use rtype_ci_cd.Protocol.Udp.Messages.{PlayerInputPacket, entity_spawn}
use rtype_ci_cd.Game.Types.{Player, new_entity, Game, to_all}
use rtype_ci_cd.Game.Players.{get_player, update_player, set_player_last_processed_tick}

-- The packet statistics of `handlePlayerInput`. A packet that comes late or twice is not counted.
unfoldable pub count_input : ℕ → Player → Player
count_input tick p =
    if p.first_input_received
    then record p { last_input_tick = tick; received_inputs = 1; first_input_received = false }
    else if ltb p.last_input_tick tick
    then record p {
      lost_inputs = (p.lost_inputs + (tick - p.last_input_tick - 1)) % u64;
      received_inputs = (p.received_inputs + 1) % u64;
      last_input_tick = tick;
    }
    else p

unfoldable pub shoot_if : Bool → (Game → ℕ → Game × List Datagram) → Game → ℕ → Game × List Datagram
shoot_if true shot g id = shot g id
shoot_if false shot g id = (g, [])

module _ (m : Machine) where
  open m use {add, sub, lt, of_int, indeterminate}

  -- `_nextEntityId++`, `push_back` of the entity and the announcement to every player.
  unfoldable pub spawn : Game → ℕ → Float → Float → Float → Float → ℤ → ℤ → Game × List Datagram
  spawn g type x y velocity_x velocity_y height width =
      let id = g.next_entity_id in
      (
        record g {
          next_entity_id = (id + 1) % u32;
          entities = g.entities ++ new_entity id type x y velocity_x velocity_y height width ∷ [];
        },
        to_all g.players (
            entity_spawn (record {
              entity_id = id;
              entity_type = type;
              timestamp = indeterminate;
              x = x;
              y = y;
            })),
      )

  unfoldable pub create_player_shot : Game → ℕ → Game × List Datagram
  create_player_shot g id = elim (get_player g id) [
    | none ↦ (g, [])
    | some p ↦ spawn g 1 (add p.x Floats.twenty_five) p.y Floats.ten Floats.zero_f (pos 10) (pos 5)
  ]

  unfoldable pub create_player_charged_shot : Game → ℕ → Game × List Datagram
  create_player_charged_shot g id = elim (get_player g id) [
    | none ↦ (g, [])
    | some p ↦
        spawn g 4 (add p.x Floats.twenty_five) p.y Floats.twelve Floats.zero_f (pos 29) (pos 30)
  ]

  -- `random` is the value of `rand()`.
  unfoldable pub create_enemy : Game → ℕ → Game × List Datagram
  create_enemy g random =
      let y = of_int (pos (random % 1000 + 40)) in
      if lt Floats.thirty g.game_time
      then spawn g 3 Floats.nineteen_twenty y Floats.minus_eight Floats.zero_f (pos 40) (pos 40)
      else spawn g 2 Floats.nineteen_twenty y Floats.minus_five Floats.zero_f (pos 32) (pos 32)

  -- The four directions, one after the other.
  unfoldable pub move : ℕ → Player → Player
  move inputs p =
      let y1 = if has_input inputs Input.up then sub p.y p.velocity else p.y in
      let y2 = if has_input inputs Input.down then add y1 p.velocity else y1 in
      let x1 = if has_input inputs Input.left then sub p.x p.velocity else p.x in
      let x2 = if has_input inputs Input.right then add x1 p.velocity else x1 in
      record p { x = x2; y = y2 }

  unfoldable pub handle_player_input : Game → PlayerInputPacket → Game × List Datagram
  handle_player_input g pkt = elim (get_player g pkt.player_id) [
    | none ↦ (g, [])
    | some _ ↦
        let counted = record g {
          players = update_player pkt.player_id (count_input pkt.tick) g.players;
        } in
        let ticked = set_player_last_processed_tick counted pkt.player_id pkt.tick in
        let moved = record ticked {
          players = update_player pkt.player_id (move pkt.inputs) ticked.players;
        } in
        let (shot, sent) =
          shoot_if (has_input pkt.inputs Input.pressed) create_player_shot moved pkt.player_id in
        let (charged, sent') =
          shoot_if (has_input pkt.inputs Input.hold) create_player_charged_shot shot
            pkt.player_id in
        (charged, sent ++ sent')
  ]
