-- ===== src/Game/Entities.antt =====
-- The loops of Src/Server/Game.cpp over the entities: motion and removal, the movement patterns of the
-- level, and the full synchronisation.
use rtype_ci_cd.Common.{
  ℕ, ◌%◌, Bool, ◌&&◌, ◌||◌, List, [], ◌∷◌, ◌++◌, length, map, ◌==◌, if◌then◌else◌, u32,
}
use rtype_ci_cd.Common.Machine.{Machine, Float}
use rtype_ci_cd.Common.Floats
use rtype_ci_cd.Network.{Datagram}
use rtype_ci_cd.Protocol.Udp.Messages.{
  SyncedEntityState, entity_update, entity_destroy, global_state_sync,
}
use rtype_ci_cd.Game.Types.{Player, Entity, Game, to_all}

module _ (m : Machine) where
  open m use {add, mul, lt, sin, of_uint, indeterminate}

  unfoldable pub advance : Entity → Entity
  advance e = record e { x = add e.x e.velocity_x; y = add e.y e.velocity_y }

  -- The test of `updateEntities`, after the motion.
  unfoldable pub is_gone : Entity → Bool
  is_gone e = lt Floats.nineteen_twenty e.x || lt e.x Floats.minus_twenty || e.is_collide

  -- The loop with its `erase`: what stays, and what is sent.
  unfoldable pub update_entities_loop : List Player → List Entity → List Entity × List Datagram
  unfolding to_all
  update_entities_loop players [] = ([], [])
  update_entities_loop players (e ∷ es) =
      let (rest, sent) = update_entities_loop players es in
      let moved = advance e in
      if is_gone moved
      then (rest, to_all players (entity_destroy (record { entity_id = e.id })) ++ sent)
      else (
        moved ∷ rest,
        to_all players (
              entity_update
                (record { entity_id = e.id; timestamp = indeterminate; x = moved.x; y = moved.y }))
            ++ sent,
      )

  unfoldable pub update_entities : Game → Game × List Datagram
  unfolding update_entities_loop
  update_entities g =
      let (entities, sent) = update_entities_loop g.players g.entities in
      (record g { entities = entities }, sent)

  unfoldable pub wave : Float → Entity → Entity
  wave time e =
      if lt Floats.sixty time && (e.type == 2 || e.type == 3)
      then record e {
        velocity_y = mul Floats.five (sin (add (mul time Floats.two) (of_uint e.id)));
      }
      else e

  unfoldable pub steer_boss : Float → ℕ → Entity → Entity
  steer_boss time level e =
      if e.type == 10
      then (if lt Floats.fifteen_hundred e.x
          then record e { velocity_x = Floats.minus_two; velocity_y = Floats.zero_f }
          else record e {
            velocity_x = Floats.zero_f;
            velocity_y =
                if level == 3
                then mul Floats.eight (sin (mul time Floats.four))
                else mul Floats.three (sin time);
          })
      else e

  unfoldable pub update_game_level : Game → Float → Game
  unfolding wave steer_boss
  update_game_level g elapsed =
      let time = add g.game_time elapsed in
      record g {
        game_time = time;
        entities = map (λ e. steer_boss time g.boss.level (wave time e)) g.entities;
      }

unfoldable pub synced : Entity → SyncedEntityState
synced e = record { entity_id = e.id; entity_type = e.type; x = e.x; y = e.y }

unfoldable pub send_global_state_sync : Game → List Datagram
unfolding synced to_all
send_global_state_sync g =
    to_all g.players (global_state_sync (length g.entities % u32) (map synced g.entities))
