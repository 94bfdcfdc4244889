-- ===== src/Game/Ranges/Broadcasts.antt =====
-- The ranges through the broadcasts and the level of `Game::update` of Src/Server/Game.cpp.
use rtype_ci_cd.Common.{
  ℕ, ◌+◌, ◌%◌, ◌<◌, inl, inr, List, [], ◌∷◌, map, length, length-map, leb, u32, Bool-cases, arith,
}
use rtype_ci_cd.Common.Machine.{Machine, Float}
use rtype_ci_cd.Common.Floats
use rtype_ci_cd.Protocol.Udp.Messages.{player_state, global_state_sync}
use rtype_ci_cd.Protocol.Udp.Sync.{StatesFit}
use rtype_ci_cd.Game.Types.{Player, Entity, Game, to_all}
use rtype_ci_cd.Game.Players.{broadcast_loop, broadcast_game_state}
use rtype_ci_cd.Game.Entities.{wave, steer_boss, update_game_level, synced, send_global_state_sync}
use rtype_ci_cd.Game.Update.{Frame, global_sync_interval, sync_if_due}
use rtype_ci_cd.Game.Update.Boss.{HasBoss-Kept}
use rtype_ci_cd.Game.Ranges.{
  IsMachine32, PlayersInRange, EntitiesInRange, InRange, AllInRange, AllInRange-append,
  AllInRange-to_all, Says,
}

synced-StatesFit : (es : List Entity) → EntitiesInRange es → StatesFit (map synced es)
unfolding synced
synced-StatesFit [] h = tt
synced-StatesFit (e ∷ es) h = ((h.0.0, h.0.1, h.0.2, h.0.3), synced-StatesFit es h.1)

module _ (m : Machine) (laws : IsMachine32 m) where
  broadcast_loop-InRange :
      (all ps : List Player)
      → PlayersInRange ps
      → PlayersInRange (broadcast_loop m all ps).0 × AllInRange (broadcast_loop m all ps).1
  unfolding broadcast_loop
  broadcast_loop-InRange all [] h = (tt, tt)
  broadcast_loop-InRange all (p ∷ ps) h =
      let (rest, said) = broadcast_loop-InRange all ps h.1 in
      elim (Bool-cases p.addr_set) [
        | inl known ↦ rw known (
          ((h.0.0, omega arith, h.0.2, h.0.3, h.0.4, h.0.5, h.0.6, h.0.7, h.0.8), rest),
          AllInRange-append (to_all all _) (broadcast_loop m all ps).1
              (AllInRange-to_all all
                (player_state (record {
                  player_id = p.id;
                  sequence = p.state_packet_sequence;
                  last_processed_tick = p.last_processed_tick;
                  timestamp = m.indeterminate;
                  x = p.x;
                  y = p.y;
                }))
                (h.0.0, h.0.1, h.0.2, laws.indeterminate_lt, h.0.3, h.0.4))
              said,
        )
        | inr unknown ↦ rw unknown ((h.0, rest), said)
      ]

  pub broadcast_game_state-Says :
      (b : ℕ) (g : Game) → InRange b g → Says b (broadcast_game_state m g)
  unfolding broadcast_game_state
  broadcast_game_state-Says b g r =
      let (players, said) = broadcast_loop-InRange g.players g.players r.players in
      record {
        state = record {
          players = players;
          entities = r.entities;
          times = r.times;
          count = r.count;
          bounded = r.bounded;
          boss = r.boss;
        };
        messages = said;
      }

  steer-EntitiesInRange :
      (time : Float) (level : ℕ) (es : List Entity)
      → EntitiesInRange es
      → EntitiesInRange (map (λ e. steer_boss m time level (wave m time e)) es)
  unfolding steer_boss wave
  steer-EntitiesInRange time level [] h = tt
  steer-EntitiesInRange time level (e ∷ es) h =
      let swung =
        laws.mul_lt Floats.five (m.sin (m.add (m.mul time Floats.two) (m.of_uint e.id))) in
      let fast = laws.mul_lt Floats.eight (m.sin (m.mul time Floats.four)) in
      let slow = laws.mul_lt Floats.three (m.sin time) in
      (ground (arith, h.0, swung, fast, slow), steer-EntitiesInRange time level es h.1)

  pub update_game_level-Says :
      (b : ℕ) (fr : Frame) (g : Game)
      → InRange b g
      → Says b (update_game_level m g Floats.frame_time, [])
  unfolding update_game_level
  update_game_level-Says b fr g r =
      let time = m.add g.game_time Floats.frame_time in
      let same = length-map g.entities (λ e. steer_boss m time g.boss.level (wave m time e)) in
      record {
        state = record {
          players = r.players;
          entities = steer-EntitiesInRange time g.boss.level g.entities r.entities;
          times = (laws.add_lt g.game_time Floats.frame_time, r.times.1, r.times.2);
          count = omega (arith, same, r.count);
          bounded = r.bounded;
          boss = (HasBoss-Kept m fr 0).aged g r.boss;
        };
        messages = tt;
      }

  pub sync_if_due-Says :
      (b : ℕ) (fr : Frame) (g : Game) → InRange b g → b < u32 → Says b (sync_if_due fr g)
  unfolding sync_if_due send_global_state_sync
  sync_if_due-Says b fr g r small =
      let same = length-map g.entities synced in
      elim (Bool-cases (leb (g.last_global_sync_time + global_sync_interval) fr.sync_test)) [
        | inl due ↦ rw due (record {
          state = record {
            players = r.players;
            entities = r.entities;
            times = r.times;
            count = r.count;
            bounded = r.bounded;
            boss = r.boss;
          };
          messages =
              AllInRange-to_all g.players
                (global_state_sync (length g.entities % u32) (map synced g.entities))
                (
                  omega (arith, same, r.count, r.bounded, small),
                  omega (arith, same, r.count, r.bounded, small),
                  synced-StatesFit g.entities r.entities,
                );
        })
        | inr early ↦ rw early (record { state = r; messages = tt })
      ]
