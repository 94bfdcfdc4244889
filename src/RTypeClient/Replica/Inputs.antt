-- ===== src/RTypeClient/Replica/Inputs.antt =====
-- The inputs of the players of Src/Server/Game.cpp, on the client.
use rtype_ci_cd.Common.{
  ℕ, ◌+◌, ◌<◌, ◌≡◌, refl, ◌∙◌, inl, inr, Bool, true, false, List, [], ◌∷◌, u32, Option-cases, arith,
}
use rtype_ci_cd.Common.Machine.{Machine}
use rtype_ci_cd.Network.{SockAddr, Datagram}
use rtype_ci_cd.Protocol.Udp.Messages.{PlayerInputPacket}
use rtype_ci_cd.Game.Types.{Player, Game}
use rtype_ci_cd.Game.Shots.{
  shoot_if, create_player_shot, create_player_charged_shot, move, count_input, handle_player_input,
}
use rtype_ci_cd.Game.Players.{get_player, update_player, raise_tick, set_player_last_processed_tick}
use rtype_ci_cd.Protocol.Udp.{Input, has_input}
use rtype_ci_cd.Game.Update.{◌and_then◌}
use rtype_ci_cd.RTypeClient.Mirror.{count_at}
use rtype_ci_cd.RTypeClient.Replica.{Sound, Sound-le, Follows, Follows-and_then}
use rtype_ci_cd.RTypeClient.Replica.Spawns.{Follows-still, spawn-Follows}

module _ (m : Machine) where
  create_player_shot-Follows :
      (a : SockAddr) (b : ℕ) (g : Game) (id : ℕ)
      → Sound a b g
      → b + 1 < u32
      → Follows m a (b + 1) g (create_player_shot m g id)
  unfolding create_player_shot
  create_player_shot-Follows a b g id s small = elim (Option-cases (get_player g id)) [
    | inl gone ↦ rw (gone, create_player_shot) (Follows-still m a b (b + 1) g s (omega arith))
    | inr (p, here) ↦ rw (here, create_player_shot) (spawn-Follows m a b g 1 _ _ _ _ _ _ s small)
  ]

  create_player_charged_shot-Follows :
      (a : SockAddr) (b : ℕ) (g : Game) (id : ℕ)
      → Sound a b g
      → b + 1 < u32
      → Follows m a (b + 1) g (create_player_charged_shot m g id)
  unfolding create_player_charged_shot
  create_player_charged_shot-Follows a b g id s small = elim (Option-cases (get_player g id)) [
    | inl gone ↦
        rw (gone, create_player_charged_shot) (Follows-still m a b (b + 1) g s (omega arith))
    | inr (p, here) ↦
        rw (here, create_player_charged_shot) (spawn-Follows m a b g 4 _ _ _ _ _ _ s small)
  ]

  shoot_if-Follows :
      (a : SockAddr) (b : ℕ) (fires : Bool) (shot : Game → ℕ → Game × List Datagram) (g : Game)
      (id : ℕ)
      → Sound a b g
      → Follows m a (b + 1) g (shot g id)
      → Follows m a (b + 1) g (shoot_if fires shot g id)
  unfolding shoot_if
  shoot_if-Follows a b true shot g id s h = h
  shoot_if-Follows a b false shot g id s h = Follows-still m a b (b + 1) g s (omega arith)

  count_at-update_player :
      (a : SockAddr) (id : ℕ) (f : Player → Player) (ps : List Player)
      → ((p : Player) → (f p).udp_addr ≡ p.udp_addr)
      → ((p : Player) → (f p).addr_set ≡ p.addr_set)
      → count_at a (update_player id f ps) ≡ count_at a ps
  unfolding update_player
  count_at-update_player a id f [] h k = refl
  count_at-update_player a id f (p ∷ ps) h k =
      ground (arith, h p, k p, count_at-update_player a id f ps h k)

  -- The two shots of an input.
  shots-Follows :
      (a : SockAddr) (b : ℕ) (g : Game) (id : ℕ) (fires charged : Bool)
      → Sound a b g
      → b + 2 < u32
      → Follows m a (b + 1 + 1) g (
          shoot_if fires (create_player_shot m) g id
          and_then (λ g'. shoot_if charged (create_player_charged_shot m) g' id))
  shots-Follows a b g id fires charged s small =
      let first = shoot_if fires (create_player_shot m) g id in
      let one =
        shoot_if-Follows a b fires (create_player_shot m) g id s
          (create_player_shot-Follows a b g id s (omega (arith, small))) in
      Follows-and_then m a (b + 1) (b + 1 + 1) g first
        (λ g'. shoot_if charged (create_player_charged_shot m) g' id) one
        (shoot_if-Follows a (b + 1) charged (create_player_charged_shot m) first.0 id one.sound (
          create_player_charged_shot-Follows a (b + 1) first.0 id one.sound (omega (arith, small))))

  Sound-players :
      (a : SockAddr) (b : ℕ) (g : Game) (ps : List Player)
      → count_at a ps ≡ count_at a g.players
      → Sound a b g
      → Sound a b (record g { players = ps })
  Sound-players a b g ps e s = record {
    once = e ∙ s.once;
    distinct = s.distinct;
    below = s.below;
    bounded = s.bounded;
  }

  -- The three changes of an input to its player leave the addresses alone.
  input-count_at :
      (a : SockAddr) (pkt : PlayerInputPacket) (ps : List Player)
      → count_at a (
          update_player pkt.player_id (move m pkt.inputs) (
            update_player pkt.player_id
              (raise_tick pkt.tick)
              (update_player pkt.player_id (count_input pkt.tick) ps)))
        ≡ count_at a ps
  unfolding move raise_tick count_input
  input-count_at a pkt ps =
      let id = pkt.player_id in
      count_at-update_player a id (move m pkt.inputs) _ (λ p. refl) (λ p. refl)
      ∙ (count_at-update_player a id (raise_tick pkt.tick) _ (λ p. ground arith) (λ p. ground arith)
          ∙ count_at-update_player a id (count_input pkt.tick) ps (λ p. ground arith)
              (λ p. ground arith))

  -- An input moves its player, and its shots are announced.
  pub handle_player_input-Follows :
      (a : SockAddr) (b : ℕ) (g : Game) (pkt : PlayerInputPacket)
      → Sound a b g
      → b + 2 < u32
      → Follows m a (b + 2) g (handle_player_input m g pkt)
  unfolding handle_player_input set_player_last_processed_tick
  handle_player_input-Follows a b g pkt s small = elim (Option-cases (get_player g pkt.player_id)) [
    | inl gone ↦ rw (gone, handle_player_input) (Follows-still m a b (b + 2) g s (omega arith))
    | inr (p, here) ↦
        let ps = update_player pkt.player_id (move m pkt.inputs) (
          update_player pkt.player_id (raise_tick pkt.tick)
            (update_player pkt.player_id (count_input pkt.tick) g.players)) in
        let moved : Game = record g { players = ps } in
        let shots =
          shots-Follows a b moved pkt.player_id (has_input pkt.inputs Input.pressed)
            (has_input pkt.inputs Input.hold)
            (Sound-players a b g ps (input-count_at a pkt g.players) s) small in
        rw (here, handle_player_input)
          (record {
            sound = Sound-le a (b + 1 + 1) (b + 2) _ (omega arith) shots.sound;
            mirrors = shots.mirrors;
          })
  ]
