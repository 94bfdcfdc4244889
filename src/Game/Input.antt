-- ===== src/Game/Input.antt =====
-- What `Game::handlePlayerInput` of Src/Server/Game.cpp does to the roster.
use rtype_ci_cd.Common.{
  ℕ, ◌≡◌, refl, ◌∙◌, ap, inl, inr, Bool, true, false, Option, none, some, List, [], ◌∷◌, ◌==◌,
  Option-cases, if◌then◌else◌, arith,
}
use rtype_ci_cd.Common.Machine.{Machine}
use rtype_ci_cd.Protocol.Udp.Messages.{PlayerInputPacket}
use rtype_ci_cd.Game.Types.{Player, Game}
use rtype_ci_cd.Game.Players.{
  find_player, get_player, update_player, raise_tick, set_player_last_processed_tick,
}
use rtype_ci_cd.Game.Shots.{
  count_input, shoot_if, spawn, create_player_shot, create_player_charged_shot, move,
  handle_player_input,
}

abbrev pub change : (Player → Player) → Option Player → Option Player
change f none = none
change f (some p) = some (f p)

pub find_player-update_player :
    (id j : ℕ) (f : Player → Player) (ps : List Player)
    → ((p : Player) → (f p).id ≡ p.id)
    → find_player j (update_player id f ps)
      ≡ (if id == j then change f (find_player j ps) else find_player j ps)
unfolding find_player update_player
find_player-update_player id j f [] keeps = ground arith
find_player-update_player id j f (p ∷ ps) keeps =
    ground (arith, keeps p, find_player-update_player id j f ps keeps)

pub find_player-id :
    (ps : List Player) (id : ℕ) (q : Player) → find_player id ps ≡ some q → q.id ≡ id
unfolding find_player
find_player-id [] id q h = ground arith
find_player-id (p ∷ ps) id q h = ground (arith, h, find_player-id ps id q)

module _ (m : Machine) where
  create_player_shot-players :
      (g : Game) (id : ℕ) → (create_player_shot m g id).0.players ≡ g.players
  unfolding create_player_shot spawn
  create_player_shot-players g id = ground arith

  create_player_charged_shot-players :
      (g : Game) (id : ℕ) → (create_player_charged_shot m g id).0.players ≡ g.players
  unfolding create_player_charged_shot spawn
  create_player_charged_shot-players g id = ground arith

  shots_players :
      (a b : Bool) (g : Game) (id : ℕ)
      → (shoot_if b
          (create_player_charged_shot m)
          (shoot_if a (create_player_shot m) g id).0
          id).0.players
        ≡ g.players
  unfolding shoot_if
  shots_players true true g id =
      create_player_charged_shot-players _ id ∙ create_player_shot-players g id
  shots_players true false g id = create_player_shot-players g id
  shots_players false true g id = create_player_charged_shot-players g id
  shots_players false false g id = refl

  -- What an input does to its player.
  abbrev pub steer : PlayerInputPacket → Player → Player
  steer pkt p = move m pkt.inputs (raise_tick pkt.tick (count_input pkt.tick p))

  raise_tick-id : (t : ℕ) (p : Player) → (raise_tick t p).id ≡ p.id
  unfolding raise_tick
  raise_tick-id t p = ground arith

  count_input-id : (t : ℕ) (p : Player) → (count_input t p).id ≡ p.id
  unfolding count_input
  count_input-id t p = ground arith

  move-id : (inputs : ℕ) (p : Player) → (move m inputs p).id ≡ p.id
  unfolding move
  move-id inputs p = refl

  -- An input changes the first player with its id, if there is one, and no other: its packet is counted,
  -- the acknowledged tick is raised if the packet's is greater, and the player moves in the directions
  -- whose bits are set. The shots that it fires change no player.
  pub handle_player_input-find_player :
      (g : Game) (pkt : PlayerInputPacket) (j : ℕ)
      → find_player j (handle_player_input m g pkt).0.players ≡ (
          if pkt.player_id == j
          then change (steer pkt) (find_player j g.players)
          else find_player j g.players)
  unfolding get_player set_player_last_processed_tick handle_player_input
  handle_player_input-find_player g pkt j =
      elim (Option-cases (find_player pkt.player_id g.players)) [
        | inl gone ↦ rw (handle_player_input, gone) (missing gone)
        | inr (p, here) ↦
            rw (handle_player_input, here)
              (ap (find_player j) (shots_players _ _ _ pkt.player_id) ∙ three)
      ]
    where
      id : ℕ
      id = pkt.player_id

      missing :
          find_player id g.players ≡ none
          → find_player j g.players ≡ (
              if id == j
              then change (steer pkt) (find_player j g.players)
              else find_player j g.players)
      missing gone = ground (arith, gone)

      three :
          find_player j (
            update_player id (move m pkt.inputs) (
              update_player id
                (raise_tick pkt.tick)
                (update_player id (count_input pkt.tick) g.players)))
          ≡ (if id == j
              then change (steer pkt) (find_player j g.players)
              else find_player j g.players)
      three = ground (
        arith,
        find_player-update_player id j (move m pkt.inputs)
            (update_player id (raise_tick pkt.tick)
              (update_player id (count_input pkt.tick) g.players))
            (move-id pkt.inputs),
        find_player-update_player id j (raise_tick pkt.tick)
            (update_player id (count_input pkt.tick) g.players) (raise_tick-id pkt.tick),
        find_player-update_player id j (count_input pkt.tick) g.players (count_input-id pkt.tick),
      )
