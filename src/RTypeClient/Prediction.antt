-- ===== src/RTypeClient/Prediction.antt =====
-- The prediction of `RTypeClient::applyInput` and its correction in `RTypeClient::update`, against
-- `Game::handlePlayerInput` of Src/Server/Game.cpp.
use rtype_ci_cd.Common.{ℕ, ◌≡◌, refl, sym, ap, subst, ◌∙◌, false, some, List, [], ◌∷◌, ◌++◌, arith}
use rtype_ci_cd.Common.Machine.{Machine}
use rtype_ci_cd.Common.Floats
use rtype_ci_cd.Common.Maps.{find, insert, find-insert, find-insert_self}
use rtype_ci_cd.Protocol.Udp.Messages.{PlayerInputPacket, PlayerStatePacket}
use rtype_ci_cd.Game.Types.{Player, Game}
use rtype_ci_cd.Game.Players.{find_player}
use rtype_ci_cd.Game.Input.{find_player-id, steer}
use rtype_ci_cd.RTypeClient.Types.{Position, at_rest, RTypeClient}
use rtype_ci_cd.RTypeClient.Keys.{nudge, apply_input}
use rtype_ci_cd.RTypeClient.Packets.{
  drop_acknowledged, replay, is_game_over, on_own_state, on_player_state,
}
use rtype_ci_cd.RTypeClient.Handled.{
  active, Ascends, AllOf, place, handle_inputs, Ascends-weaken, AllOf-append, nudge_all, steer_all,
  nudge_all-active, steer-tick, steer_all-tick, steer_all-velocity, steer_all-place,
  handle_inputs-find_player,
}

module _ (m : Machine) where
  apply_input-find :
      (me inputs : ℕ) (players : List (ℕ × Position)) (q : Position)
      → find me players ≡ some q
      → find me (apply_input m me inputs players) ≡ some (nudge m inputs q)
  unfolding apply_input
  apply_input-find me inputs players q h =
      rw (apply_input, h) (find-insert_self me (nudge m inputs q) players)

  replay-find :
      (ps : List PlayerInputPacket) (me : ℕ) (players : List (ℕ × Position)) (q : Position)
      → find me players ≡ some q
      → find me (replay m me ps players) ≡ some (nudge_all m ps q)
  unfolding replay
  replay-find [] me players q h = h
  replay-find (p ∷ ps) me players q h =
      replay-find ps me (apply_input m me p.inputs players) (nudge m p.inputs q)
        (apply_input-find me p.inputs players q h)

  -- What is acknowledged goes, and the rest stays.
  drop_acknowledged-active :
      (rest : List PlayerInputPacket) (t : ℕ)
      → Ascends t rest
      → drop_acknowledged t (active rest) ≡ active rest
  unfolding drop_acknowledged
  drop_acknowledged-active [] t h = refl
  drop_acknowledged-active (p ∷ ps) t h =
      ground (arith, h.0, drop_acknowledged-active ps t (Ascends-weaken ps t p.tick h.0 h.1))

  drop_handled :
      (handled rest : List PlayerInputPacket) (q : Player)
      → Ascends q.last_processed_tick (handled ++ rest)
      → drop_acknowledged (steer_all m handled q).last_processed_tick (active (handled ++ rest))
        ≡ active rest
  unfolding drop_acknowledged
  drop_handled [] rest q h = drop_acknowledged-active rest q.last_processed_tick h
  drop_handled (p ∷ ps) rest q h =
      let e : (steer m p q).last_processed_tick ≡ p.tick = ground (arith, h.0, steer-tick m p q) in
      ground (
        arith,
        e,
        steer_all-tick m ps (steer m p q),
        drop_handled ps rest (steer m p q) (subst (λ (t : ℕ). Ascends t (ps ++ rest)) (sym e) h.1),
      )

  -- `serverState` after the server handled some of the inputs, of which the client keeps those with a bit.
  abbrev pub state_of : ℕ → ℕ → Player → PlayerStatePacket
  state_of sequence timestamp q = record {
    player_id = q.id;
    sequence = sequence;
    last_processed_tick = q.last_processed_tick;
    timestamp = timestamp;
    x = q.x;
    y = q.y;
  }

  on_player_state_own :
      (now : ℕ) (p : PlayerStatePacket) (c : RTypeClient)
      → p.player_id ≡ c.my_player_id
      → is_game_over c.status ≡ false
      → on_player_state m now p c ≡ on_own_state m now p c
  unfolding on_player_state
  on_player_state_own now p c h alive = ground (arith, h, alive)

  own_place :
      (now : ℕ) (p : PlayerStatePacket) (c : RTypeClient) (ps : List PlayerInputPacket)
      → p.player_id ≡ c.my_player_id
      → drop_acknowledged p.last_processed_tick c.pending_inputs ≡ active ps
      → find c.my_player_id (on_own_state m now p c).players
        ≡ some (nudge_all m ps (at_rest p.x p.y))
  unfolding on_own_state
  own_place now p c ps h left =
      replay-find (drop_acknowledged p.last_processed_tick c.pending_inputs) c.my_player_id
        (insert p.player_id (at_rest p.x p.y) c.players) (at_rest p.x p.y)
        (ground (arith, h, find-insert c.my_player_id p.player_id (at_rest p.x p.y) c.players))
      ∙ ap (λ (l : List PlayerInputPacket). some (nudge_all m l (at_rest p.x p.y))) left
      ∙ ap some (nudge_all-active m ps (at_rest p.x p.y))

  -- The state of the own player, once the server has handled the inputs up to it.
  pub on_player_state-steer_all :
      (q : Player) (handled rest : List PlayerInputPacket) (now sequence timestamp : ℕ)
      (c : RTypeClient)
      → (steer_all m handled q).id ≡ c.my_player_id
      → q.velocity ≡ Floats.five
      → Ascends q.last_processed_tick (handled ++ rest)
      → c.pending_inputs ≡ active (handled ++ rest)
      → is_game_over c.status ≡ false
      → let told = steer_all m handled q in
        let c' = on_player_state m now (state_of sequence timestamp told) c in
        (c'.pending_inputs ≡ active rest)
        × (find c.my_player_id c'.players ≡ some (place (steer_all m rest told)))
  on_player_state-steer_all q handled rest now sequence timestamp c mine v up kept alive =
      let told = steer_all m handled q in
      let left =
        ap (drop_acknowledged told.last_processed_tick) kept ∙ drop_handled handled rest q up in
      let own = on_player_state_own now (state_of sequence timestamp told) c mine alive in
      (
        ap (λ (d : RTypeClient). d.pending_inputs) own ∙ unfold on_own_state in left,
        ap (λ (d : RTypeClient). find c.my_player_id d.players) own
            ∙ own_place now (state_of sequence timestamp told) c rest mine left
            ∙ ap some (sym (steer_all-place m rest told (steer_all-velocity m handled q ∙ v))),
      )

  -- The server handled the first inputs of the client, and the others are on their way; their ticks ascend
  -- above the last one that was acknowledged, and the player has the velocity that every player has. The
  -- client, whose match is not over, keeps those inputs that have a bit. When the state of the own player
  -- reaches it, the inputs it keeps are those that the server has yet to handle, and its player stands where
  -- it will stand on the server once they are handled.
  pub on_player_state_predicts :
      (g : Game) (q : Player) (handled rest : List PlayerInputPacket) (now sequence timestamp : ℕ)
      (c : RTypeClient)
      → find_player c.my_player_id g.players ≡ some q
      → q.velocity ≡ Floats.five
      → AllOf c.my_player_id (handled ++ rest)
      → Ascends q.last_processed_tick (handled ++ rest)
      → c.pending_inputs ≡ active (handled ++ rest)
      → is_game_over c.status ≡ false
      → let g' = handle_inputs m g handled in
        (told : Player) × (find_player c.my_player_id g'.players ≡ some told)
        × (let c' = on_player_state m now (state_of sequence timestamp told) c in
            (c'.pending_inputs ≡ active rest)
            × ((later : Player) × (find_player c.my_player_id (handle_inputs m g' rest).players
                  ≡ some later)
                × (find c.my_player_id c'.players ≡ some (place later))))
  on_player_state_predicts g q handled rest now sequence timestamp c here v mine up kept alive =
      let told = steer_all m handled q in
      let both = AllOf-append c.my_player_id handled rest mine in
      let found = handle_inputs-find_player m handled c.my_player_id g q both.0 here in
      let mine_told : told.id ≡ c.my_player_id =
        find_player-id (handle_inputs m g handled).players c.my_player_id told found in
      let (left, stands) =
        on_player_state-steer_all q handled rest now sequence timestamp c mine_told v up kept
          alive in
      let later = steer_all m rest told in
      let ends =
        handle_inputs-find_player m rest c.my_player_id (handle_inputs m g handled) told both.1
          found in
      (told, found, (left, (later, ends, stands)))
