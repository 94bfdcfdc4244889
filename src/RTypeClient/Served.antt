-- ===== src/RTypeClient/Served.antt =====
-- The inputs of Src/Client/RTypeClient.cpp on their way through `ServerManager::onMessageReceived` of
-- Src/Server/ServerManager.cpp to the match of their player.
use rtype_ci_cd.Common.{ℕ, ◌≡◌, refl, sym, ap, subst, ◌∙◌, false, some, List, [], ◌∷◌, ◌++◌, arith}
use rtype_ci_cd.Common.Machine.{Machine}
use rtype_ci_cd.Common.Floats
use rtype_ci_cd.Common.Maps.{find}
use rtype_ci_cd.Network.{SockAddr}
use rtype_ci_cd.Protocol.Udp.Messages.{PlayerInputPacket, PlayerStatePacket, player_input, bytes_of}
use rtype_ci_cd.Protocol.Udp.Roundtrip.{Fits}
use rtype_ci_cd.Game.Types.{Player}
use rtype_ci_cd.Game.Players.{set_addr, raise_tick}
use rtype_ci_cd.Game.Shots.{count_input, move}
use rtype_ci_cd.Game.Input.{steer}
use rtype_ci_cd.ServerManager.{ServerManager, on_message_received}
use rtype_ci_cd.RTypeClient.Types.{RTypeClient}
use rtype_ci_cd.RTypeClient.Packets.{is_game_over, on_player_state}
use rtype_ci_cd.RTypeClient.Handled.{active, Ascends, AllOf, AllOf-append, place, steer_all}
use rtype_ci_cd.RTypeClient.Prediction.{state_of, on_player_state-steer_all}
use rtype_ci_cd.ServerManager.Inputs.{player_in, player_in-id, on_message_received-player_in}

abbrev pub AllFit : List PlayerInputPacket → Type 0
AllFit [] = Unit
AllFit (p ∷ ps) = Fits (player_input p) × AllFit ps

AllFit-append : (ps qs : List PlayerInputPacket) → AllFit (ps ++ qs) → AllFit ps × AllFit qs
AllFit-append [] qs h = (tt, h)
AllFit-append (p ∷ ps) qs h = let rest = AllFit-append ps qs h.1 in ((h.0, rest.0), rest.1)

-- All of a player that its inputs read and the client is told.
record Alike (p q : Player) : Type 0 where
  id : p.id ≡ q.id
  x : p.x ≡ q.x
  y : p.y ≡ q.y
  velocity : p.velocity ≡ q.velocity
  tick : p.last_processed_tick ≡ q.last_processed_tick

Alike-place : (p q : Player) → Alike p q → place p ≡ place q
Alike-place p q h = ground (arith, h.x, h.y)

module _ (m : Machine) (addr : SockAddr) where
  -- The packets arrive from the address, one after the other.
  abbrev pub receive_inputs : List PlayerInputPacket → ServerManager → ServerManager
  receive_inputs [] s = s
  receive_inputs (p ∷ ps) s =
      receive_inputs ps (on_message_received m (bytes_of (player_input p)) addr s)

  abbrev serve_all : List PlayerInputPacket → Player → Player
  serve_all [] q = q
  serve_all (p ∷ ps) q = serve_all ps (steer m p (set_addr addr q))

  steer-Alike :
      (pkt : PlayerInputPacket) (p q : Player)
      → Alike p q
      → Alike (steer m pkt (set_addr addr p)) (steer m pkt q)
  unfolding set_addr move raise_tick count_input
  steer-Alike pkt p q h = record {
    id = ground (arith, h.id);
    x = ground (arith, h.x, h.velocity);
    y = ground (arith, h.y, h.velocity);
    velocity = ground (arith, h.velocity);
    tick = ground (arith, h.tick);
  }

  serve_all-Alike :
      (ps : List PlayerInputPacket) (p q : Player)
      → Alike p q
      → Alike (serve_all ps p) (steer_all m ps q)
  serve_all-Alike [] p q h = h
  serve_all-Alike (pkt ∷ ps) p q h =
      serve_all-Alike ps (steer m pkt (set_addr addr p)) (steer m pkt q) (steer-Alike pkt p q h)

  receive_inputs-player_in :
      (ps : List PlayerInputPacket) (id : ℕ) (s : ServerManager) (q : Player)
      → AllOf id ps
      → AllFit ps
      → player_in id s.rooms ≡ some q
      → player_in id (receive_inputs ps s).rooms ≡ some (serve_all ps q)
  receive_inputs-player_in [] id s q mine fits here = here
  receive_inputs-player_in (p ∷ ps) id s q mine fits here =
      receive_inputs-player_in ps id (on_message_received m (bytes_of (player_input p)) addr s)
        (steer m p (set_addr addr q)) mine.1 fits.1
        (subst
          (λ i.
            player_in i (on_message_received m (bytes_of (player_input p)) addr s).rooms
            ≡ some (steer m p (set_addr addr q)))
          mine.0
          (on_message_received-player_in m addr p s q fits.0
            (subst (λ i. player_in i s.rooms ≡ some q) (sym mine.0) here)))

  Alike-state_of :
      (sequence timestamp : ℕ) (p q : Player)
      → Alike p q
      → state_of m sequence timestamp p ≡ state_of m sequence timestamp q
  Alike-state_of sequence timestamp p q h = ground (arith, h.id, h.x, h.y, h.tick)

  -- The bytes of the first inputs of a client have reached the rooms from its address, and those of the others
  -- are on their way; their fields lie in range, their ticks ascend above the last one that was acknowledged,
  -- and the player, which some room has, has the velocity that every player has. The client, whose match is
  -- not over, keeps those inputs that have a bit. When the state of the own player reaches it, the inputs it
  -- keeps are those that are on their way, and its player stands where it will stand in its room once their
  -- bytes have arrived.
  pub on_message_received_predicts :
      (s : ServerManager) (q : Player) (handled rest : List PlayerInputPacket)
      (now sequence timestamp : ℕ) (c : RTypeClient)
      → player_in c.my_player_id s.rooms ≡ some q
      → q.velocity ≡ Floats.five
      → AllOf c.my_player_id (handled ++ rest)
      → AllFit (handled ++ rest)
      → Ascends q.last_processed_tick (handled ++ rest)
      → c.pending_inputs ≡ active (handled ++ rest)
      → is_game_over c.status ≡ false
      → let s' = receive_inputs handled s in
        (told : Player) × (player_in c.my_player_id s'.rooms ≡ some told)
        × (let c' = on_player_state m now (state_of m sequence timestamp told) c in
            (c'.pending_inputs ≡ active rest)
            × ((later : Player) × (player_in c.my_player_id (receive_inputs rest s').rooms
                  ≡ some later)
                × (find c.my_player_id c'.players ≡ some (place later))))
  on_message_received_predicts s q handled rest now sequence timestamp c here v mine fits up kept
        alive =
      let id = c.my_player_id in
      let told = serve_all handled q in
      let later = serve_all rest told in
      let both = AllOf-append id handled rest mine in
      let range = AllFit-append handled rest fits in
      let found = receive_inputs-player_in handled id s q both.0 range.0 here in
      let ends =
        receive_inputs-player_in rest id (receive_inputs handled s) told both.1 range.1 found in
      let same : Alike q q = record {
        id = refl;
        x = refl;
        y = refl;
        velocity = refl;
        tick = refl;
      } in
      let alike = serve_all-Alike handled q q same in
      let alike' = serve_all-Alike rest told (steer_all m handled q) alike in
      let (left, stands) =
        on_player_state-steer_all m q handled rest now sequence timestamp c
          (sym alike.id ∙ player_in-id id (receive_inputs handled s).rooms told found) v up kept
          alive in
      let told_same = sym (Alike-state_of sequence timestamp told (steer_all m handled q) alike) in
      (
        told,
        found,
        (
          subst
              (λ (p : PlayerStatePacket). (on_player_state m now p c).pending_inputs ≡ active rest)
              told_same left,
          (
            later,
            ends,
            subst
                (λ (p : PlayerStatePacket).
                  find id (on_player_state m now p c).players ≡ some (place later))
                told_same
                (stands
                  ∙ ap some
                      (sym (Alike-place later (steer_all m rest (steer_all m handled q)) alike'))),
          ),
        ),
      )
