-- ===== src/Game/Ranges/Inputs.antt =====
-- The ranges through the inputs of the players of Src/Server/Game.cpp, and runs of a match.
use rtype_ci_cd.Common.{
  ℕ, suc, ◌+◌, ◌*◌, ◌<◌, ◌≡◌, refl, inl, inr, Bool, true, false, some, List, [], ◌∷◌, ◌++◌, length,
  if◌then◌else◌, u32, Option-cases, arith,
}
use rtype_ci_cd.Common.Machine.{Machine, Float}
use rtype_ci_cd.Common.Floats
use rtype_ci_cd.Network.{Datagram}
use rtype_ci_cd.Protocol.Udp.{Input, has_input}
use rtype_ci_cd.Protocol.Udp.Messages.{PlayerInputPacket}
use rtype_ci_cd.Game.Types.{Player, Game}
use rtype_ci_cd.Game.Players.{
  add_player, find_player, get_player, update_player, raise_tick, set_player_last_processed_tick,
}
use rtype_ci_cd.Game.Shots.{
  shoot_if, count_input, move, create_player_shot, create_player_charged_shot, handle_player_input,
}
use rtype_ci_cd.Game.Update.Boss.{spawn-HasBoss}
use rtype_ci_cd.Game.Moves.{Move, frame, input, join, perform, run}
use rtype_ci_cd.Game.Ranges.{
  IsMachine32, PlayerInRange, PlayersInRange, InRange, InRange-le, AllInRange, AllInRange-append,
  Says, Says-still,
}
use rtype_ci_cd.Game.Ranges.Spawns.{room_of, Grown-Says, spawn-Grown}
use rtype_ci_cd.Game.Ranges.Updates.{Says-le, update-Says}

PlayersInRange-append :
    (ps : List Player) (p : Player)
    → PlayersInRange ps
    → PlayerInRange p
    → PlayersInRange (ps ++ p ∷ [])
PlayersInRange-append [] p h k = (k, tt)
PlayersInRange-append (q ∷ ps) p h k = (h.0, PlayersInRange-append ps p h.1 k)

update_player-InRange :
    (id : ℕ) (f : Player → Player) (ps : List Player)
    → ((p : Player) → PlayerInRange p → PlayerInRange (f p))
    → PlayersInRange ps
    → PlayersInRange (update_player id f ps)
unfolding update_player
update_player-InRange id f [] h k = tt
update_player-InRange id f (p ∷ ps) h k =
    ground (arith, h p k.0, update_player-InRange id f ps h k.1)

find_player-InRange :
    (id : ℕ) (p : Player) (ps : List Player)
    → PlayersInRange ps
    → find_player id ps ≡ some p
    → PlayerInRange p
unfolding find_player
find_player-InRange id p [] h found = cc
find_player-InRange id p (q ∷ ps) h found =
    ground (arith, found, h.0, find_player-InRange id p ps h.1)

either-lt : (b : Bool) (s t : Float) → s < u32 → t < u32 → (if b then s else t) < u32
either-lt true s t h k = h
either-lt false s t h k = k

raise_tick-InRange :
    (tick : ℕ) (p : Player) → tick < u32 → PlayerInRange p → PlayerInRange (raise_tick tick p)
unfolding raise_tick
raise_tick-InRange tick p t h = ground (arith, t, h)

count_input-InRange :
    (tick : ℕ) (p : Player) → tick < u32 → PlayerInRange p → PlayerInRange (count_input tick p)
unfolding count_input
count_input-InRange tick p t h = ground (arith, t, h)

module _ (m : Machine) (laws : IsMachine32 m) where
  move-InRange : (inputs : ℕ) (p : Player) → PlayerInRange p → PlayerInRange (move m inputs p)
  unfolding move
  move-InRange inputs p h =
      let up =
        either-lt (has_input inputs Input.up) (m.sub p.y p.velocity) p.y (laws.sub_lt _ _) h.4 in
      let left =
        either-lt (has_input inputs Input.left) (m.sub p.x p.velocity) p.x (laws.sub_lt _ _) h.3 in
      (
        h.0,
        h.1,
        h.2,
        either-lt (has_input inputs Input.right) _ _ (laws.add_lt _ _) left,
        either-lt (has_input inputs Input.down) _ _ (laws.add_lt _ _) up,
        h.5,
        h.6,
        h.7,
        h.8,
      )

  -- The player of an input after its three changes.
  moved-InRange :
      (b : ℕ) (g : Game) (pkt : PlayerInputPacket)
      → InRange b g
      → pkt.tick < u32
      → let id = pkt.player_id in
        InRange b (record g {
          players = update_player id (move m pkt.inputs) (
              update_player id
                (raise_tick pkt.tick)
                (update_player id (count_input pkt.tick) g.players));
        })
  moved-InRange b g pkt r t =
      let id = pkt.player_id in
      record {
        players = update_player-InRange id (move m pkt.inputs) _ (move-InRange pkt.inputs) (
            update_player-InRange id (raise_tick pkt.tick) _
              (λ p h. raise_tick-InRange pkt.tick p t h)
              (update_player-InRange id (count_input pkt.tick) g.players
                (λ p h. count_input-InRange pkt.tick p t h) r.players));
        entities = r.entities;
        times = r.times;
        count = r.count;
        bounded = r.bounded;
        boss = r.boss;
      }

  shot-Says :
      (b : ℕ) (g : Game) (id : ℕ)
      → InRange b g
      → b + 1 < u32
      → Says (b + 1) (create_player_shot m g id) × Says (b + 1) (create_player_charged_shot m g id)
  unfolding create_player_shot create_player_charged_shot get_player
  shot-Says b g id r small = elim (Option-cases (find_player id g.players)) [
    | inl gone ↦
        let still = Says-still b (b + 1) g (omega arith) r in
        rw (gone, create_player_shot, create_player_charged_shot, get_player) (still, still)
    | inr (p, here) ↦
        let known = find_player-InRange id p g.players r.players here in
        rw (here, create_player_shot, create_player_charged_shot, get_player)
          (
            Grown-Says (b + 1) _
                (spawn-Grown m laws b g 1 _ _ _ _ _ _ (room_of b g r) small (omega arith)
                  (laws.add_lt p.x Floats.twenty_five) known.4 (omega arith) (omega arith))
                (spawn-HasBoss m g 1 _ _ _ _ _ _ refl r.boss),
            Grown-Says (b + 1) _
                (spawn-Grown m laws b g 4 _ _ _ _ _ _ (room_of b g r) small (omega arith)
                  (laws.add_lt p.x Floats.twenty_five) known.4 (omega arith) (omega arith))
                (spawn-HasBoss m g 4 _ _ _ _ _ _ refl r.boss),
          )
  ]

  shoot_if-Says :
      (b : ℕ) (fires : Bool) (shot : Game → ℕ → Game × List Datagram) (g : Game) (id : ℕ)
      → InRange b g
      → Says (b + 1) (shot g id)
      → Says (b + 1) (shoot_if fires shot g id)
  unfolding shoot_if
  shoot_if-Says b true shot g id r h = h
  shoot_if-Says b false shot g id r h = Says-still b (b + 1) g (omega arith) r

  handle_player_input-Says :
      (b : ℕ) (g : Game) (pkt : PlayerInputPacket)
      → InRange b g
      → b + 2 < u32
      → pkt.tick < u32
      → Says (b + 2) (handle_player_input m g pkt)
  unfolding handle_player_input set_player_last_processed_tick
  handle_player_input-Says b g pkt r small t = elim (Option-cases (get_player g pkt.player_id)) [
    | inl gone ↦ rw (gone, handle_player_input) (Says-still b (b + 2) g (omega arith) r)
    | inr (p, here) ↦
        let id = pkt.player_id in
        let ps = update_player id (move m pkt.inputs) (
          update_player id (raise_tick pkt.tick)
            (update_player id (count_input pkt.tick) g.players)) in
        let moved : Game = record g { players = ps } in
        let first = shoot_if (has_input pkt.inputs Input.pressed) (create_player_shot m) moved id in
        let one =
          shoot_if-Says b (has_input pkt.inputs Input.pressed) (create_player_shot m) moved id
            (moved-InRange b g pkt r t)
            (shot-Says b moved id (moved-InRange b g pkt r t) (omega (arith, small))).0 in
        let two =
          shoot_if-Says (b + 1) (has_input pkt.inputs Input.hold) (create_player_charged_shot m)
            first.0 id one.state
            (shot-Says (b + 1) first.0 id one.state (omega (arith, small))).1 in
        rw (here, handle_player_input)
          (record {
            state = InRange-le (b + 1 + 1) (b + 2) _ (omega arith) two.state;
            messages = AllInRange-append first.1 _ one.messages two.messages;
          })
  ]

-- The numbers of an input and of a player that joins are of 32 bits.
abbrev pub MoveInRange : Move → Type 0
MoveInRange (frame fr) = Unit
MoveInRange (input pkt) = pkt.tick < u32
MoveInRange (join id name) = id < u32

abbrev pub MovesInRange : List Move → Type 0
MovesInRange [] = Unit
MovesInRange (mv ∷ mvs) = MoveInRange mv × MovesInRange mvs

perform-Says :
    (m : Machine) (laws : IsMachine32 m) (b : ℕ) (mv : Move) (g : Game)
    → MoveInRange mv
    → InRange b g
    → b + 5 < u32
    → Says (b + 5) (perform m mv g)
unfolding add_player
perform-Says m laws b (frame fr) g h r small = update-Says m laws b fr g r small
perform-Says m laws b (input pkt) g h r small =
    Says-le (b + 2) (b + 5) (handle_player_input m g pkt) (omega arith)
      (handle_player_input-Says m laws b g pkt r (omega (arith, small)) h)
perform-Says m laws b (join id name) g h r small = record {
  state = record {
    players = PlayersInRange-append g.players _ r.players (
      h,
      omega arith,
      omega arith,
      omega arith,
      omega arith,
      omega arith,
      omega arith,
      omega arith,
      omega arith,
    );
    entities = r.entities;
    times = r.times;
    count = r.count;
    bounded = omega (arith, r.bounded);
    boss = r.boss;
  };
  messages = tt;
}

-- On a machine of 32 bits, of a match these lie in the ranges of their types: for each player the id, the
-- ticks, the counts of the inputs received and lost, the sequence number, the position and the velocity; for
-- each entity the id, the type, the position and the velocity; the time of the match, and the level, the hit
-- points and the two times of the boss, which is in step with its level. There are fewer entities than the
-- next id. So it is again after any frames, inputs and players that join, with numbers of 32 bits, for which
-- the ids last; and each message that is sent on the way has every field in the range of its struct, the hit
-- points of the boss and the count of a full synchronisation among them.
pub run-InRange :
    (m : Machine) (laws : IsMachine32 m) (b : ℕ) (mvs : List Move) (g : Game)
    → MovesInRange mvs
    → InRange b g
    → b + 5 * length mvs < u32
    → InRange (b + 5 * length mvs) (run m mvs g).0 × AllInRange (run m mvs g).1
run-InRange m laws b [] g h r small = (InRange-le b (b + 5 * 0) g (omega arith) r, tt)
run-InRange m laws b (mv ∷ mvs) g h r small =
    let one = perform-Says m laws b mv g h.0 r (omega (arith, small)) in
    let rest =
      run-InRange m laws (b + 5) mvs (perform m mv g).0 h.1 one.state (omega (arith, small)) in
    (
      InRange-le (b + 5 + 5 * length mvs) (b + 5 * suc (length mvs)) _ (omega arith) rest.0,
      AllInRange-append (perform m mv g).1 (run m mvs (perform m mv g).0).1 one.messages rest.1,
    )
