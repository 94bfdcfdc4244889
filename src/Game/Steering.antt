-- ===== src/Game/Steering.antt =====
-- What `Game::handlePlayerInput` of Src/Server/Game.cpp makes of a player, told without its methods.
use rtype_ci_cd.Common.{
  ℕ, ◌+◌, ◌-◌, ◌%◌, ◌^◌, ◌≤◌, ◌<◌, ◌≡◌, refl, ◌⊎◌, Bool, not, true, false, Option, none, some, ◌==◌,
  if◌then◌else◌, arith,
}
use Prim.Native.Nat.{bit_and}
use rtype_ci_cd.Common.Machine.{Machine, Float}
use rtype_ci_cd.Protocol.Udp.{has_input, mask}
use rtype_ci_cd.Protocol.Udp.Messages.{PlayerInputPacket}
use rtype_ci_cd.Game.Types.{Player, Game}
use rtype_ci_cd.Game.Players.{find_player, raise_tick}
use rtype_ci_cd.Game.Shots.{count_input, move, handle_player_input}
use rtype_ci_cd.Game.Input.{change, steer, handle_player_input-find_player}

-- The bit of an input that has the value `v`, as Include/Network/Protocole/ProtocoleUDP.hpp numbers them.
abbrev pub bit : ℕ → ℕ → Bool
bit v inputs = not (bit_and inputs v == 0)

-- A coordinate after a step back and a step ahead, where their bits are set.
abbrev pub stepped : Machine → Bool → Bool → Float → Float → Float
stepped m back ahead v a = let b = if back then m.sub a v else a in if ahead then m.add b v else b

-- What an input makes of its player: up and down are the bits 1 and 2, left and right 4 and 8.
pub record Steered (m : Machine) (pkt : PlayerInputPacket) (p q : Player) : Type 0 where
  pub y : q.y ≡ stepped m (bit 1 pkt.inputs) (bit 2 pkt.inputs) p.velocity p.y
  pub x : q.x ≡ stepped m (bit 4 pkt.inputs) (bit 8 pkt.inputs) p.velocity p.x
  -- The acknowledged tick is the greater one.
  pub acknowledged : p.last_processed_tick ≤ q.last_processed_tick
  pub acknowledges : pkt.tick ≤ q.last_processed_tick
  pub tick : (q.last_processed_tick ≡ p.last_processed_tick) ⊎ (q.last_processed_tick ≡ pkt.tick)
  -- The first packet begins the count.
  pub first :
      p.first_input_received ≡ true
      → (q.received_inputs ≡ 1) × (q.lost_inputs ≡ p.lost_inputs) × (q.last_input_tick ≡ pkt.tick)
  -- A later tick is received, and those between are lost.
  pub later :
      p.first_input_received ≡ false
      → p.last_input_tick < pkt.tick
      → (q.received_inputs ≡ (p.received_inputs + 1) % 2 ^ 64)
        × (q.lost_inputs ≡ (p.lost_inputs + (pkt.tick - p.last_input_tick - 1)) % 2 ^ 64)
        × (q.last_input_tick ≡ pkt.tick)
  -- One that comes late or twice is not counted.
  pub late :
      p.first_input_received ≡ false
      → pkt.tick ≤ p.last_input_tick
      → (q.received_inputs ≡ p.received_inputs)
        × (q.lost_inputs ≡ p.lost_inputs)
        × (q.last_input_tick ≡ p.last_input_tick)
  pub begun : q.first_input_received ≡ false
  pub id : q.id ≡ p.id
  pub velocity : q.velocity ≡ p.velocity
  pub address : (q.udp_addr ≡ p.udp_addr) × (q.addr_set ≡ p.addr_set)
  pub username : q.username ≡ p.username
  pub sequence : q.state_packet_sequence ≡ p.state_packet_sequence
  pub size : (q.height ≡ p.height) × (q.width ≡ p.width)

-- The player that is found under an id, before and after an input.
abbrev pub Becomes : Machine → PlayerInputPacket → Bool → Option Player → Option Player → Type 0
Becomes m pkt mine none none = Unit
Becomes m pkt mine none (some q) = ⊥
Becomes m pkt mine (some p) none = ⊥
Becomes m pkt true (some p) (some q) = Steered m pkt p q
Becomes m pkt false (some p) (some q) = q ≡ p

steer-Steered :
    (m : Machine) (pkt : PlayerInputPacket) (p : Player) → Steered m pkt p (steer m pkt p)
unfolding count_input raise_tick move has_input mask
steer-Steered m pkt p = record {
  y = ground arith;
  x = ground arith;
  acknowledged = ground arith;
  acknowledges = ground arith;
  tick = ground arith;
  first = λ h. ground (arith, h);
  later = λ h k. ground (arith, h, k);
  late = λ h k. ground (arith, h, k);
  begun = ground arith;
  id = ground arith;
  velocity = ground arith;
  address = ground arith;
  username = ground arith;
  sequence = ground arith;
  size = ground arith;
}

Becomes-change :
    (m : Machine) (pkt : PlayerInputPacket) (mine : Bool) (o : Option Player)
    → Becomes m pkt mine o (if mine then change (steer m pkt) o else o)
Becomes-change m pkt true none = tt
Becomes-change m pkt false none = tt
Becomes-change m pkt true (some p) = steer-Steered m pkt p
Becomes-change m pkt false (some p) = refl

-- An input packet makes no player and removes none. The first player with its id moves by its velocity where
-- the bits of the directions are set: back for up and left, ahead for down and right, back first. The greater
-- one of the ticks is acknowledged; the packet is counted as the first, a later one or a late one; and nothing
-- else of the player changes. Every other player is found as before.
pub handle_player_input-Becomes :
    (m : Machine) (g : Game) (pkt : PlayerInputPacket) (j : ℕ)
    → Becomes m pkt
        (pkt.player_id == j)
        (find_player j g.players)
        (find_player j (handle_player_input m g pkt).0.players)
handle_player_input-Becomes m g pkt j =
    rw (handle_player_input-find_player m g pkt j)
      (Becomes-change m pkt (pkt.player_id == j) (find_player j g.players))
