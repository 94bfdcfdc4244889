-- ===== src/Game/Ranges.antt =====
-- The ranges of the fields of a match of Src/Server/Game.cpp, and of what it sends.
pub mod Passes
pub mod Broadcasts
pub mod Spawns
pub mod Bosses
pub mod Updates
pub mod Inputs
use rtype_ci_cd.Common.{
  ℕ, ◌+◌, ◌≤◌, ◌<◌, inl, inr, Bool-cases, List, [], ◌∷◌, ◌++◌, length, u32, u64, arith,
}
use rtype_ci_cd.Common.Int.{ℤ}
use rtype_ci_cd.Common.Machine.{Machine, Float}
use rtype_ci_cd.Network.{Datagram}
use rtype_ci_cd.Protocol.Udp.Messages.{UdpMessage}
use rtype_ci_cd.Protocol.Udp.Roundtrip.{Fits}
use rtype_ci_cd.Game.Types.{Player, Entity, Game, to_all}
use rtype_ci_cd.Game.Update.{◌and_then◌}
use rtype_ci_cd.Game.Update.Boss.{HasBoss}

-- The results of the arithmetic are bit patterns of 32 bits, and so is what a field holds that is never set.
pub record IsMachine32 (m : Machine) : Type 0 where
  pub add_lt : (a b : Float) → m.add a b < u32
  pub sub_lt : (a b : Float) → m.sub a b < u32
  pub mul_lt : (a b : Float) → m.mul a b < u32
  pub of_int_lt : (a : ℤ) → m.of_int a < u32
  pub indeterminate_lt : m.indeterminate < u32

abbrev pub PlayerInRange : Player → Type 0
PlayerInRange p =
    (p.id < u32)
    × (p.state_packet_sequence < u32)
    × (p.last_processed_tick < u32)
    × (p.x < u32)
    × (p.y < u32)
    × (p.velocity < u32)
    × (p.last_input_tick < u32)
    × (p.received_inputs < u64)
    × (p.lost_inputs < u64)

abbrev pub PlayersInRange : List Player → Type 0
PlayersInRange [] = Unit
PlayersInRange (p ∷ ps) = PlayerInRange p × PlayersInRange ps

abbrev pub EntityInRange : Entity → Type 0
EntityInRange e =
    (e.id < u32)
    × (e.type < 65536)
    × (e.x < u32)
    × (e.y < u32)
    × (e.velocity_x < u32)
    × (e.velocity_y < u32)

abbrev pub EntitiesInRange : List Entity → Type 0
EntitiesInRange [] = Unit
EntitiesInRange (e ∷ es) = EntityInRange e × EntitiesInRange es

-- The time of the match and those that it keeps for the boss.
abbrev pub TimesInRange : Game → Type 0
TimesInRange g = (g.game_time < u32) × (g.boss.last_shoot_time < u32) × (g.boss.death_time < u32)

-- The fields of the players and of the entities that change, and the time and the boss of the match, lie in
-- the ranges of their types; there are fewer entities than ids that were given, and the boss is in step with
-- its level. The two readings of the clock are not bounded.
pub record InRange (b : ℕ) (g : Game) : Type 0 where
  pub players : PlayersInRange g.players
  pub entities : EntitiesInRange g.entities
  pub times : TimesInRange g
  pub count : length g.entities < g.next_entity_id
  pub bounded : g.next_entity_id ≤ b
  pub boss : HasBoss 0 g

pub InRange-le : (b k : ℕ) (g : Game) → b ≤ k → InRange b g → InRange k g
InRange-le b k g h r = record {
  players = r.players;
  entities = r.entities;
  times = r.times;
  count = r.count;
  bounded = omega (arith, r.bounded, h);
  boss = r.boss;
}

-- Each message fits its struct.
abbrev pub AllInRange : List Datagram → Type 0
AllInRange [] = Unit
AllInRange (d ∷ ds) = Fits d.message × AllInRange ds

pub AllInRange-append :
    (ds es : List Datagram) → AllInRange ds → AllInRange es → AllInRange (ds ++ es)
AllInRange-append [] es h k = k
AllInRange-append (d ∷ ds) es h k = (h.0, AllInRange-append ds es h.1 k)

pub AllInRange-to_all :
    (ps : List Player) (msg : UdpMessage) → Fits msg → AllInRange (to_all ps msg)
unfolding to_all
AllInRange-to_all [] msg h = tt
AllInRange-to_all (p ∷ ps) msg h = elim (Bool-cases p.addr_set) [
  | inl known ↦ rw (known, to_all) (h, AllInRange-to_all ps msg h)
  | inr unknown ↦ rw (unknown, to_all) (AllInRange-to_all ps msg h)
]

-- After a stage: the match is in range, and so is all that it sent.
pub record Says (b : ℕ) (r : Game × List Datagram) : Type 0 where
  pub state : InRange b r.0
  pub messages : AllInRange r.1

pub Says-and_then :
    {b k : ℕ} {r : Game × List Datagram} (f : Game → Game × List Datagram)
    → Says b r
    → ((g : Game) → InRange b g → Says k (f g))
    → Says k (r and_then f)
Says-and_then {r = r} f h next = record {
  state = (next r.0 h.state).state;
  messages = AllInRange-append r.1 (f r.0).1 h.messages (next r.0 h.state).messages;
}

pub Says-still : (b k : ℕ) (g : Game) → b ≤ k → InRange b g → Says k (g, [])
Says-still b k g h r = record { state = InRange-le b k g h r; messages = tt }
