-- ===== src/RTypeClient/Replica/Runs.antt =====
-- Runs of a match of Src/Server/Game.cpp with a client of Src/Client/RTypeClient.cpp that mirrors it.
use rtype_ci_cd.Common.{
  ℕ, ◌+◌, ◌*◌, ◌≤◌, ◌<◌, sym, subst, Bool, true, false, if◌then◌else◌, List, [], ◌∷◌, length, u32,
}
use rtype_ci_cd.Common.Machine.{Machine}
use rtype_ci_cd.Network.{SockAddr, Datagram}
use rtype_ci_cd.Protocol.Udp.Messages.{UdpMessage, size_of}
use rtype_ci_cd.Protocol.Udp.Roundtrip.{Fits}
use rtype_ci_cd.Game.Types.{Game}
use rtype_ci_cd.Game.Moves.{Move, run}
use rtype_ci_cd.Game.Ranges.{IsMachine32, InRange, AllInRange}
use rtype_ci_cd.Game.Ranges.Inputs.{MovesInRange, run-InRange}
use rtype_ci_cd.RTypeClient.Types.{RTypeClient}
use rtype_ci_cd.RTypeClient.Packets.{receive_loop}
use rtype_ci_cd.RTypeClient.Wire.{AllFit, datagrams, receive_loop-datagrams}
use rtype_ci_cd.RTypeClient.Mirror.{Mirrors, received_by, is_at}
use rtype_ci_cd.RTypeClient.Replica.{Sound}
use rtype_ci_cd.RTypeClient.Replica.Stages.{run-Follows}

-- Each message fits a datagram.
abbrev pub AllSmall : List UdpMessage → Type 0
AllSmall [] = Unit
AllSmall (msg ∷ msgs) = (size_of msg ≤ 1024) × AllSmall msgs

if-AllFit :
    (m : Machine) (b : Bool) (msg : UdpMessage) (msgs : List UdpMessage)
    → Fits msg
    → (AllSmall msgs → AllFit m msgs)
    → AllSmall (if b then msg ∷ msgs else msgs)
    → AllFit m (if b then msg ∷ msgs else msgs)
if-AllFit m true msg msgs h rest k = (h, k.0, rest k.1)
if-AllFit m false msg msgs h rest k = rest k

received_by-AllFit :
    (m : Machine) (a : SockAddr) (ds : List Datagram)
    → AllInRange ds
    → AllSmall (received_by a ds)
    → AllFit m (received_by a ds)
received_by-AllFit m a [] h k = tt
received_by-AllFit m a (d ∷ ds) h k =
    if-AllFit m (is_at a d.addr) d.message (received_by a ds) h.0 (received_by-AllFit m a ds h.1) k

-- On a machine of 32 bits, a match is in range, its entities have different ids, all below the next one, and
-- one player of it has the address of a client that shows exactly its entities. Then so it is again after any
-- frames, inputs of any players and players that join, with numbers of 32 bits, for which the ids last, once
-- the client has handled the datagrams that all of them sent to its address, in their order, if each message
-- of them, a full synchronisation above all, has no more bytes than a datagram.
pub run-Mirrors :
    (m : Machine) (laws : IsMachine32 m) (a : SockAddr) (b : ℕ) (mvs : List Move) (g : Game)
    (now : ℕ) (c : RTypeClient)
    → MovesInRange mvs
    → InRange b g
    → Sound a b g
    → b + 5 * length mvs < u32
    → AllSmall (received_by a (run m mvs g).1)
    → Mirrors g.entities c.entities
    → let last = run m mvs g in
      InRange (b + 5 * length mvs) last.0
      × Sound a (b + 5 * length mvs) last.0
      × Mirrors last.0.entities
          (receive_loop m (datagrams m now (received_by a last.1)) c).0.entities
run-Mirrors m laws a b mvs g now c typed range sound small fits shown =
    let follows = run-Follows m a b mvs g sound small in
    let in_range = run-InRange m laws b mvs g typed range small in
    (
      in_range.0,
      follows.sound,
      subst (λ (d : RTypeClient). Mirrors (run m mvs g).0.entities d.entities)
          (sym (
            receive_loop-datagrams m now (received_by a (run m mvs g).1) c
              (received_by-AllFit m a (run m mvs g).1 in_range.1 fits)))
          (follows.mirrors now c shown),
    )
