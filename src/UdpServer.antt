-- ===== src/UdpServer.antt =====
-- Src/Network/UDPServer.cpp and Include/Network/UDP/UDPServer.hpp: the two rings of packets between the
-- socket, the threads and the handler. The socket is the environment: what `receive_from` gives is an
-- argument, and what `send_to` is given is a result.
pub mod Fifo
mod Tests
use rtype_ci_cd.Common.{
  ℕ, Bool, true, false, Option, none, some, List, [], ◌∷◌, length, take, ltb, if◌then◌else◌,
}
use rtype_ci_cd.Network.{SockAddr, Packet, Datagram}
use rtype_ci_cd.Protocol.Udp.{max_udp_packet_size}
use rtype_ci_cd.Protocol.Udp.Messages.{UdpMessage, global_state_sync, bytes_of, size_of}
use rtype_ci_cd.RingBuffer.{RingBuffer, empty, push, pop, is_empty}

-- The `Capacity` of `_incoming` and `_outgoing`.
abbrev pub ring_capacity : ℕ
ring_capacity = 1024

-- `_socket`, `_handler` and `_clock` are the environment; `_clients` is never used.
pub record UdpServer : Type 0 where
  pub running : Bool
  pub incoming : RingBuffer Packet
  pub outgoing : RingBuffer Packet

abbrev pub no_packet : Packet
no_packet = record { bytes = []; length = 0; addr = record { ip = 0; port = 0 } }

unfoldable pub new_server : UdpServer
unfolding empty
new_server = record {
  running = false;
  incoming = empty ring_capacity no_packet;
  outgoing = empty ring_capacity no_packet;
}

-- The threads are started, unless they run already.
unfoldable pub start : UdpServer → UdpServer
start s = if s.running then s else record s { running = true }

-- `_running.exchange(false)`; the threads are joined.
unfoldable pub stop : UdpServer → UdpServer
stop s = if s.running then record s { running = false } else s

-- The packet of `queueMessage<T>(msg, addr)`.
unfoldable pub typed_packet : UdpMessage → SockAddr → Packet
typed_packet message addr = record {
  bytes = bytes_of message;
  length = size_of message;
  addr = addr;
}

-- The packet of `queueMessage(data, length, clientAddr)`, cut to the greatest size.
unfoldable pub raw_packet : List ℕ → ℕ → SockAddr → Packet
raw_packet bytes len addr =
    let size = if ltb max_udp_packet_size len then max_udp_packet_size else len in
    record { bytes = take size bytes; length = size; addr = addr }

-- The overload that a call of the game takes: only the full synchronisation is a byte buffer.
unfoldable pub packet_of : UdpMessage → SockAddr → Packet
packet_of (global_state_sync count states) addr =
    let bytes = bytes_of (global_state_sync count states) in raw_packet bytes (length bytes) addr
packet_of message addr = typed_packet message addr

-- A full ring drops the packet: the result of `push` is not looked at.
unfoldable pub queue_message : UdpServer → Datagram → UdpServer
queue_message s d = record s {
  outgoing = (push ring_capacity s.outgoing (packet_of d.message d.addr)).0;
}

-- The calls of `queueMessage` that a method of the game makes.
unfoldable pub queue_messages : UdpServer → List Datagram → UdpServer
queue_messages s [] = s
queue_messages s (d ∷ ds) = queue_messages (queue_message s d) ds

-- What `receive_from` comes back with.
pub data Arrival : Type 0 where
  datagram : List ℕ → SockAddr → Arrival
  -- `operation_aborted` or `bad_descriptor`.
  aborted : Arrival
  failed : Arrival

-- What `recvLoop` does with an arrival, and whether the loop goes on. The buffer holds 1024 bytes.
unfoldable pub receive : Arrival → UdpServer → UdpServer × Bool
receive (datagram bytes addr) s =
    let kept = take 1024 bytes in
    (
      record s {
        incoming =
            (push ring_capacity s.incoming
              (record { bytes = kept; length = length kept; addr = addr })).0;
      },
      true,
    )
receive aborted s = (s, false)
receive failed s = (s, true)

-- One round of `recvLoop`: nothing is done with what arrives after `stop`.
unfoldable pub recv_round : Arrival → UdpServer → UdpServer × Bool
recv_round a s = if s.running then receive a s else (s, false)

-- One round of `sendLoop`: the packet given to `send_to`, if there is one.
unfoldable pub send_round : UdpServer → UdpServer × Option Packet
send_round s =
    if is_empty s.outgoing
    then (s, none)
    else (let (ring, packet) = pop ring_capacity s.outgoing in
        (record s { outgoing = ring }, packet))

-- One round of `processLoop`: the packet given to `handlePacket`, if there is one.
unfoldable pub process_round : UdpServer → UdpServer × Option Packet
process_round s =
    if is_empty s.incoming
    then (s, none)
    else (let (ring, packet) = pop ring_capacity s.incoming in
        (record s { incoming = ring }, packet))
