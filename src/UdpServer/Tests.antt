-- ===== src/UdpServer/Tests.antt =====
-- A run of the server of Src/Network/UDPServer.cpp.
use rtype_ci_cd.Common.{◌≡◌, refl, List, [], ◌∷◌}
use rtype_ci_cd.Network.{SockAddr}
use rtype_ci_cd.Protocol.Udp.Messages.{pong, bytes_of, size_of}
use rtype_ci_cd.RingBuffer.{empty, push, pop, is_empty, is_full}
use rtype_ci_cd.UdpServer
use rtype_ci_cd.UdpServer.{UdpServer, Arrival, datagram}
use rtype_ci_cd.UdpServer.Fifo.{
  Event, arrives, handles, sends, queues, starts, stops, IsFifo, perform, run, initial, run-IsFifo,
}

abbrev peer : SockAddr
peer = record { ip = 0x7f000001; port = 5353 }

-- Two packets arrive, one is handled and answered, and the answer is sent.
abbrev events : List Event
events =
    arrives (datagram (1 ∷ 2 ∷ []) peer)
    ∷ starts
    ∷ arrives (datagram (6 ∷ 1 ∷ 0 ∷ 0 ∷ 0 ∷ []) peer)
    ∷ arrives (datagram (8 ∷ []) peer)
    ∷ handles
    ∷ queues (record { message = pong (record { timestamp = 1 }); addr = peer })
    ∷ sends
    ∷ stops
    ∷ []

run-IsFifo_example :
    let s = run initial events in
    IsFifo s.server.incoming s.arrived s.handled × IsFifo s.server.outgoing s.queued s.sent
run-IsFifo_example = run-IsFifo events

run_test :
    (run initial events).handled
    ≡ record { bytes = 6 ∷ 1 ∷ 0 ∷ 0 ∷ 0 ∷ []; length = 5; addr = peer } ∷ []
unfolding run perform UdpServer.new_server UdpServer.start UdpServer.stop UdpServer.receive
    UdpServer.recv_round UdpServer.send_round UdpServer.process_round UdpServer.queue_message
    UdpServer.packet_of UdpServer.typed_packet bytes_of size_of empty push pop is_empty is_full
run_test = refl
