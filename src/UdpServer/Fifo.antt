-- ===== src/UdpServer/Fifo.antt =====
-- The packets that pass through Src/Network/UDPServer.cpp: none is made up, none is passed on twice or
-- out of order, and the only ones lost are those that meet a full ring.
use rtype_ci_cd.Common.{
  ◌≡◌, refl, ap, ◌∙◌, sym, subst, inl, inr, false, Option, none, some, List, [], ◌∷◌, ◌++◌, length,
  take, ◌==◌, Bool-cases, if◌then◌else◌, arith,
}
use rtype_ci_cd.Network.{Packet, Datagram}
use rtype_ci_cd.RingBuffer.{RingBuffer, push, pop, is_empty, is_full}
use rtype_ci_cd.RingBuffer.Queue
use rtype_ci_cd.RingBuffer.Refinement.{Represents, push_refines, pop_refines, empty-Represents}
use rtype_ci_cd.UdpServer.{
  UdpServer, ring_capacity, no_packet, new_server, start, stop, packet_of, queue_message, Arrival,
  datagram, aborted, failed, receive, recv_round, send_round, process_round,
}
use mathlib.Core.List.{append_assoc, append-nil}

-- What went into the ring is what came out of it, followed by what it holds, oldest first.
abbrev pub IsFifo : RingBuffer Packet → List Packet → List Packet → Type 0
IsFifo ring entered left =
    (q : List Packet) × Represents ring_capacity ring q × (entered ≡ left ++ q)

-- A packet that meets a full ring does not go in.
abbrev pub entering : RingBuffer Packet → Packet → List Packet
entering ring p = if is_full ring_capacity ring then [] else p ∷ []

abbrev pub leaving : Option Packet → List Packet
leaving none = []
leaving (some p) = p ∷ []

push_room :
    (q : List Packet) (p : Packet)
    → (length q == ring_capacity) ≡ false
    → (Queue.push ring_capacity q p).0 ≡ q ++ p ∷ []
unfolding Queue.push
push_room q p h = rw h

push-IsFifo :
    (ring : RingBuffer Packet) (entered left : List Packet) (p : Packet)
    → IsFifo ring entered left
    → IsFifo (push ring_capacity ring p).0 (entered ++ entering ring p) left
unfolding is_full
push-IsFifo ring entered left p (q, r, e) = elim (Bool-cases (ring.count == ring_capacity)) [
  | inl full ↦ rw full (unfold push in rw (full, append-nil) (q, r, e))
  | inr room ↦ rw room (
    q ++ p ∷ [],
    subst (Represents ring_capacity (push ring_capacity ring p).0)
        (push_room q p (rw (r.counted) room)) (push_refines ring_capacity p r).1,
    ap (λ (l : List Packet). l ++ p ∷ []) e ∙ append_assoc left q (p ∷ []),
  )
]

pop-IsFifo :
    (ring : RingBuffer Packet) (entered left : List Packet)
    → IsFifo ring entered left
    → IsFifo (pop ring_capacity ring).0 entered (left ++ leaving (pop ring_capacity ring).1)
unfolding Queue.pop
pop-IsFifo ring entered left ([], r, e) =
    rw ((pop_refines ring_capacity [] r).0, append-nil) ([], (pop_refines ring_capacity [] r).1, e)
pop-IsFifo ring entered left (p ∷ q, r, e) =
    rw ((pop_refines ring_capacity (p ∷ q) r).0)
      (q, (pop_refines ring_capacity (p ∷ q) r).1, e ∙ sym (append_assoc left (p ∷ []) q))

-- The server with its history: the packets that went into each ring and those that the threads took.
pub record System : Type 0 where
  pub server : UdpServer
  pub arrived : List Packet
  pub handled : List Packet
  pub queued : List Packet
  pub sent : List Packet

-- What can happen next: a round of one of the three threads, a call of `queueMessage` by any thread, or
-- a call of `start` or `stop`.
pub data Event : Type 0 where
  arrives : Arrival → Event
  handles sends : Event
  queues : Datagram → Event
  starts stops : Event

-- The packet that an arrival makes.
abbrev pub arriving : RingBuffer Packet → Arrival → List Packet
arriving ring (datagram bytes addr) =
    let kept = take 1024 bytes in
    entering ring (record { bytes = kept; length = length kept; addr = addr })
arriving ring aborted = []
arriving ring failed = []

unfoldable pub perform : Event → System → System
perform (arrives a) s =
    if s.server.running
    then record s {
      server = (recv_round a s.server).0;
      arrived = s.arrived ++ arriving s.server.incoming a;
    }
    else s
perform handles s =
    if s.server.running
    then (let (server, packet) = process_round s.server in
        record s { server = server; handled = s.handled ++ leaving packet })
    else s
perform sends s =
    if s.server.running
    then (let (server, packet) = send_round s.server in
        record s { server = server; sent = s.sent ++ leaving packet })
    else s
perform (queues d) s = record s {
  server = queue_message s.server d;
  queued = s.queued ++ entering s.server.outgoing (packet_of d.message d.addr);
}
perform starts s = record s { server = start s.server }
perform stops s = record s { server = stop s.server }

unfoldable pub run : System → List Event → System
run s [] = s
run s (e ∷ es) = run (perform e s) es

abbrev pub initial : System
initial = record { server = new_server; arrived = []; handled = []; queued = []; sent = [] }

pub record BothFifo (s : System) : Type 0 where
  pub incoming : IsFifo s.server.incoming s.arrived s.handled
  pub outgoing : IsFifo s.server.outgoing s.queued s.sent

process_round-IsFifo :
    (s : UdpServer) (entered left : List Packet)
    → IsFifo s.incoming entered left
    → let (s', p) = process_round s in IsFifo s'.incoming entered (left ++ leaving p)
unfolding process_round
process_round-IsFifo s entered left h = elim (Bool-cases (is_empty s.incoming)) [
  | inl idle ↦ rw (idle, append-nil) h
  | inr busy ↦ rw busy (pop-IsFifo s.incoming entered left h)
]

send_round-IsFifo :
    (s : UdpServer) (entered left : List Packet)
    → IsFifo s.outgoing entered left
    → let (s', p) = send_round s in IsFifo s'.outgoing entered (left ++ leaving p)
unfolding send_round
send_round-IsFifo s entered left h = elim (Bool-cases (is_empty s.outgoing)) [
  | inl idle ↦ rw (idle, append-nil) h
  | inr busy ↦ rw busy (pop-IsFifo s.outgoing entered left h)
]

process_round-outgoing : (s : UdpServer) → (process_round s).0.outgoing ≡ s.outgoing
unfolding process_round
process_round-outgoing s = ground arith

send_round-incoming : (s : UdpServer) → (send_round s).0.incoming ≡ s.incoming
unfolding send_round
send_round-incoming s = ground arith

perform-BothFifo : (e : Event) (s : System) → BothFifo s → BothFifo (perform e s)
unfolding perform recv_round receive queue_message start stop
perform-BothFifo (arrives (datagram bytes addr)) s v = elim (Bool-cases s.server.running) [
  | inl on ↦ simp on (record { incoming = push-IsFifo _ _ _ _ v.incoming; outgoing = v.outgoing })
  | inr off ↦ simp off v
]
perform-BothFifo (arrives aborted) s v = elim (Bool-cases s.server.running) [
  | inl on ↦ rw (on, append-nil) (record { incoming = v.incoming; outgoing = v.outgoing })
  | inr off ↦ simp off v
]
perform-BothFifo (arrives failed) s v = elim (Bool-cases s.server.running) [
  | inl on ↦ rw (on, append-nil) (record { incoming = v.incoming; outgoing = v.outgoing })
  | inr off ↦ simp off v
]
perform-BothFifo handles s v = elim (Bool-cases s.server.running) [
  | inl on ↦ simp on (record {
    incoming = process_round-IsFifo s.server _ _ v.incoming;
    outgoing = rw (process_round-outgoing s.server) v.outgoing;
  })
  | inr off ↦ simp off v
]
perform-BothFifo sends s v = elim (Bool-cases s.server.running) [
  | inl on ↦ simp on (record {
    incoming = rw (send_round-incoming s.server) v.incoming;
    outgoing = send_round-IsFifo s.server _ _ v.outgoing;
  })
  | inr off ↦ simp off v
]
perform-BothFifo (queues d) s v = record {
  incoming = v.incoming;
  outgoing = push-IsFifo _ _ _ _ v.outgoing;
}
perform-BothFifo starts s v = ground arith
perform-BothFifo stops s v = ground arith

initial-BothFifo : BothFifo initial
unfolding new_server
initial-BothFifo = record {
  incoming = ([], empty-Represents ring_capacity no_packet (omega arith) (omega arith), refl);
  outgoing = ([], empty-Represents ring_capacity no_packet (omega arith) (omega arith), refl);
}

run-BothFifo : (es : List Event) (s : System) → BothFifo s → BothFifo (run s es)
unfolding run
run-BothFifo [] s v = v
run-BothFifo (e ∷ es) s v = run-BothFifo es (perform e s) (perform-BothFifo e s v)

-- However the three threads, the callers of `queueMessage` and the socket take turns: the packets given
-- to the handler are, in order, the first of those that went into the incoming ring, and the packets
-- given to the socket are the first of those that went into the outgoing ring; the rest stand in the
-- ring, which represents exactly that rest. Only a packet that meets a full ring does not go in.
pub run-IsFifo :
    (es : List Event)
    → let s = run initial es in
      IsFifo s.server.incoming s.arrived s.handled × IsFifo s.server.outgoing s.queued s.sent
run-IsFifo es = let v = run-BothFifo es initial initial-BothFifo in (v.incoming, v.outgoing)
