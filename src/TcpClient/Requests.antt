-- ===== src/TcpClient/Requests.antt =====
-- The requests of Src/Network/TCPClient.cpp for a room: `createRoom` and `joinRoom` are called until they
-- give a value.
use rtype_ci_cd.Common.{
  ℕ, ◌*◌, Bool, true, false, Option, none, some, ltb, ◌==◌, from_le, if◌then◌else◌,
}
use rtype_ci_cd.Common.Int.{ℤ, pos, negsuc, eq_ℤ}
use rtype_ci_cd.Protocol.Udp.Messages.{int_of_bits}
use rtype_ci_cd.Protocol.Tcp.MessageType
use rtype_ci_cd.Protocol.Tcp.Messages.{TcpMessage, bytes_of, create_room, join_room}
use rtype_ci_cd.TcpClient.Socket.{Read, Socket}

pub data RequestState : Type 0 where
  idle sent_request received_type received_data : RequestState

-- The state of a request, and `…PendingRespType`.
pub record Request : Type 0 where
  pub state : RequestState
  pub pending_resp_type : ℕ

-- What a call came back with: no value yet, an error, or the integer of the response.
pub data Reply : Type 0 where
  pending failed : Reply
  answered : ℤ → Reply

abbrev pub no_request : Request
no_request = record { state = idle; pending_resp_type = 0 }

module _ {S : Type 0} (io : Socket S) where
  -- `asio::read` into an `int` that is zero.
  abbrev pub int_of_read : Read S → ℤ
  int_of_read r = int_of_bits (from_le r.bytes)

  -- `if (!ec && count > 0)`: the bytes of `count` times `RoomInfo`.
  abbrev pub drain_rooms : Bool → ℤ → S → S
  drain_rooms true (pos n) s = if ltb 0 n then (io.read (n * 12) s).next else s
  drain_rooms true (negsuc n) s = s
  drain_rooms false count s = s

  -- Of a stray list of rooms, what follows its type.
  unfoldable pub drain_list : S → S
  drain_list s = let r = io.read 4 s in drain_rooms r.ok (int_of_read r) r.next

  -- Of an error, what follows its type.
  abbrev pub skip_error : S → S
  skip_error s = (io.read 64 s).next

  abbrev pub finish : Reply → S → Reply × Request × S
  finish reply s = (reply, no_request, io.set_non_blocking true s)

  -- What follows the type byte `type`, where `expected` is the type of the response.
  unfoldable pub read_body : ℕ → ℕ → S → Reply × Request × S
  read_body expected type s =
      if type == expected
      then (let r = io.read 4 s in
          finish (if r.ok then answered (int_of_read r) else failed) r.next)
      else if type == MessageType.connect_error
      then finish failed (skip_error s)
      else if type == MessageType.list_rooms_response
      then (
        pending,
        record { state = sent_request; pending_resp_type = type },
        io.set_non_blocking true (drain_list s),
      )
      else finish failed s

  abbrev pub send_request : TcpMessage → Request → S → Reply × Request × S
  send_request request q s =
      let (sent, next) = io.write (bytes_of request) s in
      if sent then (pending, record q { state = sent_request }, next) else (failed, q, next)

  abbrev pub receive_response : ℕ → Request → S → Reply × Request × S
  receive_response expected q s =
      if ltb (io.available s) 1
      then (pending, q, s)
      else (let r = io.read 1 (io.set_non_blocking false s) in
          if r.ok
          then read_body expected (from_le r.bytes) r.next
          else (failed, record q { state = idle }, io.set_non_blocking true r.next))

  -- The switch of `createRoom` and of `joinRoom`.
  unfoldable pub exchange : TcpMessage → ℕ → Request → S → Reply × Request × S
  exchange request expected q s = elim q.state [
    | idle ↦ send_request request q s
    | sent_request ↦ receive_response expected q s
    | received_type ↦ (failed, record q { state = idle }, s)
    | received_data ↦ (failed, record q { state = idle }, s)
  ]

  -- The id of the room, -1 for an error, or no value yet.
  abbrev pub room_of : Reply → Option ℤ
  room_of pending = none
  room_of failed = some (negsuc 0)
  room_of (answered id) = some id

  unfoldable pub call_create_room : Request → S → Option ℤ × Request × S
  call_create_room q s =
      let (reply, q', s') = exchange create_room MessageType.create_room_response q s in
      (room_of reply, q', s')

  -- Whether the room is joined, or no value yet.
  abbrev pub joined_of : Reply → Option Bool
  joined_of pending = none
  joined_of failed = some false
  joined_of (answered status) = some (eq_ℤ status (pos 1))

  unfoldable pub call_join_room : ℤ → Request → S → Option Bool × Request × S
  call_join_room room_id q s =
      let (reply, q', s') = exchange (join_room room_id) MessageType.join_room_response q s in
      (joined_of reply, q', s')
