-- ===== src/TcpServer.antt =====
-- Src/Network/TCPServer.cpp and Include/Network/TCP/TCPServer.hpp: the clients of the lobby. A client's
-- thread runs `handleClient`; what its reads give, and whether its first write fails, is the environment.
-- Each section under `_serverMutex`, and each call of the handler, is inside one step of one thread.
pub mod Handler
pub mod Threads
pub mod System
pub mod Tables
pub mod Changes
pub mod Agreement
pub mod Order
pub mod Delivery
pub mod Talk
pub mod Conversation
mod Tests
use rtype_ci_cd.Common.{
  ℕ, ◌+◌, ◌%◌, Bool, true, false, not, ◌&&◌, Option, none, some, List, [], ◌∷◌, ◌++◌, length, map,
  ◌==◌, if◌then◌else◌, u32, until_nul,
}
use rtype_ci_cd.Common.Int.{ℤ, pos, eq_ℤ}
use rtype_ci_cd.Common.Maps.{find, insert, erase}
use rtype_ci_cd.Protocol.Tcp.MessageType
use rtype_ci_cd.Protocol.Tcp.Messages.{
  TcpMessage, connect_ok, list_rooms_response, room_info, create_room_response, join_room_response,
  lobby_state_response, lobby_player_info, game_starting_notification, chat_message,
}
use rtype_ci_cd.TcpServer.Handler.{TcpHandler}

-- The maps, the counter and the flag. A socket is named by a number. `_nextRoomId` is never used.
pub record TcpServer : Type 0 where
  pub running : Bool
  pub next_player_id : ℕ
  pub player_usernames : List (ℕ × List ℕ)
  pub player_sockets : List (ℕ × ℕ)
  pub player_room_map : List (ℕ × ℤ)

unfoldable pub new_server : TcpServer
new_server = record {
  running = false;
  next_player_id = 1;
  player_usernames = [];
  player_sockets = [];
  player_room_map = [];
}

-- Where a client's thread stands: before the handshake, in the loop of `handleClient` or of
-- `handleInRoomClient`, or returned (or never started).
pub data Phase : Type 0 where
  connecting : Phase
  in_lobby : ℕ → List ℕ → Phase
  in_room : ℕ → List ℕ → ℤ → Phase
  finished : Phase

-- What the server does to a socket.
pub data Action : Type 0 where
  write : ℕ → TcpMessage → Action
  close : ℕ → Action

-- A step of a thread of the server.
pub record Outcome (H : Type 0) : Type 0 where
  pub server : TcpServer
  pub handler : H
  pub phase : Phase
  pub actions : List Action

-- The buffer `connectReq` after its read, and whether the read met the end of the stream.
pub record ConnectRead : Type 0 where
  pub eof : Bool
  pub type : ℕ
  pub username : List ℕ

-- What the reads of one round of a loop give: a message type, and what the further reads give if the
-- round comes to them, the value that `req.roomId` then holds after `JOIN_ROOM`, and after `CHAT_MESSAGE`
-- the text, or nothing if a read fails or the length is zero. `failed` is a failed read of the type, and
-- `stopped` a round that finds `_running` false.
pub data Input : Type 0 where
  received : ℕ → ℤ → Option (List ℕ) → Input
  failed stopped : Input

-- The end of `handleClient`.
unfoldable pub leave_server : ℕ → TcpServer → TcpServer
leave_server player s = record s {
  player_sockets = erase player s.player_sockets;
  player_usernames = erase player s.player_usernames;
}

-- `_playerRoomMap.erase(playerId)`, once `handleInRoomClient` has returned.
unfoldable pub leave_room : ℕ → TcpServer → TcpServer
leave_room player s = record s { player_room_map = erase player s.player_room_map }

-- The registration of a client.
unfoldable pub register : ℕ → List ℕ → TcpServer → TcpServer
register socket username s = record s {
  next_player_id = (s.next_player_id + 1) % u32;
  player_sockets = insert s.next_player_id socket s.player_sockets;
  player_usernames = insert s.next_player_id username s.player_usernames;
}

-- The recipients of a chat message: `for (auto const& [pId, sock] : _playerSockets) if (…)`.
unfoldable pub in_same_room : ℕ → ℤ → List (ℕ × ℤ) → ℕ → Bool
in_same_room player room rooms other =
    not (other == player) && elim (find other rooms) [ none ↦ false | some r ↦ eq_ℤ r room ]

unfoldable pub chat_loop : ℕ → ℤ → List (ℕ × ℤ) → TcpMessage → List (ℕ × ℕ) → List Action
chat_loop player room rooms message [] = []
chat_loop player room rooms message ((other, socket) ∷ sockets) =
    if in_same_room player room rooms other
    then write socket message ∷ chat_loop player room rooms message sockets
    else chat_loop player room rooms message sockets

-- `senderName + ": " + msg`.
unfoldable pub full_message : ℕ → List ℕ → TcpServer → List ℕ
full_message player msg s =
    elim (find player s.player_usernames) [
      | none ↦ 85 ∷ 110 ∷ 107 ∷ 110 ∷ 111 ∷ 119 ∷ 110 ∷ []
      | some name ↦ name
    ]
    ++ 58 ∷ 32 ∷ msg

unfoldable pub room_infos : List (ℤ × ℕ) → List TcpMessage
room_infos rooms = map (λ (r : ℤ × ℕ). room_info r.0 (pos r.1) (pos 4)) rooms

unfoldable pub player_infos : List (ℕ × List ℕ) → List TcpMessage
player_infos players = map (λ (p : ℕ × List ℕ). lobby_player_info p.0 p.1) players

abbrev pub writes : ℕ → List TcpMessage → List Action
writes socket messages = map (write socket) messages

-- `start`, `stop`: the sockets that `stop` closes are those of the map.
unfoldable pub start : TcpServer → TcpServer
start s = if s.running then s else record s { running = true }

unfoldable pub stop : TcpServer → TcpServer × List Action
stop s =
    if s.running
    then (record s { running = false }, map (λ (entry : ℕ × ℕ). close (entry.1)) s.player_sockets)
    else (s, [])

unfoldable pub kick_player : ℕ → TcpServer → List Action
kick_player player s = elim (find player s.player_sockets) [
  | none ↦ []
  | some socket ↦ close socket ∷ []
]
