-- ===== src/TcpServer/Threads.antt =====
-- The thread of a client of Src/Network/TCPServer.cpp: `handleClient` and `handleInRoomClient`, one round
-- of their loops at a time, against the handler behind `ITCPHandler`.
use rtype_ci_cd.Common.{
  ℕ, Bool, not, Option, none, some, List, [], ◌∷◌, length, ◌==◌, if◌then◌else◌, until_nul,
}
use rtype_ci_cd.Common.Int.{ℤ, pos}
use rtype_ci_cd.Common.Maps.{insert}
use rtype_ci_cd.Protocol.Tcp.MessageType
use rtype_ci_cd.Protocol.Tcp.Messages.{
  TcpMessage, connect_ok, list_rooms_response, create_room_response, join_room_response,
  lobby_state_response, game_starting_notification, chat_message,
}
use rtype_ci_cd.TcpServer.Handler.{TcpHandler}
use rtype_ci_cd.TcpServer.{
  TcpServer, in_lobby, in_room, finished, Action, write, close, Outcome, ConnectRead, Input,
  received, failed, stopped, leave_server, leave_room, register, chat_loop, full_message,
  room_infos, player_infos, writes,
}

module _ {H : Type 0} (handler : TcpHandler H) where
  open handler use {
    on_create_room, on_join_room, on_get_lobby_state, on_start_game, on_player_disconnect,
    on_get_rooms, is_game_starting,
  }

  -- `handleClient` up to its loop. `fails` is whether the write of the answer fails: then the thread
  -- returns at once. `time` is what the clock gives.
  unfoldable pub handshake : ℕ → ConnectRead → Bool → ℕ → TcpServer → H → Outcome H
  handshake socket req fails time s h =
      if req.eof
      then record { server = s; handler = h; phase = finished; actions = close socket ∷ [] }
      else if not (req.type == MessageType.connect)
      then record { server = s; handler = h; phase = finished; actions = close socket ∷ [] }
      else (let username = until_nul req.username in
          let id = s.next_player_id in
          record {
            server = register socket username s;
            handler = h;
            phase = if fails then finished else in_lobby id username;
            actions = write socket (connect_ok id 5252 time) ∷ [];
          })

  -- The thread leaves the loop of `handleClient`.
  unfoldable pub leave_lobby : ℕ → ℕ → TcpServer → H → Outcome H
  leave_lobby socket player s h = record {
    server = leave_server player s;
    handler = h;
    phase = finished;
    actions = close socket ∷ [];
  }

  unfoldable pub join_message : ℕ → ℕ → List ℕ → ℤ → TcpServer → H → Outcome H
  join_message socket player username room s h =
      let (h', success) = on_join_room room player username h in
      if success
      then record {
        server = record s { player_room_map = insert player room s.player_room_map };
        handler = h';
        phase = in_room player username room;
        actions = write socket (join_room_response (pos 1)) ∷ [];
      }
      else record {
        server = s;
        handler = h';
        phase = in_lobby player username;
        actions = write socket (join_room_response (pos 0)) ∷ [];
      }

  -- One message in the lobby.
  unfoldable pub lobby_message : ℕ → ℕ → List ℕ → ℕ → ℤ → TcpServer → H → Outcome H
  lobby_message socket player username type room s h =
      if type == MessageType.list_rooms
      then (let rooms = on_get_rooms h in
          record {
            server = s;
            handler = h;
            phase = in_lobby player username;
            actions = writes socket (list_rooms_response (pos (length rooms)) ∷ room_infos rooms);
          })
      else if type == MessageType.create_room
      then (let (h', id) = on_create_room h in
          record {
            server = s;
            handler = h';
            phase = in_lobby player username;
            actions = write socket (create_room_response id) ∷ [];
          })
      else if type == MessageType.join_room
      then join_message socket player username room s h
      else record { server = s; handler = h; phase = in_lobby player username; actions = [] }

  -- One round of the loop of `handleClient`.
  unfoldable pub lobby_round : ℕ → ℕ → List ℕ → Input → TcpServer → H → Outcome H
  lobby_round socket player username (received type room text) s h =
      lobby_message socket player username type room s h
  lobby_round socket player username failed s h = leave_lobby socket player s h
  lobby_round socket player username stopped s h = leave_lobby socket player s h

  -- `handleInRoomClient` returns, and `handleClient` after it.
  unfoldable pub leave_both : ℕ → ℕ → TcpServer → H → Outcome H
  leave_both socket player s h = leave_lobby socket player (leave_room player s) h

  -- The answer to `GET_LOBBY_STATE`.
  unfoldable pub lobby_state : ℤ → H → List TcpMessage
  lobby_state room h =
      if is_game_starting room h
      then game_starting_notification ∷ []
      else elim (on_get_lobby_state room h) [
        | none ↦ lobby_state_response 0 (pos 0) ∷ []
        | some (host, players) ↦
            lobby_state_response host (pos (length players)) ∷ player_infos players
      ]

  unfoldable pub chat_text : ℕ → ℤ → Option (List ℕ) → TcpServer → List Action
  chat_text player room none s = []
  chat_text player room (some msg) s =
      chat_loop player room s.player_room_map (chat_message (full_message player msg s))
        s.player_sockets

  -- What a message in a room does to the matches, and what is sent; no message changes the tables.
  unfoldable pub room_handler : ℕ → ℤ → ℕ → H → H
  room_handler player room type h =
      if type == MessageType.start_game_request then on_start_game room player h else h

  unfoldable pub room_actions : ℕ → ℕ → ℤ → ℕ → Option (List ℕ) → TcpServer → H → List Action
  room_actions socket player room type text s h =
      if type == MessageType.start_game_request
      then []
      else if type == MessageType.get_lobby_state
      then writes socket (lobby_state room h)
      else if type == MessageType.chat_message
      then chat_text player room text s
      else []

  -- One round of the loop of `handleInRoomClient`.
  unfoldable pub room_round : ℕ → ℕ → List ℕ → ℤ → Input → TcpServer → H → Outcome H
  room_round socket player username room (received type _ text) s h = record {
    server = s;
    handler = room_handler player room type h;
    phase = in_room player username room;
    actions = room_actions socket player room type text s h;
  }
  room_round socket player username room failed s h =
      leave_both socket player s (on_player_disconnect player room h)
  room_round socket player username room stopped s h = leave_both socket player s h
