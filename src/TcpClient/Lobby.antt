-- ===== src/TcpClient/Lobby.antt =====
-- `sendConnectRequest`, `getRooms`, `sendStartGameRequest` and `getLobbyState` of
-- Src/Network/TCPClient.cpp.
use rtype_ci_cd.Common.{
  ℕ, zero, suc, Bool, true, false, ◌&&◌, List, [], ◌∷◌, ◌++◌, take, drop, length, ltb, ◌==◌,
  from_le, uint_at, until_nul, if◌then◌else◌,
}
use rtype_ci_cd.Common.Int.{ℤ, pos_part}
use rtype_ci_cd.Common.Strings.{Text}
use rtype_ci_cd.Protocol.Udp.Messages.{int_of_bits}
use rtype_ci_cd.Protocol.Tcp.MessageType
use rtype_ci_cd.Protocol.Tcp.Messages.{
  bytes_of, connect, list_rooms, get_lobby_state, start_game_request,
}
use rtype_ci_cd.TcpClient.Socket.{Socket}
use rtype_ci_cd.TcpClient.Requests.{drain_list, skip_error}

-- What is used of `ConnectResponse`.
pub record ConnectResponse : Type 0 where
  pub player_id : ℕ
  pub udp_port : ℕ
  pub server_time_ms : ℕ

pub record RoomInfo : Type 0 where
  pub id : ℤ
  pub player_count : ℤ
  pub max_players : ℤ

pub record LobbyPlayerInfo : Type 0 where
  pub player_id : ℕ
  pub username : Text

pub record LobbyState : Type 0 where
  pub game_is_starting : Bool
  pub host_id : ℕ
  pub players : List LobbyPlayerInfo

-- The struct in memory after a read into it: what it held, `old`, stays behind the bytes that came.
abbrev pub overwrite : List ℕ → List ℕ → List ℕ
overwrite bytes old = bytes ++ drop (length bytes) old

unfoldable pub cast_connect_response : List ℕ → ConnectResponse
cast_connect_response bytes = record {
  player_id = uint_at 4 0 bytes;
  udp_port = uint_at 2 4 bytes;
  server_time_ms = uint_at 4 6 bytes;
}

unfoldable pub cast_room_info : List ℕ → RoomInfo
cast_room_info bytes = record {
  id = int_of_bits (uint_at 4 0 bytes);
  player_count = int_of_bits (uint_at 4 4 bytes);
  max_players = int_of_bits (uint_at 4 8 bytes);
}

unfoldable pub cast_lobby_player_info : List ℕ → LobbyPlayerInfo
cast_lobby_player_info bytes = record {
  player_id = uint_at 4 0 bytes;
  username = until_nul (take 32 (drop 4 bytes));
}

module _ {S : Type 0} (io : Socket S) where
  -- Whether the handshake succeeded, and the ten bytes of the response behind its type. A read or a write
  -- that fails throws, and the socket is made non-blocking again.
  unfoldable pub send_connect_request : Text → List ℕ → S → Bool × List ℕ × S
  send_connect_request username out s =
      let (sent, written) =
        io.write (bytes_of (connect (take 31 (until_nul username))))
          (io.set_non_blocking false s) in
      let type = io.read 1 written in
      let body = io.read 10 type.next in
      let error = io.read 64 type.next in
      let leave = io.set_non_blocking true in
      if sent && type.ok
      then (if from_le type.bytes == 2
          then (body.ok, overwrite body.bytes out, leave body.next)
          else if from_le type.bytes == 3
          then (false, out, leave error.next)
          else (false, out, leave type.next))
      else (false, out, leave (if sent then type.next else written))

  -- Errors of a read are not looked at. `junk` is what the uninitialised struct holds.
  unfoldable pub read_rooms : List ℕ → ℕ → S → List RoomInfo × S
  read_rooms junk zero s = ([], s)
  read_rooms junk (suc n) s =
      let r = io.read 12 s in
      let (rooms, last) = read_rooms junk n r.next in
      (cast_room_info (overwrite r.bytes junk) ∷ rooms, last)

  -- The rooms, which are also the new `cachedRooms`.
  unfoldable pub get_rooms : List ℕ → List RoomInfo → S → List RoomInfo × S
  get_rooms junk cached s =
      let asked = (io.write (bytes_of list_rooms) s).1 in
      let type = io.read 1 asked in
      let count = io.read 4 type.next in
      if ltb (io.available asked) 5
      then (cached, asked)
      else if from_le type.bytes == MessageType.list_rooms_response
      then read_rooms junk (pos_part (int_of_bits (from_le count.bytes))) count.next
      else (cached, type.next)

  unfoldable pub send_start_game_request : S → S
  send_start_game_request s = (io.write (bytes_of start_game_request) s).1

  -- The players up to the first read that fails, and whether none did.
  unfoldable pub read_players : ℕ → S → List LobbyPlayerInfo × Bool × S
  read_players zero s = ([], true, s)
  read_players (suc n) s =
      let r = io.read 36 s in
      let (players, ok, last) = read_players n r.next in
      if r.ok then (cast_lobby_player_info r.bytes ∷ players, ok, last) else ([], false, r.next)

  unfoldable pub read_lobby : LobbyState → S → LobbyState × S
  read_lobby cached s =
      let r = io.read 8 s in
      let (players, ok, last) =
        read_players (pos_part (int_of_bits (uint_at 4 4 r.bytes))) r.next in
      if r.ok
      then (
        if ok
            then record {
              game_is_starting = false;
              host_id = uint_at 4 0 r.bytes;
              players = players;
            }
            else cached,
        last,
      )
      else (cached, r.next)

  -- What follows a type byte.
  unfoldable pub read_lobby_packet : ℕ → LobbyState → S → LobbyState × S
  read_lobby_packet type cached s =
      if type == MessageType.lobby_state_response
      then read_lobby cached s
      else if type == MessageType.game_starting_notification
      then (record cached { game_is_starting = true }, s)
      else if type == MessageType.list_rooms_response
      then (cached, drain_list io s)
      else if type == MessageType.create_room_response
      then (cached, (io.read 4 s).next)
      else if type == MessageType.join_room_response
      then (cached, (io.read 4 s).next)
      else if type == MessageType.connect_error
      then (cached, skip_error io s)
      else (cached, s)

  -- `while (available() > 0 && max_loops > 0)`. Where the read of the type fails, the loop is left and the
  -- socket stays blocking.
  unfoldable pub lobby_loop : ℕ → LobbyState → S → LobbyState × S
  lobby_loop zero cached s = (cached, s)
  lobby_loop (suc max_loops) cached s =
      let r = io.read 1 (io.set_non_blocking false s) in
      let (next, read) = read_lobby_packet (from_le r.bytes) cached r.next in
      let rest = lobby_loop max_loops next (io.set_non_blocking true read) in
      if ltb 0 (io.available s) then (if r.ok then rest else (cached, r.next)) else (cached, s)

  -- The state, which is also the new `cachedState`.
  unfoldable pub call_get_lobby_state : LobbyState → S → LobbyState × S
  call_get_lobby_state cached s =
      let (sent, asked) = io.write (bytes_of get_lobby_state) s in
      if sent then lobby_loop 10 cached asked else (cached, asked)
