-- ===== src/Protocol/Tcp/Messages.antt =====
-- The packed structs of Include/Network/Protocole/ProtocoleTCP.hpp, each with its bytes.
use rtype_ci_cd.Common.{ℕ, zero, suc, ◌+◌, ◌%◌, List, ◌∷◌, [], ◌++◌, length, le_bytes}
use rtype_ci_cd.Common.Int.{ℤ}
use rtype_ci_cd.Protocol.Udp.Messages.{bits_of_int}
use rtype_ci_cd.Protocol.Tcp.MessageType

-- A struct each, with the fields that follow `type`. A `char` array holds the characters of a C string.
pub data TcpMessage : Type 0 where
  connect : List ℕ → TcpMessage
  connect_ok : ℕ → ℕ → ℕ → TcpMessage
  connect_error : List ℕ → TcpMessage
  list_rooms create_room get_lobby_state start_game_request : TcpMessage
  game_starting_notification : TcpMessage
  list_rooms_response : ℤ → TcpMessage
  -- `RoomInfo`: it has no `type`.
  room_info : ℤ → ℤ → ℤ → TcpMessage
  create_room_response : ℤ → TcpMessage
  join_room : ℤ → TcpMessage
  join_room_response : ℤ → TcpMessage
  -- `LobbyPlayerInfo`: it has no `type`.
  lobby_player_info : ℕ → List ℕ → TcpMessage
  lobby_state_response : ℕ → ℤ → TcpMessage
  -- The packet that `handleInRoomClient` builds: the length in two bytes, and the characters.
  chat_message : List ℕ → TcpMessage

-- An `int32_t`.
abbrev pub int_bytes : ℤ → List ℕ
int_bytes a = le_bytes 4 (bits_of_int a)

-- A `char` array of `n + 1` elements, into which `strncpy(…, n)` has copied a string, padded with zeros,
-- and whose last element is zero.
abbrev pub char_array : ℕ → List ℕ → List ℕ
char_array zero s = 0 ∷ []
char_array (suc n) [] = 0 ∷ char_array n []
char_array (suc n) (c ∷ cs) = c ∷ char_array n cs

unfoldable pub bytes_of : TcpMessage → List ℕ
unfolding bits_of_int
bytes_of (connect username) = MessageType.connect ∷ char_array 31 username
bytes_of (connect_ok player_id udp_port server_time_ms) =
    MessageType.connect_ok
    ∷ (le_bytes 4 player_id ++ (le_bytes 2 udp_port ++ le_bytes 4 server_time_ms))
bytes_of (connect_error message) = MessageType.connect_error ∷ char_array 63 message
bytes_of list_rooms = MessageType.list_rooms ∷ []
bytes_of create_room = MessageType.create_room ∷ []
bytes_of get_lobby_state = MessageType.get_lobby_state ∷ []
bytes_of start_game_request = MessageType.start_game_request ∷ []
bytes_of game_starting_notification = MessageType.game_starting_notification ∷ []
bytes_of (list_rooms_response count) = MessageType.list_rooms_response ∷ int_bytes count
bytes_of (room_info id player_count max_players) =
    int_bytes id ++ (int_bytes player_count ++ int_bytes max_players)
bytes_of (create_room_response room_id) = MessageType.create_room_response ∷ int_bytes room_id
bytes_of (join_room room_id) = MessageType.join_room ∷ int_bytes room_id
bytes_of (join_room_response status) = MessageType.join_room_response ∷ int_bytes status
bytes_of (lobby_player_info player_id username) = le_bytes 4 player_id ++ char_array 31 username
bytes_of (lobby_state_response host_id player_count) =
    MessageType.lobby_state_response ∷ (le_bytes 4 host_id ++ int_bytes player_count)
bytes_of (chat_message text) = MessageType.chat_message ∷ (le_bytes 2 (length text % 65536) ++ text)

-- `sizeof` of each packed struct. The chat packet has no struct: its size is that of `packet`.
unfoldable pub size_of : TcpMessage → ℕ
size_of (connect username) = 33
size_of (connect_ok player_id udp_port server_time_ms) = 11
size_of (connect_error message) = 65
size_of list_rooms = 1
size_of create_room = 1
size_of get_lobby_state = 1
size_of start_game_request = 1
size_of game_starting_notification = 1
size_of (list_rooms_response count) = 5
size_of (room_info id player_count max_players) = 12
size_of (create_room_response room_id) = 5
size_of (join_room room_id) = 5
size_of (join_room_response status) = 5
size_of (lobby_player_info player_id username) = 36
size_of (lobby_state_response host_id player_count) = 9
size_of (chat_message text) = 3 + length text
