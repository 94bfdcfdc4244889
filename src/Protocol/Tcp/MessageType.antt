-- ===== src/Protocol/Tcp/MessageType.antt =====
-- `enum TCPMessageType` of Include/Network/Protocole/ProtocoleTCP.hpp, as its values.
use rtype_ci_cd.Common.{ℕ}

abbrev pub connect : ℕ
connect = 1

abbrev pub connect_ok : ℕ
connect_ok = 2

abbrev pub connect_error : ℕ
connect_error = 3

abbrev pub list_rooms : ℕ
list_rooms = 4

abbrev pub list_rooms_response : ℕ
list_rooms_response = 5

abbrev pub create_room : ℕ
create_room = 6

abbrev pub create_room_response : ℕ
create_room_response = 7

abbrev pub join_room : ℕ
join_room = 8

abbrev pub join_room_response : ℕ
join_room_response = 9

abbrev pub get_lobby_state : ℕ
get_lobby_state = 10

abbrev pub lobby_state_response : ℕ
lobby_state_response = 11

abbrev pub start_game_request : ℕ
start_game_request = 12

abbrev pub game_starting_notification : ℕ
game_starting_notification = 13

abbrev pub chat_message : ℕ
chat_message = 14
