-- ===== src/ServerManager/Lobby.antt =====
-- `ServerManager` of Src/Server/ServerManager.cpp as the `ITCPHandler` behind the TCP server.
use rtype_ci_cd.Common.{ℕ}
use rtype_ci_cd.TcpServer.Handler.{TcpHandler}
use rtype_ci_cd.ServerManager.{
  ServerManager, on_create_room, on_join_room, on_get_lobby_state, on_start_game,
  on_player_disconnect, on_get_rooms, is_game_starting,
}

-- `address` and `now` are where and when a room that is created gets its match.
unfoldable pub lobby_handler : (ServerManager → ℕ × ℕ) → TcpHandler ServerManager
lobby_handler place = record {
  on_create_room = λ s. let (address, now) = place s in on_create_room address now s;
  on_join_room = on_join_room;
  on_get_lobby_state = on_get_lobby_state;
  on_start_game = on_start_game;
  on_player_disconnect = on_player_disconnect;
  on_get_rooms = on_get_rooms;
  is_game_starting = is_game_starting;
}
