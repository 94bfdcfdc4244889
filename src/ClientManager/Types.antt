-- ===== src/ClientManager/Types.antt =====
-- The state of the client's screens: Include/Client/ClientManager.hpp, with the members of its TCP client
-- (Include/Network/TCP/TCPClient.hpp).
use rtype_ci_cd.Common.{ℕ, Bool, false, Option, none, List, []}
use rtype_ci_cd.Common.Int.{ℤ, negsuc}
use rtype_ci_cd.Common.Strings.{Text, not_empty}
use rtype_ci_cd.Common.{if◌then◌else◌}
use rtype_ci_cd.ConfigManager.{Config}
use rtype_ci_cd.Renderer.Menus.{Screen}
use rtype_ci_cd.RTypeClient.Types.{RTypeClient}
use rtype_ci_cd.RTypeClient.Frame.{Frame}
use rtype_ci_cd.TcpClient.Requests.{Request, no_request}
use rtype_ci_cd.TcpClient.Lobby.{RoomInfo, LobbyState}

pub data ClientState : Type 0 where
  username_input main_menu options room_selection lobby in_game kicked exiting : ClientState

-- `socket` is the stream of `_tcpClient`, the two requests are its members, and the two caches its static
-- locals. `connect_response` is the struct behind its type byte. `remap` is `_actionToRemap` of the menus'
-- renderer, and `game` the match with that of its own. `file` is what was last written to the settings.
-- A `double` is its bit pattern.
pub record ClientManager (S : Type 0) : Type 0 where
  pub config : Config
  pub state : ClientState
  pub socket : S
  pub non_blocking_set : Bool
  pub create_request : Request
  pub join_request : Request
  pub cached_rooms : List RoomInfo
  pub cached_state : LobbyState
  pub connect_response : List ℕ
  pub rooms : List RoomInfo
  pub last_room_update : ℕ
  pub lobby_state : LobbyState
  pub last_lobby_update : ℕ
  pub connected : Bool
  pub create_room_initiated : Bool
  pub join_room_initiated : Bool
  pub create_room_response : Option ℤ
  pub join_room_response : Option Bool
  pub room_to_join : ℤ
  pub remap : Option Text
  pub game : Option (RTypeClient × Option Text)
  pub file : Option Text

-- What a frame of the screens reads: the characters and keys, the window, the clock with its two tests
-- (`now - last > 1.0` and `> 0.5`), the stream after `asio::connect` or nothing where it throws, what an
-- uninitialised `RoomInfo` holds, whether `resolve`, `open` and `non_blocking` in the constructor of `UDPClient`
-- return or one of them throws, and what a frame of the match reads.
pub record AppFrame (S : Type 0) : Type 0 where
  pub chars : List ℕ
  pub backspace : Bool
  pub enter : Bool
  pub clicked : Bool
  pub key : ℤ
  pub screen : Screen
  pub now : ℕ
  pub lobby_now : ℕ
  pub after_second : ℕ → ℕ → Bool
  pub after_half : ℕ → ℕ → Bool
  pub connection : Option S
  pub junk : List ℕ
  pub udp_opens : Bool
  pub match_frame : Frame

abbrev pub no_lobby : LobbyState
no_lobby = record { game_is_starting = false; host_id = 0; players = [] }

-- The constructor, after the address was found to answer. `response` is what `_connectRes` happens to hold.
unfoldable pub new_client_manager :
    {S : Type 0} → Config → S → List ℕ → Option Text → ClientManager S
new_client_manager config socket response file = record {
  config = config;
  state = if not_empty config.username then main_menu else username_input;
  socket = socket;
  non_blocking_set = false;
  create_request = no_request;
  join_request = no_request;
  cached_rooms = [];
  cached_state = no_lobby;
  connect_response = response;
  rooms = [];
  last_room_update = 0;
  lobby_state = no_lobby;
  last_lobby_update = 0;
  connected = false;
  create_room_initiated = false;
  join_room_initiated = false;
  create_room_response = none;
  join_room_response = none;
  room_to_join = negsuc 0;
  remap = none;
  game = none;
  file = file;
}
