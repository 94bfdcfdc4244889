-- ===== src/ServerManager.antt =====
-- Src/Server/ServerManager.cpp and Include/Server/ServerManager.hpp: the rooms, and how the two servers,
-- the game loop and the shell reach them. Each method is one step: those that take `_serverMutex` hold it
-- throughout.
pub mod Rooms
pub mod Inputs
pub mod Shell
pub mod Lobby
mod Tests
use rtype_ci_cd.Common.{
  ℕ, suc, ◌+◌, Bool, true, false, not, Option, none, some, List, [], ◌∷◌, ◌++◌, length, map, ltb,
  ◌==◌, if◌then◌else◌, uint_at,
}
use rtype_ci_cd.Common.Int.{ℤ, pos, eq_ℤ, ltb_ℤ}
use rtype_ci_cd.Common.Machine.{Machine}
use rtype_ci_cd.Network.{SockAddr, Datagram}
use rtype_ci_cd.Protocol.Udp.MessageType
use rtype_ci_cd.Protocol.Udp.Messages.{pong, read_player_input, read_player_disconnect, read_ping}
use rtype_ci_cd.Game.Types.{Player, BossState, no_boss, Game, GameStatus, new_game}
use rtype_ci_cd.Game.Players.{
  add_player, get_player, update_player_udp_addr, get_player_count, get_host_id, set_status,
  disconnect_player, remove_player_from_lobby, kick_player,
}
use rtype_ci_cd.Game.Shots.{handle_player_input}
use rtype_ci_cd.Game.Update.{Frame, update}
use rtype_ci_cd.UdpServer.{UdpServer, new_server, queue_message, queue_messages}

-- An entry of `_rooms`: the id, the address of the `Game`, and the `Game` with its entries of the static
-- maps of Src/Server/Game.cpp.
pub record Room : Type 0 where
  pub id : ℤ
  pub address : ℕ
  pub game : Game

-- `boss_entries` holds what the static maps have for addresses where no game lives: nothing removes the
-- entries of a game that is deleted. `_nextRoomId` counts from 0; its overflow at 2 ^ 31 is left out.
pub record ServerManager : Type 0 where
  pub rooms : List Room
  pub udp_server : UdpServer
  pub running : Bool
  pub next_room_id : ℕ
  pub boss_entries : ℕ → BossState

unfoldable pub new_manager : ServerManager
new_manager = record {
  rooms = [];
  udp_server = new_server;
  running = true;
  next_room_id = 0;
  boss_entries = λ _. no_boss;
}

-- `_rooms.find(id)`.
unfoldable pub find_room : ℤ → List Room → Option Room
find_room id [] = none
find_room id (r ∷ rs) = if eq_ℤ r.id id then some r else find_room id rs

-- `_rooms[id] = …`, in the order of the keys.
unfoldable pub insert_room : Room → List Room → List Room
insert_room r [] = r ∷ []
insert_room r (s ∷ rs) =
    if eq_ℤ s.id r.id then r ∷ rs else if ltb_ℤ r.id s.id then r ∷ s ∷ rs else s ∷ insert_room r rs

unfoldable pub erase_room : ℤ → List Room → List Room
erase_room id [] = []
erase_room id (r ∷ rs) = if eq_ℤ r.id id then rs else r ∷ erase_room id rs

-- A method of the game in the room `id`, through the shared pointer.
unfoldable pub change_room : ℤ → (Game → Game) → List Room → List Room
change_room id f [] = []
change_room id f (r ∷ rs) =
    if eq_ℤ r.id id then record r { game = f r.game } ∷ rs else r ∷ change_room id f rs

abbrev pub has_player : Game → ℕ → Bool
has_player g id = elim (get_player g id) [ none ↦ false | some _ ↦ true ]

-- `for (auto& [id, game] : _rooms) if (game->getPlayer(playerId)) { …; break; }`
unfoldable pub in_room_of :
    ℕ → (Game → Game × List Datagram) → List Room → List Room × List Datagram
in_room_of id f [] = ([], [])
in_room_of id f (r ∷ rs) =
    let (rest, sent) = in_room_of id f rs in
    if has_player r.game id
    then (let (g, out) = f r.game in (record r { game = g } ∷ rs, out))
    else (r ∷ rest, sent)

-- The rooms after a method of the game has run, and its packets on the way.
abbrev pub with_rooms : ServerManager → List Room × List Datagram → ServerManager
with_rooms s (rooms, sent) = record s {
  rooms = rooms;
  udp_server = queue_messages s.udp_server sent;
}

module _ (m : Machine) where
  -- `updatePlayerUdpAddr`, then `handlePlayerInput`.
  unfoldable pub on_player_input : List ℕ → SockAddr → ServerManager → ServerManager
  on_player_input bytes addr s =
      let pkt = read_player_input bytes in
      with_rooms s (
        in_room_of pkt.player_id
          (λ g. handle_player_input m (update_player_udp_addr g pkt.player_id addr) pkt) s.rooms)

  unfoldable pub on_player_disconnected : List ℕ → ServerManager → ServerManager
  on_player_disconnected bytes s =
      let pkt = read_player_disconnect bytes in
      with_rooms s (in_room_of pkt.player_id (λ g. disconnect_player g pkt.player_id) s.rooms)

  unfoldable pub on_ping : List ℕ → SockAddr → ServerManager → ServerManager
  on_ping bytes addr s = record s {
    udp_server = queue_message s.udp_server (record {
      message = pong (record { timestamp = (read_ping bytes).timestamp });
      addr = addr;
    });
  }

  -- The packet `data[0 .. length)`, whose bytes are the list.
  unfoldable pub on_message_received : List ℕ → SockAddr → ServerManager → ServerManager
  on_message_received bytes addr s =
      if ltb (length bytes) 1
      then s
      else if uint_at 1 0 bytes == MessageType.player_input
      then (if length bytes == 10 then on_player_input bytes addr s else s)
      else if uint_at 1 0 bytes == MessageType.player_disconnect
      then (if length bytes == 5 then on_player_disconnected bytes s else s)
      else if uint_at 1 0 bytes == MessageType.ping
      then (if length bytes == 5 then on_ping bytes addr s else s)
      else s

  -- The loop over the rooms in `run`. `frames` gives what each update reads from outside.
  unfoldable pub update_rooms : (ℤ → Frame) → List Room → List Room × List Datagram
  update_rooms frames [] = ([], [])
  update_rooms frames (r ∷ rs) =
      let (g, out) = update m (frames r.id) r.game in
      let (rest, sent) = update_rooms frames rs in (record r { game = g } ∷ rest, out ++ sent)

  -- One round of the loop of `run`.
  unfoldable pub run_round : (ℤ → Frame) → ServerManager → ServerManager
  run_round frames s = if s.running then with_rooms s (update_rooms frames s.rooms) else s

-- `make_shared` puts the game at `address`, at the time `now`.
unfoldable pub on_create_room : ℕ → ℕ → ServerManager → ServerManager × ℤ
on_create_room address now s =
    let id = pos s.next_room_id in
    let room : Room = record {
      id = id;
      address = address;
      game = new_game (s.boss_entries address) now;
    } in
    (record s { rooms = insert_room room s.rooms; next_room_id = s.next_room_id + 1 }, id)

unfoldable pub on_get_rooms : ServerManager → List (ℤ × ℕ)
on_get_rooms s = map (λ r. (r.id, get_player_count r.game)) s.rooms

abbrev pub in_lobby : GameStatus → Bool
in_lobby GameStatus.lobby = true
in_lobby GameStatus.playing = false

unfoldable pub on_join_room : ℤ → ℕ → List ℕ → ServerManager → ServerManager × Bool
on_join_room id player username s = elim (find_room id s.rooms) [
  | none ↦ (s, false)
  | some r ↦
      if in_lobby r.game.status
      then (record s { rooms = change_room id (λ g. add_player g player username) s.rooms }, true)
      else (s, false)
]

unfoldable pub on_get_players_in_room : ℤ → ServerManager → List ℕ
on_get_players_in_room id s = elim (find_room id s.rooms) [
  | none ↦ []
  | some r ↦ map (λ (p : Player). p.id) r.game.players
]

unfoldable pub is_game_starting : ℤ → ServerManager → Bool
is_game_starting id s = elim (find_room id s.rooms) [
  | none ↦ false
  | some r ↦ not (in_lobby r.game.status)
]

unfoldable pub on_player_disconnect : ℕ → ℤ → ServerManager → ServerManager
on_player_disconnect player id s = record s {
  rooms = change_room id (λ g. remove_player_from_lobby g player) s.rooms;
}

-- The host and the players, or nothing where the room does not exist.
unfoldable pub on_get_lobby_state : ℤ → ServerManager → Option (ℕ × List (ℕ × List ℕ))
on_get_lobby_state id s = elim (find_room id s.rooms) [
  | none ↦ none
  | some r ↦ some (get_host_id r.game, map (λ (p : Player). (p.id, p.username)) r.game.players)
]

unfoldable pub on_start_game : ℤ → ℕ → ServerManager → ServerManager
on_start_game id player s = record s {
  rooms =
      change_room id (λ g. if player == get_host_id g then set_status g GameStatus.playing else g)
        s.rooms;
}
