-- ===== src/Game/Players.antt =====
-- The players of a match: the methods of Src/Server/Game.cpp that add, find, change and remove them.
use rtype_ci_cd.Common.{
  ℕ, ◌+◌, ◌%◌, true, Option, none, some, List, [], ◌∷◌, ◌++◌, length, take, ltb, ◌==◌,
  if◌then◌else◌, u32, until_nul,
}
use rtype_ci_cd.Common.Machine.{Machine}
use rtype_ci_cd.Network.{SockAddr, Datagram}
use rtype_ci_cd.Protocol.Udp.Messages.{player_state, player_disconnect, you_have_been_kicked}
use rtype_ci_cd.Game.Types.{Player, new_player, Game, GameStatus, to_all}

-- What `strncpy(username, …, sizeof(username) - 1)` leaves in the zeroed array.
unfoldable pub copy_username : List ℕ → List ℕ
copy_username name = take 31 (until_nul name)

unfoldable pub add_player : Game → ℕ → List ℕ → Game
unfolding copy_username
add_player g id username = record g {
  players = g.players ++ record (new_player id) { username = copy_username username } ∷ [];
}

-- The first player with the id.
unfoldable pub find_player : ℕ → List Player → Option Player
find_player id [] = none
find_player id (p ∷ ps) = if p.id == id then some p else find_player id ps

unfoldable pub get_player : Game → ℕ → Option Player
unfolding find_player
get_player g id = find_player id g.players

-- A write through the pointer that `getPlayer` returned.
unfoldable pub update_player : ℕ → (Player → Player) → List Player → List Player
update_player id f [] = []
update_player id f (p ∷ ps) = if p.id == id then f p ∷ ps else p ∷ update_player id f ps

unfoldable pub set_addr : SockAddr → Player → Player
set_addr a p = if p.addr_set then p else record p { udp_addr = a; addr_set = true }

unfoldable pub update_player_udp_addr : Game → ℕ → SockAddr → Game
unfolding update_player set_addr
update_player_udp_addr g id a = record g { players = update_player id (set_addr a) g.players }

unfoldable pub raise_tick : ℕ → Player → Player
raise_tick tick p =
    if ltb p.last_processed_tick tick then record p { last_processed_tick = tick } else p

unfoldable pub set_player_last_processed_tick : Game → ℕ → ℕ → Game
unfolding update_player raise_tick
set_player_last_processed_tick g id tick = record g {
  players = update_player id (raise_tick tick) g.players;
}

unfoldable pub get_player_count : Game → ℕ
get_player_count g = length g.players

unfoldable pub get_host_id : Game → ℕ
get_host_id g = elim g.players [ [] ↦ 0 | p ∷ ps ↦ p.id ]

unfoldable pub set_status : Game → GameStatus → Game
set_status g s = record g { status = s }

-- `remove_if` and `erase`.
unfoldable pub without : ℕ → List Player → List Player
without id [] = []
without id (p ∷ ps) = if p.id == id then without id ps else p ∷ without id ps

unfoldable pub disconnect_player : Game → ℕ → Game × List Datagram
unfolding without to_all
disconnect_player g id =
    let left = without id g.players in
    (record g { players = left }, to_all left (player_disconnect (record { player_id = id })))

unfoldable pub remove_player_from_lobby : Game → ℕ → Game
unfolding without
remove_player_from_lobby g id = record g { players = without id g.players }

-- The notice to the kicked player, if there is one and its address is known.
unfoldable pub kick_notice : Option Player → List Datagram
kick_notice none = []
kick_notice (some p) =
    if p.addr_set then record { message = you_have_been_kicked; addr = p.udp_addr } ∷ [] else []

unfoldable pub kick_player : Game → ℕ → Game × List Datagram
unfolding without to_all kick_notice find_player
kick_player g id =
    let left = without id g.players in
    (
      record g { players = left },
      kick_notice (find_player id g.players)
          ++ to_all left (player_disconnect (record { player_id = id })),
    )

module _ (m : Machine) where
  -- The loop of `broadcastGameState`: each player whose address is known is told to all such players.
  unfoldable pub broadcast_loop : List Player → List Player → List Player × List Datagram
  broadcast_loop all [] = ([], [])
  broadcast_loop all (p ∷ ps) =
      let (rest, sent) = broadcast_loop all ps in
      let message = player_state (record {
        player_id = p.id;
        sequence = p.state_packet_sequence;
        last_processed_tick = p.last_processed_tick;
        timestamp = m.indeterminate;
        x = p.x;
        y = p.y;
      }) in
      if p.addr_set
      then (
        record p { state_packet_sequence = (p.state_packet_sequence + 1) % u32 } ∷ rest,
        to_all all message ++ sent,
      )
      else (p ∷ rest, sent)

  unfoldable pub broadcast_game_state : Game → Game × List Datagram
  unfolding broadcast_loop
  broadcast_game_state g =
      let (players, sent) = broadcast_loop g.players g.players in
      (record g { players = players }, sent)
