-- ===== src/ServerManager/Shell.antt =====
-- `ServerManager::processCommand` of Src/Server/ServerManager.cpp, without what it prints.
use rtype_ci_cd.Common.{ℕ, false, Option, none, some, if◌then◌else◌, ◌==◌}
use rtype_ci_cd.Common.Int.{ℤ}
use rtype_ci_cd.Game.Players.{kick_player}
use rtype_ci_cd.ServerManager.{
  ServerManager, find_room, erase_room, in_room_of, with_rooms, on_create_room,
}
use Prim.Native.String.{String}
use text.Mathlib.Text.{◌==◌ as str_eq}

-- The extractions from the `std::stringstream` over a command: `ss >> cmd`, and then `ss >> roomId` or
-- `ss >> playerId`, which may fail.
pub record Extraction : Type 0 where
  pub word : String → String
  pub room_id : String → Option ℤ
  pub player_id : String → Option ℕ

-- `_rooms.erase(roomId)`. The game's entries of the static maps stay, under its address.
unfoldable pub delete_room : ℤ → ServerManager → ServerManager
delete_room id s = elim (find_room id s.rooms) [
  | none ↦ s
  | some r ↦ record s {
    rooms = erase_room id s.rooms;
    boss_entries = λ a. if a == r.address then r.game.boss else s.boss_entries a;
  }
]

unfoldable pub kick : ℕ → ServerManager → ServerManager
kick player s = with_rooms s (in_room_of player (λ g. kick_player g player) s.rooms)

-- The new state, and the player for whom `_tcpServer.kickPlayer` is called, if it is.
unfoldable pub process_command :
    Extraction → ℕ → ℕ → String → ServerManager → ServerManager × Option ℕ
process_command ex address now command s =
    if str_eq (ex.word command) "exit"
    then (record s { running = false }, none)
    else if str_eq (ex.word command) "create"
    then ((on_create_room address now s).0, none)
    else if str_eq (ex.word command) "delete"
    then elim (ex.room_id command) [ none ↦ (s, none) | some id ↦ (delete_room id s, none) ]
    else if str_eq (ex.word command) "kick"
    then elim (ex.player_id command) [ none ↦ (s, none) | some p ↦ (kick p s, some p) ]
    else (s, none)
