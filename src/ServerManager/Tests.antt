-- ===== src/ServerManager/Tests.antt =====
-- Rooms of Src/Server/ServerManager.cpp, created, joined, started and deleted.
use rtype_ci_cd.Common.{◌≡◌, refl, ◌⊎◌, true, false, ◌≢◌, none, some, [], ◌∷◌, if◌then◌else◌, arith}
use rtype_ci_cd.Common.Int.{ℤ, pos, eq_ℤ}
use rtype_ci_cd.Game.Types.{no_boss, GameStatus, new_game}
use rtype_ci_cd.Game.Players.{get_host_id, set_status}
use rtype_ci_cd.Game.Samples.{fight}
use rtype_ci_cd.UdpServer.{new_server}
use rtype_ci_cd.ServerManager.{
  Room, ServerManager, find_room, change_room, on_create_room, on_join_room, on_start_game,
}
use rtype_ci_cd.ServerManager.Shell.{delete_room}
use rtype_ci_cd.ServerManager.Rooms.{
  KeysIn, with_player, on_create_room-find_room, on_join_room-find_room, on_start_game_host,
  create_after_delete,
}

-- Two rooms: a fight that goes on, and a lobby whose host is player 4.
abbrev battle : Room
battle = record { id = pos 0; address = 100; game = fight }

abbrev waiting : Room
waiting = record { id = pos 2; address = 200; game = record fight { status = GameStatus.lobby } }

abbrev manager : ServerManager
manager = record {
  rooms = battle ∷ waiting ∷ [];
  udp_server = new_server;
  running = true;
  next_room_id = 3;
  boss_entries = λ _. no_boss;
}

on_create_room-find_room_example :
    let (s', id) = on_create_room 300 9 manager in
    (find_room id manager.rooms ≡ none)
    × ((j : ℤ)
        → find_room j s'.rooms ≡ (
            if eq_ℤ id j
            then some
                (record { id = id; address = 300; game = new_game (manager.boss_entries 300) 9 })
            else find_room j manager.rooms))
    × KeysIn 0 s'.rooms s'.next_room_id
on_create_room-find_room_example =
    on_create_room-find_room manager 300 9
      (0, refl, omega arith, (2, refl, omega arith, omega arith))

on_join_room-find_room_example :
    let (s', joined) = on_join_room (pos 2) 6 (98 ∷ 111 ∷ 98 ∷ []) manager in
    ((r : Room) × (find_room (pos 2) manager.rooms ≡ some r)
      × (r.game.status ≡ GameStatus.lobby)
      × (joined ≡ true)
      × (find_room (pos 2) s'.rooms ≡ (
          if eq_ℤ (pos 2) (pos 2)
          then some (record r { game = with_player r.game 6 (98 ∷ 111 ∷ 98 ∷ []) })
          else find_room (pos 2) manager.rooms)))
    ⊎ (((r : Room) → find_room (pos 2) manager.rooms ≡ some r → r.game.status ≢ GameStatus.lobby)
        × (joined ≡ false)
        × (s' ≡ manager))
on_join_room-find_room_example =
    on_join_room-find_room (pos 2) (pos 2) 6 (98 ∷ 111 ∷ 98 ∷ []) manager

-- The lobby after its host has started the match.
abbrev started : Room
started = record waiting { game = record (waiting.game) { status = GameStatus.playing } }

on_start_game_test : find_room (pos 2) (on_start_game (pos 2) 4 manager).rooms ≡ some started
unfolding on_start_game find_room change_room get_host_id set_status eq_ℤ
on_start_game_test = refl

on_start_game_host_example :
    (r : Room) × (find_room (pos 2) manager.rooms ≡ some r)
    × ((r.game.status ≡ GameStatus.playing) ⊎ ((pos 2 ≡ pos 2) × (get_host_id r.game ≡ 4)))
on_start_game_host_example =
    on_start_game_host (pos 2) (pos 2) 4 manager started on_start_game_test refl

find_room_test : find_room (pos 0) manager.rooms ≡ some battle
unfolding find_room eq_ℤ
find_room_test = refl

create_after_delete_example :
    let (s', new_id) = on_create_room 100 9 (delete_room (pos 0) manager) in
    (r' : Room) × (find_room new_id s'.rooms ≡ some r')
    × (r'.game.boss ≡ fight.boss)
    × (r'.game.status ≡ GameStatus.lobby)
    × (r'.game.players ≡ [])
create_after_delete_example = create_after_delete (pos 0) 9 manager battle find_room_test
