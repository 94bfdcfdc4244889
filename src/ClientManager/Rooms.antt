-- ===== src/ClientManager/Rooms.antt =====
-- The screen of the rooms: the case `ROOM_SELECTION` of `ClientManager::run`.
use rtype_ci_cd.Common.{Bool, true, false, not, ◌&&◌, Option, none, some, map, if◌then◌else◌}
use rtype_ci_cd.Common.Int.{ℤ, pos, negsuc, eq_ℤ, leb_ℤ}
use rtype_ci_cd.Common.Machine.{Machine}
use rtype_ci_cd.Renderer.Menus.{draw_room_menu}
use rtype_ci_cd.TcpClient.Socket.{Socket}
use rtype_ci_cd.TcpClient.Requests.{call_create_room, call_join_room}
use rtype_ci_cd.TcpClient.Lobby.{RoomInfo, send_connect_request, get_rooms}
use rtype_ci_cd.ClientManager.Types.{ClientManager, AppFrame, main_menu, lobby, exiting}

module _ {S : Type 0} (io : Socket S) where
  -- `connectToServer` over the new stream `s`, and the handshake; and whether the case goes on.
  unfoldable pub shake_hands : S → ClientManager S → ClientManager S × Bool
  shake_hands s w =
      let opened = if w.non_blocking_set then s else io.set_non_blocking true s in
      let (ok, response, next) =
        send_connect_request io w.config.username w.connect_response opened in
      let told : ClientManager S = record w {
        socket = next;
        non_blocking_set = true;
        connect_response = response;
      } in
      if ok
      then (record told { connected = true }, true)
      else (record told { state = exiting }, false)

  unfoldable pub connect_if_needed : AppFrame S → ClientManager S → ClientManager S × Bool
  connect_if_needed f w = if w.connected then (w, true) else elim f.connection [
    | none ↦ (record w { state = main_menu }, false)
    | some s ↦ shake_hands s w
  ]

  -- `!_createRoomInitiated && !_joinRoomInitiated`
  abbrev pub is_free : ClientManager S → Bool
  is_free w = not w.create_room_initiated && not w.join_room_initiated

  unfoldable pub refresh_rooms : AppFrame S → ClientManager S → ClientManager S
  refresh_rooms f w =
      if f.after_second f.now w.last_room_update && is_free w
      then (let (rooms, next) = get_rooms io f.junk w.cached_rooms w.socket in
          record w { rooms = rooms; cached_rooms = rooms; socket = next; last_room_update = f.now })
      else w

  unfoldable pub ask_create : ClientManager S → ClientManager S
  ask_create w =
      let (response, q, next) = call_create_room io w.create_request w.socket in
      record w { create_room_response = response; create_request = q; socket = next }

  unfoldable pub ask_join : ClientManager S → ClientManager S
  ask_join w =
      let (response, q, next) = call_join_room io w.room_to_join w.join_request w.socket in
      record w { join_room_response = response; join_request = q; socket = next }

  unfoldable pub press_create : ℤ → ClientManager S → ClientManager S
  press_create action w =
      if eq_ℤ action (negsuc 1) && is_free w
      then ask_create (record w { create_room_initiated = true })
      else w

  abbrev pub start_join : ℤ → ClientManager S → ClientManager S
  start_join id w = ask_join (record w { join_room_initiated = true; room_to_join = id })

  -- The value of `createRoom`, where there is one.
  unfoldable pub created : Option ℤ → ClientManager S → ClientManager S
  created none w = w
  created (some id) w =
      let joining = if leb_ℤ (pos 0) id then start_join id w else w in
      record joining { create_room_initiated = false; create_room_response = none }

  abbrev pub ask_create_again : Option ℤ → ClientManager S → ClientManager S
  ask_create_again none w = ask_create w
  ask_create_again (some id) w = w

  unfoldable pub await_create : ClientManager S → ClientManager S
  await_create w =
      let asked = ask_create_again w.create_room_response w in
      if w.create_room_initiated then created asked.create_room_response asked else w

  unfoldable pub press_join : ℤ → ClientManager S → ClientManager S
  press_join action w = if leb_ℤ (pos 0) action && is_free w then start_join action w else w

  -- The value of `joinRoom`, where there is one.
  unfoldable pub joined : Option Bool → ClientManager S → ClientManager S
  joined none w = w
  joined (some ok) w = record w {
    state = if ok then lobby else w.state;
    join_room_initiated = false;
    join_room_response = none;
    room_to_join = negsuc 0;
  }

  abbrev pub ask_join_again : Option Bool → ClientManager S → ClientManager S
  ask_join_again none w = ask_join w
  ask_join_again (some ok) w = w

  unfoldable pub await_join : ClientManager S → ClientManager S
  await_join w =
      let asked = ask_join_again w.join_room_response w in
      if w.join_room_initiated then joined asked.join_room_response asked else w

  unfoldable pub select_room : Machine → AppFrame S → ClientManager S → ClientManager S
  select_room m f w =
      let (ready, goes_on) = connect_if_needed f w in
      let listed = refresh_rooms f ready in
      let action = draw_room_menu m f.screen (map (λ (r : RoomInfo). r.id) listed.rooms) in
      if goes_on
      then await_join (press_join action (await_create (press_create action listed)))
      else ready
