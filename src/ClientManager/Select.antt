-- ===== src/ClientManager/Select.antt =====
-- The case `ROOM_SELECTION` of `ClientManager::run`: what it keeps, and where it leads.
use rtype_ci_cd.Common.{
  ◌≡◌, refl, ◌∙◌, ◌⊎◌, Bool, true, false, Option, none, some, map, if◌then◌else◌, arith,
}
use rtype_ci_cd.Common.Int.{ℤ}
use rtype_ci_cd.Common.Machine.{Machine}
use rtype_ci_cd.Renderer.Menus.{draw_room_menu}
use rtype_ci_cd.TcpClient.Socket.{Socket}
use rtype_ci_cd.TcpClient.Lobby.{RoomInfo}
use rtype_ci_cd.ClientManager.Types.{ClientManager, AppFrame, main_menu, lobby, exiting}
use rtype_ci_cd.ClientManager.Rooms.{
  shake_hands, connect_if_needed, refresh_rooms, ask_create, ask_create_again, ask_join,
  press_create, created, await_create, press_join, joined, await_join, select_room,
}

-- The settings, the match, the handshake and the screen stay.
record Same {S : Type 0} (w v : ClientManager S) : Type 0 where
  config : v.config ≡ w.config
  game : v.game ≡ w.game
  connected : v.connected ≡ w.connected
  state : v.state ≡ w.state

Same-trans : {S : Type 0} (u v w : ClientManager S) → Same u v → Same v w → Same u w
Same-trans u v w h k = record {
  config = k.config ∙ h.config;
  game = k.game ∙ h.game;
  connected = k.connected ∙ h.connected;
  state = k.state ∙ h.state;
}

if-Same : {S : Type 0} (b : Bool) (w v : ClientManager S) → Same w v → Same w (if b then v else w)
if-Same true w v h = h
if-Same false w v h = record { config = refl; game = refl; connected = refl; state = refl }

module _ {S : Type 0} (io : Socket S) where
  refresh_rooms-Same : (f : AppFrame S) (w : ClientManager S) → Same w (refresh_rooms io f w)
  unfolding refresh_rooms
  refresh_rooms-Same f w = record {
    config = ground arith;
    game = ground arith;
    connected = ground arith;
    state = ground arith;
  }

  press_create-Same : (a : ℤ) (w : ClientManager S) → Same w (press_create io a w)
  unfolding press_create ask_create
  press_create-Same a w = record {
    config = ground arith;
    game = ground arith;
    connected = ground arith;
    state = ground arith;
  }

  press_join-Same : (a : ℤ) (w : ClientManager S) → Same w (press_join io a w)
  unfolding press_join ask_join
  press_join-Same a w = record {
    config = ground arith;
    game = ground arith;
    connected = ground arith;
    state = ground arith;
  }

  created-Same : (r : Option ℤ) (w : ClientManager S) → Same w (created io r w)
  unfolding created ask_join
  created-Same none w = record { config = refl; game = refl; connected = refl; state = refl }
  created-Same (some id) w = record {
    config = ground arith;
    game = ground arith;
    connected = ground arith;
    state = ground arith;
  }

  ask_create_again-Same : (r : Option ℤ) (w : ClientManager S) → Same w (ask_create_again io r w)
  unfolding ask_create
  ask_create_again-Same none w = record {
    config = refl;
    game = refl;
    connected = refl;
    state = refl;
  }
  ask_create_again-Same (some id) w = record {
    config = refl;
    game = refl;
    connected = refl;
    state = refl;
  }

  await_create-Same : (w : ClientManager S) → Same w (await_create io w)
  unfolding await_create ask_create
  await_create-Same w =
      let asked = ask_create_again io w.create_room_response w in
      if-Same w.create_room_initiated w _ (
        Same-trans w asked _ (ask_create_again-Same w.create_room_response w)
          (created-Same asked.create_room_response asked))

  -- Only an answered request to join shows the lobby.
  await_join-lem :
      (w : ClientManager S)
      → let v = await_join io w in
        (v.config ≡ w.config)
        × (v.game ≡ w.game)
        × (v.connected ≡ w.connected)
        × ((v.state ≡ w.state) ⊎ (v.state ≡ lobby))
  unfolding await_join ask_join joined
  await_join-lem w = ground arith

  connect-lem :
      (f : AppFrame S) (w : ClientManager S)
      → let (v, goes_on) = connect_if_needed io f w in
        (v.config ≡ w.config)
        × (v.game ≡ w.game)
        × ((goes_on ≡ true) × (v.connected ≡ true) × (v.state ≡ w.state)
            ⊎ (goes_on ≡ false) × ((v.state ≡ main_menu) ⊎ (v.state ≡ exiting)))
  unfolding connect_if_needed shake_hands
  connect-lem f w = ground arith

  -- After the handshake, the screens of the rooms and what may follow them.
  abbrev pub Selects : ClientManager S → ClientManager S → Type 0
  Selects w v =
      (v.config ≡ w.config)
      × (v.game ≡ w.game)
      × ((v.connected ≡ true) × ((v.state ≡ w.state) ⊎ (v.state ≡ lobby))
          ⊎ ((v.state ≡ main_menu) ⊎ (v.state ≡ exiting)))

  pub select_room-Selects :
      (m : Machine) (f : AppFrame S) (w : ClientManager S) → Selects w (select_room io m f w)
  unfolding select_room
  select_room-Selects m f w =
      let ready = (connect_if_needed io f w).0 in
      let listed = refresh_rooms io f ready in
      let action = draw_room_menu m f.screen (map (λ (r : RoomInfo). r.id) listed.rooms) in
      let pressed = press_create io action listed in
      let awaited = await_create io pressed in
      let joining = press_join io action awaited in
      let same = Same-trans ready listed joining (refresh_rooms-Same f ready) (
        Same-trans listed pressed joining (press_create-Same action listed) (
          Same-trans pressed awaited joining (await_create-Same pressed)
            (press_join-Same action awaited))) in
      ground (
        arith,
        connect-lem f w,
        await_join-lem joining,
        same.config,
        same.game,
        same.connected,
        same.state,
      )
