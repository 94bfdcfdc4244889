-- ===== src/ClientManager/Frames.antt =====
-- One round of the loop of `ClientManager::run`.
use rtype_ci_cd.Common.{false, ◌||◌, Option, none, some, List, [], ◌∷◌, ◌++◌, if◌then◌else◌}
use rtype_ci_cd.Common.Machine.{Machine}
use rtype_ci_cd.Common.Strings.{Text}
use rtype_ci_cd.ConfigManager.{save_config}
use rtype_ci_cd.Renderer.Menus.{
  MainMenuChoice, draw_username_input, draw_main_menu, draw_options_menu, draw_lobby,
}
use rtype_ci_cd.RTypeClient.Types.{InGameStatus, RTypeClient, Effect, new_client}
use rtype_ci_cd.RTypeClient.Keys.{greeting}
use rtype_ci_cd.RTypeClient.Frame.{tick}
use rtype_ci_cd.TcpClient.Socket.{Socket}
use rtype_ci_cd.TcpClient.Lobby.{
  cast_connect_response, call_get_lobby_state, send_start_game_request,
}
use rtype_ci_cd.ClientManager.Types.{
  ClientManager, AppFrame, ClientState, username_input, main_menu, options, room_selection, lobby,
  in_game, kicked, exiting,
}
use rtype_ci_cd.ClientManager.Rooms.{select_room}

-- `saveConfig`, to a file that can be opened.
abbrev pub save : {S : Type 0} → ClientManager S → ClientManager S
save w = record w { file = some (save_config w.config) }

unfoldable pub enter_username : {S : Type 0} → AppFrame S → ClientManager S → ClientManager S
enter_username f w =
    let (name, confirmed) = draw_username_input f.chars f.backspace f.enter w.config.username in
    let typed : ClientManager _ = record w { config = record w.config { username = name } } in
    if confirmed then record (save typed) { state = main_menu } else typed

unfoldable pub choose_main : {S : Type 0} → MainMenuChoice → ClientManager S → ClientManager S
choose_main MainMenuChoice.no_choice w = w
choose_main MainMenuChoice.start w = record w { state = room_selection }
choose_main MainMenuChoice.options w = record w { state = options }

unfoldable pub change_options :
    {S : Type 0} → Machine → AppFrame S → ClientManager S → ClientManager S
change_options m f w =
    let (waiting, keybinds, left) = draw_options_menu m f.screen f.key w.remap w.config.keybinds in
    let changed : ClientManager _ = record w {
      config = record w.config { keybinds = keybinds };
      remap = waiting;
    } in
    if left then save (record changed { state = main_menu }) else changed

-- The match, which starts when there is none yet, and what its constructor sends; nothing where the
-- constructor of its `UDPClient` throws.
unfoldable pub current_game :
    {S : Type 0}
    → Option (RTypeClient × Option Text)
    → AppFrame S
    → ClientManager S
    → Option ((RTypeClient × Option Text) × List Effect)
current_game none f w =
    let response = cast_connect_response w.connect_response in
    let client = new_client response.player_id response.server_time_ms w.config.keybinds 0 false in
    if f.udp_opens then some ((client, none), greeting client ∷ []) else none
current_game (some game) f w = some (game, [])

-- What the status of the match makes of the screen.
unfoldable pub leave_game :
    {S : Type 0} → InGameStatus → RTypeClient → Option Text → ClientManager S → ClientManager S
leave_game InGameStatus.quitting c remap w = record w { game = none; state = exiting }
leave_game InGameStatus.kicked c remap w = record w { game = none; state = kicked }
leave_game _ c remap w = record w { game = some (c, remap) }

unfoldable pub play_match :
    {S : Type 0} → Machine → AppFrame S → ClientManager S → Option (ClientManager S × List Effect)
play_match m f w = elim (current_game w.game f w) [
  | none ↦ none
  | some ((client, remap), greeted) ↦ elim (tick m f.match_frame remap client) [
    | none ↦ none
    | some (next, waiting, effects) ↦
        some (leave_game next.status next waiting w, greeted ++ effects)
  ]
]

unfoldable pub refresh_lobby :
    {S : Type 0} → Socket S → AppFrame S → ClientManager S → ClientManager S
refresh_lobby io f w =
    if f.after_half f.now w.last_lobby_update
    then (let (lobby_state, next) = call_get_lobby_state io w.cached_state w.socket in
        record w {
          lobby_state = lobby_state;
          cached_state = lobby_state;
          socket = next;
          last_lobby_update = f.lobby_now;
        })
    else w

unfoldable pub wait_in_lobby :
    {S : Type 0} → Machine → Socket S → AppFrame S → ClientManager S → ClientManager S
wait_in_lobby m io f w =
    let refreshed = refresh_lobby io f w in
    let (cached, next) = call_get_lobby_state io refreshed.cached_state refreshed.socket in
    let asked : ClientManager _ = record refreshed { cached_state = cached; socket = next } in
    if cached.game_is_starting
    then record asked { state = in_game }
    else if draw_lobby m f.screen asked.lobby_state.host_id
        (cast_connect_response w.connect_response).player_id
    then record asked { socket = send_start_game_request io next }
    else asked

-- The switch. Nothing is where the match throws: in a look-up of a key, or when its socket is opened.
unfoldable pub run_state :
    {S : Type 0}
    → Machine
    → Socket S
    → ClientState
    → AppFrame S
    → ClientManager S
    → Option (ClientManager S × List Effect)
run_state m io username_input f w = some (enter_username f w, [])
run_state m io main_menu f w = some (choose_main (draw_main_menu m f.screen) w, [])
run_state m io options f w = some (change_options m f w, [])
run_state m io room_selection f w = some (select_room io m f w, [])
run_state m io lobby f w = some (wait_in_lobby m io f w, [])
run_state m io in_game f w = play_match m f w
run_state m io kicked f w =
    some (if f.enter || f.clicked then record w { state = exiting } else w, [])
run_state m io exiting f w = some (w, [])

unfoldable pub run_frame :
    {S : Type 0}
    → Machine
    → Socket S
    → AppFrame S
    → ClientManager S
    → Option (ClientManager S × List Effect)
run_frame m io f w = run_state m io w.state f w
