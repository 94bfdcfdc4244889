-- ===== src/ClientManager/Rounds.antt =====
-- One round of `ClientManager::run`: which screen it leads to, and what it keeps.
use rtype_ci_cd.Common.{
  ◌≡◌, refl, sym, subst, ◌||◌, Bool, true, false, Option, none, some, List, [], ◌∷◌, ◌++◌,
  if◌then◌else◌, arith,
}
use rtype_ci_cd.Common.Machine.{Machine}
use rtype_ci_cd.Common.Strings.{Text}
use rtype_ci_cd.ConfigManager.{Config}
use rtype_ci_cd.Renderer.Menus.{draw_options_menu, draw_main_menu, MainMenuChoice}
use rtype_ci_cd.RTypeClient.Keys.{greeting}
use rtype_ci_cd.TcpClient.Lobby.{cast_connect_response}
use rtype_ci_cd.RTypeClient.Types.{InGameStatus, RTypeClient, Effect, new_client}
use rtype_ci_cd.RTypeClient.Frame.{tick}
use rtype_ci_cd.RTypeClient.Session.{IsBound}
use rtype_ci_cd.RTypeClient.Runs.{remap_key-IsBound, Returns, tick-Returns}
use rtype_ci_cd.TcpClient.Socket.{Socket}
use rtype_ci_cd.ClientManager.Types.{
  ClientManager, AppFrame, ClientState, username_input, main_menu, options, room_selection, lobby,
  in_game, kicked, exiting,
}
use rtype_ci_cd.ClientManager.Rooms.{select_room}
use rtype_ci_cd.ClientManager.Select.{select_room-Selects}
use rtype_ci_cd.ClientManager.Frames.{
  enter_username, choose_main, change_options, current_game, leave_game, play_match, refresh_lobby,
  wait_in_lobby, run_state, run_frame,
}

-- Which screen may follow which.
abbrev pub may_show : ClientState → ClientState → Bool
may_show username_input username_input = true
may_show username_input main_menu = true
may_show main_menu main_menu = true
may_show main_menu room_selection = true
may_show main_menu options = true
may_show options options = true
may_show options main_menu = true
may_show room_selection room_selection = true
may_show room_selection main_menu = true
may_show room_selection lobby = true
may_show room_selection exiting = true
may_show lobby lobby = true
may_show lobby in_game = true
may_show in_game in_game = true
may_show in_game kicked = true
may_show in_game exiting = true
may_show kicked kicked = true
may_show kicked exiting = true
may_show exiting exiting = true
may_show _ _ = false

-- Each screen may follow the one before.
abbrev pub IsPath : ClientState → List ClientState → Type 0
IsPath s [] = Unit
IsPath s (t ∷ ts) = (may_show s t ≡ true) × IsPath t ts

-- The screens that need the server.
abbrev pub is_online : ClientState → Bool
is_online lobby = true
is_online in_game = true
is_online kicked = true
is_online _ = false

abbrev pub GameBound : Option (RTypeClient × Option Text) → Type 0
GameBound none = Unit
GameBound (some (c, remap)) = IsBound c.keybinds

-- The directions are bound in the settings and in the match, and the screens behind the handshake are shown
-- after it only.
pub record IsSound {S : Type 0} (w : ClientManager S) : Type 0 where
  pub keys : IsBound w.config.keybinds
  pub game : GameBound w.game
  pub online : is_online w.state ≡ true → w.connected ≡ true

-- The round returns, with a screen that may follow, and all is sound again.
abbrev pub Shows : {S : Type 0} → ClientManager S → Option (ClientManager S × List Effect) → Type 0
Shows w none = ⊥
Shows w (some (v, effects)) = (may_show w.state v.state ≡ true) × IsSound v

IsSound-from :
    {S : Type 0} (w v : ClientManager S)
    → v.config.keybinds ≡ w.config.keybinds
    → v.game ≡ w.game
    → (is_online v.state ≡ true → v.connected ≡ true)
    → IsSound w
    → IsSound v
IsSound-from w v keys game online h = record {
  keys = subst IsBound (sym keys) h.keys;
  game = subst GameBound (sym game) h.game;
  online = online;
}

-- A match that goes on or can be started, with its directions bound.
current_game_lem :
    {S : Type 0} (g : Option (RTypeClient × Option Text)) (f : AppFrame S) (w : ClientManager S)
    → f.udp_opens ≡ true
    → GameBound g
    → IsBound w.config.keybinds
    → (c : RTypeClient) × (remap : Option Text) × (greeted : List Effect) × (current_game g f w
        ≡ some ((c, remap), greeted))
      × IsBound c.keybinds
unfolding current_game new_client
current_game_lem none f w opens h k =
    let response = cast_connect_response w.connect_response in
    let client = new_client response.player_id response.server_time_ms w.config.keybinds 0 false in
    (client, none, greeting client ∷ [], rw opens refl, k)
current_game_lem (some (c, remap)) f w opens h k = (c, remap, [], refl, h)

-- The match goes on, or ends with its screen.
leave_game-lem :
    {S : Type 0} (s : InGameStatus) (c : RTypeClient) (remap : Option Text) (w : ClientManager S)
    → w.state ≡ in_game
    → IsBound c.keybinds
    → IsSound w
    → (may_show in_game (leave_game s c remap w).state ≡ true) × IsSound (leave_game s c remap w)
unfolding leave_game
leave_game-lem InGameStatus.quitting c remap w e k h =
    (refl, record { keys = h.keys; game = tt; online = λ p. ground (arith, p) })
leave_game-lem InGameStatus.kicked c remap w e k h =
    (refl, record { keys = h.keys; game = tt; online = λ p. ground (arith, e, h.online) })
leave_game-lem InGameStatus.playing c remap w e k h =
    (ground (arith, e), record { keys = h.keys; game = k; online = h.online })
leave_game-lem InGameStatus.paused c remap w e k h =
    (ground (arith, e), record { keys = h.keys; game = k; online = h.online })
leave_game-lem InGameStatus.options c remap w e k h =
    (ground (arith, e), record { keys = h.keys; game = k; online = h.online })
leave_game-lem InGameStatus.game_over c remap w e k h =
    (ground (arith, e), record { keys = h.keys; game = k; online = h.online })
leave_game-lem InGameStatus.victory c remap w e k h =
    (ground (arith, e), record { keys = h.keys; game = k; online = h.online })

play_rest :
    {S : Type 0} (m : Machine) (w : ClientManager S) (client : RTypeClient) (greeted : List Effect)
    (o : Option (RTypeClient × Option Text × List Effect))
    → w.state ≡ in_game
    → IsSound w
    → Returns m client o
    → Shows w (elim o [
      | none ↦ none
      | some (next, waiting, effects) ↦
          some (leave_game next.status next waiting w, greeted ++ effects)
    ])
play_rest m w client greeted none e h ran = ran
play_rest m w client greeted (some (next, waiting, effects)) e h ran =
    let k = leave_game-lem next.status next waiting w e ran.1 h in
    (
      subst (λ (s : ClientState). may_show s (leave_game next.status next waiting w).state ≡ true)
          (sym e) k.0,
      k.1,
    )

module _ {S : Type 0} (m : Machine) (io : Socket S) where
  play_match-Shows :
      (f : AppFrame S) (w : ClientManager S)
      → f.udp_opens ≡ true
      → w.state ≡ in_game
      → IsSound w
      → Shows w (play_match m f w)
  unfolding play_match
  play_match-Shows f w opens e h =
      let (c, remap, greeted, starts, bound) = current_game_lem w.game f w opens h.game h.keys in
      subst
        (λ (o : Option ((RTypeClient × Option Text) × List Effect)). Shows w (elim o [
          | none ↦ none
          | some ((client, waiting), sent) ↦ elim (tick m f.match_frame waiting client) [
            | none ↦ none
            | some (next, later, effects) ↦
                some (leave_game next.status next later w, sent ++ effects)
          ]
        ]))
        (sym starts)
        (play_rest m w c greeted (tick m f.match_frame remap c) e h
          (tick-Returns m f.match_frame remap c bound))

  wait_in_lobby-Shows :
      (f : AppFrame S) (w : ClientManager S)
      → w.state ≡ lobby
      → IsSound w
      → Shows w (some (wait_in_lobby m io f w, []))
  unfolding wait_in_lobby refresh_lobby
  wait_in_lobby-Shows f w e h = (
    ground (arith, e),
    IsSound-from w (wait_in_lobby m io f w) (ground arith) (ground arith)
        (λ _. ground (arith, e, h.online)) h,
  )

  select_room-Shows :
      (f : AppFrame S) (w : ClientManager S)
      → w.state ≡ room_selection
      → IsSound w
      → Shows w (some (select_room io m f w, []))
  select_room-Shows f w e h =
      let k = select_room-Selects io m f w in
      (
        ground (arith, e, k.2),
        record {
          keys = subst (λ (c : Config). IsBound c.keybinds) (sym k.0) h.keys;
          game = subst GameBound (sym k.1) h.game;
          online = λ p. ground (arith, e, p, k.2);
        },
      )

  main_menu-Shows :
      (choice : MainMenuChoice) (w : ClientManager S)
      → w.state ≡ main_menu
      → IsSound w
      → Shows w (some (choose_main choice w, []))
  unfolding choose_main
  main_menu-Shows MainMenuChoice.no_choice w e h = (ground (arith, e), h)
  main_menu-Shows MainMenuChoice.start w e h =
      (ground (arith, e), IsSound-from w _ refl refl (λ p. ground (arith, p)) h)
  main_menu-Shows MainMenuChoice.options w e h =
      (ground (arith, e), IsSound-from w _ refl refl (λ p. ground (arith, p)) h)

  change_options-Shows :
      (f : AppFrame S) (w : ClientManager S)
      → w.state ≡ options
      → IsSound w
      → Shows w (some (change_options m f w, []))
  unfolding change_options draw_options_menu
  change_options-Shows f w e h =
      let menu = draw_options_menu m f.screen f.key w.remap w.config.keybinds in
      let bound : IsBound menu.1 = remap_key-IsBound m f.screen f.key _ w.config.keybinds h.keys in
      let keys : (change_options m f w).config.keybinds ≡ menu.1 = ground arith in
      let game : (change_options m f w).game ≡ w.game = ground arith in
      (
        ground (arith, e),
        record {
          keys = subst IsBound (sym keys) bound;
          game = subst GameBound (sym game) h.game;
          online = λ p. ground (arith, e, p);
        },
      )

  run_state-Shows :
      (s : ClientState) (f : AppFrame S) (w : ClientManager S)
      → f.udp_opens ≡ true
      → w.state ≡ s
      → IsSound w
      → Shows w (run_state m io s f w)
  unfolding run_state enter_username choose_main change_options draw_options_menu
  run_state-Shows username_input f w opens e h = (
    ground (arith, e),
    IsSound-from w (enter_username f w) (ground arith) (ground arith) (λ p. ground (arith, e, p)) h,
  )
  run_state-Shows main_menu f w opens e h = main_menu-Shows (draw_main_menu m f.screen) w e h
  run_state-Shows options f w opens e h = change_options-Shows f w e h
  run_state-Shows room_selection f w opens e h = select_room-Shows f w e h
  run_state-Shows lobby f w opens e h = wait_in_lobby-Shows f w e h
  run_state-Shows in_game f w opens e h = play_match-Shows f w opens e h
  run_state-Shows kicked f w opens e h = (
    ground (arith, e),
    IsSound-from w (if f.enter || f.clicked then record w { state = exiting } else w) (ground arith)
        (ground arith) (λ p. ground (arith, e, p, h.online)) h,
  )
  run_state-Shows exiting f w opens e h = (ground (arith, e), h)

  pub run_frame-Shows :
      (f : AppFrame S) (w : ClientManager S)
      → f.udp_opens ≡ true
      → IsSound w
      → Shows w (run_frame m io f w)
  unfolding run_frame
  run_frame-Shows f w opens h = run_state-Shows w.state f w opens refl h
