-- ===== src/RTypeClient/Frame.antt =====
-- `RTypeClient::tick`: a frame of the match on the client.
use rtype_ci_cd.Common.{
  ℕ, ◌+◌, ◌-◌, ◌%◌, Bool, false, ◌||◌, Option, none, some, List, [], ◌∷◌, ◌++◌, leb, ◌==◌,
  if◌then◌else◌, u32,
}
use rtype_ci_cd.Common.Int.{ℤ}
use rtype_ci_cd.Common.Machine.{Machine, Float}
use rtype_ci_cd.Common.Floats
use rtype_ci_cd.Common.Maps.{find, erase}
use rtype_ci_cd.Common.Strings.{Text}
use rtype_ci_cd.Protocol.Udp.Messages.{player_disconnect}
use rtype_ci_cd.Renderer.Types.{Rect, entity_registry}
use rtype_ci_cd.Renderer.Menus.{Screen, PauseMenuChoice, draw_pause_menu, draw_options_menu}
use rtype_ci_cd.RTypeClient.Types.{
  Position, EntityState, InGameStatus, playing, paused, options, quitting, kicked, game_over,
  victory, RTypeClient, Effect, send, explode,
}
use rtype_ci_cd.RTypeClient.Keys.{Keys, handle_input}
use rtype_ci_cd.RTypeClient.Packets.{update}

-- What a frame reads: the keys, the key of `GetKeyPressed`, the window, the clock at each of its calls, the
-- messages of `receiveChatMessages`, and the datagrams of the socket with the times they are handled at.
-- `collide` is `CheckCollisionRecs`.
pub record Frame : Type 0 where
  pub keys : Keys
  pub key : ℤ
  pub screen : Screen
  pub collide : Rect → Rect → Bool
  pub score_test : ℕ
  pub score_set : ℕ
  pub input_time : ℕ
  pub update_time : ℕ
  pub messages : List Text
  pub arrivals : List (List ℕ × ℕ)

abbrev pub press_escape : Keys → InGameStatus → RTypeClient → RTypeClient
press_escape keys status c = if keys.escape_pressed then record c { status = status } else c

abbrev pub press_enter : Keys → RTypeClient → RTypeClient
press_enter keys c = if keys.enter_pressed then record c { status = quitting } else c

unfoldable pub score_if_due : ℕ → ℕ → RTypeClient → RTypeClient
score_if_due test set c =
    if leb 1000 ((test + u32 - c.last_score_increase_time) % u32)
    then record c { score = c.score + 5; last_score_increase_time = set }
    else c

-- `entity.type == 1 || entity.type == 4 || entity.type == 5`
unfoldable pub is_harmless : ℕ → Bool
is_harmless type = type == 1 || type == 4 || type == 5

unfoldable pub disconnect : RTypeClient → Effect
disconnect c = send (player_disconnect (record { player_id = c.my_player_id }))

module _ (m : Machine) where
  -- `config.width > 0 ? config.width : 33.0f`
  abbrev pub or_default : Float → Float
  or_default w = if m.lt Floats.zero_f w then w else Floats.thirty_three

  unfoldable pub entity_rect : EntityState → Rect
  entity_rect e = elim (entity_registry e.type) [
    | none ↦ record { x = e.x; y = e.y; width = Floats.forty; height = Floats.forty }
    | some config ↦ record {
      x = e.x;
      y = e.y;
      width = m.mul (or_default config.width) config.scale;
      height = m.mul (or_default config.height) config.scale;
    }
  ]

  abbrev pub player_rect : Position → Rect
  player_rect p = record { x = p.x; y = p.y; width = Floats.sixty; height = Floats.thirty }

  -- Whether some entity that is not harmless touches the player.
  unfoldable pub is_hit : (Rect → Rect → Bool) → Position → List (ℕ × EntityState) → Bool
  is_hit collide p [] = false
  is_hit collide p ((id, e) ∷ es) =
      let rest = is_hit collide p es in
      if is_harmless e.type then rest else collide (player_rect p) (entity_rect e) || rest

  unfoldable pub die_if_hit : (Rect → Rect → Bool) → RTypeClient → RTypeClient × List Effect
  die_if_hit collide c = elim (find c.my_player_id c.players) [
    | none ↦ (c, [])
    | some p ↦
        if is_hit collide p c.entities
        then (
          record c { status = game_over; players = erase c.my_player_id c.players },
          explode p.x p.y ∷ disconnect c ∷ [],
        )
        else (c, [])
  ]

  -- The case of `PLAYING`. Nothing is where `handleInput` throws.
  unfoldable pub play : Frame → RTypeClient → Option (RTypeClient × List Effect)
  play f c =
      let paused_if = press_escape f.keys paused c in
      let scored = score_if_due f.score_test f.score_set paused_if in
      let (checked, effects) = die_if_hit f.collide scored in
      elim (handle_input m f.keys f.input_time checked) [
        | none ↦ none
        | some (moved, effects') ↦
            let (updated, effects'') = update m f.messages f.update_time f.arrivals moved in
            some (updated, effects ++ (effects' ++ effects''))
      ]

  -- The cases of the switch.
  unfoldable pub run_case : InGameStatus → Frame → RTypeClient → Option (RTypeClient × List Effect)
  run_case playing f c = play f c
  run_case paused f c = some (press_escape f.keys playing c, [])
  run_case options f c = some (press_escape f.keys paused c, [])
  run_case game_over f c =
      some (update m f.messages f.update_time f.arrivals (press_enter f.keys c))
  run_case victory f c =
      let (updated, effects) =
        update m f.messages f.update_time f.arrivals (press_enter f.keys c) in
      some (record updated { entities = [] }, effects)
  run_case quitting f c = some (c, [])
  run_case kicked f c = some (c, [])

  abbrev pub choose : PauseMenuChoice → RTypeClient → RTypeClient × List Effect
  choose PauseMenuChoice.no_choice c = (c, [])
  choose PauseMenuChoice.options c = (record c { status = options }, [])
  choose PauseMenuChoice.quit c = (record c { status = quitting }, disconnect c ∷ [])

  -- The menus at the end of the frame. `remap` is the member `_actionToRemap` of the renderer.
  unfoldable pub menu_case :
      InGameStatus → Frame → Option Text → RTypeClient → RTypeClient × Option Text × List Effect
  menu_case paused f remap c =
      let (next, effects) = choose (draw_pause_menu m f.screen) c in (next, remap, effects)
  menu_case options f remap c =
      let (waiting, keybinds, left) = draw_options_menu m f.screen f.key remap c.keybinds in
      (record c { keybinds = keybinds; status = if left then paused else options }, waiting, [])
  menu_case _ f remap c = (c, remap, [])

  -- The whole frame, its drawing left out.
  unfoldable pub tick :
      Frame → Option Text → RTypeClient → Option (RTypeClient × Option Text × List Effect)
  tick f remap c = elim (run_case c.status f c) [
    | none ↦ none
    | some (next, effects) ↦
        let (last, waiting, effects') = menu_case next.status f remap next in
        some (last, waiting, effects ++ effects')
  ]
