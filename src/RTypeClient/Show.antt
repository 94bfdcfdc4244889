-- ===== src/RTypeClient/Show.antt =====
-- What `RTypeClient::tick` draws before its menus.
use rtype_ci_cd.Common.{
  Bool, false, ◌&&◌, ◌||◌, Option, none, some, List, [], ◌∷◌, ◌++◌, ◌==◌, ℕ, suc, if◌then◌else◌,
}
use rtype_ci_cd.Common.Int.{ℤ, pos, ◌-ℤ◌, ltb_ℤ}
use rtype_ci_cd.Common.Machine.{Machine, Double}
use rtype_ci_cd.Common.Floats
use rtype_ci_cd.Common.Strings.{codes}
use rtype_ci_cd.Renderer.Types.{
  Renderer, Draw, text, rectangle, outline, red, gray, white, yellow, ray_white, fade,
  add_explosion,
}
use rtype_ci_cd.Renderer.Players.{Sight}
use rtype_ci_cd.Renderer.Scene.{draw}
use rtype_ci_cd.Renderer.Overlay.{draw_chat, draw_game_over_screen, draw_victory_screen}
use rtype_ci_cd.RTypeClient.Types.{
  EntityState, InGameStatus, playing, paused, options, quitting, kicked, game_over, victory,
  RTypeClient, Effect, send, send_chat, explode,
}
use rtype_ci_cd.RTypeClient.Frame.{Frame, run_case}

unfoldable pub boss_exists : List (ℕ × EntityState) → Bool
boss_exists [] = false
boss_exists ((id, e) ∷ es) = e.type == 10 || boss_exists es

-- The explosions of a frame from the `i`th on, each at its own reading of `GetTime`.
unfoldable pub explode_all : (ℕ → Double) → ℕ → List Effect → Renderer → Renderer
explode_all times i (explode x y ∷ es) r =
    explode_all times (suc i) es (add_explosion x y (times i) r)
explode_all times i (send p ∷ es) r = explode_all times i es r
explode_all times i (send_chat s ∷ es) r = explode_all times i es r
explode_all times i [] r = r

module _ (m : Machine) (f : Sight) where
  -- The bar of the boss, which shrinks with its hit points.
  unfoldable pub boss_bar : ℤ → ℤ → List Draw
  boss_bar hp max_hp =
      let x = m.div (m.sub (m.of_int (pos f.width)) Floats.four_hundred) Floats.two in
      let left = m.to_int (m.wide x) in
      let percent = m.div (m.of_int hp) (m.of_int max_hp) in
      let filled = m.to_int (m.wide (m.mul Floats.four_hundred percent)) in
      text (codes "BOSS") left (m.to_int (m.wide (m.sub Floats.fifty Floats.twenty_five))) 20 red
      ∷ rectangle left (pos 50) (pos 400) (pos 20) (fade gray Floats.half)
      ∷ rectangle left (pos 50) filled (pos 20) red
      ∷ outline left (pos 50) (pos 400) (pos 20) white
      ∷ []

  unfoldable pub draw_boss : RTypeClient → List Draw
  draw_boss c =
      if boss_exists c.entities && ltb_ℤ (pos 0) c.boss_hp
      then boss_bar c.boss_hp c.boss_max_hp
      else []

  -- The score and the loss, at the right.
  unfoldable pub draw_scores : RTypeClient → List Draw
  draw_scores c =
      let score = f.format_score c.score in
      let loss = f.format_loss c.loss.packet_loss_percentage in
      let color = if m.lt Floats.five c.loss.packet_loss_percentage then red else yellow in
      text score (pos f.width -ℤ f.measure_text score 30 -ℤ pos 20) (pos 20) 30 ray_white
      ∷ text loss (pos f.width -ℤ f.measure_text loss 20 -ℤ pos 20) (pos 60) 20 color
      ∷ []

  unfoldable pub draw_end : InGameStatus → RTypeClient → List Draw
  draw_end game_over c = draw_game_over_screen f (pos c.score)
  draw_end victory c = draw_victory_screen f (pos c.score) c.players c.my_player_id
  draw_end playing c = []
  draw_end paused c = []
  draw_end options c = []
  draw_end quitting c = []
  draw_end kicked c = []

  unfoldable pub show : RTypeClient → Renderer → Renderer × List Draw
  show c r =
      let (next, scene) = draw m f c r in
      (
        next,
        scene
            ++ (draw_chat m f c.chat_history c.chat_input c.is_chat_active
                ++ (draw_boss c ++ (draw_scores c ++ draw_end c.status c))),
      )

  -- A frame up to its menus: nothing where `handleInput` throws.
  unfoldable pub show_frame :
      Frame → (ℕ → Double) → RTypeClient → Renderer → Option (Renderer × List Draw)
  show_frame frame times c r = elim (run_case m c.status frame c) [
    | none ↦ none
    | some (next, effects) ↦ some (show next (explode_all times 0 effects r))
  ]
