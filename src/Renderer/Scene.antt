-- ===== src/Renderer/Scene.antt =====
-- `Renderer::draw`.
use rtype_ci_cd.Common.{ℕ, List, [], ◌∷◌, ◌++◌, map}
use rtype_ci_cd.Common.Int.{pos}
use rtype_ci_cd.Common.Machine.{Machine}
use rtype_ci_cd.Common.Floats
use rtype_ci_cd.Common.Strings.{Text, codes}
use rtype_ci_cd.ConfigManager.Numbers.{show_digits}
use rtype_ci_cd.RTypeClient.Types.{RTypeClient}
use rtype_ci_cd.Renderer.Types.{ParallaxLayer, Renderer, Draw, clear, text, black, dark_gray}
use rtype_ci_cd.Renderer.Parallax.{update_layer, draw_layer}
use rtype_ci_cd.Renderer.Players.{Sight, draw_players}
use rtype_ci_cd.Renderer.Entities.{draw_entities, draw_explosions}

-- A `uint32_t` has at most ten digits.
abbrev pub ping_text : ℕ → Text
ping_text rtt = codes "Ping: " ++ (show_digits 10 rtt ++ codes " ms")

module _ (m : Machine) (f : Sight) where
  abbrev pub draw_layers : List ParallaxLayer → List Draw
  draw_layers [] = []
  draw_layers (l ∷ ls) = draw_layer m l ++ draw_layers ls

  -- `_gameState` and the key bindings are those of the client.
  unfoldable pub draw : RTypeClient → Renderer → Renderer × List Draw
  draw c r =
      let layers =
        map (update_layer m f.width f.frame_time Floats.one_hundred_50) r.parallax_layers in
      let (banks, ships) =
        draw_players m f c.keybinds c.my_player_id r.textures r.player_bank c.players in
      let (explosions, bursts) = draw_explosions m f r.textures r.explosions in
      (
        record r { parallax_layers = layers; player_bank = banks; explosions = explosions },
        clear black
            ∷ (draw_layers layers
                ++ (text (codes "R-Type") (pos 10) (pos 10) 20 dark_gray
                    ∷ text (ping_text c.rtt) (pos 10) (pos 40) 20 dark_gray
                    ∷ (ships ++ (draw_entities m f r.textures c.entities ++ bursts)))),
      )
