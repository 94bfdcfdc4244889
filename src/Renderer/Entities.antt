-- ===== src/Renderer/Entities.antt =====
-- The loops over the entities and the explosions of `Renderer::draw`.
use rtype_ci_cd.Common.{ℕ, suc, none, some, List, [], ◌∷◌, ◌++◌, if◌then◌else◌}
use rtype_ci_cd.Common.Int.{pos, mod_ℤ}
use rtype_ci_cd.Common.Machine.{Machine, Float, Double}
use rtype_ci_cd.Common.Floats
use rtype_ci_cd.Common.Maps.{find}
use rtype_ci_cd.RTypeClient.Types.{EntityState}
use rtype_ci_cd.Renderer.Types.{
  Rect, Texture, EntityRenderConfig, entity_registry, Explosion, Draw, sprite, circle, magenta,
}
use rtype_ci_cd.Renderer.Players.{Sight}

module _ (m : Machine) where
  -- `size > 0 ? size : whole`
  abbrev pub size_or : Float → ℕ → Float
  size_or size whole = if m.lt Floats.zero_f size then size else m.of_int (pos whole)

  -- `sourceRec`
  unfoldable pub source_rect : EntityRenderConfig → Texture → Double → Rect
  source_rect config texture time =
      let frame =
        mod_ℤ (m.to_int (m.mul_double time (m.wide config.frame_speed))) config.frame_count in
      if config.is_animated
      then record {
        x = m.add config.start_x (m.mul (m.of_int frame) config.width);
        y = config.start_y;
        width = config.width;
        height = config.height;
      }
      else record {
        x = config.start_x;
        y = config.start_y;
        width = size_or config.width texture.width;
        height = size_or config.height texture.height;
      }

  -- A picture at a place, scaled, with its origin in the middle.
  abbrev pub centred : Texture → Rect → Float → Float → Float → Draw
  centred texture source scale x y =
      let width = m.mul source.width scale in
      let height = m.mul source.height scale in
      sprite texture source (record { x = x; y = y; width = width; height = height })
        (m.div width Floats.two, m.div height Floats.two)

  unfoldable pub draw_explosion : Texture → Double → Explosion → Draw
  draw_explosion texture life_time e =
      let frame = mod_ℤ (m.to_int (m.mul_double life_time (m.wide Floats.twelve))) 6 in
      centred texture
        (record {
          x = m.add Floats.sixty_seven (m.mul (m.of_int frame) Floats.thirty_eight);
          y = Floats.two_hundred_94;
          width = Floats.thirty_eight;
          height = Floats.thirty_two;
        })
        Floats.two_and_half e.x e.y

module _ (m : Machine) (f : Sight) where
  unfoldable pub draw_entity : List (ℕ × Texture) → ℕ → EntityState → List Draw
  draw_entity textures id e = elim (entity_registry e.type) [
    | none ↦ circle (m.to_int (m.wide e.x)) (m.to_int (m.wide e.y)) 20 magenta ∷ []
    | some config ↦ elim (find config.texture_id textures) [
      | none ↦ []
      | some texture ↦
          centred m texture (source_rect m config texture (f.entity_time id)) config.scale e.x e.y
          ∷ []
    ]
  ]

  unfoldable pub draw_entities : List (ℕ × Texture) → List (ℕ × EntityState) → List Draw
  draw_entities textures [] = []
  draw_entities textures ((id, e) ∷ es) = draw_entity textures id e ++ draw_entities textures es

  -- The loop from its round `i` on: the explosions that stay, and what is drawn.
  unfoldable pub explosion_loop : Texture → ℕ → List Explosion → List Explosion × List Draw
  explosion_loop texture i [] = ([], [])
  explosion_loop texture i (e ∷ es) =
      let life_time = m.sub_double (f.explosion_time i) e.start_time in
      let (kept, draws) = explosion_loop texture (suc i) es in
      if m.lt_double Floats.half_double life_time
      then (kept, draws)
      else (e ∷ kept, draw_explosion m texture life_time e ∷ draws)

  unfoldable pub draw_explosions : List (ℕ × Texture) → List Explosion → List Explosion × List Draw
  draw_explosions textures es = elim (find 4 textures) [
    | none ↦ (es, [])
    | some texture ↦ explosion_loop texture 0 es
  ]
