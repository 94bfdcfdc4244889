-- ===== src/Renderer/Types.antt =====
-- Include/Client/Renderer.hpp: the members of `Renderer`, the registry of its constructor in
-- Src/Client/Renderer.cpp, and the calls of raylib that draw.
use rtype_ci_cd.Common.{
  ℕ, Bool, true, false, ◌||◌, Option, none, some, List, [], ◌∷◌, ◌++◌, ◌==◌, if◌then◌else◌,
}
use rtype_ci_cd.Common.Int.{ℤ, pos}
use rtype_ci_cd.Common.Machine.{Machine, Float, Double}
use rtype_ci_cd.Common.Floats
use rtype_ci_cd.Common.Strings.{Text, codes}

-- `Rectangle`.
pub record Rect : Type 0 where
  pub x : Float
  pub y : Float
  pub width : Float
  pub height : Float

-- `Texture2D`. An `id` of 0 is an image that was not loaded.
pub record Texture : Type 0 where
  pub id : ℕ
  pub width : ℕ
  pub height : ℕ

pub record EntityRenderConfig : Type 0 where
  pub texture_id : ℕ
  pub is_animated : Bool
  pub frame_count : ℕ
  pub frame_speed : Float
  pub width : Float
  pub height : Float
  pub scale : Float
  pub start_x : Float
  pub start_y : Float

abbrev still_config : ℕ → Float → Float → Float → EntityRenderConfig
still_config texture_id width height scale = record {
  texture_id = texture_id;
  is_animated = false;
  frame_count = 1;
  frame_speed = Floats.zero_f;
  width = width;
  height = height;
  scale = scale;
  start_x = Floats.zero_f;
  start_y = Floats.zero_f;
}

abbrev pub whole_image : EntityRenderConfig
whole_image = still_config 1 Floats.zero_f Floats.zero_f Floats.one

abbrev pub boss_image : EntityRenderConfig
boss_image = still_config 20 Floats.five_hundred_93 Floats.one_hundred_77 Floats.half

abbrev pub shot_frames : EntityRenderConfig
shot_frames = record {
  texture_id = 2;
  is_animated = true;
  frame_count = 12;
  frame_speed = Floats.eight;
  width = Floats.seventeen;
  height = Floats.eighteen;
  scale = Floats.two;
  start_x = Floats.zero_f;
  start_y = Floats.zero_f;
}

abbrev pub enemy_frames : EntityRenderConfig
enemy_frames = record {
  texture_id = 3;
  is_animated = true;
  frame_count = 8;
  frame_speed = Floats.twelve;
  width = Floats.thirty_three;
  height = Floats.thirty_six;
  scale = Floats.two_and_half;
  start_x = Floats.zero_f;
  start_y = Floats.zero_f;
}

abbrev pub charged_frames : EntityRenderConfig
charged_frames = record {
  texture_id = 4;
  is_animated = true;
  frame_count = 4;
  frame_speed = Floats.zero_f;
  width = Floats.twenty_nine;
  height = Floats.thirty;
  scale = Floats.three;
  start_x = Floats.one_hundred_36;
  start_y = Floats.nineteen;
}

-- `ENTITY_REGISTRY`, as the constructor fills it.
unfoldable pub entity_registry : ℕ → Option EntityRenderConfig
entity_registry type =
    if type == 1 || type == 11
    then some whole_image
    else if type == 2
    then some shot_frames
    else if type == 3
    then some enemy_frames
    else if type == 4
    then some charged_frames
    else if type == 10
    then some boss_image
    else none

pub record Explosion : Type 0 where
  pub x : Float
  pub y : Float
  pub start_time : Double

-- The members of a `ParallaxLayer` of Include/Client/ParallaxLayer.hpp.
pub record ParallaxLayer : Type 0 where
  pub speed : Float
  pub offset : Float
  pub texture : Texture
  pub scale : Float
  pub y : Float
  pub initial_x : Float

-- The members but `_actionToRemap`, which the menus take and give.
pub record Renderer : Type 0 where
  pub textures : List (ℕ × Texture)
  pub parallax_layers : List ParallaxLayer
  pub player_bank : List (ℕ × Float)
  pub explosions : List Explosion

pub data Color : Type 0 where
  white black red gray light_gray dark_gray yellow gold green magenta ray_white : Color
  fade : Color → Float → Color

-- The calls that draw: `ClearBackground`, `DrawText`, `DrawTexturePro` (without a rotation, in white),
-- `DrawTextureEx`, `DrawCircleLines`, `DrawRectangle` and `DrawRectangleLines`.
pub data Draw : Type 0 where
  clear : Color → Draw
  text : Text → ℤ → ℤ → ℕ → Color → Draw
  sprite : Texture → Rect → Rect → Float × Float → Draw
  image : Texture → Float → Float → Float → Draw
  circle : ℤ → ℤ → ℕ → Color → Draw
  rectangle : ℤ → ℤ → ℤ → ℤ → Color → Draw
  outline : ℤ → ℤ → ℤ → ℤ → Color → Draw

-- The constructor of `ParallaxLayer`.
unfoldable pub new_layer : Float → Texture → Float → Float → Float → ParallaxLayer
new_layer speed texture scale y initial_x = record {
  speed = speed;
  offset = initial_x;
  texture = texture;
  scale = scale;
  y = y;
  initial_x = initial_x;
}

-- The constructor: `load` is `LoadTexture`, and `height` that of the window.
unfoldable pub new_renderer : Machine → (Text → Texture) → ℕ → Renderer
new_renderer m load height =
    let back = load (codes "Assets/blue-back.png") in
    let stars = load (codes "Assets/blue-stars.png") in
    let scale = m.div (m.of_int (pos height)) (m.of_int (pos back.height)) in
    record {
      textures =
          (0, load (codes "Assets/r-typesheet42.gif"))
          ∷ (1, load (codes "Assets/attack.png"))
          ∷ (2, load (codes "Assets/r-typesheet3.gif"))
          ∷ (3, load (codes "Assets/r-typesheet5.gif"))
          ∷ (4, load (codes "Assets/r-typesheet1.gif"))
          ∷ (10, back)
          ∷ (11, stars)
          ∷ (12, load (codes "Assets/asteroid-1.png"))
          ∷ (20, load (codes "Assets/r-typesheet37.gif"))
          ∷ [];
      parallax_layers =
          new_layer Floats.fifth back scale Floats.zero_f Floats.zero_f
          ∷ new_layer Floats.two_fifths stars Floats.six Floats.zero_f Floats.zero_f
          ∷ [];
      player_bank = [];
      explosions = [];
    }

-- `addExplosion`; `time` is `GetTime`.
unfoldable pub add_explosion : Float → Float → Double → Renderer → Renderer
add_explosion x y time r = record r {
  explosions = r.explosions ++ record { x = x; y = y; start_time = time } ∷ [];
}
