-- ===== src/Renderer/Parallax.antt =====
-- Src/Client/ParallaxLayer.cpp: a layer of the background.
use rtype_ci_cd.Common.{List, [], ◌∷◌, if◌then◌else◌, ℕ}
use rtype_ci_cd.Common.Int.{pos, ◌-ℤ◌}
use rtype_ci_cd.Common.Machine.{Machine, Float}
use rtype_ci_cd.Common.Floats
use rtype_ci_cd.Renderer.Types.{ParallaxLayer, Draw, image}

module _ (m : Machine) where
  -- `-_texture.width * _scale`
  abbrev pub left_end : ParallaxLayer → Float
  left_end l = m.mul (m.of_int (pos 0 -ℤ pos l.texture.width)) l.scale

  abbrev pub wrap : ParallaxLayer → Float → Float → Float
  wrap l end offset =
      if m.le offset end
      then (if m.eq l.initial_x Floats.zero_f then Floats.zero_f else l.initial_x)
      else offset

  -- `update`; `width` is that of the window.
  unfoldable pub update_layer : ℕ → Float → Float → ParallaxLayer → ParallaxLayer
  update_layer width dt camera_speed l =
      let moved = m.sub l.offset (m.mul (m.mul l.speed dt) camera_speed) in
      let left = left_end l in
      let end =
        if m.eq l.initial_x Floats.zero_f then left else m.sub left (m.of_int (pos width)) in
      record l { offset = wrap l end moved }

  -- `draw`: the image twice, side by side.
  unfoldable pub draw_layer : ParallaxLayer → List Draw
  draw_layer l =
      image l.texture l.offset l.y l.scale
      ∷ image l.texture (m.add l.offset (m.mul (m.of_int (pos l.texture.width)) l.scale)) l.y
          l.scale
      ∷ []
