-- ===== src/Renderer/Background.antt =====
-- The wrap of the layers of Src/Client/ParallaxLayer.cpp.
use rtype_ci_cd.Common.{ℕ, ◌≡◌, true, false, List, [], ◌∷◌, arith}
use rtype_ci_cd.Common.Machine.{Machine, Float}
use rtype_ci_cd.Common.Floats.{zero_f}
use rtype_ci_cd.Renderer.Types.{Texture, ParallaxLayer, new_layer}
use rtype_ci_cd.Renderer.Parallax.{left_end, update_layer}

module _ (m : Machine) where
  -- The updates of the frames: the window's width, the time and the speed of the camera.
  abbrev pub scroll : List (ℕ × Float × Float) → ParallaxLayer → ParallaxLayer
  scroll [] l = l
  scroll ((width, dt, speed) ∷ fs) l = scroll fs (update_layer m width dt speed l)

  -- The first image begins right of the place where it would be out of the window, and not right of the
  -- window's left edge.
  abbrev pub Covers : ParallaxLayer → Type 0
  Covers l = (m.le l.offset (left_end m l) ≡ false) × (m.lt zero_f l.offset ≡ false)

  -- No frame moves the layer to the right.
  abbrev pub MovesLeft : ParallaxLayer → List (ℕ × Float × Float) → Type 0
  MovesLeft l [] = Unit
  MovesLeft l ((width, dt, speed) ∷ fs) =
      ((a : Float)
        → m.lt zero_f a ≡ false
        → m.lt zero_f (m.sub a (m.mul (m.mul l.speed dt) speed)) ≡ false)
      × MovesLeft l fs

  scroll-Covers :
      (fs : List (ℕ × Float × Float)) (l : ParallaxLayer)
      → m.eq l.initial_x zero_f ≡ true
      → m.le zero_f (left_end m l) ≡ false
      → m.lt zero_f zero_f ≡ false
      → MovesLeft l fs
      → Covers l
      → Covers (scroll fs l)
  unfolding update_layer
  scroll-Covers [] l e left z h k = k
  scroll-Covers ((width, dt, speed) ∷ fs) l e left z h k =
      scroll-Covers fs (update_layer m width dt speed l) e left z h.1 (ground (arith, h.0 l.offset))

-- Where no frame moves the layer to the right, and its image is scaled to some width: a layer that is made
-- at 0, as those of the renderer are, always has its two images side by side over the left edge of the
-- window: the first begins neither right of the edge nor a whole width left of it, through any frames.
pub scroll-new_layer :
    (m : Machine) (speed : Float) (texture : Texture) (scale y : Float)
    (fs : List (ℕ × Float × Float))
    → m.eq zero_f zero_f ≡ true
    → m.lt zero_f zero_f ≡ false
    → m.le zero_f (left_end m (new_layer speed texture scale y zero_f)) ≡ false
    → MovesLeft m (new_layer speed texture scale y zero_f) fs
    → Covers m (scroll m fs (new_layer speed texture scale y zero_f))
unfolding new_layer
scroll-new_layer m speed texture scale y fs e z left h =
    scroll-Covers m fs (new_layer speed texture scale y zero_f) e left z h (left, z)
