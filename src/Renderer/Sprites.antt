-- ===== src/Renderer/Sprites.antt =====
-- The entities on the screen of Src/Client/Renderer.cpp.
use rtype_ci_cd.Common.{
  ℕ, ◌≡◌, ◌≢◌, refl, true, ◌||◌, Option, none, some, List, [], ◌∷◌, ◌==◌, ◌&&◌, ltb, arith,
}
use rtype_ci_cd.Common.Machine.{Machine}
use rtype_ci_cd.Common.Maps.{find}
use rtype_ci_cd.Common.Strings.{Text}
use rtype_ci_cd.RTypeClient.Types.{EntityState, RTypeClient}
use rtype_ci_cd.Renderer.Types.{
  Texture, EntityRenderConfig, entity_registry, Draw, sprite, circle, magenta, Renderer,
  new_renderer,
}
use rtype_ci_cd.Renderer.Players.{Sight}
use rtype_ci_cd.Renderer.Entities.{centred, source_rect, draw_entity, draw_entities}
use rtype_ci_cd.Renderer.Scene.{draw}
use rtype_ci_cd.Renderer.Bank.{draw_all}

-- Every picture that the registry names is loaded.
abbrev IsComplete : List (ℕ × Texture) → Type 0
IsComplete textures =
    (type : ℕ) (config : EntityRenderConfig)
    → entity_registry type ≡ some config
    → find config.texture_id textures ≢ none

-- The call draws at the place of the entity: its picture, or a circle if its type is not in the registry.
abbrev pub ShowsAt : Machine → EntityState → Draw → Type 0
ShowsAt m e (sprite texture source target origin) =
    (target.x ≡ e.x) × (target.y ≡ e.y) × (entity_registry e.type ≢ none)
ShowsAt m e (circle x y radius color) =
    (x ≡ m.to_int (m.wide e.x)) × (y ≡ m.to_int (m.wide e.y)) × (entity_registry e.type ≡ none)
ShowsAt m e _ = ⊥

abbrev pub AllShown : Machine → List (ℕ × EntityState) → List Draw → Type 0
AllShown m [] [] = Unit
AllShown m ((id, e) ∷ es) (d ∷ ds) = ShowsAt m e d × AllShown m es ds
AllShown m [] (d ∷ ds) = ⊥
AllShown m (x ∷ es) [] = ⊥

registry-texture_id :
    (type : ℕ) (config : EntityRenderConfig)
    → entity_registry type ≡ some config
    → (ltb 0 config.texture_id && ltb config.texture_id 5 || config.texture_id == 20) ≡ true
unfolding entity_registry
registry-texture_id type config e = ground arith

new_renderer-find :
    (m : Machine) (load : Text → Texture) (height id : ℕ)
    → (ltb 0 id && ltb id 5 || id == 20) ≡ true
    → find id (new_renderer m load height).textures ≢ none
unfolding new_renderer find
new_renderer-find m load height id h = ground arith

draw_entity-sprite :
    (m : Machine) (f : Sight) (textures : List (ℕ × Texture)) (id : ℕ) (e : EntityState)
    (config : EntityRenderConfig) (t : Option Texture)
    → entity_registry e.type ≡ some config
    → find config.texture_id textures ≡ t
    → find config.texture_id textures ≢ none
    → (d : Draw) × (draw_entity m f textures id e ≡ d ∷ []) × ShowsAt m e d
unfolding draw_entity
draw_entity-sprite m f textures id e config none p q h = absurd (h q)
draw_entity-sprite m f textures id e config (some texture) p q h = (
  centred m texture (source_rect m config texture (f.entity_time id)) config.scale e.x e.y,
  rw (p, draw_entity) (rw q refl),
  (refl, refl, λ e. cc (p, e)),
)

draw_entity-ShowsAt :
    (m : Machine) (f : Sight) (textures : List (ℕ × Texture)) (id : ℕ) (e : EntityState)
    (o : Option EntityRenderConfig)
    → entity_registry e.type ≡ o
    → IsComplete textures
    → (d : Draw) × (draw_entity m f textures id e ≡ d ∷ []) × ShowsAt m e d
unfolding draw_entity
draw_entity-ShowsAt m f textures id e none p h = (
  circle (m.to_int (m.wide e.x)) (m.to_int (m.wide e.y)) 20 magenta,
  rw (p, draw_entity) refl,
  (refl, refl, p),
)
draw_entity-ShowsAt m f textures id e (some config) p h =
    draw_entity-sprite m f textures id e config (find config.texture_id textures) p refl
      (h e.type config p)

draw_entities-AllShown :
    (m : Machine) (f : Sight) (textures : List (ℕ × Texture)) (es : List (ℕ × EntityState))
    → IsComplete textures
    → AllShown m es (draw_entities m f textures es)
unfolding draw_entities
draw_entities-AllShown m f textures [] h = tt
draw_entities-AllShown m f textures ((id, e) ∷ es) h =
    let (d, p, shows) = draw_entity-ShowsAt m f textures id e (entity_registry e.type) refl h in
    rw p (shows, draw_entities-AllShown m f textures es h)

draw_all-textures :
    (m : Machine) (frames : List (Sight × RTypeClient)) (r : Renderer)
    → (draw_all m frames r).textures ≡ r.textures
unfolding draw
draw_all-textures m [] r = refl
draw_all-textures m ((f, c) ∷ frames) r = draw_all-textures m frames (draw m f c r).0

-- In every frame of a new renderer, whatever was drawn before: there is one picture for each entity of the
-- client, in their order and at its place, a circle exactly for the types that the registry does not have.
pub draw_entities-drawn :
    (m : Machine) (load : Text → Texture) (height : ℕ) (frames : List (Sight × RTypeClient))
    (f : Sight) (es : List (ℕ × EntityState))
    → AllShown m es (draw_entities m f (draw_all m frames (new_renderer m load height)).textures es)
draw_entities-drawn m load height frames f es =
    rw (draw_all-textures m frames (new_renderer m load height)) (
      draw_entities-AllShown m f (new_renderer m load height).textures es (λ type config e.
        new_renderer-find m load height config.texture_id (registry-texture_id type config e)))
