-- ===== src/Game/Boss/Alive.antt =====
-- The bosses of a match that are not marked as collided, and how the loops of Src/Server/Game.cpp
-- change their number.
use rtype_ci_cd.Common.{
  ℕ, zero, suc, ◌+◌, ◌≤◌, ◌≡◌, refl, ◌∙◌, not, ◌&&◌, some, List, [], ◌∷◌, ◌++◌, map, get_elem?, set,
  if◌then◌else◌, ◌==◌, arith,
}
use rtype_ci_cd.Common.Machine.{Machine, Float}
use rtype_ci_cd.Game.Types.{Player, Entity}
use rtype_ci_cd.Game.Entities.{advance, update_entities_loop, wave, steer_boss}
use rtype_ci_cd.Game.Collision.{collided, crash, player_loop}

-- One for a boss that is not marked.
abbrev pub weight : Entity → ℕ
weight e = if e.type == 10 && not e.is_collide then 1 else 0

abbrev pub alive : List Entity → ℕ
alive [] = 0
alive (e ∷ es) = weight e + alive es

pub alive-append : (es : List Entity) (e : Entity) → alive (es ++ e ∷ []) ≡ alive es + weight e
alive-append [] e = omega arith
alive-append (x ∷ es) e = omega (arith, alive-append es e)

pub alive-set :
    (es : List Entity) (i : ℕ) (e : Entity)
    → get_elem? es i ≡ some e
    → alive (set es i (collided e)) + weight e ≡ alive es
alive-set [] i e h = absurd (ground arith)
alive-set (x ∷ es) zero e h = ground arith
alive-set (x ∷ es) (suc i) e h = omega (arith, alive-set es i e h)

module _ (m : Machine) where
  weight-crash : (p : Player) (e : Entity) → weight (crash m p e) ≡ weight e
  unfolding crash
  weight-crash p e = ground arith

  alive-map-crash : (p : Player) (es : List Entity) → alive (map (crash m p) es) ≡ alive es
  alive-map-crash p [] = refl
  alive-map-crash p (e ∷ es) = omega (arith, weight-crash p e, alive-map-crash p es)

  pub alive-player_loop :
      (ps : List Player) (es : List Entity) → alive (player_loop m ps es) ≡ alive es
  unfolding player_loop
  alive-player_loop [] es = refl
  alive-player_loop (p ∷ ps) es = alive-player_loop ps (map (crash m p) es) ∙ alive-map-crash p es

  pub alive-update_entities_le :
      (ps : List Player) (es : List Entity) → alive (update_entities_loop m ps es).0 ≤ alive es
  unfolding update_entities_loop advance
  alive-update_entities_le ps [] = omega arith
  alive-update_entities_le ps (e ∷ es) = ground (arith, alive-update_entities_le ps es)

  weight-wave : (time : Float) (e : Entity) → weight (wave m time e) ≡ weight e
  unfolding wave
  weight-wave time e = ground arith

  weight-steer_boss :
      (time : Float) (level : ℕ) (e : Entity) → weight (steer_boss m time level e) ≡ weight e
  unfolding steer_boss
  weight-steer_boss time level e = ground arith

  pub alive-steer :
      (time : Float) (level : ℕ) (es : List Entity)
      → alive (map (λ e. steer_boss m time level (wave m time e)) es) ≡ alive es
  alive-steer time level [] = refl
  alive-steer time level (e ∷ es) = omega (
    arith,
    weight-steer_boss time level (wave m time e),
    weight-wave time e,
    alive-steer time level es,
  )
