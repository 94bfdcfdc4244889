-- ===== src/Game/Ranges/Passes.antt =====
-- The ranges through the motion and the collisions of `Game::update` of Src/Server/Game.cpp.
use rtype_ci_cd.Common.{
  ℕ, suc, ◌≤◌, ◌<◌, ◌≡◌, refl, ap, inl, inr, List, [], ◌∷◌, length, u32, Bool-cases, arith,
}
use rtype_ci_cd.Common.Int.{pos, negsuc, ◌≤ℤ◌}
use rtype_ci_cd.Common.Machine.{Machine}
use rtype_ci_cd.Protocol.Udp.Messages.{entity_update, entity_destroy}
use rtype_ci_cd.Game.Types.{Player, Entity, Game, to_all}
use rtype_ci_cd.Game.Entities.{advance, is_gone, update_entities_loop, update_entities}
use rtype_ci_cd.Game.Collision.{Clash, strike_boss, boss_died, meet, handle_collision}
use rtype_ci_cd.Game.Collision.Marks.{Marks}
use rtype_ci_cd.Game.Collision.Loops.{projectile_loop_keeps, meet_cases, handle_collision-Marks}
use rtype_ci_cd.Game.Boss.Health.{BossInvariant, meet-BossInvariant}
use rtype_ci_cd.Game.Update.{Frame}
use rtype_ci_cd.Game.Update.Boss.{HasBoss-Kept}
use rtype_ci_cd.Game.Ranges.{
  IsMachine32, EntitiesInRange, InRange, AllInRange, AllInRange-append, AllInRange-to_all, Says,
}

Marks-EntitiesInRange :
    (es fs : List Entity) → Marks es fs → EntitiesInRange es → EntitiesInRange fs
Marks-EntitiesInRange [] [] k h = tt
Marks-EntitiesInRange [] (f ∷ fs) k h = absurd k
Marks-EntitiesInRange (e ∷ es) [] k h = absurd k
Marks-EntitiesInRange (e ∷ es) (f ∷ fs) k h =
    (ground (arith, k.0, h.0), Marks-EntitiesInRange es fs k.1 h.1)

Marks-length : (es fs : List Entity) → Marks es fs → length fs ≡ length es
Marks-length [] [] k = refl
Marks-length [] (f ∷ fs) k = absurd k
Marks-length (e ∷ es) [] k = absurd k
Marks-length (e ∷ es) (f ∷ fs) k = ap suc (Marks-length es fs k.1)

-- The times that a collision pass keeps of the boss.
abbrev BossTimes : Clash → Type 0
BossTimes c = (c.boss.last_shoot_time < u32) × (c.boss.death_time < u32)

module _ (m : Machine) (laws : IsMachine32 m) where
  loop-EntitiesInRange :
      (ps : List Player) (es : List Entity)
      → EntitiesInRange es
      → EntitiesInRange (update_entities_loop m ps es).0
        × AllInRange (update_entities_loop m ps es).1
        × (length (update_entities_loop m ps es).0 ≤ length es)
  unfolding update_entities_loop advance
  loop-EntitiesInRange ps [] h = (tt, tt, omega arith)
  loop-EntitiesInRange ps (e ∷ es) h =
      let (rest, said, shorter) = loop-EntitiesInRange ps es h.1 in
      elim (Bool-cases (is_gone m (advance m e))) [
        | inl gone ↦ rw gone (
          rest,
          AllInRange-append (to_all ps _) (update_entities_loop m ps es).1
              (AllInRange-to_all ps (entity_destroy (record { entity_id = e.id })) h.0.0) said,
          omega (arith, shorter),
        )
        | inr stays ↦ rw stays (
          (
            (
              h.0.0,
              h.0.1,
              laws.add_lt e.x e.velocity_x,
              laws.add_lt e.y e.velocity_y,
              h.0.4,
              h.0.5,
            ),
            rest,
          ),
          AllInRange-append (to_all ps _) (update_entities_loop m ps es).1
              (AllInRange-to_all ps
                (entity_update (record {
                  entity_id = e.id;
                  timestamp = m.indeterminate;
                  x = (advance m e).x;
                  y = (advance m e).y;
                }))
                (
                  h.0.0,
                  laws.indeterminate_lt,
                  laws.add_lt e.x e.velocity_x,
                  laws.add_lt e.y e.velocity_y,
                ))
              said,
          omega (arith, shorter),
        )
      ]

  pub update_entities-Says :
      (b : ℕ) (fr : Frame) (g : Game) → InRange b g → Says b (update_entities m g)
  unfolding update_entities
  update_entities-Says b fr g r =
      let (entities, said, shorter) = loop-EntitiesInRange g.players g.entities r.entities in
      record {
        state = record {
          players = r.players;
          entities = entities;
          times = r.times;
          count = omega (arith, shorter, r.count);
          bounded = r.bounded;
          boss = (HasBoss-Kept m fr 0).moved g r.boss;
        };
        messages = said;
      }

  -- The hit points that a meeting leaves bound those that it sends.
  meet-AllInRange :
      (g : Game) (i j : ℕ) (p e : Entity) (c : Clash)
      → AllInRange c.sent
      → let d = meet m g i j p e c in
        (negsuc 48 ≤ℤ d.boss.hp) → (d.boss.hp ≤ℤ pos 2000) → AllInRange d.sent
  unfolding strike_boss boss_died
  meet-AllInRange g i j p e c h =
      meet_cases m g i j p e c
        (λ d. (negsuc 48 ≤ℤ d.boss.hp) → (d.boss.hp ≤ℤ pos 2000) → AllInRange d.sent) (λ _ _. h)
        (λ _ _ _ lo hi.
          AllInRange-append c.sent _ h (AllInRange-to_all g.players _ (ground (arith, lo, hi))))
        (λ _ _ _. h)

  -- A meeting sets the time of the death of the boss, and no other, to that of the match.
  meet-times :
      (g : Game) (i j : ℕ) (p e : Entity) (c : Clash)
      → g.game_time < u32
      → BossTimes c
      → BossTimes (meet m g i j p e c)
  unfolding strike_boss boss_died
  meet-times g i j p e c now h =
      meet_cases m g i j p e c BossTimes h (λ _ _ _. ground (arith, now, h)) (λ _. h)

  pub handle_collision-Says :
      (b : ℕ) (fr : Frame) (g : Game) → InRange b g → Says b (handle_collision m g)
  unfolding handle_collision
  handle_collision-Says b fr g r =
      let marks = (handle_collision-Marks m g).0 in
      let g' = (handle_collision m g).0 in
      let count = length g.entities in
      let same = Marks-length g.entities g'.entities marks in
      let (healthy, passed, said) =
        projectile_loop_keeps m g
          (λ d. BossInvariant 0 d.entities d.boss × BossTimes d × AllInRange d.sent)
          (λ i j p e c hp he shot h.
            let v = meet-BossInvariant m g i j p e c hp he shot h.0 in
            (v, meet-times g i j p e c r.times.0 h.1, meet-AllInRange g i j p e c h.2 v.low v.high))
          count count 0 (record { entities = g.entities; boss = g.boss; sent = [] })
          (r.boss, (r.times.1, r.times.2), tt) in
      record {
        state = record {
          players = r.players;
          entities = Marks-EntitiesInRange g.entities g'.entities marks r.entities;
          times = (r.times.0, passed.0, passed.1);
          count = omega (arith, same, r.count);
          bounded = r.bounded;
          boss = (HasBoss-Kept m fr 0).hit g r.boss;
        };
        messages = said;
      }
