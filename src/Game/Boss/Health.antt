-- ===== src/Game/Boss/Health.antt =====
-- The boss of Src/Server/Game.cpp: its levels, its hit points and its place among the entities.
use rtype_ci_cd.Common.{
  ℕ, ◌≤◌, ◌<◌, ◌≡◌, ◌≢◌, refl, ◌∙◌, inl, inr, Bool, true, false, ◌||◌, some, List, [], length,
  get_elem?, set, get_elem?-set_ne, Bool-cases, if◌then◌else◌, ◌==◌, arith,
}
use rtype_ci_cd.Common.Int.{pos, negsuc, ◌≤ℤ◌, ◌-ℤ◌, leb_ℤ}
use rtype_ci_cd.Common.Machine.{Machine, Float}
use rtype_ci_cd.Game.Types.{Entity, BossState, Game}
use rtype_ci_cd.Game.Collision.{
  Clash, is_projectile, is_target, collided, damaged, boss_died, strike_boss, meet, projectile_loop,
  handle_collision,
}
use rtype_ci_cd.Game.Collision.Loops.{projectile_loop_keeps, meet_cases}
use rtype_ci_cd.Game.Boss.Alive.{weight, alive, alive-set, alive-player_loop}

-- A boss is out: `g_bossLevel` is 1 or 3.
abbrev pub fighting : BossState → Bool
fighting b = b.level == 1 || b.level == 3

-- At most one boss that is not marked; none while no boss is out; a boss that is out has hit points
-- left; and the hit points never lie below -49 or above 2000.
pub record BossInvariant (l : ℕ) (es : List Entity) (b : BossState) : Type 0 where
  pub risen : l ≤ b.level
  pub known : b.level ≤ 4
  pub single : alive es ≤ 1
  pub quiet : fighting b ≡ false → alive es ≡ 0
  pub healthy : fighting b ≡ true → pos 1 ≤ℤ b.hp
  pub low : negsuc 48 ≤ℤ b.hp
  pub high : b.hp ≤ℤ pos 2000

-- Fewer bosses and the same boss state.
pub BossInvariant-le :
    {l : ℕ} {es : List Entity} (fs : List Entity) {b : BossState}
    → alive fs ≤ alive es
    → BossInvariant l es b
    → BossInvariant l fs b
BossInvariant-le fs h v = record {
  risen = v.risen;
  known = v.known;
  single = omega (arith, v.single);
  quiet = λ q. omega (arith, v.quiet q);
  healthy = v.healthy;
  low = v.low;
  high = v.high;
}

-- A hit takes 10 or 50 points from a boss that has points left.
damaged_bounds :
    (b : BossState) (p : Entity)
    → pos 1 ≤ℤ b.hp
    → b.hp ≤ℤ pos 2000
    → ((damaged b p).level ≡ b.level)
      × (negsuc 48 ≤ℤ (damaged b p).hp)
      × ((damaged b p).hp ≤ℤ pos 2000)
unfolding damaged ◌-ℤ◌
damaged_bounds b p lo hi = ground arith

-- A boss that has died is out no more.
boss_died_level :
    (b : BossState) (time : Float)
    → fighting b ≡ true
    → (fighting (boss_died b time) ≡ false)
      × ((boss_died b time).level ≤ 4)
      × ((boss_died b time).hp ≡ b.hp)
      × (b.level ≤ (boss_died b time).level)
unfolding boss_died
boss_died_level b time h = ground arith

fighting-damaged : (b : BossState) (p : Entity) → fighting (damaged b p) ≡ fighting b
unfolding damaged
fighting-damaged b p = refl

-- The entities and the boss state after a hit that leaves `boss`.
module _ (l j : ℕ) (e : Entity) (es : List Entity) (time : Float) where
  struck-BossInvariant :
      (boss : BossState)
      → get_elem? es j ≡ some e
      → weight e ≡ 1
      → alive es ≤ 1
      → l ≤ boss.level
      → boss.level ≤ 4
      → fighting boss ≡ true
      → negsuc 48 ≤ℤ boss.hp
      → boss.hp ≤ℤ pos 2000
      → let dead = leb_ℤ boss.hp (pos 0) in
        BossInvariant l
          (if dead then set es j (collided e) else es)
          (if dead then boss_died boss time else boss)
  struck-BossInvariant boss at w one risen known out lo hi =
      elim (Bool-cases (leb_ℤ boss.hp (pos 0))) [
        | inl dead ↦ rw dead (record {
          risen = omega (arith, (boss_died_level boss time out).3, risen);
          known = (boss_died_level boss time out).1;
          single = omega (arith, alive-set es j e at);
          quiet = λ q. omega (arith, alive-set es j e at);
          healthy = λ h. cc ((boss_died_level boss time out).0);
          low = rw ((boss_died_level boss time out).2) lo;
          high = rw ((boss_died_level boss time out).2) hi;
        })
        | inr hurt ↦ rw hurt (record {
          risen = risen;
          known = known;
          single = one;
          quiet = λ q. cc;
          healthy = λ h. ground arith;
          low = lo;
          high = hi;
        })
      ]

strike_boss-BossInvariant :
    {l : ℕ} (g : Game) (j : ℕ) (p e : Entity) (c : Clash)
    → get_elem? c.entities j ≡ some e
    → weight e ≡ 1
    → 0 < alive c.entities
    → BossInvariant l c.entities c.boss
    → let c' = strike_boss g j p e c in BossInvariant l c'.entities c'.boss
strike_boss-BossInvariant {l} g j p e c at w some_boss v =
    let out : fighting c.boss ≡ true = elim (Bool-cases (fighting c.boss)) [
      | inl yes_out ↦ yes_out
      | inr no_boss_out ↦ absurd (omega (arith, v.quiet no_boss_out))
    ] in
    let bounds = damaged_bounds c.boss p (v.healthy out) v.high in
    unfold strike_boss in
    struck-BossInvariant l j e c.entities g.game_time (damaged c.boss p) at w v.single
      (omega (arith, bounds, v.risen)) (omega (arith, bounds, v.known))
      (fighting-damaged c.boss p ∙ out) bounds.1 bounds.2

weight_le-alive :
    (es : List Entity) (i : ℕ) (e : Entity) → get_elem? es i ≡ some e → weight e ≤ alive es
weight_le-alive es i e h = omega (arith, alive-set es i e h)

-- A projectile and a target are different entities.
projectile_ne_target :
    (es : List Entity) (i j : ℕ) (p e : Entity)
    → get_elem? es i ≡ some p
    → get_elem? es j ≡ some e
    → is_projectile p ≡ true
    → is_target e ≡ true
    → i ≢ j
unfolding is_projectile is_target
projectile_ne_target es i j p e hp he shot target same =
    let both : some p ≡ some e = cc in ground arith

weight-projectile : (p : Entity) → is_projectile p ≡ true → weight p ≡ 0
unfolding is_projectile
weight-projectile p shot = ground arith

spent-BossInvariant :
    {l : ℕ} (es : List Entity) (i : ℕ) (p : Entity) (b : BossState)
    → get_elem? es i ≡ some p
    → is_projectile p ≡ true
    → BossInvariant l es b
    → BossInvariant l (set es i (collided p)) b
spent-BossInvariant es i p b hp shot v =
    BossInvariant-le (set es i (collided p)) (omega (arith, alive-set es i p hp)) v

pub meet-BossInvariant :
    {l : ℕ} (m : Machine) (g : Game) (i j : ℕ) (p e : Entity) (c : Clash)
    → get_elem? c.entities i ≡ some p
    → get_elem? c.entities j ≡ some e
    → is_projectile p ≡ true
    → BossInvariant l c.entities c.boss
    → let c' = meet m g i j p e c in BossInvariant l c'.entities c'.boss
meet-BossInvariant {l} m g i j p e c hp he shot v =
    meet_cases m g i j p e c (λ d. BossInvariant l d.entities d.boss) v
      (λ target fresh boss.
        strike_boss-BossInvariant g j p e spent (at target) (ground arith)
          (omega (
            arith,
            weight_le-alive spent.entities j e (at target),
            let w : weight e ≡ 1 = ground arith in w,
          ))
          kept)
      (λ target.
        BossInvariant-le (set spent.entities j (collided e))
          (omega (arith, alive-set spent.entities j e (at target))) kept)
  where
    spent : Clash
    spent = record c { entities = set c.entities i (collided p) }

    kept : BossInvariant l spent.entities spent.boss
    kept = spent-BossInvariant c.entities i p c.boss hp shot v

    at : is_target e ≡ true → get_elem? spent.entities j ≡ some e
    at target =
        get_elem?-set_ne c.entities (collided p)
          (projectile_ne_target c.entities i j p e hp he shot target)
        ∙ he

-- The whole pass.
pub handle_collision-BossInvariant :
    {l : ℕ} (m : Machine) (g : Game)
    → BossInvariant l g.entities g.boss
    → let g' = (handle_collision m g).0 in BossInvariant l g'.entities g'.boss
unfolding handle_collision
handle_collision-BossInvariant {l} m g v =
    let count = length g.entities in
    let start : Clash = record { entities = g.entities; boss = g.boss; sent = [] } in
    let shot = projectile_loop m g count count 0 start in
    let after =
      projectile_loop_keeps m g (λ d. BossInvariant l d.entities d.boss) (meet-BossInvariant m g)
        count count 0 start v in
    BossInvariant-le _ (omega (arith, alive-player_loop m g.players shot.entities)) after
