-- ===== src/Game/Update/Boss.antt =====
-- The boss through `Game::update` of Src/Server/Game.cpp.
use rtype_ci_cd.Common.{
  ℕ, ◌+◌, ◌≤◌, ◌≡◌, refl, ◌⊎◌, inl, inr, false, ◌&&◌, List, [], ◌∷◌, ◌++◌, Bool-cases, leb,
  Option-cases, if◌then◌else◌, ◌==◌, arith,
}
use rtype_ci_cd.Common.Int.{ℤ, pos, ◌≤ℤ◌}
use rtype_ci_cd.Common.Machine.{Machine, Float}
use rtype_ci_cd.Common.Floats
use rtype_ci_cd.Game.Types.{Entity, new_entity, Game}
use rtype_ci_cd.Game.Players.{broadcast_game_state}
use rtype_ci_cd.Game.Shots.{spawn, create_enemy}
use rtype_ci_cd.Game.Entities.{update_entities, update_game_level}
use rtype_ci_cd.Game.Boss.{
  spawn_boss, raise_boss, volley, offsets, boss_fire, find_boss, boss_shoot,
}
use rtype_ci_cd.Game.Boss.Alive.{weight, alive-append, alive-update_entities_le, alive-steer}
use rtype_ci_cd.Game.Boss.Health.{
  fighting, BossInvariant, BossInvariant-le, handle_collision-BossInvariant,
}
use rtype_ci_cd.Game.Update.{Frame, global_sync_interval, spawn_enemy, sync_if_due, update}
use rtype_ci_cd.Game.Update.Stages.{Kept, update_keeps}

-- The match's boss state fits its entities, and its level is at least `l`.
abbrev pub HasBoss : ℕ → Game → Type 0
HasBoss l g = BossInvariant l g.entities g.boss

module _ (m : Machine) {l : ℕ} where
  -- A new entity that is no boss.
  pub spawn-HasBoss :
      (g : Game) (type : ℕ) (x y vx vy : Float) (h w : ℤ)
      → (type == 10) ≡ false
      → HasBoss l g
      → HasBoss l (spawn m g type x y vx vy h w).0
  unfolding spawn
  spawn-HasBoss g type x y vx vy h w other v =
      BossInvariant-le (g.entities ++ e ∷ [])
        (let none_more : weight e ≡ 0 = ground arith in omega (arith, alive-append g.entities e)) v
    where
      e : Entity
      e = new_entity g.next_entity_id type x y vx vy h w

  create_enemy-HasBoss : (g : Game) (r : ℕ) → HasBoss l g → HasBoss l (create_enemy m g r).0
  unfolding create_enemy
  create_enemy-HasBoss g r v = elim (Bool-cases (m.lt Floats.thirty g.game_time)) [
    | inl late ↦ rw late (spawn-HasBoss g 3 _ _ _ _ _ _ refl v)
    | inr early ↦ rw early (spawn-HasBoss g 2 _ _ _ _ _ _ refl v)
  ]

  spawn_enemy-HasBoss : (fr : Frame) (g : Game) → HasBoss l g → HasBoss l (spawn_enemy m fr g).0
  unfolding spawn_enemy
  spawn_enemy-HasBoss fr g v = ground (arith, create_enemy-HasBoss g fr.random v)

  volley-HasBoss :
      (vys : List Float) (x y : Float) (g : Game) → HasBoss l g → HasBoss l (volley m vys x y g).0
  unfolding volley
  volley-HasBoss [] x y g v = v
  volley-HasBoss (vy ∷ vys) x y g v =
      volley-HasBoss vys x y _ (spawn-HasBoss g 11 _ _ _ _ _ _ refl v)

  shoot_time-HasBoss :
      (g : Game) (t : Float)
      → HasBoss l g
      → HasBoss l (record g { boss = record (g.boss) { last_shoot_time = t } })
  shoot_time-HasBoss g t v = record {
    risen = v.risen;
    known = v.known;
    single = v.single;
    quiet = v.quiet;
    healthy = v.healthy;
    low = v.low;
    high = v.high;
  }

  boss_fire-HasBoss : (g : Game) (e : Entity) → HasBoss l g → HasBoss l (boss_fire m g e).0
  unfolding boss_fire
  boss_fire-HasBoss g e v =
      elim (Bool-cases (
        m.lt (if g.boss.level == 3 then Floats.one else Floats.one_and_half)
          (m.sub g.game_time g.boss.last_shoot_time))) [
            | inl due ↦ rw due (
                volley-HasBoss (offsets g.boss.level) e.x e.y
                  (record g { boss = record (g.boss) { last_shoot_time = g.game_time } })
                  (shoot_time-HasBoss g g.game_time v))
            | inr early ↦ rw early v
          ]

  boss_shoot-HasBoss : (g : Game) → HasBoss l g → HasBoss l (boss_shoot m g).0
  unfolding boss_shoot
  boss_shoot-HasBoss g v = elim (Bool-cases (fighting g.boss)) [
    | inr calm ↦ rw calm v
    | inl out ↦ rw out (elim (Option-cases (find_boss g.entities)) [
      | inl gone ↦ rw (gone) v
      | inr (e, here) ↦ rw (here) (boss_fire-HasBoss g e v)
    ])
  ]

  spawn_boss-HasBoss :
      (g : Game) (level : ℕ) (hp : ℤ)
      → fighting g.boss ≡ false
      → (level ≡ 1) ⊎ (level ≡ 3)
      → g.boss.level ≤ level
      → pos 1 ≤ℤ hp
      → hp ≤ℤ pos 2000
      → HasBoss l g
      → HasBoss l (spawn_boss m g level hp).0
  unfolding spawn_boss spawn
  spawn_boss-HasBoss g level hp calm fights up lo hi v = record {
    risen = omega (arith, v.risen);
    known = omega arith;
    single = omega (arith, v.quiet calm, alive-append g.entities e);
    quiet = λ q. absurd (ground arith);
    healthy = λ _. lo;
    low = omega arith;
    high = hi;
  }
    where
      e : Entity
      e =
          new_entity g.next_entity_id 10 Floats.sixteen_hundred Floats.four_hundred Floats.minus_two
            Floats.zero_f (pos 296) (pos 88)

  raise_boss-HasBoss : (g : Game) → HasBoss l g → HasBoss l (raise_boss m g).0
  unfolding raise_boss
  raise_boss-HasBoss g v = elim (Bool-cases (g.boss.level == 0 && m.lt Floats.ten g.game_time)) [
    | inl first ↦ rw first (
        spawn_boss-HasBoss g 1 (pos 1000) (ground arith) (inl refl) (ground arith) (omega arith)
          (omega arith) v)
    | inr later ↦
        rw later
          (elim (Bool-cases
            (g.boss.level == 2 && m.lt (m.add g.boss.death_time Floats.zero_f) g.game_time)) [
              | inl second ↦ rw second (
                  spawn_boss-HasBoss g 3 (pos 2000) (ground arith) (inr refl) (ground arith)
                    (omega arith) (omega arith) v)
              | inr wait ↦ rw wait v
            ])
  ]

le_of_eq : {a b : ℕ} → a ≡ b → a ≤ b
le_of_eq e = omega arith

sync_if_due-HasBoss : {l : ℕ} (fr : Frame) (g : Game) → HasBoss l g → HasBoss l (sync_if_due fr g).0
unfolding sync_if_due
sync_if_due-HasBoss fr g v =
    elim (Bool-cases (leb (g.last_global_sync_time + global_sync_interval) fr.sync_test)) [
      | inl due ↦ rw due v
      | inr early ↦ rw early v
    ]

pub HasBoss-Kept : (m : Machine) (fr : Frame) (l : ℕ) → Kept m fr (HasBoss l)
unfolding update_entities update_game_level broadcast_game_state sync_if_due
HasBoss-Kept m fr l = record {
  moved = λ g v. BossInvariant-le _ (alive-update_entities_le m g.players g.entities) v;
  hit = λ g v. handle_collision-BossInvariant m g v;
  told = λ g v. v;
  aged = λ g v.
      BossInvariant-le _
        (le_of_eq (alive-steer m (m.add g.game_time Floats.frame_time) g.boss.level g.entities)) v;
  raised = raise_boss-HasBoss m;
  shot = boss_shoot-HasBoss m;
  spawned = spawn_enemy-HasBoss m fr;
  synced = λ g v. sync_if_due-HasBoss fr g v;
}

-- An update keeps the boss and its level in step, and the level never falls: if at most one boss is not
-- marked, none while no boss is out (levels 0, 2 and 4), and a boss that is out has between 1 and 2000
-- hit points, then so it is afterwards, at the same or a higher level of 0 to 4; hit points never lie
-- below -49, so that their subtraction cannot overflow.
pub update-BossInvariant :
    (m : Machine) (fr : Frame) (g : Game) (l : ℕ) → HasBoss l g → HasBoss l (update m fr g).0
update-BossInvariant m fr g l v = update_keeps m fr (HasBoss l) g (HasBoss-Kept m fr l) v
