-- ===== src/Game/Collision/Loops.antt =====
-- The loops of `Game::handleCollision`, Src/Server/Game.cpp: what every meeting of a projectile and an
-- entity keeps, the loops keep.
use rtype_ci_cd.Common.{
  ℕ, zero, suc, ◌+◌, ◌≡◌, refl, inl, inr, true, false, some, [], length, get_elem?, set, ◌==◌, ◌||◌,
  Option-cases, Bool-cases, arith,
}
use rtype_ci_cd.Common.Machine.{Machine}
use rtype_ci_cd.Game.Types.{Entity, Game}
use rtype_ci_cd.Game.Collision.{
  Clash, is_projectile, is_target, collided, strike_boss, overlap, meet, meet_at, enemy_loop,
  shoot_at, projectile_loop, handle_collision,
}
use rtype_ci_cd.Game.Collision.Marks.{
  Marks, Marks-refl, Marks-trans, ProjectileAt, ProjectileAt-Marks, meet-Marks, player_loop-Marks,
}

module _ (m : Machine) (g : Game) where
  meet_at-Marks :
      (i j : ℕ) (c : Clash)
      → ProjectileAt i c.entities
      → Marks c.entities (meet_at m g i j c).entities
  unfolding meet_at
  meet_at-Marks i j c shot = elim (Option-cases (get_elem? c.entities i)) [
    | inl e ↦ rw (e, meet_at) (Marks-refl c.entities)
    | inr (p, hp) ↦ elim (Option-cases (get_elem? c.entities j)) [
      | inl e ↦ rw (hp, e, meet_at) (Marks-refl c.entities)
      | inr (e, he) ↦ rw (hp, he, meet_at) (meet-Marks m g i j p e c hp he (shot p hp))
    ]
  ]

  module _ (P : Clash → Type 0)
      (keep : (i j : ℕ) (p e : Entity) (c : Clash)
        → get_elem? c.entities i ≡ some p
        → get_elem? c.entities j ≡ some e
        → is_projectile p ≡ true
        → P c
        → P (meet m g i j p e c)) where
    meet_at_keeps : (i j : ℕ) (c : Clash) → ProjectileAt i c.entities → P c → P (meet_at m g i j c)
    unfolding meet_at
    meet_at_keeps i j c shot h = elim (Option-cases (get_elem? c.entities i)) [
      | inl e ↦ rw (e, meet_at) h
      | inr (p, hp) ↦ elim (Option-cases (get_elem? c.entities j)) [
        | inl e ↦ rw (hp, e, meet_at) h
        | inr (e, he) ↦ rw (hp, he, meet_at) (keep i j p e c hp he (shot p hp) h)
      ]
    ]

    enemy_loop_keeps :
        (i n j : ℕ) (c : Clash) → ProjectileAt i c.entities → P c → P (enemy_loop m g i n j c)
    unfolding enemy_loop
    enemy_loop_keeps i zero j c shot h = h
    enemy_loop_keeps i (suc n) j c shot h =
        enemy_loop_keeps i n (j + 1) (meet_at m g i j c)
          (ProjectileAt-Marks i c.entities (meet_at m g i j c).entities (meet_at-Marks i j c shot)
            shot)
          (meet_at_keeps i j c shot h)

    shoot_at_keeps : (count i : ℕ) (c : Clash) → P c → P (shoot_at m g count i c)
    unfolding shoot_at
    shoot_at_keeps count i c h = elim (Option-cases (get_elem? c.entities i)) [
      | inl e ↦ rw (e, shoot_at) h
      | inr (p, hp) ↦ elim (Bool-cases (is_projectile p)) [
        | inl yes_shot ↦
            rw (hp, shoot_at, yes_shot) (enemy_loop_keeps i count 0 c (λ q hq. ground arith) h)
        | inr no_shot ↦ rw (hp, shoot_at, no_shot) h
      ]
    ]

    pub projectile_loop_keeps :
        (count n i : ℕ) (c : Clash) → P c → P (projectile_loop m g count n i c)
    unfolding projectile_loop
    projectile_loop_keeps count zero i c h = h
    projectile_loop_keeps count (suc n) i c h =
        projectile_loop_keeps count n (i + 1) (shoot_at m g count i c) (shoot_at_keeps count i c h)

  projectile_loop-Marks :
      (count n i : ℕ) (c : Clash) → Marks c.entities (projectile_loop m g count n i c).entities
  projectile_loop-Marks count n i c =
      projectile_loop_keeps (λ d. Marks c.entities d.entities)
        (λ i j p e d hp he shot h.
          Marks-trans c.entities d.entities (meet m g i j p e d).entities h
            (meet-Marks m g i j p e d hp he shot))
        count n i c (Marks-refl c.entities)

-- A collision pass keeps the entities, their order and all they hold but for `is_collide`, which it
-- sets on some projectiles, targets and hazards and clears on none; of the match it changes besides
-- only the boss state.
pub handle_collision-Marks :
    (m : Machine) (g : Game)
    → let g' = (handle_collision m g).0 in
      Marks g.entities g'.entities × (g' ≡ record g { entities = g'.entities; boss = g'.boss })
unfolding handle_collision
handle_collision-Marks m g =
    let count = length g.entities in
    let c : Clash = record { entities = g.entities; boss = g.boss; sent = [] } in
    let shot = (projectile_loop m g count count 0 c).entities in
    (
      Marks-trans g.entities shot _ (projectile_loop-Marks m g count count 0 c)
          (player_loop-Marks m g.players shot),
      refl,
    )

-- The branches of a meeting: nothing happens, the boss is struck, or an enemy is.
pub meet_cases :
    (m : Machine) (g : Game) (i j : ℕ) (p e : Entity) (c : Clash) (P : Clash → Type 0)
    → P c
    → (is_target e ≡ true
        → e.is_collide ≡ false
        → (e.type == 10) ≡ true
        → P (strike_boss g j p e (record c { entities = set c.entities i (collided p) })))
    → (is_target e ≡ true
        → P (record c { entities = set (set c.entities i (collided p)) j (collided e) }))
    → P (meet m g i j p e c)
unfolding meet
meet_cases m g i j p e c P idle boss enemy = elim (Bool-cases (is_target e)) [
  | inr miss ↦ rw miss idle
  | inl target ↦ rw target (elim (Bool-cases (p.is_collide || e.is_collide)) [
    | inl spent ↦ rw spent idle
    | inr fresh ↦ rw fresh (elim (Bool-cases (overlap m p e)) [
      | inr apart ↦ rw apart idle
      | inl hit ↦ rw hit (elim (Bool-cases (e.type == 10)) [
        | inl big ↦ rw big (boss target (ground arith) big)
        | inr small ↦ rw small (enemy target)
      ])
    ])
  ])
]
