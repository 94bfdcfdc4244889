-- ===== src/Game/Ranges/Bosses.antt =====
-- The ranges of the bosses of Src/Server/Game.cpp and their shots.
use rtype_ci_cd.Common.{
  ℕ, suc, ◌+◌, ◌≤◌, ◌<◌, ◌≡◌, some, inl, inr, ◌&&◌, ◌||◌, List, [], ◌∷◌, length, ◌==◌,
  if◌then◌else◌, u32, Bool-cases, Option-cases, arith,
}
use rtype_ci_cd.Common.Int.{ℤ, pos}
use rtype_ci_cd.Common.Machine.{Machine, Float}
use rtype_ci_cd.Common.Floats
use rtype_ci_cd.Protocol.Udp.Messages.{UdpMessage}
use rtype_ci_cd.Protocol.Udp.Roundtrip.{Fits}
use rtype_ci_cd.Protocol.Udp.Integers.{IsInt32}
use rtype_ci_cd.Game.Types.{Player, Entity, Game}
use rtype_ci_cd.Game.Shots.{spawn}
use rtype_ci_cd.Game.Boss.{
  both_to_all, find_boss, offsets, spawn_boss, raise_boss, volley, boss_fire, boss_shoot,
}
use rtype_ci_cd.Game.Ranges.{
  IsMachine32, EntityInRange, EntitiesInRange, AllInRange, AllInRange-append,
}
use rtype_ci_cd.Game.Ranges.Spawns.{HasRoom, HasRoom-le, Grown, Grown-still, spawn-Grown}

AllInRange-both_to_all :
    (ps : List Player) (x y : UdpMessage) → Fits x → Fits y → AllInRange (both_to_all ps x y)
unfolding both_to_all
AllInRange-both_to_all [] x y h k = tt
AllInRange-both_to_all (p ∷ ps) x y h k = elim (Bool-cases p.addr_set) [
  | inl known ↦ rw (known, both_to_all) (h, (k, AllInRange-both_to_all ps x y h k))
  | inr unknown ↦ rw (unknown, both_to_all) (AllInRange-both_to_all ps x y h k)
]

find_boss-InRange :
    (es : List Entity) (e : Entity) → EntitiesInRange es → find_boss es ≡ some e → EntityInRange e
unfolding find_boss
find_boss-InRange [] e h found = cc
find_boss-InRange (x ∷ es) e h found = elim (Bool-cases (x.type == 10)) [
  | inl boss ↦ ground (arith, found, boss, h.0)
  | inr other ↦ find_boss-InRange es e h.1 (ground (arith, found, other))
]

abbrev AllBelow : List Float → Type 0
AllBelow [] = Unit
AllBelow (v ∷ vs) = (v < u32) × AllBelow vs

module _ (m : Machine) (laws : IsMachine32 m) where
  spawn_boss-Grown :
      (b : ℕ) (g : Game) (level : ℕ) (hp : ℤ)
      → HasRoom b g
      → b + 1 < u32
      → IsInt32 hp
      → Grown (b + 1) (spawn_boss m g level hp)
  unfolding spawn_boss spawn
  spawn_boss-Grown b g level hp r small int =
      let raised : Game = record g { boss = record (g.boss) { level = level; hp = hp } } in
      let grown =
        spawn-Grown m laws b raised 10 Floats.sixteen_hundred Floats.four_hundred Floats.minus_two
          Floats.zero_f (pos 296) (pos 88)
          (record {
            players = r.players;
            entities = r.entities;
            times = r.times;
            count = r.count;
            bounded = r.bounded;
          })
          small (omega arith) (omega arith) (omega arith) (omega arith) (omega arith) in
      record {
        room = grown.room;
        messages =
            AllInRange-both_to_all g.players _ _
              (
                omega (arith, r.bounded, small),
                omega arith,
                laws.indeterminate_lt,
                omega arith,
                omega arith,
              )
              (int, int);
      }

  pub raise_boss-Grown :
      (b : ℕ) (g : Game) → HasRoom b g → b + 1 < u32 → Grown (b + 1) (raise_boss m g)
  unfolding raise_boss
  raise_boss-Grown b g r small =
      elim (Bool-cases (g.boss.level == 0 && m.lt Floats.ten g.game_time)) [
        | inl first ↦ rw first (spawn_boss-Grown b g 1 (pos 1000) r small (omega arith))
        | inr later ↦
            rw later
              (elim (Bool-cases
                (g.boss.level == 2 && m.lt (m.add g.boss.death_time Floats.zero_f) g.game_time)) [
                  | inl second ↦ rw second (spawn_boss-Grown b g 3 (pos 2000) r small (omega arith))
                  | inr wait ↦ rw wait (Grown-still b (b + 1) g (omega arith) r)
                ])
      ]

  volley-Grown :
      (b : ℕ) (vys : List Float) (x y : Float) (g : Game)
      → HasRoom b g
      → b + length vys < u32
      → x < u32
      → AllBelow vys
      → Grown (b + length vys) (volley m vys x y g)
  unfolding volley
  volley-Grown b [] x y g r small xs vs = Grown-still b (b + 0) g (omega arith) r
  volley-Grown b (vy ∷ vys) x y g r small xs vs =
      let fewer : b + 1 < u32 = omega (arith, small) in
      let others : b + 1 + length vys < u32 = omega (arith, small) in
      let same : b + 1 + length vys ≤ b + suc (length vys) = omega arith in
      let first =
        spawn m g 11 x (m.add y Floats.eighty) Floats.minus_fifteen vy (pos 30) (pos 30) in
      let one =
        spawn-Grown m laws b g 11 x _ _ vy (pos 30) (pos 30) r fewer (omega arith) xs
          (laws.add_lt y Floats.eighty) (omega arith) vs.0 in
      let rest = volley-Grown (b + 1) vys x y first.0 one.room others xs vs.1 in
      record {
        room = HasRoom-le (b + 1 + length vys) (b + suc (length vys)) _ same rest.room;
        messages =
            AllInRange-append first.1 (volley m vys x y first.0).1 one.messages rest.messages;
      }

  offsets-AllBelow : (level : ℕ) → AllBelow (offsets level)
  unfolding offsets
  offsets-AllBelow level = ground arith

  length-offsets : (level : ℕ) → length (offsets level) ≤ 3
  unfolding offsets
  length-offsets level = ground arith

  boss_fire-Grown :
      (b : ℕ) (g : Game) (e : Entity)
      → HasRoom b g
      → b + 3 < u32
      → e.x < u32
      → Grown (b + 3) (boss_fire m g e)
  unfolding boss_fire
  boss_fire-Grown b g e r small xs =
      elim (Bool-cases (
        m.lt (if g.boss.level == 3 then Floats.one else Floats.one_and_half)
          (m.sub g.game_time g.boss.last_shoot_time))) [
            | inl due ↦
                let timed : Game = record g {
                  boss = record (g.boss) { last_shoot_time = g.game_time };
                } in
                let level = length-offsets g.boss.level in
                let shots =
                  volley-Grown b (offsets g.boss.level) e.x e.y timed
                    (record {
                      players = r.players;
                      entities = r.entities;
                      times = (r.times.0, r.times.0, r.times.2);
                      count = r.count;
                      bounded = r.bounded;
                    })
                    (omega (arith, small, level)) xs (offsets-AllBelow g.boss.level) in
                rw due (record {
                  room =
                      HasRoom-le (b + length (offsets g.boss.level)) (b + 3) _
                        (omega (arith, level)) shots.room;
                  messages = shots.messages;
                })
            | inr early ↦ rw early (Grown-still b (b + 3) g (omega arith) r)
          ]

  pub boss_shoot-Grown :
      (b : ℕ) (g : Game) → HasRoom b g → b + 3 < u32 → Grown (b + 3) (boss_shoot m g)
  unfolding boss_shoot
  boss_shoot-Grown b g r small = elim (Bool-cases (g.boss.level == 1 || g.boss.level == 3)) [
    | inr calm ↦ rw calm (Grown-still b (b + 3) g (omega arith) r)
    | inl out ↦ rw out (elim (Option-cases (find_boss g.entities)) [
      | inl gone ↦ rw gone (Grown-still b (b + 3) g (omega arith) r)
      | inr (e, here) ↦
          rw here (boss_fire-Grown b g e r small (find_boss-InRange g.entities e r.entities here).2)
    ])
  ]
