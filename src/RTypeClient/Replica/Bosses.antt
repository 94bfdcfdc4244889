-- ===== src/RTypeClient/Replica/Bosses.antt =====
-- The bosses of Src/Server/Game.cpp and their shots, on the client.
use rtype_ci_cd.Common.{
  ℕ, zero, suc, ◌+◌, ◌≤◌, ◌<◌, ◌≡◌, refl, sym, subst, ap, ◌∙◌, ◌&&◌, ◌||◌, inl, inr, List, [], ◌∷◌,
  ◌++◌, length, ◌==◌, if◌then◌else◌, u32, Bool-cases, Option-cases, arith,
}
use rtype_ci_cd.Common.Int.{ℤ, pos}
use rtype_ci_cd.Common.Machine.{Machine, Float}
use rtype_ci_cd.Common.Floats
use rtype_ci_cd.Network.{SockAddr}
use rtype_ci_cd.Protocol.Udp.Messages.{UdpMessage, entity_spawn, boss_state}
use rtype_ci_cd.Game.Types.{Player, Entity, new_entity, Game}
use rtype_ci_cd.Game.Boss.{
  both_to_all, find_boss, offsets, spawn_boss, raise_boss, volley, boss_fire, boss_shoot,
}
use rtype_ci_cd.Game.Shots.{spawn}
use rtype_ci_cd.RTypeClient.Packets.{on_entity_spawn, on_boss_state}
use rtype_ci_cd.RTypeClient.Wire.{on_messages}
use rtype_ci_cd.RTypeClient.Mirror.{Mirrors, received_by, count_at}
use rtype_ci_cd.RTypeClient.Replica.{
  Below-seen, Sound, Sound-le, Follows, Follows-le, Follows-and_then,
}
use rtype_ci_cd.RTypeClient.Replica.Spawns.{
  Follows-still, with_entity-Sound, on_entity_spawn-Mirrors, spawn-Follows,
}

-- Two messages, as often as there are players.
abbrev pairs : ℕ → UdpMessage → UdpMessage → List UdpMessage
pairs zero x y = []
pairs (suc n) x y = x ∷ y ∷ pairs n x y

received_by-both_to_all :
    (a : SockAddr) (ps : List Player) (x y : UdpMessage)
    → received_by a (both_to_all ps x y) ≡ pairs (count_at a ps) x y
unfolding both_to_all
received_by-both_to_all a [] x y = refl
received_by-both_to_all a (p ∷ ps) x y = ground (arith, received_by-both_to_all a ps x y)

module _ (m : Machine) where
  volley-Follows :
      (a : SockAddr) (b : ℕ) (vys : List Float) (x y : Float) (g : Game)
      → Sound a b g
      → b + length vys < u32
      → Follows m a (b + length vys) g (volley m vys x y g)
  unfolding volley
  volley-Follows a b [] x y g s small = Follows-still m a b (b + 0) g s (omega arith)
  volley-Follows a b (vy ∷ vys) x y g s small =
      let first =
        spawn m g 11 x (m.add y Floats.eighty) Floats.minus_fifteen vy (pos 30) (pos 30) in
      let one = spawn-Follows m a b g 11 _ _ _ _ _ _ s (omega (arith, small)) in
      Follows-le m a (b + 1 + length vys) (b + suc (length vys)) g _ (omega arith) (
        Follows-and_then m a (b + 1) (b + 1 + length vys) g first (volley m vys x y) one
          (volley-Follows a (b + 1) vys x y first.0 one.sound (omega (arith, small))))

  spawn_boss-Follows :
      (a : SockAddr) (b : ℕ) (g : Game) (level : ℕ) (hp : ℤ)
      → Sound a b g
      → b + 1 < u32
      → Follows m a (b + 1) g (spawn_boss m g level hp)
  unfolding spawn_boss spawn on_boss_state on_entity_spawn
  spawn_boss-Follows a b g level hp s small =
      let e =
        new_entity g.next_entity_id 10 Floats.sixteen_hundred Floats.four_hundred Floats.minus_two
          Floats.zero_f (pos 296) (pos 88) in
      let news = entity_spawn (record {
        entity_id = e.id;
        entity_type = 10;
        timestamp = m.indeterminate;
        x = e.x;
        y = e.y;
      }) in
      let bar = boss_state (record { hp = hp; max_hp = hp }) in
      let sound = with_entity-Sound a b g e s small refl in
      record {
        sound = record {
          once = sound.once;
          distinct = sound.distinct;
          below = sound.below;
          bounded = sound.bounded;
        };
        mirrors = λ now c shown.
            subst
              (λ (l : List UdpMessage).
                Mirrors (g.entities ++ e ∷ []) (on_messages m now l c).entities)
              (sym (
                received_by-both_to_all a g.players news bar
                ∙ ap (λ (n : ℕ). pairs n news bar) s.once))
              (on_entity_spawn-Mirrors m now e g.entities c m.indeterminate
                (Below-seen g.next_entity_id g.entities s.below) shown);
      }

  pub raise_boss-Follows :
      (a : SockAddr) (b : ℕ) (g : Game)
      → Sound a b g
      → b + 1 < u32
      → Follows m a (b + 1) g (raise_boss m g)
  unfolding raise_boss
  raise_boss-Follows a b g s small =
      elim (Bool-cases (g.boss.level == 0 && m.lt Floats.ten g.game_time)) [
        | inl first ↦ rw first (spawn_boss-Follows a b g 1 (pos 1000) s small)
        | inr later ↦
            rw later
              (elim (Bool-cases
                (g.boss.level == 2 && m.lt (m.add g.boss.death_time Floats.zero_f) g.game_time)) [
                  | inl second ↦ rw second (spawn_boss-Follows a b g 3 (pos 2000) s small)
                  | inr wait ↦ rw wait (Follows-still m a b (b + 1) g s (omega arith))
                ])
      ]

  length-offsets : (level : ℕ) → length (offsets level) ≤ 3
  unfolding offsets
  length-offsets level = ground arith

  boss_fire-Follows :
      (a : SockAddr) (b : ℕ) (g : Game) (e : Entity)
      → Sound a b g
      → b + 3 < u32
      → Follows m a (b + 3) g (boss_fire m g e)
  unfolding boss_fire
  boss_fire-Follows a b g e s small =
      elim (Bool-cases (
        m.lt (if g.boss.level == 3 then Floats.one else Floats.one_and_half)
          (m.sub g.game_time g.boss.last_shoot_time))) [
            | inl due ↦
                let timed : Game = record g {
                  boss = record (g.boss) { last_shoot_time = g.game_time };
                } in
                let level = length-offsets g.boss.level in
                let shots =
                  volley-Follows a b (offsets g.boss.level) e.x e.y timed
                    (record {
                      once = s.once;
                      distinct = s.distinct;
                      below = s.below;
                      bounded = s.bounded;
                    })
                    (omega (arith, small, level)) in
                rw due (record {
                  sound =
                      Sound-le a (b + length (offsets g.boss.level)) (b + 3) _
                        (omega (arith, level)) shots.sound;
                  mirrors = shots.mirrors;
                })
            | inr early ↦ rw early (Follows-still m a b (b + 3) g s (omega arith))
          ]

  pub boss_shoot-Follows :
      (a : SockAddr) (b : ℕ) (g : Game)
      → Sound a b g
      → b + 3 < u32
      → Follows m a (b + 3) g (boss_shoot m g)
  unfolding boss_shoot
  boss_shoot-Follows a b g s small = elim (Bool-cases (g.boss.level == 1 || g.boss.level == 3)) [
    | inr calm ↦ rw calm (Follows-still m a b (b + 3) g s (omega arith))
    | inl out ↦ rw out (elim (Option-cases (find_boss g.entities)) [
      | inl gone ↦ rw gone (Follows-still m a b (b + 3) g s (omega arith))
      | inr (e, here) ↦ rw here (boss_fire-Follows a b g e s small)
    ])
  ]
