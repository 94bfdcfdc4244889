-- ===== src/RTypeClient/Replica/Spawns.antt =====
-- New entities of Src/Server/Game.cpp on the client: the shots, the enemies and the bosses.
use rtype_ci_cd.Common.{
  ℕ, ◌+◌, ◌%◌, ◌≤◌, ◌<◌, ◌≡◌, refl, sym, subst, ap, ◌∙◌, inl, inr, none, some, List, [], ◌∷◌, ◌++◌,
  replicate, ◌==◌, if◌then◌else◌, ltb, u32, Bool-cases, arith,
}
use rtype_ci_cd.Common.Int.{ℤ}
use rtype_ci_cd.Common.Machine.{Machine, Float}
use rtype_ci_cd.Common.Floats
use rtype_ci_cd.Common.Maps.{find-insert}
use rtype_ci_cd.Network.{SockAddr, Datagram}
use rtype_ci_cd.Protocol.Udp.Messages.{UdpMessage, entity_spawn}
use rtype_ci_cd.Game.Types.{Player, Entity, new_entity, Game, to_all}
use rtype_ci_cd.Game.Shots.{spawn, create_enemy}
use rtype_ci_cd.Game.Update.{Frame, enemy_interval, spawn_enemy}
use rtype_ci_cd.RTypeClient.Types.{RTypeClient}
use rtype_ci_cd.RTypeClient.Packets.{on_entity_spawn}
use rtype_ci_cd.RTypeClient.Wire.{on_message, on_messages}
use rtype_ci_cd.RTypeClient.Mirror.{
  view, seen, Mirrors, Distinct, received_by, count_at, received_by-to_all,
}
use rtype_ci_cd.RTypeClient.Replica.{Below, Below-le, Below-seen, Sound, Sound-le, Follows}

-- An entity behind the others, with an id that none of them has.
seen-append :
    (es : List Entity) (e : Entity) (i : ℕ)
    → seen e.id es ≡ none
    → seen i (es ++ e ∷ []) ≡ (if e.id == i then some (view e) else seen i es)
seen-append [] e i h = refl
seen-append (x ∷ es) e i h = ground (arith, h, seen-append es e i (ground (arith, h)))

Below-append :
    (n : ℕ) (es : List Entity) (e : Entity) → Below n es → e.id < n → Below n (es ++ e ∷ [])
Below-append n [] e b h = (h, tt)
Below-append n (x ∷ es) e b h = (b.0, Below-append n es e b.1 h)

Distinct-append :
    (es : List Entity) (e : Entity) → Distinct es → seen e.id es ≡ none → Distinct (es ++ e ∷ [])
Distinct-append [] e d h = (refl, tt)
Distinct-append (x ∷ es) e d h = (
  seen-append es e x.id (ground (arith, h)) ∙ ground (arith, h, d.0),
  Distinct-append es e d.1 (ground (arith, h)),
)

-- The match with one entity more, and its next id.
abbrev pub with_entity : Game → Entity → Game
with_entity g e = record g {
  next_entity_id = (g.next_entity_id + 1) % u32;
  entities = g.entities ++ e ∷ [];
}

pub with_entity-Sound :
    (a : SockAddr) (b : ℕ) (g : Game) (e : Entity)
    → Sound a b g
    → b + 1 < u32
    → e.id ≡ g.next_entity_id
    → Sound a (b + 1) (with_entity g e)
with_entity-Sound a b g e s small h =
    let next : (g.next_entity_id + 1) % u32 ≡ g.next_entity_id + 1 = omega (arith, s.bounded) in
    let fresh : seen e.id g.entities ≡ none =
      ap (λ (i : ℕ). seen i g.entities) h ∙ Below-seen g.next_entity_id g.entities s.below in
    record {
      once = s.once;
      distinct = Distinct-append g.entities e s.distinct fresh;
      below =
          Below-append ((g.next_entity_id + 1) % u32) g.entities e
            (Below-le g.next_entity_id ((g.next_entity_id + 1) % u32) g.entities
              (omega (arith, next)) s.below)
            (omega (arith, next, h));
      bounded = omega (arith, next, s.bounded);
    }

module _ (m : Machine) where
  pub Follows-still :
      (a : SockAddr) (b k : ℕ) (g : Game) → Sound a b g → b ≤ k → Follows m a k g (g, [])
  Follows-still a b k g s h = record {
    sound = Sound-le a b k g h s;
    mirrors = λ now c shown. shown;
  }

  -- The time of the last enemy is set after it.
  Follows-retime :
      (a : SockAddr) (b : ℕ) (g : Game) (r : Game × List Datagram) (t : ℕ)
      → Follows m a b g r
      → Follows m a b g (record (r.0) { last_enemy_spawn_time = t }, r.1)
  Follows-retime a b g r t h = record {
    sound = record {
      once = h.sound.once;
      distinct = h.sound.distinct;
      below = h.sound.below;
      bounded = h.sound.bounded;
    };
    mirrors = h.mirrors;
  }

  -- A client handles the announcement of an entity, and shows it.
  pub on_entity_spawn-Mirrors :
      (now : ℕ) (e : Entity) (es : List Entity) (c : RTypeClient) (t : ℕ)
      → seen e.id es ≡ none
      → Mirrors es c.entities
      → Mirrors
          (es ++ e ∷ [])
          (on_entity_spawn
            (record { entity_id = e.id; entity_type = e.type; timestamp = t; x = e.x; y = e.y })
            c).entities
  unfolding on_entity_spawn
  on_entity_spawn-Mirrors now e es c t fresh shown i =
      find-insert i e.id (view e) c.entities ∙ ground (arith, shown i, seen-append es e i fresh)

  -- One message to everyone is handled once.
  pub to_all-on_messages :
      (now : ℕ) (a : SockAddr) (ps : List Player) (msg : UdpMessage) (c : RTypeClient)
      → count_at a ps ≡ 1
      → on_messages m now (received_by a (to_all ps msg)) c ≡ (on_message m now msg c).0
  to_all-on_messages now a ps msg c once =
      ap (λ (l : List UdpMessage). on_messages m now l c)
        (received_by-to_all a ps msg ∙ ap (λ (n : ℕ). replicate n msg) once)

  pub spawn-Follows :
      (a : SockAddr) (b : ℕ) (g : Game) (type : ℕ) (x y vx vy : Float) (h w : ℤ)
      → Sound a b g
      → b + 1 < u32
      → Follows m a (b + 1) g (spawn m g type x y vx vy h w)
  unfolding spawn
  spawn-Follows a b g type x y vx vy h w s small =
      let e = new_entity g.next_entity_id type x y vx vy h w in
      let news = entity_spawn (record {
        entity_id = e.id;
        entity_type = type;
        timestamp = m.indeterminate;
        x = x;
        y = y;
      }) in
      record {
        sound = with_entity-Sound a b g e s small refl;
        mirrors = λ now c shown.
            subst (λ (d : RTypeClient). Mirrors (g.entities ++ e ∷ []) d.entities)
              (sym (to_all-on_messages now a g.players news c s.once))
              (on_entity_spawn-Mirrors now e g.entities c m.indeterminate
                (Below-seen g.next_entity_id g.entities s.below) shown);
      }

  create_enemy-Follows :
      (a : SockAddr) (b : ℕ) (g : Game) (r : ℕ)
      → Sound a b g
      → b + 1 < u32
      → Follows m a (b + 1) g (create_enemy m g r)
  unfolding create_enemy
  create_enemy-Follows a b g r s small = elim (Bool-cases (m.lt Floats.thirty g.game_time)) [
    | inl late ↦ rw late (spawn-Follows a b g 3 _ _ _ _ _ _ s small)
    | inr early ↦ rw early (spawn-Follows a b g 2 _ _ _ _ _ _ s small)
  ]

  pub spawn_enemy-Follows :
      (a : SockAddr) (b : ℕ) (fr : Frame) (g : Game)
      → Sound a b g
      → b + 1 < u32
      → Follows m a (b + 1) g (spawn_enemy m fr g)
  unfolding spawn_enemy
  spawn_enemy-Follows a b fr g s small =
      elim (Bool-cases (ltb (g.last_enemy_spawn_time + enemy_interval) fr.enemy_test)) [
        | inl due ↦ rw due (
            Follows-retime a (b + 1) g (create_enemy m g fr.random) fr.enemy_set
              (create_enemy-Follows a b g fr.random s small))
        | inr early ↦ rw early (Follows-still a b (b + 1) g s (omega arith))
      ]
