-- ===== src/RTypeClient/Replica/Passes.antt =====
-- The stages of `Game::update` of Src/Server/Game.cpp that add no entity, on the client.
use rtype_ci_cd.Common.{
  ℕ, ◌+◌, ◌%◌, ◌≡◌, refl, ap, ◌∙◌, inl, inr, List, [], ◌∷◌, map, length, leb, u32, Bool-cases,
  arith,
}
use rtype_ci_cd.Common.Machine.{Machine, Float}
use rtype_ci_cd.Common.Maps.{find}
use rtype_ci_cd.Network.{SockAddr}
use rtype_ci_cd.Protocol.Udp.Messages.{global_state_sync}
use rtype_ci_cd.Game.Types.{Player, Entity, Game, to_all}
use rtype_ci_cd.Game.Players.{broadcast_loop, broadcast_game_state}
use rtype_ci_cd.Game.Entities.{
  advance, update_entities_loop, update_entities, wave, steer_boss, update_game_level, synced,
  send_global_state_sync,
}
use rtype_ci_cd.Game.Collision.{Clash, strike_boss, meet, handle_collision}
use rtype_ci_cd.Game.Collision.Marks.{Marks}
use rtype_ci_cd.Game.Collision.Loops.{projectile_loop_keeps, meet_cases, handle_collision-Marks}
use rtype_ci_cd.Game.Update.{Frame, global_sync_interval, sync_if_due}
use rtype_ci_cd.RTypeClient.Types.{RTypeClient}
use rtype_ci_cd.RTypeClient.Packets.{on_global_state_sync, local_entities}
use rtype_ci_cd.RTypeClient.Wire.{on_messages}
use rtype_ci_cd.RTypeClient.Mirror.{
  view, seen, Mirrors, Distinct, received_by, count_at, loop-seen-none, update_entities-on_messages,
}
use rtype_ci_cd.RTypeClient.Resync.{local_entities-find, insert_states-find}
use rtype_ci_cd.RTypeClient.Replica.{
  Below, Sound, AllQuiet, AllQuiet-append, AllQuiet-to_all, Follows, Follows-quiet,
}
use rtype_ci_cd.RTypeClient.Replica.Spawns.{to_all-on_messages}

-- Two lists with the same ids, places and types in one order.
abbrev pub Alike : List Entity → List Entity → Type 0
Alike [] [] = Unit
Alike [] (y ∷ ys) = ⊥
Alike (x ∷ xs) [] = ⊥
Alike (x ∷ xs) (y ∷ ys) = (y.id ≡ x.id) × (view y ≡ view x) × Alike xs ys

Alike-seen : (xs ys : List Entity) (i : ℕ) → Alike xs ys → seen i ys ≡ seen i xs
Alike-seen [] [] i h = refl
Alike-seen [] (y ∷ ys) i h = absurd h
Alike-seen (x ∷ xs) [] i h = absurd h
Alike-seen (x ∷ xs) (y ∷ ys) i h = ground (arith, h.0, h.1, Alike-seen xs ys i h.2)

Alike-Distinct : (xs ys : List Entity) → Alike xs ys → Distinct xs → Distinct ys
Alike-Distinct [] [] h d = tt
Alike-Distinct [] (y ∷ ys) h d = absurd h
Alike-Distinct (x ∷ xs) [] h d = absurd h
Alike-Distinct (x ∷ xs) (y ∷ ys) h d = (
  Alike-seen xs ys y.id h.2 ∙ (ap (λ (i : ℕ). seen i xs) h.0 ∙ d.0),
  Alike-Distinct xs ys h.2 d.1,
)

Alike-Below : (n : ℕ) (xs ys : List Entity) → Alike xs ys → Below n xs → Below n ys
Alike-Below n [] [] h b = tt
Alike-Below n [] (y ∷ ys) h b = absurd h
Alike-Below n (x ∷ xs) [] h b = absurd h
Alike-Below n (x ∷ xs) (y ∷ ys) h b = (omega (arith, h.0, b.0), Alike-Below n xs ys h.2 b.1)

Marks-Alike : (xs ys : List Entity) → Marks xs ys → Alike xs ys
Marks-Alike [] [] h = tt
Marks-Alike [] (y ∷ ys) h = h
Marks-Alike (x ∷ xs) [] h = h
Marks-Alike (x ∷ xs) (y ∷ ys) (inl e, h) =
    (ap (λ (z : Entity). z.id) e, ap view e, Marks-Alike xs ys h)
Marks-Alike (x ∷ xs) (y ∷ ys) (inr (e, c), h) =
    (ap (λ (z : Entity). z.id) e, ap view e, Marks-Alike xs ys h)

module _ (m : Machine) where
  steer-Alike :
      (time : Float) (level : ℕ) (es : List Entity)
      → Alike es (map (λ e. steer_boss m time level (wave m time e)) es)
  unfolding steer_boss wave
  steer-Alike time level [] = tt
  steer-Alike time level (e ∷ es) = (ground arith, ground arith, steer-Alike time level es)

  pub update_game_level-Follows :
      (a : SockAddr) (b : ℕ) (g : Game) (dt : Float)
      → Sound a b g
      → Follows m a b g (update_game_level m g dt, [])
  unfolding update_game_level
  update_game_level-Follows a b g dt s =
      let alike = steer-Alike (m.add g.game_time dt) g.boss.level g.entities in
      let es = (update_game_level m g dt).entities in
      Follows-quiet m a b g (update_game_level m g dt) []
        (record {
          once = s.once;
          distinct = Alike-Distinct g.entities es alike s.distinct;
          below = Alike-Below g.next_entity_id g.entities es alike s.below;
          bounded = s.bounded;
        })
        (λ i. Alike-seen g.entities es i alike) tt

  meet-AllQuiet :
      (g : Game) (i j : ℕ) (p e : Entity) (c : Clash)
      → AllQuiet c.sent
      → AllQuiet (meet m g i j p e c).sent
  unfolding strike_boss
  meet-AllQuiet g i j p e c h =
      meet_cases m g i j p e c (λ d. AllQuiet d.sent) h
        (λ _ _ _. AllQuiet-append c.sent _ h (AllQuiet-to_all g.players _ refl)) (λ _. h)

  pub handle_collision-Follows :
      (a : SockAddr) (b : ℕ) (g : Game) → Sound a b g → Follows m a b g (handle_collision m g)
  unfolding handle_collision
  handle_collision-Follows a b g s =
      let alike = Marks-Alike g.entities _ (handle_collision-Marks m g).0 in
      let g' = (handle_collision m g).0 in
      let count = length g.entities in
      Follows-quiet m a b g g' (handle_collision m g).1
        (record {
          once = s.once;
          distinct = Alike-Distinct g.entities g'.entities alike s.distinct;
          below = Alike-Below g.next_entity_id g.entities g'.entities alike s.below;
          bounded = s.bounded;
        })
        (λ i. Alike-seen g.entities g'.entities i alike)
        (projectile_loop_keeps m g (λ d. AllQuiet d.sent)
          (λ i j p e c hp he shot h. meet-AllQuiet g i j p e c h) count count 0
          (record { entities = g.entities; boss = g.boss; sent = [] }) tt)

  broadcast_loop-AllQuiet : (all ps : List Player) → AllQuiet (broadcast_loop m all ps).1
  unfolding broadcast_loop
  broadcast_loop-AllQuiet all [] = tt
  broadcast_loop-AllQuiet all (p ∷ ps) = elim (Bool-cases p.addr_set) [
    | inl known ↦ rw known (
        AllQuiet-append (to_all all _) (broadcast_loop m all ps).1 (AllQuiet-to_all all _ refl)
          (broadcast_loop-AllQuiet all ps))
    | inr unknown ↦ rw unknown (broadcast_loop-AllQuiet all ps)
  ]

  broadcast_loop-count_at :
      (a : SockAddr) (all ps : List Player) → count_at a (broadcast_loop m all ps).0 ≡ count_at a ps
  unfolding broadcast_loop
  broadcast_loop-count_at a all [] = refl
  broadcast_loop-count_at a all (p ∷ ps) = ground (arith, broadcast_loop-count_at a all ps)

  pub broadcast_game_state-Follows :
      (a : SockAddr) (b : ℕ) (g : Game) → Sound a b g → Follows m a b g (broadcast_game_state m g)
  unfolding broadcast_game_state
  broadcast_game_state-Follows a b g s =
      Follows-quiet m a b g (broadcast_game_state m g).0 (broadcast_game_state m g).1
        (record {
          once = broadcast_loop-count_at a g.players g.players ∙ s.once;
          distinct = s.distinct;
          below = s.below;
          bounded = s.bounded;
        })
        (λ i. refl) (broadcast_loop-AllQuiet g.players g.players)

  loop-Below :
      (n : ℕ) (ps : List Player) (es : List Entity)
      → Below n es
      → Below n (update_entities_loop m ps es).0
  unfolding update_entities_loop advance
  loop-Below n ps [] b = tt
  loop-Below n ps (e ∷ es) b = ground (arith, b.0, loop-Below n ps es b.1)

  loop-Distinct :
      (ps : List Player) (es : List Entity)
      → Distinct es
      → Distinct (update_entities_loop m ps es).0
  unfolding update_entities_loop advance
  loop-Distinct ps [] d = tt
  loop-Distinct ps (e ∷ es) d =
      ground (arith, loop-Distinct ps es d.1, loop-seen-none m ps es e.id d.0)

  pub update_entities-Follows :
      (a : SockAddr) (b : ℕ) (g : Game) → Sound a b g → Follows m a b g (update_entities m g)
  unfolding update_entities
  update_entities-Follows a b g s = record {
    sound = record {
      once = s.once;
      distinct = loop-Distinct g.players g.entities s.distinct;
      below = loop-Below g.next_entity_id g.players g.entities s.below;
      bounded = s.bounded;
    };
    mirrors = λ now c shown. update_entities-on_messages m g a now c s.once s.distinct shown;
  }

  -- The client keeps its entities from id 9999 on, which are the match's, and gets all of the match.
  send_global_state_sync-on_messages :
      (a : SockAddr) (g : Game) (now : ℕ) (c : RTypeClient)
      → count_at a g.players ≡ 1
      → Distinct g.entities
      → Mirrors g.entities c.entities
      → Mirrors g.entities (on_messages m now (received_by a (send_global_state_sync g)) c).entities
  unfolding send_global_state_sync on_global_state_sync
  send_global_state_sync-on_messages a g now c once d shown i =
      let packet = global_state_sync (length g.entities % u32) (map synced g.entities) in
      ap (λ (r : RTypeClient). find i r.entities)
        (to_all-on_messages m now a g.players packet c once)
      ∙ (insert_states-find g.entities (local_entities c.entities) i d
          ∙ ground (arith, local_entities-find c.entities i, shown i))

  pub sync_if_due-Follows :
      (a : SockAddr) (b : ℕ) (fr : Frame) (g : Game)
      → Sound a b g
      → Follows m a b g (sync_if_due fr g)
  unfolding sync_if_due
  sync_if_due-Follows a b fr g s =
      elim (Bool-cases (leb (g.last_global_sync_time + global_sync_interval) fr.sync_test)) [
        | inl due ↦ rw due (record {
          sound = record {
            once = s.once;
            distinct = s.distinct;
            below = s.below;
            bounded = s.bounded;
          };
          mirrors =
              λ now c shown. send_global_state_sync-on_messages a g now c s.once s.distinct shown;
        })
        | inr early ↦ rw early (record { sound = s; mirrors = λ now c shown. shown })
      ]
