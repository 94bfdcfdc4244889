-- ===== src/RTypeClient/Replica.antt =====
-- The client of Src/Client/RTypeClient.cpp as a replica of the entities of the match of Src/Server/Game.cpp:
-- what each stage of the match has to keep.
pub mod Spawns
pub mod Inputs
pub mod Passes
pub mod Bosses
pub mod Stages
pub mod Runs
mod Tests
use rtype_ci_cd.Common.{
  ℕ, ◌≤◌, ◌<◌, ◌≡◌, refl, sym, subst, ap, ◌∙◌, ◌&&◌, Bool, true, false, none, List, [], ◌∷◌, ◌++◌,
  ◌==◌, if◌then◌else◌, arith,
}
use rtype_ci_cd.Common.Machine.{Machine}
use rtype_ci_cd.Common.Maps.{find}
use rtype_ci_cd.Network.{SockAddr, Datagram}
use rtype_ci_cd.Protocol.Udp.Messages.{
  UdpMessage, player_input, player_state, entity_spawn, entity_update, entity_destroy, ping, pong,
  player_disconnect, boss_state, global_state_sync, you_have_been_kicked,
}
use rtype_ci_cd.Game.Types.{Player, Entity, Game, to_all}
use rtype_ci_cd.Game.Update.{◌and_then◌}
use rtype_ci_cd.RTypeClient.Types.{EntityState, RTypeClient}
use rtype_ci_cd.RTypeClient.Packets.{
  on_pong, on_boss_state, on_kicked, on_player_state, on_player_disconnect, on_own_state,
  on_other_state,
}
use rtype_ci_cd.RTypeClient.Wire.{on_message, on_messages}
use rtype_ci_cd.RTypeClient.Mirror.{
  seen, Mirrors, Distinct, received_by, count_at, received_by-append,
}

-- The ids of the entities are below a number.
abbrev pub Below : ℕ → List Entity → Type 0
Below n [] = Unit
Below n (e ∷ es) = (e.id < n) × Below n es

pub Below-le : (n k : ℕ) (es : List Entity) → n ≤ k → Below n es → Below k es
Below-le n k [] h b = tt
Below-le n k (e ∷ es) h b = (omega (arith, b.0, h), Below-le n k es h b.1)

pub Below-seen : (n : ℕ) (es : List Entity) → Below n es → seen n es ≡ none
Below-seen n [] b = refl
Below-seen n (e ∷ es) b = ground (arith, b.0, Below-seen n es b.1)

-- One player has the address; the entities have different ids, all below the next one, which is at most `b`.
pub record Sound (a : SockAddr) (b : ℕ) (g : Game) : Type 0 where
  pub once : count_at a g.players ≡ 1
  pub distinct : Distinct g.entities
  pub below : Below g.next_entity_id g.entities
  pub bounded : g.next_entity_id ≤ b

pub Sound-le : (a : SockAddr) (b k : ℕ) (g : Game) → b ≤ k → Sound a b g → Sound a k g
Sound-le a b k g h s = record {
  once = s.once;
  distinct = s.distinct;
  below = s.below;
  bounded = omega (arith, s.bounded, h);
}

-- Messages that tell nothing of an entity.
abbrev pub is_quiet : UdpMessage → Bool
is_quiet (player_input p) = true
is_quiet (player_state p) = true
is_quiet (entity_spawn p) = false
is_quiet (entity_update p) = false
is_quiet (entity_destroy p) = false
is_quiet (ping p) = true
is_quiet (pong p) = true
is_quiet (player_disconnect p) = true
is_quiet (boss_state p) = true
is_quiet (global_state_sync count states) = false
is_quiet you_have_been_kicked = true

abbrev pub AllQuiet : List Datagram → Type 0
AllQuiet [] = Unit
AllQuiet (d ∷ ds) = (is_quiet d.message ≡ true) × AllQuiet ds

pub AllQuiet-append : (ds es : List Datagram) → AllQuiet ds → AllQuiet es → AllQuiet (ds ++ es)
AllQuiet-append [] es h k = k
AllQuiet-append (d ∷ ds) es h k = (h.0, AllQuiet-append ds es h.1 k)

pub AllQuiet-to_all :
    (ps : List Player) (msg : UdpMessage) → is_quiet msg ≡ true → AllQuiet (to_all ps msg)
unfolding to_all
AllQuiet-to_all [] msg h = tt
AllQuiet-to_all (p ∷ ps) msg h = ground (arith, h, AllQuiet-to_all ps msg h)

module _ (m : Machine) where
  on_message-entities :
      (now : ℕ) (msg : UdpMessage) (c : RTypeClient)
      → is_quiet msg ≡ true
      → (on_message m now msg c).0.entities ≡ c.entities
  unfolding on_player_state on_own_state on_other_state on_player_disconnect on_pong on_boss_state
      on_kicked
  on_message-entities now (player_input p) c h = refl
  on_message-entities now (player_state p) c h = ground arith
  on_message-entities now (entity_spawn p) c h = cc
  on_message-entities now (entity_update p) c h = cc
  on_message-entities now (entity_destroy p) c h = cc
  on_message-entities now (ping p) c h = refl
  on_message-entities now (pong p) c h = refl
  on_message-entities now (player_disconnect p) c h = refl
  on_message-entities now (boss_state p) c h = refl
  on_message-entities now (global_state_sync count states) c h = cc
  on_message-entities now you_have_been_kicked c h = refl

  pub on_messages-append :
      (now : ℕ) (xs ys : List UdpMessage) (c : RTypeClient)
      → on_messages m now (xs ++ ys) c ≡ on_messages m now ys (on_messages m now xs c)
  on_messages-append now [] ys c = refl
  on_messages-append now (x ∷ xs) ys c = on_messages-append now xs ys (on_message m now x c).0

  pub AllQuiet-entities :
      (now : ℕ) (a : SockAddr) (ds : List Datagram) (c : RTypeClient)
      → AllQuiet ds
      → (on_messages m now (received_by a ds) c).entities ≡ c.entities
  AllQuiet-entities now a [] c h = refl
  AllQuiet-entities now a (d ∷ ds) c h = ground (
    arith,
    AllQuiet-entities now a ds c h.1,
    AllQuiet-entities now a ds (on_message m now d.message c).0 h.1,
    on_message-entities now d.message c h.0,
  )

  -- After a stage from `g`: the match is sound, and a client that mirrored it mirrors it again.
  pub record Follows (a : SockAddr) (b : ℕ) (g : Game) (r : Game × List Datagram) : Type 0 where
    pub sound : Sound a b r.0
    pub mirrors :
        (now : ℕ) (c : RTypeClient)
        → Mirrors g.entities c.entities
        → Mirrors r.0.entities (on_messages m now (received_by a r.1) c).entities

  pub Follows-le :
      (a : SockAddr) (b k : ℕ) (g : Game) (r : Game × List Datagram)
      → b ≤ k
      → Follows a b g r
      → Follows a k g r
  Follows-le a b k g r h f = record { sound = Sound-le a b k r.0 h f.sound; mirrors = f.mirrors }

  pub Follows-and_then :
      (a : SockAddr) (k b : ℕ) (g : Game) (r : Game × List Datagram)
      (f : Game → Game × List Datagram)
      → Follows a k g r
      → Follows a b r.0 (f r.0)
      → Follows a b g (r and_then f)
  Follows-and_then a k b g r f h next = record {
    sound = next.sound;
    mirrors = λ now c shown.
        subst (λ (d : RTypeClient). Mirrors (f r.0).0.entities d.entities)
          (sym (
            ap (λ (l : List UdpMessage). on_messages m now l c) (received_by-append a r.1 (f r.0).1)
            ∙ on_messages-append now (received_by a r.1) (received_by a (f r.0).1) c))
          (next.mirrors now (on_messages m now (received_by a r.1) c) (h.mirrors now c shown));
  }

  -- A stage that says nothing of the entities, and changes nothing that shows.
  pub Follows-quiet :
      (a : SockAddr) (b : ℕ) (g g' : Game) (ds : List Datagram)
      → Sound a b g'
      → ((i : ℕ) → seen i g'.entities ≡ seen i g.entities)
      → AllQuiet ds
      → Follows a b g (g', ds)
  Follows-quiet a b g g' ds sound same quiet = record {
    sound = sound;
    mirrors = λ now c shown i.
        ap (λ (es : List (ℕ × EntityState)). find i es) (AllQuiet-entities now a ds c quiet)
        ∙ (shown i ∙ sym (same i));
  }
