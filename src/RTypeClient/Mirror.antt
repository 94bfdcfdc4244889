-- ===== src/RTypeClient/Mirror.antt =====
-- The entities of a match of Src/Server/Game.cpp, and what a client of Src/Client/RTypeClient.cpp shows.
use rtype_ci_cd.Common.{
  ℕ, suc, ◌≡◌, refl, ap, ◌∙◌, inl, inr, ◌&&◌, Bool, Option, none, some, List, [], ◌∷◌, ◌++◌,
  replicate, Bool-cases, ◌==◌, if◌then◌else◌, arith,
}
use rtype_ci_cd.Common.Machine.{Machine}
use rtype_ci_cd.Common.Maps.{find, find-insert, find-erase}
use rtype_ci_cd.Network.{SockAddr, Datagram}
use rtype_ci_cd.Protocol.Udp.Messages.{UdpMessage, entity_update, entity_destroy}
use rtype_ci_cd.Game.Types.{Player, Entity, Game, to_all}
use rtype_ci_cd.Game.Entities.{advance, is_gone, update_entities_loop, update_entities}
use rtype_ci_cd.RTypeClient.Types.{EntityState, RTypeClient}
use rtype_ci_cd.RTypeClient.Packets.{on_entity_update, on_entity_destroy, receive_loop}
use rtype_ci_cd.RTypeClient.Wire.{
  on_message, on_messages, AllFit, datagrams, receive_loop-datagrams,
}

-- What a client knows of an entity.
abbrev pub view : Entity → EntityState
view e = record { x = e.x; y = e.y; type = e.type }

-- The first entity with the id.
abbrev pub seen : ℕ → List Entity → Option EntityState
seen i [] = none
seen i (e ∷ es) = if e.id == i then some (view e) else seen i es

-- The client has exactly the entities of the match, each with its place and its type.
abbrev pub Mirrors : List Entity → List (ℕ × EntityState) → Type 0
Mirrors es shown = (i : ℕ) → find i shown ≡ seen i es

abbrev pub Distinct : List Entity → Type 0
Distinct [] = Unit
Distinct (e ∷ es) = (seen e.id es ≡ none) × Distinct es

abbrev pub is_at : SockAddr → SockAddr → Bool
is_at a b = a.ip == b.ip && a.port == b.port

-- The messages that are sent to an address.
abbrev pub received_by : SockAddr → List Datagram → List UdpMessage
received_by a [] = []
received_by a (d ∷ ds) =
    let rest = received_by a ds in if is_at a d.addr then d.message ∷ rest else rest

-- How many players of the match have the address.
abbrev pub count_at : SockAddr → List Player → ℕ
count_at a [] = 0
count_at a (p ∷ ps) =
    let rest = count_at a ps in if p.addr_set && is_at a p.udp_addr then suc rest else rest

pub received_by-append :
    (a : SockAddr) (ds es : List Datagram)
    → received_by a (ds ++ es) ≡ received_by a ds ++ received_by a es
received_by-append a [] es = refl
received_by-append a (d ∷ ds) es = ground (arith, received_by-append a ds es)

pub received_by-to_all :
    (a : SockAddr) (ps : List Player) (msg : UdpMessage)
    → received_by a (to_all ps msg) ≡ replicate (count_at a ps) msg
unfolding to_all
received_by-to_all a [] msg = refl
received_by-to_all a (p ∷ ps) msg = ground (arith, received_by-to_all a ps msg)

-- The announcement to everyone comes once to an address that one player has.
to_all_once :
    (a : SockAddr) (ps : List Player) (msg : UdpMessage) (ds : List Datagram)
    → count_at a ps ≡ 1
    → received_by a (to_all ps msg ++ ds) ≡ msg ∷ received_by a ds
to_all_once a ps msg ds h =
    received_by-append a (to_all ps msg) ds
    ∙ ap (λ (l : List UdpMessage). l ++ received_by a ds)
        (received_by-to_all a ps msg ∙ ap (λ (n : ℕ). replicate n msg) h)

module _ (m : Machine) where
  -- The entity after its motion, if it stays.
  abbrev kept : Entity → Option EntityState
  kept e = if is_gone m (advance m e) then none else some (view (advance m e))

  advance-id : (e : Entity) → (advance m e).id ≡ e.id
  unfolding advance
  advance-id e = refl

  advance-type : (e : Entity) → (advance m e).type ≡ e.type
  unfolding advance
  advance-type e = refl

  -- The announcement of one entity.
  abbrev news : Entity → UdpMessage
  news e =
      if is_gone m (advance m e)
      then entity_destroy (record { entity_id = e.id })
      else entity_update (record {
        entity_id = e.id;
        timestamp = m.indeterminate;
        x = (advance m e).x;
        y = (advance m e).y;
      })

  news-find :
      (now : ℕ) (e : Entity) (c : RTypeClient) (i : ℕ)
      → find e.id c.entities ≡ some (view e)
      → find i (on_message m now (news e) c).0.entities
        ≡ (if e.id == i then kept e else find i c.entities)
  unfolding on_entity_update on_entity_destroy
  news-find now e c i h = ground (
    arith,
    h,
    find-insert i e.id (view (advance m e)) c.entities,
    find-erase i e.id c.entities,
    advance-type e,
  )

  loop_step :
      (a : SockAddr) (ps : List Player) (e : Entity) (es : List Entity)
      → count_at a ps ≡ 1
      → received_by a (update_entities_loop m ps (e ∷ es)).1
        ≡ news e ∷ received_by a (update_entities_loop m ps es).1
  unfolding update_entities_loop
  loop_step a ps e es h = elim (Bool-cases (is_gone m (advance m e))) [
    | inl gone ↦ rw gone (to_all_once a ps _ _ h)
    | inr stays ↦ rw stays (to_all_once a ps _ _ h)
  ]

  loop-seen :
      (ps : List Player) (e : Entity) (es : List Entity) (i : ℕ)
      → seen i (update_entities_loop m ps (e ∷ es)).0 ≡ elim (if e.id == i then kept e else none) [
        | some s ↦ some s
        | none ↦ seen i (update_entities_loop m ps es).0
      ]
  unfolding update_entities_loop
  loop-seen ps e es i = ground (arith, advance-id e)

  pub loop-seen-none :
      (ps : List Player) (es : List Entity) (i : ℕ)
      → seen i es ≡ none
      → seen i (update_entities_loop m ps es).0 ≡ none
  loop-seen-none ps [] i h = unfold update_entities_loop in refl
  loop-seen-none ps (e ∷ es) i h = ground (arith, h, loop-seen ps e es i, loop-seen-none ps es i)

  -- The first where there was an entity.
  abbrev pick : Option EntityState → Option EntityState → Option EntityState → Option EntityState
  pick none a b = b
  pick (some s) a b = a

  -- Each entity of the match is shown.
  abbrev Shows : List Entity → List (ℕ × EntityState) → Type 0
  Shows es shown = (j : ℕ) (s : EntityState) → seen j es ≡ some s → find j shown ≡ some s

  news-Shows :
      (now : ℕ) (e : Entity) (es : List Entity) (c : RTypeClient)
      → Distinct (e ∷ es)
      → Shows (e ∷ es) c.entities
      → Shows es (on_message m now (news e) c).0.entities
  news-Shows now e es c d h j s k =
      ground (
        arith,
        k,
        d.0,
        h e.id (view e),
        h j s,
        news-find now e c j (h e.id (view e) (ground arith)),
      )

  loop-find :
      (now : ℕ) (a : SockAddr) (ps : List Player) (es : List Entity) (c : RTypeClient) (i : ℕ)
      → count_at a ps ≡ 1
      → Distinct es
      → Shows es c.entities
      → find i (on_messages m now (received_by a (update_entities_loop m ps es).1) c).entities
        ≡ pick (seen i es) (seen i (update_entities_loop m ps es).0) (find i c.entities)
  loop-find now a ps [] c i once d h = unfold update_entities_loop in refl
  loop-find now a ps (e ∷ es) c i once d h =
      let next = (on_message m now (news e) c).0 in
      ap (λ (l : List UdpMessage). find i (on_messages m now l c).entities)
        (loop_step a ps e es once)
      ∙ loop-find now a ps es next i once d.1 (news-Shows now e es c d h)
      ∙ ground (
        arith,
        d.0,
        news-find now e c i (h e.id (view e) (ground arith)),
        loop-seen ps e es i,
        loop-seen-none ps es i,
      )

  -- The same without the bytes: the messages are handled one after the other.
  pub update_entities-on_messages :
      (g : Game) (a : SockAddr) (now : ℕ) (c : RTypeClient)
      → count_at a g.players ≡ 1
      → Distinct g.entities
      → Mirrors g.entities c.entities
      → Mirrors
          (update_entities m g).0.entities
          (on_messages m now (received_by a (update_entities m g).1) c).entities
  unfolding update_entities
  update_entities-on_messages g a now c once d h i =
      loop-find now a g.players g.entities c i once d (λ j s k. h j ∙ k)
      ∙ ground (arith, h i, loop-seen-none g.players g.entities i)

  -- A client mirrors a match whose entities have different ids, and exactly one player of the match has its
  -- address. Then it mirrors the match after `updateEntities` too, once the datagrams that this sends to
  -- the address are handled in their order, if their fields lie in the ranges of their types.
  pub update_entities-Mirrors :
      (g : Game) (a : SockAddr) (now : ℕ) (c : RTypeClient)
      → count_at a g.players ≡ 1
      → Distinct g.entities
      → AllFit m (received_by a (update_entities m g).1)
      → Mirrors g.entities c.entities
      → Mirrors
          (update_entities m g).0.entities
          (receive_loop m (datagrams m now (received_by a (update_entities m g).1)) c).0.entities
  unfolding update_entities
  update_entities-Mirrors g a now c once d fit h i =
      ap (λ (r : RTypeClient). find i r.entities)
        (receive_loop-datagrams m now (received_by a (update_entities m g).1) c fit)
      ∙ update_entities-on_messages g a now c once d h i
