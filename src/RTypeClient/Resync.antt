-- ===== src/RTypeClient/Resync.antt =====
-- The full synchronisation of `Game::sendGlobalStateSync`, as the client applies it.
use rtype_ci_cd.Common.{
  ℕ, ◌≤◌, ◌%◌, u32, ◌≡◌, refl, ap, ◌∙◌, none, some, List, [], ◌∷◌, length, replicate, map, leb,
  if◌then◌else◌, arith,
}
use rtype_ci_cd.Common.Maps.{find, insert, find-insert}
use rtype_ci_cd.Common.Machine.{Machine}
use rtype_ci_cd.Network.{SockAddr}
use rtype_ci_cd.Protocol.Udp.Messages.{UdpMessage, global_state_sync}
use rtype_ci_cd.Game.Types.{Entity, Game}
use rtype_ci_cd.Game.Entities.{synced, send_global_state_sync}
use rtype_ci_cd.RTypeClient.Types.{EntityState, RTypeClient}
use rtype_ci_cd.RTypeClient.Packets.{
  local_entities, insert_states, on_global_state_sync, receive_loop,
}
use rtype_ci_cd.RTypeClient.Wire.{on_messages, AllFit, datagrams, receive_loop-datagrams}
use rtype_ci_cd.RTypeClient.Mirror.{
  view, seen, Mirrors, Distinct, received_by, count_at, received_by-to_all,
}

pub local_entities-find :
    (es : List (ℕ × EntityState)) (i : ℕ)
    → find i (local_entities es) ≡ (if leb 9999 i then find i es else none)
unfolding local_entities find
local_entities-find [] i = ground arith
local_entities-find ((id, e) ∷ es) i = ground (arith, local_entities-find es i)

pub insert_states-find :
    (es : List Entity) (shown : List (ℕ × EntityState)) (i : ℕ)
    → Distinct es
    → find i (insert_states (map synced es) shown)
      ≡ elim (seen i es) [ none ↦ find i shown | some s ↦ some s ]
unfolding insert_states synced
insert_states-find [] shown i d = refl
insert_states-find (e ∷ es) shown i d =
    insert_states-find es (insert e.id (view e) shown) i d.1
    ∙ ground (arith, d.0, find-insert i e.id (view e) shown)

module _ (m : Machine) where
  -- The entities of a match have different ids, and exactly one player of the match has the client's
  -- address; the states lie in the ranges of their types and fit one datagram. Whatever a client with no
  -- entity from id 9999 on shows, it mirrors the match once the synchronisation is handled.
  pub send_global_state_sync-Mirrors :
      (g : Game) (a : SockAddr) (now : ℕ) (c : RTypeClient)
      → count_at a g.players ≡ 1
      → Distinct g.entities
      → AllFit m (received_by a (send_global_state_sync g))
      → ((i : ℕ) → 9999 ≤ i → find i c.entities ≡ none)
      → Mirrors g.entities
          (receive_loop m (datagrams m now (received_by a (send_global_state_sync g))) c).0.entities
  unfolding send_global_state_sync on_global_state_sync
  send_global_state_sync-Mirrors g a now c once d fit none_local i =
      let packet = global_state_sync (length g.entities % u32) (map synced g.entities) in
      ap (λ (r : RTypeClient). find i r.entities)
        (receive_loop-datagrams m now (received_by a (send_global_state_sync g)) c fit)
      ∙ ap (λ (l : List UdpMessage). find i (on_messages m now l c).entities)
          (received_by-to_all a g.players packet ∙ ap (λ (n : ℕ). replicate n packet) once)
      ∙ insert_states-find g.entities (local_entities c.entities) i d
      ∙ ground (arith, local_entities-find c.entities i, none_local i)
