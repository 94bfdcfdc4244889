-- ===== src/RTypeClient/Wire.antt =====
-- The messages of the server as the client handles them: what `RTypeClient::update` does with the bytes
-- that the server sends.
use rtype_ci_cd.Common.{
  take_all, ℕ, ◌-◌, ◌≤◌, ◌≡◌, refl, sym, ap, subst, ◌∙◌, some, List, [], ◌∷◌, ◌++◌, length,
  length-append, replicate, arith,
}
use rtype_ci_cd.Common.Machine.{Machine}
use rtype_ci_cd.Protocol.Udp.Messages.{
  UdpMessage, player_input, player_state, entity_spawn, entity_update, entity_destroy, ping, pong,
  player_disconnect, boss_state, global_state_sync, you_have_been_kicked, bytes_of, size_of,
}
use rtype_ci_cd.Protocol.Udp.Roundtrip.{
  Fits, bytes_of-ReadsBack, read_player_state-bytes_of, read_entity_spawn-bytes_of,
  read_entity_update-bytes_of, read_entity_destroy-bytes_of, read_player_disconnect-bytes_of,
  read_pong-bytes_of, read_boss_state-bytes_of,
}
use rtype_ci_cd.RTypeClient.Types.{RTypeClient, Effect}
use rtype_ci_cd.RTypeClient.Packets.{
  buffer_of, receive_message, is_packet, on_entity_spawn, on_entity_update, on_pong,
  on_global_state_sync, on_boss_state, on_kicked, on_player_state, on_entity_destroy,
  on_player_disconnect, handle_message, receive_loop,
}

module _ (m : Machine) where
  -- What a message of the server does to the client at the time `now`.
  abbrev pub on_message : ℕ → UdpMessage → RTypeClient → RTypeClient × List Effect
  on_message now (player_input p) c = (c, [])
  on_message now (player_state p) c = (on_player_state m now p c, [])
  on_message now (entity_spawn p) c = (on_entity_spawn p c, [])
  on_message now (entity_update p) c = (on_entity_update p c, [])
  on_message now (entity_destroy p) c = on_entity_destroy m p c
  on_message now (ping p) c = (c, [])
  on_message now (pong p) c = (on_pong now p c, [])
  on_message now (player_disconnect p) c = on_player_disconnect m p c
  on_message now (boss_state p) c = (on_boss_state p c, [])
  on_message now (global_state_sync count states) c = (on_global_state_sync states c, [])
  on_message now you_have_been_kicked c = (on_kicked c, [])

  handle_message-append :
      (now : ℕ) (msg : UdpMessage) (z : List ℕ) (c : RTypeClient)
      → Fits msg
      → handle_message m now (bytes_of msg ++ z) c ≡ on_message now msg c
  unfolding handle_message bytes_of is_packet
  handle_message-append now (player_input p) z c h = refl
  handle_message-append now (player_state p) z c h =
      ground (arith, length-append (bytes_of (player_state p)) z, read_player_state-bytes_of p z h)
  handle_message-append now (entity_spawn p) z c h =
      ground (arith, length-append (bytes_of (entity_spawn p)) z, read_entity_spawn-bytes_of p z h)
  handle_message-append now (entity_update p) z c h =
      ground
        (arith, length-append (bytes_of (entity_update p)) z, read_entity_update-bytes_of p z h)
  handle_message-append now (entity_destroy p) z c h =
      ground
        (arith, length-append (bytes_of (entity_destroy p)) z, read_entity_destroy-bytes_of p z h)
  handle_message-append now (pong p) z c h =
      ground (arith, length-append (bytes_of (pong p)) z, read_pong-bytes_of p z h)
  handle_message-append now (player_disconnect p) z c h = ground (
    arith,
    length-append (bytes_of (player_disconnect p)) z,
    read_player_disconnect-bytes_of p z h,
  )
  handle_message-append now (boss_state p) z c h =
      ground (arith, length-append (bytes_of (boss_state p)) z, read_boss_state-bytes_of p z h)
  handle_message-append now (ping p) z c h = refl
  handle_message-append now (global_state_sync count states) z c h = ground (
    arith,
    length-append (bytes_of (global_state_sync count states)) z,
    (bytes_of-ReadsBack (global_state_sync count states) z h).1,
  )
  handle_message-append now you_have_been_kicked z c h = refl

  -- One message after the other.
  abbrev pub on_messages : ℕ → List UdpMessage → RTypeClient → RTypeClient
  on_messages now [] c = c
  on_messages now (msg ∷ msgs) c = on_messages now msgs (on_message now msg c).0

  bytes_of-nonempty : (msg : UdpMessage) → (b : ℕ) × (bs : List ℕ) × (bytes_of msg ≡ b ∷ bs)
  unfolding bytes_of
  bytes_of-nonempty (player_input p) = (_, _, refl)
  bytes_of-nonempty (player_state p) = (_, _, refl)
  bytes_of-nonempty (entity_spawn p) = (_, _, refl)
  bytes_of-nonempty (entity_update p) = (_, _, refl)
  bytes_of-nonempty (entity_destroy p) = (_, _, refl)
  bytes_of-nonempty (ping p) = (_, _, refl)
  bytes_of-nonempty (pong p) = (_, _, refl)
  bytes_of-nonempty (player_disconnect p) = (_, _, refl)
  bytes_of-nonempty (boss_state p) = (_, _, refl)
  bytes_of-nonempty (global_state_sync count states) = (_, _, refl)
  bytes_of-nonempty you_have_been_kicked = (_, _, refl)

  -- The messages fit their types, and each its datagram.
  abbrev pub AllFit : List UdpMessage → Type 0
  AllFit [] = Unit
  AllFit (msg ∷ msgs) = Fits msg × (size_of msg ≤ 1024) × AllFit msgs

  -- The datagrams of the messages, all handled at the time `now`.
  abbrev pub datagrams : ℕ → List UdpMessage → List (List ℕ × ℕ)
  datagrams now [] = []
  datagrams now (msg ∷ msgs) = (bytes_of msg, now) ∷ datagrams now msgs

  receive_message-bytes_of :
      (msg : UdpMessage)
      → Fits msg
      → size_of msg ≤ 1024
      → receive_message (some (bytes_of msg))
        ≡ some (bytes_of msg ++ replicate (1024 - length (bytes_of msg)) 0)
  unfolding receive_message buffer_of
  receive_message-bytes_of msg h small =
      let (b, bs, e) = bytes_of-nonempty msg in
      let size = (bytes_of-ReadsBack msg [] h).0 in
      subst
        (λ (l : List ℕ).
          length l ≤ 1024 → receive_message (some l) ≡ some (l ++ replicate (1024 - length l) 0))
        (sym e)
        (λ k.
          ap (λ (l : List ℕ). some (l ++ replicate (1024 - length (b ∷ bs)) 0))
            (take_all 1024 (b ∷ bs) k))
        (omega (arith, size))

  -- Messages whose fields lie in range and that fit a datagram each, sent as their bytes and received as
  -- buffers of 1024 bytes, do to the client what the messages say.
  pub receive_loop-datagrams :
      (now : ℕ) (msgs : List UdpMessage) (c : RTypeClient)
      → AllFit msgs
      → (receive_loop m (datagrams now msgs) c).0 ≡ on_messages now msgs c
  unfolding receive_loop
  receive_loop-datagrams now [] c h = refl
  receive_loop-datagrams now (msg ∷ msgs) c h =
      rw (receive_loop, receive_message-bytes_of msg h.0 h.1)
        (ap (λ (r : RTypeClient × List Effect). (receive_loop m (datagrams now msgs) r.0).0)
            (handle_message-append now msg _ c h.0)
          ∙ receive_loop-datagrams now msgs (on_message now msg c).0 h.2)
