-- ===== src/RTypeClient/Status.antt =====
-- What a packet and a frame do to `_status` and `_keybinds` of the client.
use rtype_ci_cd.Common.{
  ℕ, ◌≡◌, refl, ◌∙◌, Bool, true, false, List, [], ◌∷◌, ◌++◌, get_or, ◌==◌, if◌then◌else◌, arith,
}
use rtype_ci_cd.Common.Machine.{Machine}
use rtype_ci_cd.Common.Strings.{Text}
use rtype_ci_cd.Protocol.Udp.Messages.{
  PlayerStatePacket, EntityUpdatePacket, EntityDestroyPacket, PlayerDisconnectPacket,
}
use rtype_ci_cd.RTypeClient.Types.{
  InGameStatus, playing, paused, options, quitting, kicked, game_over, victory, RTypeClient, Effect,
}
use rtype_ci_cd.RTypeClient.Packets.{
  on_entity_spawn, on_entity_update, on_pong, on_global_state_sync, on_boss_state, on_kicked,
  on_own_state, on_other_state, on_player_state, on_entity_destroy, on_player_disconnect,
  handle_message, receive_loop, ping_if_due, update, receive_message, buffer_of, is_packet,
}

-- The status stays, or the match is over, or the player is kicked.
abbrev pub overtakes : InGameStatus → InGameStatus → Bool
overtakes s game_over = true
overtakes s kicked = true
overtakes playing playing = true
overtakes paused paused = true
overtakes options options = true
overtakes quitting quitting = true
overtakes victory victory = true
overtakes _ _ = false

pub overtakes_self : (s : InGameStatus) → overtakes s s ≡ true
overtakes_self playing = refl
overtakes_self paused = refl
overtakes_self options = refl
overtakes_self quitting = refl
overtakes_self kicked = refl
overtakes_self game_over = refl
overtakes_self victory = refl

pub overtakes_trans :
    (s t u : InGameStatus) → overtakes s t ≡ true → overtakes t u ≡ true → overtakes s u ≡ true
overtakes_trans s t playing h k = ground arith
overtakes_trans s t paused h k = ground arith
overtakes_trans s t options h k = ground arith
overtakes_trans s t quitting h k = ground arith
overtakes_trans s t kicked h k = refl
overtakes_trans s t game_over h k = refl
overtakes_trans s t victory h k = ground arith

-- The key bindings stay, and the status changes in no other way.
pub record Keeps (c d : RTypeClient) : Type 0 where
  pub status : overtakes c.status d.status ≡ true
  pub keybinds : d.keybinds ≡ c.keybinds

pub Keeps-same : (c d : RTypeClient) → d.status ≡ c.status → d.keybinds ≡ c.keybinds → Keeps c d
Keeps-same c d h k = record { status = rw h (overtakes_self c.status); keybinds = k }

pub Keeps-trans : (c d e : RTypeClient) → Keeps c d → Keeps d e → Keeps c e
Keeps-trans c d e h k = record {
  status = overtakes_trans c.status d.status e.status h.status k.status;
  keybinds = k.keybinds ∙ h.keybinds;
}

if-Keeps :
    (b : Bool) (c : RTypeClient) (x y : RTypeClient × List Effect)
    → Keeps c x.0
    → Keeps c y.0
    → Keeps c (if b then x else y).0
if-Keeps true c x y h k = h
if-Keeps false c x y h k = k

on_entity_update-Keeps : (p : EntityUpdatePacket) (c : RTypeClient) → Keeps c (on_entity_update p c)
unfolding on_entity_update
on_entity_update-Keeps p c = Keeps-same c (on_entity_update p c) (ground arith) (ground arith)

module _ (m : Machine) where
  on_player_state-Keeps :
      (now : ℕ) (p : PlayerStatePacket) (c : RTypeClient) → Keeps c (on_player_state m now p c)
  unfolding on_player_state on_own_state on_other_state
  on_player_state-Keeps now p c =
      Keeps-same c (on_player_state m now p c) (ground arith) (ground arith)

  on_entity_destroy-Keeps :
      (p : EntityDestroyPacket) (c : RTypeClient) → Keeps c (on_entity_destroy m p c).0
  unfolding on_entity_destroy
  on_entity_destroy-Keeps p c =
      Keeps-same c (on_entity_destroy m p c).0 (ground arith) (ground arith)

  on_player_disconnect-Keeps :
      (p : PlayerDisconnectPacket) (c : RTypeClient) → Keeps c (on_player_disconnect m p c).0
  unfolding on_player_disconnect
  on_player_disconnect-Keeps p c = record {
    status = ground (arith, overtakes_self c.status);
    keybinds = refl;
  }

  handle_message-Keeps :
      (now : ℕ) (buffer : List ℕ) (c : RTypeClient) → Keeps c (handle_message m now buffer c).0
  unfolding handle_message on_entity_spawn on_pong on_global_state_sync on_boss_state on_kicked
  handle_message-Keeps now buffer c =
      if-Keeps (is_packet 2 25 buffer) c _ _ (on_player_state-Keeps now _ c) (
        if-Keeps (is_packet 3 19 buffer) c _ _ (Keeps-same c _ refl refl) (
          if-Keeps (is_packet 4 17 buffer) c _ _ (on_entity_update-Keeps _ c) (
            if-Keeps (is_packet 5 5 buffer) c _ _ (on_entity_destroy-Keeps _ c) (
              if-Keeps (is_packet 8 5 buffer) c _ _ (on_player_disconnect-Keeps _ c) (
                if-Keeps (is_packet 7 5 buffer) c _ _ (Keeps-same c _ refl refl) (
                  if-Keeps (is_packet 9 5 buffer) c _ _ (Keeps-same c _ refl refl) (
                    if-Keeps (get_or buffer 0 0 == 10) c _ _
                      (record { status = refl; keybinds = refl })
                      (if-Keeps (is_packet 11 9 buffer) c _ _ (Keeps-same c _ refl refl)
                        (Keeps-same c _ refl refl)))))))))

  receive_loop-Keeps :
      (arrivals : List (List ℕ × ℕ)) (c : RTypeClient) → Keeps c (receive_loop m arrivals c).0
  unfolding receive_loop receive_message
  receive_loop-Keeps [] c = Keeps-same c c refl refl
  receive_loop-Keeps (([], now) ∷ arrivals) c = Keeps-same c c refl refl
  receive_loop-Keeps ((b ∷ bs, now) ∷ arrivals) c =
      let next = (handle_message m now (buffer_of (b ∷ bs)) c).0 in
      Keeps-trans c next _ (handle_message-Keeps now (buffer_of (b ∷ bs)) c)
        (receive_loop-Keeps arrivals next)

  pub update-Keeps :
      (messages : List Text) (now : ℕ) (arrivals : List (List ℕ × ℕ)) (c : RTypeClient)
      → Keeps c (update m messages now arrivals c).0
  unfolding update ping_if_due
  update-Keeps messages now arrivals c =
      let chatted : RTypeClient = record c { chat_history = c.chat_history ++ messages } in
      let pinged = (ping_if_due now chatted).0 in
      Keeps-trans c pinged _ (Keeps-same c pinged (ground arith) (ground arith))
        (receive_loop-Keeps arrivals pinged)
